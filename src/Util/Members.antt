-- ===== src/Util/Members.antt =====
-- Go's `map[string]interface{}` as the decoder of JSON makes it.
use goiardi.Base.{ℕ, suc, Option, none, some, ◌==◌, nat_eq, list_eq, if◌then◌else◌}
use goiardi.Base.Text.{Text}
use goiardi.Datastore.NilArrays.{Value, null, Members, none_left, member}

-- `v, ok := m[k]`
unfoldable pub find_member : Text → Members → Option Value
find_member k none_left = none
find_member k (member j v m) = let rest = find_member k m in if j == k then some v else rest

-- `m[k]`, nil where there is none.
unfoldable pub get_member : Text → Members → Value
unfolding find_member
get_member k m = elim (find_member k m) [ none ↦ null | some v ↦ v ]

-- `m[k] = v`
unfoldable pub set_member : Text → Value → Members → Members
set_member k v none_left = member k v none_left
set_member k v (member j w m) =
    let rest = set_member k v m in if j == k then member j v m else member j w rest

-- `len(m)`
unfoldable pub count_members : Members → ℕ
count_members none_left = 0
count_members (member k v m) = suc (count_members m)
