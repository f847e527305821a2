-- ===== src/Util/Validations/RunList.antt =====
-- util/validations.go: `ValidateRunList` and the checks of its items.
use goiardi.Base.{
  ℕ, Bool, true, false, not, ◌&&◌, ◌||◌, Option, none, some, List, [], ◌∷◌, ◌++◌, ◌==◌, nat_eq,
  list_eq, if◌then◌else◌, nat_beq, all, contains, ◌>>=◌,
}
use goiardi.Base.Text.{Text, codes}
use goiardi.Base.Split.{split}
use goiardi.Datastore.NilArrays.{Value, null, nil_strings, strings}
use goiardi.Objects.{Result, ok, err, errorf}
use goiardi.Util.Validations.{is_word, is_number}

unfoldable pub validate_role_name : Text → Bool
validate_role_name = all (λ c. is_word c || nat_beq c b'-')

-- `^\d+\.\d+(\.\d+)?$`
unfoldable pub is_recipe_version : List Text → Bool
unfolding is_number
is_recipe_version (a ∷ b ∷ []) = is_number a && is_number b
is_recipe_version (a ∷ b ∷ c ∷ []) = is_number a && (is_number b && is_number c)
is_recipe_version _ = false

-- What follows the first `@` up to the next, if there is one.
unfoldable pub check_at : List Text → Bool
unfolding is_recipe_version split
check_at (name ∷ version ∷ rest) = is_recipe_version (split b'.' version)
check_at _ = true

unfoldable pub validate_recipe_name : Text → Bool
unfolding check_at split
validate_recipe_name name =
    all (λ c. is_word c || contains (codes "@.:-") c) name && check_at (split b'@' name)

-- `(.*?)\]$`
unfoldable pub before_close : Text → Option Text
before_close [] = none
before_close (c ∷ []) = if nat_beq c b']' then some [] else none
before_close (c ∷ d ∷ s) = elim (before_close (d ∷ s)) [
  | none ↦ none
  | some inner ↦ some (c ∷ inner)
]

-- `^(\w*)\[(.*?)\]$`
unfoldable pub match_brackets : Text → Option (Text × Text)
unfolding before_close
match_brackets [] = none
match_brackets (c ∷ s) =
    let rest = match_brackets s in
    if nat_beq c b'['
    then elim (before_close s) [ none ↦ none | some inner ↦ some ([], inner) ]
    else if is_word c
    then elim rest [ none ↦ none | some (front, inner) ↦ some (c ∷ front, inner) ]
    else none

unfoldable pub is_item_byte : ℕ → Bool
is_item_byte c = is_word c || contains (codes "[]@.:-") c

-- The branches of `validateRLItem` by what `inspectRegexp` finds, where the type is not empty.
unfoldable pub check_item : Text → Option (Text × Text) → Option Text
unfolding validate_role_name validate_recipe_name
check_item item (some (rl_type, rl_item)) =
    if rl_type == codes "role"
    then (if validate_role_name rl_item then some item else none)
    else if rl_type == codes "recipe"
    then (if validate_recipe_name rl_item then some item else none)
    else if rl_type == []
    then (if validate_recipe_name item then some (codes "recipe[" ++ (item ++ codes "]")) else none)
    else none
check_item item none =
    if validate_recipe_name item then some (codes "recipe[" ++ (item ++ codes "]")) else none

-- `validateRLItem`; `none` is its one error, "Field 'run_list' is not a valid run list".
unfoldable pub validate_rl_item : Text → Option Text
unfolding is_item_byte check_item match_brackets
validate_rl_item item =
    if (item == []) || not (all is_item_byte item)
    then none
    else check_item item (match_brackets item)

-- The first loop of `ValidateRunList`. The code writes the new items over the old ones.
unfoldable pub normalize : List Text → Option (List Text)
unfolding validate_rl_item
normalize [] = some []
normalize (r ∷ rl) = do j ← validate_rl_item r; js ← normalize rl; some (j ∷ js)

-- The second loop; `found` holds what is in the result.
unfoldable pub remove_dupes : List Text → List Text → List Text
remove_dupes found [] = []
remove_dupes found (u ∷ rl) =
    let known = remove_dupes found rl in
    let new = u ∷ remove_dupes (u ∷ found) rl in if contains found u then known else new

unfoldable pub run_list_result : Option (List Text) → Result (Option (List Text))
unfolding remove_dupes
run_list_result none = err (errorf (codes "Field 'run_list' is not a valid run list"))
run_list_result (some rl) = ok (some (remove_dupes [] rl))

-- `ValidateRunList`; the inner `none` is the nil slice.
unfoldable pub validate_run_list : Value → Result (Option (List Text))
unfolding normalize run_list_result
validate_run_list (strings rl) = run_list_result (normalize rl)
validate_run_list nil_strings = ok (some [])
validate_run_list null = ok none
validate_run_list _ = err (errorf (codes "Not a proper runlist []string"))
