-- ===== src/Datastore/NilArrays.antt =====
-- datastore/datastore.go: `ChkNilArray` and `WalkMapForNil`, which turn nil slices into empty ones.
-- A `Value` is what an `interface{}` of a Chef object holds; a nil slice is not an empty one.
pub mod Laws
use Prim.Native.Nat.{ℕ}
use mathlib.Core.Path.{◌≡◌}
use mathlib.Core.Bool.{Bool}
use mathlib.Core.List.{List, [], map}
use goiardi.Base.Text.{Text}
use goiardi.Base.{length}

mutual
  pub data Value : Type 0 where
    null : Value
    boolean : Bool → Value
    number : ℕ → Value
    string : Text → Value
    -- `[]string`
    nil_strings : Value
    strings : List Text → Value
    -- `[]interface{}`
    nil_items : Value
    items : Items → Value
    -- a slice of any other type
    nil_slice : Value
    slice : Items → Value
    -- `map[string]interface{}`
    members : Members → Value

  pub data Items : Type 0 where
    end : Items
    item : Value → Items → Items

  pub data Members : Type 0 where
    none_left : Members
    member : Text → Value → Members → Members

unfoldable mutual
  pub walk_map_for_nil : Value → Value
  walk_map_for_nil (members m) = members (walk_members m)
  walk_map_for_nil nil_strings = strings []
  walk_map_for_nil nil_items = items end
  walk_map_for_nil r = r

  pub walk_members : Members → Members
  walk_members none_left = none_left
  walk_members (member k v m) = member k (walk_map_for_nil v) (walk_members m)

-- One round of the loop of `ChkNilArray`, by the field's kind.
unfoldable pub chk_nil_field : Value → Value
unfolding walk_map_for_nil walk_members
chk_nil_field nil_strings = strings []
chk_nil_field nil_items = items end
chk_nil_field nil_slice = slice end
chk_nil_field (members m) = walk_map_for_nil (members m)
chk_nil_field v = v

-- `reflect` on a pointer to a struct: its fields in order, read and written.
pub record Reflect (V : Type 0) : Type 0 where
  pub fields : V → List Value
  pub set_fields : V → List Value → V
  pub set_fields-fields : (v : V) → set_fields v (fields v) ≡ v
  -- a field takes a value of its own kind
  pub fields-set_fields :
      (v : V) → fields (set_fields v (map chk_nil_field (fields v))) ≡ map chk_nil_field (fields v)

module _ {V : Type 0} ⦃r : Reflect V⦄ where
  unfoldable pub chk_nil_array : V → V
  unfolding chk_nil_field
  chk_nil_array obj = r.set_fields obj (map chk_nil_field (r.fields obj))

-- What `WalkMapForNil` leaves: no nil slice of strings or of items in any map.
mutual
  pub IsWalked : Value → Type 0
  IsWalked nil_strings = ⊥
  IsWalked nil_items = ⊥
  IsWalked (members m) = AllWalked m
  IsWalked v = Unit

  pub AllWalked : Members → Type 0
  AllWalked none_left = Unit
  AllWalked (member k v m) = IsWalked v × AllWalked m

-- And in a field no nil slice at all.
unfoldable pub IsFilled : Value → Type 0
unfolding IsWalked AllWalked
IsFilled nil_slice = ⊥
IsFilled v = IsWalked v
