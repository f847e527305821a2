-- ===== src/Datastore/NilArrays/Laws.antt =====
-- datastore/datastore.go: `ChkNilArray` fills every nil slice, and doing it again changes nothing.
use mathlib.Core.Path.{◌≡◌, refl, ap, sym, ◌∙◌, subst}
use mathlib.Core.List.{List, [], ◌∷◌, map}
use goiardi.Base.{All}
use goiardi.Datastore.NilArrays.{
  Value, null, boolean, number, string, nil_strings, strings, nil_items, items, nil_slice, slice,
  members, Members, none_left, member, walk_map_for_nil, walk_members, chk_nil_field, Reflect,
  chk_nil_array, IsWalked, AllWalked, IsFilled,
}

mutual
  unfolding walk_map_for_nil walk_members IsWalked AllWalked

  walk_map_for_nil-IsWalked : (v : Value) → IsWalked (walk_map_for_nil v)
  walk_map_for_nil-IsWalked null = tt
  walk_map_for_nil-IsWalked (boolean b) = tt
  walk_map_for_nil-IsWalked (number n) = tt
  walk_map_for_nil-IsWalked (string s) = tt
  walk_map_for_nil-IsWalked nil_strings = tt
  walk_map_for_nil-IsWalked (strings l) = tt
  walk_map_for_nil-IsWalked nil_items = tt
  walk_map_for_nil-IsWalked (items l) = tt
  walk_map_for_nil-IsWalked nil_slice = tt
  walk_map_for_nil-IsWalked (slice l) = tt
  walk_map_for_nil-IsWalked (members m) = walk_members-AllWalked m

  walk_members-AllWalked : (m : Members) → AllWalked (walk_members m)
  walk_members-AllWalked none_left = tt
  walk_members-AllWalked (member k v m) = (walk_map_for_nil-IsWalked v, walk_members-AllWalked m)

mutual
  unfolding walk_map_for_nil walk_members IsWalked AllWalked

  walk_map_for_nil-id : (v : Value) → IsWalked v → walk_map_for_nil v ≡ v
  walk_map_for_nil-id null h = refl
  walk_map_for_nil-id (boolean b) h = refl
  walk_map_for_nil-id (number n) h = refl
  walk_map_for_nil-id (string s) h = refl
  walk_map_for_nil-id nil_strings h = absurd h
  walk_map_for_nil-id (strings l) h = refl
  walk_map_for_nil-id nil_items h = absurd h
  walk_map_for_nil-id (items l) h = refl
  walk_map_for_nil-id nil_slice h = refl
  walk_map_for_nil-id (slice l) h = refl
  walk_map_for_nil-id (members m) h = ap members (walk_members-id m h)

  walk_members-id : (m : Members) → AllWalked m → walk_members m ≡ m
  walk_members-id none_left h = refl
  walk_members-id (member k v m) h =
      ap (λ x. member k x (walk_members m)) (walk_map_for_nil-id v h.0)
      ∙ ap (member k v) (walk_members-id m h.1)

chk_nil_field-IsFilled : (v : Value) → IsFilled (chk_nil_field v)
unfolding chk_nil_field IsFilled
chk_nil_field-IsFilled null = tt
chk_nil_field-IsFilled (boolean b) = tt
chk_nil_field-IsFilled (number n) = tt
chk_nil_field-IsFilled (string s) = tt
chk_nil_field-IsFilled nil_strings = tt
chk_nil_field-IsFilled (strings l) = tt
chk_nil_field-IsFilled nil_items = tt
chk_nil_field-IsFilled (items l) = tt
chk_nil_field-IsFilled nil_slice = tt
chk_nil_field-IsFilled (slice l) = tt
chk_nil_field-IsFilled (members m) = walk_members-AllWalked m

chk_nil_field-id : (v : Value) → IsFilled v → chk_nil_field v ≡ v
unfolding chk_nil_field IsFilled
chk_nil_field-id null h = refl
chk_nil_field-id (boolean b) h = refl
chk_nil_field-id (number n) h = refl
chk_nil_field-id (string s) h = refl
chk_nil_field-id nil_strings h = absurd h
chk_nil_field-id (strings l) h = refl
chk_nil_field-id nil_items h = absurd h
chk_nil_field-id (items l) h = refl
chk_nil_field-id nil_slice h = absurd h
chk_nil_field-id (slice l) h = refl
chk_nil_field-id (members m) h = ap members (walk_members-id m h)

All-IsFilled : (fs : List Value) → All IsFilled (map chk_nil_field fs)
All-IsFilled [] = tt
All-IsFilled (f ∷ fs) = (chk_nil_field-IsFilled f, All-IsFilled fs)

filled-id : (fs : List Value) → All IsFilled fs → map chk_nil_field fs ≡ fs
filled-id [] h = refl
filled-id (f ∷ fs) h =
    ap (λ x. x ∷ map chk_nil_field fs) (chk_nil_field-id f h.0) ∙ ap (◌∷◌ f) (filled-id fs h.1)

module _ {V : Type 0} ⦃r : Reflect V⦄ where
  -- After `ChkNilArray` no field of the object is a nil slice, and no map in a field holds, at any
  -- depth of maps, a nil slice of strings or of items.
  pub chk_nil_array-IsFilled : (obj : V) → All IsFilled (r.fields (chk_nil_array obj))
  unfolding chk_nil_array
  chk_nil_array-IsFilled obj =
      subst (All IsFilled) (sym (r.fields-set_fields obj)) (All-IsFilled (r.fields obj))

  -- `ChkNilArray` changes nothing in an object that it has been applied to.
  pub chk_nil_array-chk_nil_array :
      (obj : V) → chk_nil_array (chk_nil_array obj) ≡ chk_nil_array obj
  unfolding chk_nil_array
  chk_nil_array-chk_nil_array obj =
      let obj' = r.set_fields obj (map chk_nil_field (r.fields obj)) in
      ap (r.set_fields obj') (filled-id (r.fields obj') (chk_nil_array-IsFilled obj))
      ∙ r.set_fields-fields obj'
