-- ===== src/Tests/Inputs.antt =====
-- Tests of util/ and of `ChkNilArray`.
use goiardi.Base.{
  ◌↔◌, ◌≡◌, ◌≢◌, refl, Option, none, some, List, [], ◌∷◌, nat_eq, list_eq, list_beq, contains,
  arith, All, map,
}
use goiardi.Base.Text.{Text, codes, text_ltb}
use goiardi.Base.Split.{split}
use goiardi.Base.Decimal.{format_int, to_digits}
use goiardi.Datastore.NilArrays.{
  Value, strings, string, nil_strings, Reflect, chk_nil_array, IsFilled, chk_nil_field,
}
use goiardi.Datastore.NilArrays.Laws.{chk_nil_array-IsFilled}
use goiardi.Objects.{ok}
use goiardi.Util.Strings.{remove_dup_strings, IsStrict, remove_dup_strings_lem}
use goiardi.Util.Validations.{validate_as_version}
use goiardi.Util.Validations.RunList.{
  validate_run_list, normalize, validate_rl_item, run_list_result, remove_dupes, match_brackets,
  before_close, check_item, is_item_byte, validate_role_name, validate_recipe_name, check_at,
}
use goiardi.Util.Validations.Laws.{IsRunList, validate_run_list_lem}
use goiardi.Util.Validations.VersionText.{IsVersionText}
use goiardi.Util.Validations.Accepted.{validate_as_version_lem}
use goiardi.Cookbook.Versioning.Numbers.{extract_ver_nums, extract_ver_nums-print_version}
use goiardi.Cookbook.Versioning.Canonical.{Version, print_version}

remove_dup_strings_lem_example :
    IsStrict (remove_dup_strings (codes "a" ∷ codes "a" ∷ codes "b" ∷ []))
    × ((a : Text)
        → contains (remove_dup_strings (codes "a" ∷ codes "a" ∷ codes "b" ∷ [])) a
          ≡ contains (codes "a" ∷ codes "a" ∷ codes "b" ∷ []) a)
unfolding text_ltb
remove_dup_strings_lem_example =
    remove_dup_strings_lem (codes "a" ∷ codes "a" ∷ codes "b" ∷ [])
      ((refl, (refl, tt)), ((refl, tt), (tt, tt)))

abbrev raw : List Text
raw = codes "apt" ∷ codes "role[web]" ∷ codes "recipe[apt]" ∷ []

abbrev clean : List Text
clean = codes "recipe[apt]" ∷ codes "role[web]" ∷ []

validate_run_list_lem_example : (js : List Text) × (normalize raw ≡ some js) × IsRunList js clean
unfolding validate_run_list normalize validate_rl_item run_list_result remove_dupes match_brackets
    before_close check_item is_item_byte validate_role_name validate_recipe_name check_at split
    list_eq list_beq
validate_run_list_lem_example = validate_run_list_lem raw clean refl

abbrev v120 : Version
v120 = record { major = 1; minor = 20; patch = some 0 }

differs : print_version v120 ≢ codes "0.0"
unfolding format_int to_digits
differs e = ground (arith, e)

validate_as_version_lem_example :
    (validate_as_version (string (codes "1.20.")) ≡ ok (codes "1.20."))
    ↔ ((codes "1.20." ≡ codes "1.20.") × IsVersionText (codes "1.20."))
validate_as_version_lem_example = validate_as_version_lem (codes "1.20.") (codes "1.20.")

extract_ver_nums-print_version_example : extract_ver_nums (print_version v120) ≡ ok (1, 20, 0)
extract_ver_nums-print_version_example =
    extract_ver_nums-print_version v120
      (record { major_fits = omega arith; minor_fits = omega arith; patch_fits = omega arith })
      differs

-- An object with one field, a slice of strings.
abbrev slot_of : List Value → Option (List Text) → Option (List Text)
slot_of (strings l ∷ []) old = some l
slot_of (nil_strings ∷ []) old = none
slot_of fs old = old

abbrev field_of : Option (List Text) → Value
field_of none = nil_strings
field_of (some l) = strings l

slot_same : (v : Option (List Text)) → slot_of (field_of v ∷ []) v ≡ v
slot_same none = refl
slot_same (some l) = refl

slot_filled :
    (v : Option (List Text))
    → field_of (slot_of (map chk_nil_field (field_of v ∷ [])) v) ∷ []
      ≡ map chk_nil_field (field_of v ∷ [])
unfolding chk_nil_field
slot_filled none = refl
slot_filled (some l) = refl

abbrev slot_reflect : Reflect (Option (List Text))
slot_reflect = record {
  fields = λ v. field_of v ∷ [];
  set_fields = λ v fs. slot_of fs v;
  set_fields-fields = slot_same;
  fields-set_fields = slot_filled;
}

chk_nil_array-IsFilled_example :
    All IsFilled (slot_reflect.fields (chk_nil_array ⦃r = slot_reflect⦄ none))
chk_nil_array-IsFilled_example = chk_nil_array-IsFilled ⦃r = slot_reflect⦄ none
