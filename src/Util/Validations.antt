-- ===== src/Util/Validations.antt =====
-- util/validations.go: checks of what clients send. A regular expression is written out as the test
-- that it makes; a set of characters is a set of bytes, as every set here is of ASCII and a byte
-- above it belongs to no member.
pub mod RunList
pub mod Versions
pub mod VersionText
pub mod Accepted
pub mod Metadata
pub mod Laws
use goiardi.Base.{
  ℕ, zero, suc, Bool, true, false, not, ◌&&◌, ◌||◌, Option, none, some, List, [], ◌∷◌, ◌++◌, ◌==◌,
  nat_eq, list_eq, if◌then◌else◌, ltb, leb, nat_beq, all, contains,
}
use goiardi.Base.Text.{Text, codes}
use goiardi.Base.Split.{split}
use goiardi.Base.Decimal.{is_digit, parse_unsigned}
use goiardi.Base.Int.{int_bound}
use goiardi.Datastore.NilArrays.{Value, null, boolean, string, members, Members, none_left}
use goiardi.Objects.{Result, ok, err, errorf, Gerror}
use goiardi.Util.Members.{find_member}

abbrev pub is_upper : ℕ → Bool
is_upper c = leb b'A' c && leb c b'Z'

abbrev pub is_lower : ℕ → Bool
is_lower c = leb b'a' c && leb c b'z'

-- `\w`
abbrev pub is_word : ℕ → Bool
is_word c = is_upper c || (is_lower c || (is_digit c || nat_beq c b'_'))

unfoldable pub validate_name : Text → Bool
validate_name = all (λ c. is_word c || contains (codes ".-") c)

unfoldable pub validate_user_name : Text → Bool
validate_user_name = all (λ c. is_lower c || (is_digit c || contains (codes "_.-") c))

unfoldable pub validate_dbag_name : Text → Bool
validate_dbag_name = all (λ c. is_word c || contains (codes ".:-") c)

unfoldable pub validate_env_name : Text → Bool
validate_env_name = all (λ c. is_word c || nat_beq c b'-')

unfoldable pub validate_as_string : Value → Result Text
validate_as_string (string str) = ok str
validate_as_string null = err (errorf (codes "Field 'name' missing"))
validate_as_string _ = err (errorf (codes "Field 'name' invalid"))

unfoldable pub validate_as_bool : Value → Result Bool
validate_as_bool (boolean b) = ok b
validate_as_bool _ = err (errorf (codes "Invalid bool"))

unfoldable pub validate_as_field_string : Value → Result Text
validate_as_field_string (string str) = ok str
validate_as_field_string null = err (errorf (codes "Field 'name' nil"))
validate_as_field_string _ = err (errorf (codes "Field 'name' missing"))

unfoldable pub validate_attributes : Text → Value → Result Members
validate_attributes key (members attrs) = ok attrs
validate_attributes key null = ok none_left
validate_attributes key _ = err (errorf (codes "Field '" ++ (key ++ codes "' is not a hash")))

-- `\d+`
unfoldable pub is_number : Text → Bool
is_number [] = false
is_number (c ∷ s) = all is_digit (c ∷ s)

-- `^(\d+)\.(\d+)(\.?)(\d+)?$`, with the groups 1, 2 and 4. Only full stops separate the digits, so
-- the parts between them are the groups.
unfoldable pub match_version : List Text → Option (Text × Text × Text)
unfolding is_number
match_version (a ∷ b ∷ []) = if is_number a && is_number b then some (a, b, []) else none
match_version (a ∷ b ∷ c ∷ []) =
    if is_number a && (is_number b && all is_digit c) then some (a, b, c) else none
match_version _ = none

-- Whether `ParseInt` to 64 bits takes a group of digits.
unfoldable pub fits_int : Text → Bool
fits_int n = elim (parse_unsigned n) [ none ↦ false | some v ↦ ltb v int_bound ]

abbrev pub range_error : Text → Gerror
range_error n =
    errorf
      (codes "strconv.ParseInt: parsing " ++ (b'"' ∷ (n ++ b'"' ∷ codes ": value out of range")))

-- The groups are checked in turn, and an empty last one is not.
unfoldable pub check_groups : Text → Option (Text × Text × Text) → Result Text
unfolding fits_int
check_groups ver none = err (errorf (codes "Invalid version number"))
check_groups ver (some (a, b, c)) =
    if ver == codes "0.0"
    then err (errorf (codes "Invalid version number"))
    else if not (fits_int a)
    then err (range_error a)
    else if not (fits_int b)
    then err (range_error b)
    else if not (c == []) && not (fits_int c)
    then err (range_error c)
    else ok ver

unfoldable pub validate_as_version : Value → Result Text
unfolding match_version check_groups split
validate_as_version (string ver) = check_groups ver (match_version (split b'.' ver))
validate_as_version null = ok (codes "0.0.0")
validate_as_version _ = err (errorf (codes "Invalid version number"))

-- `(.*)` ends at a line feed.
unfoldable pub first_line : Text → Text
first_line [] = []
first_line (c ∷ s) = let rest = first_line s in if nat_beq c 10 then [] else c ∷ rest

-- `^([<>=~]{1,2}) (.*)`, with group 2.
unfoldable pub match_constraint : Text → Option Text
unfolding first_line
match_constraint (a ∷ b ∷ c ∷ s) =
    if contains (codes "<>=~") a && nat_beq b b' '
    then some (first_line (c ∷ s))
    else if contains (codes "<>=~") a && (contains (codes "<>=~") b && nat_beq c b' ')
    then some (first_line s)
    else none
match_constraint (a ∷ b ∷ []) =
    if contains (codes "<>=~") a && nat_beq b b' ' then some [] else none
match_constraint _ = none

unfoldable pub check_constraint : Option Text → Result Bool
unfolding validate_as_version
check_constraint none = err (errorf (codes "Invalid constraint"))
check_constraint (some ver) = elim (validate_as_version (string ver)) [
  | err verr ↦ err verr
  | ok v ↦ ok true
]

unfoldable pub validate_as_constraint : Value → Result Bool
unfolding match_constraint check_constraint
validate_as_constraint (string t) = check_constraint (match_constraint t)
validate_as_constraint _ = err (errorf (codes "Invalid constraint"))

-- `Atoi` of a text that starts with a digit; `none` is no error.
unfoldable pub check_num : Text → Option ℕ → Option Gerror
check_num nr none =
    some
      (errorf (codes "strconv.Atoi: parsing " ++ (b'"' ∷ (nr ++ b'"' ∷ codes ": invalid syntax"))))
check_num nr (some n) =
    if ltb n int_bound
    then none
    else some (
        errorf
          (codes "strconv.Atoi: parsing " ++ (b'"' ∷ (nr ++ b'"' ∷ codes ": value out of range"))))

unfoldable pub validate_num_versions : Text → Option Gerror
unfolding check_num parse_unsigned
validate_num_versions [] = some (errorf (codes "Invalid num_versions"))
validate_num_versions (c ∷ s) =
    if c ∷ s == codes "all"
    then none
    else if not (is_digit c)
    then some (errorf (codes "Invalid num_versions"))
    else check_num (c ∷ s) (parse_unsigned (c ∷ s))

-- A missing or ill-typed flag counts as false.
unfoldable pub is_set : Option Value → Bool
unfolding validate_as_bool
is_set none = false
is_set (some v) = elim (validate_as_bool v) [ err e ↦ false | ok b ↦ b ]

unfoldable pub check_admin_plus_validator : Members → Option Gerror
unfolding is_set find_member
check_admin_plus_validator json_actor =
    let ab = is_set (find_member (codes "admin") json_actor) in
    let vb = is_set (find_member (codes "validator") json_actor) in
    if ab && vb
    then some (errorf (codes "Client can be either an admin or a validator, but not both."))
    else none
