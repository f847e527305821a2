-- ===== src/Cookbook/Versioning/Numbers.antt =====
-- cookbook/versioning.go: `extractVerNums`, which reads the numbers of a version with base 0, so
-- that a leading zero makes them octal.
use goiardi.Base.{
  ℕ, zero, suc, ◌+◌, ◌-◌, ◌*◌, ◌<◌, ◌≡◌, ◌≢◌, refl, ap, ◌∙◌, false, ◌&&◌, Option, none, some, List,
  [], ◌∷◌, ◌++◌, nat_eq, list_eq, if◌then◌else◌, ltb, leb, nat_beq, arith,
}
use goiardi.Base.Text.{Text, codes}
use goiardi.Base.Int.{int_bound}
use goiardi.Base.Split.{split}
use goiardi.Base.Decimal.{
  max_uint64, parse_unsigned, format_int, to_digits, parse_digits, format_int-IsDecimal,
  format_int-lead, IsDecimal,
}
use goiardi.Datastore.NilArrays.{string}
use goiardi.Objects.{Result, ok, err, errorf}
use goiardi.Util.Validations.{validate_as_version, range_error}
use goiardi.Util.Validations.Versions.{validate_as_version-print_version}
use goiardi.Cookbook.Versioning.Canonical.{
  Version, IsVersion, Fits, print_version, patch_parts, split-print_version,
}

-- `ParseUint` with base 8 on digits: `none` is a syntax error, and a number out of range ends it.
unfoldable pub parse_octal : Text → ℕ → Option ℕ
parse_octal [] n = some n
parse_octal (c ∷ s) n =
    let n' = n * 8 + (c - b'0') in
    let rest = parse_octal s n' in
    if leb b'0' c && leb c b'7' then if ltb max_uint64 n' then some max_uint64 else rest else none

-- The number behind a base prefix; the version is digits and full stops, so the prefix is a zero.
unfoldable pub parse_based : Text → Option ℕ
unfolding parse_octal
parse_based (c ∷ d ∷ s) =
    if nat_beq c b'0' then parse_octal (d ∷ s) 0 else parse_unsigned (c ∷ d ∷ s)
parse_based s = parse_unsigned s

unfoldable pub as_int : Text → Option ℕ → Result ℕ
as_int s none =
    err (
      errorf
        (codes "strconv.ParseInt: parsing " ++ (b'"' ∷ (s ++ b'"' ∷ codes ": invalid syntax"))))
as_int s (some n) = if ltb n int_bound then ok n else err (range_error s)

-- `ParseInt` with base 0.
unfoldable pub parse_int : Text → Result ℕ
unfolding parse_based as_int
parse_int s = as_int s (parse_based s)

-- `a, err := f()` where an error ends the function.
abbrev pub then_with : {A B : Type 0} → Result A → (A → Result B) → Result B
then_with (err e) f = err e
then_with (ok a) f = f a

-- The numbers of the parts: the test for their count can never hold, and a part that is missing is
-- a panic, here an error.
unfoldable pub ver_nums : List Text → Result (ℕ × ℕ × ℕ)
unfolding parse_int
ver_nums (a ∷ b ∷ []) =
    then_with (parse_int a) (λ maj. then_with (parse_int b) (λ min. ok (maj, min, 0)))
ver_nums (a ∷ b ∷ c ∷ []) = then_with (parse_int a) (λ maj.
    then_with (parse_int b) (λ min. then_with (parse_int c) (λ patch. ok (maj, min, patch))))
ver_nums (a ∷ b ∷ c ∷ d ∷ rest) =
    then_with (parse_int a) (λ maj. then_with (parse_int b) (λ min. ok (maj, min, 0)))
ver_nums (a ∷ []) = then_with (parse_int a) (λ maj. err (errorf (codes "index out of range")))
ver_nums [] = err (errorf (codes "index out of range"))

-- `extractVerNums`.
unfoldable pub extract_ver_nums : Text → Result (ℕ × ℕ × ℕ)
unfolding ver_nums split
extract_ver_nums cb_version =
    then_with (validate_as_version (string cb_version)) (λ ver. ver_nums (split b'.' cb_version))

parse_based-lead :
    (c : ℕ) (s : Text) → nat_beq c b'0' ≡ false → parse_based (c ∷ s) ≡ parse_unsigned (c ∷ s)
unfolding parse_based
parse_based-lead c [] h = refl
parse_based-lead c (d ∷ s) h = rw h refl

based_zero : parse_based (format_int 0) ≡ some 0
unfolding parse_based format_int to_digits parse_unsigned parse_digits
based_zero = refl

parse_int-format_int : (n : ℕ) → n < int_bound → parse_int (format_int n) ≡ ok n
unfolding parse_int
parse_int-format_int n h = ap (as_int (format_int n)) (based n h) ∙ as_small n h
  where
    as_small : (n : ℕ) → n < int_bound → as_int (format_int n) (some n) ≡ ok n
    as_small n h = ground arith

    based : (n : ℕ) → n < int_bound → parse_based (format_int n) ≡ some n
    based zero h = based_zero
    based (suc m) h =
        let (c, s, e, d) = format_int-lead (suc m) h (omega arith) in
        let whole = IsDecimal.value (format_int-IsDecimal (suc m) h) in
        rw e (parse_based-lead c s d) ∙ rw e at whole

abbrev pub patch_number : Option ℕ → ℕ
patch_number none = 0
patch_number (some n) = n

-- `extractVerNums` of a printed version whose numbers fit an `int`, but for "0.0", returns its
-- numbers, with 0 for the third one if there is none.
pub extract_ver_nums-print_version :
    (v : Version)
    → IsVersion v
    → print_version v ≢ codes "0.0"
    → extract_ver_nums (print_version v) ≡ ok (v.major, v.minor, patch_number v.patch)
unfolding extract_ver_nums ver_nums
extract_ver_nums-print_version v h ne =
    rw (validate_as_version-print_version v h ne, split-print_version v h)
      (by_patch v.patch h.patch_fits)
  where
    by_patch :
        (p : Option ℕ)
        → Fits p
        → ver_nums (format_int v.major ∷ format_int v.minor ∷ patch_parts p)
          ≡ ok (v.major, v.minor, patch_number p)
    by_patch none k =
        rw (parse_int-format_int v.major h.major_fits, parse_int-format_int v.minor h.minor_fits)
          refl
    by_patch (some n) k =
        rw
          (
            parse_int-format_int v.major h.major_fits,
            parse_int-format_int v.minor h.minor_fits,
            parse_int-format_int n k,
          )
          refl
