-- ===== src/Util/Validations/Versions.antt =====
-- util/validations.go: `ValidateAsVersion` and `ValidateAsConstraint` on what cookbook/versioning.go
-- takes apart again.
use goiardi.Base.{
  ◌∙◌, ◌++◌, ap, sym, ℕ, contains, nat_beq, ℕ, ◌<◌, ◌≡◌, ◌≢◌, refl, true, false, not, ◌&&◌, Option,
  none, some, [], ◌∷◌, ◌==◌, ==_iff, nat_eq, list_eq, list_beq, arith,
}
use goiardi.Base.Text.{Text, codes}
use goiardi.Base.Split.{split}
use goiardi.Base.Int.{int_bound}
use goiardi.Base.Decimal.{format_int, format_int-IsDecimal}
use goiardi.Datastore.NilArrays.{string}
use goiardi.Objects.{ok}
use goiardi.Cookbook.Versioning.Constraints.{
  Op, exactly, above, below, at_least, at_most, pessimistic, print_op,
}
use goiardi.Cookbook.Versions.Printed.{print_constraint, contains-print_version}
use goiardi.Util.Validations.{
  is_number, match_version, fits_int, check_groups, validate_as_version, first_line,
  match_constraint, check_constraint, validate_as_constraint,
}
use goiardi.Cookbook.Versioning.Canonical.{
  Version, IsVersion, Fits, print_version, print_patch, patch_parts, split-print_version,
}

is_number-format_int : (n : ℕ) → n < int_bound → is_number (format_int n) ≡ true
unfolding is_number
is_number-format_int n h = let d = format_int-IsDecimal n h in rw d.shape (rw d.shape at d.digits)

fits_int-format_int : (n : ℕ) → n < int_bound → fits_int (format_int n) ≡ true
unfolding fits_int
fits_int-format_int n h = let d = format_int-IsDecimal n h in rw (d.value, fits_int) (ground arith)

-- Group 4 of a printed version.
third : Option ℕ → Text
third none = []
third (some n) = format_int n

match_version-print_version :
    (v : Version)
    → IsVersion v
    → match_version (split b'.' (print_version v))
      ≡ some (format_int v.major, format_int v.minor, third v.patch)
unfolding match_version third
match_version-print_version v h = rw (split-print_version v h) (by_patch v.patch h.patch_fits)
  where
    by_patch :
        (p : Option ℕ)
        → Fits p
        → match_version (format_int v.major ∷ format_int v.minor ∷ patch_parts p)
          ≡ some (format_int v.major, format_int v.minor, third p)
    by_patch none k =
        rw (is_number-format_int v.major h.major_fits, is_number-format_int v.minor h.minor_fits)
          refl
    by_patch (some n) k =
        let d = format_int-IsDecimal n k in
        rw
          (
            is_number-format_int v.major h.major_fits,
            is_number-format_int v.minor h.minor_fits,
            d.digits,
          )
          refl

fits_int-third : (p : Option ℕ) → Fits p → (not (third p == []) && not (fits_int (third p))) ≡ false
unfolding third list_eq list_beq
fits_int-third none k = refl
fits_int-third (some n) k = ground (arith, fits_int-format_int n k)

-- `ValidateAsVersion` accepts every printed version whose numbers fit an `int`, but for "0.0", and
-- returns it unchanged.
pub validate_as_version-print_version :
    (v : Version)
    → IsVersion v
    → print_version v ≢ codes "0.0"
    → validate_as_version (string (print_version v)) ≡ ok (print_version v)
unfolding validate_as_version check_groups
validate_as_version-print_version v h ne = rw (match_version-print_version v h) (
    ground (
      arith,
      ==_iff (print_version v) (codes "0.0"),
      fits_int-format_int v.major h.major_fits,
      fits_int-format_int v.minor h.minor_fits,
      fits_int-third v.patch h.patch_fits,
    ))

first_line-lacks : (s : Text) → contains s 10 ≡ false → first_line s ≡ s
unfolding first_line
first_line-lacks [] h = refl
first_line-lacks (c ∷ s) h = ground (arith, first_line-lacks s)

match_constraint-print_constraint :
    (op : Op) (c : ℕ) (s : Text)
    → contains (c ∷ s) 10 ≡ false
    → nat_beq c b' ' ≡ false
    → match_constraint (print_op op ++ b' ' ∷ c ∷ s) ≡ some (c ∷ s)
unfolding match_constraint
match_constraint-print_constraint exactly c s h k = ap some (first_line-lacks (c ∷ s) h)
match_constraint-print_constraint above c s h k = ap some (first_line-lacks (c ∷ s) h)
match_constraint-print_constraint below c s h k = ap some (first_line-lacks (c ∷ s) h)
match_constraint-print_constraint at_least c s h k = ap some (first_line-lacks (c ∷ s) h)
match_constraint-print_constraint at_most c s h k = ap some (first_line-lacks (c ∷ s) h)
match_constraint-print_constraint pessimistic c s h k = ap some (first_line-lacks (c ∷ s) h)

-- The first byte of a printed version is no blank.
print_version-starts :
    (v : Version)
    → IsVersion v
    → (c : ℕ) × (s : Text) × (print_version v ≡ c ∷ s) × (nat_beq c b' ' ≡ false)
print_version-starts v h =
    let d = format_int-IsDecimal v.major h.major_fits in
    let rest = b'.' ∷ (format_int v.minor ++ print_patch v.patch) in
    (d.first, d.others ++ rest, ap (λ t. t ++ rest) d.shape, ground (arith, rw d.shape at d.digits))

-- `ValidateAsConstraint` accepts one of the six operators, a blank, and any printed version whose
-- numbers fit an `int`, but for "0.0".
pub validate_as_constraint-print_constraint :
    (op : Op) (w : Version)
    → IsVersion w
    → print_version w ≢ codes "0.0"
    → validate_as_constraint (string (print_constraint op w)) ≡ ok true
unfolding validate_as_constraint check_constraint
validate_as_constraint-print_constraint op w h ne =
    let (c, s, e, k) = print_version-starts w h in
    let whole : match_constraint (print_constraint op w) ≡ some (print_version w) =
      ap (λ t. match_constraint (print_op op ++ b' ' ∷ t)) e
      ∙ match_constraint-print_constraint op c s
          (ap (λ t. contains t 10) (sym e) ∙ contains-print_version w 10 h refl refl) k
      ∙ ap some (sym e) in
    rw (whole, validate_as_version-print_version w h ne, check_constraint) refl
