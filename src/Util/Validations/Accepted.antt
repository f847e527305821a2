-- ===== src/Util/Validations/Accepted.antt =====
-- util/validations.go: exactly which texts `ValidateAsVersion` accepts.
use goiardi.Base.{
  ◌≡◌, ◌≢◌, ◌⊎◌, ◌↔◌, refl, ap, sym, ◌∙◌, true, false, not, ◌&&◌, some, [], ◌∷◌, ◌++◌, ◌==◌, ==_iff,
  ==_ne, nat_eq, list_eq, all, arith, inl, inr,
}
use mathlib.Core.List.{append-nil}
use goiardi.Base.Text.{Text, codes}
use goiardi.Base.Split.{split, split-append, split-lacks}
use goiardi.Base.Decimal.{is_digit}
use goiardi.Datastore.NilArrays.{string}
use goiardi.Objects.{ok}
use goiardi.Util.Validations.{match_version, fits_int, check_groups, validate_as_version}
use goiardi.Util.Validations.VersionText.{
  IsNumber, IsTail, IsVersionText, join-split, digits-lack_stop, number-fits, parts-accepted,
}

-- The parts of a text of that form, and how its groups are checked.
split-two : (a b : Text) → IsNumber a → IsNumber b → split b'.' (a ++ b'.' ∷ (b ++ [])) ≡ a ∷ b ∷ []
split-two a b na nb = rw (append-nil b) (
    split-append b'.' a b (digits-lack_stop a na.0)
    ∙ ap (◌∷◌ a) (split-lacks b'.' b (digits-lack_stop b nb.0)))

split-three :
    (a b c : Text)
    → IsNumber a
    → IsNumber b
    → all is_digit c ≡ true
    → split b'.' (a ++ b'.' ∷ (b ++ b'.' ∷ c)) ≡ a ∷ b ∷ c ∷ []
split-three a b c na nb d =
    split-append b'.' a (b ++ b'.' ∷ c) (digits-lack_stop a na.0)
    ∙ ap (◌∷◌ a) (
        split-append b'.' b c (digits-lack_stop b nb.0)
        ∙ ap (◌∷◌ b) (split-lacks b'.' c (digits-lack_stop c d)))

check_groups-accepts :
    (s a b c : Text)
    → IsNumber a
    → IsNumber b
    → (c ≡ []) ⊎ IsNumber c
    → s ≢ codes "0.0"
    → check_groups s (some (a, b, c)) ≡ ok s
unfolding check_groups
check_groups-accepts s a b c na nb nc nz =
    rw (==_ne s (codes "0.0") nz, (number-fits a na).1, (number-fits b nb).1, last nc) refl
  where
    last : (c ≡ []) ⊎ IsNumber c → (not (c == []) && not (fits_int c)) ≡ false
    last (inl e) = ground (arith, (==_iff c []).1 e)
    last (inr n) = ground (arith, (number-fits c n).1)

text-accepted : (s : Text) → IsVersionText s → validate_as_version (string s) ≡ ok s
unfolding validate_as_version match_version
text-accepted s v = by_tail v.tail
  where
    groups : Text → Type 0
    groups c = match_version (split b'.' s) ≡ some (v.major, v.minor, c)

    accepts : (c : Text) → (c ≡ []) ⊎ IsNumber c → groups c → validate_as_version (string s) ≡ ok s
    accepts c nc e =
        rw e (check_groups-accepts s v.major v.minor c v.major_number v.minor_number nc v.nonzero)

    digits : (c : Text) → (c ≡ []) ⊎ IsNumber c → all is_digit c ≡ true
    digits c (inl e) = rw e refl
    digits c (inr n) = n.0

    by_tail : IsTail v.rest → validate_as_version (string s) ≡ ok s
    by_tail (inl e) = accepts [] (inl refl) (
        ap match_version (
          ap (split b'.') (v.whole ∙ ap (λ x. v.major ++ b'.' ∷ (v.minor ++ x)) e)
          ∙ split-two v.major v.minor v.major_number v.minor_number)
        ∙ rw ((number-fits v.major v.major_number).0, (number-fits v.minor v.minor_number).0) refl)
    by_tail (inr (c, e, nc)) = accepts c nc (
        ap match_version (
          ap (split b'.') (v.whole ∙ ap (λ x. v.major ++ b'.' ∷ (v.minor ++ x)) e)
          ∙ split-three v.major v.minor c v.major_number v.minor_number (digits c nc))
        ∙ rw
            (
              (number-fits v.major v.major_number).0,
              (number-fits v.minor v.minor_number).0,
              digits c nc,
            )
            refl)

-- `ValidateAsVersion` of a string accepts exactly two numbers with a full stop between them, or
-- these with one more full stop and a third number or nothing behind it, each of digits with a
-- value that fits an `int`, but not "0.0"; and it returns the string as it is.
pub validate_as_version_lem :
    (s t : Text) → (validate_as_version (string s) ≡ ok t) ↔ ((t ≡ s) × IsVersionText s)
unfolding validate_as_version
validate_as_version_lem s t = (
  parts-accepted s t (split b'.' s) (join-split b'.' s),
  λ (e, v). text-accepted s v ∙ ap ok (sym e),
)
