-- ===== src/Util/Validations/VersionText.antt =====
-- util/validations.go: the texts of a version, and that `ValidateAsVersion` accepts no others.
use goiardi.Base.{
  ℕ, ◌<◌, ◌≡◌, ◌≢◌, ◌⊎◌, refl, ap, sym, ◌∙◌, true, false, not, ◌&&◌, none, some, List, [], ◌∷◌,
  ◌++◌, ◌==◌, ==_iff, nat_eq, list_eq, nat_beq, all, contains, arith, Bool-cases, Option-cases, inl,
  inr, nat_beq_iff,
}
use mathlib.Core.List.{append-nil}
use goiardi.Base.Text.{Text, codes, join}
use goiardi.Base.Split.{split, onto_first}
use goiardi.Base.Int.{int_bound}
use goiardi.Base.Decimal.{is_digit, parse_unsigned}
use goiardi.Objects.{ok}
use goiardi.Util.Validations.{is_number, match_version, fits_int, check_groups}

-- One or more digits, of a value that fits an `int`.
abbrev pub IsNumber : Text → Type 0
IsNumber a = (all is_digit a ≡ true) × (n : ℕ) × (parse_unsigned a ≡ some n) × (n < int_bound)

-- What follows the first two numbers: nothing, or a full stop with or without a third one.
abbrev pub IsTail : Text → Type 0
IsTail rest = (rest ≡ []) ⊎ ((c : Text) × (rest ≡ b'.' ∷ c) × ((c ≡ []) ⊎ IsNumber c))

pub record IsVersionText (s : Text) : Type 0 where
  pub major : Text
  pub minor : Text
  pub rest : Text
  pub whole : s ≡ major ++ b'.' ∷ (minor ++ rest)
  pub major_number : IsNumber major
  pub minor_number : IsNumber minor
  pub tail : IsTail rest
  pub nonzero : s ≢ codes "0.0"

-- `Split` is undone by `Join`.
split-cons :
    (sep : ℕ) (s : Text) → (part : Text) × (parts : List Text) × (split sep s ≡ part ∷ parts)
unfolding split
split-cons sep [] = ([], [], refl)
split-cons sep (c ∷ s) =
    let (part, parts, e) = split-cons sep s in
    elim (Bool-cases (nat_beq c sep)) [
      | inl at_sep ↦ ([], split sep s, rw (at_sep, split) refl)
      | inr other ↦ (c ∷ part, parts, rw (other, split) (ap (onto_first c) e))
    ]

pub join-split : (sep : ℕ) (s : Text) → join (split sep s) (sep ∷ []) ≡ s
unfolding split join
join-split sep [] = refl
join-split sep (c ∷ s) =
    let (part, parts, e) = split-cons sep s in
    let whole : join (part ∷ parts) (sep ∷ []) ≡ s =
      sym (ap (λ x. join x (sep ∷ [])) e) ∙ join-split sep s in
    elim (Bool-cases (nat_beq c sep)) [
      | inl at_sep ↦
          rw (at_sep, e)
            (ap (λ x. sep ∷ x) whole ∙ ap (λ x. x ∷ s) (sym ((nat_beq_iff c sep).0 at_sep)))
      | inr other ↦ rw (other, e) (onto part parts whole)
    ]
  where
    onto :
        (part : Text) (parts : List Text)
        → join (part ∷ parts) (sep ∷ []) ≡ s
        → join ((c ∷ part) ∷ parts) (sep ∷ []) ≡ c ∷ s
    onto part [] h = ap (◌∷◌ c) h
    onto part (p ∷ parts) h = ap (◌∷◌ c) h

pub digits-lack_stop : (s : Text) → all is_digit s ≡ true → contains s b'.' ≡ false
digits-lack_stop [] h = refl
digits-lack_stop (c ∷ s) h = ground (arith, digits-lack_stop s, nat_beq_iff c b'.')

is_number-digits : (s : Text) → is_number s ≡ true → all is_digit s ≡ true
unfolding is_number
is_number-digits [] h = refl
is_number-digits (c ∷ s) h = h

fits_int-value :
    (s : Text) → fits_int s ≡ true → (n : ℕ) × (parse_unsigned s ≡ some n) × (n < int_bound)
unfolding fits_int
fits_int-value s h = elim (Option-cases (parse_unsigned s)) [
  | inl e ↦ ground (arith, rw (e, fits_int) at h)
  | inr (n, e) ↦ (n, e, ground (arith, rw (e, fits_int) at h))
]

pub number-fits : (a : Text) → IsNumber a → (is_number a ≡ true) × (fits_int a ≡ true)
unfolding is_number fits_int parse_unsigned
number-fits [] (d, n, e, h) = ground (arith, e)
number-fits (c ∷ a) (d, n, e, h) = (d, rw (fits_int, e) (ground (arith, h)))

fits-IsNumber : (a : Text) → is_number a ≡ true → fits_int a ≡ true → IsNumber a
fits-IsNumber a d f = let (n, e, h) = fits_int-value a f in (is_number-digits a d, n, e, h)

-- What `check_groups` has tested of the groups that it lets through.
check_groups-ok :
    (s a b c t : Text)
    → check_groups s (some (a, b, c)) ≡ ok t
    → ((s == codes "0.0") ≡ false)
      × (fits_int a ≡ true)
      × (fits_int b ≡ true)
      × ((not (c == []) && not (fits_int c)) ≡ false)
      × (s ≡ t)
unfolding check_groups
check_groups-ok s a b c t h = ground arith

none-refused : (s t : Text) → check_groups s none ≡ ok t → (t ≡ s) × IsVersionText s
unfolding check_groups
none-refused s t h = ground (arith, h)

-- The third part, which may be empty.
third-tail :
    (c : Text)
    → all is_digit c ≡ true
    → (not (c == []) && not (fits_int c)) ≡ false
    → (c ≡ []) ⊎ IsNumber c
third-tail [] d h = inl refl
third-tail (x ∷ c) d h =
    let (n, e, k) = fits_int-value (x ∷ c) (ground (arith, h, ==_iff (x ∷ c) [])) in
    inr (d, n, e, k)

nonzero_text : (s : Text) → (s == codes "0.0") ≡ false → s ≢ codes "0.0"
nonzero_text s h e = ground (arith, h, (==_iff s (codes "0.0")).1 e)

pub parts-accepted :
    (s t : Text) (parts : List Text)
    → join parts (codes ".") ≡ s
    → check_groups s (match_version parts) ≡ ok t
    → (t ≡ s) × IsVersionText s
unfolding match_version join
parts-accepted s t [] e h = none-refused s t h
parts-accepted s t (a ∷ []) e h = none-refused s t h
parts-accepted s t (a ∷ b ∷ []) e h = elim (Bool-cases (is_number a && is_number b)) [
  | inl yes' ↦
      let (z, fa, fb, _, same) = check_groups-ok s a b [] t (rw (yes', match_version) at h) in
      (
        sym same,
        record {
          major = a;
          minor = b;
          rest = [];
          whole = sym e ∙ ap (λ x. a ++ b'.' ∷ x) (sym (append-nil b));
          major_number = fits-IsNumber a (ground (arith, yes')) fa;
          minor_number = fits-IsNumber b (ground (arith, yes')) fb;
          tail = inl refl;
          nonzero = nonzero_text s z;
        },
      )
  | inr no' ↦ none-refused s t (rw (no', match_version) at h)
]
parts-accepted s t (a ∷ b ∷ c ∷ []) e h =
    elim (Bool-cases (is_number a && (is_number b && all is_digit c))) [
      | inl yes' ↦
          let (z, fa, fb, fc, same) = check_groups-ok s a b c t (rw (yes', match_version) at h) in
          (
            sym same,
            record {
              major = a;
              minor = b;
              rest = b'.' ∷ c;
              whole = sym e;
              major_number = fits-IsNumber a (ground (arith, yes')) fa;
              minor_number = fits-IsNumber b (ground (arith, yes')) fb;
              tail = inr (c, refl, third-tail c (ground (arith, yes')) fc);
              nonzero = nonzero_text s z;
            },
          )
      | inr no' ↦ none-refused s t (rw (no', match_version) at h)
    ]
parts-accepted s t (a ∷ b ∷ c ∷ d ∷ parts) e h = none-refused s t h
