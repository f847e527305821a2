-- ===== src/Base/Decimal.antt =====
-- `strconv.Atoi` and `%d`, on the bit patterns of `Int`. Callers drop the error of `Atoi`, so its
-- value beside an error counts: 0 for bad syntax, the nearest `int` for a number out of range.
use goiardi.Base.Tests.{if◌then◌else◌, nat_beq, ltb, leb, lt→ltb, Bool-cases}
use goiardi.Base.Equality.{nat_eq, contains, contains-append}
use goiardi.Base.Text.{Text}
use goiardi.Base.Lists.{all}
use goiardi.Base.Int.{int_bound}
use Prim.Native.Nat.{ℕ, zero, suc, ◌+◌, ◌-◌, ◌*◌, ◌/◌, ◌%◌, ◌^◌, ◌<◌, ◌≤◌}
use mathlib.Core.Path.{◌≡◌, refl, ◌∙◌}
use mathlib.Core.Logic.{inl, inr}
use mathlib.Core.Bool.{Bool, true, false, ◌&&◌}
use mathlib.Core.Option.{Option, none, some}
use mathlib.Core.List.{[], ◌∷◌, ◌++◌, append_assoc, append-nil}
use native.Mathlib.Omega.{arith}

abbrev pub max_uint64 : ℕ
max_uint64 = 2 ^ 64 - 1

abbrev pub is_digit : ℕ → Bool
is_digit c = leb b'0' c && leb c b'9'

-- The loop of `ParseUint`: `none` is a syntax error, and a number out of range ends the loop.
unfoldable pub parse_digits : Text → ℕ → Option ℕ
parse_digits [] n = some n
parse_digits (c ∷ s) n =
    let n' = n * 10 + (c - b'0') in
    let rest = parse_digits s n' in
    if is_digit c then if ltb max_uint64 n' then some max_uint64 else rest else none

-- The number behind the sign, as an `int`.
unfoldable pub signed : Bool → Option ℕ → ℕ
signed negative none = 0
signed false (some n) = if ltb n int_bound then n else int_bound - 1
signed true (some n) = if ltb int_bound n then int_bound else (2 ^ 64 - n) % 2 ^ 64

unfoldable pub parse_unsigned : Text → Option ℕ
parse_unsigned [] = none
parse_unsigned (c ∷ s) = parse_digits (c ∷ s) 0

unfoldable pub atoi : Text → ℕ
atoi [] = 0
atoi (c ∷ s) =
    if nat_beq c b'-'
    then signed true (parse_unsigned s)
    else if nat_beq c b'+'
    then signed false (parse_unsigned s)
    else signed false (parse_unsigned (c ∷ s))

-- The decimal digits of a number below 10 ^ k.
unfoldable pub to_digits : ℕ → ℕ → Text
to_digits zero n = []
to_digits (suc k) n =
    let front = to_digits k (n / 10) in
    if ltb n 10 then (b'0' + n) ∷ [] else front ++ (b'0' + n % 10) ∷ []

-- `%d` of an `int`.
unfoldable pub format_int : ℕ → Text
format_int n = if ltb n int_bound then to_digits 20 n else b'-' ∷ to_digits 20 (2 ^ 64 - n)

abbrev pub pow10 : ℕ → ℕ
pow10 zero = 1
pow10 (suc k) = 10 * pow10 k

parse_digits-nil : (n : ℕ) → parse_digits [] n ≡ some n
unfolding parse_digits
parse_digits-nil n = refl

parse_digits-to_digits :
    (k n : ℕ) (rest : Text)
    → n < pow10 k
    → n ≤ max_uint64
    → 0 < k
    → parse_digits (to_digits k n ++ rest) 0 ≡ parse_digits rest n
unfolding to_digits parse_digits
parse_digits-to_digits zero n rest h fits p = absurd (omega arith)
parse_digits-to_digits (suc zero) n rest h fits p = ground arith
parse_digits-to_digits (suc (suc k)) n rest h fits p = elim (Bool-cases (ltb n 10)) [
  | inl small ↦ rw small (ground arith)
  | inr big ↦
      rw (big, append_assoc (to_digits (suc k) (n / 10)) ((b'0' + n % 10) ∷ []) rest)
        (parse_digits-to_digits (suc k) (n / 10) ((b'0' + n % 10) ∷ rest) (ground arith)
            (ground arith) (omega arith)
          ∙ ground arith)
]

contains-to_digits : (k n x : ℕ) → is_digit x ≡ false → contains (to_digits k n) x ≡ false
unfolding to_digits
contains-to_digits zero n x h = refl
contains-to_digits (suc k) n x h = elim (Bool-cases (ltb n 10)) [
  | inl small ↦ rw small (ground arith)
  | inr big ↦
      rw (big, contains-append (to_digits k (n / 10)) ((b'0' + n % 10) ∷ []) x)
        (ground (arith, contains-to_digits k (n / 10) x h))
]

-- a first digit
to_digits-shape :
    (k n : ℕ) → 0 < k → (c : ℕ) × (s : Text) × (to_digits k n ≡ c ∷ s) × (is_digit c ≡ true)
unfolding to_digits
to_digits-shape zero n p = absurd (omega arith)
to_digits-shape (suc zero) n p = elim (Bool-cases (ltb n 10)) [
  | inl small ↦ (b'0' + n, [], rw small, ground arith)
  | inr big ↦ (b'0' + n % 10, [], rw big, ground arith)
]
to_digits-shape (suc (suc k)) n p = elim (Bool-cases (ltb n 10)) [
  | inl small ↦ (b'0' + n, [], rw small, ground arith)
  | inr big ↦
      let (c, s, e, d) = to_digits-shape (suc k) (n / 10) (omega arith) in
      (c, s ++ (b'0' + n % 10) ∷ [], rw (big, e), d)
]

-- A printed number holds digits only.
pub contains-format_int :
    (n x : ℕ) → n < int_bound → is_digit x ≡ false → contains (format_int n) x ≡ false
unfolding format_int
contains-format_int n x h d = ground (arith, contains-to_digits 20 n x)

atoi-digits :
    (c : ℕ) (s : Text) (n : ℕ)
    → is_digit c ≡ true
    → parse_unsigned (c ∷ s) ≡ some n
    → n < int_bound
    → atoi (c ∷ s) ≡ n
unfolding atoi signed
atoi-digits c s n d e h = ground arith

-- `Atoi` reads back what `%d` prints.
pub atoi-format_int : (n : ℕ) → n < int_bound → atoi (format_int n) ≡ n
unfolding format_int parse_unsigned
atoi-format_int n h =
    let (c, s, e, d) = to_digits-shape 20 n (omega arith) in
    let whole = parse_digits-to_digits 20 n [] (omega arith) (omega arith) (omega arith) in
    rw (lt→ltb n int_bound h, e)
      (atoi-digits c s n d (rw (append-nil, e) at whole ∙ parse_digits-nil n) h)

signed-lt : (b : Bool) (o : Option ℕ) → signed b o < 2 ^ 64
unfolding signed
signed-lt b none = omega arith
signed-lt false (some n) = ground arith
signed-lt true (some n) = ground arith

pub atoi-lt : (s : Text) → atoi s < 2 ^ 64
unfolding atoi
atoi-lt [] = omega arith
atoi-lt (c ∷ s) = ground (
  arith,
  signed-lt true (parse_unsigned s),
  signed-lt false (parse_unsigned s),
  signed-lt false (parse_unsigned (c ∷ s)),
)

all-digits-append :
    (s : Text) (d : ℕ)
    → all is_digit s ≡ true
    → is_digit d ≡ true
    → all is_digit (s ++ d ∷ []) ≡ true
all-digits-append [] d h k = ground arith
all-digits-append (c ∷ s) d h k = ground (arith, all-digits-append s d)

all-to_digits : (k n : ℕ) → all is_digit (to_digits k n) ≡ true
unfolding to_digits
all-to_digits zero n = refl
all-to_digits (suc k) n = elim (Bool-cases (ltb n 10)) [
  | inl small ↦ rw small (ground arith)
  | inr big ↦ rw big (
      all-digits-append (to_digits k (n / 10)) (b'0' + n % 10) (all-to_digits k (n / 10))
        (ground arith))
]

-- A printed number is a non-empty run of digits that reads back.
pub record IsDecimal (t : Text) (n : ℕ) : Type 0 where
  pub first : ℕ
  pub others : Text
  pub shape : t ≡ first ∷ others
  pub digits : all is_digit t ≡ true
  pub value : parse_unsigned t ≡ some n

pub format_int-IsDecimal : (n : ℕ) → n < int_bound → IsDecimal (format_int n) n
unfolding format_int parse_unsigned
format_int-IsDecimal n h =
    let (c, s, e, d) = to_digits-shape 20 n (omega arith) in
    let whole = parse_digits-to_digits 20 n [] (omega arith) (omega arith) (omega arith) in
    rw (lt→ltb n int_bound h) (record {
      first = c;
      others = s;
      shape = e;
      digits = all-to_digits 20 n;
      value = rw e (rw (append-nil, e) at whole ∙ parse_digits-nil n);
    })

to_digits-lead :
    (k n : ℕ)
    → n < pow10 k
    → 0 < n
    → (c : ℕ) × (s : Text) × (to_digits k n ≡ c ∷ s) × (nat_beq c b'0' ≡ false)
unfolding to_digits
to_digits-lead zero n h q = absurd (omega arith)
to_digits-lead (suc k) n h q = elim (Bool-cases (ltb n 10)) [
  | inl small ↦ (b'0' + n, [], rw small refl, ground arith)
  | inr big ↦
      let (c, s, e, d) = to_digits-lead k (n / 10) (ground arith) (ground arith) in
      (c, s ++ (b'0' + n % 10) ∷ [], rw (big, e) refl, d)
]

-- A printed number has no leading zero.
pub format_int-lead :
    (n : ℕ)
    → n < int_bound
    → 0 < n
    → (c : ℕ) × (s : Text) × (format_int n ≡ c ∷ s) × (nat_beq c b'0' ≡ false)
unfolding format_int
format_int-lead n h q = rw (lt→ltb n int_bound h) (to_digits-lead 20 n (omega arith) q)
