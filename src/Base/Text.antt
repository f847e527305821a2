-- ===== src/Base/Text.antt =====
-- Go strings, as lists of bytes; a literal of ASCII text is written `codes "…"`.
use Prim.Native.Char.{code}
use Prim.Native.String.{String}
use Prim.Native.Nat.{ℕ}
use mathlib.Core.Path.{◌≡◌, refl}
use mathlib.Core.Bool.{Bool, true, false}
use mathlib.Core.List.{List, [], ◌∷◌, ◌++◌}
use native.Mathlib.Omega.{arith}
use goiardi.Base.Tests.{ltb, nat_beq, if◌then◌else◌}
use goiardi.Base.Equality.{nat_eq, list_eq}

abbrev pub Text : Type 0
Text = List ℕ

abbrev pub codes : String → Text
codes String.[] = []
codes (String.◌∷◌ c s) = code c ∷ codes s

-- `a < b` on strings compares bytes, and a proper prefix comes first.
unfoldable pub text_ltb : Text → Text → Bool
text_ltb [] [] = false
text_ltb [] (y ∷ ys) = true
text_ltb (x ∷ xs) [] = false
text_ltb (x ∷ xs) (y ∷ ys) =
    let rest = text_ltb xs ys in if ltb x y then true else if nat_beq x y then rest else false

pub text_ltb_trans :
    (a b c : Text) → text_ltb a b ≡ true → text_ltb b c ≡ true → text_ltb a c ≡ true
unfolding text_ltb
text_ltb_trans [] [] c h k = ground arith
text_ltb_trans [] (y ∷ b) [] h k = ground arith
text_ltb_trans [] (y ∷ b) (z ∷ c) h k = refl
text_ltb_trans (x ∷ a) [] c h k = ground arith
text_ltb_trans (x ∷ a) (y ∷ b) [] h k = ground arith
text_ltb_trans (x ∷ a) (y ∷ b) (z ∷ c) h k = ground (arith, text_ltb_trans a b c)

pub text_ltb-asymm : (a b : Text) → text_ltb a b ≡ true → text_ltb b a ≡ false
unfolding text_ltb
text_ltb-asymm [] [] h = ground arith
text_ltb-asymm [] (y ∷ b) h = refl
text_ltb-asymm (x ∷ a) [] h = ground arith
text_ltb-asymm (x ∷ a) (y ∷ b) h = ground (arith, text_ltb-asymm a b)

pub text_ltb-connected : (a b : Text) → text_ltb a b ≡ false → text_ltb b a ≡ false → a ≡ b
unfolding text_ltb
text_ltb-connected [] [] h k = refl
text_ltb-connected [] (y ∷ b) h k = ground arith
text_ltb-connected (x ∷ a) [] h k = ground arith
text_ltb-connected (x ∷ a) (y ∷ b) h k = ground (arith, text_ltb-connected a b)

-- `strings.Join`.
unfoldable pub join : List Text → Text → Text
join [] sep = []
join (x ∷ []) sep = x
join (x ∷ y ∷ ys) sep = x ++ (sep ++ join (y ∷ ys) sep)

-- Neither text is less than the other exactly if they are equal, so `text_ltb` sorts strictly.
pub text_ltb-nless_trans :
    (a b c : Text) → text_ltb b a ≡ false → text_ltb c b ≡ false → text_ltb c a ≡ false
unfolding text_ltb
text_ltb-nless_trans [] [] [] h k = refl
text_ltb-nless_trans [] (y ∷ b) [] h k = refl
text_ltb-nless_trans [] [] (z ∷ c) h k = refl
text_ltb-nless_trans [] (y ∷ b) (z ∷ c) h k = refl
text_ltb-nless_trans (x ∷ a) [] [] h k = ground arith
text_ltb-nless_trans (x ∷ a) [] (z ∷ c) h k = ground arith
text_ltb-nless_trans (x ∷ a) (y ∷ b) [] h k = ground arith
text_ltb-nless_trans (x ∷ a) (y ∷ b) (z ∷ c) h k = ground (arith, text_ltb-nless_trans a b c)
