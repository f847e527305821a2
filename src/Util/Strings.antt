-- ===== src/Util/Strings.antt =====
-- util/strings.go: slices of strings, and the removal of duplicates from a sorted one.
use goiardi.Base.{
  ℕ, zero, suc, ◌+◌, ◌≤◌, ◌≡◌, refl, ap, ◌∙◌, true, false, ◌||◌, none, some, List, [], ◌∷◌, ◌++◌,
  arith, ◌==◌, ==_iff, nat_eq, list_eq, nat_beq, if◌then◌else◌, length, get_elem?, take, drop,
  contains, Bool-cases, inl, inr, ◌⊎◌, nat_beq_iff, sym, All, All-map,
}
use mathlib.Core.List.{append_assoc, append-nil}
use goiardi.Base.Text.{Text, text_ltb, text_ltb-connected, text_ltb-nless_trans}
use goiardi.Base.Sort.{IsSorted}

-- `delTwoPosElements`.
unfoldable pub del_two_pos_elements : ℕ → ℕ → List Text → List Text
del_two_pos_elements pos skip strs = take pos strs ++ drop (pos + skip) strs

-- `DelSliceElement`.
unfoldable pub del_slice_element : ℕ → List Text → List Text
unfolding del_two_pos_elements
del_slice_element pos strs = del_two_pos_elements pos 1 strs

-- The inner loop of `RemoveDupStrings`, which counts the elements equal to `v` that follow.
unfoldable pub count_dups : Text → List Text → ℕ
count_dups v [] = 0
count_dups v (w ∷ strs) = let s = count_dups v strs in if v == w then suc s else 0

-- Its outer loop at index `i`, `n` rounds before its end. `range` reads `v` from the slice as it
-- was handed over, whose start the removals have overwritten: below the present length that is
-- the present element, and from there on the round does nothing.
unfoldable pub remove_dups_from : ℕ → ℕ → List Text → List Text
unfolding count_dups del_two_pos_elements
remove_dups_from zero i strs = strs
remove_dups_from (suc n) i strs = elim (get_elem? strs i) [
  | none ↦ strs
  | some v ↦
      let s = count_dups v (drop (i + 1) strs) in
      remove_dups_from n (i + 1) (if nat_beq s 0 then strs else del_two_pos_elements (i + 1) s strs)
]

-- `RemoveDupStrings`.
unfoldable pub remove_dup_strings : List Text → List Text
unfolding remove_dups_from
remove_dup_strings strs = remove_dups_from (length strs) 0 strs

-- The runs of equal elements cut down to one, within `n` elements.
compress : ℕ → List Text → List Text
compress zero suf = suf
compress (suc n) [] = []
compress (suc n) (v ∷ suf) = v ∷ compress n (drop (count_dups v suf) suf)

get_elem?-append :
    (pre suf : List Text) (v : Text) → get_elem? (pre ++ v ∷ suf) (length pre) ≡ some v
get_elem?-append [] suf v = refl
get_elem?-append (p ∷ pre) suf v = get_elem?-append pre suf v

drop-append :
    (pre suf : List Text) (v : Text) (k i : ℕ)
    → i ≡ length pre + 1 + k
    → drop i (pre ++ v ∷ suf) ≡ drop k suf
drop-append pre suf v k zero e = absurd (omega arith)
drop-append [] suf v k (suc i) e = ap (λ j. drop j suf) (omega arith)
drop-append (p ∷ pre) suf v k (suc i) e = drop-append pre suf v k i (omega arith)

take-append :
    (pre suf : List Text) (v : Text) (i : ℕ)
    → i ≡ length pre + 1
    → take i (pre ++ v ∷ suf) ≡ pre ++ v ∷ []
take-append pre suf v zero e = absurd (omega arith)
take-append [] suf v (suc i) e = ap (λ j. v ∷ take j suf) is_zero
  where
    is_zero : i ≡ 0
    is_zero = omega arith
take-append (p ∷ pre) suf v (suc i) e = ap (◌∷◌ p) (take-append pre suf v i (omega arith))

length-snoc : (pre : List Text) (v : Text) → length (pre ++ v ∷ []) ≡ length pre + 1
length-snoc [] v = omega arith
length-snoc (p ∷ pre) v = omega (arith, length-snoc pre v)

get_elem?-length : (pre : List Text) → get_elem? pre (length pre) ≡ none
get_elem?-length [] = refl
get_elem?-length (p ∷ pre) = get_elem?-length pre

remove_dups_from-append :
    (n : ℕ) (pre suf : List Text)
    → remove_dups_from n (length pre) (pre ++ suf) ≡ pre ++ compress n suf
unfolding remove_dups_from compress del_two_pos_elements
remove_dups_from-append zero pre suf = refl
remove_dups_from-append (suc n) pre [] =
    rw (append-nil pre, get_elem?-length pre, remove_dups_from) (append-nil pre)
remove_dups_from-append (suc n) pre (v ∷ suf) =
    rw
      (
        get_elem?-append pre suf v,
        drop-append pre suf v 0 (length pre + 1) (omega arith),
        remove_dups_from,
      )
      (ap (remove_dups_from n (length pre + 1))
          (shorter (Bool-cases (nat_beq (count_dups v suf) 0)))
        ∙ ap (λ i. remove_dups_from n i ((pre ++ v ∷ []) ++ drop (count_dups v suf) suf))
            (sym (length-snoc pre v))
        ∙ remove_dups_from-append n (pre ++ v ∷ []) (drop (count_dups v suf) suf)
        ∙ append_assoc pre (v ∷ []) (compress n (drop (count_dups v suf) suf)))
  where
    shorter :
        (nat_beq (count_dups v suf) 0 ≡ true) ⊎ (nat_beq (count_dups v suf) 0 ≡ false)
        → (if nat_beq (count_dups v suf) 0
            then pre ++ v ∷ suf
            else del_two_pos_elements (length pre + 1) (count_dups v suf) (pre ++ v ∷ suf))
          ≡ (pre ++ v ∷ []) ++ drop (count_dups v suf) suf
    shorter (inl z) =
        rw (z, (nat_beq_iff (count_dups v suf) 0).0 z) (sym (append_assoc pre (v ∷ []) suf))
    shorter (inr p) =
        rw
          (
            p,
            take-append pre suf v (length pre + 1) refl,
            drop-append pre suf v (count_dups v suf) (length pre + 1 + count_dups v suf) refl,
          )
          refl

-- What `count_dups` counts off a sorted slice leaves only elements above `v`.
Above : Text → List Text → Type 0
Above v = All (λ y. text_ltb v y ≡ true)

least_above : (v w : Text) → text_ltb w v ≡ false → (v == w) ≡ false → text_ltb v w ≡ true
least_above v w h k = ground (arith, text_ltb-connected v w, ==_iff v w)

text_ltb-nless : (v w y : Text) → text_ltb v w ≡ true → text_ltb y w ≡ false → text_ltb v y ≡ true
text_ltb-nless v w y h k = elim (Bool-cases (text_ltb v y)) [
  | inl lt ↦ lt
  | inr ge ↦ ground (arith, text_ltb-nless_trans w y v k ge)
]

drop-Above :
    (v : Text) (suf : List Text)
    → All (λ y. text_ltb y v ≡ false) suf
    → IsSorted text_ltb suf
    → Above v (drop (count_dups v suf) suf) × IsSorted text_ltb (drop (count_dups v suf) suf)
unfolding count_dups Above
drop-Above v [] h k = (tt, tt)
drop-Above v (w ∷ suf) h k = elim (Bool-cases (v == w)) [
  | inl same ↦ rw same (drop-Above v suf h.1 k.1)
  | inr differ ↦
      let least = least_above v w h.0 differ in
      rw differ ((least, All-map (λ y p. text_ltb-nless v w y least p) suf k.0), k)
]

length-drop : (k : ℕ) (suf : List Text) → length (drop k suf) ≤ length suf
length-drop zero suf = omega arith
length-drop (suc k) [] = omega arith
length-drop (suc k) (w ∷ suf) = omega (arith, length-drop k suf)

contains-drop :
    (v a : Text) (suf : List Text)
    → ((v == a) || contains (drop (count_dups v suf) suf) a) ≡ ((v == a) || contains suf a)
unfolding count_dups
contains-drop v a [] = refl
contains-drop v a (w ∷ suf) = elim (Bool-cases (v == w)) [
  | inl same ↦ rw same (ground (arith, contains-drop v a suf, ==_iff v w))
  | inr differ ↦ rw differ refl
]

contains-compress :
    (n : ℕ) (suf : List Text) (a : Text)
    → length suf ≤ n
    → contains (compress n suf) a ≡ contains suf a
unfolding compress
contains-compress zero suf a h = refl
contains-compress (suc n) [] a h = refl
contains-compress (suc n) (v ∷ suf) a h =
    ap (◌||◌ (v == a)) (
      contains-compress n (drop (count_dups v suf) suf) a
        (omega (arith, length-drop (count_dups v suf) suf)))
    ∙ contains-drop v a suf

compress-All : (P : Text → Type 0) (n : ℕ) (suf : List Text) → All P suf → All P (compress n suf)
unfolding compress
compress-All P zero suf h = h
compress-All P (suc n) [] h = tt
compress-All P (suc n) (v ∷ suf) h = (h.0, compress-All P n _ (drop-All (count_dups v suf) suf h.1))
  where
    drop-All : (k : ℕ) (xs : List Text) → All P xs → All P (drop k xs)
    drop-All zero xs h = h
    drop-All (suc k) [] h = tt
    drop-All (suc k) (x ∷ xs) h = drop-All k xs h.1

-- Each element is above those before it.
unfoldable pub IsStrict : List Text → Type 0
IsStrict [] = Unit
IsStrict (x ∷ xs) = All (λ y. text_ltb x y ≡ true) xs × IsStrict xs

compress-IsStrict :
    (n : ℕ) (suf : List Text) → length suf ≤ n → IsSorted text_ltb suf → IsStrict (compress n suf)
unfolding compress IsStrict Above
compress-IsStrict zero [] h k = tt
compress-IsStrict zero (v ∷ suf) h k = absurd (omega arith)
compress-IsStrict (suc n) [] h k = tt
compress-IsStrict (suc n) (v ∷ suf) h k =
    let (a, sorted) = drop-Above v suf k.0 k.1 in
    (
      compress-All _ n _ a,
      compress-IsStrict n _ (omega (arith, length-drop (count_dups v suf) suf)) sorted,
    )

-- On a sorted slice, `RemoveDupStrings` returns the same elements in strictly ascending order.
pub remove_dup_strings_lem :
    (strs : List Text)
    → IsSorted text_ltb strs
    → IsStrict (remove_dup_strings strs)
      × ((a : Text) → contains (remove_dup_strings strs) a ≡ contains strs a)
unfolding remove_dup_strings
remove_dup_strings_lem strs h = rw (remove_dups_from-append (length strs) [] strs) (
  compress-IsStrict (length strs) strs (omega arith) h,
  λ a. contains-compress (length strs) strs a (omega arith),
)
