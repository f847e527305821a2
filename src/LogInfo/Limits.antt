-- ===== src/LogInfo/Limits.antt =====
-- loginfo/log_info.go: the slice that the offset and the limit of `GetLogInfos` take.
use goiardi.Base.{
  ℕ, zero, suc, ◌+◌, ◌-◌, ◌<◌, ◌≤◌, ◌≡◌, refl, ap, sym, ◌∙◌, none, some, List, [], ◌∷◌,
  if◌then◌else◌, leb, length, take, drop, nat_eq, list_eq, arith, Bool-cases, inl, inr,
}
use goiardi.Base.Int.{int_bound, int_ltb}
use goiardi.LogInfo.{Event, page, page_end, page_start, cut}

take-all : (l : List Event) (k : ℕ) → length l ≤ k → take k l ≡ l
take-all [] zero h = refl
take-all [] (suc k) h = refl
take-all (x ∷ l) zero h = absurd (omega arith)
take-all (x ∷ l) (suc k) h = ap (◌∷◌ x) (take-all l k (omega arith))

length-drop : (l : List Event) (k : ℕ) → length (drop k l) ≡ length l - k
length-drop l zero = omega arith
length-drop [] (suc k) = omega arith
length-drop (x ∷ l) (suc k) = omega (arith, length-drop l k)

-- A limit past the end is the limit at the end.
take-min : (l : List Event) (a b : ℕ) → a ≤ b → length l ≤ a → take a l ≡ take b l
take-min l a b h k = take-all l a k ∙ sym (take-all l b (omega arith))

page_end-two :
    (offset limit total n : ℕ)
    → offset + limit < int_bound
    → total < int_bound
    → n ≤ total
    → page_end (offset ∷ limit ∷ []) total n
      ≡ (if leb (offset + limit) n then offset + limit else n)
unfolding page_end int_ltb
page_end-two offset limit total n a b c = ground arith

cut-eq :
    (offset limit : ℕ) (lis : List Event)
    → offset < int_bound
    → limit < int_bound
    → cut offset limit lis
      ≡ (if leb offset limit then some (take (limit - offset) (drop offset lis)) else none)
unfolding cut int_ltb
cut-eq offset limit lis a b = ground arith

pub page-two :
    (offset limit total : ℕ) (lis : List Event)
    → offset + limit < int_bound
    → total < int_bound
    → length lis ≤ total
    → 0 < total
    → page (offset ∷ limit ∷ []) total lis
      ≡ (if leb offset (length lis) then some (take limit (drop offset lis)) else none)
unfolding page page_start
page-two offset limit total lis a b c d = elim (Bool-cases (leb (offset + limit) (length lis))) [
  | inl fits ↦
      let e : page_end (offset ∷ limit ∷ []) total (length lis) ≡ offset + limit =
        page_end-two offset limit total (length lis) a b c ∙ rw fits refl in
      rw (e, cut-eq offset (offset + limit) lis (omega arith) a)
        (ground (
          arith,
          ap (λ k. take k (drop offset lis)) {x = offset + limit - offset} {y = limit}
              (omega arith),
        ))
  | inr long ↦
      let e : page_end (offset ∷ limit ∷ []) total (length lis) ≡ length lis =
        page_end-two offset limit total (length lis) a b c ∙ rw long refl in
      rw (e, cut-eq offset (length lis) lis (omega arith) (omega arith))
        (ground (
          arith,
          take-min (drop offset lis) (length lis - offset) limit (ground arith)
              (omega (arith, length-drop lis offset)),
        ))
]
