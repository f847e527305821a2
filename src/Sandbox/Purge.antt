-- ===== src/Sandbox/Purge.antt =====
-- sandbox/sandbox.go: the binary search of `Purge` finds the sandboxes that are too old.
use goiardi.Base.{
  ℕ, zero, suc, ◌+◌, ◌-◌, ◌/◌, ◌<◌, ◌≤◌, ◌≡◌, refl, ap, sym, Bool, true, false, not, List, [], ◌∷◌,
  nat_eq, list_eq, ltb, length, take, filter, arith, Bool-cases, inl, inr, All,
}
use goiardi.Base.Sort.{IsSorted}
use goiardi.Objects.{Sandbox}
use goiardi.Sandbox.{by_date_less, search_between, search, is_recent, purge_count}

-- `r` is the first index from `i` below `j` at which `f` holds, or `j`.
record IsFirst (f : ℕ → Bool) (i j r : ℕ) : Type 0 where
  from : i ≤ r
  upto : r ≤ j
  fails : (k : ℕ) → i ≤ k → k < r → f k ≡ false
  holds : (k : ℕ) → r ≤ k → k < j → f k ≡ true

abbrev IsUpward : (ℕ → Bool) → Type 0
IsUpward f = (a b : ℕ) → a ≤ b → f a ≡ true → f b ≡ true

search_between-IsFirst :
    (fuel : ℕ) (f : ℕ → Bool) (i j : ℕ)
    → IsUpward f
    → i ≤ j
    → j - i ≤ fuel
    → IsFirst f i j (search_between fuel f i j)
unfolding search_between
search_between-IsFirst zero f i j up h k = record {
  from = omega arith;
  upto = h;
  fails = λ n a b. absurd (omega arith);
  holds = λ n a b. absurd (omega arith);
}
search_between-IsFirst (suc fuel) f i j up h k = elim (Bool-cases (ltb i j)) [
  | inr done ↦ rw done (record {
    from = omega arith;
    upto = h;
    fails = λ n a b. absurd (omega arith);
    holds = λ n a b. absurd (ground arith);
  })
  | inl more ↦ elim (Bool-cases (f ((i + j) / 2))) [
    | inl above ↦
        let r = search_between-IsFirst fuel f i ((i + j) / 2) up (ground arith) (ground arith) in
        rw (more, above)
          (record {
            from = r.from;
            upto = omega (arith, r.upto);
            fails = r.fails;
            holds = λ n a b. elim (Bool-cases (ltb n ((i + j) / 2))) [
              | inl low ↦ r.holds n a (ground arith)
              | inr high ↦ up ((i + j) / 2) n (ground arith) above
            ];
          })
    | inr below ↦
        let r =
          search_between-IsFirst fuel f ((i + j) / 2 + 1) j up (ground arith) (ground arith) in
        rw (more, below)
          (record {
            from = omega (arith, r.from);
            upto = r.upto;
            fails = λ n a b. elim (Bool-cases (ltb ((i + j) / 2) n)) [
              | inl high ↦ r.fails n (ground arith) b
              | inr low ↦ elim (Bool-cases (f n)) [
                | inl e ↦ ground (arith, up n ((i + j) / 2) (ground arith) e)
                | inr e ↦ e
              ]
            ];
            holds = r.holds;
          })
  ]
]

-- `n` tells the old elements at the front from the rest.
record IsCut (t n : ℕ) (l : List Sandbox) : Type 0 where
  old : (k : ℕ) → k < n → is_recent t l k ≡ false
  recent : (k : ℕ) → n ≤ k → is_recent t l k ≡ true

take-cut :
    (t n : ℕ) (l : List Sandbox) → IsCut t n l → take n l ≡ filter (λ s. ltb s.creation_time t) l
unfolding is_recent
take-cut t zero [] c = refl
take-cut t (suc n) [] c = refl
take-cut t zero (s ∷ l) c =
    let tail : IsCut t 0 l = record {
      old = λ k h. absurd (omega arith);
      recent = λ k h. c.recent (suc k) (omega arith);
    } in
    ground (arith, c.recent 0 (omega arith), take-cut t zero l tail)
take-cut t (suc n) (s ∷ l) c =
    let tail : IsCut t n l = record {
      old = λ k h. c.old (suc k) (omega arith);
      recent = λ k h. c.recent (suc k) (omega arith);
    } in
    ground (arith, c.old 0 (omega arith), take-cut t n l tail)

All-recent :
    (t : ℕ) (s : Sandbox) (l : List Sandbox) (k : ℕ)
    → not (ltb s.creation_time t) ≡ true
    → All (λ x. by_date_less x s ≡ false) l
    → is_recent t l k ≡ true
unfolding is_recent by_date_less
All-recent t s [] k h a = refl
All-recent t s (x ∷ l) zero h a = ground (arith, a.0)
All-recent t s (x ∷ l) (suc k) h a = All-recent t s l k h a.1

is_recent-IsUpward : (t : ℕ) (l : List Sandbox) → IsSorted by_date_less l → IsUpward (is_recent t l)
unfolding is_recent
is_recent-IsUpward t [] s a b h e = refl
is_recent-IsUpward t (x ∷ l) s zero zero h e = e
is_recent-IsUpward t (x ∷ l) s zero (suc b) h e = All-recent t x l b e s.0
is_recent-IsUpward t (x ∷ l) s (suc a) zero h e = absurd (omega arith)
is_recent-IsUpward t (x ∷ l) s (suc a) (suc b) h e = is_recent-IsUpward t l s.1 a b (omega arith) e

recent-past_end : (t : ℕ) (l : List Sandbox) (k : ℕ) → length l ≤ k → is_recent t l k ≡ true
unfolding is_recent
recent-past_end t [] k h = refl
recent-past_end t (x ∷ l) zero h = absurd (omega arith)
recent-past_end t (x ∷ l) (suc k) h = recent-past_end t l k (omega arith)

search-IsCut :
    (t : ℕ) (l : List Sandbox)
    → IsSorted by_date_less l
    → IsCut t (search (length l) (is_recent t l)) l
unfolding search
search-IsCut t l s =
    let r =
      search_between-IsFirst (length l) (is_recent t l) 0 (length l) (is_recent-IsUpward t l s)
        (omega arith) (omega arith) in
    record {
      old = λ k h. r.fails k (omega arith) h;
      recent = λ k h. elim (Bool-cases (ltb k (length l))) [
        | inl low ↦ r.holds k h (ground arith)
        | inr high ↦ recent-past_end t l k (ground arith)
      ];
    }

purge_count-IsCut :
    (t : ℕ) (l : List Sandbox) → IsSorted by_date_less l → IsCut t (purge_count t l) l
unfolding purge_count is_recent
purge_count-IsCut t [] s = record { old = λ k h. absurd (omega arith); recent = λ k h. refl }
purge_count-IsCut t (x ∷ l) s = elim (Bool-cases (ltb t x.creation_time)) [
  | inl young ↦ rw young (record {
    old = λ k h. absurd (omega arith);
    recent = λ k h. is_recent-IsUpward t (x ∷ l) s 0 k (omega arith) (ground arith);
  })
  | inr old ↦ rw old (search-IsCut t (x ∷ l) s)
]

-- Of sandboxes in ascending order of their times, the ones in front that `Purge` deletes are those
-- made before the given time, and no others.
pub purge_count_lem :
    (t : ℕ) (sandboxes : List Sandbox)
    → IsSorted by_date_less sandboxes
    → take (purge_count t sandboxes) sandboxes ≡ filter (λ s. ltb s.creation_time t) sandboxes
purge_count_lem t l s = take-cut t (purge_count t l) l (purge_count-IsCut t l s)

length-take : (n : ℕ) (l : List Sandbox) → n ≤ length l → length (take n l) ≡ n
length-take zero l h = refl
length-take (suc n) [] h = absurd (omega arith)
length-take (suc n) (x ∷ l) h = ap suc (length-take n l (omega arith))

purge_count-le : (t : ℕ) (l : List Sandbox) → IsSorted by_date_less l → purge_count t l ≤ length l
unfolding purge_count search
purge_count-le t [] s = omega arith
purge_count-le t (x ∷ l) s = elim (Bool-cases (ltb t x.creation_time)) [
  | inl young ↦ rw young (omega arith)
  | inr old ↦ rw old r.upto
]
  where
    r :
        IsFirst
          (is_recent t (x ∷ l))
          0
          (length (x ∷ l))
          (search_between (length (x ∷ l)) (is_recent t (x ∷ l)) 0 (length (x ∷ l)))
    r =
        search_between-IsFirst (length (x ∷ l)) (is_recent t (x ∷ l)) 0 (length (x ∷ l))
          (is_recent-IsUpward t (x ∷ l) s) (omega arith) (omega arith)

-- `Purge` counts the ones it deletes.
pub purge_count-eq-length :
    (t : ℕ) (l : List Sandbox)
    → IsSorted by_date_less l
    → purge_count t l ≡ length (take (purge_count t l) l)
purge_count-eq-length t l s = sym (length-take (purge_count t l) l (purge_count-le t l s))
