-- ===== src/Search/Termination.antt =====
-- search/search.go: `execute` comes to an end, since a subquery and what follows it are shorter.
use goiardi.Base.{
  ℕ, zero, suc, ◌<◌, ◌≤◌, ◌≡◌, ◌≢◌, refl, Option, none, some, List, [], ◌∷◌, nat_beq, length, arith,
  Bool-cases, Option-cases, inl, inr,
}
use goiardi.Base.Text.{Text}
use goiardi.Base.Dict.{Dict}
use goiardi.Objects.{Result, ok, err}
use goiardi.Indexer.Document.{Backend, Doc}
use goiardi.Indexer.{FileIndex}
use goiardi.Search.{Op, not_an_op, Link, basic, grouped, range, sub, negation, op_of}
use goiardi.Search.Execute.{
  Run, starved, panicked, returned, of_option, run_then, cut_sub_query, depth_after,
  extract_sub_query, execute_from, execute, merged, sub_docs, after_sub, search_link,
}

abbrev Ends : {A : Type 0} → Run A → Type 0
Ends r = r ≢ starved

run_then-Ends :
    {A B : Type 0} (r : Run A) (f : A → Run B)
    → Ends r
    → ((a : A) → r ≡ returned (ok a) → Ends (f a))
    → Ends (run_then r f)
run_then-Ends starved f h k = absurd (h refl)
run_then-Ends panicked f h k = λ e. ground (arith, e)
run_then-Ends (returned (err x)) f h k = λ e. ground (arith, e)
run_then-Ends (returned (ok a)) f h k = k a refl

of_option-Ends : {A : Type 0} (o : Option (Result A)) → Ends (of_option o)
of_option-Ends none = λ e. ground (arith, e)
of_option-Ends (some r) = λ e. ground (arith, e)

-- Both parts of a cut are no longer than the links.
cut_sub_query-length :
    (n : ℕ) (ls links s : List Link)
    → cut_sub_query n ls ≡ some (links, s)
    → (length links ≤ length ls) × (length s ≤ length ls)
unfolding cut_sub_query
cut_sub_query-length n [] links s h = ground (arith, h)
cut_sub_query-length n (l ∷ ls) links s h = elim (Bool-cases (nat_beq (depth_after n l) 0)) [
  | inl done ↦ ground (arith, h, done)
  | inr more ↦ elim (Option-cases (cut_sub_query (depth_after n l) ls)) [
    | inl e ↦ ground (arith, h, more, e)
    | inr ((links', s'), e) ↦
        let (a, c) = cut_sub_query-length (depth_after n l) ls links' s' e in
        ground (arith, h, more, e, a, c)
  ]
]

extract_sub_query-length :
    (ls newq s : List Link)
    → extract_sub_query ls ≡ some (ok (newq, s))
    → (length newq ≤ length ls) × (length s ≤ length ls)
unfolding extract_sub_query
extract_sub_query-length [] newq s h = ground (arith, h)
extract_sub_query-length (l ∷ ls) newq s h = elim (Bool-cases (nat_beq (depth_after 1 l) 0)) [
  | inl done ↦ ground (arith, h, done)
  | inr more ↦ elim (Option-cases (cut_sub_query 1 (l ∷ ls))) [
    | inl e ↦ ground (arith, h, more, e)
    | inr ((links', s'), e) ↦
        let (a, c) = cut_sub_query-length 1 (l ∷ ls) links' s' e in ground (arith, h, more, e, a, c)
  ]
]

of_option-inv :
    {A : Type 0} (o : Option (Result A)) (a : A) → of_option o ≡ returned (ok a) → o ≡ some (ok a)
of_option-inv none a h = ground (arith, h)
of_option-inv (some r) a h = ground (arith, h)

module _ (b : Backend) (i : FileIndex b) (idx : Text) where
  -- Fuel above the length of the rest of the chain is enough.
  execute_from-Ends :
      (fuel : ℕ) (docs : Dict Text (Doc b)) (op : Op) (prev : Option Link) (links : List Link)
      → length links < fuel
      → Ends (execute_from b i idx fuel docs op prev links)
  unfolding execute_from
  execute_from-Ends zero docs op prev links h = absurd (omega arith)
  execute_from-Ends (suc fuel) docs op prev [] h = λ e. ground (arith, e)
  execute_from-Ends (suc fuel) docs op prev (negation o ∷ links) h =
      execute_from-Ends fuel docs op (some (negation o)) links (omega arith)
  execute_from-Ends (suc fuel) docs op prev (basic q ∷ links) h =
      run_then-Ends (of_option (search_link b i idx op prev (basic q) docs)) _
        (of_option-Ends (search_link b i idx op prev (basic q) docs))
        (λ r e. execute_from-Ends fuel (merged op docs r) q.op (some (basic q)) links (omega arith))
  execute_from-Ends (suc fuel) docs op prev (grouped q ∷ links) h =
      run_then-Ends (of_option (search_link b i idx op prev (grouped q) docs)) _
        (of_option-Ends (search_link b i idx op prev (grouped q) docs))
        (λ r e.
          execute_from-Ends fuel (merged op docs r) q.op (some (grouped q)) links (omega arith))
  execute_from-Ends (suc fuel) docs op prev (range q ∷ links) h =
      run_then-Ends (of_option (search_link b i idx op prev (range q) docs)) _
        (of_option-Ends (search_link b i idx op prev (range q) docs))
        (λ r e. execute_from-Ends fuel (merged op docs r) q.op (some (range q)) links (omega arith))
  execute_from-Ends (suc fuel) docs op prev (sub q ∷ links) h =
      run_then-Ends (of_option (extract_sub_query links)) _
        (of_option-Ends (extract_sub_query links))
        (λ (newq, s) e.
          let (short, short') =
            extract_sub_query-length links newq s
              (of_option-inv (extract_sub_query links) (newq, s) e) in
          run_then-Ends
            (execute_from b i idx fuel (sub_docs b i idx op docs) op (some (sub q)) newq) _
            (execute_from-Ends fuel (sub_docs b i idx op docs) op (some (sub q)) newq (omega arith))
            (λ r e'.
              behind (λ o p ls k. execute_from-Ends fuel (merged op docs r) o p ls k) s
                (omega arith)))
    where
      behind :
          {go : Op → Option Link → List Link → Run (Dict Text (Doc b))}
          → ((o : Op) (p : Option Link) (ls : List Link) → length ls < fuel → Ends (go o p ls))
          → (s : List Link) → length s < fuel
          → Ends (after_sub b i idx go s)
      behind ih [] k = λ e. ground (arith, e)
      behind ih (l ∷ ls) k = ih (op_of l) (some l) ls (omega arith)

  -- `execute` comes to an end on every chain: it panics, or returns documents or an error.
  pub execute-Ends : (chain : List Link) → execute b i idx chain ≢ starved
  unfolding execute
  execute-Ends chain = execute_from-Ends (suc (length chain)) [] not_an_op none chain (omega arith)
