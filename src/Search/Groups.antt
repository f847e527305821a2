-- ===== src/Search/Groups.antt =====
-- search/parse.go: `mergeResults` on a group with a required term.
use goiardi.Base.{◌≡◌, refl, true, false, List, [], ◌∷◌, ◌++◌, All, Bool-cases, inl, inr}
use goiardi.Base.Text.{Text}
use goiardi.Base.Dict.{Dict}
use goiardi.Search.{Op, is_required}
use goiardi.Search.Execute.{put_all, merge_loop, merge_results}

-- Once a required term is seen, no term counts.
merge_loop-required :
    {D : Type 0} (tmp_res : List (Op × Dict Text D)) (res : Dict Text D)
    → merge_loop true tmp_res res ≡ res
unfolding merge_loop
merge_loop-required [] res = refl
merge_loop-required ((o, r) ∷ tmp_res) res = elim (Bool-cases (is_required o)) [
  | inl required ↦ rw required (merge_loop-required tmp_res res)
  | inr other ↦ rw other (merge_loop-required tmp_res res)
]

-- `mergeResults` returns only what the terms in front of the first required one have found: neither
-- the documents of the required term nor those of any term behind it are in the result.
pub merge_results-required :
    {D : Type 0} (front behind : List (Op × Dict Text D)) (o : Op) (r : Dict Text D)
    → All (λ (t : Op × Dict Text D). is_required t.0 ≡ false) front
    → is_required o ≡ true
    → merge_results (front ++ (o, r) ∷ behind) ≡ merge_results front
unfolding merge_results merge_loop
merge_results-required {D} front behind o r h k = each front [] h
  where
    each :
        (front : List (Op × Dict Text D)) (res : Dict Text D)
        → All (λ (t : Op × Dict Text D). is_required t.0 ≡ false) front
        → merge_loop false (front ++ (o, r) ∷ behind) res ≡ merge_loop false front res
    each [] res h = rw k (merge_loop-required behind res)
    each ((o', r') ∷ front) res h = rw h.0 (each front (put_all r' res) h.1)
