-- ===== src/Search/Execute.antt =====
-- search/search.go: `execute` of a query chain against the index of indexer/file_index.go, and the
-- searches of each kind of link in search/parse.go. The mutex lets one search run at a time.
use goiardi.Base.{
  ℕ, zero, suc, ◌-◌, ◌+◌, Bool, true, false, Option, none, some, List, [], ◌∷◌, ◌==◌, nat_eq,
  list_eq, nat_beq, length, if◌then◌else◌,
}
use goiardi.Base.Text.{Text, codes}
use goiardi.Base.Dict.{Dict, insert}
use goiardi.Objects.{Result, ok, err, errorf}
use goiardi.Indexer.Document.{Backend, Doc}
use goiardi.Indexer
use goiardi.Indexer.{FileIndex}
use goiardi.Search.{
  Op, not_an_op, is_and, is_or, is_required, is_negation, QueryTerm, Link, basic, grouped, range,
  sub, negation, op_of, is_negated, make_search_term,
}

-- `for k, v := range r { docs[k] = v }`
unfoldable pub put_all : {D : Type 0} → Dict Text D → Dict Text D → Dict Text D
put_all [] docs = docs
put_all ((k, v) ∷ r) docs = put_all r (insert k v docs)

-- The loop of `mergeResults`: the documents that a required term has found go to a variable that is
-- not returned, so that only the terms before the first required one count.
unfoldable pub merge_loop :
    {D : Type 0} → Bool → List (Op × Dict Text D) → Dict Text D → Dict Text D
unfolding put_all
merge_loop req_op [] res = res
merge_loop req_op ((o, r) ∷ tmp_res) res =
    if is_required o
    then merge_loop true tmp_res res
    else merge_loop req_op tmp_res (if req_op then res else put_all r res)

-- `mergeResults`.
unfoldable pub merge_results : {D : Type 0} → List (Op × Dict Text D) → Dict Text D
unfolding merge_loop
merge_results tmp_res = merge_loop false tmp_res []

abbrev pub and_then :
    {A B : Type 0} → Option (Result A) → (A → Option (Result B)) → Option (Result B)
and_then none f = none
and_then (some (err e)) f = some (err e)
and_then (some (ok a)) f = f a

-- The searches of the terms of a group, up to the first error.
unfoldable pub group_loop :
    {D : Type 0}
    → (Text → Bool → Option (Result (Dict Text D)))
    → Text
    → List QueryTerm
    → Option (Result (List (Op × Dict Text D)))
unfolding is_negation make_search_term
group_loop find field [] = some (ok [])
group_loop find field (v ∷ terms) =
    and_then (find (make_search_term field v.term) (is_negation v.mod_op))
      (λ r. and_then (group_loop find field terms) (λ rest. some (ok ((v.mod_op, r) ∷ rest))))

-- How `extractSubQuery` counts a link.
unfoldable pub depth_after : ℕ → Link → ℕ
depth_after n (sub q) = if q.start then n + 1 else n - 1
depth_after n l = n

-- Its loop: the links of the subquery and those from its end on; `none` is a chain with no end.
unfoldable pub cut_sub_query : ℕ → List Link → Option (List Link × List Link)
unfolding depth_after
cut_sub_query n [] = none
cut_sub_query n (l ∷ ls) =
    let rest = cut_sub_query (depth_after n l) ls in
    if nat_beq (depth_after n l) 0
    then some ([], l ∷ ls)
    else elim rest [ none ↦ none | some (links, s) ↦ some (l ∷ links, s) ]

-- `extractSubQuery` of the links behind the marker; `none` is a panic. At an end that follows at
-- once nothing is snipped off, and the subquery is the rest of the chain.
unfoldable pub extract_sub_query : List Link → Option (Result (List Link × List Link))
unfolding cut_sub_query
extract_sub_query [] = none
extract_sub_query (l ∷ ls) =
    if nat_beq (depth_after 1 l) 0
    then some (ok (l ∷ ls, l ∷ ls))
    else elim (cut_sub_query 1 (l ∷ ls)) [
      | none ↦ some (err (errorf (codes "Yikes! Somehow we weren't able to finish the subquery.")))
      | some r ↦ some (ok r)
    ]

-- How a run ends: out of fuel, in a panic, or with what the function returns.
pub data Run (A : Type 0) : Type 0 where
  starved : Run A
  panicked : Run A
  returned : Result A → Run A

abbrev pub of_option : {A : Type 0} → Option (Result A) → Run A
of_option none = panicked
of_option (some r) = returned r

abbrev pub run_then : {A B : Type 0} → Run A → (A → Run B) → Run B
run_then starved f = starved
run_then panicked f = panicked
run_then (returned (err e)) f = returned (err e)
run_then (returned (ok a)) f = f a

-- What the loop of `execute` makes of the documents of a link. In the last case, logged as an
-- impossible state, those of the link are dropped.
unfoldable pub merged : {D : Type 0} → Op → Dict Text D → Dict Text D → Dict Text D
unfolding put_all
merged op [] r = r
merged op (d ∷ docs) r =
    if is_and op then r else if is_or op then put_all r (d ∷ docs) else d ∷ docs

module _ (b : Backend) (i : FileIndex b) (idx : Text) where
  -- `SearchIndex`.
  unfoldable pub search_index : Option Link → Link → Option (Result (Dict Text (Doc b)))
  unfolding is_negated make_search_term Indexer.search Indexer.search_text Indexer.search_range
      group_loop merge_results
  search_index prev (basic q) =
      if q.field == []
      then Indexer.search_text b i idx q.term.term (is_negated prev)
      else Indexer.search b i idx (make_search_term q.field q.term.term) (is_negated prev)
  search_index prev (grouped q) =
      and_then (group_loop (Indexer.search b i idx) q.field q.terms)
        (λ tmp_res. some (ok (merge_results tmp_res)))
  search_index prev (range q) =
      Indexer.search_range b i idx q.field q.start q.end_term q.inclusive q.negated
  search_index prev (sub q) = some (ok [])
  search_index prev (negation op) = some (ok [])

  -- `SearchResults`.
  unfoldable pub search_results :
      Option Link → Link → Dict Text (Doc b) → Option (Result (Dict Text (Doc b)))
  unfolding is_negated make_search_term Indexer.search_results Indexer.search_results_range
      group_loop merge_results
  search_results prev (basic q) cur_res =
      Indexer.search_results b (make_search_term q.field q.term.term) (is_negated prev) cur_res
  search_results prev (grouped q) cur_res =
      and_then
        (group_loop (λ term notop. Indexer.search_results b term notop cur_res) q.field q.terms)
        (λ tmp_res. some (ok (merge_results tmp_res)))
  search_results prev (range q) cur_res =
      Indexer.search_results_range b q.field q.start q.end_term q.inclusive q.negated cur_res
  search_results prev (sub q) cur_res = some (ok [])
  search_results prev (negation op) cur_res = some (ok [])

  -- The default case of the loop.
  unfoldable pub search_link :
      Op → Option Link → Link → Dict Text (Doc b) → Option (Result (Dict Text (Doc b)))
  unfolding search_index search_results
  search_link op prev l docs = if is_and op then search_results prev l docs else search_index prev l

  -- The documents that a subquery starts with.
  abbrev pub sub_docs : Op → Dict Text (Doc b) → Dict Text (Doc b)
  sub_docs op docs = if is_and op then docs else []

  -- The loop goes on behind the end of a subquery.
  abbrev pub after_sub :
      (Op → Option Link → List Link → Run (Dict Text (Doc b))) → List Link → Run (Dict Text (Doc b))
  after_sub go [] = panicked
  after_sub go (s ∷ links) = go (op_of s) (some s) links

  -- The loop of `execute` from a link on, with the documents, the operator and the link in front.
  -- The links are the rest of a finite chain; each call takes one from the fuel.
  unfoldable pub execute_from :
      ℕ → Dict Text (Doc b) → Op → Option Link → List Link → Run (Dict Text (Doc b))
  unfolding extract_sub_query search_link merged op_of
  execute_from zero docs op prev links = starved
  execute_from (suc fuel) docs op prev [] = returned (ok docs)
  execute_from (suc fuel) docs op prev (negation o ∷ links) =
      execute_from fuel docs op (some (negation o)) links
  execute_from (suc fuel) docs op prev (sub q ∷ links) =
      run_then (of_option (extract_sub_query links)) (λ (newq, s).
        run_then (execute_from fuel (sub_docs op docs) op (some (sub q)) newq)
          (λ r. after_sub (λ o p ls. execute_from fuel (merged op docs r) o p ls) s))
  execute_from (suc fuel) docs op prev (basic q ∷ links) =
      run_then (of_option (search_link op prev (basic q) docs))
        (λ r. execute_from fuel (merged op docs r) q.op (some (basic q)) links)
  execute_from (suc fuel) docs op prev (grouped q ∷ links) =
      run_then (of_option (search_link op prev (grouped q) docs))
        (λ r. execute_from fuel (merged op docs r) q.op (some (grouped q)) links)
  execute_from (suc fuel) docs op prev (range q ∷ links) =
      run_then (of_option (search_link op prev (range q) docs))
        (λ r. execute_from fuel (merged op docs r) q.op (some (range q)) links)

  -- `execute` of a whole chain, with the fuel that it needs.
  unfoldable pub execute : List Link → Run (Dict Text (Doc b))
  unfolding execute_from
  execute chain = execute_from (suc (length chain)) [] not_an_op none chain
