-- ===== src/Search/Laws.antt =====
-- search/search.go: what `execute` finds.
use goiardi.Base.{
  ℕ, zero, suc, ◌<◌, ◌≡◌, refl, ap, sym, ◌∙◌, Bool, true, false, ◌&&◌, ◌||◌, Option, none, some,
  List, [], ◌∷◌, nat_eq, list_eq, if◌then◌else◌, length, arith, IsNodup,
}
use goiardi.Base.Text.{Text}
use goiardi.Base.Dict.{Dict, lookup, lookup-nil, keys}
use goiardi.Objects.{ok}
use goiardi.Indexer.Document.{Backend, Doc}
use goiardi.Indexer.{FileIndex}
use goiardi.Indexer.Collect.{keep}
use goiardi.Search.{
  Op, not_an_op, bin_and, bin_or, is_and, is_or, BasicQuery, Link, basic, grouped, range, sub,
  negation,
}
use goiardi.Search.Execute.{
  returned, merged, search_link, search_index, execute_from, execute, extract_sub_query,
}
use goiardi.Search.Finds.{search_results-hit, search_index-hit}
use goiardi.Search.Links.{Keeps, put_all-Keeps, Keeps-Keeps}
use goiardi.Search.Meaning.{hit, meaning, IsSearchable, IsFlat}

-- The links that stand for the brackets of a subquery.
abbrev pub start_mark : Link
start_mark = sub (record { start = true; end_mark = false; op = not_an_op; complete = true })

abbrev pub end_mark : Link
end_mark = sub (record { start = false; end_mark = true; op = not_an_op; complete = true })

module _ (b : Backend) (i : FileIndex b) (idx : Text) (coll : Dict Text (Doc b))
    (there : lookup idx i.idxmap ≡ some coll) (once : IsNodup (keys coll)) where
  -- One link: its search, and what the loop makes of the documents.
  search_link-Keeps :
      (op : Op) (prev : Option Link) (l : Link) (docs : Dict Text (Doc b)) (acc : Doc b → Bool)
      → IsSearchable b coll l
      → (is_and op || is_or op) ≡ true
      → Keeps acc coll docs
      → (res : Dict Text (Doc b)) × (search_link b i idx op prev l docs ≡ some (ok res))
        × Keeps
            (λ d. if is_and op then acc d && hit b prev l d else acc d || hit b prev l d)
            coll
            (merged op docs res)
  unfolding search_link merged
  search_link-Keeps bin_and prev l docs acc h o k =
      let (res, e, found) = search_results-hit b coll docs acc k i idx prev l h in
      (res, e, and_merged docs res (Keeps-Keeps (hit b prev l) acc k found))
    where
      and_merged :
          (docs res : Dict Text (Doc b)) {p : Doc b → Bool}
          → Keeps p coll res
          → Keeps p coll (merged bin_and docs res)
      and_merged [] res k = k
      and_merged (d ∷ docs) res k = k
  search_link-Keeps bin_or prev l docs acc h o k =
      let (res, e, found) = search_index-hit b i idx coll there once prev l h in
      (res, e, or_merged docs res found k)
    where
      absent :
          (o : Option (Doc b))
          → none ≡ keep acc o
          → keep (hit b prev l) o ≡ keep (λ d. acc d || hit b prev l d) o
      absent none e = refl
      absent (some d) e = ground (arith, e)

      or_merged :
          (docs res : Dict Text (Doc b))
          → Keeps (hit b prev l) coll res
          → Keeps acc coll docs
          → Keeps (λ d. acc d || hit b prev l d) coll (merged bin_or docs res)
      or_merged [] res found k = record {
        nodup = found.nodup;
        found = λ id. found.found id ∙ absent (lookup id coll) (sym (lookup-nil id) ∙ k.found id);
      }
      or_merged (d ∷ docs) res found k = put_all-Keeps (hit b prev l) acc found k
  search_link-Keeps _ prev l docs acc h o k = absurd (ground (arith, o))

  -- The links from one on, behind a chain that has given the documents.
  execute_from-flat :
      (fuel : ℕ) (docs : Dict Text (Doc b)) (op : Op) (prev : Option Link) (links : List Link)
      (acc : Doc b → Bool)
      → length links < fuel
      → IsFlat b coll links
      → (is_and op || is_or op) ≡ true
      → Keeps acc coll docs
      → (res : Dict Text (Doc b)) × (execute_from b i idx fuel docs op prev links
          ≡ returned (ok res))
        × Keeps (λ d. meaning b op prev links (acc d) d) coll res
  unfolding execute_from meaning
  execute_from-flat zero docs op prev links acc h flat o k = absurd (omega arith)
  execute_from-flat (suc fuel) docs op prev [] acc h flat o k = (docs, refl, k)
  execute_from-flat (suc fuel) docs op prev (negation o' ∷ links) acc h flat o k =
      execute_from-flat fuel docs op (some (negation o')) links acc (omega arith) flat o k
  execute_from-flat (suc fuel) docs op prev (sub q ∷ links) acc h flat o k = absurd flat.0
  execute_from-flat (suc fuel) docs op prev (basic q ∷ links) acc h flat o k =
      let (r, e, k') = search_link-Keeps op prev (basic q) docs acc flat.0 o k in
      rw e (
        execute_from-flat fuel (merged op docs r) q.op (some (basic q)) links _ (omega arith) flat.2
          flat.1 k')
  execute_from-flat (suc fuel) docs op prev (grouped q ∷ links) acc h flat o k =
      let (r, e, k') = search_link-Keeps op prev (grouped q) docs acc flat.0 o k in
      rw e (
        execute_from-flat fuel (merged op docs r) q.op (some (grouped q)) links _ (omega arith)
          flat.2 flat.1 k')
  execute_from-flat (suc fuel) docs op prev (range q ∷ links) acc h flat o k =
      let (r, e, k') = search_link-Keeps op prev (range q) docs acc flat.0 o k in
      rw e (
        execute_from-flat fuel (merged op docs r) q.op (some (range q)) links _ (omega arith) flat.2
          flat.1 k')

  -- The loop starts with no operator, which is as good as an OR.
  start_as_or :
      (fuel : ℕ) (prev : Option Link) (links : List Link)
      → IsFlat b coll links
      → execute_from b i idx fuel [] not_an_op prev links
        ≡ execute_from b i idx fuel [] bin_or prev links
  unfolding execute_from search_link merged
  start_as_or zero prev links flat = refl
  start_as_or (suc fuel) prev [] flat = refl
  start_as_or (suc fuel) prev (negation o ∷ links) flat =
      start_as_or fuel (some (negation o)) links flat
  start_as_or (suc fuel) prev (sub q ∷ links) flat = absurd flat.0
  start_as_or (suc fuel) prev (basic q ∷ links) flat = refl
  start_as_or (suc fuel) prev (grouped q ∷ links) flat = refl
  start_as_or (suc fuel) prev (range q ∷ links) flat = refl

  nothing-Keeps : Keeps (λ d. false) coll []
  nothing-Keeps = record { nodup = tt; found = λ id. lookup-nil id ∙ nothing (lookup id coll) }
    where
      nothing : (o : Option (Doc b)) → none ≡ keep (λ d. false) o
      nothing none = refl
      nothing (some d) = refl

  -- On a collection that has each id once, `execute` of a chain with no subquery, whose links are
  -- joined by AND or OR and have a field and terms, none of them required, that every document can
  -- be tested for, returns exactly the documents that the chain means, its links taken from the
  -- left with no precedence.
  pub execute_lem :
      (links : List Link)
      → IsFlat b coll links
      → (res : Dict Text (Doc b)) × (execute b i idx links ≡ returned (ok res))
        × ((id : Text)
            → lookup id res ≡ keep (λ d. meaning b bin_or none links false d) (lookup id coll))
  unfolding execute
  execute_lem links flat =
      let (res, e, k) =
        execute_from-flat (suc (length links)) [] bin_or none links (λ d. false) (omega arith) flat
          refl nothing-Keeps in
      (res, start_as_or (suc (length links)) none links flat ∙ e, k.found)

  abbrev between : BasicQuery → BasicQuery → List Link
  between y z = start_mark ∷ basic y ∷ basic z ∷ end_mark ∷ []

  first_link :
      (fuel : ℕ) (x : BasicQuery) (links : List Link) (r : Dict Text (Doc b))
      → search_index b i idx none (basic x) ≡ some (ok r)
      → execute_from b i idx (suc fuel) [] not_an_op none (basic x ∷ links)
        ≡ execute_from b i idx fuel r x.op (some (basic x)) links
  unfolding execute_from search_link merged
  first_link fuel x links r e = rw e refl

  merged-and : (docs r : Dict Text (Doc b)) → merged bin_and docs r ≡ r
  unfolding merged
  merged-and [] r = refl
  merged-and (d ∷ docs) r = refl

  one_sub :
      (fuel : ℕ) (docs r : Dict Text (Doc b)) (prev : Option Link) (y z : BasicQuery)
      → execute_from b i idx (suc fuel) docs bin_and (some start_mark) (basic y ∷ basic z ∷ [])
        ≡ returned (ok r)
      → execute_from b i idx (suc (suc fuel)) docs bin_and prev (between y z) ≡ returned (ok r)
  unfolding execute_from extract_sub_query
  one_sub fuel docs r prev y z e = rw e (ap (λ d. returned (ok d)) (merged-and docs r))

  -- `execute` of "x AND (y OR z)", with fields and terms that every document can be tested for,
  -- returns the documents that match x and y, and also all that match z, whether they match x or
  -- not.
  pub execute-and-or :
      (x y z : BasicQuery)
      → IsSearchable b coll (basic x)
      → IsSearchable b coll (basic y)
      → IsSearchable b coll (basic z)
      → x.op ≡ bin_and
      → y.op ≡ bin_or
      → z.op ≡ bin_or
      → (res : Dict Text (Doc b)) × (execute b i idx
            (basic x ∷ start_mark ∷ basic y ∷ basic z ∷ end_mark ∷ [])
          ≡ returned (ok res))
        × ((id : Text)
            → lookup id res
              ≡ keep
                  (λ d.
                    (hit b none (basic x) d && hit b (some start_mark) (basic y) d)
                    || hit b (some (basic y)) (basic z) d)
                  (lookup id coll))
  unfolding execute meaning
  execute-and-or x y z hx hy hz ox oy oz =
      let (r, e, k) = search_index-hit b i idx coll there once none (basic x) hx in
      let (res, e', k') =
        execute_from-flat 4 r bin_and (some start_mark) (basic y ∷ basic z ∷ []) _ (omega arith)
          (hy, rw oy refl, (hz, rw oz refl, tt)) refl k in
      (
        res,
        first_link 5 x (between y z) r e
            ∙ ap (λ o. execute_from b i idx 5 r o (some (basic x)) (between y z)) ox
            ∙ one_sub 3 r res (some (basic x)) y z e',
        λ id. k'.found id ∙ rw oy refl,
      )
