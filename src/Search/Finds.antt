-- ===== src/Search/Finds.antt =====
-- search/parse.go: the search of a link finds the documents that the link means.
use goiardi.Base.{
  ◌≡◌, refl, ◌∙◌, Bool, true, false, ◌||◌, Option, none, some, List, [], ◌∷◌, nat_eq, list_eq, All,
  arith, IsNodup,
}
use goiardi.Base.Text.{Text}
use goiardi.Base.Dict.{Dict, lookup, lookup-nil, keys}
use goiardi.Objects.{Result, ok}
use goiardi.Indexer.Document.{Backend, Doc, examine, range_search}
use goiardi.Indexer
use goiardi.Indexer.{FileIndex, is_hit, unescape, search_docs}
use goiardi.Indexer.Collect.{verdict, filter_docs, keep, search_docs_lem}
use goiardi.Indexer.Laws.{in_collection-eq}
use goiardi.Search.{
  Op, is_required, is_negation, QueryTerm, Link, basic, grouped, range, sub, negation, is_negated,
  make_search_term,
}
use goiardi.Search.Execute.{
  put_all, merge_loop, merge_results, group_loop, search_index, search_results,
}
use goiardi.Search.Links.{Keeps, filter_docs-Keeps, put_all-Keeps, Keeps-Decides}
use goiardi.Search.Meaning.{matches, matches_one, hit, IsTerm, IsSearchable}

Keeps-ext :
    {D : Type 0} {p p' : D → Bool} {docs res : Dict Text D}
    → ((d : D) → p d ≡ p' d)
    → Keeps p docs res
    → Keeps p' docs res
Keeps-ext {D} {p} {p'} {docs} e h = record {
  nodup = h.nodup;
  found = λ k. h.found k ∙ same (lookup k docs);
}
  where
    same : (o : Option D) → keep p o ≡ keep p' o
    same none = refl
    same (some d) = rw (e d) refl

is_hit-false : (m : Bool) → is_hit false m ≡ m
is_hit-false true = refl
is_hit-false false = refl

module _ (b : Backend) where
  abbrev term_hits : Text → QueryTerm → Doc b → Bool
  term_hits field t doc = is_hit (is_negation t.mod_op) (matches b field t.term doc)

  -- What the terms of a group find, each by itself.
  abbrev group_results : Text → List QueryTerm → Dict Text (Doc b) → List (Op × Dict Text (Doc b))
  group_results field [] docs = []
  group_results field (t ∷ terms) docs =
      (t.mod_op, filter_docs (term_hits field t) docs) ∷ group_results field terms docs

  -- A search that finds the documents that match each of the terms.
  abbrev Finds :
      (Text → Bool → Option (Result (Dict Text (Doc b))))
      → Text
      → Dict Text (Doc b)
      → List QueryTerm
      → Type 0
  Finds find field docs [] = Unit
  Finds find field docs (t ∷ terms) =
      (find (make_search_term field t.term) (is_negation t.mod_op)
        ≡ some (ok (filter_docs (term_hits field t) docs)))
      × Finds find field docs terms

  group_loop_lem :
      (find : Text → Bool → Option (Result (Dict Text (Doc b)))) (field : Text)
      (docs : Dict Text (Doc b)) (terms : List QueryTerm)
      → Finds find field docs terms
      → group_loop find field terms ≡ some (ok (group_results field terms docs))
  unfolding group_loop
  group_loop_lem find field docs [] h = refl
  group_loop_lem find field docs (t ∷ terms) h =
      rw (h.0, group_loop_lem find field docs terms h.1) refl

  merge_loop-Keeps :
      (field : Text) (docs res : Dict Text (Doc b)) (q : Doc b → Bool) (terms : List QueryTerm)
      → IsNodup (keys docs)
      → All (λ (t : QueryTerm). is_required t.mod_op ≡ false) terms
      → Keeps q docs res
      → Keeps
          (λ d. q d || matches_one b field terms d)
          docs
          (merge_loop false (group_results field terms docs) res)
  unfolding merge_loop
  merge_loop-Keeps field docs res q [] n h k = Keeps-ext (λ d. ground arith) k
  merge_loop-Keeps field docs res q (t ∷ terms) n h k = rw h.0 (
      Keeps-ext (λ d. ground arith)
        (merge_loop-Keeps field docs (put_all (filter_docs (term_hits field t) docs) res)
          (λ d. q d || term_hits field t d) terms n h.1
          (put_all-Keeps (term_hits field t) q (filter_docs-Keeps (term_hits field t) docs n) k)))

  merge_results-Keeps :
      (field : Text) (docs : Dict Text (Doc b)) (terms : List QueryTerm)
      → IsNodup (keys docs)
      → All (λ (t : QueryTerm). is_required t.mod_op ≡ false) terms
      → Keeps (matches_one b field terms) docs (merge_results (group_results field terms docs))
  unfolding merge_results
  merge_results-Keeps field docs terms n h =
      Keeps-ext (λ d. refl)
        (merge_loop-Keeps field docs [] (λ d. false) terms n h
          (record { nodup = tt; found = λ k. nothing (lookup k docs) k }))
    where
      nothing : (o : Option (Doc b)) (k : Text) → lookup {V = Doc b} k [] ≡ keep (λ d. false) o
      nothing none k = lookup-nil k
      nothing (some d) k = lookup-nil k

  none_required :
      (field : Text) (coll : Dict Text (Doc b)) (terms : List QueryTerm)
      → All (λ (t : QueryTerm). (is_required t.mod_op ≡ false) × IsTerm b coll field t.term) terms
      → All (λ (t : QueryTerm). is_required t.mod_op ≡ false) terms
  none_required field coll [] h = tt
  none_required field coll (t ∷ terms) h = (h.0.0, none_required field coll terms h.1)

  module _ (coll docs : Dict Text (Doc b)) (acc : Doc b → Bool) (part : Keeps acc coll docs) where
    search_results-term :
        (field term : Text) (notop : Bool)
        → IsTerm b coll field term
        → Indexer.search_results b (make_search_term field term) notop docs
          ≡ some (ok (filter_docs (λ d. is_hit notop (matches b field term d)) docs))
    unfolding Indexer.search_results
    search_results-term field term notop h = rw (h.not_all) (
        search_docs_lem (examine b (unescape (make_search_term field term))) (matches b field term)
          notop docs
          (Keeps-Decides (examine b (unescape (make_search_term field term))) (matches b field term)
            acc part h.tested))

    Finds-results :
        (field : Text) (terms : List QueryTerm)
        → All (λ (t : QueryTerm). (is_required t.mod_op ≡ false) × IsTerm b coll field t.term) terms
        → Finds (λ term notop. Indexer.search_results b term notop docs) field docs terms
    Finds-results field [] h = tt
    Finds-results field (t ∷ terms) h = (
      search_results-term field t.term (is_negation t.mod_op) h.0.1,
      Finds-results field terms h.1,
    )

    -- `SearchResults` of a link.
    pub search_results-hit :
        (i : FileIndex b) (idx : Text) (prev : Option Link) (l : Link)
        → IsSearchable b coll l
        → (res : Dict Text (Doc b)) × (search_results b i idx prev l docs ≡ some (ok res))
          × Keeps (hit b prev l) docs res
    unfolding search_results hit
    search_results-hit i idx prev (basic q) h = (
      filter_docs (hit b prev (basic q)) docs,
      search_results-term q.field q.term.term (is_negated prev) h.1,
      filter_docs-Keeps (hit b prev (basic q)) docs part.nodup,
    )
    search_results-hit i idx prev (grouped q) h = (
      merge_results (group_results q.field q.terms docs),
      rw
          (group_loop_lem (λ term notop. Indexer.search_results b term notop docs) q.field docs
            q.terms (Finds-results q.field q.terms h))
          refl,
      merge_results-Keeps q.field docs q.terms part.nodup (none_required q.field coll q.terms h),
    )
    search_results-hit i idx prev (range q) h =
        let test = range_search b q.field q.start q.end_term q.inclusive q.negated in
        (
          filter_docs (λ d. is_hit false (verdict test d)) docs,
          search_docs_lem test (verdict test) false docs
              (Keeps-Decides test (verdict test) acc part h),
          Keeps-ext (λ d. is_hit-false (verdict test d))
              (filter_docs-Keeps (λ d. is_hit false (verdict test d)) docs part.nodup),
        )
    search_results-hit i idx prev (sub q) h = absurd h
    search_results-hit i idx prev (negation o) h = absurd h

  module _ (i : FileIndex b) (idx : Text) (coll : Dict Text (Doc b))
      (there : lookup idx i.idxmap ≡ some coll) (once : IsNodup (keys coll)) where
    -- A collection is all of its documents.
    whole : Keeps (λ d. true) coll coll
    whole = record { nodup = once; found = λ k. kept (lookup k coll) }
      where
        kept : (o : Option (Doc b)) → o ≡ keep (λ d. true) o
        kept none = refl
        kept (some d) = refl

    search-eq-search_results :
        (field term : Text) (notop : Bool)
        → IsTerm b coll field term
        → Indexer.search b i idx (make_search_term field term) notop
          ≡ Indexer.search_results b (make_search_term field term) notop coll
    unfolding Indexer.search Indexer.search_results
    search-eq-search_results field term notop h =
        in_collection-eq b i idx _ ∙ rw (there, h.not_all) refl

    Finds-index :
        (field : Text) (terms : List QueryTerm)
        → All (λ (t : QueryTerm). (is_required t.mod_op ≡ false) × IsTerm b coll field t.term) terms
        → Finds (Indexer.search b i idx) field coll terms
    Finds-index field [] h = tt
    Finds-index field (t ∷ terms) h = (
      search-eq-search_results field t.term (is_negation t.mod_op) h.0.1
          ∙ search_results-term coll coll _ whole field t.term (is_negation t.mod_op) h.0.1,
      Finds-index field terms h.1,
    )

    -- `SearchIndex` of a link.
    pub search_index-hit :
        (prev : Option Link) (l : Link)
        → IsSearchable b coll l
        → (res : Dict Text (Doc b)) × (search_index b i idx prev l ≡ some (ok res))
          × Keeps (hit b prev l) coll res
    unfolding search_index hit
    search_index-hit prev (basic q) h = (
      filter_docs (hit b prev (basic q)) coll,
      rw h.0 (
          search-eq-search_results q.field q.term.term (is_negated prev) h.1
          ∙ search_results-term coll coll _ whole q.field q.term.term (is_negated prev) h.1),
      filter_docs-Keeps (hit b prev (basic q)) coll once,
    )
    search_index-hit prev (grouped q) h = (
      merge_results (group_results q.field q.terms coll),
      rw
          (group_loop_lem (Indexer.search b i idx) q.field coll q.terms
            (Finds-index q.field q.terms h))
          refl,
      merge_results-Keeps q.field coll q.terms once (none_required q.field coll q.terms h),
    )
    search_index-hit prev (range q) h =
        let test = range_search b q.field q.start q.end_term q.inclusive q.negated in
        (
          filter_docs (λ d. is_hit false (verdict test d)) coll,
          in_collection-eq b i idx _ ∙ rw there (search_docs_lem test (verdict test) false coll h),
          Keeps-ext (λ d. is_hit-false (verdict test d))
              (filter_docs-Keeps (λ d. is_hit false (verdict test d)) coll once),
        )
    search_index-hit prev (sub q) h = absurd h
    search_index-hit prev (negation o) h = absurd h
