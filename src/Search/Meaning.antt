-- ===== src/Search/Meaning.antt =====
-- search/: what a query chain with no subquery means for one document, link by link from the left.
use goiardi.Base.{
  ◌≡◌, Bool, true, false, ◌&&◌, ◌||◌, Option, some, List, [], ◌∷◌, ◌==◌, nat_eq, list_eq,
  if◌then◌else◌, All,
}
use goiardi.Base.Text.{Text, codes}
use goiardi.Base.Dict.{Dict}
use goiardi.Indexer.Document.{Backend, Doc, examine, range_search}
use goiardi.Indexer.{is_hit, unescape}
use goiardi.Indexer.Collect.{verdict, Decides}
use goiardi.Search.{
  Op, is_and, is_or, is_required, is_negation, QueryTerm, Link, basic, grouped, range, negation,
  op_of, is_negated, make_search_term,
}

module _ (b : Backend) where
  -- Whether a document matches a term of a field.
  abbrev pub matches : Text → Text → Doc b → Bool
  matches field term = verdict (examine b (unescape (make_search_term field term)))

  -- Whether it matches one of the terms of a group, each under its own operator.
  abbrev pub matches_one : Text → List QueryTerm → Doc b → Bool
  matches_one field [] doc = false
  matches_one field (t ∷ terms) doc =
      is_hit (is_negation t.mod_op) (matches field t.term doc) || matches_one field terms doc

  -- Whether a document matches a link behind another one.
  unfoldable pub hit : Option Link → Link → Doc b → Bool
  unfolding is_negated is_negation
  hit prev (basic q) doc = is_hit (is_negated prev) (matches q.field q.term.term doc)
  hit prev (grouped q) doc = matches_one q.field q.terms doc
  hit prev (range q) doc =
      verdict (range_search b q.field q.start q.end_term q.inclusive q.negated) doc
  hit prev _ doc = false

  -- The links from the left, where `acc` says what those before make of the document.
  unfoldable pub meaning : Op → Option Link → List Link → Bool → Doc b → Bool
  unfolding hit op_of
  meaning op prev [] acc doc = acc
  meaning op prev (negation o ∷ links) acc doc = meaning op (some (negation o)) links acc doc
  meaning op prev (l ∷ links) acc doc =
      meaning (op_of l) (some l) links
        (if is_and op then acc && hit prev l doc else acc || hit prev l doc) doc

  -- A term that a search looks for in each document, and that all documents can be tested for.
  pub record IsTerm (coll : Dict Text (Doc b)) (field term : Text) : Type 0 where
    pub not_all : (make_search_term field term == codes "*:*") ≡ false
    pub tested :
        Decides (examine b (unescape (make_search_term field term))) (matches field term) coll

  -- A link with a field, and terms that all documents can be tested for, none of them required.
  abbrev pub IsSearchable : Dict Text (Doc b) → Link → Type 0
  IsSearchable coll (basic q) = ((q.field == []) ≡ false) × IsTerm coll q.field q.term.term
  IsSearchable coll (grouped q) =
      All (λ (t : QueryTerm). (is_required t.mod_op ≡ false) × IsTerm coll q.field t.term) q.terms
  IsSearchable coll (range q) =
      Decides (range_search b q.field q.start q.end_term q.inclusive q.negated)
        (verdict (range_search b q.field q.start q.end_term q.inclusive q.negated)) coll
  IsSearchable coll _ = ⊥

  -- A chain with no subquery, whose links are joined by AND or OR.
  abbrev pub IsFlat : Dict Text (Doc b) → List Link → Type 0
  IsFlat coll [] = Unit
  IsFlat coll (negation o ∷ links) = IsFlat coll links
  IsFlat coll (l ∷ links) =
      IsSearchable coll l × ((is_and (op_of l) || is_or (op_of l)) ≡ true) × IsFlat coll links
