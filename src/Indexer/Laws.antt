-- ===== src/Indexer/Laws.antt =====
-- indexer/file_index.go: what a search finds after an object is saved.
use goiardi.Base.{
  ℕ, ◌≡◌, ◌≢◌, refl, ap, sym, ◌∙◌, subst, Bool, true, false, not, ◌&&◌, Option, none, some, List,
  [], ◌∷◌, ◌==◌, ==_iff, ==_refl, nat_eq, list_eq, if◌then◌else◌, arith, contains, IsNodup,
  Bool-cases, Option-cases, inl, inr, all,
}
use goiardi.Base.Text.{Text, codes, join}
use goiardi.Base.Dict.{Dict, lookup, insert, keys, lookup-insert, insert-IsNodup}
use goiardi.Objects.{Result, ok, err}
use goiardi.Util.Indexify.{indexify}
use goiardi.Indexer.Document.{
  Backend, Indexable, Doc, update, examine, store_trie, exact_search, is_ascii,
}
use goiardi.Indexer.Collect.{
  filter_docs, keep, verdict, search_docs_lem, search_docs-Decides, Decides-insert,
  lookup-filter_docs,
}
use goiardi.Indexer.{
  FileIndex, search, search_docs, save_item, add_doc, create_collection, unknown_index,
  in_collection, unescape, is_hit, or_new,
}
use goiardi.Indexer.Reach.{Reachable, Reachable-IsWellFormed}

-- A term of one field without wildcards and backslashes.
abbrev pub is_exact : Text → Bool
is_exact term = not (contains term b'*') && (not (contains term b'?') && not (contains term b'\\'))

unescape-exact : (term : Text) → contains term b'\\' ≡ false → unescape term ≡ term
unfolding unescape
unescape-exact [] h = refl
unescape-exact (c ∷ []) h = refl
unescape-exact (c ∷ d ∷ term) h = ground (arith, unescape-exact (d ∷ term))

some_ok_inj : {A : Type 0} {x y : A} → some (ok x) ≡ some (ok y) → x ≡ y
some_ok_inj h = ground (arith, h)

module _ (b : Backend) where
  -- `SaveItem` can index the object: its values have types that `Indexify` knows, and the trie of
  -- its lines, all ASCII, is made and packed.
  pub record CanIndex (max_val_len : ℕ) (object : Indexable) (lines : List Text) : Type 0 where
    pub trie : b.Trie
    pub packed : b.Packed
    pub indexed : indexify max_val_len object.flatten ≡ some lines
    pub created : b.create lines ≡ some trie
    pub compressed : b.compress_trie trie ≡ some packed
    pub ascii : all is_ascii lines ≡ true

  abbrev stored : Text → b.Packed → Doc b
  stored flat_text p = record { trie = some p; doc_text = b.compress_text flat_text }

  update-CanIndex :
      (n : ℕ) (doc : Doc b) (object : Indexable) (lines : List Text)
      → (c : CanIndex n object lines)
      → update b n doc object ≡ some (stored (join lines (codes "\n")) c.packed)
  unfolding update
  update-CanIndex n doc object lines c = rw (c.indexed, c.created, store_trie, c.compressed) refl

  examine-stored :
      (n : ℕ) (object : Indexable) (lines : List Text) (term : Text)
      → (c : CanIndex n object lines) → is_exact term ≡ true
      → is_ascii term ≡ true
      → examine b term (stored (join lines (codes "\n")) c.packed) ≡ some (ok (contains lines term))
  unfolding examine exact_search
  examine-stored n object lines term c h a =
      let star : contains term b'*' ≡ false = ground (arith, h) in
      let mark : contains term b'?' ≡ false = ground (arith, h) in
      let opens : b.decompress_trie c.packed ≡ ok c.trie =
        b.decompress_trie-compress_trie c.trie c.packed c.compressed in
      rw (star, mark, opens, b.accepts-create lines c.trie term c.created c.ascii a) refl

  keep-insert :
      (p : Doc b → Bool) (docs : Dict Text (Doc b)) (k j : Text) (v : Doc b)
      → IsNodup (keys docs)
      → lookup j (filter_docs p (insert k v docs))
        ≡ (if k == j then keep p (some v) else lookup j (filter_docs p docs))
  keep-insert p docs k j v h =
      lookup-filter_docs p (insert k v docs) j (insert-IsNodup k v docs h)
      ∙ ap (keep p) (lookup-insert j k v docs)
      ∙ elim (Bool-cases (k == j)) [
        | inl own ↦ rw own refl
        | inr other ↦ rw other (sym (lookup-filter_docs p docs j h))
      ]

  -- What a search finds after an object of the collection is saved.
  abbrev pub found_then :
      Dict Text (Doc b) → Indexable → List Text → Text → Bool → Doc b → Text → Option (Doc b)
  found_then found object lines term notop doc id =
      if object.doc_id == id
      then keep (λ d. is_hit notop (contains lines term)) (some doc)
      else lookup id found

  abbrev pub or_unknown :
      Option (Dict Text (Doc b))
      → Text
      → (Dict Text (Doc b) → Option (Result (Dict Text (Doc b))))
      → Option (Result (Dict Text (Doc b)))
  or_unknown none idx body = some (err (unknown_index idx))
  or_unknown (some docs) idx body = body docs

  save_item-there :
      (n : ℕ) (i : FileIndex b) (object : Indexable) (lines : List Text) (docs : Dict Text (Doc b))
      → (c : CanIndex n object lines) → lookup object.index i.idxmap ≡ some docs
      → save_item b n i object
        ≡ some (record {
          idxmap =
              insert object.index
                (insert object.doc_id (stored (join lines (codes "\n")) c.packed) docs)
                i.idxmap;
          updated = true;
        })
  unfolding save_item create_collection add_doc
  save_item-there n i object lines docs c e =
      rw (e, create_collection)
        (rw (e, update-CanIndex n (or_new b (lookup object.doc_id docs)) object lines c) refl)

  pub in_collection-eq :
      (i : FileIndex b) (idx : Text)
      (body : Dict Text (Doc b) → Option (Result (Dict Text (Doc b))))
      → in_collection b i idx body ≡ or_unknown (lookup idx i.idxmap) idx body
  unfolding in_collection
  in_collection-eq i idx body = elim (Option-cases (lookup idx i.idxmap)) [
    | inl e ↦ rw (e, in_collection) refl
    | inr (docs, e) ↦ rw (e, in_collection) refl
  ]

  in_collection-congr :
      (i i' : FileIndex b) (idx : Text)
      (body : Dict Text (Doc b) → Option (Result (Dict Text (Doc b))))
      → lookup idx i'.idxmap ≡ lookup idx i.idxmap
      → in_collection b i' idx body ≡ in_collection b i idx body
  in_collection-congr i i' idx body e =
      in_collection-eq i' idx body
      ∙ ap (λ o. or_unknown o idx body) e
      ∙ sym (in_collection-eq i idx body)

  search-exact :
      (i : FileIndex b) (idx term : Text) (notop : Bool) (docs : Dict Text (Doc b))
      → is_exact term ≡ true
      → lookup idx i.idxmap ≡ some docs
      → search b i idx term notop ≡ search_docs (examine b term) notop docs
  unfolding search
  search-exact i idx term notop docs h e =
      in_collection-eq i idx _ ∙ rw (e, unescape-exact term (ground (arith, h)), not_all) refl
    where
      not_all : (term == codes "*:*") ≡ false
      not_all = elim (Bool-cases (term == codes "*:*")) [
        | inl same ↦
            absurd (starred (subst (λ t. is_exact t ≡ true) ((==_iff term (codes "*:*")).0 same) h))
        | inr other ↦ other
      ]
        where
          starred : is_exact (codes "*:*") ≢ true
          starred k = ground (arith, k)

  search-absent :
      (i : FileIndex b) (idx term : Text) (notop : Bool) (found : Dict Text (Doc b))
      → lookup idx i.idxmap ≡ none
      → search b i idx term notop ≢ some (ok found)
  unfolding search
  search-absent i idx term notop found e h = ground (arith, sym (in_collection-eq i idx _) ∙ h, e)

  search-elsewhere :
      (i i' : FileIndex b) (idx term : Text) (notop : Bool)
      → lookup idx i'.idxmap ≡ lookup idx i.idxmap
      → search b i' idx term notop ≡ search b i idx term notop
  unfolding search
  search-elsewhere i i' idx term notop e = in_collection-congr i i' idx _ e

  -- On an index that calls made, `SaveItem` of an object that can be indexed returns, if a `Search`
  -- of its collection for an exact term in ASCII did. That search then finds the object exactly if
  -- the term is one of its lines, or is none of them where the search is negated, and every other
  -- document exactly if it did before; and searches of other collections are as before.
  pub search-save_item :
      (n : ℕ) (i : FileIndex b) (object : Indexable) (lines : List Text) (term : Text)
      (notop : Bool) (found : Dict Text (Doc b))
      → Reachable b n i
      → CanIndex n object lines
      → is_exact term ≡ true
      → is_ascii term ≡ true
      → search b i object.index term notop ≡ some (ok found)
      → (i' : FileIndex b) × (found' : Dict Text (Doc b)) × (doc : Doc b) × (save_item b n i object
          ≡ some i')
        × (search b i' object.index term notop ≡ some (ok found'))
        × ((id : Text) → lookup id found' ≡ found_then found object lines term notop doc id)
        × ((idx : Text)
            → (object.index == idx) ≡ false
            → search b i' idx term notop ≡ search b i idx term notop)
  search-save_item n i object lines term notop found r c exact ascii old =
      elim (Option-cases (lookup object.index i.idxmap)) [
        | inl absent ↦ absurd (search-absent i object.index term notop found absent old)
        | inr (docs, there) ↦
            let doc : Doc b = stored (join lines (codes "\n")) c.packed in
            let docs' : Dict Text (Doc b) = insert object.doc_id doc docs in
            let i' : FileIndex b = record {
              idxmap = insert object.index docs' i.idxmap;
              updated = true;
            } in
            let before : search_docs (examine b term) notop docs ≡ some (ok found) =
              sym (search-exact i object.index term notop docs exact there) ∙ old in
            let p : Doc b → Bool = verdict (examine b term) in
            let decided = search_docs-Decides (examine b term) notop docs before in
            let w = Reachable-IsWellFormed b r object.index docs there in
            let holds = examine-stored n object lines term c exact ascii in
            let hit : p doc ≡ contains lines term = rw (verdict, holds) refl in
            let tested =
              Decides-insert (examine b term) p object.doc_id doc docs decided
                (holds ∙ ap (λ x. some (ok x)) (sym hit)) in
            (
              i',
              filter_docs (λ d. is_hit notop (p d)) docs',
              doc,
              save_item-there n i object lines docs c there,
              search-exact i' object.index term notop docs' exact (
                    lookup-insert object.index object.index docs' i.idxmap
                    ∙ rw (==_refl object.index) refl)
                  ∙ search_docs_lem (examine b term) p notop docs' tested,
              λ id.
                  keep-insert (λ d. is_hit notop (p d)) docs object.doc_id id doc w
                  ∙ elim (Bool-cases (object.doc_id == id)) [
                    | inl own ↦ rw (own, hit) refl
                    | inr other ↦ rw other (
                        ap (lookup id) (
                          some_ok_inj
                            (sym (search_docs_lem (examine b term) p notop docs decided) ∙ before)))
                  ],
              λ idx other.
                  search-elsewhere i i' idx term notop
                    (lookup-insert idx object.index docs' i.idxmap ∙ rw other refl),
            )
      ]
