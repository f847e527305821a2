-- ===== src/Indexer/Reach.antt =====
-- indexer/file_index.go: the indexes that calls make.
use goiardi.Base.{
  ℕ, ◌≡◌, refl, sym, ◌∙◌, subst, Bool, true, some, List, [], ◌∷◌, ◌==◌, nat_eq, list_eq, arith,
  IsNodup, Bool-cases, Option-cases, >>=-eq-some, inl, inr,
}
use goiardi.Base.Text.{Text}
use goiardi.Base.Dict.{
  Dict, lookup, insert, erase, keys, lookup-insert, lookup-nil, lookup-erase, insert-IsNodup,
  erase-IsNodup,
}
use goiardi.Indexer.Document.{Backend, Indexable, Doc, update}
use goiardi.Indexer.{
  FileIndex, save_item, add_doc, create_collection, create_new_collection, delete_collection,
  delete_item, make_default_collections, create_all, default_collections, is_builtin, or_none,
  or_new,
}

pub some_inj : {A : Type 0} {x y : A} → some x ≡ some y → x ≡ y
some_inj h = ground (arith, h)

module _ (b : Backend) where
  -- Every collection holds each id once.
  abbrev pub IsWellFormed : FileIndex b → Type 0
  IsWellFormed i =
      (idx : Text) (docs : Dict Text (Doc b))
      → lookup idx i.idxmap ≡ some docs
      → IsNodup (keys docs)

  -- The indexes that calls make from the default collections on.
  pub data Reachable (max_val_len : ℕ) : FileIndex b → Type 0 where
    made : Reachable max_val_len (make_default_collections b)
    created :
        {i : FileIndex b} (idx_name : Text)
        → Reachable max_val_len i
        → Reachable max_val_len (create_new_collection b i idx_name)
    dropped :
        {i : FileIndex b} (idx_name : Text)
        → Reachable max_val_len i
        → Reachable max_val_len (delete_collection b i idx_name).0
    saved :
        {i i' : FileIndex b} (object : Indexable)
        → Reachable max_val_len i
        → save_item b max_val_len i object ≡ some i'
        → Reachable max_val_len i'
    deleted :
        {i : FileIndex b} (idx_name doc : Text)
        → Reachable max_val_len i
        → Reachable max_val_len (delete_item b i idx_name doc).0

  insert-IsWellFormed :
      (i : FileIndex b) (idx : Text) (docs : Dict Text (Doc b)) (u : Bool)
      → IsWellFormed i
      → IsNodup (keys docs)
      → IsWellFormed (record { idxmap = insert idx docs i.idxmap; updated = u })
  insert-IsWellFormed i idx docs u w n = λ idx' docs' h. elim (Bool-cases (idx == idx')) [
    | inl own ↦ subst (λ d. IsNodup (keys d)) (same idx' docs' own h) n
    | inr other ↦ w idx' docs' (sym (lookup-insert idx' idx docs i.idxmap ∙ rw other refl) ∙ h)
  ]
    where
      same :
          (idx' : Text) (docs' : Dict Text (Doc b))
          → (idx == idx') ≡ true
          → lookup idx' (insert idx docs i.idxmap) ≡ some docs'
          → docs ≡ docs'
      same idx' docs' own h = ground (arith, lookup-insert idx' idx docs i.idxmap, own, h)

  create_collection-IsWellFormed :
      (i : FileIndex b) (idx : Text) → IsWellFormed i → IsWellFormed (create_collection b i idx)
  unfolding create_collection
  create_collection-IsWellFormed i idx w = elim (Option-cases (lookup idx i.idxmap)) [
    | inl absent ↦ rw (absent, create_collection) (insert-IsWellFormed i idx [] i.updated w tt)
    | inr (docs, found) ↦ rw (found, create_collection) w
  ]

  create_all-IsWellFormed :
      (names : List Text) (i : FileIndex b) → IsWellFormed i → IsWellFormed (create_all b names i)
  unfolding create_all
  create_all-IsWellFormed [] i w = w
  create_all-IsWellFormed (d ∷ names) i w =
      create_all-IsWellFormed names (create_collection b i d) (create_collection-IsWellFormed i d w)

  or_none-IsNodup :
      (i : FileIndex b) (idx : Text)
      → IsWellFormed i
      → IsNodup (keys (or_none b (lookup idx i.idxmap)))
  or_none-IsNodup i idx w = elim (Option-cases (lookup idx i.idxmap)) [
    | inl absent ↦ rw absent tt
    | inr (docs, found) ↦ rw found (w idx docs found)
  ]

  save_item-IsWellFormed :
      (n : ℕ) (i : FileIndex b) (object : Indexable) {i' : FileIndex b}
      → save_item b n i object ≡ some i'
      → IsWellFormed i
      → IsWellFormed i'
  unfolding save_item add_doc
  save_item-IsWellFormed n i object {i'} h w =
      let i'' : FileIndex b = create_collection b (record i { updated = true }) object.index in
      let docs : Dict Text (Doc b) = or_none b (lookup object.index i''.idxmap) in
      let w'' : IsWellFormed i'' =
        create_collection-IsWellFormed (record i { updated = true }) object.index w in
      let (docs', e, h') = >>=-eq-some (add_doc b n docs object) _ h in
      let (doc, e', h'') =
        >>=-eq-some (update b n (or_new b (lookup object.doc_id docs)) object) _ e in
      let kept : IsNodup (keys docs') =
        subst (λ d. IsNodup (keys d)) (some_inj h'')
          (insert-IsNodup object.doc_id doc docs (or_none-IsNodup i'' object.index w'')) in
      subst IsWellFormed (some_inj h')
        (insert-IsWellFormed i'' object.index docs' i''.updated w'' kept)

  delete_item-IsWellFormed :
      (i : FileIndex b) (idx doc : Text) → IsWellFormed i → IsWellFormed (delete_item b i idx doc).0
  unfolding delete_item
  delete_item-IsWellFormed i idx doc w = elim (Option-cases (lookup idx i.idxmap)) [
    | inl absent ↦ rw (absent, delete_item) w
    | inr (docs, found) ↦
        rw (found, delete_item)
          (insert-IsWellFormed i idx (erase doc docs) true w
            (erase-IsNodup doc docs (w idx docs found)))
  ]

  delete_collection-IsWellFormed :
      (i : FileIndex b) (idx : Text) → IsWellFormed i → IsWellFormed (delete_collection b i idx).0
  unfolding delete_collection
  delete_collection-IsWellFormed i idx w = elim (Bool-cases (is_builtin idx)) [
    | inl builtin ↦ rw (builtin, delete_collection) w
    | inr free ↦
        rw (free, delete_collection)
          (λ idx' docs' h. w idx' docs' (ground (arith, lookup-erase idx' idx i.idxmap, h)))
  ]

  -- In every index that calls make, each collection has each id once.
  pub Reachable-IsWellFormed : {n : ℕ} {i : FileIndex b} → Reachable n i → IsWellFormed i
  unfolding make_default_collections create_new_collection
  Reachable-IsWellFormed made =
      create_all-IsWellFormed default_collections (record { idxmap = []; updated = true })
        (λ idx docs h. ground (arith, h, lookup-nil {V = Dict Text (Doc b)} idx))
  Reachable-IsWellFormed {n} (created {i} idx r) =
      create_collection-IsWellFormed (record i { updated = true }) idx (Reachable-IsWellFormed r)
  Reachable-IsWellFormed (dropped {i} idx r) =
      delete_collection-IsWellFormed i idx (Reachable-IsWellFormed r)
  Reachable-IsWellFormed {n} (saved {i} {i'} object r e) =
      save_item-IsWellFormed n i object e (Reachable-IsWellFormed r)
  Reachable-IsWellFormed (deleted {i} idx doc r) =
      delete_item-IsWellFormed i idx doc (Reachable-IsWellFormed r)
