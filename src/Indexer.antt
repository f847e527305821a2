-- ===== src/Indexer.antt =====
-- indexer/file_index.go: `FileIndex`, collections of indexed documents under their names. Locks are
-- held throughout each method, so that methods are steps.
pub mod Document
pub mod Collect
pub mod Ranges
pub mod Reach
pub mod Laws
use goiardi.Base.{
  ℕ, Bool, true, false, ◌||◌, Option, none, some, List, [], ◌∷◌, ◌++◌, ◌==◌, not, nat_eq, list_eq,
  if◌then◌else◌, nat_beq, leb, ◌&&◌, ◌>>=◌,
}
use goiardi.Base.Text.{Text, codes, text_ltb}
use goiardi.Base.Dict.{Dict, lookup, insert, erase, keys}
use goiardi.Base.Sort.{sort}
use goiardi.Objects.{Result, ok, err, errorf, Gerror}
use Document.{Backend, Indexable, IdxDoc, Doc, new_doc, update, examine, text_search, range_search}

-- A match of a document under an operator that may negate it.
abbrev pub is_hit : Bool → Bool → Bool
is_hit notop m = (m && not notop) || (not m && notop)

-- What one document adds: the first error counts.
unfoldable pub add_result :
    {D : Type 0} → Bool → Text → D → Result Bool → Result (Dict Text D) → Result (Dict Text D)
add_result notop k v (err e) rest = err e
add_result notop k v (ok m) (err e) = err e
add_result notop k v (ok m) (ok res) = ok (if is_hit notop m then (k, v) ∷ res else res)

-- The loop of the three searches of a collection, by the test of one document; the panic of a
-- goroutine is that of the program.
unfoldable pub search_docs :
    {D : Type 0} → (D → Option (Result Bool)) → Bool → Dict Text D → Option (Result (Dict Text D))
unfolding add_result
search_docs test notop [] = some (ok [])
search_docs test notop ((k, v) ∷ docs) = do
  m ← test v
  rest ← search_docs test notop docs
  some (add_result notop k v m rest)

-- A character that `\S` matches.
abbrev pub is_space : ℕ → Bool
is_space c = nat_beq c 32 || (nat_beq c 9 || (nat_beq c 10 || (nat_beq c 12 || nat_beq c 13)))

-- `unescape`.
unfoldable pub unescape : Text → Text
unescape [] = []
unescape (c ∷ []) = c ∷ []
unescape (c ∷ d ∷ term) =
    let cut = d ∷ unescape term in
    let whole = c ∷ unescape (d ∷ term) in
    if nat_beq c b'\\' && not (is_space d) then cut else whole

unfoldable pub default_collections : List Text
default_collections = codes "client" ∷ codes "environment" ∷ codes "node" ∷ codes "role" ∷ []

-- What `DeleteCollection` refuses to delete.
unfoldable pub is_builtin : Text → Bool
is_builtin idx_name =
    idx_name == codes "node"
    || (idx_name == codes "client" || (idx_name == codes "environment" || idx_name == codes "role"))

abbrev pub unknown_index : Text → Gerror
unknown_index idx =
    errorf (codes "I don't know how to search for " ++ (idx ++ codes " data objects."))

module _ (b : Backend) where
  pub record FileIndex : Type 0 where
    pub idxmap : Dict Text (Dict Text (Doc b))
    pub updated : Bool

  -- `CreateCollection`.
  unfoldable pub create_collection : FileIndex → Text → FileIndex
  create_collection i idx_name = elim (lookup idx_name i.idxmap) [
    | some coll ↦ i
    | none ↦ record i { idxmap = insert idx_name [] i.idxmap }
  ]

  -- `CreateNewCollection`.
  unfoldable pub create_new_collection : FileIndex → Text → FileIndex
  unfolding create_collection
  create_new_collection i idx_name = create_collection (record i { updated = true }) idx_name

  -- `DeleteCollection`.
  unfoldable pub delete_collection : FileIndex → Text → FileIndex × Option Gerror
  unfolding is_builtin
  delete_collection i idx_name =
      if is_builtin idx_name
      then (i, some (errorf (idx_name ++ codes " is a default search index, cannot be deleted.")))
      else (record i { updated = true; idxmap = erase idx_name i.idxmap }, none)

  abbrev pub or_none : Option (Dict Text (Doc b)) → Dict Text (Doc b)
  or_none none = []
  or_none (some coll) = coll

  abbrev pub or_new : Option (Doc b) → Doc b
  or_new none = new_doc b
  or_new (some doc) = doc

  -- `addDoc`.
  unfoldable pub add_doc : ℕ → Dict Text (Doc b) → Indexable → Option (Dict Text (Doc b))
  unfolding update new_doc
  add_doc max_val_len docs object = do
    doc ← update b max_val_len (or_new (lookup object.doc_id docs)) object
    some (insert object.doc_id doc docs)

  -- `SaveItem`.
  unfoldable pub save_item : ℕ → FileIndex → Indexable → Option FileIndex
  unfolding create_collection add_doc
  save_item max_val_len i object = do
    let i' = create_collection (record i { updated = true }) object.index
    docs ← add_doc max_val_len (or_none (lookup object.index i'.idxmap)) object
    some (record i' { idxmap = insert object.index docs i'.idxmap })

  -- `DeleteItem`.
  unfoldable pub delete_item : FileIndex → Text → Text → FileIndex × Option Gerror
  delete_item i idx_name doc =
      let i' = record i { updated = true } in
      elim (lookup idx_name i.idxmap) [
        | none ↦ (i', some (errorf (codes "Index collection " ++ (idx_name ++ codes " not found"))))
        | some docs ↦ (record i' { idxmap = insert idx_name (erase doc docs) i.idxmap }, none)
      ]

  -- A search of one collection, where there is one.
  unfoldable pub in_collection :
      FileIndex
      → Text
      → (Dict Text (Doc b) → Option (Result (Dict Text (Doc b))))
      → Option (Result (Dict Text (Doc b)))
  in_collection i idx body = elim (lookup idx i.idxmap) [
    | none ↦ some (err (unknown_index idx))
    | some docs ↦ body docs
  ]

  -- `Search`.
  unfoldable pub search : FileIndex → Text → Text → Bool → Option (Result (Dict Text (Doc b)))
  unfolding in_collection unescape search_docs examine
  search i idx term notop = in_collection i idx (λ docs.
      if term == codes "*:*"
      then some (ok docs)
      else search_docs (examine b (unescape term)) notop docs)

  -- `SearchText`.
  unfoldable pub search_text : FileIndex → Text → Text → Bool → Option (Result (Dict Text (Doc b)))
  unfolding in_collection unescape search_docs text_search
  search_text i idx term notop =
      in_collection i idx (search_docs (text_search b (unescape term)) notop)

  -- `SearchRange`.
  unfoldable pub search_range :
      FileIndex → Text → Text → Text → Text → Bool → Bool → Option (Result (Dict Text (Doc b)))
  unfolding in_collection search_docs range_search
  search_range i idx field start end inclusive negated =
      in_collection i idx (search_docs (range_search b field start end inclusive negated) false)

  -- `SearchResults`.
  unfoldable pub search_results :
      Text → Bool → Dict Text (Doc b) → Option (Result (Dict Text (Doc b)))
  unfolding unescape search_docs examine
  search_results term notop docs =
      if term == codes "*:*"
      then some (ok (if notop then [] else docs))
      else search_docs (examine b (unescape term)) notop docs

  -- `SearchResultsRange`.
  unfoldable pub search_results_range :
      Text → Text → Text → Bool → Bool → Dict Text (Doc b) → Option (Result (Dict Text (Doc b)))
  unfolding search_docs range_search
  search_results_range field start end inclusive negated =
      search_docs (range_search b field start end inclusive negated) false

  -- `SearchResultsText`.
  unfoldable pub search_results_text :
      Text → Bool → Dict Text (Doc b) → Option (Result (Dict Text (Doc b)))
  unfolding unescape search_docs text_search
  search_results_text term notop = search_docs (text_search b (unescape term)) notop

  -- `Endpoints`.
  unfoldable pub endpoints : FileIndex → List Text
  endpoints i = sort text_ltb (keys i.idxmap)

  unfoldable pub create_all : List Text → FileIndex → FileIndex
  unfolding create_collection
  create_all [] i = i
  create_all (d ∷ defaults) i = create_all defaults (create_collection i d)

  -- `makeDefaultCollections`, which is also `Clear`.
  unfoldable pub make_default_collections : FileIndex
  unfolding create_all default_collections
  make_default_collections = create_all default_collections (record { idxmap = []; updated = true })
