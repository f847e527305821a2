-- ===== src/Indexer/Document.antt =====
-- indexer/file_index.go: `IdxDoc`, an indexed document with its trie and its text, both packed.
use goiardi.Base.{
  ℕ, ◌≡◌, Bool, true, false, ◌&&◌, ◌||◌, Option, none, some, List, [], ◌∷◌, ◌++◌, ◌==◌, not, nat_eq,
  list_eq, if◌then◌else◌, leb, nat_beq, all, contains, ◌>>=◌,
}
use goiardi.Base.Text.{Text, codes, join, text_ltb}
use goiardi.Base.Dict.{Dict}
use goiardi.Objects.{Result, ok, err, errorf, Gerror}
use goiardi.Util.Indexify.{Flat, indexify}

abbrev pub is_ascii : Text → Bool
is_ascii = all (λ c. leb c 127)

-- The packages under the index: the tries of go-trie, compress/zlib with msgp, and regexp.
pub record Backend : Type 1 where
  pub Trie : Type 0
  pub Packed : Type 0
  -- `Create`; `none` is its error, or its panic, which is recovered from
  pub create : List Text → Option Trie
  pub accepts : Trie → Text → Bool
  -- `ChildKeys` of the node that `HasPrefix` finds; `none` if there is no node
  pub child_keys : Trie → Text → Option (List Text)
  -- `none` is the error of packing
  pub compress_trie : Trie → Option Packed
  pub decompress_trie : Packed → Result Trie
  pub compress_text : Text → Option Packed
  pub decompress_text : Packed → Result Text
  -- `Compile` with the `MatchString` of the result
  pub compile : Text → Result (Text → Bool)
  pub decompress_trie-compress_trie :
      (t : Trie) (p : Packed) → compress_trie t ≡ some p → decompress_trie p ≡ ok t
  pub accepts-create :
      (l : List Text) (t : Trie) (s : Text)
      → create l ≡ some t
      → all is_ascii l ≡ true
      → is_ascii s ≡ true
      → accepts t s ≡ contains l s

-- `Indexable`.
pub record Indexable : Type 0 where
  pub doc_id : Text
  pub index : Text
  pub flatten : Dict Text Flat

-- `nil` bytes are `none`.
pub record IdxDoc (P : Type 0) : Type 0 where
  pub trie : Option P
  pub doc_text : Option P

abbrev pub then_try : {A B : Type 0} → Result A → (A → Option (Result B)) → Option (Result B)
then_try (err e) f = some (err e)
then_try (ok a) f = f a

-- The error of zlib on no bytes.
abbrev pub no_bytes : Gerror
no_bytes = errorf (codes "EOF")

abbrev pub opened : {P A : Type 0} → (P → Result A) → Option P → Result A
opened unpack none = err no_bytes
opened unpack (some p) = unpack p

-- `strings.Replace` of one byte everywhere.
unfoldable pub replace_byte : ℕ → Text → Text → Text
replace_byte old new [] = []
replace_byte old new (c ∷ s) =
    let rest = replace_byte old new s in if nat_beq c old then new ++ rest else c ∷ rest

-- `strings.SplitN(s, ":", 2)` with a colon in `s`.
unfoldable pub split_colon : Text → Option (Text × Text)
split_colon [] = none
split_colon (c ∷ s) =
    let rest = split_colon s in
    if nat_beq c b':'
    then some ([], s)
    else elim rest [ none ↦ none | some (k, re) ↦ some (c ∷ k, re) ]

abbrev pub any : {A : Type 0} → (A → Bool) → List A → Bool
any p [] = false
any p (x ∷ xs) = p x || any p xs

-- One child key in `RangeSearch`.
unfoldable pub in_range : Bool → Bool → Bool → Bool → Text → Text → Text → Bool
in_range false true true wild_end start end child = not (text_ltb end child)
in_range false true false true start end child = not (text_ltb child start)
in_range false true false false start end child =
    not (text_ltb child start) && not (text_ltb end child)
in_range false false true wild_end start end child = text_ltb child end
in_range false false false true start end child = text_ltb start child
in_range false false false false start end child = text_ltb start child && text_ltb child end
in_range true true true wild_end start end child = not (text_ltb child end)
in_range true true false true start end child = not (text_ltb start child)
in_range true true false false start end child =
    not (text_ltb start child) || not (text_ltb child end)
in_range true false true wild_end start end child = text_ltb end child
in_range true false false true start end child = text_ltb child start
in_range true false false false start end child = text_ltb child start || text_ltb end child

module _ (b : Backend) where
  open b use {Trie, Packed}

  abbrev pub Doc : Type 0
  Doc = IdxDoc Packed

  unfoldable pub new_doc : Doc
  new_doc = record { trie = none; doc_text = none }

  -- What `update` does with a new trie: where packing fails, a panic that is recovered from, the
  -- part is set to nil already.
  unfoldable pub store_trie : Doc → Text → Option Trie → Doc
  store_trie doc flat_text none = doc
  store_trie doc flat_text (some t) = elim (b.compress_trie t) [
    | none ↦ record doc { trie = none }
    | some p ↦ record { trie = some p; doc_text = b.compress_text flat_text }
  ]

  -- `update`; the panic of `Indexify` stands before the recovery.
  unfoldable pub update : ℕ → Doc → Indexable → Option Doc
  unfolding store_trie
  update max_val_len doc object = do
    flattened ← indexify max_val_len object.flatten
    some (store_trie doc (join flattened (codes "\n")) (b.create flattened))

  -- `exactSearch`.
  unfoldable pub exact_search : Doc → Text → Option (Result Bool)
  exact_search doc term =
      then_try (opened b.decompress_trie doc.trie) (λ t. some (ok (b.accepts t term)))

  abbrev pub some_child : Option (List Text) → (Text → Bool) → Bool
  some_child none p = false
  some_child (some kids) p = any p kids

  unfoldable pub regex_of : Text → Text
  unfolding replace_byte
  regex_of re =
      replace_byte b'?' (codes ".?")
        (replace_byte b'*' (codes ".*") (replace_byte b'.' (codes "\\.") re))

  -- `regexSearch`; a term with no colon is a panic.
  unfoldable pub regex_search : Doc → Text → Option (Result Bool)
  unfolding split_colon regex_of
  regex_search doc re_term = do
    (field, re) ← split_colon re_term
    then_try (b.compile (regex_of re)) (λ re_comp.
        then_try (opened b.decompress_trie doc.trie)
          (λ t. some (ok (some_child (b.child_keys t (field ++ codes ":")) re_comp))))

  -- `Examine`.
  unfoldable pub examine : Text → Doc → Option (Result Bool)
  unfolding exact_search regex_search
  examine term doc =
      if contains term b'*' || contains term b'?'
      then regex_search doc term
      else exact_search doc term

  -- `TextSearch`; the empty term is a panic.
  unfoldable pub text_search : Text → Doc → Option (Result Bool)
  unfolding replace_byte
  text_search [] doc = none
  text_search (c ∷ term) doc =
      let re = replace_byte b'?' (codes ".?") (replace_byte b'*' (codes ".*") (c ∷ term)) in
      if nat_beq c b'*' || nat_beq c b'?'
      then some (err (errorf (codes "Can't start a term with a wildcard character")))
      else then_try (b.compile (codes "(?m):" ++ (re ++ codes "$"))) (λ re_comp.
        then_try (opened b.decompress_text doc.doc_text) (λ doc_text. some (ok (re_comp doc_text))))

  -- `RangeSearch`.
  unfoldable pub range_search : Text → Text → Text → Bool → Bool → Doc → Option (Result Bool)
  unfolding in_range
  range_search field start end inclusive negated doc =
      let wild_start = start == codes "*" in
      let wild_end = end == codes "*" in
      if wild_start && wild_end
      then some (
          err (errorf (codes "you can't have both start and end be wild in a range search, sadly")))
      else then_try (opened b.decompress_trie doc.trie) (λ t. some (
          ok (
            some_child (b.child_keys t (field ++ codes ":"))
              (in_range negated inclusive wild_start wild_end start end))))
