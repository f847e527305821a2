-- ===== src/Indexer/Collect.antt =====
-- indexer/file_index.go: what the search loop of a collection returns.
use goiardi.Base.{
  ◌≡◌, refl, ◌∙◌, Bool, true, false, Option, none, some, [], ◌∷◌, ◌==◌, ==_iff, ==_refl, subst,
  nat_eq, list_eq, if◌then◌else◌, arith, contains, IsNodup, Bool-cases, Option-cases, >>=-eq-some,
  inl, inr,
}
use goiardi.Base.Text.{Text}
use goiardi.Base.Dict.{Dict, insert, lookup, keys, contains-keys}
use goiardi.Objects.{Result, ok, err}
use goiardi.Indexer.{search_docs, add_result, is_hit}

-- The documents that pass a test.
abbrev pub filter_docs : {D : Type 0} → (D → Bool) → Dict Text D → Dict Text D
filter_docs p [] = []
filter_docs p ((k, v) ∷ docs) = let rest = filter_docs p docs in if p v then (k, v) ∷ rest else rest

abbrev pub keep : {D : Type 0} → (D → Bool) → Option D → Option D
keep p none = none
keep p (some v) = if p v then some v else none

-- Every document is tested without an error, and the test says what `p` says.
abbrev pub Decides : {D : Type 0} → (D → Option (Result Bool)) → (D → Bool) → Dict Text D → Type 0
Decides test p [] = Unit
Decides test p ((k, v) ∷ docs) = (test v ≡ some (ok (p v))) × Decides test p docs

pub search_docs_lem :
    {D : Type 0} (test : D → Option (Result Bool)) (p : D → Bool) (notop : Bool)
    (docs : Dict Text D)
    → Decides test p docs
    → search_docs test notop docs ≡ some (ok (filter_docs (λ v. is_hit notop (p v)) docs))
unfolding search_docs
search_docs_lem test p notop [] h = refl
search_docs_lem test p notop ((k, v) ∷ docs) h =
    rw (h.0, search_docs_lem test p notop docs h.1) refl

-- A key that is not among the keys has no value.
pub lookup-absent :
    {D : Type 0} (docs : Dict Text D) (j k : Text)
    → contains (keys docs) j ≡ false
    → (j == k) ≡ true
    → lookup k docs ≡ none
lookup-absent docs j k h e = elim (Option-cases (lookup k docs)) [
  | inl none' ↦ none'
  | inr (v, found) ↦ ground (arith, (==_iff j k).0 e, contains-keys docs k, h, found)
]

pub lookup-filter_docs :
    {D : Type 0} (p : D → Bool) (docs : Dict Text D) (k : Text)
    → IsNodup (keys docs)
    → lookup k (filter_docs p docs) ≡ keep p (lookup k docs)
unfolding lookup
lookup-filter_docs p [] k h = refl
lookup-filter_docs p ((j, v) ∷ docs) k h = elim (Bool-cases (p v)) [
  | inl pass ↦ elim (Bool-cases (j == k)) [
    | inl own ↦ rw (pass, own, pass) refl
    | inr other ↦ rw (pass, other) (lookup-filter_docs p docs k h.1)
  ]
  | inr fail ↦ elim (Bool-cases (j == k)) [
    | inl own ↦
        rw (fail, own, fail)
          (lookup-filter_docs p docs k h.1 ∙ rw (lookup-absent docs j k h.0 own) refl)
    | inr other ↦ rw (fail, other) (lookup-filter_docs p docs k h.1)
  ]
]

abbrev pub verdict : {D : Type 0} → (D → Option (Result Bool)) → D → Bool
verdict test v = elim (test v) [ some (ok m) ↦ m | _ ↦ false ]

-- A search that succeeds has tested every document without an error.
pub search_docs-Decides :
    {D : Type 0} (test : D → Option (Result Bool)) (notop : Bool) (docs : Dict Text D)
    {res : Dict Text D}
    → search_docs test notop docs ≡ some (ok res)
    → Decides test (verdict test) docs
unfolding search_docs add_result
search_docs-Decides test notop [] h = tt
search_docs-Decides {D} test notop ((k, v) ∷ docs) h =
    let (m, e, h') = >>=-eq-some (test v) _ h in
    let (rest, e', h'') = >>=-eq-some (search_docs test notop docs) _ h' in
    tested m rest e e' h'' (λ res f. search_docs-Decides test notop docs {res = res} f)
  where
    tested :
        {res : Dict Text D} (m : Result Bool) (rest : Result (Dict Text D))
        → test v ≡ some m
        → search_docs test notop docs ≡ some rest
        → some (add_result notop k v m rest) ≡ some (ok res)
        → ((res : Dict Text D)
            → search_docs test notop docs ≡ some (ok res)
            → Decides test (verdict test) docs)
        → (test v ≡ some (ok (verdict test v))) × Decides test (verdict test) docs
    tested (err x) rest e e' h ih = ground (arith, h)
    tested (ok m) (err x) e e' h ih = ground (arith, h)
    tested (ok m) (ok rest) e e' h ih = (rw (e, verdict) refl, ih rest e')

pub Decides-insert :
    {D : Type 0} (test : D → Option (Result Bool)) (p : D → Bool) (k : Text) (v : D)
    (docs : Dict Text D)
    → Decides test p docs
    → test v ≡ some (ok (p v))
    → Decides test p (insert k v docs)
unfolding insert
Decides-insert test p k v [] h e = (e, tt)
Decides-insert test p k v ((j, w) ∷ docs) h e = elim (Bool-cases (j == k)) [
  | inl own ↦ rw own ((e, h.1))
  | inr other ↦ rw other ((h.0, Decides-insert test p k v docs h.1 e))
]

filter_docs-lacks :
    {D : Type 0} (p : D → Bool) (docs : Dict Text D) (k : Text)
    → contains (keys docs) k ≡ false
    → contains (keys (filter_docs p docs)) k ≡ false
filter_docs-lacks p [] k h = refl
filter_docs-lacks p ((j, v) ∷ docs) k h = ground (arith, filter_docs-lacks p docs k)

pub filter_docs-IsNodup :
    {D : Type 0} (p : D → Bool) (docs : Dict Text D)
    → IsNodup (keys docs)
    → IsNodup (keys (filter_docs p docs))
filter_docs-IsNodup p [] h = tt
filter_docs-IsNodup p ((j, v) ∷ docs) h = elim (Bool-cases (p v)) [
  | inl pass ↦ rw pass ((filter_docs-lacks p docs j h.0, filter_docs-IsNodup p docs h.1))
  | inr fail ↦ rw fail (filter_docs-IsNodup p docs h.1)
]

-- A test decides documents exactly if it decides each of them.
pub Decides-at :
    {D : Type 0} (test : D → Option (Result Bool)) (p : D → Bool) (docs : Dict Text D) (k : Text)
    {v : D}
    → Decides test p docs
    → lookup k docs ≡ some v
    → test v ≡ some (ok (p v))
unfolding lookup
Decides-at test p [] k h e = ground (arith, e)
Decides-at test p ((j, w) ∷ docs) k h e = elim (Bool-cases (j == k)) [
  | inl own ↦ subst (λ x. test x ≡ some (ok (p x))) (ground (arith, rw own at e)) h.0
  | inr other ↦ Decides-at test p docs k h.1 (rw other at e)
]

pub Decides-all :
    {D : Type 0} (test : D → Option (Result Bool)) (p : D → Bool) (docs : Dict Text D)
    → IsNodup (keys docs)
    → ((k : Text) (v : D) → lookup k docs ≡ some v → test v ≡ some (ok (p v)))
    → Decides test p docs
unfolding lookup
Decides-all test p [] n h = tt
Decides-all test p ((j, w) ∷ docs) n h = (
  h j w (rw (==_refl j) refl),
  Decides-all test p docs n.1 (λ k v e. h k v (elim (Bool-cases (j == k)) [
    | inl own ↦ ground (arith, lookup-absent docs j k n.0 own, e)
    | inr other ↦ rw other e
  ])),
)
