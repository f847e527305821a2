-- ===== src/Search/Links.antt =====
-- search/parse.go: what the searches of each kind of link find.
use goiardi.Base.{
  ◌≡◌, refl, ap, sym, ◌∙◌, Bool, ◌&&◌, ◌||◌, Option, none, some, [], ◌∷◌, ◌==◌, nat_eq, list_eq,
  arith, IsNodup, Bool-cases, inl, inr,
}
use goiardi.Base.Text.{Text}
use goiardi.Base.Dict.{Dict, insert, lookup, keys, lookup-insert, insert-IsNodup}
use goiardi.Objects.{Result}
use goiardi.Indexer.Collect.{
  Decides, filter_docs, keep, lookup-filter_docs, lookup-absent, filter_docs-IsNodup, Decides-at,
  Decides-all,
}
use goiardi.Search.Execute.{put_all}

abbrev or_else : {A : Type 0} → Option A → Option A → Option A
or_else none o = o
or_else (some a) o = some a

pub put_all-IsNodup :
    {D : Type 0} (r docs : Dict Text D) → IsNodup (keys docs) → IsNodup (keys (put_all r docs))
unfolding put_all
put_all-IsNodup [] docs h = h
put_all-IsNodup ((k, v) ∷ r) docs h =
    put_all-IsNodup r (insert k v docs) (insert-IsNodup k v docs h)

lookup-put_all :
    {D : Type 0} (r docs : Dict Text D) (k : Text)
    → IsNodup (keys r)
    → lookup k (put_all r docs) ≡ or_else (lookup k r) (lookup k docs)
unfolding put_all lookup
lookup-put_all [] docs k h = refl
lookup-put_all ((j, v) ∷ r) docs k h =
    lookup-put_all r (insert j v docs) k h.1
    ∙ ap (or_else (lookup k r)) (lookup-insert k j v docs)
    ∙ elim (Bool-cases (j == k)) [
      | inl own ↦ rw (own, lookup-absent r j k h.0 own) refl
      | inr other ↦ rw other refl
    ]

or_else-keep :
    {D : Type 0} (p q : D → Bool) (o : Option D)
    → or_else (keep p o) (keep q o) ≡ keep (λ d. q d || p d) o
or_else-keep p q none = refl
or_else-keep p q (some d) = ground arith

-- Of some documents, those that pass a test, each once.
pub record Keeps {D : Type 0} (p : D → Bool) (docs res : Dict Text D) : Type 0 where
  pub nodup : IsNodup (keys res)
  pub found : (k : Text) → lookup k res ≡ keep p (lookup k docs)

pub filter_docs-Keeps :
    {D : Type 0} (p : D → Bool) (docs : Dict Text D)
    → IsNodup (keys docs)
    → Keeps p docs (filter_docs p docs)
filter_docs-Keeps p docs h = record {
  nodup = filter_docs-IsNodup p docs h;
  found = λ k. lookup-filter_docs p docs k h;
}

pub put_all-Keeps :
    {D : Type 0} (p q : D → Bool) {docs r res : Dict Text D}
    → Keeps p docs r
    → Keeps q docs res
    → Keeps (λ d. q d || p d) docs (put_all r res)
put_all-Keeps p q {docs} {r} {res} h h' = record {
  nodup = put_all-IsNodup r res h'.nodup;
  found = λ k.
      lookup-put_all r res k h.nodup
      ∙ rw (h.found k, h'.found k) (or_else-keep p q (lookup k docs));
}

keep-keep :
    {D : Type 0} (p q : D → Bool) (o : Option D) → keep p (keep q o) ≡ keep (λ d. q d && p d) o
keep-keep p q none = refl
keep-keep p q (some d) = ground arith

pub Keeps-Keeps :
    {D : Type 0} (p q : D → Bool) {coll docs res : Dict Text D}
    → Keeps q coll docs
    → Keeps p docs res
    → Keeps (λ d. q d && p d) coll res
Keeps-Keeps p q {coll} h h' = record {
  nodup = h'.nodup;
  found = λ k. h'.found k ∙ ap (keep p) (h.found k) ∙ keep-keep p q (lookup k coll);
}

-- What can be tested in a collection can be tested in some of its documents.
pub Keeps-Decides :
    {D : Type 0} (test : D → Option (Result Bool)) (p q : D → Bool) {coll docs : Dict Text D}
    → Keeps q coll docs
    → Decides test p coll
    → Decides test p docs
Keeps-Decides {D} test p q {coll} {docs} h d =
    Decides-all test p docs h.nodup
      (λ k v e. Decides-at test p coll k d (there (lookup k coll) v (sym (h.found k) ∙ e)))
  where
    there : (o : Option D) (v : D) → keep q o ≡ some v → o ≡ some v
    there none v e = ground (arith, e)
    there (some w) v e = ground (arith, e)
