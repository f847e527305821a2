-- ===== src/Filestore/Laws.antt =====
-- filestore/filestore.go: what `Get` finds after `Save` and `DeleteHashes`.
use goiardi.Base.{
  ◌≡◌, ◌⊎◌, refl, ap, ◌∙◌, Bool, true, false, ◌||◌, Option, some, List, [], ◌∷◌, ◌++◌, ◌==◌,
  ==_refl, ==_iff, nat_eq, list_eq, subst, if◌then◌else◌, contains, Bool-cases, inl, inr, ◌>>=◌,
}
use goiardi.Base.Text.{Text, codes}
use goiardi.Datastore.{Gob, DataStore}
use goiardi.Datastore
use goiardi.Datastore.Laws.{get-set, get-delete}
use goiardi.Datastore.NilArrays.{Reflect, chk_nil_array}
use goiardi.Objects.{FileStore, Object, a_file, Result, ok, err, errorf}
use goiardi.Filestore

abbrev pub missing : Text → Result FileStore
missing chksum = err (errorf (codes "File with checksum " ++ (chksum ++ codes " not found")))

abbrev pub not_found : Text → Option (Result FileStore)
not_found chksum = some (missing chksum)

if_or :
    {A : Type 0} (a b : Bool) {x y : A}
    → (a ≡ true → y ≡ x)
    → (if b then x else y) ≡ (if a || b then x else y)
if_or true true h = refl
if_or true false h = h refl
if_or false b h = refl

if_if :
    {A : Type 0} (a b : Bool) (x y : A)
    → (if b then x else if a then x else y) ≡ (if a || b then x else y)
if_if true true x y = refl
if_if true false x y = refl
if_if false b x y = refl

module _ ⦃r : Reflect Object⦄ (g : Gob Object) where
  open g use {Bytes}

  get-eq-found_file :
      (ds : DataStore Bytes) (k : Text)
      → Filestore.get g ds k
        ≡ (Datastore.get g ds (codes "filestore") k >>= Filestore.found_file g k)
  unfolding Filestore.get
  get-eq-found_file ds k = refl

  found_file-ok :
      (f : FileStore) (d k : Text)
      → f.data_bytes ≡ some d
      → Filestore.found_file g k (some (a_file f)) ≡ some (ok f)
  unfolding Filestore.found_file Filestore.fill_data Filestore.or_empty
  found_file-ok f d k whole = ap (λ x. some (ok (record f { data_bytes = x }))) filled
    where
      filled : some (Filestore.or_empty f.data_bytes) ≡ f.data_bytes
      filled = rw whole refl

  -- `Get` of a checksum after `Save` of a file returns that file if the checksum is its own, and
  -- otherwise what it did before, for a file that gob gives back unchanged.
  pub get-save :
      (ds : DataStore Bytes) {ds' : DataStore Bytes} (f : FileStore) (d k : Text)
      → f.data_bytes ≡ some d
      → chk_nil_array (g.kept (a_file f)) ≡ a_file f
      → Filestore.save g ds f ≡ some ds'
      → Filestore.get g ds' k ≡ (if f.chksum == k then some (ok f) else Filestore.get g ds k)
  unfolding Filestore.save
  get-save ds {ds'} f d k whole same h =
      simp
        (
          get-eq-found_file,
          get-set g ds (codes "filestore") f.chksum (codes "filestore") k (a_file f) h refl refl,
          ==_refl,
          same,
        )
        (elim (Bool-cases (f.chksum == k)) [
          | inl own ↦ rw own (found_file-ok f d k whole)
          | inr other ↦ rw other refl
        ])

  get-delete_one :
      (ds : DataStore Bytes) (f k : Text)
      → Filestore.get g (Datastore.delete ds (codes "filestore") f) k
        ≡ (if f == k then not_found k else Filestore.get g ds k)
  unfolding Filestore.found_file
  get-delete_one ds f k =
      simp
        (
          get-eq-found_file,
          get-delete g ds (codes "filestore") f (codes "filestore") k refl refl,
          ==_refl,
        )
        (elim (Bool-cases (f == k)) [ inl own ↦ rw own refl | inr other ↦ rw other refl ])

  -- What `Get` finds under a checksum is no other package's object, and a file of that checksum.
  abbrev pub IsFiled : DataStore Bytes → Type 0
  IsFiled ds =
      (k : Text)
      → (Filestore.get g ds k ≡ not_found k)
        ⊎ ((f : FileStore) × (Filestore.get g ds k ≡ some (ok f)) × (f.chksum ≡ k))

  delete_one-IsFiled :
      (ds : DataStore Bytes) (ff : Text)
      → IsFiled ds
      → IsFiled (Datastore.delete ds (codes "filestore") ff)
  delete_one-IsFiled ds ff h k =
      rw (get-delete_one ds ff k)
        (elim (Bool-cases (ff == k)) [ inl own ↦ rw own (inl refl) | inr other ↦ rw other (h k) ])

  -- `DeleteHashes` returns if each stored file is under its own checksum. Then `Get` finds none of
  -- the given checksums, and of any other it returns what it did before.
  pub delete_hashes_lem :
      (ds : DataStore Bytes) (hs : List Text)
      → IsFiled ds
      → (ds' : DataStore Bytes) × (Filestore.delete_hashes g ds hs ≡ some ds')
        × IsFiled ds'
        × ((k : Text)
            → Filestore.get g ds' k ≡ (if contains hs k then not_found k else Filestore.get g ds k))
  unfolding Filestore.delete_hashes Filestore.delete
  delete_hashes_lem ds [] h = (ds, refl, h, λ k. refl)
  delete_hashes_lem ds (ff ∷ hs) h = elim (h ff) [
    | inl e ↦
        let (ds', d, filed, gets) = delete_hashes_lem ds hs h in
        (
          ds',
          rw (e, e) d,
          filed,
          λ k.
              gets k
              ∙ if_or (ff == k) (contains hs k)
                  (λ own. subst (λ j. Filestore.get g ds j ≡ not_found j) ((==_iff ff k).0 own) e),
        )
    | inr (f, e, own) ↦
        let gone : DataStore Bytes = Datastore.delete ds (codes "filestore") ff in
        let (ds', d, filed, gets) = delete_hashes_lem gone hs (delete_one-IsFiled ds ff h) in
        (
          ds',
          rw (e, own, get-delete_one ds ff ff, ==_refl ff) d,
          filed,
          λ k.
              gets k
              ∙ ap (λ x. if contains hs k then not_found k else x) (get-delete_one ds ff k)
              ∙ if_if (ff == k) (contains hs k) (not_found k) (Filestore.get g ds k),
        )
  ]
