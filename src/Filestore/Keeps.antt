-- ===== src/Filestore/Keeps.antt =====
-- filestore/filestore.go: what `DeleteHashes` leaves alone.
use goiardi.Base.{
  ◌≡◌, refl, ◌∙◌, sym, ap, false, some, List, [], ◌∷◌, ◌==◌, nat_eq, list_eq, list_beq, arith,
  >>=-eq-some, ◌>>=◌,
}
use goiardi.Base.Text.{Text, codes}
use goiardi.Datastore.{Gob, DataStore}
use goiardi.Datastore
use goiardi.Datastore.Keys.{LacksColon}
use goiardi.Datastore.Laws.{get-delete}
use goiardi.Datastore.NilArrays.{Reflect}
use goiardi.Objects.{FileStore, Object, Result, ok, err}
use goiardi.Filestore

pub file_type : LacksColon (codes "filestore")
unfolding list_eq list_beq
file_type = refl

some_inj : {A : Type 0} {x y : A} → some x ≡ some y → x ≡ y
some_inj e = ground (arith, e)

module _ ⦃r : Reflect Object⦄ (g : Gob Object) where
  open g use {Bytes}

  delete_one-others :
      (ds : DataStore Bytes) (ff t k : Text)
      → LacksColon t
      → (codes "filestore" == t) ≡ false
      → Datastore.get g (Datastore.delete ds (codes "filestore") ff) t k ≡ Datastore.get g ds t k
  delete_one-others ds ff t k lacks other =
      rw (get-delete g ds (codes "filestore") ff t k file_type lacks, other) refl

  -- One round of the loop of `DeleteHashes`, where the rounds after it leave such objects alone.
  round-others :
      (ds : DataStore Bytes) {ds' : DataStore Bytes} (ff t k : Text) (hs : List Text)
      (found : Result FileStore)
      → LacksColon t
      → (codes "filestore" == t) ≡ false
      → ((mid : DataStore Bytes)
          → Filestore.delete_hashes g mid hs ≡ some ds'
          → Datastore.get g ds' t k ≡ Datastore.get g mid t k)
      → ((Filestore.get g (elim found [ err e ↦ ds | ok f ↦ Filestore.delete g ds f ]) ff >>= (λ d.
            Filestore.delete_hashes g
              (elim found [ err e ↦ ds | ok f ↦ Filestore.delete g ds f ])
              hs))
          ≡ some ds')
      → Datastore.get g ds' t k ≡ Datastore.get g ds t k
  unfolding Filestore.delete
  round-others ds ff t k hs (err e) lacks other rest h =
      let (_, _, h1) = >>=-eq-some (Filestore.get g ds ff) _ h in rest ds h1
  round-others ds ff t k hs (ok f) lacks other rest h =
      let mid : DataStore Bytes = Filestore.delete g ds f in
      let (_, _, h1) = >>=-eq-some (Filestore.get g mid ff) _ h in
      rest mid h1 ∙ delete_one-others ds f.chksum t k lacks other

  -- `DeleteHashes` leaves the objects of every other type as they are.
  pub delete_hashes-others :
      (ds : DataStore Bytes) {ds' : DataStore Bytes} (hs : List Text) (t k : Text)
      → LacksColon t
      → (codes "filestore" == t) ≡ false
      → Filestore.delete_hashes g ds hs ≡ some ds'
      → Datastore.get g ds' t k ≡ Datastore.get g ds t k
  unfolding Filestore.delete_hashes
  delete_hashes-others ds [] t k lacks other h = ap (λ x. Datastore.get g x t k) (sym (some_inj h))
  delete_hashes-others ds (ff ∷ hs) t k lacks other h =
      let (del_file, _, h1) = >>=-eq-some (Filestore.get g ds ff) _ h in
      round-others ds ff t k hs del_file lacks other
        (λ mid. delete_hashes-others mid hs t k lacks other) h1
