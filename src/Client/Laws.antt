-- ===== src/Client/Laws.antt =====
-- client/client.go: `Delete`, `Rename` and `UpdateFromJSON`, and what becomes of the last admin.
use goiardi.Base.{
  ◌≡◌, refl, ap, sym, ◌∙◌, true, false, Option, none, some, ◌==◌, ==_iff, ==_refl, nat_eq, list_eq,
  if◌then◌else◌, arith, Bool-cases, inl, inr,
}
use goiardi.Base.Text.{Text, codes}
use goiardi.Datastore.{Gob, DataStore}
use goiardi.Datastore
use goiardi.Datastore.Laws.{get-delete}
use goiardi.Datastore.NilArrays.{Reflect}
use goiardi.Datastore.Reach.{Reachable}
use goiardi.Objects.{Client, Object, ok, errorf, Gerror}
use goiardi.Indexer.Document.{Backend}
use goiardi.Indexer.{delete_item}
use goiardi.Client.{World, get, found_client, delete}
use goiardi.Client.Admins.{not_found, IsClientStore, HasAdmin, is_last_admin_lem}

module _ ⦃r : Reflect Object⦄ (g : Gob Object) where
  open g use {Bytes}

  get-delete_client :
      (ds : DataStore Bytes) (name k : Text)
      → get g (Datastore.delete ds (codes "client") name) k
        ≡ (if name == k then not_found k else get g ds k)
  unfolding get found_client
  get-delete_client ds name k =
      rw
        (
          get-delete g ds (codes "client") name (codes "client") k refl refl,
          ==_refl (codes "client"),
        )
        (elim (Bool-cases (name == k)) [ inl own ↦ rw own refl | inr other ↦ rw other refl ])

  -- An admin beside a client: the client itself is none, or there is another.
  left_over :
      (ds : DataStore Bytes) (c : Client)
      → get g ds c.name ≡ some (ok c)
      → HasAdmin g ds
      → ((c.admin ≡ true)
          → (j : Text) × ((c.name == j) ≡ false)
            × (d : Client) × (get g ds j ≡ some (ok d))
            × (d.admin ≡ true))
      → (j : Text) × ((c.name == j) ≡ false)
        × (d : Client) × (get g ds j ≡ some (ok d))
        × (d.admin ≡ true)
  left_over ds c e (k, d, found, admin) others = elim (Bool-cases (c.name == k)) [
    | inr apart ↦ (k, apart, d, found, admin)
    | inl own ↦ others (same (ok_inj (sym e ∙ ap (get g ds) ((==_iff c.name k).0 own) ∙ found)))
  ]
    where
      ok_inj : {x y : Client} → some (ok x) ≡ some (ok y) → x ≡ y
      ok_inj h = ground (arith, h)

      same : c ≡ d → c.admin ≡ true
      same h = ap (λ (x : Client). x.admin) h ∙ admin

  module _ (b : Backend) where
    -- What `Delete` does: it refuses for an admin, or the client is gone and every other stays.
    pub data Deletes (c : Client) (w w' : World g b) : Option Gerror → Type 0 where
      refused :
          c.admin ≡ true
          → w' ≡ w
          → Deletes c w w' (some (errorf (codes "Cannot delete the last admin")))
      removed :
          ((k : Text) → get g w'.store k ≡ (if c.name == k then not_found k else get g w.store k))
          → Deletes c w w' none

    -- In a reachable store of clients with an admin, `Delete` of a client that is stored as it is
    -- returns, and an admin is left. Either it refuses to delete the client, which then is an
    -- admin, and changes nothing, or that client is gone and every other one stays.
    pub delete_lem :
        (w : World g b) (c : Client)
        → Reachable g w.store
        → IsClientStore g w.store
        → get g w.store c.name ≡ some (ok c)
        → HasAdmin g w.store
        → (w' : World g b) × (e : Option Gerror) × (delete g b w c ≡ some (w', e))
          × Deletes c w w' e
          × HasAdmin g w'.store
    unfolding delete
    delete_lem w c reach h e has =
        let (last, says, own, others) = is_last_admin_lem g w.store c reach h e in
        elim (Bool-cases last) [
          | inl is_last ↦ (
            w,
            some (errorf (codes "Cannot delete the last admin")),
            rw (says, is_last) refl,
            refused (own is_last) refl,
            has,
          )
          | inr not_last ↦
              let gone : DataStore Bytes = Datastore.delete w.store (codes "client") c.name in
              let (j, apart, d, found, admin) =
                left_over w.store c e has (λ a. others a not_last) in
              (
                record w {
                  store = gone;
                  index = (delete_item b w.index (codes "client") c.name).0;
                },
                none,
                rw (says, not_last) refl,
                removed (get-delete_client w.store c.name),
                (j, d, get-delete_client w.store c.name j ∙ rw apart found, admin),
              )
        ]
