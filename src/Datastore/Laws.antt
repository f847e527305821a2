-- ===== src/Datastore/Laws.antt =====
-- datastore/datastore.go: what `Get` returns after `Set` and `Delete`.
use goiardi.Base.{
  ◌≡◌, true, ◌&&◌, none, some, arith, ◌==◌, nat_eq, list_eq, if◌then◌else◌, >>=-eq-some, refl, ap,
  sym,
}
use mathlib.Core.Option.{some-injective}
use goiardi.Base.Text.{Text}
use goiardi.Base.Dict.{lookup, insert, erase, lookup-insert, lookup-erase}
use goiardi.Datastore.{Gob, DataStore, sealed, make_key, add_to_list, set, get, open_entry, delete}
use goiardi.Datastore.Keys.{LacksColon, ==_make_key}
use goiardi.Datastore.NilArrays.{Reflect, chk_nil_array}

pub dsc-delete :
    {B : Type 0} (ds : DataStore B) (t k : Text) → (delete ds t k).dsc ≡ erase (make_key t k) ds.dsc
unfolding delete
dsc-delete ds t k = ground arith

module _ {V : Type 0} ⦃r : Reflect V⦄ (g : Gob V) where
  pub get-eq-open_entry :
      (ds : DataStore g.Bytes) (t k : Text)
      → get g ds t k ≡ open_entry g (lookup (make_key t k) ds.dsc)
  unfolding get
  get-eq-open_entry ds t k = refl

  pub set-eq-some :
      (ds : DataStore g.Bytes) {ds' : DataStore g.Bytes} (t k : Text) (v : V)
      → set g ds t k v ≡ some ds'
      → (b : g.Bytes) × (g.encode v ≡ some b)
        × (ds'
            ≡ add_to_list
                (record ds { updated = true; dsc = insert (make_key t k) (sealed b) ds.dsc })
                t
                k)
  unfolding set
  set-eq-some ds t k v h =
      let (b, e, p) = >>=-eq-some (g.encode v) _ h in (b, e, sym (some-injective _ _ p))

  pub dsc-set :
      (ds : DataStore g.Bytes) {ds' : DataStore g.Bytes} (t k : Text) (v : V)
      → set g ds t k v ≡ some ds'
      → (b : g.Bytes) × (g.encode v ≡ some b) × (ds'.dsc ≡ insert (make_key t k) (sealed b) ds.dsc)
  unfolding add_to_list
  dsc-set ds t k v h =
      let (b, e, p) = set-eq-some ds t k v h in (b, e, ap (λ (s : DataStore g.Bytes). s.dsc) p)

  open_sealed :
      (v : V) (b : g.Bytes)
      → g.encode v ≡ some b
      → open_entry g (some (sealed b)) ≡ some (some (chk_nil_array (g.kept v)))
  unfolding open_entry
  open_sealed v b e = rw (g.decode-encode v b e)

  -- After `Set` of one key, `Get` of that key returns what gob keeps of the value, with its nil
  -- slices made empty, and `Get` of any other key returns what it did before, if neither type
  -- holds a colon.
  pub get-set :
      (ds : DataStore g.Bytes) {ds' : DataStore g.Bytes} (t k t' k' : Text) (v : V)
      → set g ds t k v ≡ some ds'
      → LacksColon t
      → LacksColon t'
      → get g ds' t' k' ≡ (
          if (t == t') && (k == k') then some (some (chk_nil_array (g.kept v))) else get g ds t' k')
  get-set ds t k t' k' v h c c' =
      let (b, e, p) = dsc-set ds t k v h in
      simp (get-eq-open_entry, p, lookup-insert, ==_make_key t k t' k' c c')
        (ground (arith, open_sealed v b e))

  -- After `Delete` of one key, `Get` does not find that key, and of any other key it returns what
  -- it did before, if neither type holds a colon.
  pub get-delete :
      (ds : DataStore g.Bytes) (t k t' k' : Text)
      → LacksColon t
      → LacksColon t'
      → get g (delete ds t k) t' k' ≡ (if (t == t') && (k == k') then some none else get g ds t' k')
  get-delete ds t k t' k' c c' =
      simp (get-eq-open_entry, dsc-delete ds t k, lookup-erase, ==_make_key t k t' k' c c')
        (unfold open_entry in ground arith)
