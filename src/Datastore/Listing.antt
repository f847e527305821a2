-- ===== src/Datastore/Listing.antt =====
-- datastore/datastore.go: the key lists that `addToList` and `removeFromList` keep, and `GetList`.
use goiardi.Base.{
  ◌≡◌, refl, Bool, true, false, ◌&&◌, ◌||◌, List, [], ◌∷◌, arith, ◌==◌, ==_iff, nat_eq, list_eq,
  if◌then◌else◌, contains, IsNodup,
}
use goiardi.Base.Text.{codes, Text}
use goiardi.Base.Dict.{
  Dict, lookup, insert, erase, keys, is_some, lookup-insert, lookup-erase, contains-keys,
  insert-IsNodup, erase-IsNodup,
}
use goiardi.Datastore.{init_data_store, DataStore, Entry, make_key, add_to_list, or_nil, delete}
use goiardi.Datastore.Keys.{LacksColon, ==_make_key}
use goiardi.Datastore.Laws.{dsc-delete}

-- The names that the list of a type holds.
abbrev pub listed : {B : Type 0} → DataStore B → Text → List Text
listed ds t = keys (or_nil (lookup t ds.obj_list))

names-add_to_list :
    {B : Type 0} (ds : DataStore B) (t k t' : Text)
    → or_nil (lookup t' (add_to_list ds t k).obj_list) ≡ (
        if t == t'
        then insert k true (or_nil (lookup t ds.obj_list))
        else or_nil (lookup t' ds.obj_list))
unfolding add_to_list
names-add_to_list ds t k t' = simp lookup-insert (ground arith)

names-delete :
    {B : Type 0} (ds : DataStore B) (t k t' : Text)
    → or_nil (lookup t' (delete ds t k).obj_list) ≡ (
        if t == t' then erase k (or_nil (lookup t ds.obj_list)) else or_nil (lookup t' ds.obj_list))
unfolding delete erase
names-delete ds t k t' =
    ground
      (arith, ==_iff t t', lookup-insert t' t (erase k (or_nil (lookup t ds.obj_list))) ds.obj_list)

dsc-add_to_list : {B : Type 0} (ds : DataStore B) (t k : Text) → (add_to_list ds t k).dsc ≡ ds.dsc
unfolding add_to_list
dsc-add_to_list ds t k = refl

if_IsNodup :
    {V : Type 0} (b : Bool) (m n : Dict Text V)
    → IsNodup (keys m)
    → IsNodup (keys n)
    → IsNodup (keys (if b then m else n))
if_IsNodup true m n h k = h
if_IsNodup false m n h k = k

pub contains-listed-add_to_list :
    {B : Type 0} (ds : DataStore B) (t k t' k' : Text)
    → contains (listed (add_to_list ds t k) t') k'
      ≡ (((t == t') && (k == k')) || contains (listed ds t') k')
contains-listed-add_to_list ds t k t' k' =
    let m = or_nil (lookup t ds.obj_list) in
    simp (contains-keys, names-add_to_list)
      (ground (
        arith,
        ==_iff t t',
        contains-keys (insert k true m) k',
        contains-keys (or_nil (lookup t' ds.obj_list)) k',
        lookup-insert k' k true m,
      ))

pub contains-listed-delete :
    {B : Type 0} (ds : DataStore B) (t k t' k' : Text)
    → contains (listed (delete ds t k) t') k'
      ≡ (if (t == t') && (k == k') then false else contains (listed ds t') k')
contains-listed-delete ds t k t' k' =
    let m = or_nil (lookup t ds.obj_list) in
    simp (contains-keys, names-delete)
      (ground (
        arith,
        ==_iff t t',
        contains-keys (erase k m) k',
        contains-keys (or_nil (lookup t' ds.obj_list)) k',
        lookup-erase k' k m,
      ))

-- The types under which the store keeps its own maps, which are in no list.
abbrev pub reserved : List Text
reserved = codes "nodestatus" ∷ codes "nodestatuslist" ∷ codes "loginfo" ∷ []

-- The types that objects are stored under.
pub record IsObjectType (t : Text) : Type 0 where
  pub lacks_colon : LacksColon t
  pub unreserved : contains reserved t ≡ false

-- The list of a type names exactly the keys that are stored under it, each once.
pub record IsConsistent {B : Type 0} (ds : DataStore B) : Type 0 where
  pub listed_iff :
      (t k : Text)
      → IsObjectType t
      → contains (listed ds t) k ≡ is_some (lookup (make_key t k) ds.dsc)
  pub nodup : (t : Text) → IsNodup (listed ds t)

pub init_data_store-IsConsistent : {B : Type 0} → IsConsistent (init_data_store {B = B})
unfolding init_data_store lookup
init_data_store-IsConsistent = record { listed_iff = λ t k o. refl; nodup = λ t. tt }

pub add_to_list-IsConsistent :
    {B : Type 0} (ds : DataStore B) (t k : Text) (x : Entry B)
    → IsObjectType t
    → IsConsistent ds
    → IsConsistent
        (add_to_list (record ds { updated = true; dsc = insert (make_key t k) x ds.dsc }) t k)
add_to_list-IsConsistent ds t k x o h =
    let ds' : DataStore _ = record ds { updated = true; dsc = insert (make_key t k) x ds.dsc } in
    record {
      listed_iff = λ t' k' o'.
          simp
            (
              contains-listed-add_to_list ds' t k t' k',
              dsc-add_to_list ds' t k,
              lookup-insert,
              ==_make_key t k t' k' o.lacks_colon o'.lacks_colon,
            )
            (ground (arith, h.listed_iff t' k' o'));
      nodup = λ t'.
          rw (names-add_to_list ds' t k t')
            (if_IsNodup (t == t') _ _ (insert-IsNodup k true _ (h.nodup t)) (h.nodup t'));
    }

pub delete-IsConsistent :
    {B : Type 0} (ds : DataStore B) (t k : Text)
    → IsObjectType t
    → IsConsistent ds
    → IsConsistent (delete ds t k)
delete-IsConsistent ds t k o h = record {
  listed_iff = λ t' k' o'.
      simp
        (
          contains-listed-delete ds t k t' k',
          dsc-delete ds t k,
          lookup-erase,
          ==_make_key t k t' k' o.lacks_colon o'.lacks_colon,
        )
        (ground (arith, h.listed_iff t' k' o'));
  nodup = λ t'.
      rw (names-delete ds t k t')
        (if_IsNodup (t == t') _ _ (erase-IsNodup k _ (h.nodup t)) (h.nodup t'));
}
