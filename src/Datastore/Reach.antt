-- ===== src/Datastore/Reach.antt =====
-- datastore/datastore.go: every store that its functions reach keeps its lists in step with what
-- is stored.
use goiardi.Base.{ℕ, ◌≡◌, Option, some, List, nat_eq, list_eq, subst}
use goiardi.Base.Text.{Text}
use goiardi.Datastore.{Gob, DataStore, sealed, get_list, init_data_store, set, delete}
use goiardi.Datastore.GetList.{ListsType, get_list_lem}
use goiardi.Datastore.NilArrays.{Reflect}
use goiardi.Datastore.Laws.{set-eq-some}
use goiardi.Datastore.Listing.{
  IsObjectType, IsConsistent, init_data_store-IsConsistent, add_to_list-IsConsistent,
  delete-IsConsistent,
}
use goiardi.Datastore.Frame.{Frame, Frame-refl, Leaves}
use goiardi.Datastore.NodeStatus.{
  Outcome, failed, returned, StatusError, delete_node_status, set_node_status,
  replace_node_statuses, latest_node_status,
}
use goiardi.Datastore.LogInfo.{set_log_info, delete_log_info, purge_log_info_before}
use goiardi.Datastore.Calls.{
  delete_node_status-Frame, set_node_status-Frame, replace_node_statuses-Frame,
  latest_node_status-Frame, set_log_info-Frame, delete_log_info-Frame, purge_log_info_before-Frame,
}

-- The store that a call leaves, with a value or beside an error.
pub data LeftBy {S A : Type 0} (o : Outcome S A) (s : S) : Type 0 where
  by_value : (a : A) → o ≡ returned a s → LeftBy o s
  by_error : (e : StatusError) → o ≡ failed e s → LeftBy o s

LeftBy-Leaves :
    {B A : Type 0} (P : DataStore B → Type 0) (o : Outcome (DataStore B) A) (ds : DataStore B)
    → LeftBy o ds
    → Leaves P o
    → P ds
LeftBy-Leaves P o ds (by_value a e) h = (subst (Leaves P) e h).at
LeftBy-Leaves P o ds (by_error x e) h = (subst (Leaves P) e h).at

module _ {V : Type 0} ⦃r : Reflect V⦄ (g : Gob V) where
  open g use {Bytes}

  -- One call of a function that may change the store.
  pub data Step (ds ds' : DataStore Bytes) : Type 0 where
    sets : (t k : Text) (v : V) → IsObjectType t → set g ds t k v ≡ some ds' → Step ds ds'
    deletes : (t k : Text) → IsObjectType t → ds' ≡ delete ds t k → Step ds ds'
    sets_status :
        (node : Text) (v : V) (id : Option ℕ)
        → LeftBy (set_node_status g ds node v id) ds'
        → Step ds ds'
    replaces_statuses :
        (node : Text) (vs : List V) → LeftBy (replace_node_statuses g ds node vs) ds' → Step ds ds'
    deletes_statuses : (node : Text) → LeftBy (delete_node_status ds node) ds' → Step ds ds'
    reads_latest : (node : Text) → LeftBy (latest_node_status g ds node) ds' → Step ds ds'
    sets_log : (v : V) (id : Option ℕ) → set_log_info g ds v id ≡ some ds' → Step ds ds'
    deletes_log : (id : ℕ) → delete_log_info g ds id ≡ some ds' → Step ds ds'
    purges_log : (id n : ℕ) → purge_log_info_before g ds id ≡ some (ds', n) → Step ds ds'

  -- The stores that calls make from the empty one.
  pub data Reachable : DataStore Bytes → Type 0 where
    start : Reachable init_data_store
    next : {ds ds' : DataStore Bytes} → Reachable ds → Step ds ds' → Reachable ds'

  Frame-IsConsistent :
      {ds ds' : DataStore Bytes} → Frame ds ds' → IsConsistent ds → IsConsistent ds'
  Frame-IsConsistent {ds} {ds'} f h = record {
    listed_iff = λ t k o. rw (f.lists, f.objects t k o) (h.listed_iff t k o);
    nodup = λ t. rw f.lists (h.nodup t);
  }

  Step-IsConsistent : {ds ds' : DataStore Bytes} → Step ds ds' → IsConsistent ds → IsConsistent ds'
  Step-IsConsistent {ds} (sets t k v o e) h =
      let (b, _, p) = set-eq-some g ds t k v e in
      rw p (add_to_list-IsConsistent ds t k (sealed b) o h)
  Step-IsConsistent {ds} (deletes t k o e) h = rw e (delete-IsConsistent ds t k o h)
  Step-IsConsistent {ds} {ds'} (sets_status node v id l) h =
      Frame-IsConsistent
        (LeftBy-Leaves (Frame ds) _ ds' l (set_node_status-Frame g ds ds node v id (Frame-refl ds)))
        h
  Step-IsConsistent {ds} {ds'} (replaces_statuses node vs l) h =
      Frame-IsConsistent
        (LeftBy-Leaves (Frame ds) _ ds' l
          (replace_node_statuses-Frame g ds ds node vs (Frame-refl ds)))
        h
  Step-IsConsistent {ds} {ds'} (deletes_statuses node l) h =
      Frame-IsConsistent (LeftBy-Leaves (Frame ds) _ ds' l (delete_node_status-Frame ds node)) h
  Step-IsConsistent {ds} {ds'} (reads_latest node l) h =
      Frame-IsConsistent
        (LeftBy-Leaves (Frame ds) _ ds' l (latest_node_status-Frame g ds ds node (Frame-refl ds))) h
  Step-IsConsistent {ds} (sets_log v id e) h =
      Frame-IsConsistent (set_log_info-Frame g ds ds v id (Frame-refl ds) e) h
  Step-IsConsistent {ds} (deletes_log id e) h =
      Frame-IsConsistent (delete_log_info-Frame g ds ds id (Frame-refl ds) e) h
  Step-IsConsistent {ds} (purges_log id n e) h =
      Frame-IsConsistent (purge_log_info_before-Frame g ds ds id n (Frame-refl ds) e) h

  Reachable-IsConsistent : {ds : DataStore Bytes} → Reachable ds → IsConsistent ds
  Reachable-IsConsistent start = init_data_store-IsConsistent
  Reachable-IsConsistent (next p s) = Step-IsConsistent s (Reachable-IsConsistent p)

  -- In every store that calls make from the empty one, where objects are stored under types that
  -- hold no colon and are none of the store's own, `GetList` of such a type returns, in ascending
  -- order and each once, exactly the keys under which an object of the type is stored.
  pub get_list-Reachable :
      (ds : DataStore Bytes) (t : Text)
      → IsObjectType t
      → Reachable ds
      → (ks : List Text) × (get_list ds t ≡ some ks) × ListsType ds t ks
  get_list-Reachable ds t o p = get_list_lem ds t o (Reachable-IsConsistent p)
