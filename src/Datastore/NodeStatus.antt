-- ===== src/Datastore/NodeStatus.antt =====
-- datastore/datastore.go: the node statuses. One map holds the encoded statuses by id, another the
-- ids of each node. Both maps are Go maps, so what a function writes into them is in the cache at
-- once, also where it returns an error later.
pub mod Abstract
pub mod Linked
pub mod Laws
pub mod Replace
pub mod Latest
pub mod Atomicity
use goiardi.Base.{ℕ, ◌++◌, true, Option, none, some, List, [], ◌∷◌, nat_eq, list_eq}
use goiardi.Base.Text.{Text, codes}
use goiardi.Base.Dict.{Dict, lookup, insert, erase}
use goiardi.Base.Sort.{sort}
use goiardi.Datastore.{Gob, DataStore, Entry, sealed, statuses, status_lists, make_key}
use goiardi.Datastore.NextId.{get_next_id, int_gtb}

pub data StatusError : Type 0 where
  -- `ErrNoStatuses`, `ErrNoStatusList`, and the error for one node
  no_statuses no_status_list no_status_for_node : StatusError
  encode_failed decode_failed : StatusError

-- How a call ends: by a panic, or with a store, and an error or a value.
pub data Outcome {ℓ} (S : Type ℓ) (A : Type ℓ) : Type ℓ where
  panicked : Outcome S A
  failed : StatusError → S → Outcome S A
  returned : A → S → Outcome S A

abbrev pub ns_key : Text
ns_key = make_key (codes "nodestatus") (codes "nodestatuses")

abbrev pub ns_list_key : Text
ns_list_key = make_key (codes "nodestatuslist") (codes "nodestatuslists")

-- The two maps, as the type assertions read them: a nil entry, a map, or a panic.
pub data Held (M : Type 0) : Type 0 where
  absent wrong_type : Held M
  held : M → Held M

unfoldable pub as_statuses : {B : Type 0} → Option (Entry B) → Held (Dict ℕ B)
as_statuses none = absent
as_statuses (some (statuses m)) = held m
as_statuses (some _) = wrong_type

unfoldable pub as_status_lists : {B : Type 0} → Option (Entry B) → Held (Dict Text (List ℕ))
as_status_lists none = absent
as_status_lists (some (status_lists m)) = held m
as_status_lists (some _) = wrong_type

-- `nslist[nodeName]`, nil for a node with no list.
unfoldable pub ids_of : Dict Text (List ℕ) → Text → List ℕ
ids_of nslist node_name = elim (lookup node_name nslist) [ none ↦ [] | some ids ↦ ids ]

-- The two `ds.dsc.Set` calls at the end of each writer.
unfoldable pub put_maps : {B : Type 0} → DataStore B → Dict ℕ B → Dict Text (List ℕ) → DataStore B
put_maps ds ns nslist = record ds {
  dsc = insert ns_list_key (status_lists nslist) (insert ns_key (statuses ns) ds.dsc);
}

abbrev pub touch : {B : Type 0} → DataStore B → DataStore B
touch ds = record ds { updated = true }

module _ {B M A : Type 0} where
  unfoldable pub made : Held M → M → (M → Outcome (DataStore B) A) → Outcome (DataStore B) A
  made wrong_type new use_map = panicked
  made absent new use_map = use_map new
  made (held m) new use_map = use_map m

  unfoldable pub present :
      Held M → StatusError → DataStore B → (M → Outcome (DataStore B) A) → Outcome (DataStore B) A
  present wrong_type e ds use_map = panicked
  present absent e ds use_map = failed e ds
  present (held m) e ds use_map = use_map m

module _ {B A : Type 0} where
  -- The maps, each made new where the cache has none.
  unfoldable pub or_made :
      DataStore B
      → (Dict ℕ B → Dict Text (List ℕ) → Outcome (DataStore B) A)
      → Outcome (DataStore B) A
  unfolding as_statuses as_status_lists made
  or_made ds use_maps =
      made (as_statuses (lookup ns_key ds.dsc)) []
        λ ns. made (as_status_lists (lookup ns_list_key ds.dsc)) [] λ nslist. use_maps ns nslist

  -- The maps, where a missing one is an error.
  unfoldable pub or_fail :
      DataStore B
      → (Dict ℕ B → Dict Text (List ℕ) → Outcome (DataStore B) A)
      → Outcome (DataStore B) A
  unfolding as_statuses as_status_lists present
  or_fail ds use_maps = present (as_statuses (lookup ns_key ds.dsc)) no_statuses ds λ ns.
      present (as_status_lists (lookup ns_list_key ds.dsc)) no_status_list ds
        λ nslist. use_maps ns nslist

-- `for _, v := range nslist[nodeName] { delete(ns, v) }`
unfoldable pub delete_ids : {B : Type 0} → List ℕ → Dict ℕ B → Dict ℕ B
delete_ids [] ns = ns
delete_ids (v ∷ ids) ns = delete_ids ids (erase v ns)

-- `deleteStatuses`.
unfoldable pub delete_statuses : {B : Type 0} → DataStore B → Text → Outcome (DataStore B) Unit
unfolding or_fail put_maps delete_ids ids_of
delete_statuses ds node_name = or_fail ds λ ns nslist.
    returned tt (put_maps ds (delete_ids (ids_of nslist node_name) ns) (erase node_name nslist))

-- `DeleteNodeStatus`.
unfoldable pub delete_node_status : {B : Type 0} → DataStore B → Text → Outcome (DataStore B) Unit
unfolding delete_statuses
delete_node_status ds node_name = delete_statuses (touch ds) node_name

module _ {V : Type 0} (g : Gob V) where
  open g use {Bytes, encode, decode}

  -- `SetNodeStatus`; `ns_id` is the optional id.
  unfoldable pub set_node_status :
      DataStore Bytes → Text → V → Option ℕ → Outcome (DataStore Bytes) Unit
  unfolding or_made put_maps ids_of
  set_node_status ds node_name obj ns_id = or_made (touch ds) λ ns nslist.
      let next_id : ℕ = elim ns_id [ none ↦ get_next_id ns | some i ↦ i ] in
      elim (encode obj) [
        | none ↦ failed encode_failed (touch ds)
        | some n ↦ returned tt (
            put_maps (touch ds) (insert next_id n ns)
              (insert node_name (ids_of nslist node_name ++ next_id ∷ []) nslist))
      ]

  -- The loop of `ReplaceNodeStatuses`.
  unfoldable pub put_back :
      DataStore Bytes
      → Text
      → List V
      → Dict ℕ Bytes
      → Dict Text (List ℕ)
      → Outcome (DataStore Bytes) Unit
  unfolding put_maps ids_of
  put_back ds node_name [] ns nslist = returned tt (put_maps ds ns nslist)
  put_back ds node_name (o ∷ objs) ns nslist =
      let next_id = get_next_id ns in
      elim (encode o) [
        | none ↦ failed encode_failed (put_maps ds ns nslist)
        | some n ↦
            put_back ds node_name objs (insert next_id n ns)
              (insert node_name (ids_of nslist node_name ++ next_id ∷ []) nslist)
      ]

  -- The part of `ReplaceNodeStatuses` behind the deletion.
  unfoldable pub put_back_some : DataStore Bytes → Text → List V → Outcome (DataStore Bytes) Unit
  unfolding put_back or_made
  put_back_some ds node_name [] = returned tt ds
  put_back_some ds node_name (o ∷ objs) = or_made ds (put_back ds node_name (o ∷ objs))

  -- `ReplaceNodeStatuses`.
  unfoldable pub replace_node_statuses :
      DataStore Bytes → Text → List V → Outcome (DataStore Bytes) Unit
  unfolding delete_statuses put_back_some
  replace_node_statuses ds node_name objs = elim (delete_statuses (touch ds) node_name) [
    | panicked ↦ panicked
    | failed e ds' ↦ failed e ds'
    | returned _ ds' ↦ put_back_some ds' node_name objs
  ]

  -- `decodeSafeVal(ns[v])`: a missing status is a nil interface, which is no byte slice.
  unfoldable pub read_status :
      {A : Type 0}
      → DataStore Bytes
      → Dict ℕ Bytes
      → ℕ
      → (V → Outcome (DataStore Bytes) A)
      → Outcome (DataStore Bytes) A
  read_status ds ns v use_value = elim (lookup v ns) [
    | none ↦ panicked
    | some b ↦ elim (decode b) [ none ↦ failed decode_failed ds | some n ↦ use_value n ]
  ]

  -- The loop of `AllNodeStatuses`.
  unfoldable pub read_statuses :
      DataStore Bytes → Dict ℕ Bytes → List ℕ → List V → Outcome (DataStore Bytes) (List V)
  unfolding read_status
  read_statuses ds ns [] arr = returned arr ds
  read_statuses ds ns (v ∷ ids) arr =
      read_status ds ns v λ n. read_statuses ds ns ids (arr ++ n ∷ [])

  -- `AllNodeStatuses`.
  unfoldable pub all_node_statuses : DataStore Bytes → Text → Outcome (DataStore Bytes) (List V)
  unfolding or_fail read_statuses ids_of
  all_node_statuses ds node_name =
      or_fail ds λ ns nslist. read_statuses ds ns (ids_of nslist node_name) []

  -- `nsarr[0]` of the sorted ids, with the store that holds them sorted.
  unfoldable pub read_first : DataStore Bytes → Dict ℕ Bytes → List ℕ → Outcome (DataStore Bytes) V
  unfolding read_status
  read_first ds ns [] = panicked
  read_first ds ns (v ∷ ids) = read_status ds ns v λ n. returned n ds

  -- `LatestNodeStatus`. It sorts the slice that the cache holds, so the new order stays.
  unfoldable pub latest_node_status : DataStore Bytes → Text → Outcome (DataStore Bytes) V
  unfolding or_fail read_first
  latest_node_status ds node_name = or_fail ds λ ns nslist. elim (lookup node_name nslist) [
    | none ↦ failed no_status_for_node ds
    | some nsarr ↦
        let sorted = sort int_gtb nsarr in
        read_first
          (record ds {
            dsc = insert ns_list_key (status_lists (insert node_name sorted nslist)) ds.dsc;
          })
          ns sorted
  ]
