-- ===== src/Datastore/LogInfo.antt =====
-- datastore/datastore.go: the logged events, one gob-encoded map by id.
pub mod Laws
use goiardi.Base.{
  ℕ, ◌+◌, suc, Option, none, some, List, [], ◌∷◌, true, nat_eq, list_eq, if◌then◌else◌, ◌>>=◌,
}
use goiardi.Base.Int.{int_ltb}
use goiardi.Base.Text.{Text, codes}
use goiardi.Base.Dict.{Dict, lookup, insert, erase}
use goiardi.Datastore.{Gob, DataStore, Entry, sealed, make_key}
use goiardi.Datastore.NextId.{get_next_id}
use goiardi.Datastore.NodeStatus.{touch}

abbrev pub log_key : Text
log_key = make_key (codes "loginfo") (codes "loginfos")

-- The loop of `PurgeLogInfoBefore`: the events to keep, and how many are not kept.
unfoldable pub purge_loop {ℓ} : {A : Type ℓ} → ℕ → Dict ℕ A → Dict ℕ A × ℕ
purge_loop id [] = ([], 0)
purge_loop id ((k, v) ∷ arr) =
    let (new_logs, purged) = purge_loop id arr in
    if int_ltb id k then ((k, v) ∷ new_logs, purged) else (new_logs, suc purged)

module _ {V : Type 0} (g : Gob V) where
  open g use {Bytes, encode_map, decode_map}

  -- The map in a cache entry; `none` is `log.Fatalln`, or the panic of a type assertion.
  unfoldable pub open_log : Option (Entry Bytes) → Option (Dict ℕ V)
  open_log none = some []
  open_log (some (sealed b)) = decode_map b
  open_log (some _) = none

  -- `getLogInfoMap`.
  unfoldable pub get_log_info_map : DataStore Bytes → Option (Dict ℕ V)
  unfolding open_log
  get_log_info_map ds = open_log (lookup log_key ds.dsc)

  -- `setLogInfoMap`.
  unfoldable pub set_log_info_map : DataStore Bytes → Dict ℕ V → Option (DataStore Bytes)
  set_log_info_map ds li_map = do
    val_bytes ← encode_map li_map
    some (record ds { dsc = insert log_key (sealed val_bytes) ds.dsc })

  -- `SetLogInfo`, with the optional id.
  unfoldable pub set_log_info : DataStore Bytes → V → Option ℕ → Option (DataStore Bytes)
  unfolding get_log_info_map set_log_info_map
  set_log_info ds obj log_id = do
    arr ← get_log_info_map (touch ds)
    let next_id : ℕ = elim log_id [ none ↦ get_next_id arr | some i ↦ i ]
    set_log_info_map (touch ds) (insert next_id obj arr)

  -- `DeleteLogInfo`.
  unfoldable pub delete_log_info : DataStore Bytes → ℕ → Option (DataStore Bytes)
  unfolding get_log_info_map set_log_info_map
  delete_log_info ds id = do
    arr ← get_log_info_map (touch ds)
    set_log_info_map (touch ds) (erase id arr)

  -- `PurgeLogInfoBefore`, which returns how many it purged.
  unfoldable pub purge_log_info_before : DataStore Bytes → ℕ → Option (DataStore Bytes × ℕ)
  unfolding get_log_info_map set_log_info_map purge_loop
  purge_log_info_before ds id = do
    arr ← get_log_info_map (touch ds)
    let kept_logs = purge_loop id arr
    ds' ← set_log_info_map (touch ds) kept_logs.0
    some (ds', kept_logs.1)

  -- `GetLogInfo`: the inner `none` is the error for an id that is not there.
  unfoldable pub get_log_info : DataStore Bytes → ℕ → Option (Option V)
  unfolding get_log_info_map
  get_log_info ds id = do arr ← get_log_info_map ds; some (lookup id arr)

  -- `GetLogInfoList`.
  unfoldable pub get_log_info_list : DataStore Bytes → Option (Dict ℕ V)
  unfolding get_log_info_map
  get_log_info_list ds = get_log_info_map ds
