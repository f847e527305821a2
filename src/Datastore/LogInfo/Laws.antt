-- ===== src/Datastore/LogInfo/Laws.antt =====
-- datastore/datastore.go: what is in the log after an event is written, deleted, or purged.
use mathlib.Core.Option.{some-injective}
use goiardi.Base.{
  ℕ, suc, ◌+◌, ◌≡◌, refl, ap, sym, subst, >>=-eq-some, ◌∙◌, Option, none, some, [], ◌∷◌, map, arith,
  ◌==◌, ==_iff, ==_refl, nat_eq, list_eq, if◌then◌else◌, ◌>>=◌, length, All,
}
use goiardi.Base.Int.{int_ltb}
use goiardi.Base.Dict.{Dict, lookup, insert, erase, keys, lookup-insert, lookup-erase}
use goiardi.Datastore.{Gob, DataStore}
use goiardi.Datastore.NextId.{get_next_id, IsSmall, lookup-get_next_id}
use goiardi.Datastore.NodeStatus.{touch}
use goiardi.Datastore.LogInfo.{
  log_key, purge_loop, get_log_info_map, set_log_info_map, set_log_info, delete_log_info,
  purge_log_info_before, get_log_info,
}

-- The ids that the purge keeps are those above the given one.
lookup-purge_loop {ℓ} :
    {A : Type ℓ} (id j : ℕ) (arr : Dict ℕ A)
    → lookup j (purge_loop id arr).0 ≡ (if int_ltb id j then lookup j arr else none)
unfolding purge_loop lookup
lookup-purge_loop id j [] = ground arith
lookup-purge_loop id j ((k, v) ∷ arr) = ground (arith, lookup-purge_loop id j arr, ==_iff k j)

length-purge_loop {ℓ} :
    {A : Type ℓ} (id : ℕ) (arr : Dict ℕ A)
    → length (purge_loop id arr).0 + (purge_loop id arr).1 ≡ length arr
unfolding purge_loop
length-purge_loop id [] = omega arith
length-purge_loop id ((k, v) ∷ arr) = ground (arith, length-purge_loop id arr)

module _ {V : Type 0} (g : Gob V) where
  open g use {Bytes, kept}

  abbrev pub kept_map : Dict ℕ V → Dict ℕ V
  kept_map = map (λ (i, v). (i, kept v))

  abbrev pub kept_option : Option V → Option V
  kept_option none = none
  kept_option (some v) = some (kept v)

  lookup-kept_map : (i : ℕ) (m : Dict ℕ V) → lookup i (kept_map m) ≡ kept_option (lookup i m)
  unfolding lookup
  lookup-kept_map i [] = refl
  lookup-kept_map i ((j, v) ∷ m) = ground (arith, lookup-kept_map i m)

  -- What is written is what is read, as far as gob keeps it.
  get-set_log_info_map :
      (ds ds' : DataStore Bytes) (m : Dict ℕ V)
      → set_log_info_map g ds m ≡ some ds'
      → get_log_info_map g ds' ≡ some (kept_map m)
  unfolding get_log_info_map set_log_info_map
  get-set_log_info_map ds ds' m h =
      let (b, e, p) = >>=-eq-some (g.encode_map m) _ h in
      subst (λ s. get_log_info_map g s ≡ some (kept_map m)) (some-injective _ _ p)
        (simp (lookup-insert, ==_refl log_key) (g.decode_map-encode_map m b e))

  get_log_info-eq :
      (ds : DataStore Bytes) (m : Dict ℕ V) (j : ℕ)
      → get_log_info_map g ds ≡ some m
      → get_log_info g ds j ≡ some (lookup j m)
  unfolding get_log_info
  get_log_info-eq ds m j h = rw h

  set_log_info-eq :
      (ds : DataStore Bytes) (m : Dict ℕ V) (v : V)
      → get_log_info_map g ds ≡ some m
      → set_log_info g ds v none ≡ set_log_info_map g (touch ds) (insert (get_next_id m) v m)
  unfolding set_log_info
  set_log_info-eq ds m v h = rw h

  delete_log_info-eq :
      (ds : DataStore Bytes) (m : Dict ℕ V) (i : ℕ)
      → get_log_info_map g ds ≡ some m
      → delete_log_info g ds i ≡ set_log_info_map g (touch ds) (erase i m)
  unfolding delete_log_info
  delete_log_info-eq ds m i h = rw h

  purge-eq :
      (ds : DataStore Bytes) (m : Dict ℕ V) (id : ℕ)
      → get_log_info_map g ds ≡ some m
      → purge_log_info_before g ds id ≡ (
          set_log_info_map g (touch ds) (purge_loop id m).0 >>= λ ds'.
          some (ds', (purge_loop id m).1))
  unfolding purge_log_info_before
  purge-eq ds m id h = rw h

  length-kept_map : (m : Dict ℕ V) → length (kept_map m) ≡ length m
  length-kept_map [] = refl
  length-kept_map (x ∷ m) = ap suc (length-kept_map m)

  -- After `SetLogInfo` with no id on a log that can be read, some id that was free has what gob
  -- keeps of the event, and every other id has what gob keeps of what it had, if the ids in use
  -- are not negative and do not reach the highest one.
  pub get_log_info-set_log_info :
      (ds ds' : DataStore Bytes) (m : Dict ℕ V) (v : V) (j : ℕ)
      → get_log_info_map g ds ≡ some m
      → All IsSmall (keys m)
      → set_log_info g ds v none ≡ some ds'
      → (lookup (get_next_id m) m ≡ none)
        × (get_log_info g ds' j
            ≡ some (if get_next_id m == j then some (kept v) else kept_option (lookup j m)))
  get_log_info-set_log_info ds ds' m v j hm small h =
      let m' = insert (get_next_id m) v m in
      let got = get-set_log_info_map (touch ds) ds' m' (sym (set_log_info-eq ds m v hm) ∙ h) in
      (
        lookup-get_next_id m small,
        get_log_info-eq ds' (kept_map m') j got
            ∙ ap some (lookup-kept_map j m' ∙ ground (arith, lookup-insert j (get_next_id m) v m)),
      )

  -- After `DeleteLogInfo` of an id on a log that can be read, that id is not in the log, and every
  -- other one has what gob keeps of what it had.
  pub get_log_info-delete_log_info :
      (ds ds' : DataStore Bytes) (m : Dict ℕ V) (i j : ℕ)
      → get_log_info_map g ds ≡ some m
      → delete_log_info g ds i ≡ some ds'
      → get_log_info g ds' j ≡ some (if i == j then none else kept_option (lookup j m))
  get_log_info-delete_log_info ds ds' m i j hm h =
      let got =
        get-set_log_info_map (touch ds) ds' (erase i m) (sym (delete_log_info-eq ds m i hm) ∙ h) in
      get_log_info-eq ds' (kept_map (erase i m)) j got
      ∙ ap some (lookup-kept_map j (erase i m) ∙ ground (arith, lookup-erase j i m))

  -- After `PurgeLogInfoBefore` of an id on a log that can be read, the log has what gob keeps of
  -- the events above that id, the id itself excluded, and no others, and the number returned is
  -- that of the events purged.
  pub purge_log_info_before_lem :
      (ds ds' : DataStore Bytes) (m : Dict ℕ V) (id purged j : ℕ)
      → get_log_info_map g ds ≡ some m
      → purge_log_info_before g ds id ≡ some (ds', purged)
      → (m' : Dict ℕ V) × (get_log_info_map g ds' ≡ some m')
        × (length m' + purged ≡ length m)
        × (get_log_info g ds' j ≡ some (if int_ltb id j then kept_option (lookup j m) else none))
  purge_log_info_before_lem ds ds' m id purged j hm h =
      let (m0, count) = purge_loop id m in
      let (ds1, e, p) =
        >>=-eq-some (set_log_info_map g (touch ds) m0) _ (sym (purge-eq ds m id hm) ∙ h) in
      let q = some-injective _ _ p in
      let e' : set_log_info_map g (touch ds) m0 ≡ some ds' =
        e ∙ ap (λ (x : DataStore Bytes × ℕ). some x.0) q in
      let got = get-set_log_info_map (touch ds) ds' m0 e' in
      let counts : count ≡ purged = ap (λ (x : DataStore Bytes × ℕ). x.1) q in
      (
        kept_map m0,
        got,
        omega (arith, length-kept_map m0, length-purge_loop id m, counts),
        get_log_info-eq ds' (kept_map m0) j got
            ∙ ap some (lookup-kept_map j m0 ∙ ground (arith, lookup-purge_loop id j m)),
      )
