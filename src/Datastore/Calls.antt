-- ===== src/Datastore/Calls.antt =====
-- datastore/datastore.go: each function on node statuses and log events leaves the objects and
-- their lists alone, also where it returns an error.
use goiardi.Base.{
  ℕ, ◌≡◌, refl, ap, Option, none, some, List, [], ◌∷◌, nat_eq, list_eq, >>=-eq-some, Option-cases,
  inl, inr, subst,
}
use mathlib.Core.Option.{some-injective}
use goiardi.Base.Text.{Text, codes}
use goiardi.Base.Dict.{Dict, lookup, insert}
use goiardi.Datastore.{Gob, DataStore, sealed, status_lists}
use goiardi.Base.Sort.{sort}
use goiardi.Datastore.NextId.{int_gtb}
use goiardi.Datastore.Frame.{
  Frame, Frame-trans, Frame-touch, Frame-put, Frame-put_maps, Leaves, Leaves-or_made,
  Leaves-or_fail,
}
use goiardi.Datastore.NodeStatus.{
  Outcome, panicked, failed, returned, StatusError, decode_failed, no_status_for_node, ns_list_key,
  touch, delete_statuses, delete_node_status, set_node_status, put_back, put_back_some,
  replace_node_statuses, read_status, read_first, latest_node_status,
}
use goiardi.Datastore.LogInfo.{
  set_log_info_map, get_log_info_map, set_log_info, delete_log_info, purge_loop,
  purge_log_info_before,
}

pub delete_statuses-Frame :
    {B : Type 0} (ds0 ds : DataStore B) (node : Text)
    → Frame ds0 ds
    → Leaves (Frame ds0) (delete_statuses ds node)
unfolding delete_statuses
delete_statuses-Frame ds0 ds node h =
    Leaves-or_fail (Frame ds0) ds _ h
      λ ns nslist. record { at = Frame-trans ds0 ds _ h (Frame-put_maps ds _ _) }

pub delete_node_status-Frame :
    {B : Type 0} (ds : DataStore B) (node : Text) → Leaves (Frame ds) (delete_node_status ds node)
unfolding delete_node_status
delete_node_status-Frame ds node = delete_statuses-Frame ds (touch ds) node (Frame-touch ds)

module _ {V : Type 0} (g : Gob V) (ds0 : DataStore g.Bytes) where
  open g use {Bytes, encode}

  abbrev pub Framed : {A : Type 0} → Outcome (DataStore Bytes) A → Type 0
  Framed = Leaves (Frame ds0)

  Framed-encode :
      {A : Type 0} (o : Option Bytes) (onfail : DataStore Bytes)
      (f : Bytes → Outcome (DataStore Bytes) A) (e : StatusError)
      → Frame ds0 onfail
      → ((b : Bytes) → Framed (f b))
      → Framed (elim o [ none ↦ failed e onfail | some b ↦ f b ])
  Framed-encode none onfail f e h k = record { at = h }
  Framed-encode (some b) onfail f e h k = k b

  pub set_node_status-Frame :
      (ds : DataStore Bytes) (node : Text) (v : V) (id : Option ℕ)
      → Frame ds0 ds
      → Framed (set_node_status g ds node v id)
  unfolding set_node_status
  set_node_status-Frame ds node v id h =
      let t = Frame-trans ds0 ds (touch ds) h (Frame-touch ds) in
      Leaves-or_made (Frame ds0) (touch ds) _ λ ns nslist.
        Framed-encode (encode v) (touch ds) _ _ t
          (λ b. record { at = Frame-trans ds0 (touch ds) _ t (Frame-put_maps (touch ds) _ _) })

  pub put_back-Frame :
      (ds : DataStore Bytes) (node : Text) (objs : List V) (ns : Dict ℕ Bytes)
      (nslist : Dict Text (List ℕ))
      → Frame ds0 ds
      → Framed (put_back g ds node objs ns nslist)
  unfolding put_back
  put_back-Frame ds node [] ns nslist h = record {
    at = Frame-trans ds0 ds _ h (Frame-put_maps ds ns nslist);
  }
  put_back-Frame ds node (o ∷ objs) ns nslist h =
      Framed-encode (encode o) _ _ _ (Frame-trans ds0 ds _ h (Frame-put_maps ds ns nslist))
        (λ b. put_back-Frame ds node objs _ _ h)

  pub put_back_some-Frame :
      (ds : DataStore Bytes) (node : Text) (objs : List V)
      → Frame ds0 ds
      → Framed (put_back_some g ds node objs)
  unfolding put_back_some
  put_back_some-Frame ds node [] h = record { at = h }
  put_back_some-Frame ds node (o ∷ objs) h =
      Leaves-or_made (Frame ds0) ds _ (λ ns nslist. put_back-Frame ds node (o ∷ objs) ns nslist h)

  Framed-then :
      {A C : Type 0} (o : Outcome (DataStore Bytes) A)
      (f : DataStore Bytes → Outcome (DataStore Bytes) C)
      → Framed o
      → ((ds : DataStore Bytes) → Frame ds0 ds → Framed (f ds))
      → Framed
          (elim o [ panicked ↦ panicked | failed e ds' ↦ failed e ds' | returned _ ds' ↦ f ds' ])
  Framed-then panicked f h k = record { at = tt }
  Framed-then (failed e ds) f h k = record { at = h.at }
  Framed-then (returned a ds) f h k = k ds h.at

  pub replace_node_statuses-Frame :
      (ds : DataStore Bytes) (node : Text) (objs : List V)
      → Frame ds0 ds
      → Framed (replace_node_statuses g ds node objs)
  unfolding replace_node_statuses
  replace_node_statuses-Frame ds node objs h =
      Framed-then (delete_statuses (touch ds) node) _
        (delete_statuses-Frame ds0 (touch ds) node
          (Frame-trans ds0 ds (touch ds) h (Frame-touch ds)))
        (λ ds' h'. put_back_some-Frame ds' node objs h')

  pub read_status-Frame :
      {A : Type 0} (ds : DataStore Bytes) (ns : Dict ℕ Bytes) (i : ℕ)
      (f : V → Outcome (DataStore Bytes) A)
      → Frame ds0 ds
      → ((v : V) → Framed (f v))
      → Framed (read_status g ds ns i f)
  unfolding read_status
  read_status-Frame ds ns i f h k = elim (Option-cases (lookup i ns)) [
    | inl e ↦ rw (e, read_status) (record { at = tt })
    | inr (b, e) ↦ rw (e, read_status) (decoded (g.decode b))
  ]
    where
      decoded : (o : Option V) → Framed (elim o [ none ↦ failed decode_failed ds | some n ↦ f n ])
      decoded none = record { at = h }
      decoded (some n) = k n

  pub read_first-Frame :
      (ds : DataStore Bytes) (ns : Dict ℕ Bytes) (ids : List ℕ)
      → Frame ds0 ds
      → Framed (read_first g ds ns ids)
  unfolding read_first
  read_first-Frame ds ns [] h = record { at = tt }
  read_first-Frame ds ns (i ∷ ids) h = read_status-Frame ds ns i _ h (λ v. record { at = h })

  pub latest_node_status-Frame :
      (ds : DataStore Bytes) (node : Text) → Frame ds0 ds → Framed (latest_node_status g ds node)
  unfolding latest_node_status list_eq
  latest_node_status-Frame ds node h =
      Leaves-or_fail (Frame ds0) ds _ h λ ns nslist. latest_of ns nslist (lookup node nslist)
    where
      resorted : (nslist : Dict Text (List ℕ)) (ids : List ℕ) → DataStore Bytes
      resorted nslist ids = record ds {
        dsc = insert ns_list_key (status_lists (insert node (sort int_gtb ids) nslist)) ds.dsc;
      }

      latest_of :
          (ns : Dict ℕ Bytes) (nslist : Dict Text (List ℕ)) (o : Option (List ℕ))
          → Framed (elim o [
            | none ↦ failed no_status_for_node ds
            | some nsarr ↦ read_first g (resorted nslist nsarr) ns (sort int_gtb nsarr)
          ])
      latest_of ns nslist none = record { at = h }
      latest_of ns nslist (some ids) = read_first-Frame _ ns _ (
          Frame-trans ds0 ds _ h
            (Frame-put ds (codes "nodestatuslist") (codes "nodestatuslists") _ refl refl))

  pub set_log_info_map-Frame :
      (ds : DataStore Bytes) {ds' : DataStore Bytes} (m : Dict ℕ V)
      → Frame ds0 ds
      → set_log_info_map g ds m ≡ some ds'
      → Frame ds0 ds'
  unfolding set_log_info_map list_eq
  set_log_info_map-Frame ds m h e =
      let (b, _, p) = >>=-eq-some (g.encode_map m) _ e in
      subst (Frame ds0) (some-injective _ _ p) (
        Frame-trans ds0 ds _ h
          (Frame-put ds (codes "loginfo") (codes "loginfos") (sealed b) refl refl))

  touched : {ds : DataStore Bytes} → Frame ds0 ds → Frame ds0 (touch ds)
  touched {ds} h = Frame-trans ds0 ds (touch ds) h (Frame-touch ds)

  pub set_log_info-Frame :
      (ds : DataStore Bytes) {ds' : DataStore Bytes} (v : V) (id : Option ℕ)
      → Frame ds0 ds
      → set_log_info g ds v id ≡ some ds'
      → Frame ds0 ds'
  unfolding set_log_info
  set_log_info-Frame ds v id h e =
      let (m, _, p) = >>=-eq-some (get_log_info_map g (touch ds)) _ e in
      set_log_info_map-Frame (touch ds) _ (touched h) p

  pub delete_log_info-Frame :
      (ds : DataStore Bytes) {ds' : DataStore Bytes} (id : ℕ)
      → Frame ds0 ds
      → delete_log_info g ds id ≡ some ds'
      → Frame ds0 ds'
  unfolding delete_log_info
  delete_log_info-Frame ds id h e =
      let (m, _, p) = >>=-eq-some (get_log_info_map g (touch ds)) _ e in
      set_log_info_map-Frame (touch ds) _ (touched h) p

  pub purge_log_info_before-Frame :
      (ds : DataStore Bytes) {ds' : DataStore Bytes} (id n : ℕ)
      → Frame ds0 ds
      → purge_log_info_before g ds id ≡ some (ds', n)
      → Frame ds0 ds'
  unfolding purge_log_info_before
  purge_log_info_before-Frame ds id n h e =
      let (m, _, p) = >>=-eq-some (get_log_info_map g (touch ds)) _ e in
      let (ds1, q, r) = >>=-eq-some (set_log_info_map g (touch ds) (purge_loop id m).0) _ p in
      subst (Frame ds0) (ap (λ (x : DataStore Bytes × ℕ). x.0) (some-injective _ _ r))
        (set_log_info_map-Frame (touch ds) _ (touched h) q)
