-- ===== src/Datastore/NodeStatus/Atomicity.antt =====
-- datastore/datastore.go: `ReplaceNodeStatuses` where every status can be encoded, and where one
-- cannot.
use goiardi.Base.{
  ℕ, ◌+◌, ◌<◌, ◌≡◌, refl, subst, ◌∙◌, none, List, [], ◌∷◌, ◌++◌, arith, ==_refl, nat_eq, list_eq,
  map, All, length,
}
use mathlib.Core.List.{append-nil}
use goiardi.Base.Int.{int_bound}
use goiardi.Base.Text.{Text}
use goiardi.Base.Dict.{Dict}
use goiardi.Datastore.{Gob, DataStore}
use goiardi.Datastore.NodeStatus.{
  returned, failed, encode_failed, put_maps, delete_node_status, put_back, put_back_some, or_made,
  replace_node_statuses,
}
use goiardi.Datastore.NodeStatus.Abstract.{View, update_view, Represents, Refines}
use goiardi.Datastore.NodeStatus.Laws.{put_maps_holds, or_made-rep, delete_node_status-Refines}
use goiardi.Datastore.NodeStatus.Replace.{Encodes, Represents-ext, put_back-append}

module _ {V : Type 0} (g : Gob V) where
  open g use {Bytes}

  put_maps-rep :
      (k : ℕ) (ds : DataStore Bytes) (view : View V) (ns : Dict ℕ Bytes)
      (nslist : Dict Text (List ℕ))
      → Represents g k ds view ns nslist
      → Represents g k (put_maps ds ns nslist) view ns nslist
  put_maps-rep k ds view ns nslist rep =
      let (h, h') = put_maps_holds ds ns nslist in
      record { has_statuses = h; has_lists = h'; linked = rep.linked; shows = rep.shows }

  -- what is left of the view once the node's statuses are deleted and others are written
  update_view-update :
      (view : View V) (node : Text) (vs : List V) (n : Text)
      → update_view (update_view view node []) node (update_view view node [] node ++ vs) n
        ≡ update_view view node vs n
  update_view-update view node vs n = ground (arith, ==_refl node)

  -- the deletion, and then the loop up to some point
  replaced :
      (k : ℕ) (ds : DataStore Bytes) (view : View V) (node : Text) (objs rest : List V)
      → 0 < k
      → k + length objs < int_bound
      → All (Encodes g) objs
      → Refines g k ds view
      → (ds1 : DataStore Bytes) × (ns' : Dict ℕ Bytes) × (nslist' : Dict Text (List ℕ))
        × (delete_node_status ds node ≡ returned tt ds1)
        × (or_made ds1 (put_back g ds1 node (objs ++ rest)) ≡ put_back g ds1 node rest ns' nslist')
        × Represents g
            (k + length objs)
            (put_maps ds1 ns' nslist')
            (update_view view node (map g.kept objs))
            ns'
            nslist'
  replaced k ds view node objs rest pos room good r =
      let (ds1, e1, (ns1, nslist1, rep1)) = delete_node_status-Refines g k ds view node r in
      let (ns', nslist', e, rep) =
        put_back-append g k ds1 (update_view view node []) node objs rest ns1 nslist1 pos room good
          (put_maps-rep k ds1 (update_view view node []) ns1 nslist1 rep1) in
      (
        ds1,
        ns',
        nslist',
        e1,
        or_made-rep g k ds1 (update_view view node []) ns1 nslist1 rep1 _ ∙ e,
        Represents-ext g ns' nslist' refl (update_view-update view node (map g.kept objs)) rep,
      )

  replace-eq :
      (ds ds1 : DataStore Bytes) (node : Text) (objs : List V)
      → delete_node_status ds node ≡ returned tt ds1
      → replace_node_statuses g ds node objs ≡ put_back_some g ds1 node objs
  unfolding replace_node_statuses delete_node_status
  replace-eq ds ds1 node objs e = ground arith

  put_back_some-append :
      (ds : DataStore Bytes) (node : Text) (objs rest : List V) (x : V)
      → put_back_some g ds node (objs ++ x ∷ rest)
        ≡ or_made ds (put_back g ds node (objs ++ x ∷ rest))
  unfolding put_back_some
  put_back_some-append ds node [] rest x = refl
  put_back_some-append ds node (o ∷ objs) rest x = refl

  put_back_stops :
      (ds : DataStore Bytes) (node : Text) (bad : V) (rest : List V) (ns : Dict ℕ Bytes)
      (nslist : Dict Text (List ℕ))
      → g.encode bad ≡ none
      → put_back g ds node (bad ∷ rest) ns nslist ≡ failed encode_failed (put_maps ds ns nslist)
  unfolding put_back
  put_back_stops ds node bad rest ns nslist h = ground arith

  -- On a store whose maps show a view from nodes to their statuses, `ReplaceNodeStatuses` of
  -- statuses that gob can all encode returns a store that shows what gob keeps of them in place of
  -- the node's statuses, and every other node as before, if the ids have not run out.
  pub replace_node_statuses-Refines :
      (k : ℕ) (ds : DataStore Bytes) (view : View V) (node : Text) (objs : List V)
      → 0 < k
      → k + length objs < int_bound
      → All (Encodes g) objs
      → Refines g k ds view
      → (ds' : DataStore Bytes) × (replace_node_statuses g ds node objs ≡ returned tt ds')
        × Refines g (k + length objs) ds' (update_view view node (map g.kept objs))
  unfolding put_back_some put_back
  replace_node_statuses-Refines k ds view node [] pos room good r =
      let (ds1, e1, (ns1, nslist1, rep)) = delete_node_status-Refines g k ds view node r in
      (
        ds1,
        replace-eq ds ds1 node [] e1,
        (ns1, nslist1, Represents-ext g ns1 nslist1 (omega arith) (λ n. refl) rep),
      )
  replace_node_statuses-Refines k ds view node (o ∷ objs) pos room good r =
      let (ds1, ns', nslist', e1, e, rep) = replaced k ds view node (o ∷ objs) [] pos room good r in
      (
        put_maps ds1 ns' nslist',
        replace-eq ds ds1 node (o ∷ objs) e1
            ∙ subst (λ l. or_made ds1 (put_back g ds1 node l) ≡ put_back g ds1 node [] ns' nslist')
                (append-nil (o ∷ objs)) e,
        (ns', nslist', rep),
      )

  -- On a store whose maps show a view from nodes to their statuses, `ReplaceNodeStatuses` of
  -- statuses of which gob cannot encode one returns an error, if the ids do not run out before. It
  -- has deleted the node's statuses and written only those before that one.
  pub replace_node_statuses_partial :
      (k : ℕ) (ds : DataStore Bytes) (view : View V) (node : Text) (objs rest : List V) (bad : V)
      → 0 < k
      → k + length objs < int_bound
      → All (Encodes g) objs
      → g.encode bad ≡ none
      → Refines g k ds view
      → (ds' : DataStore Bytes) × (replace_node_statuses g ds node (objs ++ bad ∷ rest)
          ≡ failed encode_failed ds')
        × Refines g (k + length objs) ds' (update_view view node (map g.kept objs))
  replace_node_statuses_partial k ds view node objs rest bad pos room good none_bad r =
      let (ds1, ns', nslist', e1, e, rep) =
        replaced k ds view node objs (bad ∷ rest) pos room good r in
      (
        put_maps ds1 ns' nslist',
        replace-eq ds ds1 node (objs ++ bad ∷ rest) e1
            ∙ put_back_some-append ds1 node objs rest bad
            ∙ e
            ∙ put_back_stops ds1 node bad rest ns' nslist' none_bad,
        (ns', nslist', rep),
      )
