-- ===== src/Datastore/NodeStatus/Replace.antt =====
-- datastore/datastore.go: the first status of a store, and `ReplaceNodeStatuses`.
use goiardi.Base.{
  ℕ, suc, ◌+◌, ◌<◌, ◌≡◌, refl, subst, ap, ◌∙◌, none, some, List, [], ◌∷◌, ◌++◌, arith, ==_iff,
  ==_refl, nat_eq, list_eq, map, All, length,
}
use mathlib.Core.List.{append_assoc, append-nil}
use goiardi.Base.Int.{int_bound}
use goiardi.Base.Text.{Text}
use goiardi.Base.Dict.{Dict, lookup, insert}
use goiardi.Datastore.{Gob, DataStore}
use goiardi.Datastore.NextId.{get_next_id}
use goiardi.Datastore.NodeStatus.{
  returned, failed, no_statuses, ns_key, ns_list_key, ids_of, put_maps, touch, or_made,
  set_node_status, delete_node_status, put_back,
}
use goiardi.Datastore.NodeStatus.Abstract.{View, update_view, statuses_at, Represents, Refines}
use goiardi.Datastore.NodeStatus.Laws.{put_maps_holds, written}

-- No status was ever written.
pub record IsBlank {B : Type 0} (ds : DataStore B) : Type 0 where
  pub no_ns : lookup ns_key ds.dsc ≡ none
  pub no_list : lookup ns_list_key ds.dsc ≡ none

abbrev pub Encodes : {V : Type 0} (g : Gob V) → V → Type 0
Encodes g v = (b : g.Bytes) × (g.encode v ≡ some b)

module _ {V : Type 0} (g : Gob V) where
  open g use {Bytes}

  pub Represents-ext :
      {k k' : ℕ} {ds : DataStore Bytes} {view view' : View V} (ns : Dict ℕ Bytes)
      (nslist : Dict Text (List ℕ))
      → k ≡ k'
      → ((n : Text) → view n ≡ view' n)
      → Represents g k ds view ns nslist
      → Represents g k' ds view' ns nslist
  Represents-ext {ds = ds} {view = view} ns nslist e h rep =
      let rep' = subst (λ j. Represents g j ds view ns nslist) e rep in
      record {
        has_statuses = rep'.has_statuses;
        has_lists = rep'.has_lists;
        linked = rep'.linked;
        shows = λ n. rep'.shows n ∙ ap (map some) (h n);
      }

  empty-rep : (ds : DataStore Bytes) → Represents g 1 (put_maps ds [] []) (λ n. []) [] []
  unfolding statuses_at ids_of lookup
  empty-rep ds =
      let (h, h') = put_maps_holds ds [] [] in
      record {
        has_statuses = h;
        has_lists = h';
        linked = record {
          stored = λ n i m. ground arith;
          once = λ n. tt;
          disjoint = λ n m i h h'. ground arith;
          below = tt;
        };
        shows = λ n. refl;
      }

  -- `SetNodeStatus` of a status that gob can encode, on a store where no status was ever written,
  -- returns a store that shows what gob keeps of it as the one status of the node, and none of any
  -- other node.
  pub set_node_status-first :
      (ds : DataStore Bytes) (node : Text) (v : V) (b : Bytes)
      → g.encode v ≡ some b
      → IsBlank ds
      → (ds' : DataStore Bytes) × (set_node_status g ds node v none ≡ returned tt ds')
        × Refines g 2 ds' (update_view (λ n. []) node (g.kept v ∷ []))
  unfolding set_node_status or_made
  set_node_status-first ds node v b enc blank =
      let next_id : ℕ = get_next_id {A = Bytes} [] in
      let ns' = insert next_id b [] in
      let nslist' = insert node (ids_of [] node ++ next_id ∷ []) [] in
      let ds' = put_maps (touch ds) ns' nslist' in
      let (h, h') = put_maps_holds (touch ds) ns' nslist' in
      (
        ds',
        simp (blank.no_ns, blank.no_list, enc),
        (
          ns',
          nslist',
          written g 1 (put_maps ds [] []) (λ n. []) [] [] (empty-rep ds) (omega arith) (omega arith)
              node v b enc ds' h h',
        ),
      )

  pub delete_node_status-blank :
      (ds : DataStore Bytes) (node : Text)
      → IsBlank ds
      → delete_node_status ds node ≡ failed no_statuses (touch ds)
  unfolding delete_node_status
  delete_node_status-blank ds node blank = simp blank.no_ns

  -- the loop of `ReplaceNodeStatuses` over objects that gob can encode
  pub put_back-append :
      (k : ℕ) (ds : DataStore Bytes) (view : View V) (node : Text) (objs rest : List V)
      (ns : Dict ℕ Bytes) (nslist : Dict Text (List ℕ))
      → 0 < k
      → k + length objs < int_bound
      → All (Encodes g) objs
      → Represents g k (put_maps ds ns nslist) view ns nslist
      → (ns' : Dict ℕ Bytes) × (nslist' : Dict Text (List ℕ)) × (put_back g ds node
            (objs ++ rest)
            ns
            nslist
          ≡ put_back g ds node rest ns' nslist')
        × Represents g
            (k + length objs)
            (put_maps ds ns' nslist')
            (update_view view node (view node ++ map g.kept objs))
            ns'
            nslist'
  unfolding put_back
  put_back-append k ds view node [] rest ns nslist pos room good rep = (
    ns,
    nslist,
    refl,
    Represents-ext ns nslist (omega arith)
        (λ n. ground (arith, append-nil (view node), ==_iff node n, ap view {x = node} {y = n}))
        rep,
  )
  put_back-append k ds view node (o ∷ objs) rest ns nslist pos room ((b, enc), good) rep =
      let next_id : ℕ = get_next_id ns in
      let ns1 = insert next_id b ns in
      let nslist1 = insert node (ids_of nslist node ++ next_id ∷ []) nslist in
      let view1 : View V = update_view view node (view node ++ g.kept o ∷ []) in
      let (h, h') = put_maps_holds ds ns1 nslist1 in
      let rep1 =
        written g k (put_maps ds ns nslist) view ns nslist rep (omega arith) pos node o b enc
          (put_maps ds ns1 nslist1) h h' in
      let (ns', nslist', e, rep') =
        put_back-append (suc k) ds view1 node objs rest ns1 nslist1 (omega arith) (omega arith) good
          rep1 in
      (
        ns',
        nslist',
        rw enc e,
        Represents-ext ns' nslist' (omega arith)
            (λ n.
              ground
                (arith, ==_refl node, append_assoc (view node) (g.kept o ∷ []) (map g.kept objs)))
            rep',
      )
