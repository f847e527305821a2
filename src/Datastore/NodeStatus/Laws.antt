-- ===== src/Datastore/NodeStatus/Laws.antt =====
-- The functions on node statuses of datastore/datastore.go against the view of `Abstract`.
use mathlib.Core.List.{append-nil, append_assoc, map-append}
use mathlib.Core.Path.{ap₂}
use goiardi.Base.{
  ℕ, suc, ◌+◌, ◌<◌, ◌≡◌, sym, ◌∙◌, none, some, List, [], ◌∷◌, ◌++◌, arith, ◌==◌, ==_iff, ==_refl,
  nat_eq, list_eq, map, Bool-cases, inl, inr,
}
use goiardi.Base.Int.{int_bound}
use goiardi.Base.Text.{Text}
use goiardi.Base.Dict.{Dict, lookup, insert, erase, keys, lookup-insert, dict_laws}
use goiardi.Datastore.{make_key, Gob, DataStore, statuses, status_lists}
use goiardi.Datastore.NextId.{get_next_id, get_next_id-le, lookup-get_next_id, below_IsSmall}
use goiardi.Datastore.NodeStatus.{
  Outcome, returned, ns_key, ns_list_key, ids_of, delete_ids, put_maps, touch, or_made, or_fail,
  set_node_status, delete_node_status, all_node_statuses, read_statuses,
}
use goiardi.Datastore.NodeStatus.Abstract.{
  View, update_view, statuses_at, Represents, Refines, ids_of-insert, ids_of-erase,
  statuses_at-agree, statuses_at-append,
}
use goiardi.Datastore.NodeStatus.Linked.{
  fresh_unlisted, set-IsLinked, lookup-delete_others, delete-IsLinked,
}

pub put_maps_holds :
    {B : Type 0} (ds : DataStore B) (ns : Dict ℕ B) (nslist : Dict Text (List ℕ))
    → (lookup ns_key (put_maps ds ns nslist).dsc ≡ some (statuses ns))
      × (lookup ns_list_key (put_maps ds ns nslist).dsc ≡ some (status_lists nslist))
unfolding put_maps make_key list_eq
put_maps_holds ds ns nslist = (simp dict_laws, simp dict_laws)

module _ {V : Type 0} (g : Gob V) where
  open g use {Bytes}

  module _ (k : ℕ) (ds : DataStore Bytes) (view : View V) (ns : Dict ℕ Bytes)
      (nslist : Dict Text (List ℕ)) (rep : Represents g k ds view ns nslist) where
    open rep use {has_statuses, has_lists, linked, shows}

    pub or_made-rep :
        {A : Type 0} (f : Dict ℕ Bytes → Dict Text (List ℕ) → Outcome (DataStore Bytes) A)
        → or_made ds f ≡ f ns nslist
    unfolding or_made
    or_made-rep f = simp (has_statuses, has_lists)

    pub or_fail-rep :
        {A : Type 0} (f : Dict ℕ Bytes → Dict Text (List ℕ) → Outcome (DataStore Bytes) A)
        → or_fail ds f ≡ f ns nslist
    unfolding or_fail
    or_fail-rep f = simp (has_statuses, has_lists)

    pub touch-rep : Represents g k (touch ds) view ns nslist
    touch-rep = record {
      has_statuses = has_statuses;
      has_lists = has_lists;
      linked = linked;
      shows = shows;
    }

    read_statuses-eq :
        (ids : List ℕ) (arr vs : List V)
        → statuses_at g ns ids ≡ map some vs
        → read_statuses g ds ns ids arr ≡ returned (arr ++ vs) ds
    unfolding read_statuses statuses_at
    read_statuses-eq [] arr [] e = rw append-nil
    read_statuses-eq [] arr (v ∷ vs) e = ground arith
    read_statuses-eq (i ∷ ids) arr [] e = ground arith
    read_statuses-eq (i ∷ ids) arr (v ∷ vs) e =
        ground (arith, read_statuses-eq ids (arr ++ v ∷ []) vs, append_assoc arr (v ∷ []) vs)

    pub erased_shows :
        (node n : Text)
        → statuses_at g ns (ids_of (erase node nslist) n) ≡ map some (update_view view node [] n)
    unfolding statuses_at
    erased_shows node n = elim (Bool-cases (node == n)) [
      | inl e ↦ rw (ids_of-erase nslist node n, e)
      | inr e ↦ rw (ids_of-erase nslist node n, e) (shows n)
    ]

    all-rep : (n : Text) → all_node_statuses g ds n ≡ returned (view n) ds
    unfolding all_node_statuses
    all-rep n = or_fail-rep _ ∙ read_statuses-eq (ids_of nslist n) [] (view n) (shows n)

    -- the maps after one status is written under the next id
    module _ (room : k + 1 < int_bound) (pos : 0 < k) (node : Text) (v : V) (b : Bytes)
        (enc : g.encode v ≡ some b) where
      abbrev pub next_id : ℕ
      next_id = get_next_id ns

      abbrev pub next_ids : List ℕ
      next_ids = ids_of nslist node ++ next_id ∷ []

      fresh : lookup next_id ns ≡ none
      fresh = lookup-get_next_id ns (below_IsSmall k (keys ns) (omega arith) linked.below)

      others :
          (n : Text) → statuses_at g (insert next_id b ns) (ids_of nslist n) ≡ map some (view n)
      others n =
          statuses_at-agree g ns (insert next_id b ns) (ids_of nslist n) (λ i m. ground (
            arith,
            lookup-insert i next_id b ns,
            ==_iff next_id i,
            fresh_unlisted k ns nslist linked node next_id b fresh n,
          ))
          ∙ shows n

      newest : statuses_at g (insert next_id b ns) (next_id ∷ []) ≡ some (g.kept v) ∷ []
      unfolding statuses_at
      newest =
          ground
            (arith, lookup-insert next_id next_id b ns, ==_refl next_id, g.decode-encode v b enc)

      written_shows :
          (n : Text)
          → statuses_at g (insert next_id b ns) (ids_of (insert node next_ids nslist) n)
            ≡ map some (update_view view node (view node ++ g.kept v ∷ []) n)
      written_shows n = elim (Bool-cases (node == n)) [
        | inl e ↦
            rw (ids_of-insert nslist node n next_ids, e)
              (statuses_at-append g (insert next_id b ns) (ids_of nslist node) (next_id ∷ [])
                ∙ ap₂ ◌++◌ (others node) newest
                ∙ sym (map-append some (view node) (g.kept v ∷ [])))
        | inr e ↦ rw (ids_of-insert nslist node n next_ids, e) (others n)
      ]

      pub written :
          (ds' : DataStore Bytes)
          → lookup ns_key ds'.dsc ≡ some (statuses (insert next_id b ns))
          → lookup ns_list_key ds'.dsc ≡ some (status_lists (insert node next_ids nslist))
          → Represents g
              (suc k)
              ds'
              (update_view view node (view node ++ g.kept v ∷ []))
              (insert next_id b ns)
              (insert node next_ids nslist)
      written ds' h h' = record {
        has_statuses = h;
        has_lists = h';
        linked =
            set-IsLinked k ns nslist linked node next_id b fresh
              (omega (arith, get_next_id-le ns k pos (omega arith) linked.below));
        shows = written_shows;
      }

    deleted :
        (node : Text) (ds' : DataStore Bytes)
        → lookup ns_key ds'.dsc ≡ some (statuses (delete_ids (ids_of nslist node) ns))
        → lookup ns_list_key ds'.dsc ≡ some (status_lists (erase node nslist))
        → Represents g k ds'
            (update_view view node [])
            (delete_ids (ids_of nslist node) ns)
            (erase node nslist)
    deleted node ds' h h' = record {
      has_statuses = h;
      has_lists = h';
      linked = delete-IsLinked k ns nslist linked node;
      shows = λ n.
          statuses_at-agree g ns _ (ids_of (erase node nslist) n)
            (lookup-delete_others k ns nslist linked node n)
          ∙ erased_shows node n;
    }

  -- On a store whose maps show a view from nodes to their statuses, `AllNodeStatuses` returns the
  -- statuses of the node in the order of the view, and changes nothing.
  pub all_node_statuses_lem :
      (k : ℕ) (ds : DataStore Bytes) (view : View V) (n : Text)
      → Refines g k ds view
      → all_node_statuses g ds n ≡ returned (view n) ds
  all_node_statuses_lem k ds view n (ns, nslist, rep) = all-rep k ds view ns nslist rep n

  -- On a store whose maps show a view from nodes to their statuses, `SetNodeStatus` of a status
  -- that gob can encode returns a store that shows what gob keeps of it behind the other statuses
  -- of the node, and every other node as before, if the ids have not run out.
  pub set_node_status-Refines :
      (k : ℕ) (ds : DataStore Bytes) (view : View V) (node : Text) (v : V) (b : Bytes)
      → 0 < k
      → k + 1 < int_bound
      → g.encode v ≡ some b
      → Refines g k ds view
      → (ds' : DataStore Bytes) × (set_node_status g ds node v none ≡ returned tt ds')
        × Refines g (suc k) ds' (update_view view node (view node ++ g.kept v ∷ []))
  unfolding set_node_status
  set_node_status-Refines k ds view node v b pos room enc (ns, nslist, rep) =
      let next_id : ℕ = get_next_id ns in
      let ns' = insert next_id b ns in
      let nslist' = insert node (ids_of nslist node ++ next_id ∷ []) nslist in
      let ds' = put_maps (touch ds) ns' nslist' in
      let (h, h') = put_maps_holds (touch ds) ns' nslist' in
      (
        ds',
        or_made-rep k (touch ds) view ns nslist (touch-rep k ds view ns nslist rep) _ ∙ rw enc,
        (ns', nslist', written k ds view ns nslist rep room pos node v b enc ds' h h'),
      )

  -- On a store whose maps show a view from nodes to their statuses, `DeleteNodeStatus` returns a
  -- store that shows no status of the node, and every other node as before.
  pub delete_node_status-Refines :
      (k : ℕ) (ds : DataStore Bytes) (view : View V) (node : Text)
      → Refines g k ds view
      → (ds' : DataStore Bytes) × (delete_node_status ds node ≡ returned tt ds')
        × Refines g k ds' (update_view view node [])
  unfolding delete_node_status
  delete_node_status-Refines k ds view node (ns, nslist, rep) =
      let ns' = delete_ids (ids_of nslist node) ns in
      let nslist' = erase node nslist in
      let (h, h') = put_maps_holds (touch ds) ns' nslist' in
      (
        put_maps (touch ds) ns' nslist',
        or_fail-rep k (touch ds) view ns nslist (touch-rep k ds view ns nslist rep) _,
        (ns', nslist', deleted k ds view ns nslist rep node _ h h'),
      )
