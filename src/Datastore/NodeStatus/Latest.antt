-- ===== src/Datastore/NodeStatus/Latest.antt =====
-- datastore/datastore.go: `LatestNodeStatus`, which sorts the slice of ids that the cache holds.
use mathlib.Core.List.{reverse, reverse-append, map-append}
use goiardi.Base.{
  ℕ, ◌≡◌, ◌≢◌, refl, ap, sym, ◌∙◌, Option, none, some, List, [], ◌∷◌, ◌++◌, arith, ◌==◌, ==_iff,
  nat_eq, list_eq, map, contains, IsNodup, Bool-cases, Option-cases, inl, inr, ◌>>=◌,
}
use goiardi.Base.Text.{Text}
use goiardi.Base.Sort.{sort, sort-reverse, IsReversed, contains-sort, sort-IsNodup}
use goiardi.Base.Dict.{Dict, lookup, insert, dict_laws}
use goiardi.Datastore.{Gob, DataStore, make_key, status_lists}
use goiardi.Datastore.NextId.{int_gtb}
use goiardi.Datastore.NodeStatus.{returned, ns_list_key, ids_of, read_first, latest_node_status}
use goiardi.Datastore.NodeStatus.Abstract.{
  View, update_view, IsLinked, statuses_at, Represents, Refines, ids_of-insert, statuses_at-append,
}
use goiardi.Datastore.NodeStatus.Laws.{or_fail-rep}

map-reverse : {A B : Type 0} (f : A → B) (xs : List A) → reverse (map f xs) ≡ map f (reverse xs)
map-reverse f [] = refl
map-reverse f (x ∷ xs) =
    reverse-append (f x ∷ []) (map f xs)
    ∙ ap (λ l. l ++ f x ∷ []) (map-reverse f xs)
    ∙ sym (map-append f (reverse xs) (x ∷ []))
    ∙ ap (map f) (sym (reverse-append (x ∷ []) xs))

ids_of-missing :
    (nslist : Dict Text (List ℕ)) (node : Text)
    → lookup node nslist ≡ none
    → ids_of nslist node ≡ []
unfolding ids_of
ids_of-missing nslist node e = ground arith

nil-ne-map :
    {V : Type 0} (vs : List V) (v : V) → ◌≢◌ {A = List (Option V)} [] (map some (vs ++ v ∷ []))
nil-ne-map [] v e = ground arith
nil-ne-map (w ∷ vs) v e = ground arith

module _ {V : Type 0} (g : Gob V) where
  open g use {Bytes}

  statuses_at-reverse :
      (ns : Dict ℕ Bytes) (ids : List ℕ)
      → statuses_at g ns (reverse ids) ≡ reverse (statuses_at g ns ids)
  unfolding statuses_at
  statuses_at-reverse ns [] = refl
  statuses_at-reverse ns (i ∷ ids) =
      ap (statuses_at g ns) (reverse-append (i ∷ []) ids)
      ∙ statuses_at-append g ns (reverse ids) (i ∷ [])
      ∙ ap (λ l. l ++ (lookup i ns >>= g.decode) ∷ []) (statuses_at-reverse ns ids)
      ∙ sym (reverse-append ((lookup i ns >>= g.decode) ∷ []) (statuses_at g ns ids))

  module _ (k : ℕ) (ds : DataStore Bytes) (view : View V) (ns : Dict ℕ Bytes)
      (nslist : Dict Text (List ℕ)) (rep : Represents g k ds view ns nslist) (node : Text) where
    open rep use {has_statuses, has_lists, linked, shows}

    abbrev sorted_ids : List ℕ
    sorted_ids = sort int_gtb (ids_of nslist node)

    -- the store behind the call
    abbrev resorted : DataStore Bytes
    resorted = record ds {
      dsc = insert ns_list_key (status_lists (insert node sorted_ids nslist)) ds.dsc;
    }

    mem_resorted :
        (n : Text) (i : ℕ)
        → contains (ids_of (insert node sorted_ids nslist) n) i ≡ contains (ids_of nslist n) i
    mem_resorted n i = ground (
      arith,
      ids_of-insert nslist node n sorted_ids,
      ==_iff node n,
      contains-sort int_gtb (ids_of nslist node) i,
    )

    once_resorted : (n : Text) → IsNodup (ids_of (insert node sorted_ids nslist) n)
    once_resorted n = elim (Bool-cases (node == n)) [
      | inl e ↦
          rw (ids_of-insert nslist node n sorted_ids, e)
            (sort-IsNodup int_gtb (ids_of nslist node) (linked.once node))
      | inr e ↦ rw (ids_of-insert nslist node n sorted_ids, e) (linked.once n)
    ]

    IsLinked-resorted : IsLinked k ns (insert node sorted_ids nslist)
    IsLinked-resorted = record {
      stored = λ n i h. linked.stored n i (sym (mem_resorted n i) ∙ h);
      once = once_resorted;
      disjoint = λ n m i h h'.
          linked.disjoint n m i (sym (mem_resorted n i) ∙ h) (sym (mem_resorted m i) ∙ h');
      below = linked.below;
    }

    resorted_shows :
        IsReversed int_gtb (ids_of nslist node)
        → (n : Text)
        → statuses_at g ns (ids_of (insert node sorted_ids nslist) n)
          ≡ map some (update_view view node (reverse (view node)) n)
    resorted_shows up n = elim (Bool-cases (node == n)) [
      | inl e ↦
          rw (ids_of-insert nslist node n sorted_ids, e)
            (ap (statuses_at g ns) (sort-reverse int_gtb (ids_of nslist node) up)
              ∙ statuses_at-reverse ns (ids_of nslist node)
              ∙ ap reverse (shows node)
              ∙ map-reverse some (view node))
      | inr e ↦ rw (ids_of-insert nslist node n sorted_ids, e) (shows n)
    ]

    resorted-rep :
        IsReversed int_gtb (ids_of nslist node)
        → Represents g k resorted
            (update_view view node (reverse (view node)))
            ns
            (insert node sorted_ids nslist)
    unfolding make_key list_eq
    resorted-rep up = record {
      has_statuses = simp dict_laws has_statuses;
      has_lists = simp dict_laws;
      linked = IsLinked-resorted;
      shows = resorted_shows up;
    }

    read_first-eq :
        (ds' : DataStore Bytes) (ids : List ℕ) (v : V) (rest : List (Option V))
        → statuses_at g ns ids ≡ some v ∷ rest
        → read_first g ds' ns ids ≡ returned v ds'
    unfolding read_first statuses_at
    read_first-eq ds' [] v rest e = ground arith
    read_first-eq ds' (i ∷ ids) v rest e = ground arith

    latest-eq :
        (vs : List V) (v : V)
        → view node ≡ vs ++ v ∷ []
        → IsReversed int_gtb (ids_of nslist node)
        → latest_node_status g ds node ≡ read_first g resorted ns sorted_ids
    unfolding latest_node_status ids_of statuses_at
    latest-eq vs v e up = elim (Option-cases (lookup node nslist)) [
      | inl missing ↦ absurd (
          nil-ne-map vs v (
            ap (statuses_at g ns) (sym (ids_of-missing nslist node missing))
            ∙ shows node
            ∙ ap (map some) e))
      | inr (ids, found) ↦ or_fail-rep g k ds view ns nslist rep _ ∙ ground arith
    ]

    latest-rep :
        (vs : List V) (v : V)
        → view node ≡ vs ++ v ∷ []
        → IsReversed int_gtb (ids_of nslist node)
        → latest_node_status g ds node ≡ returned v resorted
    latest-rep vs v e up =
        latest-eq vs v e up
        ∙ read_first-eq resorted sorted_ids v (map some (reverse vs)) (
            ap (statuses_at g ns) (sort-reverse int_gtb (ids_of nslist node) up)
            ∙ statuses_at-reverse ns (ids_of nslist node)
            ∙ ap reverse (shows node ∙ ap (map some) e)
            ∙ map-reverse some (vs ++ v ∷ [])
            ∙ ap (map some) (reverse-append vs (v ∷ [])))

  -- On a store whose maps show a view from nodes to their statuses, `LatestNodeStatus` of a node
  -- with a status, whose ids stand in ascending order, returns its last one. It also turns the
  -- node's list round: the store that it leaves shows the node's statuses latest first, and every
  -- other node as before.
  pub latest_node_status_lem :
      (k : ℕ) (ds : DataStore Bytes) (view : View V) (ns : Dict ℕ Bytes)
      (nslist : Dict Text (List ℕ)) (node : Text) (vs : List V) (v : V)
      → Represents g k ds view ns nslist
      → IsReversed int_gtb (ids_of nslist node)
      → view node ≡ vs ++ v ∷ []
      → (ds' : DataStore Bytes) × (latest_node_status g ds node ≡ returned v ds')
        × Refines g k ds' (update_view view node (reverse (view node)))
  latest_node_status_lem k ds view ns nslist node vs v rep up e = (
    resorted k ds view ns nslist rep node,
    latest-rep k ds view ns nslist rep node vs v e up,
    (
      ns,
      insert node (sort int_gtb (ids_of nslist node)) nslist,
      resorted-rep k ds view ns nslist rep node up,
    ),
  )
