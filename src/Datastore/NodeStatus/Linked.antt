-- ===== src/Datastore/NodeStatus/Linked.antt =====
-- The links between the two maps of the node statuses hold after every write and deletion.
use goiardi.Base.{
  ℕ, suc, ◌<◌, ◌≡◌, refl, true, false, none, List, [], ◌∷◌, ◌++◌, ◌||◌, ◌&&◌, arith, ◌==◌, ==_iff,
  nat_eq, list_eq, contains, IsNodup, All, All-map, contains-append, Bool-cases, inl, inr,
}
use goiardi.Base.Text.{Text}
use goiardi.Base.Dict.{Dict, lookup, insert, erase, keys, is_some, lookup-insert}
use goiardi.Datastore.NodeStatus.{ids_of, delete_ids}
use goiardi.Datastore.NodeStatus.Abstract.{
  IsLinked, ids_of-insert, ids_of-erase, lookup-delete_ids, keys-insert-All, keys-erase-All,
}

IsNodup-concat :
    (ids : List ℕ) (i : ℕ) → IsNodup ids → contains ids i ≡ false → IsNodup (ids ++ i ∷ [])
IsNodup-concat [] i h m = (refl, tt)
IsNodup-concat (j ∷ ids) i h m =
    ground (arith, IsNodup-concat ids i h.1, contains-append ids (i ∷ []) j, ==_iff j i, ==_iff i j)

module _ {B : Type 0} (k : ℕ) (ns : Dict ℕ B) (nslist : Dict Text (List ℕ))
    (link : IsLinked k ns nslist) where
  open link use {stored, once, disjoint, below}

  module _ (node : Text) (i : ℕ) (b : B) (fresh : lookup i ns ≡ none) where
    -- a fresh id is in no list
    pub fresh_unlisted : (n : Text) → contains (ids_of nslist n) i ≡ false
    fresh_unlisted n = ground (arith, stored n i)

    abbrev ids' : List ℕ
    ids' = ids_of nslist node ++ i ∷ []

    mem_set :
        (n : Text) (j : ℕ)
        → contains (ids_of (insert node ids' nslist) n) j
          ≡ (((node == n) && (i == j)) || contains (ids_of nslist n) j)
    mem_set n j = ground (
      arith,
      ids_of-insert nslist node n ids',
      contains-append (ids_of nslist node) (i ∷ []) j,
      ==_iff node n,
    )

    set-stored :
        (n : Text) (j : ℕ)
        → contains (ids_of (insert node ids' nslist) n) j ≡ true
        → is_some (lookup j (insert i b ns)) ≡ true
    set-stored n j h = ground (arith, mem_set n j, lookup-insert j i b ns, stored n j)

    set-disjoint :
        (n m : Text) (j : ℕ)
        → contains (ids_of (insert node ids' nslist) n) j ≡ true
        → contains (ids_of (insert node ids' nslist) m) j ≡ true
        → n ≡ m
    set-disjoint n m j h h' = ground (
      arith,
      mem_set n j,
      mem_set m j,
      disjoint n m j,
      fresh_unlisted n,
      fresh_unlisted m,
      ==_iff node n,
      ==_iff node m,
    )

    set-once : (n : Text) → IsNodup (ids_of (insert node ids' nslist) n)
    set-once n = elim (Bool-cases (node == n)) [
      | inl e ↦
          rw (ids_of-insert nslist node n ids', e)
            (IsNodup-concat (ids_of nslist node) i (once node) (fresh_unlisted node))
      | inr e ↦ rw (ids_of-insert nslist node n ids', e) (once n)
    ]

    pub set-IsLinked : i < suc k → IsLinked (suc k) (insert i b ns) (insert node ids' nslist)
    set-IsLinked lt = record {
      stored = set-stored;
      once = set-once;
      disjoint = set-disjoint;
      below =
          keys-insert-All (λ j. j < suc k) i b ns lt (All-map (λ j p. omega arith) (keys ns) below);
    }

  module _ (node : Text) where
    delete-keys-All :
        (P : ℕ → Type 0) (ids : List ℕ) (ns' : Dict ℕ B)
        → All P (keys ns')
        → All P (keys (delete_ids ids ns'))
    unfolding delete_ids
    delete-keys-All P [] ns' h = h
    delete-keys-All P (i ∷ ids) ns' h =
        delete-keys-All P ids (erase i ns') (keys-erase-All P i ns' h)

    -- the statuses of another node are not deleted
    pub lookup-delete_others :
        (n : Text) (i : ℕ)
        → contains (ids_of (erase node nslist) n) i ≡ true
        → lookup i (delete_ids (ids_of nslist node) ns) ≡ lookup i ns
    lookup-delete_others n i h = ground (
      arith,
      ids_of-erase nslist node n,
      lookup-delete_ids (ids_of nslist node) ns i,
      disjoint n node i,
      ==_iff node n,
    )

    delete-once : (n : Text) → IsNodup (ids_of (erase node nslist) n)
    delete-once n = elim (Bool-cases (node == n)) [
      | inl e ↦ rw (ids_of-erase nslist node n, e) tt
      | inr e ↦ rw (ids_of-erase nslist node n, e) (once n)
    ]

    pub delete-IsLinked : IsLinked k (delete_ids (ids_of nslist node) ns) (erase node nslist)
    delete-IsLinked = record {
      stored = λ n i h.
          ground (arith, lookup-delete_others n i h, ids_of-erase nslist node n, stored n i);
      once = delete-once;
      disjoint = λ n m i h h'.
          ground (arith, ids_of-erase nslist node n, ids_of-erase nslist node m, disjoint n m i);
      below = delete-keys-All (λ j. j < k) (ids_of nslist node) ns below;
    }
