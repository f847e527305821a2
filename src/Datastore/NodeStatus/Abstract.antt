-- ===== src/Datastore/NodeStatus/Abstract.antt =====
-- The node statuses seen from outside: for each node the list of its statuses, in the order of
-- writing. `Refines` says which stores of datastore/datastore.go stand for such a view.
use goiardi.Base.{
  ℕ, ◌<◌, ◌≡◌, refl, true, Option, none, some, List, [], ◌∷◌, ◌++◌, arith, ◌==◌, ==_refl,
  Bool-cases, inl, inr, nat_eq, list_eq, if◌then◌else◌, map, contains, IsNodup, All, ◌>>=◌,
}
use goiardi.Base.Text.{Text}
use goiardi.Base.Dict.{Dict, lookup, insert, erase, keys, is_some, lookup-insert, lookup-erase}
use goiardi.Datastore.{Gob, DataStore, statuses, status_lists}
use goiardi.Datastore.NodeStatus.{ns_key, ns_list_key, ids_of, delete_ids}

-- What each node's statuses are.
abbrev pub View : Type 0 → Type 0
View V = Text → List V

abbrev pub update_view : {V : Type 0} → View V → Text → List V → View V
update_view view node vs m = if node == m then vs else view m

-- The ids in the lists are those of stored statuses, each in one list and once, and below `k`.
pub record IsLinked {B : Type 0} (k : ℕ) (ns : Dict ℕ B) (nslist : Dict Text (List ℕ))
    : Type 0 where
  pub stored :
      (n : Text) (i : ℕ) → contains (ids_of nslist n) i ≡ true → is_some (lookup i ns) ≡ true
  pub once : (n : Text) → IsNodup (ids_of nslist n)
  pub disjoint :
      (n m : Text) (i : ℕ)
      → contains (ids_of nslist n) i ≡ true
      → contains (ids_of nslist m) i ≡ true
      → n ≡ m
  pub below : All (λ i. i < k) (keys ns)

-- The decoded statuses with the given ids.
unfoldable pub statuses_at : {V : Type 0} (g : Gob V) → Dict ℕ g.Bytes → List ℕ → List (Option V)
statuses_at g ns [] = []
statuses_at g ns (i ∷ ids) = (lookup i ns >>= g.decode) ∷ statuses_at g ns ids

pub record Represents {V : Type 0} (g : Gob V) (k : ℕ) (ds : DataStore g.Bytes) (view : View V)
    (ns : Dict ℕ g.Bytes) (nslist : Dict Text (List ℕ)) : Type 0 where
  pub has_statuses : lookup ns_key ds.dsc ≡ some (statuses ns)
  pub has_lists : lookup ns_list_key ds.dsc ≡ some (status_lists nslist)
  pub linked : IsLinked k ns nslist
  pub shows : (n : Text) → statuses_at g ns (ids_of nslist n) ≡ map some (view n)

-- The store holds maps that show the view, and every id in use is below `k`.
abbrev pub Refines : {V : Type 0} (g : Gob V) → ℕ → DataStore g.Bytes → View V → Type 0
Refines g k ds view =
    (ns : Dict ℕ g.Bytes) × (nslist : Dict Text (List ℕ)) × Represents g k ds view ns nslist

pub ids_of-insert :
    (nslist : Dict Text (List ℕ)) (node m : Text) (ids : List ℕ)
    → ids_of (insert node ids nslist) m ≡ (if node == m then ids else ids_of nslist m)
unfolding ids_of
ids_of-insert nslist node m ids = ground (arith, lookup-insert m node ids nslist)

pub ids_of-erase :
    (nslist : Dict Text (List ℕ)) (node m : Text)
    → ids_of (erase node nslist) m ≡ (if node == m then [] else ids_of nslist m)
unfolding ids_of
ids_of-erase nslist node m = ground (arith, lookup-erase m node nslist)

pub lookup-delete_ids :
    {B : Type 0} (ids : List ℕ) (ns : Dict ℕ B) (i : ℕ)
    → lookup i (delete_ids ids ns) ≡ (if contains ids i then none else lookup i ns)
unfolding delete_ids
lookup-delete_ids [] ns i = refl
lookup-delete_ids (j ∷ ids) ns i =
    ground (arith, lookup-delete_ids ids (erase j ns) i, lookup-erase i j ns)

-- Writing or deleting ids outside a list leaves the statuses of the list.
pub statuses_at-agree :
    {V : Type 0} (g : Gob V) (ns ns' : Dict ℕ g.Bytes) (ids : List ℕ)
    → ((i : ℕ) → contains ids i ≡ true → lookup i ns' ≡ lookup i ns)
    → statuses_at g ns' ids ≡ statuses_at g ns ids
unfolding statuses_at
statuses_at-agree g ns ns' [] h = refl
statuses_at-agree g ns ns' (i ∷ ids) h =
    cc (h i (ground (arith, ==_refl i)), statuses_at-agree g ns ns' ids (λ j m. h j (ground arith)))

pub statuses_at-append :
    {V : Type 0} (g : Gob V) (ns : Dict ℕ g.Bytes) (ids ids' : List ℕ)
    → statuses_at g ns (ids ++ ids') ≡ statuses_at g ns ids ++ statuses_at g ns ids'
unfolding statuses_at
statuses_at-append g ns [] ids' = refl
statuses_at-append g ns (i ∷ ids) ids' = cc (statuses_at-append g ns ids ids')

pub keys-insert-All :
    {B : Type 0} (P : ℕ → Type 0) (i : ℕ) (b : B) (ns : Dict ℕ B)
    → P i
    → All P (keys ns)
    → All P (keys (insert i b ns))
unfolding insert
keys-insert-All P i b [] h hs = (h, tt)
keys-insert-All P i b ((j, c) ∷ ns) h hs = elim (Bool-cases (j == i)) [
  | inl e ↦ rw e hs
  | inr e ↦ rw e (hs.0, keys-insert-All P i b ns h hs.1)
]

pub keys-erase-All :
    {B : Type 0} (P : ℕ → Type 0) (i : ℕ) (ns : Dict ℕ B)
    → All P (keys ns)
    → All P (keys (erase i ns))
unfolding erase
keys-erase-All P i [] hs = tt
keys-erase-All P i ((j, c) ∷ ns) hs = elim (Bool-cases (j == i)) [
  | inl e ↦ rw e (keys-erase-All P i ns hs.1)
  | inr e ↦ rw e (hs.0, keys-erase-All P i ns hs.1)
]
