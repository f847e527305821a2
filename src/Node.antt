-- ===== src/Node.antt =====
-- node/node.go and node/status.go: nodes in the in-memory mode, and their statuses on top of those
-- that the data store keeps. Saving a node and its JSON are left out.
use goiardi.Base.{
  ℕ, ◌+◌, Bool, true, Option, none, some, List, [], ◌∷◌, ◌++◌, ◌==◌, nat_eq, list_eq, if◌then◌else◌,
  ltb, length, drop, get_elem?, ◌>>=◌,
}
use goiardi.Base.Text.{Text, codes}
use goiardi.Base.Sort.{sort}
use goiardi.Datastore.{Gob, DataStore}
use goiardi.Datastore
use goiardi.Datastore.NilArrays.{Reflect}
use goiardi.Datastore.NodeStatus.{
  Outcome, panicked, failed, returned, StatusError, latest_node_status, all_node_statuses,
  replace_node_statuses, delete_node_status,
}
use goiardi.Objects.{Node, NodeStatus, Object, a_node, a_node_status, Result, ok, err}
use goiardi.Sandbox

-- `ByTime.Less`.
unfoldable pub by_time_less : NodeStatus → NodeStatus → Bool
by_time_less a b = ltb a.updated_at b.updated_at

-- The values as statuses; `none` is a panic of a type assertion.
unfoldable pub as_node_statuses : List Object → Option (List NodeStatus)
as_node_statuses [] = some []
as_node_statuses (a_node_status s ∷ arr) = do rest ← as_node_statuses arr; some (s ∷ rest)
as_node_statuses (_ ∷ arr) = none

-- Whether the status at an index is younger than the cut-off.
unfoldable pub is_younger : ℕ → List NodeStatus → ℕ → Bool
is_younger cutoff statuses i = elim (get_elem? statuses i) [
  | none ↦ true
  | some s ↦ ltb cutoff s.updated_at
]

-- How many of the sorted statuses are too old.
unfoldable pub old_count : ℕ → List NodeStatus → ℕ
unfolding is_younger Sandbox.search
old_count cutoff statuses =
    if is_younger cutoff statuses 0
    then 0
    else Sandbox.search (length statuses) (is_younger cutoff statuses)

module _ ⦃r : Reflect Object⦄ (g : Gob Object) where
  open g use {Bytes}

  unfoldable pub found_node : Text → Option Object → Option (Result Node)
  found_node name none =
      some
        (err (record { message = codes "node '" ++ (name ++ codes "' not found"); status = 404 }))
  found_node name (some (a_node n)) = some (ok n)
  found_node name (some _) = none

  -- `Get`; the outer `none` is a panic of the type assertion, or the end of the process.
  unfoldable pub get : DataStore Bytes → Text → Option (Result Node)
  unfolding found_node
  get ds node_name = Datastore.get g ds (codes "node") node_name >>= found_node node_name

  -- `GetMulti`, and the first loop of `GetNodesByStatus`.
  unfoldable pub get_multi : DataStore Bytes → List Text → Option (List Node)
  unfolding get
  get_multi ds [] = some []
  get_multi ds (n ∷ node_names) = do
    found ← get ds n
    rest ← get_multi ds node_names
    some (elim found [ err e ↦ rest | ok node ↦ node ∷ rest ])

  -- `GetList`.
  unfoldable pub get_list : DataStore Bytes → Option (List Text)
  get_list ds = Datastore.get_list ds (codes "node")

  -- `AllNodes`.
  unfoldable pub all_nodes : DataStore Bytes → Option (List Node)
  unfolding get_list get_multi
  all_nodes ds = do node_list ← get_list ds; get_multi ds node_list

  unfoldable pub in_env : Text → List Node → List Node
  in_env env_name [] = []
  in_env env_name (n ∷ nodes) =
      let rest = in_env env_name nodes in if n.chef_environment == env_name then n ∷ rest else rest

  -- `GetFromEnv`.
  unfoldable pub get_from_env : DataStore Bytes → Text → Option (List Node)
  unfolding all_nodes in_env
  get_from_env ds env_name = do nodes ← all_nodes ds; some (in_env env_name nodes)

  -- `Count`.
  unfoldable pub count : DataStore Bytes → Option ℕ
  unfolding get_list
  count ds = do nl ← get_list ds; some (length nl)

  abbrev pub latest_of :
      Outcome (DataStore Bytes) Object → Option (DataStore Bytes × Option NodeStatus)
  latest_of panicked = none
  latest_of (failed e ds) = some (ds, none)
  latest_of (returned (a_node_status s) ds) = some (ds, some s)
  latest_of (returned _ ds) = none

  -- `LatestStatus`, with an error as `none`. Reading it sorts the ids of the node in the store.
  unfoldable pub latest_status :
      DataStore Bytes → Text → Option (DataStore Bytes × Option NodeStatus)
  unfolding latest_node_status
  latest_status ds name = latest_of (latest_node_status g ds name)

  -- The loop of `GetNodesByStatus` over the nodes.
  unfoldable pub with_status :
      DataStore Bytes → List Node → Text → Option (DataStore Bytes × List Node)
  unfolding latest_status
  with_status ds [] status = some (ds, [])
  with_status ds (n ∷ nodes) status = do
    (ds', ns) ← latest_status ds n.name
    (ds'', rest) ← with_status ds' nodes status
    some (ds'', elim ns [ none ↦ rest | some s ↦ if s.status == status then n ∷ rest else rest ])

  -- `GetNodesByStatus`.
  unfoldable pub get_nodes_by_status :
      DataStore Bytes → List Text → Text → Option (DataStore Bytes × List Node)
  unfolding get_multi with_status
  get_nodes_by_status ds node_names status = do
    nodes ← get_multi ds node_names
    with_status ds nodes status

  -- The loop of `UnseenNodes`, with `t` the time before which a status is too old.
  unfoldable pub unseen : DataStore Bytes → ℕ → List Node → Option (DataStore Bytes × List Node)
  unfolding latest_status
  unseen ds t [] = some (ds, [])
  unseen ds t (n ∷ nodes) = do
    (ds', ns) ← latest_status ds n.name
    (ds'', rest) ← unseen ds' t nodes
    some (
      ds'',
      elim ns [
        | none ↦ rest
        | some s ↦ if n.is_down then rest else if ltb s.updated_at t then n ∷ rest else rest
      ],
    )

  -- `UnseenNodes`.
  unfoldable pub unseen_nodes : DataStore Bytes → ℕ → Option (DataStore Bytes × List Node)
  unfolding all_nodes unseen
  unseen_nodes ds t = do nodes ← all_nodes ds; unseen ds t nodes

  -- `AllStatuses`; an error is that of the store.
  unfoldable pub all_statuses : DataStore Bytes → Text → Outcome (DataStore Bytes) (List NodeStatus)
  unfolding all_node_statuses as_node_statuses
  all_statuses ds name = elim (all_node_statuses g ds name) [
    | panicked ↦ panicked
    | failed e ds' ↦ failed e ds'
    | returned arr ds' ↦ elim (as_node_statuses arr) [ none ↦ panicked | some ns ↦ returned ns ds' ]
  ]

  -- `deleteStatuses`.
  unfoldable pub delete_statuses : DataStore Bytes → Text → Outcome (DataStore Bytes) Unit
  unfolding delete_node_status
  delete_statuses ds name = delete_node_status ds name

  -- What is put back of the statuses of a node, and how many are dropped; `none` is to leave them.
  unfoldable pub young : ℕ → List NodeStatus → Option (List NodeStatus × ℕ)
  unfolding old_count by_time_less is_younger
  young cutoff [] = none
  young cutoff (s ∷ statuses) =
      let sorted = sort by_time_less (s ∷ statuses) in
      if is_younger cutoff sorted 0
      then none
      else some (drop (old_count cutoff sorted) sorted, old_count cutoff sorted)

  abbrev pub wrapped : List NodeStatus → List Object
  wrapped [] = []
  wrapped (s ∷ statuses) = a_node_status s ∷ wrapped statuses

  -- What one node does in `DeleteNodeStatusesByAge`: the store, an error that ends it, and the
  -- number of statuses deleted. `nsErrChk` asserts an interface that every error has.
  unfoldable pub age_node :
      DataStore Bytes → ℕ → Text → Option (DataStore Bytes × Option StatusError × ℕ)
  unfolding all_statuses young replace_node_statuses
  age_node ds cutoff name = elim (all_statuses ds name) [
    | panicked ↦ none
    | failed e ds' ↦ some (ds', some e, 0)
    | returned statuses ds' ↦ elim (young cutoff statuses) [
      | none ↦ some (ds', none, 0)
      | some (kept, old) ↦ elim (replace_node_statuses g ds' name (wrapped kept)) [
        | panicked ↦ none
        | failed e ds'' ↦ some (ds'', some e, old)
        | returned _ ds'' ↦ some (ds'', none, old)
      ]
    ]
  ]

  -- The loop of `DeleteNodeStatusesByAge`; the cut-off is read anew for each node.
  unfoldable pub age_nodes :
      DataStore Bytes
      → (Text → ℕ)
      → List Node
      → ℕ
      → Option (DataStore Bytes × Option StatusError × ℕ)
  unfolding age_node
  age_nodes ds cutoff [] j = some (ds, none, j)
  age_nodes ds cutoff (n ∷ nodes) j = do
    (ds', e, old) ← age_node ds (cutoff n.name) n.name
    let rest = age_nodes ds' cutoff nodes (j + old)
    elim e [ some e' ↦ some (ds', some e', 0) | none ↦ rest ]

  -- `DeleteNodeStatusesByAge`.
  unfoldable pub delete_node_statuses_by_age :
      DataStore Bytes → (Text → ℕ) → Option (DataStore Bytes × Option StatusError × ℕ)
  unfolding all_nodes age_nodes
  delete_node_statuses_by_age ds cutoff = do nodes ← all_nodes ds; age_nodes ds cutoff nodes 0
