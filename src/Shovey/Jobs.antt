-- ===== src/Shovey/Jobs.antt =====
-- shovey/shovey.go: starting a job, with its quorum. Signing the request and sending it to the
-- nodes over serf is a parameter.
pub mod Runs
pub mod Start
pub mod Cancelled
pub mod Cancel
pub mod Complete
pub mod Races
use goiardi.Base.{
  ℕ, Bool, true, false, not, ◌&&◌, Option, none, some, List, [], ◌∷◌, ◌++◌, if◌then◌else◌, nat_beq,
  length, contains, list_eq, nat_eq, ◌>>=◌,
}
use goiardi.Base.Text.{Text, codes}
use goiardi.Base.Int.{int_ltb}
use goiardi.Base.Decimal.{is_digit, format_int}
use goiardi.Datastore.{Gob, DataStore}
use goiardi.Datastore.NilArrays.{Reflect}
use goiardi.Objects.{Shovey, ShoveyRun, Node, Object, Gerror}
use goiardi.Node.{get_nodes_by_status}
use goiardi.Shovey.{Qerror, new_querror, set_status, save, save_run}

-- `float64` with what `getQuorum` does with it. `parse_error` is the message of `ParseFloat`.
pub record Float : Type 1 where
  pub F : Type 0
  pub parse : Text → Option F
  pub parse_error : Text → Text
  pub of_int : ℕ → F
  pub quo : F → F → F
  pub mul : F → F → F
  pub ceil : F → F
  pub gtb : F → F → Bool
  pub to_int : F → ℕ
  pub format : F → Text

-- What may follow the digits in front: a full stop, and one digit behind it.
unfoldable pub is_fraction : Text → Bool
is_fraction [] = true
is_fraction (p ∷ []) = nat_beq p b'.'
is_fraction (p ∷ d ∷ []) = nat_beq p b'.' && is_digit d
is_fraction (p ∷ d ∷ s) = false

-- Behind the first digit.
unfoldable pub is_number : Text → Bool
unfolding is_fraction
is_number [] = true
is_number (c ∷ s) = let rest = is_number s in if is_digit c then rest else is_fraction (c ∷ s)

unfoldable pub is_percentage : Text → Bool
unfolding is_number
is_percentage [] = false
is_percentage (c ∷ s) = is_digit c && is_number s

-- The text in front of a last percent sign.
unfoldable pub cut_percent : Text → Option Text
cut_percent [] = none
cut_percent (c ∷ []) = if nat_beq c b'%' then some [] else none
cut_percent (c ∷ d ∷ s) = do front ← cut_percent (d ∷ s); some (c ∷ front)

-- The group of the regular expression `^(\d+\.?\d?)%$`.
unfoldable pub match_percentage : Text → Option Text
unfolding cut_percent is_percentage
match_percentage quorum = do z ← cut_percent quorum; if is_percentage z then some z else none

pub data Quorum : Type 0 where
  nodes_needed : ℕ → Quorum
  no_quorum : Qerror → Quorum

-- `getQuorum`.
unfoldable pub get_quorum : Float → Text → ℕ → Quorum
unfolding match_percentage new_querror set_status
get_quorum f quorum num_nodes =
    if nat_beq num_nodes 0
    then no_quorum (
        set_status (new_querror (codes "There's no nodes to make a quorum"))
          (codes "quorum_failed"))
    else elim (match_percentage quorum) [
      | some z ↦ elim (f.parse z) [
        | none ↦ no_quorum (new_querror (f.parse_error z))
        | some q ↦
            nodes_needed (f.to_int (f.ceil (f.mul (f.quo q (f.of_int 100)) (f.of_int num_nodes))))
      ]
      | none ↦ elim (f.parse quorum) [
        | none ↦ no_quorum (new_querror (f.parse_error quorum))
        | some qnum ↦
            if f.gtb qnum (f.of_int num_nodes)
            then no_quorum (
                set_status
                  (new_querror (
                    f.format qnum
                    ++ (codes " nodes were required for the quorum, but only "
                        ++ (format_int num_nodes ++ codes " matched the criteria given"))))
                  (codes "quorum_failed"))
            else nodes_needed (f.to_int qnum)
      ]
    ]

-- The run of a node that is up, and of one that is not.
unfoldable pub created_run : Text → Text → ShoveyRun
created_run run_id node_name = record {
  shovey_uuid = run_id;
  node_name = node_name;
  status = codes "created";
  ack_time = none;
  end_time = none;
  error = [];
  exit_status = 0;
}

unfoldable pub down_run : ℕ → Text → Text → ShoveyRun
unfolding created_run
down_run now run_id node_name = record (created_run run_id node_name) {
  status = codes "down";
  end_time = some now;
}

unfoldable pub names_of : List Node → List Text
names_of [] = []
names_of (n ∷ nodes) = n.name ∷ names_of nodes

module _ ⦃r : Reflect Object⦄ (g : Gob Object) where
  open g use {Bytes}

  -- The loop over the nodes that are up.
  unfoldable pub create_runs : DataStore Bytes → Text → List Text → Option (DataStore Bytes)
  unfolding created_run save_run
  create_runs ds run_id [] = some ds
  create_runs ds run_id (n ∷ up_nodes) = do
    ds' ← save_run g ds (created_run run_id n)
    create_runs ds' run_id up_nodes

  -- The loop over all nodes, for those that are not among `d`.
  unfoldable pub down_runs :
      DataStore Bytes → ℕ → Text → List Text → List Text → Option (DataStore Bytes)
  unfolding down_run save_run
  down_runs ds now run_id d [] = some ds
  down_runs ds now run_id d (n ∷ node_names) = do
    ds' ← if not (contains d n) then save_run g ds (down_run now run_id n) else some ds
    down_runs ds' now run_id d node_names

  -- `startJobs` up to the answer of the goroutine that it starts; `asked` is the error of signing
  -- the request or of sending it.
  unfoldable pub start_jobs :
      Float → DataStore Bytes → ℕ → Option Text → Shovey → Option (DataStore Bytes × Option Qerror)
  start_jobs f ds now asked s = elim (get_quorum f s.quorum (length s.node_names)) [
    | no_quorum e ↦ some (ds, some e)
    | nodes_needed qnum ↦ do
      (ds', up_nodes) ← get_nodes_by_status g ds s.node_names (codes "up")
      if int_ltb (length up_nodes) qnum
          then some (
            ds',
            some (
                set_status
                  (new_querror (
                    codes "Not enough nodes were up to execute job "
                    ++ (s.run_id
                        ++ (codes " - got "
                            ++ (format_int (length up_nodes)
                                ++ (codes ", needed at least " ++ format_int qnum))))))
                  (codes "quorum_failed")),
          )
          else (do
            created ← create_runs ds' s.run_id (names_of up_nodes)
            all_runs ← down_runs created now s.run_id (names_of up_nodes) s.node_names
            some (all_runs, asked >>= (λ e. some (new_querror e))))
  ]

  -- `Start`: the store, the job and the error, which has the status 400.
  unfoldable pub start :
      Float
      → DataStore Bytes
      → ℕ
      → Option Text
      → Shovey
      → Option (DataStore Bytes × Shovey × Option Text)
  start f ds now asked s = do
    (ds', failure) ← start_jobs f ds now asked s
    elim failure [
      | some e ↦ do
        (ds'', s') ← save g ds' now (record s { status = e.status })
        some (ds'', s', some e.message)
      | none ↦ do
        (ds'', s') ← save g ds' now (record s { status = codes "running" })
        some (ds'', s', none)
    ]
