-- ===== src/Shovey.antt =====
-- shovey/shovey.go: jobs that nodes run, and the run of each node, in the in-memory mode. A job is
-- started and cancelled by requests; the nodes report their runs by other requests, and goroutines
-- note what they acknowledge and look whether the job is complete.
pub mod Jobs
pub mod Stream
use goiardi.Base.{
  ℕ, suc, zero, ◌-◌, ◌+◌, ◌%◌, ◌^◌, Bool, true, false, not, ◌||◌, ◌&&◌, Option, none, some, List,
  [], ◌∷◌, ◌++◌, ◌==◌, nat_eq, list_eq, if◌then◌else◌, ltb, nat_beq, length, contains, ◌>>=◌,
}
use goiardi.Base.Text.{Text, codes, text_ltb}
use goiardi.Base.Sort.{sort}
use goiardi.Base.Int.{int_ltb}
use goiardi.Datastore.{Gob, DataStore}
use goiardi.Datastore
use goiardi.Datastore.NilArrays.{Reflect, Value, number, string, Members}
use goiardi.Objects.{
  Shovey, ShoveyRun, Object, a_shovey, a_shovey_run, Result, ok, err, errorf, Gerror,
}
use goiardi.Util.Members.{get_member}

-- A `Qerror`; the names of nodes that it could hold are never set.
pub record Qerror : Type 0 where
  pub message : Text
  pub status : Text

-- `newQuerror`, behind `Errorf` and `CastErr`.
unfoldable pub new_querror : Text → Qerror
new_querror message = record { message = message; status = codes "job_failed" }

-- `SetStatus`.
unfoldable pub set_status : Qerror → Text → Qerror
set_status e s = record e { status = s }

-- The statuses of a run that `checkCompleted` counts.
unfoldable pub is_complete : Text → Bool
is_complete status =
    status == codes "invalid"
    || (status == codes "succeeded"
        || (status == codes "failed"
            || (status == codes "down"
                || (status == codes "nacked" || status == codes "cancelled"))))

-- The statuses of a run that `CancelRuns` leaves alone.
unfoldable pub is_over : Text → Bool
is_over status =
    status == codes "invalid"
    || (status == codes "succeeded"
        || (status == codes "failed" || (status == codes "down" || status == codes "nacked")))

-- The statuses with which `UpdateFromJSON` sets the time of the end.
unfoldable pub is_end : Text → Bool
is_end status =
    status == codes "invalid"
    || (status == codes "succeeded" || (status == codes "failed" || status == codes "nacked"))

unfoldable pub count_complete : List ShoveyRun → ℕ
unfolding is_complete
count_complete [] = 0
count_complete (sr ∷ srs) = let c = count_complete srs in if is_complete sr.status then suc c else c

-- `intify`, of a number as its bit pattern.
unfoldable pub intify : Value → Option ℕ
intify (number n) = some n
intify _ = none

unfoldable pub put_run_status : ℕ → ShoveyRun → Value → ShoveyRun
unfolding is_end
put_run_status now sr (string status) =
    if is_end status
    then record sr { end_time = some now; status = status }
    else record sr { status = status }
put_run_status now sr _ = sr

unfoldable pub put_run_error : ShoveyRun → Value → ShoveyRun
put_run_error sr (string error) = record sr { error = error }
put_run_error sr _ = sr

unfoldable pub put_exit_status : ShoveyRun → Value → ShoveyRun
unfolding intify
put_exit_status sr v = elim (intify v) [
  | none ↦ sr
  | some n ↦ record sr { exit_status = n % 2 ^ 8 }
]

-- What `UpdateFromJSON` makes of a run before it saves it.
unfoldable pub updated_run : ℕ → ShoveyRun → Members → ShoveyRun
unfolding put_run_status put_run_error put_exit_status get_member
updated_run now sr sr_data =
    put_exit_status
      (put_run_error (put_run_status now sr (get_member (codes "status") sr_data))
        (get_member (codes "error") sr_data))
      (get_member (codes "exit_status") sr_data)

module _ ⦃r : Reflect Object⦄ (g : Gob Object) where
  open g use {Bytes}

  -- `save` of a job.
  unfoldable pub save : DataStore Bytes → ℕ → Shovey → Option (DataStore Bytes × Shovey)
  save ds now s = do
    let s' = record s { updated_at = now }
    ds' ← Datastore.set g ds (codes "shovey") s'.run_id (a_shovey s')
    some (ds', s')

  -- `save` of a run.
  unfoldable pub save_run : DataStore Bytes → ShoveyRun → Option (DataStore Bytes)
  save_run ds sr =
      Datastore.set g ds (codes "shovey_run") (sr.shovey_uuid ++ sr.node_name) (a_shovey_run sr)

  unfoldable pub found_job : Text → Option Object → Option (Result Shovey)
  found_job run_id none = some (
      err
        (record { message = codes "shovey job " ++ (run_id ++ codes " not found"); status = 404 }))
  found_job run_id (some (a_shovey s)) = some (ok s)
  found_job run_id (some _) = none

  -- `Get`; the outer `none` is a panic of the type assertion, or the end of the process.
  unfoldable pub get : DataStore Bytes → Text → Option (Result Shovey)
  unfolding found_job
  get ds run_id = Datastore.get g ds (codes "shovey") run_id >>= found_job run_id

  abbrev pub is_there : Option Object → Bool
  is_there none = false
  is_there (some o) = true

  -- `DoesExist`.
  unfoldable pub does_exist : DataStore Bytes → Text → Option Bool
  does_exist ds run_id = do s ← Datastore.get g ds (codes "shovey") run_id; some (is_there s)

  -- `New`, with the id drawn; it saves the job.
  unfoldable pub make :
      DataStore Bytes
      → ℕ
      → Text
      → Text
      → ℕ
      → Text
      → List Text
      → Option (DataStore Bytes × Result Shovey)
  unfolding does_exist save
  make ds now run_id command timeout quorum_str node_names = do
    found ← does_exist ds run_id
    if found
        then some (
          ds,
          err (record {
            message = codes "a shovey run with this run id already exists";
            status = 409;
          }),
        )
        else (do
          (ds', s) ← save ds now (record {
            run_id = run_id;
            node_names = node_names;
            command = command;
            created_at = now;
            updated_at = now;
            status = codes "submitted";
            timeout = timeout;
            quorum = quorum_str;
          })
          some (ds', ok s))

  unfoldable pub found_run : Text → Text → Option Object → Option (Result ShoveyRun)
  found_run run_id node_name none = some (
      err (record {
        message =
            codes "run " ++ (run_id ++ (codes " for node " ++ (node_name ++ codes " not found")));
        status = 404;
      }))
  found_run run_id node_name (some (a_shovey_run sr)) = some (ok sr)
  found_run run_id node_name (some _) = none

  -- `GetRun`.
  unfoldable pub get_run : DataStore Bytes → Text → Text → Option (Result ShoveyRun)
  unfolding found_run
  get_run ds run_id node_name =
      Datastore.get g ds (codes "shovey_run") (run_id ++ node_name) >>= found_run run_id node_name

  -- `GetNodeRuns`, with the nodes of the job: a run that is not there is left out.
  unfoldable pub get_node_runs :
      DataStore Bytes → Text → List Text → Option (Result (List ShoveyRun))
  unfolding get_run
  get_node_runs ds run_id [] = some (ok [])
  get_node_runs ds run_id (n ∷ node_names) = do
    sr ← get_run ds run_id n
    let rest = get_node_runs ds run_id node_names
    elim sr [
      | err e ↦ if not (nat_beq e.status 404) then some (err e) else rest
      | ok run ↦ rest >>= (λ runs. some (elim runs [ err e ↦ err e | ok rs ↦ ok (run ∷ rs) ]))
    ]

  -- `checkCompleted`.
  unfoldable pub check_completed : DataStore Bytes → ℕ → Shovey → Option (DataStore Bytes × Shovey)
  unfolding get_node_runs count_complete save
  check_completed ds now s = do
    srs ← get_node_runs ds s.run_id s.node_names
    let saved = save ds now (record s { status = codes "complete" })
    elim srs [
      | err e ↦ some (ds, s)
      | ok runs ↦
          if nat_beq (count_complete runs) (length s.node_names) then saved else some (ds, s)
    ]

  -- One run of the loop of `CancelRuns`.
  unfoldable pub cancel_run : DataStore Bytes → ℕ → ShoveyRun → Option (DataStore Bytes)
  unfolding is_over save_run
  cancel_run ds now sr =
      if not (is_over sr.status)
      then save_run ds (record sr { end_time = some now; status = codes "cancelled" })
      else some ds

  -- That loop: the store, and the error for the first node without a run.
  unfoldable pub cancel_loop :
      DataStore Bytes → ℕ → Text → List Text → Option (DataStore Bytes × Option Gerror)
  unfolding get_run cancel_run
  cancel_loop ds now run_id [] = some (ds, none)
  cancel_loop ds now run_id (n ∷ node_names) = do
    sr ← get_run ds run_id n
    elim sr [
      | err e ↦ some (ds, some e)
      | ok run ↦ do ds' ← cancel_run ds now run; cancel_loop ds' now run_id node_names
    ]

  -- What `CancelRuns` makes of the job itself. Where the nodes are as many as those of the job, both
  -- slices are sorted in place.
  unfoldable pub cancel_job :
      DataStore Bytes → ℕ → Shovey → List Text → Option (DataStore Bytes × Shovey)
  cancel_job ds now s node_names =
      let sorted = record s { node_names = sort text_ltb s.node_names } in
      if nat_beq (length node_names) (length s.node_names)
      then (if sort text_ltb node_names == sort text_ltb s.node_names
          then save ds now (record sorted { status = codes "cancelled" })
          else some (ds, sorted))
      else check_completed ds now s

  -- `CancelRuns`; `asked` is the error of signing the request or of sending it to the nodes.
  unfoldable pub cancel_runs :
      DataStore Bytes
      → ℕ
      → Option Gerror
      → Shovey
      → List Text
      → Option (DataStore Bytes × Shovey × Option Gerror)
  cancel_runs ds now asked s node_names = do
    (ds', failure) ← cancel_loop ds now s.run_id node_names
    elim failure [
      | some e ↦ some (ds', s, some e)
      | none ↦ do (ds'', s') ← cancel_job ds' now s node_names; some (ds'', s', asked)
    ]

  -- `Cancel`.
  unfoldable pub cancel :
      DataStore Bytes
      → ℕ
      → Option Gerror
      → Shovey
      → Option (DataStore Bytes × Shovey × Option Gerror)
  cancel ds now asked s = do
    (ds', s', failure) ← cancel_runs ds now asked s s.node_names
    elim failure [
      | some e ↦ some (ds', s', some e)
      | none ↦ do
        (ds'', s'') ← save ds' now (record s' { status = codes "cancelled" })
        some (ds'', s'', none)
    ]

  -- `UpdateFromJSON` of a run; the goroutine that it starts is `notify_parent`.
  unfoldable pub update_from_json :
      DataStore Bytes → ℕ → ShoveyRun → Members → Option (DataStore Bytes × ShoveyRun)
  unfolding updated_run save_run
  update_from_json ds now sr sr_data = do
    let sr' = updated_run now sr sr_data
    ds' ← save_run ds sr'
    some (ds', sr')

  -- `notifyParent`; with no such job it dereferences a nil pointer.
  unfoldable pub notify_parent : DataStore Bytes → ℕ → ShoveyRun → Option (DataStore Bytes)
  notify_parent ds now sr = do
    s ← get ds sr.shovey_uuid
    elim s [ err e ↦ none | ok job ↦ do (ds', s') ← check_completed ds now job; some ds' ]

  -- What the goroutine of `startJobs` does with an acknowledgement of a node: it reads the run, sets
  -- its time, and hands it to another goroutine, which saves it later by `save_run`.
  unfoldable pub acknowledge : DataStore Bytes → ℕ → Text → Text → Option (Option ShoveyRun)
  unfolding get_run
  acknowledge ds now run_id a = do
    sr ← get_run ds run_id a
    some (
        if a == []
        then none
        else elim sr [ err e ↦ none | ok run ↦ some (record run { ack_time = some now }) ])
