-- ===== src/Shovey/Jobs/Complete.antt =====
-- shovey/shovey.go: when `checkCompleted` finds a job complete.
use goiardi.Base.{
  ℕ, ◌≤◌, ◌≡◌, refl, Bool, false, Option, none, some, List, [], ◌∷◌, nat_eq, list_eq, if◌then◌else◌,
  arith, inl, inr, ◌⊎◌, length, nat_beq, All, all,
}
use goiardi.Base.Text.{Text, codes}
use goiardi.Datastore.{Gob, DataStore}
use goiardi.Datastore.NilArrays.{Reflect}
use goiardi.Objects.{Shovey, ShoveyRun, Object, Result, ok}
use goiardi.Shovey.{
  get_run, found_run, save, is_complete, count_complete, get_node_runs, check_completed,
}
use goiardi.Shovey.Jobs.Cancel.{HasRun}

abbrev pub is_done : Option (Result ShoveyRun) → Bool
is_done (some (ok sr)) = is_complete sr.status
is_done _ = false

module _ ⦃r : Reflect Object⦄ (g : Gob Object) where
  open g use {Bytes}

  -- What `GetRun` finds for a node is a run, or it is the error that there is none.
  abbrev pub Reads : DataStore Bytes → Text → Text → Type 0
  Reads ds run_id n = (get_run g ds run_id n ≡ found_run g run_id n none) ⊎ HasRun g ds run_id n

  counted :
      (ds : DataStore Bytes) (run_id : Text) (names : List Text)
      → All (Reads ds run_id) names
      → (runs : List ShoveyRun) × (get_node_runs g ds run_id names ≡ some (ok runs))
        × (count_complete runs ≤ length names)
        × (nat_beq (count_complete runs) (length names)
            ≡ all (λ n. is_done (get_run g ds run_id n)) names)
  unfolding get_node_runs count_complete found_run
  counted ds run_id [] reads = ([], refl, omega arith, refl)
  counted ds run_id (n ∷ names) (inl h, reads) =
      let (runs, h', le, eq) = counted ds run_id names reads in
      (runs, rw h h', omega (arith, le), rw h (ground (arith, le)))
  counted ds run_id (n ∷ names) (inr (sr, h), reads) =
      let (runs, h', le, eq) = counted ds run_id names reads in
      (sr ∷ runs, rw (h, h') refl, ground (arith, le), rw h (ground (arith, le, eq)))

  -- If each node of a job has a run that can be read or none, `checkCompleted` stores the job as
  -- complete if every node has a run with one of the six statuses of an end, and otherwise does
  -- nothing.
  pub check_completed_lem :
      (ds : DataStore Bytes) (now : ℕ) (s : Shovey)
      → All (Reads ds s.run_id) s.node_names
      → check_completed g ds now s ≡ (
          if all (λ n. is_done (get_run g ds s.run_id n)) s.node_names
          then save g ds now (record s { status = codes "complete" })
          else some (ds, s))
  unfolding check_completed
  check_completed_lem ds now s reads =
      let (runs, h, _, eq) = counted ds s.run_id s.node_names reads in rw (h, eq) refl
