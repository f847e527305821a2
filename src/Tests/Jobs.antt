-- ===== src/Tests/Jobs.antt =====
-- Tests of shovey/, on a job of two nodes.
use goiardi.Base.{
  ℕ, zero, suc, ◌≡◌, ◌≢◌, refl, ◌≤◌, ◌<◌, ◌/◌, ◌*◌, true, false, none, some, [], ◌∷◌, ◌==◌, nat_eq,
  list_eq, list_beq, ap, inr, arith, ltb, All, all, get_elem?, contains, if◌then◌else◌,
}
use goiardi.Base.Text.{Text, codes, join}
use goiardi.Base.Int.{int_ltb, int_bound}
use goiardi.Base.Sort.{sort}
use goiardi.Base.Decimal.{format_int}
use goiardi.Base.Dict.{Dict, lookup, insert}
use goiardi.Datastore.{
  Gob, DataStore, sealed, statuses, status_lists, make_key, get, open_entry, set, add_to_list,
  init_data_store,
}
use goiardi.Datastore.NilArrays.{chk_nil_array, string, Members, member, none_left}
use goiardi.Objects.{
  Object, Node, Shovey, ShoveyRun, a_node, a_node_status, a_shovey, a_shovey_run, a_stream, ok,
}
use goiardi.Node.{get_nodes_by_status}
use goiardi.Shovey
use goiardi.Shovey.{
  save_run, get_run, found_run, check_completed, updated_run, update_from_json, acknowledge,
  notify_parent, is_complete, is_over,
}
use goiardi.Shovey.Jobs.{
  Float, nodes_needed, get_quorum, start_jobs, created_run, down_run, names_of,
}
use goiardi.Shovey.Jobs.Runs.{KeepsJobs, get_run-saved}
use goiardi.Shovey.Jobs.Start.{start_jobs_lem}
use goiardi.Shovey.Jobs.Cancelled.{cancelled, cancelled_job, cancelled-over, on_run}
use goiardi.Shovey.Jobs.Cancel.{OwnsRuns, HasRun, saved-OwnsRuns, cancel_lem}
use goiardi.Shovey.Jobs.Complete.{check_completed_lem, is_done}
use goiardi.Shovey.Jobs.Races.{late_ack_lem, notify_parent-cancel}
use goiardi.Shovey.Stream.{combine_stream_output}
use goiardi.Shovey.Stream.Laws.{KeepsStreams, found, concat}
use goiardi.Shovey.Stream.Upload.{upload, upload-combine}
use goiardi.Tests.{Blob, one, test_gob, no_fields}

abbrev job_gob : Gob Object
job_gob = test_gob (λ v. true)

job_gob-KeepsJobs : KeepsJobs job_gob
unfolding chk_nil_array
job_gob-KeepsJobs = record {
  encodes = λ sr. (one (a_shovey_run sr), refl);
  keeps = λ sr. refl;
  encodes_job = λ s. (one (a_shovey s), refl);
  keeps_job = λ s. refl;
}

job_gob-KeepsStreams : KeepsStreams job_gob
unfolding chk_nil_array
job_gob-KeepsStreams = record { encodes = λ s. (one (a_stream s), refl); keeps = λ s. refl }

abbrev job : Shovey
job = record {
  run_id = codes "j";
  node_names = codes "n2" ∷ codes "n1" ∷ [];
  command = codes "ls";
  created_at = 1;
  updated_at = 1;
  status = codes "running";
  timeout = 9;
  quorum = codes "1";
}

abbrev first_run : ShoveyRun
first_run = record {
  shovey_uuid = codes "j";
  node_name = codes "n1";
  status = codes "created";
  ack_time = none;
  end_time = none;
  error = [];
  exit_status = 0;
}

abbrev second_run : ShoveyRun
second_run = record {
  shovey_uuid = codes "j";
  node_name = codes "n2";
  status = codes "succeeded";
  ack_time = some 2;
  end_time = some 3;
  error = [];
  exit_status = 0;
}

abbrev one_run : DataStore (Blob Object)
one_run = record {
  dsc = (codes "shovey_run:jn1", sealed (one (a_shovey_run first_run))) ∷ [];
  obj_list = (codes "shovey_run", (codes "jn1", true) ∷ []) ∷ [];
  updated = true;
}

abbrev two_runs : DataStore (Blob Object)
two_runs = record {
  dsc =
      (codes "shovey_run:jn1", sealed (one (a_shovey_run first_run)))
      ∷ (codes "shovey_run:jn2", sealed (one (a_shovey_run second_run)))
      ∷ [];
  obj_list = (codes "shovey_run", (codes "jn1", true) ∷ (codes "jn2", true) ∷ []) ∷ [];
  updated = true;
}

no_runs-OwnsRuns : OwnsRuns job_gob init_data_store (codes "j")
unfolding get_run found_run get open_entry lookup init_data_store
no_runs-OwnsRuns n sr h = ground (arith, h)

first_saved : save_run job_gob init_data_store first_run ≡ some one_run
unfolding save_run set make_key join add_to_list insert lookup list_eq list_beq init_data_store
first_saved = refl

second_saved : save_run job_gob one_run second_run ≡ some two_runs
unfolding save_run set make_key join add_to_list insert lookup list_eq list_beq
second_saved = refl

two_runs-OwnsRuns : OwnsRuns job_gob two_runs (codes "j")
two_runs-OwnsRuns =
    saved-OwnsRuns job_gob one_run two_runs (codes "j") (codes "n2") second_run refl refl
      (saved-OwnsRuns job_gob init_data_store one_run (codes "j") (codes "n1") first_run refl refl
        no_runs-OwnsRuns
        (λ m. get_run-saved job_gob job_gob-KeepsJobs init_data_store first_run m first_saved))
      (λ m. get_run-saved job_gob job_gob-KeepsJobs one_run second_run m second_saved)

first_found : get_run job_gob two_runs (codes "j") (codes "n1") ≡ some (ok first_run)
unfolding get_run found_run get open_entry lookup make_key join list_eq list_beq chk_nil_array
first_found = refl

second_found : get_run job_gob two_runs (codes "j") (codes "n2") ≡ some (ok second_run)
unfolding get_run found_run get open_entry lookup make_key join list_eq list_beq chk_nil_array
second_found = refl

both_run : All (HasRun job_gob two_runs (codes "j")) (codes "n2" ∷ codes "n1" ∷ [])
both_run = ((second_run, second_found), ((first_run, first_found), tt))

cancel_lem_example :
    (ds' : DataStore (Blob Object)) × (Shovey.cancel job_gob two_runs 5 none job
      ≡ some (ds', cancelled_job 5 job, none))
    × (Shovey.get job_gob ds' (codes "j") ≡ some (ok (cancelled_job 5 job)))
    × ((m : Text)
        → get_run job_gob ds' (codes "j") m ≡ (
            if contains (codes "n2" ∷ codes "n1" ∷ []) m
            then on_run (cancelled 5) (get_run job_gob two_runs (codes "j") m)
            else get_run job_gob two_runs (codes "j") m))
cancel_lem_example = cancel_lem job_gob job_gob-KeepsJobs two_runs 5 job two_runs-OwnsRuns both_run

check_completed_lem_example : check_completed job_gob two_runs 5 job ≡ (
    if all (λ n. is_done (get_run job_gob two_runs (codes "j") n)) (codes "n2" ∷ codes "n1" ∷ [])
    then Shovey.save job_gob two_runs 5 (record job { status = codes "complete" })
    else some (two_runs, job))
check_completed_lem_example =
    check_completed_lem job_gob two_runs 5 job
      (inr (second_run, second_found), (inr (first_run, first_found), tt))

abbrev report : Members
report = member (codes "status") (string (codes "failed")) none_left

first_named : codes "n1" ≢ []
first_named e = ground (arith, e)

late_ack_lem_example :
    (acked sr' : ShoveyRun) × (ds1 ds2 : DataStore (Blob Object)) × (acknowledge job_gob two_runs 5
        (codes "j")
        (codes "n1")
      ≡ some (some acked))
    × (update_from_json job_gob two_runs 6 first_run report ≡ some (ds1, sr'))
    × (save_run job_gob ds1 acked ≡ some ds2)
    × (get_run job_gob ds1 (codes "j") (codes "n1") ≡ some (ok (updated_run 6 first_run report)))
    × (get_run job_gob ds2 (codes "j") (codes "n1")
        ≡ some (ok (record first_run { ack_time = some 5 })))
late_ack_lem_example =
    late_ack_lem job_gob job_gob-KeepsJobs two_runs 5 6 (codes "j") (codes "n1") first_run report
      first_named two_runs-OwnsRuns first_found

reported_failed : is_complete (updated_run 6 (cancelled 5 second_run) report).status ≡ true
unfolding updated_run is_complete is_over list_eq list_beq
reported_failed =
    ap (λ sr. is_complete (updated_run 6 sr report).status) (cancelled-over 5 second_run refl)

n2_there : contains job.node_names (codes "n2") ≡ true
unfolding list_eq list_beq
n2_there = refl

notify_parent-cancel_example :
    (ds' ds1 ds'' : DataStore (Blob Object)) × (s' : Shovey) × (sr' : ShoveyRun) × (s'' : Shovey)
    × (Shovey.cancel job_gob two_runs 5 none job ≡ some (ds', s', none))
    × (Shovey.get job_gob ds' (codes "j") ≡ some (ok s'))
    × (s'.status ≡ codes "cancelled")
    × (get_run job_gob ds' (codes "j") (codes "n2") ≡ some (ok (cancelled 5 second_run)))
    × (update_from_json job_gob ds' 6 (cancelled 5 second_run) report ≡ some (ds1, sr'))
    × (get_run job_gob ds1 (codes "j") (codes "n2")
        ≡ some (ok (updated_run 6 (cancelled 5 second_run) report)))
    × (notify_parent job_gob ds1 6 sr' ≡ some ds'')
    × (Shovey.get job_gob ds'' (codes "j") ≡ some (ok s''))
    × (s''.status ≡ codes "complete")
notify_parent-cancel_example =
    notify_parent-cancel job_gob job_gob-KeepsJobs two_runs 5 6 job (codes "n2") second_run report
      two_runs-OwnsRuns both_run n2_there second_found reported_failed

-- The output of the first run: two chunks, the second one first.
abbrev sent : Dict ℕ Text
sent = (1, codes "b") ∷ (0, codes "a") ∷ []

no_chunks :
    (j : ℕ) → j < int_bound → found job_gob first_run (codes "stdout") init_data_store j ≡ some none
unfolding get open_entry lookup init_data_store
no_chunks j b = refl

sent_numbers : All (λ i. i < int_bound) (1 ∷ 0 ∷ [])
sent_numbers = (omega arith, (omega arith, tt))

sent_listed : (j : ℕ) → j ≤ 2 → lookup j sent ≡ get_elem? (codes "a" ∷ codes "b" ∷ []) j
unfolding lookup
sent_listed zero h = refl
sent_listed (suc zero) h = refl
sent_listed (suc (suc zero)) h = refl
sent_listed (suc (suc (suc j))) h = absurd (omega (arith, h))

upload-combine_example :
    (ds' : DataStore (Blob Object)) × (upload job_gob first_run
        (codes "stdout")
        init_data_store
        5
        sent
      ≡ some ds')
    × (combine_stream_output job_gob ds' first_run (codes "stdout") 0
        ≡ some (concat (codes "a" ∷ codes "b" ∷ [])))
upload-combine_example =
    upload-combine job_gob first_run (codes "stdout") job_gob-KeepsStreams init_data_store 5 sent
      (codes "a" ∷ codes "b" ∷ []) no_chunks (refl, (refl, tt)) sent_numbers (omega arith)
      sent_listed

-- Numbers in place of floats, of which only "1" is read.
abbrev whole_numbers : Float
whole_numbers = record {
  F = ℕ;
  parse = λ t. if t == codes "1" then some 1 else none;
  parse_error = λ t. codes "invalid syntax";
  of_int = λ n. n;
  quo = ◌/◌;
  mul = ◌*◌;
  ceil = λ n. n;
  gtb = λ a b. ltb b a;
  to_int = λ n. n;
  format = format_int;
}

abbrev up_node : Node
up_node = record {
  name = codes "n1";
  chef_environment = codes "_default";
  run_list = [];
  json_class = codes "Chef::Node";
  chef_type = codes "node";
  automatic = none_left;
  normal = none_left;
  default = none_left;
  override = none_left;
  is_down = false;
}

-- One of the two nodes is known, and up.
abbrev one_up : DataStore (Blob Object)
one_up = record {
  dsc =
      (codes "node:n1", sealed (one (a_node up_node)))
      ∷ (
        codes "nodestatus:nodestatuses",
        statuses (
            (
              7,
              one (a_node_status (record { node = up_node; status = codes "up"; updated_at = 4 })),
            )
            ∷ []),
      )
      ∷ (codes "nodestatuslist:nodestatuslists", status_lists ((codes "n1", 7 ∷ []) ∷ []))
      ∷ [];
  obj_list = [];
  updated = true;
}

one_needed : get_quorum whole_numbers (codes "1") 2 ≡ nodes_needed 1
unfolding get_quorum list_eq list_beq
one_needed = refl

one_is_up :
    get_nodes_by_status job_gob one_up (codes "n2" ∷ codes "n1" ∷ []) (codes "up")
    ≡ some (one_up, up_node ∷ [])
unfolding get_nodes_by_status get make_key join lookup insert list_eq list_beq chk_nil_array sort
one_is_up = refl

enough : int_ltb 1 1 ≡ false
unfolding int_ltb
enough = refl

start_jobs_lem_example :
    (ds' : DataStore (Blob Object)) × (start_jobs job_gob whole_numbers one_up 5 none job
      ≡ some (ds', none))
    × ((n : Text)
        → contains (codes "n2" ∷ codes "n1" ∷ []) n ≡ true
        → get_run job_gob ds' (codes "j") n
          ≡ some (
              ok (
                if contains (codes "n1" ∷ []) n
                then created_run (codes "j") n
                else down_run 5 (codes "j") n)))
unfolding list_eq names_of
start_jobs_lem_example =
    start_jobs_lem job_gob job_gob-KeepsJobs whole_numbers one_up one_up 5 job 1 (up_node ∷ [])
      one_needed one_is_up enough
