-- ===== src/Report.antt =====
-- report/report.go: reports of the runs of a chef client, in the in-memory mode. `uuid.Parse` and
-- `time.Parse` are parameters.
pub mod Json
pub mod Laws
use goiardi.Base.{
  ℕ, suc, zero, ◌-◌, ◌+◌, ◌%◌, ◌^◌, Bool, true, false, not, ◌&&◌, ◌||◌, Option, none, some, List,
  [], ◌∷◌, ◌++◌, ◌==◌, nat_eq, list_eq, nat_beq, if◌then◌else◌, ltb, leb, length, get_elem?, take,
  ◌>>=◌,
}
use goiardi.Base.Text.{Text, codes}
use goiardi.Base.Int.{int_bound, int_ltb, int_suc}
use goiardi.Base.Decimal.{parse_unsigned}
use goiardi.Base.Sort.{sort}
use goiardi.Datastore.{Gob, DataStore}
use goiardi.Datastore
use goiardi.Datastore.NilArrays.{
  Reflect, Value, number, string, items, members, Items, end, Members, none_left,
}
use goiardi.Objects.{Report, Object, a_report, Result, ok, err, errorf, Gerror}
use goiardi.Util.Members.{get_member}
use goiardi.Sandbox
use Json.{as_text, check_action, then_ok}

-- `ByTime.Less`.
unfoldable pub by_end_less : Report → Report → Bool
by_end_less a b = ltb a.end_time b.end_time

-- `checkTimeRange`.
unfoldable pub check_time_range : Report → ℕ → ℕ → Bool
check_time_range r from until = ltb from r.start_time && ltb r.start_time until

-- What `GetReportList` looks for.
unfoldable pub is_wanted : ℕ → ℕ → Text → Report → Bool
unfolding check_time_range
is_wanted from until status rp =
    check_time_range rp from until && (status == [] || (not (status == []) && rp.status == status))

-- The loop of `GetNodeList`.
unfoldable pub on_node : Text → Text → List Report → List Report
on_node node_name status [] = []
on_node node_name status (r ∷ reports) =
    let rest = on_node node_name status reports in
    if node_name == r.node_name && (status == [] || (not (status == []) && r.status == status))
    then r ∷ rest
    else rest

-- Whether the report at an index ended after the time.
unfoldable pub is_after : ℕ → List Report → ℕ → Bool
is_after now reports i = elim (get_elem? reports i) [ none ↦ true | some r ↦ ltb now r.end_time ]

-- How many of the sorted reports `DeleteByAge` deletes.
unfoldable pub age_count : ℕ → List Report → ℕ
unfolding is_after Sandbox.search
age_count now [] = 0
age_count now (r ∷ reports) =
    if ltb now r.end_time
    then 0
    else Sandbox.search (length (r ∷ reports)) (is_after now (r ∷ reports))

module _ ⦃r : Reflect Object⦄ (g : Gob Object) where
  open g use {Bytes}

  unfoldable pub found_report : Text → Option Object → Option (Result Report)
  found_report run_id none =
      some
        (err (record { message = codes "Report " ++ (run_id ++ codes " not found"); status = 404 }))
  found_report run_id (some (a_report rp)) = some (ok rp)
  found_report run_id (some _) = none

  -- `Get`; the outer `none` is a panic of the type assertion, or the end of the process.
  unfoldable pub get : DataStore Bytes → Text → Option (Result Report)
  unfolding found_report
  get ds run_id = Datastore.get g ds (codes "report") run_id >>= found_report run_id

  abbrev pub is_there : Option Object → Bool
  is_there none = false
  is_there (some o) = true

  -- `New`, with `uuid.Parse` as a test.
  unfoldable pub make : (Text → Bool) → DataStore Bytes → Text → Text → Option (Result Report)
  make is_uuid ds run_id node_name = do
    found ← Datastore.get g ds (codes "report") run_id
    some (
        if is_there found
        then err (record { message = codes "Report already exists"; status = 409 })
        else if not (is_uuid run_id)
        then err (errorf (codes "run id was not a valid uuid"))
        else ok (record {
          run_id = run_id;
          start_time = 0;
          end_time = 0;
          total_res_count = 0;
          status = codes "started";
          run_list = [];
          resources = end;
          run_data = none_left;
          node_name = node_name;
        }))

  -- `Save`, without statsd.
  unfoldable pub save : DataStore Bytes → Report → Option (DataStore Bytes)
  save ds rp = Datastore.set g ds (codes "report") rp.run_id (a_report rp)

  -- `Delete`.
  unfoldable pub delete : DataStore Bytes → Report → DataStore Bytes
  delete ds rp = Datastore.delete ds (codes "report") rp.run_id

  -- `NewFromJSON`.
  unfoldable pub new_from_json :
      (Text → Bool) → (Text → Result ℕ) → DataStore Bytes → Text → Members → Option (Result Report)
  unfolding make check_action as_text get_member
  new_from_json is_uuid parse_time ds node_name json =
      elim (as_text (codes "invalid run id") (get_member (codes "run_id") json)) [
        | err e ↦ some (err e)
        | ok rid ↦ elim (check_action (codes "start") (get_member (codes "action") json)) [
          | some e ↦ some (err e)
          | none ↦
              elim (then_ok
                (as_text (codes "invalid start time") (get_member (codes "start_time") json))
                parse_time) [
                  | err e ↦ some (err e)
                  | ok start ↦ do
                    made ← make is_uuid ds rid node_name
                    some (then_ok made (λ rp. ok (record rp { start_time = start })))
                ]
        ]
      ]

  -- `GetList`.
  unfoldable pub get_list : DataStore Bytes → Option (List Text)
  get_list ds = Datastore.get_list ds (codes "report")

  -- The loop of `AllReports`.
  unfoldable pub fetch_all : DataStore Bytes → List Text → Option (List Report)
  unfolding get
  fetch_all ds [] = some []
  fetch_all ds (n ∷ report_list) = do
    rp ← get ds n
    rest ← fetch_all ds report_list
    some (elim rp [ err e ↦ rest | ok report ↦ report ∷ rest ])

  -- `AllReports`.
  unfoldable pub all_reports : DataStore Bytes → Option (List Report)
  unfolding get_list fetch_all
  all_reports ds = get_list ds >>= fetch_all ds

  -- The loop of `GetReportList`, with the number of reports found so far: it breaks when it has
  -- found more than `rows`.
  unfoldable pub collect :
      DataStore Bytes → (Report → Bool) → ℕ → List Text → ℕ → Option (List Report)
  collect ds wanted rows [] i = some []
  collect ds wanted rows (n ∷ report_list) i = do
    rp ← get ds n
    let next = collect ds wanted rows report_list i
    let next_found = collect ds wanted rows report_list (int_suc i)
    elim rp [
      | err e ↦ if int_ltb rows i then some [] else next
      | ok report ↦
          if wanted report
          then (do
            rest ← if int_ltb rows (int_suc i) then some [] else next_found
            some (report ∷ rest))
          else if int_ltb rows i
          then some []
          else next
    ]

  -- `GetReportList`.
  unfoldable pub get_report_list : DataStore Bytes → ℕ → ℕ → ℕ → Text → Option (List Report)
  get_report_list ds from until rows status = do
    report_list ← get_list ds
    collect ds (is_wanted from until status) rows report_list 0

  -- `GetNodeList`.
  unfoldable pub get_node_list : DataStore Bytes → Text → ℕ → ℕ → ℕ → Text → Option (List Report)
  get_node_list ds node_name from until rows status = do
    reports ← get_report_list ds from until rows status
    some (on_node node_name status reports)

  -- The loop that deletes in `DeleteByAge`.
  unfoldable pub delete_all : DataStore Bytes → List Report → DataStore Bytes
  unfolding delete
  delete_all ds [] = ds
  delete_all ds (rp ∷ reports) = delete_all (delete ds rp) reports

  -- `DeleteByAge`, with `now` the time before which a report is too old.
  unfoldable pub delete_by_age : DataStore Bytes → ℕ → Option (DataStore Bytes × ℕ)
  unfolding all_reports age_count delete_all by_end_less
  delete_by_age ds now = do
    reports ← all_reports ds
    let sorted = sort by_end_less reports
    some (delete_all ds (take (age_count now sorted) sorted), age_count now sorted)
