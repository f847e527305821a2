-- ===== src/Tests/Reports.antt =====
-- Tests of report/, on a store of two reports.
use goiardi.Base.{◌≡◌, refl, true, some, [], ◌∷◌, list_eq, list_beq, nat_eq, arith, take, filter}
use goiardi.Base.Text.{codes, join, text_ltb}
use goiardi.Base.Sort.{sort}
use goiardi.Base.Dict.{lookup}
use goiardi.Datastore.{Gob, DataStore, sealed, make_key, get, get_list, open_entry, fill}
use goiardi.Datastore.NilArrays.{chk_nil_array, end, none_left}
use goiardi.Objects.{Object, Report, a_report}
use goiardi.Report.{all_reports, get_report_list, is_wanted}
use goiardi.Report.Laws.{get_report_list_lem}
use goiardi.Tests.{Blob, one, test_gob, no_fields}

abbrev report_gob : Gob Object
report_gob = test_gob (λ v. true)

abbrev first_report : Report
first_report = record {
  run_id = codes "a";
  start_time = 5;
  end_time = 6;
  total_res_count = 1;
  status = codes "success";
  run_list = [];
  resources = end;
  run_data = none_left;
  node_name = codes "n1";
}

abbrev second_report : Report
second_report = record first_report { run_id = codes "b"; start_time = 7; end_time = 9 }

abbrev two_reports : DataStore (Blob Object)
two_reports = record {
  dsc =
      (codes "report:a", sealed (one (a_report first_report)))
      ∷ (codes "report:b", sealed (one (a_report second_report)))
      ∷ [];
  obj_list = (codes "report", (codes "b", true) ∷ (codes "a", true) ∷ []) ∷ [];
  updated = true;
}

both_reports : all_reports report_gob two_reports ≡ some (first_report ∷ second_report ∷ [])
unfolding all_reports get_list fill sort text_ltb get make_key join lookup list_eq list_beq
    open_entry chk_nil_array
both_reports = refl

get_report_list_lem_example :
    get_report_list report_gob two_reports 1 8 1 (codes "success")
    ≡ some (take 2 (filter (is_wanted 1 8 (codes "success")) (first_report ∷ second_report ∷ [])))
get_report_list_lem_example =
    get_report_list_lem report_gob two_reports 1 8 1 (codes "success")
      (first_report ∷ second_report ∷ []) (omega arith) both_reports
