-- ===== src/Tests/Logs.antt =====
-- Tests of the log events of datastore/datastore.go and loginfo/log_info.go.
use goiardi.Base.{
  List, leb, take, drop, ℕ, ◌+◌, ◌≡◌, refl, true, none, some, [], ◌∷◌, nat_eq, list_eq, list_beq,
  if◌then◌else◌, length, arith, IsNodup,
}
use goiardi.Base.Text.{Text, codes, join}
use goiardi.Base.Int.{int_ltb}
use goiardi.Base.Dict.{Dict, insert, lookup, keys}
use goiardi.Datastore.{Gob, DataStore, sealed, make_key}
use goiardi.Datastore.LogInfo.{
  log_key, get_log_info_map, get_log_info, purge_log_info_before, open_log, set_log_info_map,
  purge_loop,
}
use goiardi.Datastore.LogInfo.Laws.{purge_log_info_before_lem, kept_option}
use goiardi.Datastore.LogInfo.{get_log_info_list}
use goiardi.LogInfo.{Event, get_log_infos, name_type}
use goiardi.LogInfo.Page.{AreMatches, get_log_infos_lem}
use goiardi.Tests.{Blob, many, test_gob, no_fields}

abbrev text_gob : Gob Text
text_gob = test_gob (λ v. true)

abbrev three : Dict ℕ Text
three = (1, codes "a") ∷ (2, codes "b") ∷ (3, codes "c") ∷ []

abbrev log_store : Dict ℕ Text → DataStore (Blob Text)
log_store m = record { dsc = (log_key, sealed (many m)) ∷ []; obj_list = []; updated = true }

purge_log_info_before_lem_example :
    (m' : Dict ℕ Text) × (get_log_info_map text_gob (log_store ((3, codes "c") ∷ [])) ≡ some m')
    × (length m' + 2 ≡ length three)
    × (get_log_info text_gob (log_store ((3, codes "c") ∷ [])) 3
        ≡ some (if int_ltb 2 3 then kept_option text_gob (lookup 3 three) else none))
unfolding get_log_info_map purge_log_info_before purge_loop int_ltb set_log_info_map open_log
    make_key join lookup insert list_eq list_beq
purge_log_info_before_lem_example =
    purge_log_info_before_lem text_gob (log_store three) (log_store ((3, codes "c") ∷ [])) three 2 2
      3 refl refl

abbrev event_gob : Gob Event
event_gob = test_gob (λ v. true)

abbrev event_of : Text → ℕ → Event
event_of action time = record {
  doer = codes "admin";
  actor_info = [];
  actor_type = codes "user";
  time = time;
  action = action;
  object_type = codes "*node.Node";
  object_name = codes "web";
  extended_info = [];
  id = 0;
}

abbrev two_events : Dict ℕ Event
two_events = (1, event_of (codes "create") 10) ∷ (2, event_of (codes "delete") 20) ∷ []

abbrev event_store : DataStore (Blob Event)
event_store = record {
  dsc = (log_key, sealed (many two_events)) ∷ [];
  obj_list = [];
  updated = true;
}

abbrev deletions : Dict Text Text
deletions = (codes "action", codes "delete") ∷ (codes "object_type", codes "node") ∷ []

-- `strings.Title` of the one name in use here.
abbrev title : Text → Text
title s = codes "Node"

two_ids : IsNodup (keys two_events)
two_ids = (refl, (refl, tt))

get_log_infos_lem_example :
    (found : List Event) × AreMatches 0 99 (name_type title deletions) two_events found
    × (get_log_infos event_gob title event_store 0 99 deletions (0 ∷ 5 ∷ [])
        ≡ (if leb 0 (length found) then some (take 5 (drop 0 found)) else none))
unfolding get_log_info_list get_log_info_map open_log lookup make_key join list_eq list_beq
get_log_infos_lem_example =
    get_log_infos_lem event_gob title event_store two_events 0 99 deletions 0 5 refl two_ids
      (omega arith) (omega arith) (omega arith)
