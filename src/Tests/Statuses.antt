-- ===== src/Tests/Statuses.antt =====
-- Tests of the node statuses of datastore/datastore.go, on a store with two statuses of one node.
use goiardi.Base.{
  ℕ, ◌+◌, ◌≡◌, refl, true, false, none, List, [], ◌∷◌, ◌==◌, ==_iff, nat_eq, list_eq, list_beq,
  if◌then◌else◌, Bool-cases, inl, inr, arith, length,
}
use mathlib.Core.List.{reverse}
use goiardi.Base.Text.{Text, codes, join}
use goiardi.Base.Dict.{Dict, lookup}
use goiardi.Base.Int.{int_ltb}
use goiardi.Datastore.{Gob, DataStore, statuses, status_lists, make_key}
use goiardi.Datastore.NodeStatus.{
  returned, failed, encode_failed, ns_key, ns_list_key, ids_of, set_node_status,
  replace_node_statuses, latest_node_status,
}
use goiardi.Datastore.NodeStatus.Abstract.{View, update_view, Represents, Refines, statuses_at}
use goiardi.Datastore.NodeStatus.Laws.{set_node_status-Refines}
use goiardi.Datastore.NodeStatus.Atomicity.{
  replace_node_statuses-Refines, replace_node_statuses_partial,
}
use goiardi.Datastore.NodeStatus.Latest.{latest_node_status_lem}
use goiardi.Tests.{Blob, one, test_gob, no_fields}

abbrev web : Text
web = codes "web"

abbrev up : Text
up = codes "up"

abbrev down : Text
down = codes "down"

-- An empty status cannot be encoded.
abbrev text_gob : Gob Text
text_gob = test_gob (λ v. elim v [ [] ↦ false | c ∷ s ↦ true ])

abbrev web_view : View Text
web_view n = if web == n then up ∷ down ∷ [] else []

abbrev web_ns : Dict ℕ (Blob Text)
web_ns = (1, one up) ∷ (2, one down) ∷ []

abbrev web_lists : Dict Text (List ℕ)
web_lists = (web, 1 ∷ 2 ∷ []) ∷ []

abbrev web_store : DataStore (Blob Text)
web_store = record {
  dsc = (ns_key, statuses web_ns) ∷ (ns_list_key, status_lists web_lists) ∷ [];
  obj_list = [];
  updated = true;
}

web-Represents : Represents text_gob 3 web_store web_view web_ns web_lists
unfolding lookup ids_of statuses_at list_eq list_beq make_key join
web-Represents = record {
  has_statuses = refl;
  has_lists = refl;
  linked = record {
    stored = λ n i h. ground arith;
    once =
        λ n. elim (Bool-cases (web == n)) [ inl e ↦ rw e ((refl, (refl, tt))) | inr e ↦ rw e tt ];
    disjoint = λ n m i h k. ground (arith, ==_iff web n, ==_iff web m);
    below = (omega arith, (omega arith, tt));
  };
  shows = λ n. elim (Bool-cases (web == n)) [ inl e ↦ rw e refl | inr e ↦ rw e refl ];
}

web-Refines : Refines text_gob 3 web_store web_view
web-Refines = (web_ns, web_lists, web-Represents)

set_node_status-Refines_example :
    (ds' : DataStore (Blob Text)) × (set_node_status text_gob web_store web up none
      ≡ returned tt ds')
    × Refines text_gob 4 ds' (update_view web_view web (up ∷ down ∷ up ∷ []))
unfolding list_eq list_beq
set_node_status-Refines_example =
    set_node_status-Refines text_gob 3 web_store web_view web up (one up) (omega arith)
      (omega arith) refl web-Refines

replace_node_statuses-Refines_example :
    (ds' : DataStore (Blob Text)) × (replace_node_statuses text_gob web_store web (down ∷ down ∷ [])
      ≡ returned tt ds')
    × Refines text_gob
        (3 + length (down ∷ down ∷ []))
        ds'
        (update_view web_view web (down ∷ down ∷ []))
unfolding list_eq list_beq
replace_node_statuses-Refines_example =
    replace_node_statuses-Refines text_gob 3 web_store web_view web (down ∷ down ∷ []) (omega arith)
      (omega arith) ((one down, refl), ((one down, refl), tt)) web-Refines

replace_node_statuses_partial_example :
    (ds' : DataStore (Blob Text)) × (replace_node_statuses text_gob web_store web
        (up ∷ [] ∷ down ∷ [])
      ≡ failed encode_failed ds')
    × Refines text_gob (3 + length (up ∷ [])) ds' (update_view web_view web (up ∷ []))
unfolding list_eq list_beq
replace_node_statuses_partial_example =
    replace_node_statuses_partial text_gob 3 web_store web_view web (up ∷ []) (down ∷ []) []
      (omega arith) (omega arith) ((one up, refl), tt) refl web-Refines

latest_node_status_lem_example :
    (ds' : DataStore (Blob Text)) × (latest_node_status text_gob web_store web ≡ returned down ds')
    × Refines text_gob 3 ds' (update_view web_view web (reverse (web_view web)))
unfolding ids_of lookup list_eq list_beq int_ltb
latest_node_status_lem_example =
    latest_node_status_lem text_gob 3 web_store web_view web_ns web_lists web (up ∷ []) down
      web-Represents ((refl, tt), (tt, tt)) refl
