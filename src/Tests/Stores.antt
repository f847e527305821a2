-- ===== src/Tests/Stores.antt =====
-- Tests of `Set`, `Get`, `Delete` and `GetList` of datastore/datastore.go.
use goiardi.Base.{
  ◌<◌, ◌≡◌, ◌↔◌, refl, true, ◌&&◌, none, some, List, [], ◌∷◌, ◌==◌, nat_eq, list_eq, list_beq,
  if◌then◌else◌, length,
}
use goiardi.Base.Text.{Text, codes, join}
use goiardi.Base.Dict.{insert, lookup}
use goiardi.Datastore.{
  Gob, DataStore, sealed, init_data_store, make_key, add_to_list, set, get, get_list,
  get_list_between,
}
use goiardi.Datastore.Laws.{get-set}
use goiardi.Datastore.Listing.{listed}
use goiardi.Datastore.GetList.{ListsType, get_list_between-none}
use goiardi.Datastore.Reach.{Reachable, start, next, sets, get_list-Reachable}
use goiardi.Datastore.NilArrays.{chk_nil_array}
use goiardi.Tests.{Blob, one, test_gob, no_fields}

abbrev text_gob : Gob Text
text_gob = test_gob (λ v. true)

abbrev role : Text
role = codes "role"

abbrev web : Text
web = codes "web"

abbrev db : Text
db = codes "db"

abbrev two_roles : DataStore (Blob Text)
two_roles = record {
  dsc = (codes "role:web", sealed (one db)) ∷ (codes "role:db", sealed (one web)) ∷ [];
  obj_list = (role, (web, true) ∷ (db, true) ∷ []) ∷ [];
  updated = true;
}

abbrev one_role : DataStore (Blob Text)
one_role = record {
  dsc = (codes "role:web", sealed (one db)) ∷ [];
  obj_list = (role, (web, true) ∷ []) ∷ [];
  updated = true;
}

reach_one : Reachable text_gob one_role
unfolding set make_key join add_to_list insert lookup list_eq list_beq init_data_store
reach_one = next start (sets role web db (record { lacks_colon = refl; unreserved = refl }) refl)

reach_two : Reachable text_gob two_roles
unfolding set make_key join add_to_list insert lookup list_eq list_beq
reach_two =
    next reach_one (sets role db web (record { lacks_colon = refl; unreserved = refl }) refl)

get_list-Reachable_example :
    (ks : List Text) × (get_list two_roles role ≡ some ks) × ListsType two_roles role ks
unfolding list_eq list_beq
get_list-Reachable_example =
    get_list-Reachable text_gob two_roles role (record { lacks_colon = refl; unreserved = refl })
      reach_two

get_list_between-none_example :
    (get_list_between one_role two_roles role ≡ none)
    ↔ (length (listed one_role role) < length (listed two_roles role))
get_list_between-none_example = get_list_between-none one_role two_roles role

get-set_example :
    get text_gob two_roles role db
    ≡ (if (role == role) && (db == db) then some (some web) else get text_gob one_role role db)
unfolding set make_key join add_to_list insert lookup list_eq list_beq chk_nil_array
get-set_example = get-set text_gob one_role role db role db web refl refl refl
