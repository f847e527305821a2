-- ===== src/Tests/Actors.antt =====
-- Tests of client/ and user/, on a store with two clients.
use goiardi.Base.{
  ◌≡◌, refl, true, false, Option, none, some, [], ◌∷◌, ◌==◌, ==_iff, nat_eq, list_eq, list_beq,
  Bool-cases, inl, inr,
}
use goiardi.Base.Text.{codes, join}
use goiardi.Base.Dict.{lookup, insert}
use goiardi.Datastore.{
  Gob, DataStore, sealed, make_key, get, open_entry, set, add_to_list, init_data_store,
}
use goiardi.Datastore.NilArrays.{chk_nil_array, string, Members, member, none_left}
use goiardi.Datastore.Reach.{Reachable, start, next, sets}
use goiardi.Objects.{Object, Client, User, a_client, a_user, ok, Gerror}
use goiardi.User
use goiardi.User.Laws.{KeepsUsers, rename-save}
use goiardi.Indexer.{make_default_collections}
use goiardi.Client
use goiardi.Client.{World, new_client}
use goiardi.Client.Admins.{IsClientStore, HasAdmin, client_type}
use goiardi.Client.Laws.{Deletes, delete_lem}
use goiardi.Client.Update.{IsUpdate, update_from_json_lem}
use goiardi.Tests.{Blob, one, test_gob, no_fields}
use goiardi.Tests.Queries.{lists}

abbrev object_gob : Gob Object
object_gob = test_gob (λ v. true)

abbrev boss : Client
boss = record {
  name = codes "boss";
  node_name = codes "boss";
  json_class = codes "Chef::ApiClient";
  chef_type = codes "client";
  validator = false;
  orgname = [];
  pub_key = [];
  admin = true;
  certificate = [];
}

abbrev one_client : DataStore (Blob Object)
one_client = record {
  dsc = (codes "client:boss", sealed (one (a_client boss))) ∷ [];
  obj_list = (codes "client", (codes "boss", true) ∷ []) ∷ [];
  updated = true;
}

one_client-Reachable : Reachable object_gob one_client
unfolding set make_key join add_to_list insert lookup list_eq list_beq init_data_store
one_client-Reachable =
    next start (sets (codes "client") (codes "boss") (a_client boss) client_type refl)

one_client-IsClientStore : IsClientStore object_gob one_client
unfolding Client.get Client.found_client get make_key join lookup list_eq list_beq open_entry
    chk_nil_array
one_client-IsClientStore k = elim (Bool-cases (codes "boss" == k)) [
  | inl own ↦ rw own (inr (boss, refl, (==_iff (codes "boss") k).0 own))
  | inr other ↦ rw other (inl refl)
]

boss-stored : Client.get object_gob one_client (codes "boss") ≡ some (ok boss)
unfolding Client.get Client.found_client get make_key join lookup list_eq list_beq open_entry
    chk_nil_array
boss-stored = refl

abbrev world : World object_gob lists
world = record { store = one_client; index = make_default_collections lists; waiting = [] }

delete_lem_example :
    (w' : World object_gob lists) × (e : Option Gerror) × (Client.delete object_gob lists world boss
      ≡ some (w', e))
    × Deletes object_gob lists boss world w' e
    × HasAdmin object_gob w'.store
delete_lem_example =
    delete_lem object_gob lists world boss one_client-Reachable one_client-IsClientStore boss-stored
      (codes "boss", boss, boss-stored, refl)

-- A request that says nothing about "admin".
abbrev silent : Members
silent = member (codes "name") (string (codes "boss")) none_left

abbrev demoted : Client
demoted = record boss { admin = false }

update_from_json_lem_example : IsUpdate object_gob one_client boss silent demoted
unfolding Client.update_from_json list_eq list_beq
update_from_json_lem_example = update_from_json_lem object_gob one_client boss demoted silent refl

object_gob-KeepsUsers : KeepsUsers object_gob
unfolding chk_nil_array
object_gob-KeepsUsers = record { encodes = λ u. (one (a_user u), refl); keeps = λ u c salt e. refl }

abbrev ann : User
ann = record {
  username = codes "ann";
  name = codes "ann";
  email = [];
  admin = false;
  pub_key = [];
  passwd = [];
  salt = some (7 ∷ []);
}

abbrev one_user : DataStore (Blob Object)
one_user = record {
  dsc = (codes "user:ann", sealed (one (a_user ann))) ∷ [];
  obj_list = (codes "user", (codes "ann", true) ∷ []) ∷ [];
  updated = true;
}

ann-stored : User.get object_gob one_user (codes "ann") ≡ some (ok ann)
unfolding User.get get make_key join lookup list_eq list_beq open_entry chk_nil_array
ann-stored = refl

ann-last : User.is_last_admin object_gob one_user ann ≡ some false
unfolding User.is_last_admin
ann-last = refl

bob-valid : User.check_user_name (codes "bob") ≡ none
unfolding User.check_user_name
bob-valid = refl

bob-no_user : get object_gob one_user (codes "user") (codes "bob") ≡ some none
unfolding get make_key join lookup list_eq list_beq open_entry
bob-no_user = refl

bob-no_client : get object_gob one_user (codes "client") (codes "bob") ≡ some none
unfolding get make_key join lookup list_eq list_beq open_entry
bob-no_client = refl

rename-save_example :
    (ds' ds'' : DataStore (Blob Object)) × (User.rename object_gob one_user ann (codes "bob")
      ≡ some (ds', record ann { username = codes "bob" }, none))
    × (User.save object_gob ds' (record ann { username = codes "bob" }) ≡ some (ds'', none))
    × (User.get object_gob ds'' (codes "bob") ≡ some (ok (record ann { username = codes "bob" })))
    × (User.get object_gob ds'' (codes "ann") ≡ some (ok ann))
rename-save_example =
    rename-save object_gob object_gob-KeepsUsers one_user ann 7 [] (codes "bob") refl ann-stored
      ann-last bob-valid bob-no_user bob-no_client
