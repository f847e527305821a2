-- ===== src/Client.antt =====
-- client/client.go: API clients in the in-memory mode, with no external secrets. Saving a client
-- starts a goroutine that indexes it; here the object waits until a step indexes it.
pub mod Admins
pub mod Laws
pub mod Update
use goiardi.Base.{
  ℕ, suc, zero, Bool, true, false, not, ◌&&◌, ◌||◌, Option, none, some, List, [], ◌∷◌, ◌++◌, ◌==◌,
  nat_eq, list_eq, nat_beq, if◌then◌else◌, contains, get_elem?, take, drop, ◌+◌, ◌>>=◌,
}
use goiardi.Base.Text.{Text, codes}
use goiardi.Base.Dict.{Dict}
use goiardi.Datastore.{Gob, DataStore}
use goiardi.Datastore
use goiardi.Datastore.NilArrays.{Reflect, Value, null, Members, none_left, member}
use goiardi.Objects.{Client, Object, a_client, Result, ok, err, errorf, Gerror}
use goiardi.Indexer.Document.{Backend, Indexable}
use goiardi.Indexer.{FileIndex, delete_item, save_item}
use goiardi.Util.Indexify.{Flat, text}
use goiardi.Util.Members.{find_member, get_member}
use goiardi.Util.Validations.{
  validate_name, validate_as_string, validate_as_bool, validate_as_field_string,
}

-- An error with the status given.
abbrev pub with_status : ℕ → Text → Gerror
with_status status message = record { message = message; status = status }

-- `validateClientName`.
unfoldable pub validate_client_name : Text → Option Gerror
unfolding validate_name
validate_client_name name =
    if validate_name name
    then none
    else some (
        errorf (
          codes "Invalid client name '"
          ++ (name
              ++ codes
                  "' using regex: 'Malformed client name.  Must be A-Z, a-z, 0-9, _, -, or .'.")))

unfoldable pub new_client : Text → Client
new_client clientname = record {
  name = clientname;
  node_name = clientname;
  json_class = codes "Chef::ApiClient";
  chef_type = codes "client";
  validator = false;
  orgname = [];
  pub_key = [];
  admin = false;
  certificate = [];
}

abbrev pub bool_text : Bool → Text
bool_text true = codes "true"
bool_text false = codes "false"

-- `Flatten`: the fields of `flatExport` under their JSON names.
unfoldable pub flatten : Client → Dict Text Flat
flatten c =
    (codes "name", text c.name)
    ∷ (codes "node_name", text c.node_name)
    ∷ (codes "json_class", text c.json_class)
    ∷ (codes "chef_type", text c.chef_type)
    ∷ (codes "validator", text (bool_text c.validator))
    ∷ (codes "orgname", text c.orgname)
    ∷ (codes "public_key", text c.pub_key)
    ∷ (codes "admin", text (bool_text c.admin))
    ∷ (codes "certificate", text c.certificate)
    ∷ []

-- A client as an `Indexable`.
unfoldable pub indexable : Client → Indexable
unfolding flatten
indexable c = record { doc_id = c.name; index = codes "client"; flatten = flatten c }

unfoldable pub valid_elements : List Text
valid_elements =
    codes "name"
    ∷ codes "json_class"
    ∷ codes "chef_type"
    ∷ codes "validator"
    ∷ codes "org_name"
    ∷ codes "orgname"
    ∷ codes "public_key"
    ∷ codes "private_key"
    ∷ codes "admin"
    ∷ codes "certificate"
    ∷ codes "password"
    ∷ codes "node_name"
    ∷ codes "clientname"
    ∷ codes "create_key"
    ∷ []

-- The loop over the keys of the JSON object.
unfoldable pub invalid_key : List Text → Members → Option Gerror
invalid_key valid none_left = none
invalid_key valid (member k v m) =
    let rest = invalid_key valid m in
    if contains valid k
    then rest
    else some (errorf (codes "Invalid key " ++ (k ++ codes " in request body")))

-- The value of "json_class" or "chef_type": the one wanted, or the client's own if it is nil.
unfoldable pub class_field : Text → Text → Text → Value → Result Text
unfolding validate_as_field_string
class_field field wanted own v = elim (validate_as_field_string v) [
  | err e ↦ if e.message == codes "Field 'name' nil" then ok own else err e
  | ok s ↦
      if s == wanted then ok s else err (errorf (codes "Field '" ++ (field ++ codes "' invalid")))
]

-- The value of "admin", with `last` what `isLastAdmin` says.
unfoldable pub admin_field : Bool → Option Bool → Option Value → Option (Result Bool)
unfolding validate_as_bool
admin_field was_admin last none = some (ok false)
admin_field was_admin last (some v) = elim (validate_as_bool v) [
  | err e ↦ some (err (errorf (codes "Field 'admin' invalid")))
  | ok ab ↦
      if was_admin && not ab
      then last >>= (λ is_last. some (
          if is_last
          then err (with_status 403 (codes "Cannot remove admin status from the last admin"))
          else ok ab))
      else some (ok ab)
]

unfoldable pub validator_field : Option Value → Result Bool
unfolding validate_as_bool
validator_field none = ok false
validator_field (some v) = validate_as_bool v

abbrev pub and_also : {A B : Type 0} → Result A → (A → Option (Result B)) → Option (Result B)
and_also (err e) f = some (err e)
and_also (ok a) f = f a

module _ ⦃r : Reflect Object⦄ (g : Gob Object) where
  open g use {Bytes}

  -- The client that `Get` finds; the outer `none` is a panic of the type assertion, or the end of
  -- the process.
  unfoldable pub found_client : Text → Option Object → Option (Result Client)
  found_client clientname none =
      some (err (with_status 404 (codes "Client " ++ (clientname ++ codes " not found"))))
  found_client clientname (some (a_client c)) = some (ok c)
  found_client clientname (some _) = none

  -- `Get`.
  unfoldable pub get : DataStore Bytes → Text → Option (Result Client)
  unfolding found_client
  get ds clientname = Datastore.get g ds (codes "client") clientname >>= found_client clientname

  abbrev pub is_found : {A : Type 0} → Option A → Bool
  is_found none = false
  is_found (some a) = true

  -- `DoesExist`.
  unfoldable pub does_exist : DataStore Bytes → Text → Option Bool
  does_exist ds clientname = do
    c ← Datastore.get g ds (codes "client") clientname
    some (is_found c)

  -- `New`.
  unfoldable pub make : DataStore Bytes → Text → Option (Result Client)
  unfolding does_exist validate_client_name new_client
  make ds clientname = do
    found ← does_exist ds clientname
    some (
        if found
        then err (with_status 409 (codes "Client already exists"))
        else elim (validate_client_name clientname) [
          | some e ↦ err e
          | none ↦ ok (new_client clientname)
        ])

  -- `GetList`.
  unfoldable pub get_list : DataStore Bytes → Option (List Text)
  get_list ds = Datastore.get_list ds (codes "client")

  -- The loop of `GetMulti`, which passes over the names that are not found.
  unfoldable pub get_multi : DataStore Bytes → List Text → Option (List Client)
  unfolding get
  get_multi ds [] = some []
  get_multi ds (c ∷ client_names) = do
    co ← get ds c
    rest ← get_multi ds client_names
    some (elim co [ err e ↦ rest | ok cl ↦ cl ∷ rest ])

  -- `AllClients`.
  unfoldable pub all_clients : DataStore Bytes → Option (List Client)
  unfolding get_list get_multi
  all_clients ds = get_list ds >>= get_multi ds

  -- `chkInMemUser`.
  unfoldable pub chk_in_mem_user : DataStore Bytes → Text → Option (Option Gerror)
  chk_in_mem_user ds name = do
    u ← Datastore.get g ds (codes "user") name
    some (
        if is_found u
        then some (
            with_status 409 (
              codes "a user named "
              ++ (name ++ codes " was found that would conflict with this client")))
        else none)

  -- The loop of `isLastAdmin`, which counts the admins.
  unfoldable pub num_admins : DataStore Bytes → List Text → Option ℕ
  unfolding get
  num_admins ds [] = some 0
  num_admins ds (cc ∷ clist) = do
    c1 ← get ds cc
    n ← num_admins ds clist
    some (elim c1 [ err e ↦ n | ok c ↦ if c.admin then suc n else n ])

  -- `isLastAdmin`.
  unfoldable pub is_last_admin : DataStore Bytes → Client → Option Bool
  unfolding get_list num_admins
  is_last_admin ds c =
      if c.admin
      then (do clist ← get_list ds; n ← num_admins ds clist; some (nat_beq n 1))
      else some false

  -- `UpdateFromJSON`: the client, or the error that it ends in.
  unfoldable pub update_from_json : DataStore Bytes → Client → Members → Option (Result Client)
  unfolding validate_as_string invalid_key valid_elements class_field admin_field validator_field
      is_last_admin get_member find_member
  update_from_json ds c json_actor =
      and_also (validate_as_string (get_member (codes "name") json_actor)) (λ actor_name.
        if not (c.name == actor_name)
        then some (
            err (
              errorf (
                codes "Client name "
                ++ (c.name ++ (codes " and " ++ (actor_name ++ codes " from JSON do not match"))))))
        else elim (invalid_key valid_elements json_actor) [
          | some e ↦ some (err e)
          | none ↦
              and_also
                (class_field (codes "json_class") (codes "Chef::ApiClient") c.json_class
                  (get_member (codes "json_class") json_actor))
                (λ json_class.
                  and_also
                    (class_field (codes "chef_type") (codes "client") c.chef_type
                      (get_member (codes "chef_type") json_actor))
                    (λ chef_type. do
                      ab' ←
                          admin_field c.admin (is_last_admin ds c)
                            (find_member (codes "admin") json_actor)
                      and_also ab' (λ ab.
                          and_also (validator_field (find_member (codes "validator") json_actor))
                            (λ vb. some (
                              if ab && vb
                              then err (
                                  errorf (
                                    codes
                                      "Client can be either an admin or a validator, but not both."))
                              else ok (record c {
                                admin = ab;
                                validator = vb;
                                chef_type = chef_type;
                                json_class = json_class;
                              }))))))
        ])

  -- `NewFromJSON`.
  unfoldable pub new_from_json : DataStore Bytes → Members → Option (Result Client)
  unfolding validate_as_string make update_from_json get_member
  new_from_json ds json_actor =
      and_also (validate_as_string (get_member (codes "name") json_actor)) (λ actor_name. do
        client ← make ds actor_name
        and_also client (λ c. update_from_json ds c json_actor))

  module _ (b : Backend) where
    -- The data store, the index, and the objects that goroutines have still to index.
    pub record World : Type 0 where
      pub store : DataStore Bytes
      pub index : FileIndex b
      pub waiting : List Indexable

    -- `Save`.
    unfoldable pub save : World → Client → Option (World × Option Gerror)
    unfolding chk_in_mem_user indexable
    save w c = do
      taken ← chk_in_mem_user w.store c.name
      elim taken [
        | some e ↦ some (w, some e)
        | none ↦ do
          store ← Datastore.set g w.store (codes "client") c.name (a_client c)
          some (record w { store = store; waiting = w.waiting ++ indexable c ∷ [] }, none)
      ]

    -- `Delete`.
    unfoldable pub delete : World → Client → Option (World × Option Gerror)
    unfolding is_last_admin
    delete w c = do
      last ← is_last_admin w.store c
      some (
          if last then (w, some (errorf (codes "Cannot delete the last admin"))) else (
            record w {
              store = Datastore.delete w.store (codes "client") c.name;
              index = (delete_item b w.index (codes "client") c.name).0;
            },
            none,
          ))

    -- `Rename`: the world, the client and the error.
    unfoldable pub rename : World → Client → Text → Option (World × Client × Option Gerror)
    unfolding validate_client_name is_last_admin chk_in_mem_user does_exist
    rename w c new_name = elim (validate_client_name new_name) [
      | some e ↦ some (w, c, some e)
      | none ↦ do
        last ← is_last_admin w.store c
        if last
            then some (w, c, some (with_status 403 (codes "Cannot rename the last admin")))
            else (do
              taken ← chk_in_mem_user w.store new_name
              elim taken [
                | some e ↦ some (w, c, some (with_status 409 e.message))
                | none ↦ do
                  found ← does_exist w.store new_name
                  some (
                      if found
                      then (
                        w,
                        c,
                        some (
                            with_status 409 (
                              codes "Client "
                              ++ (new_name
                                  ++ (codes " already exists, cannot rename " ++ c.name)))),
                      )
                      else (
                        record w { store = Datastore.delete w.store (codes "client") c.name },
                        record c { name = new_name },
                        none,
                      ))
              ])
    ]

    -- The goroutine of one of the objects that wait runs, in any order.
    unfoldable pub index_waiting : ℕ → World → ℕ → Option World
    index_waiting max_val_len w k = elim (get_elem? w.waiting k) [
      | none ↦ some w
      | some object ↦ do
        index ← save_item b max_val_len w.index object
        some (record w { index = index; waiting = take k w.waiting ++ drop (k + 1) w.waiting })
    ]

-- The permissions of a client, where `use_auth` is the configuration's.
unfoldable pub is_admin : Bool → Client → Bool
is_admin use_auth c = if not use_auth then true else c.admin

unfoldable pub is_validator : Bool → Client → Bool
is_validator use_auth c =
    if not use_auth
    then false
    else if c.chef_type == codes "client" && c.validator
    then c.validator
    else false

-- `CheckPermEdit`.
unfoldable pub check_perm_edit : Members → Text → Option Gerror
unfolding find_member validate_as_bool
check_perm_edit client_data perm = elim (find_member perm client_data) [
  | none ↦ none
  | some av ↦ elim (validate_as_bool av) [
    | err e ↦ none
    | ok a ↦
        if a
        then some (with_status 403 (codes "You are not allowed to take this action."))
        else none
  ]
]
