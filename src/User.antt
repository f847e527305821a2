-- ===== src/User.antt =====
-- user/user.go: users in the in-memory mode, with no external secrets. Hashing a password and
-- drawing a salt are parameters.
pub mod Fields
pub mod Laws
use goiardi.Base.{
  ℕ, suc, zero, Bool, true, false, not, ◌&&◌, ◌||◌, Option, none, some, List, [], ◌∷◌, ◌++◌, ◌==◌,
  nat_eq, list_eq, nat_beq, if◌then◌else◌, ltb, length, contains, ◌>>=◌,
}
use goiardi.Base.Text.{Text, codes}
use goiardi.Datastore.{Gob, DataStore}
use goiardi.Datastore
use goiardi.Datastore.NilArrays.{Reflect, Value, null, Members}
use goiardi.Objects.{User, Object, a_user, Result, ok, err, errorf, Gerror}
use goiardi.Util.Members.{find_member, get_member}
use goiardi.Util.Validations.{validate_user_name, validate_as_string, validate_as_bool}
use goiardi.Client.{with_status, invalid_key}
use Fields.{valid_elements, put_passwd, put_admin}

-- `validateUserName`.
unfoldable pub check_user_name : Text → Option Gerror
unfolding validate_user_name
check_user_name name =
    if validate_user_name name then none else some (errorf (codes "Field 'name' invalid"))

unfoldable pub new_user : Text → Option Text → User
new_user name salt = record {
  username = name;
  name = name;
  email = [];
  admin = false;
  pub_key = [];
  passwd = [];
  salt = salt;
}

module _ ⦃r : Reflect Object⦄ (g : Gob Object) where
  open g use {Bytes}

  unfoldable pub found_user : Text → Option Object → Option (Result User)
  found_user name none = some (err (errorf (codes "User " ++ (name ++ codes " not found"))))
  found_user name (some (a_user u)) = some (ok u)
  found_user name (some _) = none

  -- `Get`; the outer `none` is a panic of the type assertion, or the end of the process.
  unfoldable pub get : DataStore Bytes → Text → Option (Result User)
  unfolding found_user
  get ds name = Datastore.get g ds (codes "user") name >>= found_user name

  abbrev pub is_found : {A : Type 0} → Option A → Bool
  is_found none = false
  is_found (some a) = true

  -- `DoesExist`.
  unfoldable pub does_exist : DataStore Bytes → Text → Option Bool
  does_exist ds name = do u ← Datastore.get g ds (codes "user") name; some (is_found u)

  -- `New`, with the salt drawn.
  unfoldable pub make : DataStore Bytes → Result Text → Text → Option (Result User)
  unfolding does_exist check_user_name new_user
  make ds salt name = do
    found ← does_exist ds name
    some (
        if found
        then err (with_status 409 (codes "User '" ++ (name ++ codes "' already exists")))
        else elim (check_user_name name) [
          | some e ↦ err e
          | none ↦ elim salt [ err e ↦ err (errorf e.message) | ok s ↦ ok (new_user name (some s)) ]
        ])

  -- `GetList`.
  unfoldable pub get_list : DataStore Bytes → Option (List Text)
  get_list ds = Datastore.get_list ds (codes "user")

  -- The loop of `AllUsers`.
  unfoldable pub fetch_all : DataStore Bytes → List Text → Option (List User)
  unfolding get
  fetch_all ds [] = some []
  fetch_all ds (u ∷ user_list) = do
    us ← get ds u
    rest ← fetch_all ds user_list
    some (elim us [ err e ↦ rest | ok user ↦ user ∷ rest ])

  -- `AllUsers`.
  unfoldable pub all_users : DataStore Bytes → Option (List User)
  unfolding get_list fetch_all
  all_users ds = get_list ds >>= fetch_all ds

  -- `chkInMemClient`.
  unfoldable pub chk_in_mem_client : DataStore Bytes → Text → Option (Option Gerror)
  chk_in_mem_client ds name = do
    c ← Datastore.get g ds (codes "client") name
    some (
        if is_found c
        then some (
            with_status 409 (
              codes "a client named "
              ++ (name ++ codes " was found that would conflict with this user")))
        else none)

  -- The loop of `isLastAdmin`, which counts the admins.
  unfoldable pub num_admins : DataStore Bytes → List Text → Option ℕ
  unfolding get
  num_admins ds [] = some 0
  num_admins ds (u ∷ user_list) = do
    u1 ← get ds u
    n ← num_admins ds user_list
    some (elim u1 [ err e ↦ n | ok user ↦ if user.admin then suc n else n ])

  -- `isLastAdmin`.
  unfoldable pub is_last_admin : DataStore Bytes → User → Option Bool
  unfolding get_list num_admins
  is_last_admin ds u =
      if u.admin
      then (do user_list ← get_list ds; n ← num_admins ds user_list; some (nat_beq n 1))
      else some false

  -- `Save`.
  unfoldable pub save : DataStore Bytes → User → Option (DataStore Bytes × Option Gerror)
  unfolding chk_in_mem_client
  save ds u = do
    taken ← chk_in_mem_client ds u.username
    elim taken [
      | some e ↦ some (ds, some e)
      | none ↦ do ds' ← Datastore.set g ds (codes "user") u.username (a_user u); some (ds', none)
    ]

  -- `Delete`.
  unfoldable pub delete : DataStore Bytes → User → Option (DataStore Bytes × Option Gerror)
  unfolding is_last_admin
  delete ds u = do
    last ← is_last_admin ds u
    some (
        if last
        then (ds, some (errorf (codes "Cannot delete the last admin")))
        else (Datastore.delete ds (codes "user") u.username, none))

  -- `Rename`: the store, the user and the error. It deletes the old name from the clients.
  unfoldable pub rename :
      DataStore Bytes → User → Text → Option (DataStore Bytes × User × Option Gerror)
  rename ds u new_name = elim (check_user_name new_name) [
    | some e ↦ some (ds, u, some e)
    | none ↦ do
      last ← is_last_admin ds u
      if last
          then some (ds, u, some (with_status 403 (codes "Cannot rename the last admin")))
          else (do
            taken ← chk_in_mem_client ds new_name
            elim taken [
              | some e ↦ some (ds, u, some e)
              | none ↦ do
                found ← does_exist ds new_name
                some (
                    if found
                    then (
                      ds,
                      u,
                      some (
                          with_status 409 (
                            codes "User "
                            ++ (new_name
                                ++ (codes " already exists, cannot rename " ++ u.username)))),
                    )
                    else (
                      Datastore.delete ds (codes "client") u.username,
                      record u { username = new_name },
                      none,
                    ))
            ])
  ]

  -- `UpdateFromJSON`: the user as it is left, and the error. The password is set before "admin" is
  -- looked at.
  unfoldable pub update_from_json :
      DataStore Bytes
      → (Text → Option Text → Result Text)
      → User
      → Members
      → Option (User × Option Gerror)
  update_from_json ds hash u json_user =
      elim (validate_as_string (get_member (codes "name") json_user)) [
        | err e ↦ some (u, some e)
        | ok user_name ↦
            if not (u.username == user_name)
            then some (
              u,
              some (
                  errorf (
                    codes "User name "
                    ++ (u.username
                        ++ (codes " and " ++ (user_name ++ codes " from JSON do not match"))))),
            )
            else elim (invalid_key valid_elements json_user) [
              | some e ↦ some (u, some e)
              | none ↦ elim (put_passwd hash u (find_member (codes "password") json_user)) [
                | err e ↦ some (u, some e)
                | ok u' ↦ put_admin u' (is_last_admin ds u') (find_member (codes "admin") json_user)
              ]
            ]
      ]

  -- `NewFromJSON`.
  unfoldable pub new_from_json :
      DataStore Bytes
      → Result Text
      → (Text → Option Text → Result Text)
      → Members
      → Option (Result User)
  unfolding make update_from_json
  new_from_json ds salt hash json_user =
      elim (validate_as_string (get_member (codes "name") json_user)) [
        | err e ↦ some (err e)
        | ok user_name ↦ do
          made ← make ds salt user_name
          elim made [
            | err e ↦ some (err e)
            | ok u ↦ elim (find_member (codes "password") json_user) [
              | none ↦ some (err (errorf (codes "Field 'password' missing")))
              | some p ↦ do
                (u', e) ← update_from_json ds hash u json_user
                some (elim e [ some e' ↦ err e' | none ↦ ok u' ])
            ]
          ]
      ]

-- The permissions of a user, where `use_auth` is the configuration's.
unfoldable pub is_admin : Bool → User → Bool
is_admin use_auth u = if not use_auth then true else u.admin

-- `CheckPermEdit`.
unfoldable pub check_perm_edit : Members → Text → Option Gerror
unfolding find_member validate_as_bool
check_perm_edit user_data perm = elim (find_member perm user_data) [
  | none ↦ none
  | some av ↦ elim (validate_as_bool av) [
    | err e ↦ none
    | ok a ↦
        if a
        then some (with_status 403 (codes "You are not allowed to take this action."))
        else none
  ]
]
