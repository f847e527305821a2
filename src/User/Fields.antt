-- ===== src/User/Fields.antt =====
-- user/user.go: passwords, and the fields that `UpdateFromJSON` sets.
use goiardi.Base.{
  Bool, true, false, not, ◌&&◌, Option, none, some, List, [], ◌∷◌, ◌==◌, nat_eq, list_eq,
  if◌then◌else◌, ltb, length, ◌>>=◌,
}
use goiardi.Base.Text.{Text, codes}
use goiardi.Datastore.NilArrays.{Value, null}
use goiardi.Objects.{User, Result, ok, err, errorf, Gerror}
use goiardi.Util.Validations.{validate_as_string, validate_as_bool}
use goiardi.Client.{with_status}

unfoldable pub valid_elements : List Text
valid_elements =
    codes "username"
    ∷ codes "name"
    ∷ codes "org_name"
    ∷ codes "public_key"
    ∷ codes "private_key"
    ∷ codes "admin"
    ∷ codes "password"
    ∷ codes "email"
    ∷ codes "salt"
    ∷ codes "chef_type"
    ∷ codes "display_name"
    ∷ codes "json_class"
    ∷ codes "openid"
    ∷ []

-- `SetPasswd`, with `HashPasswd` as `hash`.
unfoldable pub set_passwd : (Text → Option Text → Result Text) → User → Text → Result User
set_passwd hash u password =
    if ltb (length password) 6
    then err (errorf (codes "Password must have at least 6 characters"))
    else elim (hash password u.salt) [
      | err e ↦ err (errorf e.message)
      | ok pw ↦ ok (record u { passwd = pw })
    ]

-- `CheckPasswd`: the error, if any.
unfoldable pub check_passwd : (Text → Option Text → Result Text) → User → Text → Option Gerror
check_passwd hash u password = elim (hash password u.salt) [
  | err e ↦ some (errorf e.message)
  | ok h ↦ if not (u.passwd == h) then some (errorf (codes "password did not match")) else none
]

-- `SetPasswdHash`.
unfoldable pub set_passwd_hash : User → Text → User
set_passwd_hash u pwhash = if not (pwhash == []) then record u { passwd = pwhash } else u

abbrev pub not_null : Value → Bool
not_null null = false
not_null _ = true

-- The value of "password" in `UpdateFromJSON`: the user with it, or the error.
unfoldable pub put_passwd : (Text → Option Text → Result Text) → User → Option Value → Result User
unfolding validate_as_string set_passwd
put_passwd hash u none = ok u
put_passwd hash u (some v) = if not (not_null v) then ok u else elim (validate_as_string v) [
  | err e ↦ err e
  | ok passwd ↦ if passwd == [] then ok u else set_passwd hash u passwd
]

-- The value of "admin", with `last` what `isLastAdmin` says: the user as it is left, and the error.
unfoldable pub put_admin : User → Option Bool → Option Value → Option (User × Option Gerror)
unfolding validate_as_bool
put_admin u last none = some (u, none)
put_admin u last (some v) = elim (validate_as_bool v) [
  | err e ↦ some (u, some (errorf (codes "Field 'admin' invalid")))
  | ok ab ↦
      if u.admin && not ab
      then last >>= (λ is_last. some (
          if is_last
          then (u, some (with_status 403 (codes "Cannot remove admin status from the last admin")))
          else (record u { admin = ab }, none)))
      else some (record u { admin = ab }, none)
]
