-- ===== src/User/Laws.antt =====
-- user/user.go: a user that is renamed and saved.
use goiardi.Base.{
  ℕ, ◌∷◌, ◌≡◌, refl, ap, sym, ◌∙◌, Bool, true, false, ◌&&◌, Option, none, some, ◌==◌, ==_refl,
  nat_eq, list_eq, list_beq, if◌then◌else◌, arith, Bool-cases, inl, inr, ==_iff, ◌>>=◌,
}
use goiardi.Base.Text.{Text, codes}
use goiardi.Datastore.{Gob, DataStore}
use goiardi.Datastore
use goiardi.Datastore.Keys.{LacksColon}
use goiardi.Datastore.Laws.{get-set, get-delete}
use goiardi.Datastore.NilArrays.{Reflect, chk_nil_array}
use goiardi.Objects.{User, Object, a_user, ok}
use goiardi.Shovey.Jobs.Runs.{set-some}
use goiardi.User.{
  get, found_user, check_user_name, is_last_admin, chk_in_mem_client, does_exist, rename, save,
}

user_type : LacksColon (codes "user")
unfolding list_eq list_beq
user_type = refl

client_type : LacksColon (codes "client")
unfolding list_eq list_beq
client_type = refl

apart : (codes "client" == codes "user") ≡ false
unfolding list_eq list_beq
apart = refl

same_branch : {A : Type 0} (t : Bool) (x : A) → (if t then x else x) ≡ x
same_branch true x = refl
same_branch false x = refl

-- gob encodes a user and keeps the fields of one that has a salt, by way of the exported ones of
-- `privUser`. A slice with nothing in it comes back as a nil one, which is unexported in `User` and
-- cannot be filled again: of such a user nothing is said.
pub record KeepsUsers ⦃r : Reflect Object⦄ (g : Gob Object) : Type 0 where
  pub encodes : (u : User) → (b : g.Bytes) × (g.encode (a_user u) ≡ some b)
  pub keeps :
      (u : User) (c : ℕ) (salt : Text)
      → u.salt ≡ some (c ∷ salt)
      → chk_nil_array (g.kept (a_user u)) ≡ a_user u

module _ ⦃r : Reflect Object⦄ (g : Gob Object) where
  open g use {Bytes}

  -- A name that no user has is not that of a user.
  other_name :
      (ds : DataStore Bytes) (u : User) (new_name : Text)
      → get g ds u.username ≡ some (ok u)
      → Datastore.get g ds (codes "user") new_name ≡ some none
      → (new_name == u.username) ≡ false
  unfolding get found_user
  other_name ds u new_name h free = elim (Bool-cases (new_name == u.username)) [
    | inl e ↦
        let gone =
          ap (Datastore.get g ds (codes "user")) (sym ((==_iff new_name u.username).0 e)) ∙ free in
        ground (arith, rw gone at h)
    | inr e ↦ e
  ]

  -- The new name is no client's after `Rename` either.
  still_free :
      (ds : DataStore Bytes) (old new_name : Text)
      → Datastore.get g ds (codes "client") new_name ≡ some none
      → Datastore.get g (Datastore.delete ds (codes "client") old) (codes "client") new_name
        ≡ some none
  still_free ds old new_name free =
      get-delete g ds (codes "client") old (codes "client") new_name client_type client_type
      ∙ rw free (same_branch ((codes "client" == codes "client") && (old == new_name)) (some none))

  -- Users are as before.
  kept_users :
      (ds : DataStore Bytes) (old n : Text)
      → get g (Datastore.delete ds (codes "client") old) n ≡ get g ds n
  unfolding get
  kept_users ds old n =
      rw (get-delete g ds (codes "client") old (codes "user") n client_type user_type, apart) refl

  found_after :
      (u : User) (n : Text) (t : Bool) (old : Option (Option Object))
      → ((if t then some (some (a_user u)) else old) >>= found_user g n)
        ≡ (if t then some (ok u) else (old >>= found_user g n))
  unfolding found_user
  found_after u n true old = refl
  found_after u n false old = refl

  get-saved :
      KeepsUsers g
      → (ds : DataStore Bytes) {ds' : DataStore Bytes} (u : User) (c : ℕ) (salt : Text)
        (name n : Text)
      → u.salt ≡ some (c ∷ salt)
      → Datastore.set g ds (codes "user") name (a_user u) ≡ some ds'
      → get g ds' n ≡ (if name == n then some (ok u) else get g ds n)
  unfolding get
  get-saved k ds u c salt name n salted h =
      rw
        (
          get-set g ds (codes "user") name (codes "user") n (a_user u) h user_type user_type,
          ==_refl (codes "user"),
          k.keeps u c salt salted,
        )
        (found_after u n (name == n) _)

  -- Where gob keeps users with a salt, if such a user is stored and is not the last admin, and no user and no client
  -- has a new name that is valid, `Rename` and `Save` return no error, and then the user is there
  -- under the new name and still under the old one.
  pub rename-save :
      KeepsUsers g
      → (ds : DataStore Bytes) (u : User) (c : ℕ) (salt : Text) (new_name : Text)
      → u.salt ≡ some (c ∷ salt)
      → get g ds u.username ≡ some (ok u)
      → is_last_admin g ds u ≡ some false
      → check_user_name new_name ≡ none
      → Datastore.get g ds (codes "user") new_name ≡ some none
      → Datastore.get g ds (codes "client") new_name ≡ some none
      → (ds' ds'' : DataStore Bytes) × (rename g ds u new_name
          ≡ some (ds', record u { username = new_name }, none))
        × (save g ds' (record u { username = new_name }) ≡ some (ds'', none))
        × (get g ds'' new_name ≡ some (ok (record u { username = new_name })))
        × (get g ds'' u.username ≡ some (ok u))
  unfolding rename save chk_in_mem_client does_exist
  rename-save k ds u c salt new_name salted there last valid free_user free_client =
      let u' : User = record u { username = new_name } in
      let ds' : DataStore Bytes = Datastore.delete ds (codes "client") u.username in
      let (ds'', h) = set-some g ds' (codes "user") new_name (a_user u') (k.encodes u') in
      (
        ds',
        ds'',
        rw (valid, rename, last, free_client, free_user) refl,
        rw (still_free ds u.username new_name free_client, h) refl,
        get-saved k ds' u' c salt new_name new_name salted h ∙ rw (==_refl new_name) refl,
        get-saved k ds' u' c salt new_name u.username salted h
            ∙ rw (other_name ds u new_name there free_user)
                (kept_users ds u.username u.username ∙ there),
      )
