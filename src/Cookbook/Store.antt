-- ===== src/Cookbook/Store.antt =====
-- cookbook/cookbook.go: cookbooks in the data store, and the file hashes that a deleted version
-- leaves behind. The outer `none` is a panic, or the end of the process.
pub mod Frees
pub mod Deletes
use goiardi.Base.{
  ℕ, zero, suc, Bool, true, false, not, Option, none, some, List, [], ◌∷◌, ◌++◌, ◌==◌, nat_eq,
  list_eq, if◌then◌else◌, ◌>>=◌,
}
use goiardi.Base.Text.{Text, codes, text_ltb}
use goiardi.Base.Dict.{Dict, erase}
use goiardi.Base.Sort.{sort}
use goiardi.Datastore.{Gob, DataStore}
use goiardi.Datastore
use goiardi.Datastore.NilArrays.{Reflect, Value, string, Members}
use goiardi.Objects.{
  Cookbook, CookbookVersion, Division, Object, a_cookbook, Result, ok, err, errorf, Gerror,
}
use goiardi.Filestore
use goiardi.Util.Members.{get_member}
use goiardi.Util.Strings.{del_slice_element, remove_dup_strings}
use goiardi.Util.Validations.{validate_name}
use goiardi.Cookbook.Versions.{sorted_versions, get_version}

-- `v["checksum"]` if it is a string; the slot stays empty otherwise.
unfoldable pub checksum_of : Value → Text
checksum_of (string h) = h
checksum_of _ = []

-- `getAttrHashes`.
unfoldable pub get_attr_hashes : Division → List Text
unfolding checksum_of get_member
get_attr_hashes none = []
get_attr_hashes (some []) = []
get_attr_hashes (some (v ∷ attr)) =
    checksum_of (get_member (codes "checksum") v) ∷ get_attr_hashes (some attr)

-- The slice that `fileHashes` gathers.
unfoldable pub all_hashes : CookbookVersion → List Text
unfolding get_attr_hashes
all_hashes cbv =
    get_attr_hashes cbv.definitions
    ++ (get_attr_hashes cbv.libraries
        ++ (get_attr_hashes cbv.attributes
            ++ (get_attr_hashes cbv.recipes
                ++ (get_attr_hashes cbv.providers
                    ++ (get_attr_hashes cbv.resources
                        ++ (get_attr_hashes cbv.templates
                            ++ (get_attr_hashes cbv.root_files ++ get_attr_hashes cbv.files)))))))

-- `fileHashes`.
unfoldable pub file_hashes : CookbookVersion → List Text
unfolding all_hashes
file_hashes cbv = remove_dup_strings (sort text_ltb (all_hashes cbv))

-- Where the inner loop of `deleteHashes` removes an element, if it does.
unfoldable pub place_of : Text → List Text → Option ℕ
place_of vh [] = none
place_of vh (fh ∷ fhashes) =
    let later = place_of vh fhashes in
    if fh == vh
    then some 0
    else if text_ltb vh fh
    then none
    else elim later [ none ↦ none | some i ↦ some (suc i) ]

unfoldable pub strike_at : Option ℕ → List Text → List Text
strike_at none fhashes = fhashes
strike_at (some i) fhashes = del_slice_element i fhashes

-- That loop.
unfoldable pub strike : List Text → Text → List Text
unfolding place_of strike_at
strike fhashes vh = strike_at (place_of vh fhashes) fhashes

-- The loop over `verHash`.
unfoldable pub strike_all : List Text → List Text → List Text
unfolding strike
strike_all fhashes [] = fhashes
strike_all fhashes (vh ∷ ver_hash) = strike_all (strike fhashes vh) ver_hash

-- The loop over the versions of a cookbook.
unfoldable pub strike_versions : List Text → List CookbookVersion → List Text
unfolding strike_all file_hashes
strike_versions fhashes [] = fhashes
strike_versions fhashes (ver ∷ versions) =
    strike_versions (strike_all fhashes (file_hashes ver)) versions

module _ ⦃r : Reflect Object⦄ ⦃rv : Reflect CookbookVersion⦄ (g : Gob Object) where
  open g use {Bytes}

  unfoldable pub found_cookbook : Option Object → Option (Option Cookbook)
  found_cookbook none = some none
  found_cookbook (some (a_cookbook c)) = some (some c)
  found_cookbook (some _) = none

  -- `Get`; not found is the inner `none`.
  unfoldable pub get : DataStore Bytes → Text → Option (Option Cookbook)
  unfolding found_cookbook
  get ds name = do c ← Datastore.get g ds (codes "cookbook") name; found_cookbook c

  -- `DoesExist`.
  unfoldable pub does_exist : DataStore Bytes → Text → Option Bool
  does_exist ds cookbook_name = do
    found ← Datastore.get g ds (codes "cookbook") cookbook_name
    some (elim found [ none ↦ false | some c ↦ true ])

  -- `New`, which makes the error for a name in use and does not return it.
  unfoldable pub new_cookbook : DataStore Bytes → Text → Option (Result Cookbook)
  new_cookbook ds name =
      let looked_up = Datastore.get g ds (codes "cookbook") name in
      if not (validate_name name)
      then some (
          err (
            errorf (
              codes "Invalid cookbook name '"
              ++ (name
                  ++ codes
                      "' using regex: 'Malformed cookbook name. Must only contain A-Z, a-z, 0-9, _ or -'."))))
      else looked_up >>= (λ found. some (ok (record { name = name; versions = []; latest = none })))

  -- `Save`.
  unfoldable pub save : DataStore Bytes → Cookbook → Option (DataStore Bytes)
  save ds c = Datastore.set g ds (codes "cookbook") c.name (a_cookbook c)

  -- `Delete`.
  unfoldable pub delete : DataStore Bytes → Cookbook → DataStore Bytes
  delete ds c = Datastore.delete ds (codes "cookbook") c.name

  -- `GetList`.
  unfoldable pub get_list : DataStore Bytes → Option (List Text)
  get_list ds = Datastore.get_list ds (codes "cookbook")

  -- The loop of `AllCookbooks`.
  unfoldable pub fetch_all : DataStore Bytes → List Text → Option (List Cookbook)
  unfolding get
  fetch_all ds [] = some []
  fetch_all ds (c ∷ cookbook_list) = do
    cb ← get ds c
    rest ← fetch_all ds cookbook_list
    some (elim cb [ none ↦ rest | some cookbook ↦ cookbook ∷ rest ])

  -- `AllCookbooks`.
  unfoldable pub all_cookbooks : DataStore Bytes → Option (List Cookbook)
  unfolding get_list fetch_all
  all_cookbooks ds = do cookbook_list ← get_list ds; fetch_all ds cookbook_list

  -- The outer loop of `deleteHashes`, where the cookbook `c` itself stands for its stored copy.
  unfoldable pub strike_cookbooks : Cookbook → List Text → List Cookbook → List Text
  unfolding strike_versions
  strike_cookbooks c fhashes [] = fhashes
  strike_cookbooks c fhashes (cb ∷ ac) =
      let cb' = if cb.name == c.name then c else cb in
      let listed = sorted_versions cb' in strike_cookbooks c (strike_versions fhashes (listed.1)) ac

  -- `deleteHashes`.
  unfoldable pub delete_hashes : DataStore Bytes → Cookbook → List Text → Option (DataStore Bytes)
  unfolding all_cookbooks strike_cookbooks
  delete_hashes ds c fhashes = do
    ac ← all_cookbooks ds
    Filestore.delete_hashes g ds (strike_cookbooks c fhashes ac)

  -- `DeleteVersion` after `GetVersion`.
  unfoldable pub delete_found :
      DataStore Bytes
      → Cookbook
      → Text
      → Result CookbookVersion
      → Option (DataStore Bytes × Cookbook × Option Gerror)
  unfolding delete_hashes file_hashes save
  delete_found ds c cb_version (err e) = some (
    ds,
    c,
    some (record {
      message =
          codes "Version "
          ++ (cb_version
              ++ (codes " of cookbook " ++ (c.name ++ codes " does not exist to be deleted.")));
      status = 404;
    }),
  )
  delete_found ds c cb_version (ok cbv) = do
    let fhashes = file_hashes cbv
    let c' = record c { versions = erase cb_version c.versions }
    ds' ← save ds c'
    ds'' ← delete_hashes ds' c' fhashes
    some (ds'', c', none)

  -- `DeleteVersion`; `latest` stays what it was.
  unfoldable pub delete_version :
      DataStore Bytes → Cookbook → Text → Option (DataStore Bytes × Cookbook × Option Gerror)
  unfolding delete_found
  delete_version ds c cb_version = do
    (c', res) ← get_version c cb_version
    delete_found ds c' cb_version res
