-- ===== src/Util/Validations/Metadata.antt =====
-- util/validations.go: `ValidateCookbookMetadata` and `ValidateCookbookDivision`. Where the code
-- ranges over a map, the first bad value in the map's order makes the error.
use goiardi.Base.{
  not, ◌&&◌, Option, none, some, List, [], ◌∷◌, ◌++◌, ◌==◌, nat_eq, list_eq, if◌then◌else◌, ltb,
  nat_beq, ◌>>=◌,
}
use goiardi.Base.Text.{Text, codes}
use goiardi.Datastore.{Gob, DataStore}
use goiardi.Datastore.NilArrays.{
  Reflect, Value, null, string, nil_items, items, members, Members, none_left, member, Items, end,
  item,
}
use goiardi.Objects.{Object, Result, ok, err, errorf, Gerror}
use goiardi.Filestore
use goiardi.Util.Members.{find_member, get_member, set_member, count_members}
use goiardi.Util.Validations.{
  validate_as_version, validate_as_constraint, validate_as_string, validate_name,
}

abbrev field_error : Text → Gerror
field_error v = errorf (codes "Field 'metadata." ++ (v ++ codes "' invalid"))

-- The check of the version; `none` is no error.
unfoldable pub check_version : Option Value → Option Gerror
unfolding validate_as_version
check_version none = some (errorf (codes "Field 'metadata.version' missing"))
check_version (some null) = none
check_version (some (string mv)) = elim (validate_as_version (string mv)) [
  | err merr ↦ some (errorf (codes "Field 'metadata.version' invalid"))
  | ok ver ↦ none
]
check_version (some _) = some (errorf (codes "Field 'metadata.version' invalid"))

-- One round of the loop over `strchk`.
unfoldable pub check_string : Text → Value → Members → Result Members
unfolding validate_name
check_string v (string sv) mdata =
    if (v == codes "name") && not (validate_name sv) then err (field_error v) else ok mdata
check_string v null mdata =
    if v == codes "long_description" then ok (set_member v (string []) mdata) else ok mdata
check_string v _ mdata = err (field_error v)

abbrev pub strchk : List Text
strchk =
    codes "maintainer"
    ∷ codes "name"
    ∷ codes "description"
    ∷ codes "maintainer_email"
    ∷ codes "long_description"
    ∷ codes "license"
    ∷ []

unfoldable pub check_strings : List Text → Members → Result Members
unfolding check_string get_member
check_strings [] mdata = ok mdata
check_strings (v ∷ vs) mdata = elim (check_string v (get_member v mdata) mdata) [
  | err e ↦ err e
  | ok mdata' ↦ check_strings vs mdata'
]

-- One value of a hash; `fakeout` is `%v` of it. `none` is no error.
unfoldable pub check_hash_value : (Value → Text) → Text → Value → Option Gerror
unfolding validate_as_constraint validate_as_version
check_hash_value print v (string s) = elim (validate_as_constraint (string s)) [
  | ok b ↦ none
  | err serr ↦ elim (validate_as_version (string s)) [
    | ok ver ↦ none
    | err serr' ↦ some (errorf (codes "Invalid value '" ++ (s ++ (codes "' for metadata." ++ v))))
  ]
]
check_hash_value print v (members m) =
    if not (v == codes "groupings")
    then some (errorf (codes "Invalid value '{[]}' for metadata." ++ v))
    else none
check_hash_value print v j =
    let fakeout = if print j == codes "map[]" then codes "{[]}" else print j in
    some (errorf (codes "Invalid value '" ++ (fakeout ++ (codes "' for metadata." ++ v))))

unfoldable pub check_hash_values : (Value → Text) → Text → Members → Option Gerror
unfolding check_hash_value
check_hash_values print v none_left = none
check_hash_values print v (member k j hv) = elim (check_hash_value print v j) [
  | some e ↦ some e
  | none ↦ check_hash_values print v hv
]

-- One round of the loop over `hashchk`.
unfoldable pub check_hash : (Value → Text) → Text → Value → Members → Result Members
unfolding check_hash_values
check_hash print v (members hv) mdata = elim (check_hash_values print v hv) [
  | some e ↦ err e
  | none ↦ ok mdata
]
check_hash print v null mdata =
    if v == codes "dependencies" then ok (set_member v (members none_left) mdata) else ok mdata
check_hash print v _ mdata = err (field_error v)

abbrev pub hashchk : List Text
hashchk =
    codes "platforms"
    ∷ codes "dependencies"
    ∷ codes "recommendations"
    ∷ codes "suggestions"
    ∷ codes "conflicting"
    ∷ codes "replacing"
    ∷ codes "groupings"
    ∷ []

unfoldable pub check_hashes : (Value → Text) → List Text → Members → Result Members
unfolding check_hash get_member
check_hashes print [] mdata = ok mdata
check_hashes print (v ∷ vs) mdata = elim (check_hash print v (get_member v mdata) mdata) [
  | err e ↦ err e
  | ok mdata' ↦ check_hashes print vs mdata'
]

-- `ValidateCookbookMetadata`; `print` is `%v` of the package fmt.
unfoldable pub validate_cookbook_metadata : (Value → Text) → Value → Result Members
unfolding check_version check_strings check_hashes find_member count_members
validate_cookbook_metadata print (members mdata) =
    if nat_beq (count_members mdata) 0
    then err (errorf (codes "Field 'metadata.version' missing"))
    else elim (check_version (find_member (codes "version") mdata)) [
      | some e ↦ err e
      | none ↦ elim (check_strings strchk mdata) [
        | err e ↦ err e
        | ok mdata' ↦ check_hashes print hashchk mdata'
      ]
    ]
validate_cookbook_metadata print _ = err (errorf (codes "bad metadata: chng msg"))

module _ ⦃r : Reflect Object⦄ (g : Gob Object) (custom_url : Text → Text) where
  abbrev missing_error : Text → Text → Gerror
  missing_error dname chksum =
      if dname == codes "recipes"
      then errorf (codes "Manifest has a checksum that hasn't been uploaded.")
      else errorf
          (codes "Manifest has checksum " ++ (chksum ++ codes " but it hasn't yet been uploaded"))

  -- A file of a division, by what its field `checksum` holds: one with no checksum is left out.
  unfoldable pub check_file :
      DataStore g.Bytes → Text → Members → Result Text → Option (Result (List Members))
  unfolding set_member
  check_file ds dname v (err cherr) = some (ok [])
  check_file ds dname v (ok chksum) = do
    uploaded ← Filestore.get g ds chksum
    some (elim uploaded [
      | err ferr ↦ err (missing_error dname chksum)
      | ok f ↦
          ok
            (set_member (codes "url") (string (custom_url (codes "/file_store/" ++ chksum))) v ∷ [])
    ])

  -- The loop over the files.
  unfoldable pub check_files : DataStore g.Bytes → Text → Items → Option (Result (List Members))
  unfolding check_file count_members get_member validate_as_string
  check_files ds dname end = some (ok [])
  check_files ds dname (item (members v) div) =
      let rest = check_files ds dname div in
      let file = check_file ds dname v (validate_as_string (get_member (codes "checksum") v)) in
      if ltb (count_members v) 4
      then some
          (err (errorf (codes "Invalid element in array value of '" ++ (dname ++ codes "'."))))
      else file >>= (λ f. elim f [
        | err e ↦ some (err e)
        | ok vs ↦ rest >>= (λ d. some (elim d [ err e ↦ err e | ok ws ↦ ok (vs ++ ws) ]))
      ])
  check_files ds dname (item _ div) =
      some (err (errorf (codes "Invalid element in array value of '" ++ (dname ++ codes "'."))))

  -- A slice that nothing was appended to is nil.
  unfoldable pub division_of : Result (List Members) → Result (Option (List Members))
  division_of (err e) = err e
  division_of (ok []) = ok none
  division_of (ok (v ∷ d)) = ok (some (v ∷ d))

  -- `ValidateCookbookDivision`, where a panic of the file store is `none`.
  unfoldable pub validate_cookbook_division :
      DataStore g.Bytes → Text → Value → Option (Result (Option (List Members)))
  unfolding check_files division_of
  validate_cookbook_division ds dname (items div) = do
    d ← check_files ds dname div
    some (division_of d)
  validate_cookbook_division ds dname nil_items = some (ok none)
  validate_cookbook_division ds dname null = some (ok none)
  validate_cookbook_division ds dname _ =
      some (err (errorf (codes "Field '" ++ (dname ++ codes "' invalid"))))
