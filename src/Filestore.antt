-- ===== src/Filestore.antt =====
-- filestore/filestore.go: uploaded files under their checksums, in the in-memory store. No local
-- directory is configured (`LocalFstoreDir` is empty), which is the default.
pub mod Laws
pub mod New
pub mod Keeps
use goiardi.Base.{
  ℕ, zero, suc, Bool, true, false, not, Option, none, some, List, [], ◌∷◌, ◌++◌, ◌==◌, nat_eq,
  list_eq, if◌then◌else◌, ltb, nat_beq, length, take, ◌>>=◌,
}
use goiardi.Base.Text.{Text, codes}
use goiardi.Datastore.{Gob, DataStore}
use goiardi.Base.Decimal.{format_int}
use goiardi.Datastore
use goiardi.Datastore.NilArrays.{Reflect}
use goiardi.Objects.{FileStore, Object, a_file, Result, ok, err, errorf}

unfoldable pub or_empty : Option Text → Text
or_empty none = []
or_empty (some d) = d

-- Whether a file is stored whose bytes are not those of the upload.
unfoldable pub is_other : Result FileStore → Text → Bool
unfolding or_empty
is_other (err e) file_data = false
is_other (ok f) file_data = not (file_data == or_empty f.data_bytes)

module _ ⦃r : Reflect Object⦄ (g : Gob Object) where
  open g use {Bytes}

  -- `Get` makes a nil pointer one to an empty slice.
  unfoldable pub fill_data : FileStore → FileStore
  unfolding or_empty
  fill_data f = record f { data_bytes = some (or_empty f.data_bytes) }

  -- The object that `Get` finds; the outer `none` is a panic of the type assertion, or the end
  -- of the process.
  unfoldable pub found_file : Text → Option Object → Option (Result FileStore)
  unfolding fill_data
  found_file chksum none =
      some (err (errorf (codes "File with checksum " ++ (chksum ++ codes " not found"))))
  found_file chksum (some (a_file f)) = some (ok (fill_data f))
  found_file chksum (some _) = none

  -- `Get`.
  unfoldable pub get : DataStore Bytes → Text → Option (Result FileStore)
  unfolding found_file
  get ds chksum = do f ← Datastore.get g ds (codes "filestore") chksum; found_file chksum f

  -- The part of `New` that follows `Get`: `md5_hex` is the printed checksum of crypto/md5.
  unfoldable pub check_new : (Text → Text) → Text → Text → ℕ → Result FileStore → Result FileStore
  unfolding is_other
  check_new md5_hex chksum content data_length f =
      let file_data = take data_length content in
      if ltb (length content) data_length
      then err (
          errorf (
            codes "Only read "
            ++ (format_int (length content)
                ++ (codes " bytes (out of "
                    ++ (format_int data_length
                        ++ (codes ", supposedly) from io.ReadCloser: "
                            ++ (if nat_beq (length content) 0
                                then codes "EOF"
                                else codes "unexpected EOF")))))))
      else if is_other f file_data
      then err (errorf (codes "File with checksum " ++ (chksum ++ codes " already exists.")))
      else if md5_hex file_data == chksum
      then ok (record { chksum = chksum; data_bytes = some file_data })
      else err (
          errorf (
            codes "Checksum "
            ++ (md5_hex file_data ++ (codes " did not match original " ++ (chksum ++ codes "!")))))

  -- `New`; a negative length, at which `make` panics, is left out.
  unfoldable pub new_file :
      (Text → Text) → DataStore Bytes → Text → Text → ℕ → Option (Result FileStore)
  unfolding get check_new
  new_file md5_hex ds chksum content data_length = do
    f ← get ds chksum
    some (check_new md5_hex chksum content data_length f)

  -- `Save`.
  unfoldable pub save : DataStore Bytes → FileStore → Option (DataStore Bytes)
  save ds f = Datastore.set g ds (codes "filestore") f.chksum (a_file f)

  -- `Delete`.
  unfoldable pub delete : DataStore Bytes → FileStore → DataStore Bytes
  delete ds f = Datastore.delete ds (codes "filestore") f.chksum

  -- `DeleteHashes`.
  unfoldable pub delete_hashes : DataStore Bytes → List Text → Option (DataStore Bytes)
  unfolding get delete
  delete_hashes ds [] = some ds
  delete_hashes ds (ff ∷ file_hashes) = do
    del_file ← get ds ff
    let ds' : DataStore Bytes = elim del_file [ err e ↦ ds | ok f ↦ delete ds f ]
    d ← get ds' ff
    delete_hashes ds' file_hashes

  -- `GetList`.
  unfoldable pub get_list : DataStore Bytes → Option (List Text)
  get_list ds = Datastore.get_list ds (codes "filestore")

  -- The loop of `AllFilestores`.
  unfoldable pub fetch_all : DataStore Bytes → List Text → Option (List FileStore)
  unfolding get
  fetch_all ds [] = some []
  fetch_all ds (f ∷ file_list) = do
    fl ← get ds f
    rest ← fetch_all ds file_list
    some (elim fl [ err e ↦ rest | ok file ↦ file ∷ rest ])

  -- `AllFilestores`.
  unfoldable pub all_filestores : DataStore Bytes → Option (List FileStore)
  unfolding get_list fetch_all
  all_filestores ds = do file_list ← get_list ds; fetch_all ds file_list
