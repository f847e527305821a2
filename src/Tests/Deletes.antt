-- ===== src/Tests/Deletes.antt =====
-- Tests of cookbook/: the files that go with a deleted version.
use goiardi.Base.{
  ◌≢◌, ◌≡◌, refl, true, not, ◌&&◌, none, some, [], ◌∷◌, ◌==◌, nat_eq, list_eq, list_beq,
  if◌then◌else◌, contains, arith, Bool-cases, inl, inr, ==_iff,
}
use goiardi.Base.Text.{Text, codes, join, text_ltb}
use goiardi.Base.Dict.{insert, lookup}
use goiardi.Base.Sort.{sort}
use goiardi.Datastore.{
  set, add_to_list, Gob, DataStore, sealed, make_key, get, open_entry, get_list, get_list_between,
  fill,
}
use goiardi.Datastore.NilArrays.{chk_nil_array}
use goiardi.Objects.{Object, a_file, a_cookbook, Cookbook, CookbookVersion}
use goiardi.Filestore
use goiardi.Filestore.Laws.{IsFiled, not_found}
use goiardi.Cookbook.Store
use goiardi.Cookbook.Store.{file_hashes, all_hashes}
use goiardi.Cookbook.Store.Deletes.{without_version, IsDeleted, delete_version_lem}
use goiardi.Cookbook.Store.Frees.{delete_hashes-file_hashes, in_cookbooks}
use goiardi.Tests.{Blob, one, test_gob, no_fields}
use goiardi.Tests.Cookbooks.{apt, with_files, file_named}

abbrev object_gob : Gob Object
object_gob = test_gob (λ v. true)

abbrev store : DataStore (Blob Object)
store = record {
  dsc =
      (codes "cookbook:apt", sealed (one (a_cookbook apt)))
      ∷ (
        codes "filestore:x",
        sealed (one (a_file (record { chksum = codes "x"; data_bytes = some [] }))),
      )
      ∷ [];
  obj_list = (codes "cookbook", (codes "apt", true) ∷ []) ∷ [];
  updated = true;
}

store-IsFiled : IsFiled object_gob store
unfolding Filestore.get Filestore.found_file Filestore.fill_data Filestore.or_empty get make_key
    join lookup list_eq list_beq open_entry chk_nil_array
store-IsFiled k = elim (Bool-cases (codes "x" == k)) [
  | inl own ↦ rw own (
      inr (record { chksum = codes "x"; data_bytes = some [] }, refl, (==_iff (codes "x") k).0 own))
  | inr other ↦ rw other (inl refl)
]

-- The cookbook after its version 1.2.0 is deleted.
abbrev smaller : Cookbook
smaller = record apt {
  versions = (codes "1.10.0", with_files (codes "1.10.0") (file_named (codes "y") ∷ [])) ∷ [];
}

delete_hashes-file_hashes_example :
    (ds' : DataStore (Blob Object)) × (Store.delete_hashes object_gob store smaller
        (file_hashes (with_files (codes "1.2.0") (file_named (codes "x") ∷ [])))
      ≡ some ds')
    × ((k : Text)
        → Filestore.get object_gob ds' k ≡ (
            if contains (all_hashes (with_files (codes "1.2.0") (file_named (codes "x") ∷ []))) k
              && not (in_cookbooks object_gob smaller (apt ∷ []) k)
            then not_found k
            else Filestore.get object_gob store k))
unfolding Store.all_cookbooks get_list get_list_between fill sort text_ltb get make_key join lookup
    list_eq list_beq open_entry chk_nil_array
delete_hashes-file_hashes_example =
    delete_hashes-file_hashes object_gob store smaller
      (with_files (codes "1.2.0") (file_named (codes "x") ∷ [])) (apt ∷ []) refl store-IsFiled

abbrev apt120 : CookbookVersion
apt120 = with_files (codes "1.2.0") (file_named (codes "x") ∷ [])

abbrev apt_after : Cookbook
apt_after = without_version object_gob apt (codes "1.2.0") apt120

abbrev store_after : DataStore (Blob Object)
store_after = record store {
  dsc =
      (codes "cookbook:apt", sealed (one (a_cookbook apt_after)))
      ∷ (
        codes "filestore:x",
        sealed (one (a_file (record { chksum = codes "x"; data_bytes = some [] }))),
      )
      ∷ [];
}

store_after-IsFiled : IsFiled object_gob store_after
unfolding Filestore.get Filestore.found_file Filestore.fill_data Filestore.or_empty get make_key
    join lookup list_eq list_beq open_entry chk_nil_array
store_after-IsFiled k = elim (Bool-cases (codes "x" == k)) [
  | inl own ↦ rw own (
      inr (record { chksum = codes "x"; data_bytes = some [] }, refl, (==_iff (codes "x") k).0 own))
  | inr other ↦ rw other (inl refl)
]

not_latest : codes "1.2.0" ≢ codes "_latest"
not_latest e = ground (arith, e)

delete_version_lem_example :
    (ds'' : DataStore (Blob Object)) × (Store.delete_version object_gob store apt (codes "1.2.0")
      ≡ some (ds'', apt_after, none))
    × IsDeleted object_gob store ds'' apt (codes "1.2.0") apt120 (apt_after ∷ [])
unfolding Store.save Store.all_cookbooks set add_to_list insert get_list get_list_between fill sort
    text_ltb get make_key join lookup list_eq list_beq open_entry chk_nil_array
delete_version_lem_example =
    delete_version_lem object_gob store store_after apt (codes "1.2.0") apt120 (apt_after ∷ [])
      not_latest refl refl refl store_after-IsFiled
