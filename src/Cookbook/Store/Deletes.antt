-- ===== src/Cookbook/Store/Deletes.antt =====
-- cookbook/cookbook.go: `DeleteVersion` as a whole.
use goiardi.Base.{
  ◌≡◌, ◌≢◌, refl, ap, ◌∙◌, false, list_beq, not, ◌&&◌, none, some, List, ◌==◌, ==_ne, nat_eq,
  list_eq, if◌then◌else◌, arith, contains,
}
use goiardi.Base.Text.{Text, codes}
use goiardi.Base.Dict.{lookup, insert, erase, lookup-insert, lookup-erase}
use goiardi.Datastore.{Gob, DataStore}
use goiardi.Datastore
use goiardi.Datastore.Keys.{LacksColon}
use goiardi.Datastore.Laws.{get-set}
use goiardi.Datastore.NilArrays.{Reflect, chk_nil_array}
use goiardi.Objects.{Cookbook, CookbookVersion, Object, a_cookbook}
use goiardi.Filestore
use goiardi.Filestore.Keeps.{file_type}
use goiardi.Filestore.Laws.{IsFiled, not_found}
use goiardi.Cookbook.Versions.{get_version, fill_recipes}
use goiardi.Cookbook.Store
use goiardi.Cookbook.Store.{all_hashes, file_hashes}
use goiardi.Cookbook.Store.Frees.{delete_hashes-file_hashes, delete_hashes-objects, in_cookbooks}

cookbook_type : LacksColon (codes "cookbook")
unfolding list_eq list_beq
cookbook_type = refl

apart : (codes "cookbook" == codes "filestore") ≡ false
unfolding list_eq list_beq
apart = refl

module _ ⦃r : Reflect Object⦄ ⦃rv : Reflect CookbookVersion⦄ (g : Gob Object) where
  open g use {Bytes}

  -- A version as `GetVersion` finds it, and the cookbook without it.
  abbrev pub found_version : CookbookVersion → CookbookVersion
  found_version cbv = fill_recipes (chk_nil_array cbv)

  abbrev pub without_version : Cookbook → Text → CookbookVersion → Cookbook
  without_version c ver cbv = record c {
    versions = erase ver (insert ver (found_version cbv) c.versions);
  }

  -- What `DeleteVersion` leaves of the cookbook and of the store that `ds` was.
  pub record IsDeleted (ds ds'' : DataStore Bytes) (c : Cookbook) (ver : Text)
      (cbv : CookbookVersion) (ac : List Cookbook) : Type 0 where
    pub versions :
        (j : Text)
        → lookup j (without_version c ver cbv).versions
          ≡ (if ver == j then none else lookup j c.versions)
    pub objects :
        (t k : Text)
        → LacksColon t
        → (codes "filestore" == t) ≡ false
        → Datastore.get g ds'' t k ≡ (
            if (codes "cookbook" == t) && (c.name == k)
            then some (some (chk_nil_array (g.kept (a_cookbook (without_version c ver cbv)))))
            else Datastore.get g ds t k)
    pub files :
        (k : Text)
        → Filestore.get g ds'' k ≡ (
            if contains (all_hashes (found_version cbv)) k
              && not (in_cookbooks g (without_version c ver cbv) ac k)
            then not_found k
            else Filestore.get g ds k)

  -- A cookbook that is saved leaves every file as it is.
  files-saved :
      (ds : DataStore Bytes) {ds' : DataStore Bytes} (c : Cookbook) (k : Text)
      → Store.save g ds c ≡ some ds'
      → Filestore.get g ds' k ≡ Filestore.get g ds k
  unfolding Store.save Filestore.get
  files-saved ds c k h =
      rw
        (
          get-set g ds (codes "cookbook") c.name (codes "filestore") k (a_cookbook c) h
              cookbook_type file_type,
          apart,
        )
        refl

  -- `DeleteVersion` of a version that the cookbook has, not named "_latest", returns without an
  -- error, if the cookbook can be saved, the cookbooks can then be read, and each stored file is
  -- under its own checksum. The store then has under the name of the cookbook what gob makes of it
  -- with every other version and not that one. Every other object that is no file is as before, if
  -- its type holds no colon, and of the files those of the version are deleted that no version of
  -- a cookbook still has.
  pub delete_version_lem :
      (ds ds' : DataStore Bytes) (c : Cookbook) (ver : Text) (cbv : CookbookVersion)
      (ac : List Cookbook)
      → ver ≢ codes "_latest"
      → lookup ver c.versions ≡ some cbv
      → Store.save g ds (without_version c ver cbv) ≡ some ds'
      → Store.all_cookbooks g ds' ≡ some ac
      → IsFiled g ds'
      → (ds'' : DataStore Bytes) × (Store.delete_version g ds c ver
          ≡ some (ds'', without_version c ver cbv, none))
        × IsDeleted ds ds'' c ver cbv ac
  unfolding Store.delete_version Store.delete_found get_version Store.save
  delete_version_lem ds ds' c ver cbv ac ne found saved all filed =
      let c' : Cookbook = without_version c ver cbv in
      let (ds'', d, gets) = delete_hashes-file_hashes g ds' c' (found_version cbv) ac all filed in
      (
        ds'',
        rw (==_ne ver (codes "_latest") ne, found, get_version, saved, d) refl,
        record {
          versions = λ j. ground (
            arith,
            lookup-erase j ver (insert ver (found_version cbv) c.versions),
            lookup-insert j ver (found_version cbv) c.versions,
          );
          objects = λ t k lacks other.
              delete_hashes-objects g ds' c' (file_hashes (found_version cbv)) t k lacks other d
              ∙ get-set g ds (codes "cookbook") c.name t k (a_cookbook c') saved cookbook_type
                  lacks;
          files = λ k.
              gets k
              ∙ ap
                  (λ x.
                    if contains (all_hashes (found_version cbv)) k && not (in_cookbooks g c' ac k)
                    then not_found k
                    else x)
                  (files-saved ds c' k saved);
        },
      )
