-- ===== src/Tests/Uploads.antt =====
-- Tests of filestore/filestore.go and sandbox/sandbox.go.
use goiardi.Base.{
  ℕ, ◌≡◌, ◌↔◌, refl, true, false, some, [], ◌∷◌, ◌++◌, ◌==◌, ==_iff, nat_eq, list_eq, list_beq,
  take, Bool-cases, inl, inr,
}
use goiardi.Base.Text.{Text, codes, join, text_ltb}
use goiardi.Base.Dict.{lookup}
use goiardi.Base.Sort.{sort}
use goiardi.Datastore.{
  Gob, DataStore, sealed, make_key, get, open_entry, get_list_between, get_list, fill,
}
use goiardi.Datastore.NilArrays.{chk_nil_array}
use goiardi.Objects.{Object, a_file, a_sandbox, FileStore, Sandbox, ok}
use goiardi.Filestore
use goiardi.Filestore.Laws.{IsFiled}
use goiardi.Filestore.New.{IsVerified, HasNoOther, new_file_lem}
use goiardi.Sandbox
use goiardi.Sandbox.{by_date_less, purge_count}
use goiardi.Sandbox.Laws.{IsPurged, purge_lem}
use goiardi.Tests.{Blob, one, test_gob, no_fields}

abbrev object_gob : Gob Object
object_gob = test_gob (λ v. true)

-- Stands for the checksum of a content.
abbrev sum : Text → Text
sum content = codes "s" ++ content

abbrev file : FileStore
file = record { chksum = codes "sab"; data_bytes = some (codes "ab") }

abbrev empty : DataStore (Blob Object)
empty = record { dsc = []; obj_list = []; updated = true }

abbrev stored : DataStore (Blob Object)
stored = record {
  dsc = (codes "filestore:sab", sealed (one (a_file file))) ∷ [];
  obj_list = (codes "filestore", (codes "sab", true) ∷ []) ∷ [];
  updated = true;
}

-- The file is there already, with the same bytes.
new_file_lem_example :
    (Filestore.new_file object_gob sum stored (codes "sab") (codes "ab") 2 ≡ some (ok file)) ↔ (
      IsVerified sum (codes "sab") (codes "ab") 2 file
      × HasNoOther object_gob stored (codes "sab") (take 2 (codes "ab")))
new_file_lem_example = new_file_lem object_gob sum stored (codes "sab") (codes "ab") 2 file

stored-IsFiled : IsFiled object_gob stored
unfolding Filestore.get Filestore.found_file Filestore.fill_data Filestore.or_empty get make_key
    join lookup list_eq list_beq open_entry chk_nil_array
stored-IsFiled k = elim (Bool-cases (codes "sab" == k)) [
  | inl own ↦ rw own (inr (file, refl, (==_iff (codes "sab") k).0 own))
  | inr other ↦ rw other (inl refl)
]

abbrev old_box : Sandbox
old_box = record {
  id = codes "a";
  creation_time = 5;
  completed = false;
  checksums = codes "sab" ∷ [];
}

abbrev new_box : Sandbox
new_box = record {
  id = codes "b";
  creation_time = 9;
  completed = false;
  checksums = codes "no" ∷ [];
}

abbrev boxes : DataStore (Blob Object)
boxes = record {
  dsc =
      (codes "sandbox:b", sealed (one (a_sandbox new_box)))
      ∷ (codes "sandbox:a", sealed (one (a_sandbox old_box)))
      ∷ [];
  obj_list = (codes "sandbox", (codes "b", true) ∷ (codes "a", true) ∷ []) ∷ [];
  updated = true;
}

purge_lem_example :
    (ds' : DataStore (Blob Object)) × (j : ℕ) × (Sandbox.purge object_gob boxes 7 ≡ some (ds', j))
    × IsPurged object_gob boxes (old_box ∷ new_box ∷ []) 7 ds' j
unfolding Sandbox.all_sandboxes sort text_ltb fill get_list_between get_list get make_key join
    lookup list_eq list_beq open_entry chk_nil_array
purge_lem_example = purge_lem object_gob boxes (old_box ∷ new_box ∷ []) 7 refl

abbrev drawn : Sandbox
drawn = record {
  id = codes "c";
  creation_time = 11;
  completed = false;
  checksums = codes "sab" ∷ [];
}
