-- ===== src/Filestore/New.antt =====
-- filestore/filestore.go: which uploads `New` accepts.
use goiardi.Base.{
  ℕ, ◌≤◌, ◌≡◌, ◌⊎◌, ◌↔◌, refl, ap, sym, ◌∙◌, Bool, true, false, not, Option, none, some, ◌==◌,
  ==_refl, ==_iff, nat_eq, list_eq, ltb, length, take, arith, inl, inr, ◌>>=◌,
}
use goiardi.Base.Text.{Text, codes}
use goiardi.Datastore.{Gob, DataStore}
use goiardi.Datastore
use goiardi.Datastore.NilArrays.{Reflect}
use goiardi.Objects.{FileStore, Object, a_file, Result, ok}
use goiardi.Filestore
use goiardi.Filestore.Laws.{missing, not_found}

-- What a file that `New` makes holds.
pub record IsVerified (md5_hex : Text → Text) (chksum content : Text) (data_length : ℕ)
    (f : FileStore) : Type 0 where
  pub named : f.chksum ≡ chksum
  pub whole : f.data_bytes ≡ some (take data_length content)
  pub long_enough : data_length ≤ length content
  pub intact : md5_hex (take data_length content) ≡ chksum

is_other-stored :
    (old : FileStore) (d file_data : Text)
    → old.data_bytes ≡ some d
    → Filestore.is_other (ok old) file_data ≡ not (file_data == d)
unfolding Filestore.is_other Filestore.or_empty
is_other-stored old d file_data whole = rw whole refl

not-inv : (b : Bool) → not b ≡ false → b ≡ true
not-inv true h = refl
not-inv false h = sym h

some_inj : {x y : Result FileStore} → some x ≡ some y → x ≡ y
some_inj e = ground (arith, e)

module _ ⦃r : Reflect Object⦄ (g : Gob Object) where
  open g use {Bytes}

  check_new_lem :
      (md5_hex : Text → Text) (chksum content : Text) (data_length : ℕ) (old : Result FileStore)
      (f : FileStore)
      → (Filestore.check_new g md5_hex chksum content data_length old ≡ ok f) ↔ (
          IsVerified md5_hex chksum content data_length f
          × (Filestore.is_other old (take data_length content) ≡ false))
  unfolding Filestore.check_new
  check_new_lem md5_hex chksum content n old f = (accepted, accepts)
    where
      file_data : Text
      file_data = take n content

      made : FileStore
      made = record { chksum = chksum; data_bytes = some file_data }

      is_made :
          Filestore.check_new g md5_hex chksum content n old ≡ ok f
          → (ltb (length content) n ≡ false)
            × (Filestore.is_other old file_data ≡ false)
            × ((md5_hex file_data == chksum) ≡ true)
            × (made ≡ f)
      is_made h = ground arith

      accepted :
          Filestore.check_new g md5_hex chksum content n old ≡ ok f
          → IsVerified md5_hex chksum content n f × (Filestore.is_other old file_data ≡ false)
      accepted h =
          let (long, same, intact, e) = is_made h in
          (
            record {
              named = ap (λ (x : FileStore). x.chksum) (sym e);
              whole = ap (λ (x : FileStore). x.data_bytes) (sym e);
              long_enough = ground arith;
              intact = (==_iff (md5_hex file_data) chksum).0 intact;
            },
            same,
          )

      accepts :
          IsVerified md5_hex chksum content n f × (Filestore.is_other old file_data ≡ false)
          → Filestore.check_new g md5_hex chksum content n old ≡ ok f
      accepts (v, same) =
          rw (same, (==_iff (md5_hex file_data) chksum).1 v.intact, long)
            (rw⁻¹ (v.named, v.whole) refl)
        where
          long : ltb (length content) n ≡ false
          long = ground (arith, v.long_enough)

  -- What `Get` can return: a panic, the error of a file that is not there, or a file with its bytes.
  abbrev Outcome : Text → Option (Result FileStore) → Type 0
  Outcome k found =
      (found ≡ none)
      ⊎ ((found ≡ not_found k)
          ⊎ ((old : FileStore) × (d : Text) × (found ≡ some (ok old)) × (old.data_bytes ≡ some d)))

  found_file-Outcome : (k : Text) (o : Option Object) → Outcome k (Filestore.found_file g k o)
  unfolding Filestore.found_file Filestore.fill_data
  found_file-Outcome k none = inr (inl refl)
  found_file-Outcome k (some (a_file f)) = inr (inr (Filestore.fill_data g f, _, refl, refl))
  found_file-Outcome k (some _) = inl refl

  get-Outcome : (ds : DataStore Bytes) (k : Text) → Outcome k (Filestore.get g ds k)
  unfolding Filestore.get
  get-Outcome ds k = through (Datastore.get g ds (codes "filestore") k)
    where
      through : (m : Option (Option Object)) → Outcome k (m >>= Filestore.found_file g k)
      through none = inl refl
      through (some o) = found_file-Outcome k o

  -- `Get` finds nothing under a checksum, or a file that has the given content.
  abbrev pub HasNoOther : DataStore Bytes → Text → Text → Type 0
  HasNoOther ds k file_data =
      (Filestore.get g ds k ≡ not_found k)
      ⊎ ((old : FileStore) × (Filestore.get g ds k ≡ some (ok old))
          × (old.data_bytes ≡ some file_data))

  -- `New` accepts an upload exactly if the content has the bytes announced, their checksum is the
  -- one given, and `Get` finds no file of that checksum or one with the same bytes; the new file
  -- then holds these bytes.
  pub new_file_lem :
      (md5_hex : Text → Text) (ds : DataStore Bytes) (chksum content : Text) (data_length : ℕ)
      (f : FileStore)
      → (Filestore.new_file g md5_hex ds chksum content data_length ≡ some (ok f)) ↔ (
          IsVerified md5_hex chksum content data_length f
          × HasNoOther ds chksum (take data_length content))
  unfolding Filestore.new_file Filestore.is_other
  new_file_lem md5_hex ds chksum content n f = (accepted (get-Outcome ds chksum), accepts)
    where
      lem :
          (old : Result FileStore)
          → (Filestore.check_new g md5_hex chksum content n old ≡ ok f) ↔ (
              IsVerified md5_hex chksum content n f
              × (Filestore.is_other old (take n content) ≡ false))
      lem old = check_new_lem md5_hex chksum content n old f

      ran :
          (found : Result FileStore)
          → Filestore.get g ds chksum ≡ some found
          → Filestore.new_file g md5_hex ds chksum content n
            ≡ some (Filestore.check_new g md5_hex chksum content n found)
      ran found e = rw (e, Filestore.new_file) refl

      accepted :
          Outcome chksum (Filestore.get g ds chksum)
          → Filestore.new_file g md5_hex ds chksum content n ≡ some (ok f)
          → IsVerified md5_hex chksum content n f × HasNoOther ds chksum (take n content)
      accepted (inl e) h = ground (arith, rw (e, Filestore.new_file) at h)
      accepted (inr (inl e)) h =
          (((lem (missing chksum)).0 (some_inj (sym (ran (missing chksum) e) ∙ h))).0, inl e)
      accepted (inr (inr (old, d, e, whole))) h =
          let (v, same) = (lem (ok old)).0 (some_inj (sym (ran (ok old) e) ∙ h)) in
          let equal =
            not-inv (take n content == d)
              (sym (is_other-stored old d (take n content) whole) ∙ same) in
          (v, inr (old, e, whole ∙ ap some (sym ((==_iff (take n content) d).0 equal))))

      accepts :
          IsVerified md5_hex chksum content n f × HasNoOther ds chksum (take n content)
          → Filestore.new_file g md5_hex ds chksum content n ≡ some (ok f)
      accepts (v, inl e) = ran (missing chksum) e ∙ ap some ((lem (missing chksum)).1 (v, refl))
      accepts (v, inr (old, e, whole)) =
          let same : Filestore.is_other (ok old) (take n content) ≡ false =
            is_other-stored old (take n content) (take n content) whole
            ∙ ap not (==_refl (take n content)) in
          ran (ok old) e ∙ ap some ((lem (ok old)).1 (v, same))
