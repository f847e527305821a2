-- ===== src/Cookbook/Store/Frees.antt =====
-- cookbook/cookbook.go: which of the hashes of a version `deleteHashes` spares.
use goiardi.Base.{
  ℕ, suc, ◌+◌, ◌≡◌, refl, ap, ◌∙◌, subst, Bool, true, false, not, ◌&&◌, ◌||◌, Option, none, some,
  List, [], ◌∷◌, ◌++◌, ◌==◌, ==_iff, nat_eq, list_eq, if◌then◌else◌, arith, contains, Bool-cases,
  inl, inr, All, All-map, take, drop, >>=-eq-some,
}
use goiardi.Base.Text.{Text, codes, text_ltb, text_ltb_trans, text_ltb-asymm, text_ltb-nless_trans}
use goiardi.Base.Sort.{sort, sort-IsSorted, contains-sort}
use goiardi.Datastore.{Gob, DataStore}
use goiardi.Datastore
use goiardi.Datastore.Keys.{LacksColon}
use goiardi.Datastore.NilArrays.{Reflect}
use goiardi.Objects.{Cookbook, CookbookVersion, Object}
use goiardi.Filestore
use goiardi.Filestore.Keeps.{delete_hashes-others}
use goiardi.Filestore.Laws.{IsFiled, delete_hashes_lem, not_found}
use goiardi.Util.Strings.{del_slice_element, del_two_pos_elements, IsStrict, remove_dup_strings_lem}
use goiardi.Cookbook.Versions.{sorted_versions}
use goiardi.Cookbook.Store
use goiardi.Cookbook.Store.{
  all_hashes, file_hashes, place_of, strike_at, strike, strike_all, strike_versions,
}

-- `strike`, in one pass.
without : Text → List Text → List Text
without vh [] = []
without vh (fh ∷ fs) =
    let rest = without vh fs in
    if fh == vh then fs else if text_ltb vh fh then fh ∷ fs else fh ∷ rest

strike_at-cons :
    (p : Option ℕ) (fh : Text) (fs : List Text)
    → strike_at (elim p [ none ↦ none | some i ↦ some (suc i) ]) (fh ∷ fs) ≡ fh ∷ strike_at p fs
unfolding strike_at del_slice_element del_two_pos_elements
strike_at-cons none fh fs = refl
strike_at-cons (some i) fh fs = ap (λ k. fh ∷ (take i fs ++ drop_of k)) suc_out
  where
    drop_of : ℕ → List Text
    drop_of k = drop k (fh ∷ fs)

    suc_out : suc i + 1 ≡ suc (i + 1)
    suc_out = omega arith

strike-eq-without : (fs : List Text) (vh : Text) → strike fs vh ≡ without vh fs
unfolding strike place_of without strike_at del_slice_element del_two_pos_elements
strike-eq-without [] vh = refl
strike-eq-without (fh ∷ fs) vh = elim (Bool-cases (fh == vh)) [
  | inl same ↦ rw (same, strike) refl
  | inr differ ↦ elim (Bool-cases (text_ltb vh fh)) [
    | inl past ↦ rw (differ, past, strike) refl
    | inr more ↦
        rw (differ, more, strike)
          (strike_at-cons (place_of vh fs) fh fs ∙ ap (◌∷◌ fh) (strike-eq-without fs vh))
  ]
]

absent-above :
    (vh : Text) (fs : List Text) → All (λ y. text_ltb vh y ≡ true) fs → contains fs vh ≡ false
absent-above vh [] h = refl
absent-above vh (y ∷ fs) h =
    ground (arith, ==_iff y vh, text_ltb-asymm vh y, h.0, absent-above vh fs h.1)

contains-without :
    (vh a : Text) (fs : List Text)
    → IsStrict fs
    → contains (without vh fs) a ≡ (not (vh == a) && contains fs a)
unfolding without IsStrict
contains-without vh a [] h = ground arith
contains-without vh a (fh ∷ fs) h = elim (Bool-cases (fh == vh)) [
  | inl same ↦ rw same (
      ground (
        arith,
        absent-above vh fs
            (subst (λ x. All (λ y. text_ltb x y ≡ true) fs) ((==_iff fh vh).0 same) h.0),
        ==_iff fh vh,
        ==_iff fh a,
        ==_iff vh a,
      ))
  | inr differ ↦ elim (Bool-cases (text_ltb vh fh)) [
    | inl past ↦
        rw (differ, past)
          (ground (
            arith,
            absent-above vh (fh ∷ fs) (past, All-map (λ y p. text_ltb_trans vh fh y past p) fs h.0),
            ==_iff vh a,
          ))
    | inr more ↦
        rw (differ, more)
          (ground (arith, contains-without vh a fs h.1, ==_iff fh vh, ==_iff fh a, ==_iff vh a))
  ]
]

without-All : (P : Text → Type 0) (vh : Text) (fs : List Text) → All P fs → All P (without vh fs)
unfolding without
without-All P vh [] h = tt
without-All P vh (fh ∷ fs) h = elim (Bool-cases (fh == vh)) [
  | inl same ↦ rw same h.1
  | inr differ ↦ elim (Bool-cases (text_ltb vh fh)) [
    | inl past ↦ rw (differ, past) h
    | inr more ↦ rw (differ, more) (h.0, without-All P vh fs h.1)
  ]
]

without-IsStrict : (vh : Text) (fs : List Text) → IsStrict fs → IsStrict (without vh fs)
unfolding without IsStrict
without-IsStrict vh [] h = tt
without-IsStrict vh (fh ∷ fs) h = elim (Bool-cases (fh == vh)) [
  | inl same ↦ rw same h.1
  | inr differ ↦ elim (Bool-cases (text_ltb vh fh)) [
    | inl past ↦ rw (differ, past) h
    | inr more ↦ rw (differ, more) (without-All _ vh fs h.0, without-IsStrict vh fs h.1)
  ]
]

strike_all-lem :
    (fs vs : List Text)
    → IsStrict fs
    → IsStrict (strike_all fs vs)
      × ((a : Text) → contains (strike_all fs vs) a ≡ (contains fs a && not (contains vs a)))
unfolding strike_all
strike_all-lem fs [] h = (h, λ a. ground arith)
strike_all-lem fs (vh ∷ vs) h =
    let (strict, has) = strike_all-lem (without vh fs) vs (without-IsStrict vh fs h) in
    rw (strike-eq-without fs vh) (strict, λ a. has a ∙ ground (arith, contains-without vh a fs h))

-- Whether a hash is one of the files of some version.
unfoldable pub in_versions : List CookbookVersion → Text → Bool
in_versions [] a = false
in_versions (ver ∷ versions) a = contains (all_hashes ver) a || in_versions versions a

file_hashes-lem :
    (cbv : CookbookVersion)
    → IsStrict (file_hashes cbv)
      × ((a : Text) → contains (file_hashes cbv) a ≡ contains (all_hashes cbv) a)
unfolding file_hashes
file_hashes-lem cbv =
    let sorted = sort-IsSorted text_ltb text_ltb-asymm text_ltb-nless_trans (all_hashes cbv) in
    let (strict, has) = remove_dup_strings_lem (sort text_ltb (all_hashes cbv)) sorted in
    (strict, λ a. has a ∙ contains-sort text_ltb (all_hashes cbv) a)

strike_versions-lem :
    (fs : List Text) (versions : List CookbookVersion)
    → IsStrict fs
    → IsStrict (strike_versions fs versions)
      × ((a : Text)
          → contains (strike_versions fs versions) a
            ≡ (contains fs a && not (in_versions versions a)))
unfolding strike_versions in_versions
strike_versions-lem fs [] h = (h, λ a. ground arith)
strike_versions-lem fs (ver ∷ versions) h =
    let (strict, has) = strike_all-lem fs (file_hashes ver) h in
    let (strict', has') = strike_versions-lem (strike_all fs (file_hashes ver)) versions strict in
    let (_, same) = file_hashes-lem ver in (strict', λ a. has' a ∙ ground (arith, has a, same a))

module _ ⦃r : Reflect Object⦄ ⦃rv : Reflect CookbookVersion⦄ (g : Gob Object) where
  open g use {Bytes}

  -- Whether a hash is one of the files of some cookbook, where `c` stands for its stored copy.
  unfoldable pub in_cookbooks : Cookbook → List Cookbook → Text → Bool
  unfolding in_versions
  in_cookbooks c [] a = false
  in_cookbooks c (cb ∷ ac) a =
      let listed = sorted_versions (if cb.name == c.name then c else cb) in
      in_versions (listed.1) a || in_cookbooks c ac a

  strike_cookbooks-lem :
      (c : Cookbook) (fs : List Text) (ac : List Cookbook)
      → IsStrict fs
      → (a : Text)
      → contains (Store.strike_cookbooks g c fs ac) a ≡ (contains fs a && not (in_cookbooks c ac a))
  unfolding Store.strike_cookbooks in_cookbooks
  strike_cookbooks-lem c fs [] h a = ground arith
  strike_cookbooks-lem c fs (cb ∷ ac) h a =
      let listed = sorted_versions (if cb.name == c.name then c else cb) in
      let (strict, has) = strike_versions-lem fs (listed.1) h in
      strike_cookbooks-lem c (strike_versions fs (listed.1)) ac strict a ∙ ground (arith, has a)

  -- `deleteHashes` for the files of a version returns if the cookbooks can be read and each stored
  -- file is under its own checksum. Then the files of the version that no listed version of any
  -- cookbook has are gone, and every other file is what it was.
  pub delete_hashes-file_hashes :
      (ds : DataStore Bytes) (c : Cookbook) (cbv : CookbookVersion) (ac : List Cookbook)
      → Store.all_cookbooks g ds ≡ some ac
      → IsFiled g ds
      → (ds' : DataStore Bytes) × (Store.delete_hashes g ds c (file_hashes cbv) ≡ some ds')
        × ((k : Text)
            → Filestore.get g ds' k ≡ (
                if contains (all_hashes cbv) k && not (in_cookbooks c ac k)
                then not_found k
                else Filestore.get g ds k))
  unfolding Store.delete_hashes
  delete_hashes-file_hashes ds c cbv ac e h =
      let (strict, same) = file_hashes-lem cbv in
      let (ds', d, _, gets) =
        delete_hashes_lem g ds (Store.strike_cookbooks g c (file_hashes cbv) ac) h in
      (
        ds',
        rw e d,
        λ k.
            gets k
            ∙ ap (λ b. if b then not_found k else Filestore.get g ds k)
                (strike_cookbooks-lem c (file_hashes cbv) ac strict k
                  ∙ ap (λ b. b && not (in_cookbooks c ac k)) (same k)),
      )

  -- `deleteHashes` leaves the objects of every type but that of files as they are.
  pub delete_hashes-objects :
      (ds : DataStore Bytes) {ds' : DataStore Bytes} (c : Cookbook) (hs : List Text) (t k : Text)
      → LacksColon t
      → (codes "filestore" == t) ≡ false
      → Store.delete_hashes g ds c hs ≡ some ds'
      → Datastore.get g ds' t k ≡ Datastore.get g ds t k
  unfolding Store.delete_hashes
  delete_hashes-objects ds c hs t k lacks other h =
      let (ac, _, h1) = >>=-eq-some (Store.all_cookbooks g ds) _ h in
      delete_hashes-others g ds (Store.strike_cookbooks g c hs ac) t k lacks other h1
