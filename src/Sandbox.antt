-- ===== src/Sandbox.antt =====
-- sandbox/sandbox.go: the lists of checksums that an upload works off, in the in-memory store, with
-- no S3 upload configured.
pub mod Purge
pub mod Laws
use goiardi.Base.{
  ℕ, zero, suc, ◌-◌, ◌+◌, ◌/◌, Bool, true, false, not, Option, none, some, List, [], ◌∷◌, ◌++◌,
  ◌==◌, nat_eq, list_eq, if◌then◌else◌, ltb, length, take, get_elem?, ◌>>=◌,
}
use goiardi.Base.Text.{Text, codes}
use goiardi.Base.Dict.{Dict, insert, keys}
use goiardi.Base.Sort.{sort}
use goiardi.Datastore.{Gob, DataStore}
use goiardi.Datastore
use goiardi.Datastore.NilArrays.{Reflect, Value}
use goiardi.Objects.{Sandbox, Object, a_sandbox, Result, ok, err, errorf}
use goiardi.Filestore

-- `ByDate.Less`.
unfoldable pub by_date_less : Sandbox → Sandbox → Bool
by_date_less a b = ltb a.creation_time b.creation_time

-- `sort.Search` between `i` and `j`, on fuel.
unfoldable pub search_between : ℕ → (ℕ → Bool) → ℕ → ℕ → ℕ
search_between zero f i j = i
search_between (suc fuel) f i j =
    let h = (i + j) / 2 in
    let upper = search_between fuel f (h + 1) j in
    let lower = search_between fuel f i h in if ltb i j then if f h then lower else upper else i

-- `sort.Search`.
unfoldable pub search : ℕ → (ℕ → Bool) → ℕ
unfolding search_between
search n f = search_between n f 0 n

-- Whether the sandbox at an index is not older than `t`.
unfoldable pub is_recent : ℕ → List Sandbox → ℕ → Bool
is_recent t sandboxes i = elim (get_elem? sandboxes i) [
  | none ↦ true
  | some s ↦ not (ltb s.creation_time t)
]

-- How many of the sorted sandboxes `Purge` deletes, with `t` the time before which they are too old.
unfoldable pub purge_count : ℕ → List Sandbox → ℕ
unfolding search is_recent
purge_count t [] = 0
purge_count t (s ∷ sandboxes) =
    if ltb t s.creation_time
    then 0
    else search (length (s ∷ sandboxes)) (is_recent t (s ∷ sandboxes))

-- The status of one checksum in `UploadChkList`.
pub record ChkStat : Type 0 where
  pub needs_upload : Bool
  pub url : Option Text

module _ ⦃r : Reflect Object⦄ (g : Gob Object) where
  open g use {Bytes}

  unfoldable pub found_sandbox : Text → Option Object → Option (Result Sandbox)
  found_sandbox id none = some (err (errorf (codes "Sandbox " ++ (id ++ codes " not found"))))
  found_sandbox id (some (a_sandbox s)) = some (ok s)
  found_sandbox id (some _) = none

  -- `Get`; the outer `none` is a panic of the type assertion, or the end of the process.
  unfoldable pub get : DataStore Bytes → Text → Option (Result Sandbox)
  unfolding found_sandbox
  get ds sandbox_id = do
    s ← Datastore.get g ds (codes "sandbox") sandbox_id
    found_sandbox sandbox_id s

  -- One round of the loop of `New` with the id drawn, or with the error of the draw; `again` is
  -- what the rounds after it return.
  unfoldable pub try_id :
      DataStore Bytes → Option (Result Text) → Option Text → Option (Result Text)
  unfolding get
  try_id ds again none = some (err (errorf (codes "unexpected EOF")))
  try_id ds again (some sandbox_id) = do
    s ← get ds sandbox_id
    elim s [ ok old ↦ again | err e ↦ some (ok sandbox_id) ]

  -- That loop, over the ids that `generateSandboxID` draws with `n` rounds left: a new id, or an
  -- error if each one collides.
  unfoldable pub fresh_id : DataStore Bytes → ℕ → (ℕ → Option Text) → Option (Result Text)
  unfolding try_id
  fresh_id ds zero draw =
      some (
        err (errorf (codes "Somehow every attempt to create a unique sandbox id failed. Bailing.")))
  fresh_id ds (suc n) draw = let again = fresh_id ds n draw in try_id ds again (draw n)

  -- `New` at a given time.
  unfoldable pub new_sandbox :
      DataStore Bytes → ℕ → (ℕ → Option Text) → Dict Text Value → Option (Result Sandbox)
  unfolding fresh_id
  new_sandbox ds now draw checksum_hash = do
    sandbox_id ← fresh_id ds 5 draw
    some (elim sandbox_id [
      | err e ↦ err e
      | ok id ↦ ok (record {
        id = id;
        creation_time = now;
        completed = false;
        checksums = keys checksum_hash;
      })
    ])

  -- `Save`.
  unfoldable pub save : DataStore Bytes → Sandbox → Option (DataStore Bytes)
  save ds s = Datastore.set g ds (codes "sandbox") s.id (a_sandbox s)

  -- `Delete`.
  unfoldable pub delete : DataStore Bytes → Sandbox → DataStore Bytes
  delete ds s = Datastore.delete ds (codes "sandbox") s.id

  -- `GetList`.
  unfoldable pub get_list : DataStore Bytes → Option (List Text)
  get_list ds = Datastore.get_list ds (codes "sandbox")

  -- Whether a checksum is in the file store.
  unfoldable pub is_uploaded : DataStore Bytes → Text → Option Bool
  is_uploaded ds chk = do k ← Filestore.get g ds chk; some (elim k [ ok f ↦ true | err e ↦ false ])

  -- The loop of `UploadChkList`; `custom_url` is `util.CustomURL`.
  unfoldable pub chk_stats :
      (Text → Text) → DataStore Bytes → List Text → Dict Text ChkStat → Option (Dict Text ChkStat)
  unfolding is_uploaded
  chk_stats custom_url ds [] stats = some stats
  chk_stats custom_url ds (chk ∷ chks) stats = do
    n ← is_uploaded ds chk
    let item_url = custom_url (codes "/file_store/" ++ chk)
    chk_stats custom_url ds chks (
        insert chk (record { needs_upload = not n; url = if n then none else some item_url }) stats)

  -- `UploadChkList`.
  unfoldable pub upload_chk_list :
      (Text → Text) → DataStore Bytes → Sandbox → Option (Dict Text ChkStat)
  unfolding chk_stats
  upload_chk_list custom_url ds s = chk_stats custom_url ds s.checksums []

  -- The loop of `IsComplete`: no error (here `true`), or that of the first checksum not uploaded.
  unfoldable pub chks_complete : DataStore Bytes → Text → List Text → Option (Result Bool)
  unfolding is_uploaded
  chks_complete ds id [] = some (ok true)
  chks_complete ds id (chk ∷ chks) = do
    uploaded ← is_uploaded ds chk
    let rest = chks_complete ds id chks
    if uploaded
        then rest
        else some (
            err (
              errorf (
                codes "Checksum "
                ++ (chk
                    ++ (codes " not uploaded yet, "
                        ++ (id ++ codes " not complete, cannot commit yet."))))))

  -- `IsComplete`.
  unfoldable pub is_complete : DataStore Bytes → Sandbox → Option (Result Bool)
  unfolding chks_complete
  is_complete ds s = chks_complete ds s.id s.checksums

  -- The loop of `AllSandboxes`.
  unfoldable pub fetch_all : DataStore Bytes → List Text → Option (List Sandbox)
  unfolding get
  fetch_all ds [] = some []
  fetch_all ds (s ∷ sandbox_list) = do
    sb ← get ds s
    rest ← fetch_all ds sandbox_list
    some (elim sb [ err e ↦ rest | ok sandbox ↦ sandbox ∷ rest ])

  -- `AllSandboxes`.
  unfoldable pub all_sandboxes : DataStore Bytes → Option (List Sandbox)
  unfolding get_list fetch_all
  all_sandboxes ds = do sandbox_list ← get_list ds; fetch_all ds sandbox_list

  -- The loop that deletes in `Purge`.
  unfoldable pub delete_all : DataStore Bytes → List Sandbox → DataStore Bytes
  delete_all ds [] = ds
  delete_all ds (s ∷ sandboxes) = delete_all (Datastore.delete ds (codes "sandbox") s.id) sandboxes

  -- `Purge`.
  unfoldable pub purge : DataStore Bytes → ℕ → Option (DataStore Bytes × ℕ)
  unfolding all_sandboxes purge_count delete_all by_date_less
  purge ds t = do
    sandboxes ← all_sandboxes ds
    let sorted = sort by_date_less sandboxes
    let j = purge_count t sorted
    some (delete_all ds (take j sorted), j)
