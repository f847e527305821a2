-- ===== src/Sandbox/Laws.antt =====
-- sandbox/sandbox.go: new ids, completion, and the store after `Purge`.
use goiardi.Base.{
  ℕ, zero, suc, ◌≡◌, ◌↔◌, refl, ap, sym, ◌∙◌, Bool, true, false, Option, none, some, List, [], ◌∷◌,
  ◌++◌, ◌==◌, ==_refl, nat_eq, list_eq, subst, if◌then◌else◌, ltb, length, take, filter, arith,
  contains, Bool-cases, inl, inr, All, ◌>>=◌, >>=-eq-some, map,
}
use mathlib.Core.Option.{some-injective}
use goiardi.Base.Text.{Text, codes}
use goiardi.Base.Dict.{Dict, keys}
use goiardi.Base.Sort.{sort, IsSorted, sort-IsSorted}
use goiardi.Datastore.{Gob, DataStore}
use goiardi.Datastore
use goiardi.Datastore.Laws.{get-delete}
use goiardi.Datastore.NilArrays.{Reflect, Value}
use goiardi.Objects.{Sandbox, Object, Result, ok, err, errorf, Gerror}
use goiardi.Sandbox
use goiardi.Sandbox.{by_date_less, purge_count}
use goiardi.Sandbox.Purge.{purge_count_lem, purge_count-eq-length}

abbrev pub not_found : Text → Option (Result Sandbox)
not_found id = some (err (errorf (codes "Sandbox " ++ (id ++ codes " not found"))))

abbrev pub ids : List Sandbox → List Text
ids = map (λ (s : Sandbox). s.id)

by_date-IsSorted : (l : List Sandbox) → IsSorted by_date_less (sort by_date_less l)
unfolding by_date_less
by_date-IsSorted l =
    sort-IsSorted by_date_less (λ a b h. ground arith) (λ a b c h k. ground arith) l

ok_inj : {a b : Sandbox} → ok a ≡ ok b → a ≡ b
ok_inj h = ground (arith, h)

complete_both :
    (u : Option Bool) (rest : Option (Result Bool)) (e : Gerror)
    → ((u >>= (λ b. if b then rest else some (err e))) ≡ some (ok true))
      ↔ ((u ≡ some true) × (rest ≡ some (ok true)))
complete_both none rest e = ground arith
complete_both (some true) rest e = ground arith
complete_both (some false) rest e = ground arith

module _ ⦃r : Reflect Object⦄ (g : Gob Object) where
  open g use {Bytes}

  get-delete_one :
      (ds : DataStore Bytes) (id k : Text)
      → Sandbox.get g (Datastore.delete ds (codes "sandbox") id) k
        ≡ (if id == k then not_found k else Sandbox.get g ds k)
  unfolding Sandbox.get Sandbox.found_sandbox
  get-delete_one ds id k =
      simp (get-delete g ds (codes "sandbox") id (codes "sandbox") k refl refl, ==_refl)
        (elim (Bool-cases (id == k)) [ inl own ↦ rw own refl | inr other ↦ rw other refl ])

  get-delete_all :
      (ds : DataStore Bytes) (l : List Sandbox) (k : Text)
      → Sandbox.get g (Sandbox.delete_all g ds l) k
        ≡ (if contains (ids l) k then not_found k else Sandbox.get g ds k)
  unfolding Sandbox.delete_all
  get-delete_all ds [] k = refl
  get-delete_all ds (s ∷ l) k =
      get-delete_all (Datastore.delete ds (codes "sandbox") s.id) l k
      ∙ ground (arith, get-delete_one ds s.id k)

  -- What a purge of everything made before `t` does to the store.
  pub record IsPurged (ds : DataStore Bytes) (sandboxes : List Sandbox) (t : ℕ)
      (ds' : DataStore Bytes) (j : ℕ) : Type 0 where
    pub counts : j ≡ length (filter (λ s. ltb s.creation_time t) (sort by_date_less sandboxes))
    pub gets :
        (k : Text)
        → Sandbox.get g ds' k ≡ (
            if contains (ids (filter (λ s. ltb s.creation_time t) (sort by_date_less sandboxes))) k
            then not_found k
            else Sandbox.get g ds k)

  -- If the sandboxes of the store can be read, `Purge` returns. It deletes those made before the
  -- given time and no others, and returns their number.
  pub purge_lem :
      (ds : DataStore Bytes) (sandboxes : List Sandbox) (t : ℕ)
      → Sandbox.all_sandboxes g ds ≡ some sandboxes
      → (ds' : DataStore Bytes) × (j : ℕ) × (Sandbox.purge g ds t ≡ some (ds', j))
        × IsPurged ds sandboxes t ds' j
  unfolding Sandbox.purge
  purge_lem ds sandboxes t e =
      let sorted = sort by_date_less sandboxes in
      let order = by_date-IsSorted sandboxes in
      let cut = purge_count_lem t sorted order in
      (
        Sandbox.delete_all g ds (take (purge_count t sorted) sorted),
        purge_count t sorted,
        rw e refl,
        record {
          counts = purge_count-eq-length t sorted order ∙ ap length cut;
          gets = λ k.
              get-delete_all ds (take (purge_count t sorted) sorted) k
              ∙ ap (λ l. if contains (ids l) k then not_found k else Sandbox.get g ds k) cut;
        },
      )

  -- A sandbox is complete exactly if each of its checksums is in the file store.
  pub is_complete_lem :
      (ds : DataStore Bytes) (s : Sandbox)
      → (Sandbox.is_complete g ds s ≡ some (ok true))
        ↔ All (λ chk. Sandbox.is_uploaded g ds chk ≡ some true) s.checksums
  unfolding Sandbox.is_complete Sandbox.chks_complete
  is_complete_lem ds s = each s.checksums
    where
      each :
          (chks : List Text)
          → (Sandbox.chks_complete g ds s.id chks ≡ some (ok true))
            ↔ All (λ chk. Sandbox.is_uploaded g ds chk ≡ some true) chks
      each [] = (λ h. tt, λ h. refl)
      each (chk ∷ chks) =
          let (there, back) =
            complete_both (Sandbox.is_uploaded g ds chk) (Sandbox.chks_complete g ds s.id chks) _ in
          (
            λ h. let (u, rest) = there h in (u, (each chks).0 rest),
            λ (u, rest). back (u, (each chks).1 rest),
          )

  try_id-unused :
      (ds : DataStore Bytes) (again : Option (Result Text)) (d : Option Text) (id : Text)
      → (again ≡ some (ok id) → (e : Gerror) × (Sandbox.get g ds id ≡ some (err e)))
      → Sandbox.try_id g ds again d ≡ some (ok id)
      → (e : Gerror) × (Sandbox.get g ds id ≡ some (err e))
  unfolding Sandbox.try_id
  try_id-unused ds again none id k h = absurd (ground (arith, h))
  try_id-unused ds again (some i) id k h =
      let (s, e, rest) = >>=-eq-some (Sandbox.get g ds i) _ h in by_result s e rest
    where
      by_result :
          (s : Result Sandbox)
          → Sandbox.get g ds i ≡ some s
          → elim s as (λ x. Option (Result Text)) [ ok old ↦ again | err x ↦ some (ok i) ]
            ≡ some (ok id)
          → (e : Gerror) × (Sandbox.get g ds id ≡ some (err e))
      by_result (ok old) e rest = k rest
      by_result (err x) e rest =
          (x, subst (λ j. Sandbox.get g ds j ≡ some (err x)) (ground (arith, rest)) e)

  fresh_id-unused :
      (ds : DataStore Bytes) (n : ℕ) (draw : ℕ → Option Text) (id : Text)
      → Sandbox.fresh_id g ds n draw ≡ some (ok id)
      → (e : Gerror) × (Sandbox.get g ds id ≡ some (err e))
  unfolding Sandbox.fresh_id
  fresh_id-unused ds zero draw id h = absurd (ground (arith, h))
  fresh_id-unused ds (suc n) draw id h =
      try_id-unused ds (Sandbox.fresh_id g ds n draw) (draw n) id (fresh_id-unused ds n draw id) h

  -- A sandbox that `New` makes at a time has that time, an id under which no sandbox is stored, and
  -- the given checksums, and it is not completed.
  pub new_sandbox_lem :
      (ds : DataStore Bytes) (now : ℕ) (draw : ℕ → Option Text) (checksum_hash : Dict Text Value)
      (s : Sandbox)
      → Sandbox.new_sandbox g ds now draw checksum_hash ≡ some (ok s)
      → ((e : Gerror) × (Sandbox.get g ds s.id ≡ some (err e)))
        × (s.creation_time ≡ now)
        × (s.completed ≡ false)
        × (s.checksums ≡ keys checksum_hash)
  unfolding Sandbox.new_sandbox
  new_sandbox_lem ds now draw hash s h =
      let (res, e, rest) = >>=-eq-some (Sandbox.fresh_id g ds 5 draw) _ h in by_result res e rest
    where
      by_result :
          (res : Result Text)
          → Sandbox.fresh_id g ds 5 draw ≡ some res
          → some (elim res as (λ x. Result Sandbox) [
            | err e ↦ err e
            | ok id ↦
                ok (record {
                  id = id;
                  creation_time = now;
                  completed = false;
                  checksums = keys hash;
                })
          ])
            ≡ some (ok s)
          → ((e : Gerror) × (Sandbox.get g ds s.id ≡ some (err e)))
            × (s.creation_time ≡ now)
            × (s.completed ≡ false)
            × (s.checksums ≡ keys hash)
      by_result (err x) e rest = absurd (ground (arith, rest))
      by_result (ok id) e rest =
          let made = ok_inj (some-injective _ _ rest) in
          (
            subst (λ (x : Sandbox). (e : Gerror) × (Sandbox.get g ds x.id ≡ some (err e))) made
                (fresh_id-unused ds 5 draw id e),
            ap (λ (x : Sandbox). x.creation_time) (sym made),
            ap (λ (x : Sandbox). x.completed) (sym made),
            ap (λ (x : Sandbox). x.checksums) (sym made),
          )
