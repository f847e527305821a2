-- ===== src/Client/Admins.antt =====
-- client/client.go: the count of admins by which a client is the last one.
use goiardi.Base.{
  ℕ, suc, ◌≡◌, ◌≢◌, ◌⊎◌, refl, ap, sym, ◌∙◌, subst, Bool, true, false, Option, none, some, List, [],
  ◌∷◌, ◌++◌, ◌==◌, ==_iff, ==_refl, nat_eq, list_eq, list_beq, nat_beq, if◌then◌else◌, contains,
  IsNodup, arith, Bool-cases, Option-cases, inl, inr,
}
use goiardi.Base.Text.{Text, codes}
use goiardi.Base.Dict.{lookup, is_some}
use goiardi.Datastore.{Gob, DataStore, make_key, open_entry}
use goiardi.Datastore
use goiardi.Datastore.Listing.{IsObjectType}
use goiardi.Datastore.NilArrays.{Reflect}
use goiardi.Datastore.Reach.{Reachable, get_list-Reachable}
use goiardi.Objects.{Client, Object, Result, ok, err}
use goiardi.Client.{get, found_client, get_list, num_admins, is_last_admin, with_status}

abbrev count : (Text → Bool) → List Text → ℕ
count p [] = 0
count p (k ∷ ks) = if p k then suc (count p ks) else count p ks

some_counted :
    (p : Text → Bool) (ks : List Text)
    → count p ks ≢ 0
    → (j : Text) × (contains ks j ≡ true) × (p j ≡ true)
some_counted p [] h = absurd (h refl)
some_counted p (k ∷ ks) h = elim (Bool-cases (p k)) [
  | inl pass ↦ (k, ground (arith, ==_refl k), pass)
  | inr fail ↦ let (j, m, q) = some_counted p ks (λ e. h (rw fail e)) in (j, ground (arith, m), q)
]

-- Where one name counts and it is not the only one, another one counts.
another_counted :
    (p : Text → Bool) (ks : List Text) (k : Text)
    → IsNodup ks
    → contains ks k ≡ true
    → p k ≡ true
    → count p ks ≢ 1
    → (j : Text) × ((k == j) ≡ false) × (contains ks j ≡ true) × (p j ≡ true)
another_counted p [] k n m q h = absurd (ground (arith, m))
another_counted p (x ∷ ks) k n m q h = elim (Bool-cases (x == k)) [
  | inl own ↦
      let same : x ≡ k = (==_iff x k).0 own in
      let (j, m', q') =
        some_counted p ks (λ e. h (rw (subst (λ y. p y ≡ true) (sym same) q) (ap suc e))) in
      (j, apart j m' same, ground (arith, m'), q')
  | inr other ↦ elim (Bool-cases (p x)) [
    | inl pass ↦ (x, ground (arith, ==_iff k x, ==_iff x k, other), ground (arith, ==_refl x), pass)
    | inr fail ↦
        let (j, a, m', q') =
          another_counted p ks k n.1 (ground (arith, m, other)) q (λ e. h (rw fail e)) in
        (j, a, ground (arith, m'), q')
  ]
]
  where
    apart : (j : Text) → contains ks j ≡ true → x ≡ k → (k == j) ≡ false
    apart j m' same = elim (Bool-cases (k == j)) [
      | inl e ↦
          let found : contains ks x ≡ true =
            subst (λ y. contains ks y ≡ true) (sym ((==_iff k j).0 e) ∙ sym same) m' in
          ground (arith, n.0, found)
      | inr e ↦ e
    ]

pub client_type : IsObjectType (codes "client")
unfolding list_eq list_beq
client_type = record { lacks_colon = refl; unreserved = refl }

abbrev pub not_found : Text → Option (Result Client)
not_found k = some (err (with_status 404 (codes "Client " ++ (k ++ codes " not found"))))

abbrev admin_of : Option (Result Client) → Bool
admin_of (some (ok c)) = c.admin
admin_of _ = false

module _ ⦃r : Reflect Object⦄ (g : Gob Object) where
  open g use {Bytes}

  -- What is stored as a client is one, under its own name.
  abbrev pub IsClientStore : DataStore Bytes → Type 0
  IsClientStore ds =
      (k : Text)
      → (get g ds k ≡ not_found k) ⊎ ((c : Client) × (get g ds k ≡ some (ok c)) × (c.name ≡ k))

  -- Some client is an admin.
  abbrev pub HasAdmin : DataStore Bytes → Type 0
  HasAdmin ds = (k : Text) × (c : Client) × (get g ds k ≡ some (ok c)) × (c.admin ≡ true)

  admin_at : DataStore Bytes → Text → Bool
  admin_at ds k = admin_of (get g ds k)

  num_admins-eq-count :
      (ds : DataStore Bytes) (ks : List Text)
      → IsClientStore ds
      → num_admins g ds ks ≡ some (count (admin_at ds) ks)
  unfolding num_admins admin_at
  num_admins-eq-count ds [] h = refl
  num_admins-eq-count ds (k ∷ ks) h = elim (h k) [
    | inl e ↦ rw (e, num_admins-eq-count ds ks h) refl
    | inr (c, e, _) ↦ rw (e, num_admins-eq-count ds ks h) refl
  ]

  admin_at-HasAdmin :
      (ds : DataStore Bytes) (k : Text)
      → admin_at ds k ≡ true
      → (c : Client) × (get g ds k ≡ some (ok c)) × (c.admin ≡ true)
  unfolding admin_at
  admin_at-HasAdmin ds k h = by_get (get g ds k) refl h
    where
      by_get :
          (o : Option (Result Client))
          → get g ds k ≡ o
          → admin_of o ≡ true
          → (c : Client) × (get g ds k ≡ some (ok c)) × (c.admin ≡ true)
      by_get none e h = ground (arith, h)
      by_get (some (err x)) e h = ground (arith, h)
      by_get (some (ok c)) e h = (c, e, h)

  get-listed :
      (ds : DataStore Bytes) (k : Text) (c : Client)
      → get g ds k ≡ some (ok c)
      → is_some (lookup (make_key (codes "client") k) ds.dsc) ≡ true
  unfolding get found_client Datastore.get open_entry
  get-listed ds k c e = elim (Option-cases (lookup (make_key (codes "client") k) ds.dsc)) [
    | inl absent ↦ ground (arith, e, absent)
    | inr (x, there) ↦ rw there refl
  ]

  -- `isLastAdmin` of a stored client returns, in a reachable store of clients. Only an
  -- admin is the last one, and where an admin is not, another client is an admin too.
  pub is_last_admin_lem :
      (ds : DataStore Bytes) (c : Client)
      → Reachable g ds
      → IsClientStore ds
      → get g ds c.name ≡ some (ok c)
      → (last : Bool) × (is_last_admin g ds c ≡ some last)
        × ((last ≡ true) → c.admin ≡ true)
        × ((c.admin ≡ true)
            → (last ≡ false)
            → (j : Text) × ((c.name == j) ≡ false)
              × (d : Client) × (get g ds j ≡ some (ok d))
              × (d.admin ≡ true))
  unfolding is_last_admin get_list admin_at
  is_last_admin_lem ds c r h e =
      let (ks, listed, all) = get_list-Reachable g ds (codes "client") client_type r in
      let n : ℕ = count (admin_at ds) ks in
      elim (Bool-cases c.admin) [
        | inl admin ↦ (
          nat_beq n 1,
          rw (admin, listed, num_admins-eq-count ds ks h) refl,
          λ last. admin,
          λ a other.
              let (j, apart, m, p) =
                another_counted (admin_at ds) ks c.name all.once
                  (all.exact c.name ∙ get-listed ds c.name c e) (own_admin admin)
                  (not_one n other) in
              let (d, found, admin') = admin_at-HasAdmin ds j p in (j, apart, d, found, admin'),
        )
        | inr not_admin ↦ (
          false,
          rw not_admin refl,
          λ last. ground (arith, last),
          λ a. ground (arith, a, not_admin),
        )
      ]
    where
      own_admin : c.admin ≡ true → admin_at ds c.name ≡ true
      own_admin a = ap admin_of e ∙ a

      not_one : (n : ℕ) → nat_beq n 1 ≡ false → n ≢ 1
      not_one n h k = ground (arith, h, k)
