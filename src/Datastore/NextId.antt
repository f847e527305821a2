-- ===== src/Datastore/NextId.antt =====
-- datastore/datastore.go: `getNextID`, one above the highest id of a map.
use goiardi.Base.{
  ℕ, ◌+◌, ◌<◌, ◌≤◌, ◌≡◌, Bool, true, false, none, List, [], ◌∷◌, arith, nat_beq, nat_eq,
  if◌then◌else◌, length, All, All-map, contains,
}
use goiardi.Base.Dict.{Dict, lookup, keys, is_some, contains-keys}
use goiardi.Base.Int.{int_ltb, int_suc, int_bound, int_ltb-eq-ltb, int_suc-eq-add_one}
use goiardi.Base.Sort.{sort, IsLeast, IsSorted, sort-IsSorted, sort-All, contains-sort}

-- `sort.Reverse(sort.IntSlice(keys))`.
abbrev pub int_gtb : ℕ → ℕ → Bool
int_gtb a b = int_ltb b a

-- `keys[0] + 1`, of keys that are not empty.
unfoldable pub after_first : List ℕ → ℕ
after_first [] = 1
after_first (k ∷ ks) = int_suc k

unfoldable pub get_next_id {ℓ} : {A : Type ℓ} → Dict ℕ A → ℕ
unfolding after_first
get_next_id lis = if nat_beq (length lis) 0 then 1 else after_first (sort int_gtb (keys lis))

-- Ids that are not negative and not the highest `int`.
abbrev pub IsSmall : ℕ → Type 0
IsSmall i = i + 1 < int_bound

int_gtb-asymm : (a b : ℕ) → int_gtb a b ≡ true → int_gtb b a ≡ false
unfolding int_ltb
int_gtb-asymm a b h = ground arith

int_gtb-nless_trans : (a b c : ℕ) → int_gtb b a ≡ false → int_gtb c b ≡ false → int_gtb c a ≡ false
unfolding int_ltb
int_gtb-nless_trans a b c h k = ground arith

pub keys_desc-IsSorted : (ks : List ℕ) → IsSorted int_gtb (sort int_gtb ks)
keys_desc-IsSorted ks = sort-IsSorted int_gtb int_gtb-asymm int_gtb-nless_trans ks

-- every key is below the suc of the first one
below_first :
    (i k : ℕ) (ks : List ℕ)
    → IsLeast int_gtb k ks
    → All IsSmall (k ∷ ks)
    → contains (k ∷ ks) i ≡ true
    → i < int_suc k
below_first i k [] h s m = ground (arith, int_suc-eq-add_one k)
below_first i k (j ∷ ks) h s m =
    ground (arith, int_suc-eq-add_one k, int_ltb-eq-ltb k j, below_first i k ks h.1 (s.0, s.1.1))

after_first_above :
    (ks : List ℕ) (i : ℕ)
    → IsSorted int_gtb ks
    → All IsSmall ks
    → contains ks i ≡ true
    → i < after_first ks
unfolding after_first
after_first_above [] i h s m = ground arith
after_first_above (k ∷ ks) i h s m = below_first i k ks h.0 s m

after_first_pos : (ks : List ℕ) → All IsSmall ks → 0 < after_first ks
unfolding after_first
after_first_pos [] s = omega arith
after_first_pos (k ∷ ks) s = omega (arith, int_suc-eq-add_one k)

after_first-le :
    (ks : List ℕ) (k : ℕ) → 0 < k → k < int_bound → All (λ i. i < k) ks → after_first ks ≤ k
unfolding after_first
after_first-le [] k p q h = omega arith
after_first-le (i ∷ ks) k p q h = omega (arith, int_suc-eq-add_one i)

-- The next id is above every id of the map.
pub lt-get_next_id {ℓ} :
    {A : Type ℓ} (lis : Dict ℕ A) (i : ℕ)
    → All IsSmall (keys lis)
    → is_some (lookup i lis) ≡ true
    → i < get_next_id lis
unfolding get_next_id
lt-get_next_id [] i s h = unfold lookup in ground arith
lt-get_next_id (x ∷ lis) i s h =
    let ks = keys (x ∷ lis) in
    ground (
      arith,
      after_first_above (sort int_gtb ks) i (keys_desc-IsSorted ks) (sort-All int_gtb _ ks s),
      contains-sort int_gtb ks i,
      contains-keys (x ∷ lis) i,
    )

pub get_next_id-pos {ℓ} :
    {A : Type ℓ} (lis : Dict ℕ A) → All IsSmall (keys lis) → 0 < get_next_id lis
unfolding get_next_id
get_next_id-pos lis s =
    ground (arith, after_first_pos (sort int_gtb (keys lis)) (sort-All int_gtb _ (keys lis) s))

-- The next id is not in the map.
pub lookup-get_next_id {ℓ} :
    {A : Type ℓ} (lis : Dict ℕ A) → All IsSmall (keys lis) → lookup (get_next_id lis) lis ≡ none
lookup-get_next_id lis s = ground (arith, lt-get_next_id lis (get_next_id lis) s)

-- The next id is at most `k` where all ids are below `k`.
pub get_next_id-le {ℓ} :
    {A : Type ℓ} (lis : Dict ℕ A) (k : ℕ)
    → 0 < k
    → k < int_bound
    → All (λ i. i < k) (keys lis)
    → get_next_id lis ≤ k
unfolding get_next_id
get_next_id-le lis k p q h =
    let below = sort-All int_gtb (λ i. i < k) (keys lis) h in
    ground (arith, after_first-le (sort int_gtb (keys lis)) k p q below)

pub below_IsSmall : (k : ℕ) (ks : List ℕ) → k < int_bound → All (λ i. i < k) ks → All IsSmall ks
below_IsSmall k ks q h = All-map (λ i lt. omega arith) ks h
