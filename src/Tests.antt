-- ===== src/Tests.antt =====
-- Concrete data for the tests: an encoding that keeps values as they are, and fails on some.
pub mod Stores
pub mod Statuses
pub mod Logs
pub mod Uploads
pub mod Inputs
pub mod Cookbooks
pub mod Deletes
pub mod Queries
pub mod Actors
pub mod Jobs
pub mod Reports
use goiardi.Base.{
  ℕ, ◌≡◌, refl, ap, subst, arith, Bool, true, false, Option, none, some, List, [], ◌∷◌,
  if◌then◌else◌, map,
}
use goiardi.Base.Dict.{Dict}
use goiardi.Datastore.{Gob}
use goiardi.Datastore.NilArrays.{Reflect}

pub data Blob (V : Type 0) : Type 0 where
  one : V → Blob V
  many : Dict ℕ V → Blob V

abbrev pub decode_one : {V : Type 0} → Blob V → Option V
decode_one (one v) = some v
decode_one (many m) = none

abbrev pub decode_many : {V : Type 0} → Blob V → Option (Dict ℕ V)
decode_many (one v) = none
decode_many (many m) = some m

pub decode_one-encode :
    {V : Type 0} (c : Bool) (v : V) (b : Blob V)
    → (if c then some (one v) else none) ≡ some b
    → decode_one b ≡ some v
decode_one-encode true v (one w) h = ground (arith, h)
decode_one-encode true v (many m) h = ground (arith, h)
decode_one-encode false v b h = ground (arith, h)

pub map-same : {V : Type 0} (m : Dict ℕ V) → m ≡ map (λ (i, v). (i, v)) m
map-same [] = refl
map-same (x ∷ m) = ap (◌∷◌ x) (map-same m)

pub many-inj :
    {V : Type 0} (m : Dict ℕ V) (b : Blob V) → some (many m) ≡ some b → decode_many b ≡ some m
many-inj m (one v) h = ground (arith, h)
many-inj m (many n) h = ground (arith, h)

abbrev pub test_gob : {V : Type 0} → (V → Bool) → Gob V
test_gob {V} can = record {
  Bytes = Blob V;
  encode = λ v. if can v then some (one v) else none;
  decode = decode_one;
  encode_map = λ m. some (many m);
  decode_map = decode_many;
  kept = λ v. v;
  decode-encode = λ v b h. decode_one-encode (can v) v b h;
  decode_map-encode_map =
      λ m b h. subst (λ n. decode_many b ≡ some n) (map-same m) (many-inj m b h);
}

-- A type without fields to fill.
instance abbrev pub no_fields : {V : Type 0} → Reflect V
no_fields = record {
  fields = λ v. [];
  set_fields = λ v fs. v;
  set_fields-fields = λ v. refl;
  fields-set_fields = λ v. refl;
}
