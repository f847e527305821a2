-- ===== src/Datastore.antt =====
-- datastore/datastore.go: the in-memory key/value store with a list of the keys of each type. The
-- values are kept gob-encoded (the default, `UseUnsafeMemStore` off).
pub mod NilArrays
pub mod Keys
pub mod Laws
pub mod Listing
pub mod GetList
pub mod NextId
pub mod NodeStatus
pub mod LogInfo
pub mod Frame
pub mod Calls
pub mod Reach
use goiardi.Base.{
  ℕ, suc, ◌-◌, zero, ◌≡◌, ◌++◌, Bool, true, false, Option, none, some, List, [], ◌∷◌, ltb,
  if◌then◌else◌, length, nat_eq, list_eq, ◌>>=◌, map,
}
use goiardi.Base.Text.{Text, codes, join, text_ltb}
use goiardi.Base.Dict.{Dict, lookup, insert, erase, keys}
use goiardi.Base.Sort.{sort}
use NilArrays.{Value, Reflect, chk_nil_array}

-- encoding/gob for the stored values, and for the map of all log events. A value that went through
-- gob is `kept v`: unexported fields are dropped, and an empty slice comes back nil.
pub record Gob (V : Type 0) : Type 1 where
  pub Bytes : Type 0
  pub encode : V → Option Bytes
  pub decode : Bytes → Option V
  pub encode_map : Dict ℕ V → Option Bytes
  pub decode_map : Bytes → Option (Dict ℕ V)
  pub kept : V → V
  pub decode-encode : (v : V) (b : Bytes) → encode v ≡ some b → decode b ≡ some (kept v)
  pub decode_map-encode_map :
      (m : Dict ℕ V) (b : Bytes)
      → encode_map m ≡ some b
      → decode_map b ≡ some (map (λ (i, v). (i, kept v)) m)

-- What the cache holds under a key: bytes, or one of the two maps of the node statuses.
pub data Entry (B : Type 0) : Type 0 where
  sealed : B → Entry B
  statuses : Dict ℕ B → Entry B
  status_lists : Dict Text (List ℕ) → Entry B

pub record DataStore (B : Type 0) : Type 0 where
  pub dsc : Dict Text (Entry B)
  pub obj_list : Dict Text (Dict Text Bool)
  pub updated : Bool

unfoldable pub init_data_store : {B : Type 0} → DataStore B
init_data_store = record { dsc = []; obj_list = []; updated = false }

unfoldable pub make_key : Text → Text → Text
unfolding join
make_key key_type key =
    let new_key : List Text = [] in
    let new_key : List Text = new_key ++ (key_type ∷ []) in
    let new_key : List Text = new_key ++ (key ∷ []) in join new_key (codes ":")

-- `objList[keyType]`, where a type with no map reads as the nil map.
abbrev pub or_nil : Option (Dict Text Bool) → Dict Text Bool
or_nil none = []
or_nil (some m) = m

unfoldable pub add_to_list : {B : Type 0} → DataStore B → Text → Text → DataStore B
add_to_list ds key_type key = record ds {
  obj_list = insert key_type (insert key true (or_nil (lookup key_type ds.obj_list))) ds.obj_list;
}

unfoldable pub remove_from_list : {B : Type 0} → DataStore B → Text → Text → DataStore B
remove_from_list ds key_type key = elim (lookup key_type ds.obj_list) [
  | none ↦ ds
  | some m ↦ record ds { obj_list = insert key_type (erase key m) ds.obj_list }
]

-- `Delete`.
unfoldable pub delete : {B : Type 0} → DataStore B → Text → Text → DataStore B
unfolding make_key remove_from_list
delete ds key_type key =
    remove_from_list (record ds { updated = true; dsc = erase (make_key key_type key) ds.dsc })
      key_type key

-- The loop `j[i] = k` over a slice of `n` empty strings: a write past its end panics.
unfoldable pub fill : ℕ → List Text → Option (List Text)
fill zero [] = some []
fill zero (k ∷ ks) = none
fill (suc n) [] = do rest ← fill n []; some ([] ∷ rest)
fill (suc n) (k ∷ ks) = do rest ← fill n ks; some (k ∷ rest)

-- `GetList`, which takes the length before it has the lock: the store may have changed between.
unfoldable pub get_list_between :
    {B : Type 0} → DataStore B → DataStore B → Text → Option (List Text)
unfolding fill
get_list_between before ds key_type = do
  j ←
      fill (length (or_nil (lookup key_type before.obj_list)))
        (keys (or_nil (lookup key_type ds.obj_list)))
  some (sort text_ltb j)

-- `GetList` with no other thread between.
unfoldable pub get_list : {B : Type 0} → DataStore B → Text → Option (List Text)
unfolding get_list_between
get_list ds key_type = get_list_between ds ds key_type

module _ {V : Type 0} ⦃r : Reflect V⦄ (g : Gob V) where
  open g use {Bytes, encode, decode}

  -- `Set`; `none` is `log.Fatalln`, which ends the process.
  unfoldable pub set : DataStore Bytes → Text → Text → V → Option (DataStore Bytes)
  unfolding make_key add_to_list
  set ds key_type key val = do
    let ds_key = make_key key_type key
    let ds' = record ds { updated = true }
    val_bytes ← encode val
    some (add_to_list (record ds' { dsc = insert ds_key (sealed val_bytes) ds'.dsc }) key_type key)

  -- The entry under a key as `Get` reads it: the outer `none` ends the process.
  unfoldable pub open_entry : Option (Entry Bytes) → Option (Option V)
  unfolding chk_nil_array
  open_entry none = some none
  open_entry (some (sealed b)) = do val ← decode b; some (some (chk_nil_array val))
  open_entry (some _) = none

  -- `Get`.
  unfoldable pub get : DataStore Bytes → Text → Text → Option (Option V)
  unfolding make_key open_entry
  get ds key_type key = open_entry (lookup (make_key key_type key) ds.dsc)
