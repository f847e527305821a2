-- ===== src/Util/Indexify.antt =====
-- util/util.go: `Indexify`, the lines under which the index finds an object, and util/strings.go:
-- `TrimStringMax`, which counts runes.
use goiardi.Base.{
  ℕ, zero, suc, ◌-◌, Bool, true, ◌&&◌, Option, none, some, List, [], ◌∷◌, ◌++◌, if◌then◌else◌, ltb,
  leb, nat_beq, length, take, ◌>>=◌,
}
use goiardi.Base.Text.{Text, codes, join, text_ltb}
use goiardi.Base.Dict.{Dict}
use goiardi.Base.Sort.{sort}
use goiardi.Base.Int.{int_ltb}
use goiardi.Util.Strings.{remove_dup_strings}

-- A byte of UTF-8 behind the first one, from `lo` to `hi`.
abbrev pub is_between : ℕ → ℕ → ℕ → Bool
is_between lo hi c = leb lo c && leb c hi

-- Whether the next bytes go on a rune: the first of them within its own bounds.
unfoldable pub goes_on : ℕ → ℕ → ℕ → Text → Bool
goes_on more lo hi [] = nat_beq more 0
goes_on zero lo hi s = true
goes_on (suc more) lo hi (c ∷ s) = is_between lo hi c && goes_on more 0x80 0xBF s

-- The number of bytes of the rune in front; 0 if they are no UTF-8.
unfoldable pub rune_width : ℕ → Text → ℕ
unfolding goes_on
rune_width c s =
    if ltb c 0x80
    then 1
    else if is_between 0xC2 0xDF c
    then (if goes_on 1 0x80 0xBF s then 2 else 0)
    else if nat_beq c 0xE0
    then (if goes_on 2 0xA0 0xBF s then 3 else 0)
    else if nat_beq c 0xED
    then (if goes_on 2 0x80 0x9F s then 3 else 0)
    else if is_between 0xE1 0xEF c
    then (if goes_on 2 0x80 0xBF s then 3 else 0)
    else if nat_beq c 0xF0
    then (if goes_on 3 0x90 0xBF s then 4 else 0)
    else if is_between 0xF1 0xF3 c
    then (if goes_on 3 0x80 0xBF s then 4 else 0)
    else if nat_beq c 0xF4
    then (if goes_on 3 0x80 0x8F s then 4 else 0)
    else 0

-- `[]rune(s)`, each rune by its bytes; a byte that is no UTF-8 is the replacement character. The
-- number counts the bytes of the last rune that are left.
unfoldable pub runes : ℕ → Text → List Text
unfolding rune_width
runes left [] = []
runes (suc left) (c ∷ s) = runes left s
runes zero (c ∷ s) =
    let w = rune_width c s in
    (if nat_beq w 0 then 0xEF ∷ 0xBF ∷ 0xBD ∷ [] else take w (c ∷ s)) ∷ runes (w - 1) s

abbrev pub concat : List Text → Text
concat [] = []
concat (r ∷ rs) = r ++ concat rs

-- `TrimStringMax`.
unfoldable pub trim_string_max : Text → ℕ → Text
unfolding runes
trim_string_max s str_length =
    let r = runes 0 s in
    if int_ltb str_length 1
    then s
    else if ltb str_length (length r)
    then concat (take str_length r)
    else s

-- A value of a flattened object.
pub data Flat : Type 0 where
  text : Text → Flat
  texts : List Text → Flat
  other : Flat

abbrev pub index_line : ℕ → Text → Text → Text
index_line max_val_len k v = join (k ∷ trim_string_max v max_val_len ∷ []) (codes ":")

unfoldable pub index_lines : ℕ → Text → List Text → List Text
unfolding trim_string_max join
index_lines max_val_len k [] = []
index_lines max_val_len k (w ∷ v) = index_line max_val_len k w ∷ index_lines max_val_len k v

-- The loop of `Indexify`; a value of another type is a panic.
unfoldable pub ready_to_index : ℕ → Dict Text Flat → Option (List Text)
unfolding index_lines remove_dup_strings
ready_to_index max_val_len [] = some []
ready_to_index max_val_len ((k, text v) ∷ flattened) = do
  rest ← ready_to_index max_val_len flattened
  some (index_line max_val_len k v ∷ rest)
ready_to_index max_val_len ((k, texts v) ∷ flattened) = do
  rest ← ready_to_index max_val_len flattened
  some (index_lines max_val_len k (remove_dup_strings (sort text_ltb v)) ++ rest)
ready_to_index max_val_len ((k, other) ∷ flattened) = none

-- `Indexify`, with `IndexValTrim` of the configuration at hand.
unfoldable pub indexify : ℕ → Dict Text Flat → Option (List Text)
unfolding ready_to_index
indexify max_val_len flattened = do
  lines ← ready_to_index max_val_len flattened
  some (sort text_ltb lines)
