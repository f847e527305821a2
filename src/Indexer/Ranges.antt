-- ===== src/Indexer/Ranges.antt =====
-- indexer/file_index.go: range searches of a document, negated and not.
use goiardi.Base.{
  ◌≡◌, refl, ap, sym, ◌∙◌, Bool, true, false, not, ◌&&◌, ◌||◌, Option, none, some, List, [], ◌∷◌,
  ◌++◌, ◌==◌, ==_iff, nat_eq, list_eq, if◌then◌else◌, arith, Bool-cases, inl, inr,
}
use goiardi.Base.Text.{Text, codes, text_ltb, text_ltb-asymm, text_ltb-connected}
use goiardi.Indexer.Document.{Backend, Doc, in_range, range_search, any, some_child, opened}
use goiardi.Objects.{ok}

-- Whether `a` is below `c`, or at it where the bracket is closed; a wild end is no bound.
unfoldable pub bounded : (closed wild : Bool) → Text → Text → Bool
bounded closed wild a c = wild || (text_ltb a c || (closed && (a == c)))

unfoldable pub between : (closed wild_start wild_end : Bool) → (start end value : Text) → Bool
unfolding bounded
between closed wild_start wild_end start end value =
    bounded closed wild_start start value && bounded closed wild_end value end

-- What a range search asks of a value: to be in the range, or, negated, not to be in the range with
-- the other kind of brackets.
unfoldable pub is_asked : (negated inclusive : Bool) → (start end value : Text) → Bool
unfolding between
is_asked true inclusive start end value =
    not (between (not inclusive) (start == codes "*") (end == codes "*") start end value)
is_asked false inclusive start end value =
    between inclusive (start == codes "*") (end == codes "*") start end value

not_above : (a c : Text) → not (text_ltb c a) ≡ (text_ltb a c || (a == c))
not_above a c = elim (Bool-cases (text_ltb c a)) [
  | inl above ↦ ground (
    arith,
    above,
    text_ltb-asymm c a above,
    ==_iff a c,
    λ (e : a ≡ c).
        sym (text_ltb-asymm c a above) ∙ ap (λ x. text_ltb x c) e ∙ ap (text_ltb c) (sym e) ∙ above,
  )
  | inr no' ↦ elim (Bool-cases (text_ltb a c)) [
    | inl below ↦ ground (arith, no', below)
    | inr neither ↦ ground (arith, no', neither, ==_iff a c, text_ltb-connected a c neither no')
  ]
]

in_range_lem :
    (negated inclusive wild_start wild_end : Bool) (start end value : Text)
    → (wild_start && wild_end) ≡ false
    → in_range negated inclusive wild_start wild_end start end value ≡ (
        if negated
        then not (between (not inclusive) wild_start wild_end start end value)
        else between inclusive wild_start wild_end start end value)
unfolding in_range between bounded
in_range_lem negated inclusive wild_start wild_end start end value apart =
    ground (arith, not_above start value, not_above value end, apart)

any_cong : {A : Type 0} (p q : A → Bool) (l : List A) → ((x : A) → p x ≡ q x) → any p l ≡ any q l
any_cong p q [] h = refl
any_cong p q (x ∷ l) h = rw (h x, any_cong p q l h) refl

some_child_cong :
    (b : Backend) (kids : Option (List Text)) (p q : Text → Bool)
    → ((x : Text) → p x ≡ q x)
    → some_child b kids p ≡ some_child b kids q
some_child_cong b none p q h = refl
some_child_cong b (some l) p q h = any_cong p q l h

-- `RangeSearch` of a document whose trie can be read, where not both ends are wild, says whether
-- some child key of the field is in the range; negated, whether some child key is not in the range
-- with the other kind of brackets.
pub range_search_lem :
    (b : Backend) (doc : Doc b) (t : b.Trie) (field start end : Text) (inclusive negated : Bool)
    → opened b.decompress_trie doc.trie ≡ ok t
    → ((start == codes "*") && (end == codes "*")) ≡ false
    → range_search b field start end inclusive negated doc
      ≡ some (
          ok (
            some_child b
              (b.child_keys t (field ++ codes ":"))
              (is_asked negated inclusive start end)))
unfolding range_search is_asked
range_search_lem b doc t field start end inclusive negated readable apart =
    rw (apart, readable)
      (ap (λ x. some (ok x))
        (some_child_cong b (b.child_keys t (field ++ codes ":")) _ _ (each negated)))
  where
    each :
        (neg : Bool) (x : Text)
        → in_range neg inclusive (start == codes "*") (end == codes "*") start end x
          ≡ is_asked neg inclusive start end x
    each true x = in_range_lem true inclusive _ _ start end x apart
    each false x = in_range_lem false inclusive _ _ start end x apart
