-- ===== src/Shovey/Stream/Upload.antt =====
-- shovey/shovey.go: all chunks of the output of a run, sent in any order.
use goiardi.Base.{
  ℕ, suc, ◌+◌, ◌≤◌, ◌<◌, ◌≡◌, refl, ap, sym, ◌∙◌, subst, Bool, true, false, Option, none, some,
  List, [], ◌∷◌, ◌==◌, ==_iff, nat_eq, if◌then◌else◌, arith, Bool-cases, inl, inr, length,
  get_elem?, ◌>>=◌, contains, IsNodup, All,
}
use goiardi.Base.Text.{Text}
use goiardi.Base.Int.{int_bound}
use goiardi.Base.Dict.{Dict, lookup, keys, is_some, contains-keys}
use goiardi.Datastore.{Gob, DataStore}
use goiardi.Datastore.NilArrays.{Reflect}
use goiardi.Objects.{ShoveyRun, Object}
use goiardi.Shovey.Stream.{add_stream_output, combine_stream_output}
use goiardi.Shovey.Stream.Laws.{
  KeepsStreams, Holds, HoldsFrom, found, concat, combine_lem, add_free,
}

abbrev over : Option Text → Option Text → Option Text
over (some o) old = some o
over none old = old

over-if :
    (t : Bool) (x y : Option Text) (o : Text)
    → (t ≡ true → x ≡ none)
    → over x (if t then some o else y) ≡ over (if t then some o else x) y
over-if true x y o h = rw (h refl) refl
over-if false x y o h = refl

-- A number that is not among the others is none of them.
differs : (i j : ℕ) (ks : List ℕ) → contains ks i ≡ false → contains ks j ≡ true → (i == j) ≡ false
differs i j ks new m = elim (Bool-cases (i == j)) [
  | inl e ↦
      let there : contains ks i ≡ true =
        subst (λ n. contains ks n ≡ true) (sym ((==_iff i j).0 e)) m in
      ground (arith, new, there)
  | inr e ↦ e
]

lookup-new : (i : ℕ) (l : Dict ℕ Text) → contains (keys l) i ≡ false → lookup i l ≡ none
lookup-new i l new = none_is (lookup i l) (sym (contains-keys l i) ∙ new)
  where
    none_is : (x : Option Text) → is_some x ≡ false → x ≡ none
    none_is none h = refl
    none_is (some o) h = ground (arith, h)

module _ ⦃r : Reflect Object⦄ (g : Gob Object) (sr : ShoveyRun) (t : Text) where
  open g use {Bytes}

  -- The chunks of a list sent one after the other; `none` is a panic, or a chunk that was refused.
  pub upload : DataStore Bytes → ℕ → Dict ℕ Text → Option (DataStore Bytes)
  upload ds now [] = some ds
  upload ds now ((i, o) ∷ l) = do
    (ds', e) ← add_stream_output g ds now sr o t i false
    let rest = upload ds' now l
    elim e [ some e' ↦ none | none ↦ rest ]

  -- The store has the chunks of a map.
  abbrev Views : DataStore Bytes → (ℕ → Option Text) → Type 0
  Views ds v = (j : ℕ) → j < int_bound → Holds g sr t ds j (v j)

  moved :
      (ds ds' : DataStore Bytes) (j : ℕ) (w : Option Text)
      → found g sr t ds' j ≡ found g sr t ds j
      → Holds g sr t ds j w
      → Holds g sr t ds' j w
  moved ds ds' j none p h = p ∙ h
  moved ds ds' j (some o) p (c, e, eo, es) = (c, p ∙ e, eo, es)

  view_from :
      (ds : DataStore Bytes) (v : ℕ → Option Text) (i : ℕ) (outs : List Text)
      → i + length outs < int_bound
      → Views ds v
      → ((j : ℕ) → j ≤ length outs → v (i + j) ≡ get_elem? outs j)
      → HoldsFrom g sr t ds i outs
  view_from ds v i [] b views h =
      subst (Holds g sr t ds i) (ap v (omega arith) ∙ h 0 (omega arith))
        (views i (omega (arith, b)))
  view_from ds v i (o ∷ outs) b views h = (
    subst (Holds g sr t ds i) (ap v (omega arith) ∙ h 0 (omega arith)) (views i (omega (arith, b))),
    view_from ds v (suc i) outs (omega (arith, b)) views
        (λ j le. ap v (omega arith) ∙ h (suc j) (omega (arith, le))),
  )

  module _ (k : KeepsStreams g) where
    upload-Views :
        (ds : DataStore Bytes) (now : ℕ) (l : Dict ℕ Text) (v : ℕ → Option Text)
        → IsNodup (keys l)
        → All (λ i. i < int_bound) (keys l)
        → ((i : ℕ) → contains (keys l) i ≡ true → v i ≡ none)
        → Views ds v
        → (ds' : DataStore Bytes) × (upload ds now l ≡ some ds')
          × Views ds' (λ j. over (lookup j l) (v j))
    unfolding upload lookup
    upload-Views ds now [] v nodup bounds fresh views = (ds, refl, views)
    upload-Views ds now ((i, o) ∷ l) v (new, nodup) (b, bounds) fresh views =
        let free = subst (Holds g sr t ds i) (fresh i (ground arith)) (views i b) in
        let (ds1, e, there, others) = add_free g sr t k ds now i o false b free in
        let (ds2, e', views') =
          upload-Views ds1 now l (λ j. if i == j then some o else v j) nodup bounds
            (λ j m. rw (differs i j (keys l) new m) (fresh j (ground (arith, m))))
            (λ j b'. elim (Bool-cases (i == j)) [
              | inl own ↦
                  rw own (subst (λ n. Holds g sr t ds1 n (some o)) ((==_iff i j).0 own) there)
              | inr other ↦ rw other (
                  moved ds ds1 j (v j)
                    (others j b' (λ p. apart (ground (arith, other, (==_iff i j).1 p))))
                    (views j b'))
            ]) in
        (
          ds2,
          rw e e',
          λ j b'.
              subst (Holds g sr t ds2 j)
                (over-if (i == j) (lookup j l) (v j) o
                  (λ own. subst (λ n. lookup n l ≡ none) ((==_iff i j).0 own) (lookup-new i l new)))
                (views' j b'),
        )
      where
        apart : true ≡ false → ⊥
        apart h = ground (arith, h)

    -- Where gob keeps chunks, if no chunk of an output is stored, chunks with different numbers that
    -- fit an int are accepted in any order, and `CombineStreamOutput` then ends, and returns the
    -- outputs in the order of the numbers from 0 on, up to the first number that is missing.
    pub upload-combine :
        (ds : DataStore Bytes) (now : ℕ) (l : Dict ℕ Text) (outs : List Text)
        → ((j : ℕ) → j < int_bound → found g sr t ds j ≡ some none)
        → IsNodup (keys l)
        → All (λ i. i < int_bound) (keys l)
        → length outs < int_bound
        → ((j : ℕ) → j ≤ length outs → lookup j l ≡ get_elem? outs j)
        → (ds' : DataStore Bytes) × (upload ds now l ≡ some ds')
          × (combine_stream_output g ds' sr t 0 ≡ some (concat outs))
    upload-combine ds now l outs empty nodup bounds b listed =
        let (ds', e, views) = upload-Views ds now l (λ j. none) nodup bounds (λ i m. refl) empty in
        (
          ds',
          e,
          combine_lem g sr t ds' 0 outs (omega (arith, b)) (
              view_from ds' (λ j. over (lookup j l) none) 0 outs (omega (arith, b)) views
                (λ j le.
                  ap (λ n. over (lookup n l) none) (zero_add j)
                  ∙ over-none (lookup j l)
                  ∙ listed j le)),
        )
      where
        zero_add : (j : ℕ) → 0 + j ≡ j
        zero_add j = omega arith

        over-none : (x : Option Text) → over x none ≡ x
        over-none none = refl
        over-none (some o) = refl
