-- ===== src/Shovey/Stream/Laws.antt =====
-- shovey/shovey.go: the output of a run, put together from chunks that came in any order.
use goiardi.Base.{
  ℕ, suc, zero, ◌+◌, ◌≤◌, ◌<◌, ◌≡◌, ◌≢◌, refl, ap, sym, ◌∙◌, subst, Bool, true, Option, none, some,
  List, [], ◌∷◌, ◌++◌, ==_refl, ==_ne, nat_eq, list_eq, arith, length,
}
use goiardi.Base.Text.{Text, codes}
use goiardi.Base.Int.{int_bound, int_suc, int_suc-eq-add_one, int_ltb-eq-ltb}
use goiardi.Base.Sort.{sort-IsAscending, IsAscending}
use goiardi.Base.Dict.{lookup, is_some}
use goiardi.Datastore.{Gob, DataStore, make_key, open_entry}
use goiardi.Datastore
use goiardi.Datastore.Laws.{get-set, get-eq-open_entry}
use goiardi.Datastore.NilArrays.{Reflect, chk_nil_array}
use goiardi.Objects.{ShoveyRun, ShoveyRunStream, Object, a_stream}
use goiardi.Shovey.Stream.{
  by_seq_less, stream_key, chunks, with_chunk, outputs, next_chunk, stream_loop, get_stream_output,
  combine_stream_output, add_stream_output, combined,
}
use goiardi.Shovey.Stream.Keys.{pigeonhole, stream_key-injective, store_key-injective, stream_type}
use goiardi.Shovey.Jobs.Runs.{set-some}

abbrev pub concat : List Text → Text
concat [] = []
concat (o ∷ outs) = o ++ concat outs

-- gob encodes chunks and keeps their fields.
pub record KeepsStreams ⦃r : Reflect Object⦄ (g : Gob Object) : Type 0 where
  pub encodes : (s : ShoveyRunStream) → (b : g.Bytes) × (g.encode (a_stream s) ≡ some b)
  pub keeps : (s : ShoveyRunStream) → chk_nil_array (g.kept (a_stream s)) ≡ a_stream s

after : (i : ℕ) → i < int_bound → int_suc i ≡ suc i
after i h = int_suc-eq-add_one i h ∙ omega arith

-- Chunks with the numbers from `i` on.
abbrev IsRunFrom : ℕ → List ShoveyRunStream → Type 0
IsRunFrom i [] = Unit
IsRunFrom i (c ∷ cs) = (c.seq ≡ i) × IsRunFrom (suc i) cs

IsRunFrom-IsAscending :
    (i : ℕ) (cs : List ShoveyRunStream)
    → i + length cs < int_bound
    → IsRunFrom i cs
    → IsAscending by_seq_less cs
unfolding by_seq_less
IsRunFrom-IsAscending i [] h run = tt
IsRunFrom-IsAscending i (c ∷ []) h run = tt
IsRunFrom-IsAscending i (c ∷ d ∷ cs) h (e, (e', run)) = (
  rw (e, e') (int_ltb-eq-ltb i (suc i) (omega (arith, h)) (omega (arith, h)) ∙ ground arith),
  IsRunFrom-IsAscending (suc i) (d ∷ cs) (omega (arith, h)) (e', run),
)

module _ ⦃r : Reflect Object⦄ (g : Gob Object) (sr : ShoveyRun) (t : Text) where
  open g use {Bytes}

  abbrev pub found : DataStore Bytes → ℕ → Option (Option Object)
  found ds i = Datastore.get g ds (codes "shovey_run_stream") (stream_key sr t i)

  -- What the store has under the number of a chunk: none, or a chunk with that output.
  abbrev pub Holds : DataStore Bytes → ℕ → Option Text → Type 0
  Holds ds i none = found ds i ≡ some none
  Holds ds i (some o) =
      (c : ShoveyRunStream) × (found ds i ≡ some (some (a_stream c))) × (c.output ≡ o) × (c.seq ≡ i)

  -- Chunks with the given outputs from a number on, and then none.
  abbrev pub HoldsFrom : DataStore Bytes → ℕ → List Text → Type 0
  HoldsFrom ds i [] = Holds ds i none
  HoldsFrom ds i (o ∷ outs) = Holds ds i (some o) × HoldsFrom ds (suc i) outs

  stream_loop_lem :
      (fuel : ℕ) (ds : DataStore Bytes) (i : ℕ) (outs : List Text)
      → length outs < fuel
      → i + length outs < int_bound
      → HoldsFrom ds i outs
      → (cs : List ShoveyRunStream) × (stream_loop g fuel ds sr t i ≡ chunks cs)
        × (outputs cs ≡ concat outs)
        × (length cs ≡ length outs)
        × IsRunFrom i cs
  unfolding stream_loop next_chunk outputs with_chunk
  stream_loop_lem zero ds i outs h b holds = absurd (omega (arith, h))
  stream_loop_lem (suc fuel) ds i [] h b holds = ([], rw holds refl, refl, refl, tt)
  stream_loop_lem (suc fuel) ds i (o ∷ outs) h b ((c, e, eo, es), holds) =
      let (cs, e', eo', el, run) =
        stream_loop_lem fuel ds (suc i) outs (omega (arith, h)) (omega (arith, b)) holds in
      (
        c ∷ cs,
        rw (e, after i (omega (arith, b)), e') refl,
        ap (λ x. x ++ outputs cs) eo ∙ ap (λ x. o ++ x) eo',
        ap suc el,
        (es, run),
      )

  opened :
      (o : Option (Datastore.Entry Bytes)) (v : Object)
      → open_entry g o ≡ some (some v)
      → is_some o ≡ true
  unfolding open_entry
  opened none v h = ground (arith, h)
  opened (some x) v h = refl

  nth-Holds :
      (ds : DataStore Bytes) (i j : ℕ) (outs : List Text)
      → j < length outs
      → HoldsFrom ds i outs
      → (o : Text) × Holds ds (i + j) (some o)
  nth-Holds ds i j [] h holds = absurd (omega (arith, h))
  nth-Holds ds i zero (o ∷ outs) h (now, rest) =
      (o, subst (λ n. Holds ds n (some o)) (omega arith) now)
  nth-Holds ds i (suc j) (o ∷ outs) h (now, rest) =
      let (o', there) = nth-Holds ds (suc i) j outs (omega (arith, h)) rest in
      (o', subst (λ n. Holds ds n (some o')) (omega arith) there)

  -- A store has an entry for each chunk.
  has_entry :
      (ds : DataStore Bytes) (i : ℕ) (o : Text)
      → Holds ds i (some o)
      → is_some (lookup (make_key (codes "shovey_run_stream") (stream_key sr t i)) ds.dsc) ≡ true
  has_entry ds i o (c, e, _, _) =
      opened (lookup (make_key (codes "shovey_run_stream") (stream_key sr t i)) ds.dsc) (a_stream c)
        (sym (get-eq-open_entry g ds (codes "shovey_run_stream") (stream_key sr t i)) ∙ e)

  enough_fuel :
      (ds : DataStore Bytes) (i : ℕ) (outs : List Text)
      → i + length outs < int_bound
      → HoldsFrom ds i outs
      → length outs ≤ length ds.dsc
  enough_fuel ds i outs b holds =
      pigeonhole (λ j. make_key (codes "shovey_run_stream") (stream_key sr t (i + j))) (length outs)
        ds.dsc
        (λ j k h h' e.
          cancel_add i j k (
            store_key-injective sr t (i + j) (i + k) (omega (arith, h, b)) (omega (arith, h', b))
              e))
        (λ j h. let (o, there) = nth-Holds ds i j outs h holds in has_entry ds (i + j) o there)
    where
      cancel_add : (i j k : ℕ) → i + j ≡ i + k → j ≡ k
      cancel_add i j k e = omega (arith, e)

  -- If a run has chunks with consecutive numbers from one on and then none, and the numbers fit an
  -- int, `CombineStreamOutput` ends, and returns their outputs in the order of the numbers.
  pub combine_lem :
      (ds : DataStore Bytes) (i : ℕ) (outs : List Text)
      → i + length outs < int_bound
      → HoldsFrom ds i outs
      → combine_stream_output g ds sr t i ≡ some (concat outs)
  unfolding combine_stream_output get_stream_output combined
  combine_lem ds i outs b holds =
      let (cs, e, eo, el, run) =
        stream_loop_lem (suc (length ds.dsc)) ds i outs
          (omega (arith, enough_fuel ds i outs b holds)) b holds in
      ap combined e
      ∙ ap (λ l. some (outputs l))
          (sort-IsAscending by_seq_less cs (IsRunFrom-IsAscending i cs (omega (arith, el, b)) run))
      ∙ ap some eo

  module _ (k : KeepsStreams g) where
    -- A chunk whose number is free is stored, and no other number is touched.
    pub add_free :
        (ds : DataStore Bytes) (now i : ℕ) (o : Text) (is_last : Bool)
        → i < int_bound
        → found ds i ≡ some none
        → (ds' : DataStore Bytes) × (add_stream_output g ds now sr o t i is_last ≡ some (ds', none))
          × Holds ds' i (some o)
          × ((j : ℕ) → j < int_bound → i ≢ j → found ds' j ≡ found ds j)
    unfolding add_stream_output
    add_free ds now i o is_last b free =
        let c : ShoveyRunStream = record {
          shovey_uuid = sr.shovey_uuid;
          node_name = sr.node_name;
          seq = i;
          output_type = t;
          output = o;
          is_last = is_last;
          created_at = now;
        } in
        let (ds', h) =
          set-some g ds (codes "shovey_run_stream") (stream_key sr t i) (a_stream c)
            (k.encodes c) in
        let after_set = λ (j : ℕ).
          get-set g ds (codes "shovey_run_stream") (stream_key sr t i) (codes "shovey_run_stream")
            (stream_key sr t j) (a_stream c) h stream_type stream_type in
        (
          ds',
          rw (free, h) refl,
          (
            c,
            rw
                (
                  after_set i,
                  ==_refl (codes "shovey_run_stream"),
                  ==_refl (stream_key sr t i),
                  k.keeps c,
                )
                refl,
            refl,
            refl,
          ),
          λ j b' ne.
              rw
                (
                  after_set j,
                  ==_ne (stream_key sr t i) (stream_key sr t j)
                      (λ e. ne (stream_key-injective sr t i j b b' e)),
                  ==_refl (codes "shovey_run_stream"),
                )
                refl,
        )
