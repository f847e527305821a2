-- ===== src/Shovey/Stream.antt =====
-- shovey/shovey.go: the chunks of output that nodes send for their runs, in the in-memory mode.
pub mod Keys
pub mod Laws
pub mod Upload
use goiardi.Base.{
  ℕ, suc, zero, Bool, true, false, Option, none, some, List, [], ◌∷◌, ◌++◌, length, if◌then◌else◌,
  ◌>>=◌,
}
use goiardi.Base.Text.{Text, codes}
use goiardi.Base.Sort.{sort}
use goiardi.Base.Int.{int_ltb, int_suc}
use goiardi.Base.Decimal.{format_int}
use goiardi.Datastore.{Gob, DataStore}
use goiardi.Datastore
use goiardi.Datastore.NilArrays.{Reflect}
use goiardi.Objects.{ShoveyRun, ShoveyRunStream, Object, a_stream, Result, ok, err, Gerror}

-- `BySeq.Less`.
unfoldable pub by_seq_less : ShoveyRunStream → ShoveyRunStream → Bool
unfolding int_ltb
by_seq_less a b = int_ltb a.seq b.seq

-- The key of a chunk.
unfoldable pub stream_key : ShoveyRun → Text → ℕ → Text
stream_key sr output_type seq =
    sr.shovey_uuid
    ++ (codes "_"
        ++ (sr.node_name ++ (codes "_" ++ (output_type ++ (codes "_" ++ format_int seq)))))

-- How the loop of `GetStreamOutput` ends: without the fuel, in a panic, or with the chunks.
pub data Chunks : Type 0 where
  starved panicked : Chunks
  chunks : List ShoveyRunStream → Chunks

unfoldable pub with_chunk : ShoveyRunStream → Chunks → Chunks
with_chunk s starved = starved
with_chunk s panicked = panicked
with_chunk s (chunks streams) = chunks (s ∷ streams)

unfoldable pub outputs : List ShoveyRunStream → Text
outputs [] = []
outputs (s ∷ stream) = s.output ++ outputs stream

unfoldable pub combined : Chunks → Option Text
unfolding outputs by_seq_less
combined starved = none
combined panicked = none
combined (chunks stream) = some (outputs (sort by_seq_less stream))

module _ ⦃r : Reflect Object⦄ (g : Gob Object) where
  open g use {Bytes}

  -- `AddStreamOutput` at a given time.
  unfoldable pub add_stream_output :
      DataStore Bytes
      → ℕ
      → ShoveyRun
      → Text
      → Text
      → ℕ
      → Bool
      → Option (DataStore Bytes × Option Gerror)
  unfolding stream_key
  add_stream_output ds now sr output output_type seq is_last = do
    found ← Datastore.get g ds (codes "shovey_run_stream") (stream_key sr output_type seq)
    elim found [
      | some o ↦ some (
        ds,
        some (record {
          message =
              codes "sequence "
              ++ (format_int seq
                  ++ (codes " for "
                      ++ (sr.shovey_uuid
                          ++ (codes " - " ++ (sr.node_name ++ codes " already exists")))));
          status = 409;
        }),
      )
      | none ↦ do
        ds' ← Datastore.set g ds (codes "shovey_run_stream") (stream_key sr output_type seq) (
            a_stream (record {
              shovey_uuid = sr.shovey_uuid;
              node_name = sr.node_name;
              seq = seq;
              output_type = output_type;
              output = output;
              is_last = is_last;
              created_at = now;
            }))
        some (ds', none)
    ]

  -- What the loop does with what it finds under a key; `rest` is the loop from the next key on.
  unfoldable pub next_chunk : Option (Option Object) → Chunks → Chunks
  unfolding with_chunk
  next_chunk none rest = panicked
  next_chunk (some none) rest = chunks []
  next_chunk (some (some (a_stream s))) rest = with_chunk s rest
  next_chunk (some (some _)) rest = panicked

  -- The loop of `GetStreamOutput`, which has no bound, on fuel.
  unfoldable pub stream_loop : ℕ → DataStore Bytes → ShoveyRun → Text → ℕ → Chunks
  unfolding stream_key next_chunk int_suc
  stream_loop zero ds sr output_type i = starved
  stream_loop (suc fuel) ds sr output_type i =
      let rest = stream_loop fuel ds sr output_type (int_suc i) in
      next_chunk (Datastore.get g ds (codes "shovey_run_stream") (stream_key sr output_type i)) rest

  -- `GetStreamOutput`, with one round for each entry of the store and one more.
  unfoldable pub get_stream_output : DataStore Bytes → ShoveyRun → Text → ℕ → Chunks
  unfolding stream_loop
  get_stream_output ds sr output_type seq = stream_loop (suc (length ds.dsc)) ds sr output_type seq

  -- `CombineStreamOutput`.
  unfoldable pub combine_stream_output : DataStore Bytes → ShoveyRun → Text → ℕ → Option Text
  unfolding get_stream_output combined
  combine_stream_output ds sr output_type seq = combined (get_stream_output ds sr output_type seq)
