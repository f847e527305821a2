-- ===== src/Shovey/Stream/Keys.antt =====
-- shovey/shovey.go: the keys of chunks differ, so that a store has at least as many entries as it
-- has chunks.
use goiardi.Base.{
  ℕ, suc, zero, ◌≤◌, ◌<◌, ◌≡◌, refl, ap, sym, ◌∙◌, true, [], ◌∷◌, ◌++◌, ◌==◌, ==_iff, ==_ne, nat_eq,
  list_eq, list_beq, arith, length, &&-elim,
}
use goiardi.Base.Text.{Text, codes}
use goiardi.Base.Int.{int_bound}
use goiardi.Base.Decimal.{format_int, atoi, atoi-format_int}
use goiardi.Base.Dict.{Dict, lookup, erase, lookup-erase, is_some}
use goiardi.Datastore.{make_key}
use goiardi.Datastore.Keys.{LacksColon, ==_make_key}
use goiardi.Objects.{ShoveyRun}
use goiardi.Shovey.Stream.{stream_key}
use goiardi.Shovey.Jobs.Runs.{append-beq}

-- A map that has `n` different keys has at least `n` entries.
erase-le : {V : Type 0} (k : Text) (d : Dict Text V) → length (erase k d) ≤ length d
unfolding erase
erase-le k [] = omega arith
erase-le k ((j, v) ∷ d) = ground (arith, erase-le k d)

erase-lt :
    {V : Type 0} (k : Text) (d : Dict Text V)
    → is_some (lookup k d) ≡ true
    → length (erase k d) < length d
unfolding erase lookup
erase-lt k [] h = ground (arith, h)
erase-lt k ((j, v) ∷ d) h = ground (arith, erase-lt k d, erase-le k d, h)

pub pigeonhole :
    {V : Type 0} (f : ℕ → Text) (n : ℕ) (d : Dict Text V)
    → ((i j : ℕ) → i < n → j < n → f i ≡ f j → i ≡ j)
    → ((i : ℕ) → i < n → is_some (lookup (f i) d) ≡ true)
    → n ≤ length d
pigeonhole f zero d inj has = omega arith
pigeonhole f (suc n) d inj has =
    let rest : n ≤ length (erase (f n) d) =
      pigeonhole f n (erase (f n) d) (λ i j h h'. inj i j (omega arith) (omega arith))
        (λ i h.
          rw
            (
              lookup-erase (f i) (f n) d,
              ==_ne (f n) (f i) (λ e. apart i h (inj n i (omega arith) (omega arith) e)),
            )
            (has i (omega arith))) in
    omega (arith, rest, erase-lt (f n) d (has n (omega arith)))
  where
    apart : (i : ℕ) → i < n → n ≡ i → ⊥
    apart i h e = omega arith

append-cancel : (u a b : Text) → u ++ a ≡ u ++ b → a ≡ b
append-cancel u a b e = (==_iff a b).0 (sym (append-beq u a b) ∙ (==_iff (u ++ a) (u ++ b)).1 e)

format_int-injective :
    (i j : ℕ) → i < int_bound → j < int_bound → format_int i ≡ format_int j → i ≡ j
format_int-injective i j h h' e = sym (atoi-format_int i h) ∙ ap atoi e ∙ atoi-format_int j h'

pub stream_key-injective :
    (sr : ShoveyRun) (t : Text) (i j : ℕ)
    → i < int_bound
    → j < int_bound
    → stream_key sr t i ≡ stream_key sr t j
    → i ≡ j
unfolding stream_key
stream_key-injective sr t i j h h' e = format_int-injective i j h h' (
    append-cancel (codes "_") _ _ (
      append-cancel t _ _ (
        append-cancel (codes "_") _ _ (
          append-cancel sr.node_name _ _
            (append-cancel (codes "_") _ _ (append-cancel sr.shovey_uuid _ _ e))))))

pub stream_type : LacksColon (codes "shovey_run_stream")
unfolding list_eq list_beq
stream_type = refl

-- The same of the keys of the store.
pub store_key-injective :
    (sr : ShoveyRun) (t : Text) (i j : ℕ)
    → i < int_bound
    → j < int_bound
    → make_key (codes "shovey_run_stream") (stream_key sr t i)
      ≡ make_key (codes "shovey_run_stream") (stream_key sr t j)
    → i ≡ j
store_key-injective sr t i j h h' e =
    let same =
      sym (
        ==_make_key (codes "shovey_run_stream") (stream_key sr t i) (codes "shovey_run_stream")
          (stream_key sr t j) stream_type stream_type)
      ∙ (==_iff _ _).1 e in
    stream_key-injective sr t i j h h'
      ((==_iff _ _).0 (&&-elim (codes "shovey_run_stream" == codes "shovey_run_stream") _ same).1)
