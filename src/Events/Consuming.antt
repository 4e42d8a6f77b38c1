-- ===== src/Events/Consuming.antt =====
-- `consume_events` of `_run_worker` in identity_service.py: the service passes the events of a
-- worker's file on to a callback, from where it stopped before.
pub mod Feeding
pub mod Rounds
pub mod Delivered
use mllm_windows_ai_workbenc.Prelude.{
  ℕ, zero, suc, ◌+◌, ◌*◌, ◌≤◌, ◌<◌, ◌≡◌, refl, sym, ap, ◌∙◌, subst, fun_ext, Bool, true, false, not,
  ◌&&◌, ◌⊎◌, inl, inr, Option, none, some, List, [], ◌∷◌, ◌++◌, arith, ltb, ◌==◌, ==_iff, ==_refl,
  length, length-append, All, Bool-cases, if◌then◌else◌,
}
use mllm_windows_ai_workbenc.Errors.{Result, ok, raise, guard, value_error}
use mllm_windows_ai_workbenc.Actions.{Action, next, ◌>>=◌}
use mllm_windows_ai_workbenc.Events.{max_line, Bytes, line_of, read_events, written}
use mllm_windows_ai_workbenc.Events.Reading.{
  IsInner, append_assoc, append_nil, length-line, read_events-written,
}

abbrev pub is_too_large : Option Bytes → Bool
is_too_large none = false
is_too_large (some bytes) = ltb (4 * 1024 * 1024) (length bytes)

-- The file is there, and its size is not the offset.
abbrev pub has_tail : Option Bytes → ℕ → Bool
has_tail none offset = false
has_tail (some bytes) offset = not (length bytes == offset)

-- The outcome, `offset`, and what the callback has changed.
abbrev pub Outcome : Type 0 → Type 0
Outcome S = Result (Unit {0}) × ℕ × S

-- for event in events: callback(event)
unfoldable pub feed : {E S : Type 0} → (E → Action S (Unit {0})) → List E → Action S (Unit {0})
feed callback [] s = (ok tt, s)
feed callback (e ∷ es) s = next (callback e s) (λ _. feed callback es)

module _ {E S : Type 0} (decode : Bytes → Option E) where
  -- The offset moves on only after every event of the round has been taken.
  unfoldable pub after_feed :
      Bool → Option Bytes → ℕ → (ℕ → S → Outcome S) → ℕ → Result (Unit {0}) × S → Outcome S
  after_feed drain file offset again next_offset (raise e, s) = (raise e, offset, s)
  after_feed drain file offset again next_offset (ok u, s) = elim (next_offset == offset) [
    | true ↦ (guard (not (drain && has_tail file offset)) value_error, offset, s)
    | false ↦ again next_offset s
  ]

  unfoldable pub take_round :
      (E → Action S (Unit {0}))
      → Bool
      → Option Bytes
      → ℕ
      → (ℕ → S → Outcome S)
      → Result (List E × ℕ)
      → S
      → Outcome S
  take_round callback drain file offset again (raise e) s = (raise e, offset, s)
  take_round callback drain file offset again (ok (events, next_offset)) s =
      after_feed drain file offset again next_offset (feed callback events s)

  -- for _ in range(rounds)
  unfoldable pub consume_rounds :
      (E → Action S (Unit {0})) → Bool → Option Bytes → ℕ → ℕ → S → Outcome S
  consume_rounds callback drain file zero offset s = (ok tt, offset, s)
  consume_rounds callback drain file (suc rounds) offset s = elim (is_too_large file) [
    | true ↦ (raise value_error, offset, s)
    | false ↦
        take_round callback drain file offset (consume_rounds callback drain file rounds)
          (read_events decode file offset) s
  ]

  -- `consume_events`; without a callback nothing is read.
  unfoldable pub consume_events :
      Option (E → Action S (Unit {0})) → Bool → Option Bytes → ℕ → S → Outcome S
  consume_events none drain file offset s = (ok tt, offset, s)
  consume_events (some callback) drain file offset s =
      consume_rounds callback drain file (if drain then 65 else 1) offset s
