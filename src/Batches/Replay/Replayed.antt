-- ===== src/Batches/Replay/Replayed.antt =====
-- What every event of a replay keeps.
use mllm_windows_ai_workbenc.Prelude.{
  ℕ, zero, suc, ◌*◌, ◌≡◌, ◌∙◌, subst, String, Bool, true, false, Option, none, some, List, [], ◌∷◌,
  ◌==◌, elem, ltb, length, if◌then◌else◌,
}
use mllm_windows_ai_workbenc.Errors.{Result, ok, raise, value_error}
use mllm_windows_ai_workbenc.Actions.{Keeps, next-Keeps, lift-Keeps}
use mllm_windows_ai_workbenc.Events.{Bytes, read_events}
use mllm_windows_ai_workbenc.Batches.Model.{Batch}
use mllm_windows_ai_workbenc.Batches.Store.{Store}
use mllm_windows_ai_workbenc.Batches.Observed.{
  Event, stage, step, item_complete, preview_error, elapsed_of, validated_event,
}
use mllm_windows_ai_workbenc.Batches.Completion.{
  Outside, Completion, saved, unsaved, refused, complete_item,
}
use mllm_windows_ai_workbenc.Batches.Completion.Sound.{ids}
use mllm_windows_ai_workbenc.Batches.Replay.{
  EventFile, no_file, no_access, holds, Replay, Replaying, settle_completion, enter, replay_kind,
  later, replay_event, replay_events, round, rounds, replay_file,
}
use mllm_windows_ai_workbenc.Batches.Replay.Grown.{Served, Grown, Grown-trans}
use mllm_windows_ai_workbenc.Batches.Replay.Completing.{Completes, complete_item-Completes}

-- The recovered record keeps its id and its images' ids, the service knows their jobs, and no image
-- that was complete is lost.
pub record Replayed (r : Batch) (s : Store) (z : Replay) : Type 0 where
  pub id : z.batch.id ≡ r.id
  pub images : ids z.batch.items ≡ ids r.items
  pub known : (k : String) → elem k (ids r.items) ≡ true → Served z.store k
  pub grown : Grown s z.store

module _ (env : Outside) (r : Batch) (s : Store) where
  settle-Replayed :
      (i : ℕ) (z : Replay) (o : Completion × Store)
      → Replayed r s z
      → Completes z.batch z.store o
      → Keeps (Replayed r s) (settle_completion i z o)
  unfolding settle_completion
  settle-Replayed i z (saved q, t) h c = record {
    id = c.1 ∙ h.id;
    images = c.0 ∙ h.images;
    known = λ k m. c.2.served k (h.known k m);
    grown = Grown-trans s z.store t h.grown c.2;
  }
  settle-Replayed i z (unsaved q, t) h c = record {
    id = c.1 ∙ h.id;
    images = c.0 ∙ h.images;
    known = λ k m. c.2.served k (h.known k m);
    grown = Grown-trans s z.store t h.grown c.2;
  }
  settle-Replayed i z (refused e, t) h c = record {
    id = h.id;
    images = h.images;
    known = λ k m. c.served k (h.known k m);
    grown = Grown-trans s z.store t h.grown c;
  }

  -- Only the cursor is changed, or the time of the record.
  Replayed-cursor :
      (z : Replay) (c : Batch) → Replayed r s z → Replayed r s (record z { cursor = c })
  Replayed-cursor z c h = record { id = h.id; images = h.images; known = h.known; grown = h.grown }

  Replayed-later :
      (z : Replay) (e : Event)
      → Replayed r s z
      → Replayed r s (record z { batch = later e z.batch })
  Replayed-later z e h = record { id = h.id; images = h.images; known = h.known; grown = h.grown }

  replay_kind-Replayed :
      (e : Event) (z : Replay) → Replayed r s z → Keeps (Replayed r s) (replay_kind env e z)
  unfolding replay_kind
  replay_kind-Replayed (item_complete t i id) z h =
      settle-Replayed i z (complete_item env z.batch i z.store) h (
        complete_item-Completes env z.batch i z.store
          λ k m. h.known k (subst (λ ks. elem k ks ≡ true) h.images m))
  replay_kind-Replayed (step t i n total file) z h = Replayed-cursor z _ h
  replay_kind-Replayed (stage t text none) z h = h
  replay_kind-Replayed (stage t text (some i)) z h = Replayed-cursor z (enter i z.cursor) h
  replay_kind-Replayed (preview_error t i message) z h = h

  replay_event-Replayed :
      (v : Option Event) (z : Replay) → Replayed r s z → Keeps (Replayed r s) (replay_event env v z)
  unfolding replay_event
  replay_event-Replayed v z h =
      next-Keeps (Replayed r s) (validated_event z.cursor v, z) _
        (lift-Keeps (Replayed r s) (validated_event z.cursor v) z h)
        λ e z h.
          next-Keeps (Replayed r s)
            (replay_kind env e
              (record z { cursor = record z.cursor { elapsed_ms = elapsed_of e } }))
            (λ _ z. (ok tt, record z { batch = later e z.batch }))
            (replay_kind-Replayed e
              (record z { cursor = record z.cursor { elapsed_ms = elapsed_of e } })
              (Replayed-cursor z (record z.cursor { elapsed_ms = elapsed_of e }) h))
            λ u z h. Replayed-later z e h

  replay_events-Replayed :
      (vs : List (Option Event)) (z : Replay)
      → Replayed r s z
      → Keeps (Replayed r s) (replay_events env vs z)
  unfolding replay_events
  replay_events-Replayed [] z h = h
  replay_events-Replayed (v ∷ vs) z h =
      next-Keeps (Replayed r s) (replay_event env v z) (λ _. replay_events env vs)
        (replay_event-Replayed v z h) λ u z h. replay_events-Replayed vs z h

  round-Replayed :
      (offset : ℕ) (again : ℕ → Replaying (Unit {0})) (o : Result (List (Option Event) × ℕ))
      (z : Replay)
      → Replayed r s z
      → ((position : ℕ) (z : Replay) → Replayed r s z → Keeps (Replayed r s) (again position z))
      → Keeps (Replayed r s) (round env offset again o z)
  unfolding round
  round-Replayed offset again (raise e) z h k = h
  round-Replayed offset again (ok (events, position)) z h k =
      next-Keeps (Replayed r s) (replay_events env events z)
        (λ _ z. (elim (position == offset) [ true ↦ (ok tt, z) | false ↦ again position z ]))
        (replay_events-Replayed events z h) λ u z h. go z h (position == offset)
    where
      go :
          (z : Replay)
          → Replayed r s z
          → (b : Bool)
          → Keeps {A = Unit {0}}
              (Replayed r s)
              (elim b [ true ↦ (ok tt, z) | false ↦ again position z ])
      go z h true = h
      go z h false = k position z h

  module _ (decode : Bytes → Option (Option Event)) where
    rounds-Replayed :
        (bytes : Bytes) (left offset : ℕ) (z : Replay)
        → Replayed r s z
        → Keeps (Replayed r s) (rounds env decode bytes left offset z)
    unfolding rounds
    rounds-Replayed bytes zero offset z h = h
    rounds-Replayed bytes (suc left) offset z h =
        round-Replayed offset (rounds env decode bytes left)
          (read_events decode (some bytes) offset) z h
          λ position z h. rounds-Replayed bytes left position z h

    pub replay_file-Replayed :
        (file : EventFile) (z : Replay)
        → Replayed r s z
        → Keeps (Replayed r s) (replay_file env decode file z)
    unfolding replay_file
    replay_file-Replayed no_file z h = h
    replay_file-Replayed no_access z h = h
    replay_file-Replayed (holds bytes) z h = go (ltb (4 * 1024 * 1024) (length bytes))
      where
        go :
            (b : Bool)
            → Keeps
                (Replayed r s)
                (if b then (raise value_error, z) else rounds env decode bytes 65 0 z)
        go true = h
        go false = rounds-Replayed bytes 65 0 z h
