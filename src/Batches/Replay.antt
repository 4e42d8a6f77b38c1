-- ===== src/Batches/Replay.antt =====
-- `_replay_completions` and `recover`: a batch that the service's restart has cut off.
pub mod Grown
pub mod Completing
pub mod Replayed
pub mod Synced
pub mod Ended
mod Examples
use mllm_windows_ai_workbenc.Prelude.{
  ℕ, zero, suc, ◌+◌, ◌*◌, max, String, Bool, true, false, not, ◌&&◌, ◌||◌, Option, none, some, List,
  [], ◌∷◌, ltb, ◌==◌, any_of, length, put, if◌then◌else◌,
}
use mllm_windows_ai_workbenc.Errors.{Exn, Result, ok, raise, os_error, value_error, type_error, api}
use mllm_windows_ai_workbenc.Actions.{Action, next, ◌>>=◌, ◌>>◌, pure, lift}
use mllm_windows_ai_workbenc.Events.{Bytes, read_events}
use mllm_windows_ai_workbenc.Batches.Model.{Item, Batch, State, failed, is_terminal}
use mllm_windows_ai_workbenc.Batches.Store.{Store, put_job}
use mllm_windows_ai_workbenc.Batches.Store
use mllm_windows_ai_workbenc.Batches.Observed.{
  Event, stage, step, item_complete, preview_error, elapsed_of, validated_event,
}
use mllm_windows_ai_workbenc.Batches.Completion.{
  Outside, complete_count, Completion, saved, unsaved, refused, complete_item,
}
use mllm_windows_ai_workbenc.Batches.Ending.{finish}

-- `events.ndjson` of a batch.
pub data EventFile : Type 0 where
  no_file no_access : EventFile
  holds : Bytes → EventFile

-- The record that is recovered, the replay's own cursor, and the shared state.
pub record Replay : Type 0 where
  pub batch : Batch
  pub cursor : Batch
  pub store : Store

abbrev pub Replaying : Type 0 → Type 0
Replaying A = Action Replay A

abbrev pub set_cursor : (Batch → Batch) → Replaying (Unit {0})
set_cursor f z = (ok tt, record z { cursor = f z.cursor })

abbrev pub count_up : ℕ → Batch → Batch
count_up i c = record c { completed_items = max c.completed_items (suc i) }

-- A completion that could not be saved does not stop the replay; the record has been changed.
unfoldable pub settle_completion : ℕ → Replay → Completion × Store → Result (Unit {0}) × Replay
settle_completion i z (saved r, s) =
    (ok tt, record { batch = r; cursor = count_up i z.cursor; store = s })
settle_completion i z (unsaved r, s) =
    (ok tt, record { batch = r; cursor = count_up i z.cursor; store = s })
settle_completion i z (refused e, s) = (raise e, record z { store = s })

-- A stage of the next image: it is entered at step 0.
abbrev pub enter : ℕ → Batch → Batch
enter i c =
    if (i == c.completed_items) && not (c.current_item == suc i)
    then record c { current_item = suc i; step = 0 }
    else c

unfoldable pub replay_kind : Outside → Event → Replaying (Unit {0})
replay_kind env (item_complete elapsed i job_id) z =
    settle_completion i z (complete_item env z.batch i z.store)
replay_kind env (step elapsed i number total file) z =
    set_cursor (λ c. record c { current_item = suc i; step = number }) z
replay_kind env (stage elapsed text none) z = (ok tt, z)
replay_kind env (stage elapsed text (some i)) z = set_cursor (enter i) z
replay_kind env (preview_error elapsed i message) z = (ok tt, z)

abbrev pub later : Event → Batch → Batch
later e r = record r { elapsed_ms = max r.elapsed_ms (elapsed_of e) }

-- The body of the inner loop.
unfoldable pub replay_event : Outside → Option Event → Replaying (Unit {0})
replay_event env value z =
    next (validated_event z.cursor value, z)
      λ e z.
        next
          (replay_kind env e (record z { cursor = record z.cursor { elapsed_ms = elapsed_of e } }))
          λ _ z. (ok tt, record z { batch = later e z.batch })

unfoldable pub replay_events : Outside → List (Option Event) → Replaying (Unit {0})
replay_events env [] = pure tt
replay_events env (v ∷ vs) = replay_event env v >>= λ _. replay_events env vs

-- One round: what could be read is replayed, and where it was nothing the replay ends.
unfoldable pub round :
    Outside
    → ℕ
    → (ℕ → Replaying (Unit {0}))
    → Result (List (Option Event) × ℕ)
    → Replaying (Unit {0})
round env offset again (raise e) z = (raise e, z)
round env offset again (ok (events, position)) z =
    next (replay_events env events z)
      λ _ z. (elim (position == offset) [ true ↦ (ok tt, z) | false ↦ again position z ])

abbrev pub fresh_cursor : Batch → Batch
fresh_cursor r = record r { elapsed_ms = 0; completed_items = 0; current_item = 0; step = 0 }

-- `decode` parses a line to an object, as what it says of the batch.
module _ (env : Outside) (decode : Bytes → Option (Option Event)) where
  -- for _ in range(65)
  unfoldable pub rounds : Bytes → ℕ → ℕ → Replaying (Unit {0})
  rounds bytes zero offset z = (raise value_error, z)
  rounds bytes (suc left) offset z =
      round env offset (rounds bytes left) (read_events decode (some bytes) offset) z

  unfoldable pub replay_file : EventFile → Replaying (Unit {0})
  replay_file no_file z = (ok tt, z)
  replay_file no_access z = (raise os_error, z)
  replay_file (holds bytes) z =
      if ltb (4 * 1024 * 1024) (length bytes) then (raise value_error, z) else rounds bytes 65 0 z

  -- `_replay_completions`
  unfoldable pub replay_completions : EventFile → Batch → Store → Result (Unit {0}) × Replay
  replay_completions file r s =
      replay_file file (record { batch = r; cursor = fresh_cursor r; store = s })

-- The jobs of a batch that the service does not know are taken from its record, the others are
-- copied to it.
unfoldable pub sync_items : List Item → Store → List Item × Store
sync_items [] s = ([], s)
sync_items (x ∷ xs) s = elim (s.jobs x.id) [
  | none ↦ let (ys, t) = sync_items xs (put_job x.id x s) in (x ∷ ys, t)
  | some j ↦ let (ys, t) = sync_items xs s in (j ∷ ys, t)
]

abbrev pub keep_record : Batch → Store → Store
keep_record r s = record s { records = put r.id (some r) s.records }

-- What the inner `try` catches, and what is left after the `finally`.
abbrev pub uncaught : Exn → Result (Unit {0})
uncaught os_error = ok tt
uncaught value_error = ok tt
uncaught type_error = ok tt
uncaught (api a) = ok tt
uncaught e = raise e

abbrev pub remaining : Result (Unit {0}) → Result (Unit {0})
remaining (ok u) = ok tt
remaining (raise e) = uncaught e

abbrev pub restart_message : String
restart_message = "批次被服务重启中断，已完成图片已保留，请重新提交剩余任务"

-- The replay works on the record in memory itself, and `_finish` reads it there.
unfoldable pub finish_replay :
    Outside → String → Result (Unit {0}) × Replay → Result (Unit {0}) × Store
finish_replay env id (o, z) =
    Store.next (finish env id failed (some restart_message) (keep_record z.batch z.store))
      λ _ t. (remaining o, t)

abbrev pub is_open : Batch → Bool
is_open r = not (is_terminal r.state) || any_of (λ (x : Item). not (is_terminal x.state)) r.items

-- The record with the items as the service knows them.
abbrev pub synced : Batch → List Item → Batch
synced r items = record r { items = items; completed_items = complete_count items }

unfoldable pub recover_batch :
    Outside
    → (Bytes → Option (Option Event))
    → EventFile
    → Batch
    → Store
    → Result (Unit {0}) × Store
recover_batch env decode file r s =
    let (items, t) = sync_items r.items s in
    let q = synced r items in
    let u = keep_record q t in
    (elim (is_open q) [
      | true ↦ finish_replay env q.id (replay_completions env decode file q u)
      | false ↦ (ok tt, u)
    ])

-- The outer `try` goes on with the next batch after an OSError, a ValueError or a TypeError.
abbrev pub goes_on : Result (Unit {0}) → Result (Unit {0})
goes_on (ok u) = ok tt
goes_on (raise os_error) = ok tt
goes_on (raise value_error) = ok tt
goes_on (raise type_error) = ok tt
goes_on (raise e) = raise e

-- `recover`, over the ids of the records in memory.
unfoldable pub recover :
    Outside
    → (Bytes → Option (Option Event))
    → (String → EventFile)
    → List String
    → Store
    → Result (Unit {0}) × Store
recover env decode file [] s = (ok tt, s)
recover env decode file (id ∷ ids) s = elim (s.records id) [
  | none ↦ recover env decode file ids s
  | some r ↦
      let (o, t) = recover_batch env decode (file id) r s in
      Store.next (goes_on o, t) λ _ t. recover env decode file ids t
]
