-- ===== src/Batches/Store.antt =====
-- The state that `IdentityBatches` shares with the identity service, and the operations on it that
-- every other one uses. A write of a JSON file may fail.
use mllm_windows_ai_workbenc.Prelude.{
  ℕ, ◌-◌, max, String, Bool, true, false, not, ◌&&◌, Option, none, some, List, [], ◌∷◌, put,
  if◌then◌else◌,
}
use mllm_windows_ai_workbenc.Errors.{
  Result, ok, raise, os_error, key_error, api, status_error, identity_batch_not_found,
}
use mllm_windows_ai_workbenc.Batches.Model.{Item, Batch, is_terminal}

-- `jobs` is the service's `_jobs`; the two `files` are the JSON files. `started` and `clock` are in
-- milliseconds. `writes` says of each coming write whether it succeeds; all others do.
pub record Store : Type 0 where
  pub records : String → Option Batch
  pub batch_files : String → Option Batch
  pub owners : String → Option String
  pub jobs : String → Option Item
  pub job_files : String → Option Item
  pub samples : String → ℕ → Option (ℕ × ℕ)
  pub pending : String → Option Item
  pub started : String → Option ℕ
  pub clock : ℕ
  pub writes : List Bool

-- A method: what was changed stays changed when it raises.
abbrev pub Action {ℓ} : Type ℓ → Type ℓ
Action A = Store → Result A × Store

abbrev pub next {ℓ κ} :
    {A : Type ℓ} {B : Type κ} → Result A × Store → (A → Action B) → Result B × Store
next (ok a, s) f = f a s
next (raise e, s) f = (raise e, s)

infixl 5 ◌>>=◌ ◌>>◌
abbrev pub ◌>>=◌ {ℓ κ} : {A : Type ℓ} {B : Type κ} → Action A → (A → Action B) → Action B
◌>>=◌ m f s = next (m s) f

abbrev pub ◌>>◌ {ℓ κ} : {A : Type ℓ} {B : Type κ} → Action A → Action B → Action B
◌>>◌ m k s = next (m s) (λ _. k)

abbrev pub pure {ℓ} : {A : Type ℓ} → A → Action A
pure a s = (ok a, s)

abbrev pub lift {ℓ} : {A : Type ℓ} → Result A → Action A
lift r s = (r, s)

abbrev pub modify : (Store → Store) → Action (Unit {0})
modify f s = (ok tt, f s)

-- `atomic_json`, before the effect on its file: the new text replaces the old one, or an OSError
-- leaves the file as it is.
unfoldable pub write : Action (Unit {0})
write s = elim s.writes [
  | [] ↦ (ok tt, s)
  | true ∷ rest ↦ (ok tt, record s { writes = rest })
  | false ∷ rest ↦ (raise os_error, record s { writes = rest })
]

abbrev pub put_job : String → Item → Store → Store
put_job id x s = record s { jobs = put id (some x) s.jobs }

abbrev pub put_pending : String → Item → Store → Store
put_pending id x s = record s { pending = put id (some x) s.pending }

-- `IdentityService._update`, with the changes as a function.
unfoldable pub update : String → (Item → Item) → Action Item
update id changes s = elim (s.jobs id) [
  | none ↦ (raise key_error, s)
  | some x ↦ next (write s) λ _ t. (
    ok (changes x),
    record t {
      jobs = put id (some (changes x)) t.jobs;
      job_files = put id (some (changes x)) t.job_files;
    },
  )
]

-- `_execution_elapsed`
unfoldable pub execution_elapsed : Batch → Store → ℕ
execution_elapsed r s = elim (s.started r.id) [
  | none ↦ r.elapsed_ms
  | some t ↦ max r.elapsed_ms (s.clock - t)
]

-- The record that `_save` writes.
unfoldable pub stamped : Batch → Store → Batch
stamped r s = if is_terminal r.state then record r { elapsed_ms = execution_elapsed r s } else r

-- `_save`
unfoldable pub save : Batch → Action Batch
save r s = next (write s) λ _ t. (
  ok (stamped r s),
  record t {
    records = put r.id (some (stamped r s)) t.records;
    batch_files = put r.id (some (stamped r s)) t.batch_files;
  },
)

-- `get`, of an id of the right form.
unfoldable pub load : Bool → String → Action Batch
load live_elapsed id s = elim (s.records id) [
  | none ↦ (raise (api (status_error identity_batch_not_found 404)), s)
  | some r ↦ (
    ok (
        if live_elapsed && not (is_terminal r.state)
        then record r { elapsed_ms = execution_elapsed r s }
        else r),
    s,
  )
]
