-- ===== src/Batches/Retry.antt =====
-- `retry`: what is checked before a new batch is submitted for some images of another one.
pub mod Origins
mod Examples
use mllm_windows_ai_workbenc.Prelude.{
  ℕ, suc, ◌+◌, String, Bool, true, false, not, ◌&&◌, ◌||◌, Option, none, some, List, [], ◌∷◌, map,
  ◌==◌, str_eq, if◌then◌else◌, length, get_elem?,
}
use mllm_windows_ai_workbenc.Errors.{
  Exn, Result, ok, raise, os_error, value_error, type_error, key_error, index_error, runtime_error,
  api, status_error, guard, ◌>>=◌, ◌>>◌, identity_id_invalid, identity_batch_retry_conflict,
  identity_batch_active, identity_batch_retry_invalid, identity_batch_retry_empty,
  identity_profile_conflict,
}
use mllm_windows_ai_workbenc.History.Record.{is_batch_id}
use mllm_windows_ai_workbenc.Operations.Capacity.{Measurement, ensure_generation_capacity}
use mllm_windows_ai_workbenc.Batches.Model.{
  Params, BatchRequest, Item, Batch, Mode, only_failed, unfinished, State, queued, preparing,
  sampling, complete, failed, cancelled, is_terminal, is_complete, is_failed,
}
use mllm_windows_ai_workbenc.Batches.Matrix.{item_requests}
use mllm_windows_ai_workbenc.Batches.Store.{Store, load}
use mllm_windows_ai_workbenc.Batches.Completion.{Outside, or_else}
use mllm_windows_ai_workbenc.Batches.Ending.{is_there}
use mllm_windows_ai_workbenc.Batches.Lineage.{
  option_eq, list_eq, params_eq, request_eq, validated, indices_of, validate_lineage,
}
use mllm_windows_ai_workbenc.Batches.Submission.{submit_frozen}
use mllm_windows_ai_workbenc.Batches.Attempt.{Index, Desk, Drawn, Provenance, opened}
use mllm_windows_ai_workbenc.Batches.Service.{
  Saved, Service, check_profile, conflict, invalid, profile_conflict, submit,
}

-- except (OSError, ValueError) ... raise of a conflict
unfoldable pub read_or_conflict : {A : Type 0} → Result A → Result A
read_or_conflict (ok a) = ok a
read_or_conflict (raise os_error) = raise conflict
read_or_conflict (raise value_error) = raise conflict
read_or_conflict (raise e) = raise e

-- except (OSError, ValueError, TypeError, KeyError)
unfoldable pub or_raise : {A : Type 0} → Exn → Result A → Result A
or_raise x (ok a) = ok a
or_raise x (raise os_error) = raise x
or_raise x (raise value_error) = raise x
or_raise x (raise type_error) = raise x
or_raise x (raise key_error) = raise x
or_raise x (raise e) = raise e

abbrev pub has_key : String → Saved → Bool
has_key key v = option_eq str_eq v.key_hash (some key)

-- The files that carry the key.
unfoldable pub matching : Service → String → List String → Result (List (String × Saved))
matching svc key [] = ok []
matching svc key (n ∷ ns) =
    let rest = matching svc key ns in
    if is_batch_id n
    then (read_or_conflict (svc.disk n) >>= λ v.
        rest >>= λ ms. ok (if has_key key v then (n, v) ∷ ms else ms))
    else rest

-- `_validate_lineage`, with fuel that is enough.
unfoldable pub lineage : Service → Store → Batch → Result (Unit {0})
lineage svc s r = elim (validate_lineage svc.contract s.records (3 + length svc.keys) [] r) [
  | none ↦ raise runtime_error
  | some o ↦ o
]

unfoldable pub mode_eq : Mode → Mode → Bool
mode_eq only_failed only_failed = true
mode_eq unfinished unfinished = true
mode_eq only_failed unfinished = false
mode_eq unfinished only_failed = false

unfoldable pub lineage_of : Service → Store → Option Batch → Result (Unit {0})
lineage_of svc s none = raise value_error
lineage_of svc s (some r) = lineage svc s r

-- The key has been used: its batch is returned, or the request is refused.
unfoldable pub replay :
    Service → String → Mode → Store → String × Saved → List (String × Saved) → Result String
replay svc id mode s (saved_id, v) others =
    guard
      ((length others == 0)
        && is_there (s.records saved_id)
        && option_eq str_eq v.parent (some id)
        && option_eq mode_eq v.mode (some mode))
      conflict
    >> or_raise conflict (lineage_of svc s v.whole)
    >> ok saved_id

unfoldable pub state_code : State → ℕ
state_code queued = 0
state_code preparing = 1
state_code sampling = 2
state_code complete = 3
state_code failed = 4
state_code cancelled = 5

unfoldable pub member_eq : Item → Item → Bool
member_eq x y =
    str_eq x.id y.id && (state_code x.state == state_code y.state) && params_eq x.request y.request

-- The fields that must not have changed since the parent was saved.
unfoldable pub same_frozen : Batch → Batch → Bool
same_frozen a b =
    str_eq a.id b.id
    && (state_code a.state == state_code b.state)
    && request_eq a.request b.request
    && option_eq str_eq a.parent b.parent
    && option_eq (list_eq (λ i j. i == j)) a.indices b.indices
    && option_eq mode_eq a.mode b.mode
    && option_eq str_eq a.key_hash b.key_hash
    && list_eq member_eq a.items b.items

unfoldable pub durable_of : Service → Option Batch → Result Batch
durable_of svc none = raise value_error
durable_of svc (some r) = validated svc.contract r

unfoldable pub check_frozen : Service → Store → Batch → Batch → Result (Unit {0})
check_frozen svc s parent durable = validated svc.contract parent >>= λ snapshot.
    guard (same_frozen durable snapshot) value_error >> lineage svc s parent

unfoldable pub check_saved : Service → Store → Batch → Saved → Result (Unit {0})
check_saved svc s parent v = durable_of svc v.whole >>= check_frozen svc s parent

unfoldable pub check_parent : Service → Store → String → Batch → Result (Unit {0})
check_parent svc s id parent = or_raise invalid (svc.disk id >>= check_saved svc s parent)

abbrev pub is_unfinished : Mode → Bool
is_unfinished unfinished = true
is_unfinished only_failed = false

abbrev pub is_chosen : Mode → Item → Bool
is_chosen mode x = is_failed x.state || (is_unfinished mode && not (is_complete x.state))

-- The images to retry, with their positions, from a position on.
unfoldable pub selected : Mode → ℕ → List Item → List (ℕ × Item)
selected mode i [] = []
selected mode i (x ∷ xs) =
    let rest = selected mode (suc i) xs in if is_chosen mode x then (i, x) ∷ rest else rest

abbrev pub binding_of : Store → Item → Option String
binding_of s x =
    or_else (elim x.anime_binding [ none ↦ none | some b ↦ some (some b) ])
      (elim (s.jobs x.id) [ none ↦ none | some y ↦ y.anime_binding ])

abbrev pub is_bound : Option String → Option String → Bool
is_bound none resolved = true
is_bound (some b) resolved = option_eq str_eq resolved (some b)

-- One image to retry: its references still have to be as they were.
unfoldable pub check_image : Service → Store → Option String → Item → Result (Unit {0})
check_image svc s profile_id x =
    guard (svc.contract x.request) value_error
    >> svc.face x.request.reference_id x.request.face_index (svc.kind x.request)
    >> svc.image x.request.reference_id
    >> (svc.binding x.request >>= λ resolved.
        guard (is_bound (binding_of s x) resolved) profile_conflict)
    >> check_profile svc profile_id x.request

unfoldable pub check_images : Service → Store → Option String → List (ℕ × Item) → Result (Unit {0})
check_images svc s profile_id [] = ok tt
check_images svc s profile_id ((i, x) ∷ xs) =
    check_image svc s profile_id x >> check_images svc s profile_id xs

-- [original_indices[index] for index, _ in selected]
unfoldable pub originals : List ℕ → List (ℕ × Item) → Result (List ℕ)
originals is [] = ok []
originals is ((i, x) ∷ xs) = elim (get_elem? is i) [
  | none ↦ raise index_error
  | some k ↦ originals is xs >>= λ ks. ok (k ∷ ks)
]

abbrev pub requests_of : List (ℕ × Item) → List Params
requests_of [] = []
requests_of ((i, x) ∷ xs) = x.request ∷ requests_of xs

abbrev pub is_empty : List (ℕ × Item) → Bool
is_empty [] = true
is_empty (x ∷ xs) = false

-- A batch that is there already, or what is to be submitted.
pub data Plan : Type 0 where
  known : String → Plan
  fresh : BatchRequest → List Params → Provenance → Plan

abbrev pub active : Exn
active = api (status_error identity_batch_active 409)

abbrev pub nothing_chosen : Exn
nothing_chosen = api (status_error identity_batch_retry_empty 409)

unfoldable pub check_new : Service → Store → String → Mode → Batch → Result (Unit {0})
check_new svc s id mode parent =
    let chosen = selected mode 0 parent.items in
    guard (is_terminal parent.state) active
    >> check_parent svc s id parent
    >> guard (not (is_empty chosen)) nothing_chosen
    >> check_images svc s parent.request.profile_id chosen

unfoldable pub planned : String → Mode → String → Batch → List ℕ → Result Plan
planned id mode key parent ks = ok (
    fresh parent.request (requests_of (selected mode 0 parent.items))
      (record { parent = id; indices = ks; mode = mode; key_hash = key }))

unfoldable pub plan_new : Service → Store → String → Mode → String → Batch → Result Plan
plan_new svc s id mode key parent =
    check_new svc s id mode parent
    >> svc.polish parent.request
    >> (ensure_generation_capacity svc.free >>= λ _. ok tt)
    >> (originals (indices_of parent) (selected mode 0 parent.items) >>= planned id mode key parent)

unfoldable pub plan_for :
    Service → Store → String → Mode → String → List (String × Saved) → Result Plan
plan_for svc s id mode key [] = (load true id s).0 >>= plan_new svc s id mode key
plan_for svc s id mode key (m ∷ ms) = replay svc id mode s m ms >>= λ saved_id. ok (known saved_id)

abbrev pub unknown_id : Exn
unknown_id = api (status_error identity_id_invalid 422)

unfoldable pub plan_retry : Service → Store → String → Mode → String → Result Plan
plan_retry svc s id mode idempotency_key =
    let key = svc.digest id idempotency_key in
    svc.is_open
    >> guard (is_batch_id id) unknown_id
    >> (matching svc key svc.names >>= plan_for svc s id mode key)

abbrev pub carried_out :
    Outside → Drawn → Option Index → List String → Store → Result Plan → Result Batch × Desk
carried_out env drawn index ids s (raise e) = (raise e, opened index ids s)
carried_out env drawn index ids s (ok (known id)) = ((load true id s).0, opened index ids s)
carried_out env drawn index ids s (ok (fresh frozen requests provenance)) =
    submit_frozen env drawn frozen requests (some provenance) index ids s

-- `retry`
unfoldable pub retry :
    Outside
    → Service
    → Drawn
    → String
    → Mode
    → String
    → Option Index
    → List String
    → Store
    → Result Batch × Desk
retry env svc drawn id mode idempotency_key index ids s =
    carried_out env drawn index ids s (plan_retry svc s id mode idempotency_key)
