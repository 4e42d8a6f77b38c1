-- ===== src/Batches/Ending.antt =====
-- `_finish`: a batch that was cancelled or has failed, and its images.
pub mod Ended
use Prim.Native.String
use mllm_windows_ai_workbenc.Prelude.{
  ℕ, ◌*◌, String, Bool, true, false, ◌&&◌, ◌||◌, Option, none, some, List, [], ◌∷◌, leb, ◌==◌,
  str_eq, if◌then◌else◌, put, any_of,
}
use mllm_windows_ai_workbenc.Errors.{
  Exn, Result, ok, raise, os_error, api, status_error, identity_path_invalid,
}
use mllm_windows_ai_workbenc.Batches.Model.{
  Item, Batch, State, is_complete, is_cancelled, Percent, whole,
}
use mllm_windows_ai_workbenc.Batches.Store.{
  Store, Action, next, ◌>>=◌, pure, put_job, update, execution_elapsed, save, load,
}
use mllm_windows_ai_workbenc.Batches.Completion.{Outside, complete_count, prior_of}

abbrev pub is_there {ℓ} : {A : Type ℓ} → Option A → Bool
is_there none = false
is_there (some _) = true

-- "；".join(filter(None, (a, b))), for a text b
abbrev pub joined : Option String → String → String
joined none b = b
joined (some a) b = if str_eq a "" then b else String.◌++◌ a (String.◌++◌ "；" b)

abbrev pub item_error : Option String → Option String → Option String
item_error error none = error
item_error error (some cleanup) = some (joined error cleanup)

abbrev pub stopped : State → Option String → Option String → Item → Item
stopped state error cleanup x = record x {
  state = state;
  message = if is_cancelled state then "已取消生成" else "人物批次中断";
  result = none;
  error = item_error error cleanup;
}

-- An image after the loop's body, whether its files were left behind, and whether its job was not
-- saved.
pub record Stop : Type 0 where
  pub item : Item
  pub left_behind : Bool
  pub unsaved : Bool

unfoldable pub settle_stop :
    State
    → Option String
    → Option String
    → String
    → Item
    → Result Item × Store
    → Result Stop × Store
settle_stop state error cleanup id prior (ok y, t) =
    (ok (record { item = y; left_behind = is_there cleanup; unsaved = false }), t)
settle_stop state error cleanup id prior (raise os_error, t) =
    let y = stopped state error cleanup prior in
    (ok (record { item = y; left_behind = is_there cleanup; unsaved = true }), put_job id y t)
settle_stop state error cleanup id prior (raise e, t) = (raise e, t)

abbrev pub path_invalid : Exn
path_invalid = api (status_error identity_path_invalid 422)

-- The body of the loop. What is complete, or complete but pending, stays. An image whose outputs'
-- paths lead out of Dream ends `_finish` by an exception.
unfoldable pub stop_item : Outside → State → Option String → Item → Action Stop
stop_item env state error x s =
    let prior = prior_of x s in
    if is_complete prior.state
    then (
      ok (record { item = prior; left_behind = false; unsaved = false }),
      elim (s.pending x.id) [ none ↦ s | some _ ↦ put_job x.id prior s ],
    )
    else if env.has_paths x.id
    then settle_stop state error (env.cleanup x.id) x.id prior
        (update x.id (stopped state error (env.cleanup x.id)) s)
    else (raise path_invalid, s)

unfoldable pub stop_items : Outside → State → Option String → List Item → Action (List Stop)
stop_items env state error [] = pure []
stop_items env state error (x ∷ xs) =
    stop_item env state error x >>= λ y. stop_items env state error xs >>= λ ys. pure (y ∷ ys)

abbrev pub stop_list : List Stop → List Item
stop_list [] = []
stop_list (y ∷ ys) = y.item ∷ stop_list ys

abbrev pub unsaved_message : String
unsaved_message = "批次已停止，但状态或未完成输出未能完整保存，请检查磁盘；原记录将在重启后恢复"

-- f"{error or ''} {message}".strip(), for texts with no outer white space
abbrev pub with_message : Option String → Option String
with_message none = some unsaved_message
with_message (some e) =
    if str_eq e ""
    then some unsaved_message
    else some (String.◌++◌ e (String.◌++◌ " " unsaved_message))

abbrev pub batch_error : Option String → Bool → Option String
batch_error error false = error
batch_error error true = some (joined error "部分文件清理失败，请检查文件占用或权限及子任务错误")

-- min(99, progress)
abbrev pub below_100 : Percent → Percent
below_100 p = if leb p.num (99 * p.den) then p else whole 99

abbrev pub end_progress : Bool → Bool → Percent → Percent
end_progress pending all p = if pending then below_100 p else if all then whole 100 else p

-- The record after the loop; `waiting` and `waiting_after` say whether an image is pending.
unfoldable pub ended : State → Option String → Batch → List Stop → Bool → Bool → Batch
ended state error r stops waiting waiting_after =
    let items = stop_list stops in
    let e = batch_error error (any_of (λ (y : Stop). y.left_behind) stops) in
    record r {
      items = items;
      completed_items = complete_count items;
      state = state;
      stage = if is_cancelled state then "已取消" else "批次失败";
      eta_ms = none;
      progress = end_progress waiting_after (complete_count items == r.total_items) r.progress;
      error = if waiting || any_of (λ (y : Stop). y.unsaved) stops then with_message e else e;
    }

abbrev pub any_pending : List Item → Store → Bool
any_pending items s = any_of (λ (x : Item). is_there (s.pending x.id)) items

-- The last part: a record that cannot be saved is still the one in memory.
unfoldable pub keep : Batch → Result Batch × Store → Result Batch × Store
keep r (ok q, t) = (ok q, t)
keep r (raise os_error, t) =
    let q = record r { error = with_message r.error; elapsed_ms = execution_elapsed r t } in
    (ok q, record t { records = put r.id (some q) t.records })
keep r (raise e, t) = (raise e, t)

unfoldable pub finish : Outside → String → State → Option String → Action Batch
finish env id state error s = next (load true id s) λ r t.
    next (stop_items env state error r.items t) λ stops u.
      let q = ended state error r stops (any_pending r.items t) (any_pending (stop_list stops) u) in
      keep q (save q u)
