-- ===== src/History/Transaction.antt =====
-- `_write_record`, `_move`, `_matches`, `_cleanup_committed`, `_rollback`, the loop body of
-- `_recover_locked`, and the guarded part of `delete_history_files`.
use mllm_windows_ai_workbenc.Prelude.{
  ℕ, String, Bool, true, false, not, ◌&&◌, ◌||◌, Option, none, some, List, [], ◌∷◌, leb, ◌==◌,
  str_eq, if◌then◌else◌,
}
use Prim.Native.String
use mllm_windows_ai_workbenc.Errors.{
  Exn, Result, ok, raise, os_error, value_error, api, retryable_error,
  history_delete_recovery_required, history_original_delete_failed, history_delete_failed,
}
use mllm_windows_ai_workbenc.History.Record.{
  Paths, Node, file, Entry, Record, complete, broken, max_batch_files, max_journal_bytes, is_plain,
}
use mllm_windows_ai_workbenc.History.Reading.{Tree, is_record_source, read_record}
use mllm_windows_ai_workbenc.History.Local.{
  Local, done, failed, crashed, Outcome, Fault, Slot, journal, journal_tmp, committed,
  committed_tmp, slot_file, temporary, M, pure, throw, catch, check, attempt, gets, modify, step,
  effect, ◌>>=◌, ◌>>◌, sync_directory, is_present, put_slot, unlink, take_out, put_back, no_bins,
  rmdir,
}

-- `_matches`: a regular file of the recorded size, device and inode.
unfoldable pub matches : Option Node → Entry → Bool
matches (some (file i)) e =
    (i.size == e.info.size) && (i.device == e.info.device) && (i.inode == e.info.inode)
matches _ e = false

-- The disk that an action leaves, whether it returns, raises or is cut short.
abbrev pub final : {A : Type 0} → Outcome A → Local
final (done a d fs) = d
final (failed e d fs) = d
final (crashed d) = d

-- The disk just after `folder.mkdir()`.
abbrev pub start : Tree → String → Local
start tree name = record {
  tree = tree;
  folder = record {
    name = name;
    journal_file = none;
    journal_tmp_file = none;
    committed_file = none;
    committed_tmp_file = none;
    bins = λ _. none;
    foreign = false;
  };
  exists = true;
  moving = none;
}

-- `size` is the length in bytes of a record's JSON encoding.
module _ (env : Paths) (size : Record → ℕ) where
  unfoldable pub write_record : Slot → Record → M (Unit {0})
  write_record destination r = do
    check (λ _. leb (size r) max_journal_bytes) value_error
    check (λ d. not (is_present (slot_file (temporary destination) d.folder))) os_error
    effect (put_slot (temporary destination) (some broken))
    effect (put_slot (temporary destination) (some (complete r)))
    step
    effect (λ d. put_slot (temporary destination) none (put_slot destination (some (complete r)) d))
    sync_directory

  -- `_move` from the tree to `<number>.bin`.
  unfoldable pub move_out : Entry → M (Unit {0})
  move_out e = do
    check (λ _. is_plain env e.source) value_error
    check (λ d. not (is_present (d.folder.bins e.staged))) os_error
    check (λ d. is_present (d.tree e.source)) os_error
    effect (take_out e)
    sync_directory
    sync_directory

  -- `_move` from `<number>.bin` back to the tree.
  unfoldable pub move_back : Entry → M (Unit {0})
  move_back e = do
    check (λ _. is_plain env e.source) value_error
    check (λ d. not (is_present (d.tree e.source))) os_error
    check (λ d. is_present (d.folder.bins e.staged)) os_error
    effect (put_back e)
    sync_directory
    sync_directory

  -- The first loop of `_rollback`: the entries to move back, or a ValueError.
  unfoldable pub pairs : Tree → (ℕ → Option Node) → Record → List Entry → Result (List Entry)
  pairs tree bins r [] = ok []
  pairs tree bins r (e ∷ es) =
      let rest = pairs tree bins r es in
      let staged = is_present (bins e.staged) in
      let there = is_present (tree e.source) in
      if not (is_record_source env tree r e)
      then raise value_error
      else if staged
      then (if there || not (matches (bins e.staged) e)
          then raise value_error
          else (elim rest [ ok ps ↦ ok (e ∷ ps) | raise x ↦ raise x ]))
      else if there
      then rest
      else raise value_error

  -- The second loop, over `reversed(pairs)`.
  unfoldable pub move_back_all : List Entry → M (Unit {0})
  move_back_all [] = pure tt
  move_back_all (e ∷ es) = do move_back_all es; move_back e

  -- The journal goes last.
  unfoldable pub rollback : Record → M (Unit {0})
  rollback r = do
    ps ← attempt (λ d. pairs d.tree d.folder.bins r r.files)
    move_back_all ps
    unlink journal_tmp
    unlink committed_tmp
    unlink journal
    rmdir
    sync_directory

  -- An unlink whose OSError is passed over.
  unfoldable pub try_unlink : Slot → M (Unit {0})
  try_unlink s = catch (unlink s) (λ _. pure tt)

  unfoldable pub cleanup_committed : M (Unit {0})
  cleanup_committed = do try_unlink journal_tmp; try_unlink committed_tmp; try_unlink journal

  unfoldable pub all_match : (ℕ → Option Node) → List Entry → Bool
  all_match bins [] = true
  all_match bins (e ∷ es) = matches (bins e.staged) e && all_match bins es

  -- The three branches of the loop of `_recover_locked`.
  unfoldable pub recover_committed : M (Unit {0})
  unfolding all_match
  recover_committed = do
    r ← attempt (λ d. read_record env d.tree d.folder.name d.folder.committed_file)
    check (λ d. all_match d.folder.bins r.files) value_error
    cleanup_committed

  unfoldable pub recover_begun : M (Unit {0})
  recover_begun = do
    r ← attempt (λ d. read_record env d.tree d.folder.name d.folder.journal_file)
    rollback r

  unfoldable pub recover_unpublished : M (Unit {0})
  recover_unpublished = do
    check
        (λ d. not (is_present d.folder.committed_tmp_file) && no_bins max_batch_files d.folder.bins)
        value_error
    unlink journal_tmp
    rmdir
    sync_directory

  unfoldable pub recover_branch : Bool → Bool → M (Unit {0})
  recover_branch true begun = recover_committed
  recover_branch false true = recover_begun
  recover_branch false false = recover_unpublished

  -- One turn of that loop.
  unfoldable pub recover_folder : M (Unit {0})
  recover_folder = do
    check (λ d. not d.folder.foreign) value_error
    receipt ← gets (λ d. is_present d.folder.committed_file)
    begun ← gets (λ d. is_present d.folder.journal_file)
    recover_branch receipt begun

  -- The staging loop; `moving` names the file in hand.
  unfoldable pub stage : List Entry → M (Unit {0})
  stage [] = modify (λ d. record d { moving = none })
  stage (e ∷ es) = do
    modify (λ d. record d { moving = some e.source })
    check (λ d. matches (d.tree e.source) e) value_error
    move_out e
    stage es

  unfoldable pub is_original_of : String → Option String → Bool
  is_original_of item_id none = false
  is_original_of item_id (some p) =
      str_eq p (String.◌++◌ "data/identity/originals/" (String.◌++◌ item_id ".png"))

  -- A failing rollback becomes the retryable recovery error.
  unfoldable pub recovery_failed : Exn → M (Unit {0})
  recovery_failed (api x) = throw (api x)
  recovery_failed _ = throw (api (retryable_error history_delete_recovery_required))

  unfoldable pub delete_failed : Bool → M (Unit {0})
  delete_failed original = throw (
      api (
        retryable_error
          (if original then history_original_delete_failed else history_delete_failed)))

  unfoldable pub abandon : Record → M (Unit {0})
  abandon r = do
    catch (rollback r) recovery_failed
    original ← gets (λ d. is_original_of r.item_id d.moving)
    delete_failed original

  unfoldable pub undo_unless : Bool → Record → M (Unit {0})
  undo_unless true r = pure tt
  undo_unless false r = abandon r

  -- The handler `except Exception`: a published receipt is never rolled back.
  unfoldable pub undo : Record → M (Unit {0})
  undo r = do receipt ← gets (λ d. is_present d.folder.committed_file); undo_unless receipt r

  unfoldable pub publish : Record → M (Unit {0})
  publish r = do write_record journal r; stage r.files; write_record committed r

  -- From `moving = None` to the end, in the folder that was just made.
  unfoldable pub transact : Record → M (Unit {0})
  transact r = do
    modify (λ d. record d { moving = none })
    catch (publish r) (λ _. undo r)
    cleanup_committed

  -- Recovery at the next start: of the folder, where the loop finds it.
  unfoldable pub restart_if : Bool → M (Unit {0})
  restart_if true = recover_folder
  restart_if false = pure tt

  unfoldable pub restart : M (Unit {0})
  restart d fs = restart_if d.exists d fs

  -- Restarts that are themselves interrupted, one after the other.
  unfoldable pub restarts : List (List Fault) → Local → Local
  restarts [] d = d
  restarts (fs ∷ rest) d = restarts rest (final (restart d fs))
