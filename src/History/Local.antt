-- ===== src/History/Local.antt =====
-- The disk that one transaction of history_transactions.py works on, and the file operations that
-- it uses. Each operation may fail with an OSError or be the point where the process exits.
use mllm_windows_ai_workbenc.Prelude.{
  ℕ, zero, suc, String, Bool, true, false, not, ◌&&◌, Option, none, some, List, [], ◌∷◌, ◌==◌,
  str_eq, if◌then◌else◌,
}
use mllm_windows_ai_workbenc.Errors.{Exn, os_error, Result, ok, raise}
use mllm_windows_ai_workbenc.History.Record.{Node, Entry, Content, max_batch_files}
use mllm_windows_ai_workbenc.History.Reading.{Tree}

-- The four JSON files of a transaction's folder.
pub data Slot : Type 0 where
  journal journal_tmp committed committed_tmp : Slot

-- A folder of the trash: its JSON files, `<number>.bin`, and whether it holds anything else.
pub record Folder : Type 0 where
  pub name : String
  pub journal_file : Option Content
  pub journal_tmp_file : Option Content
  pub committed_file : Option Content
  pub committed_tmp_file : Option Content
  pub bins : ℕ → Option Node
  pub foreign : Bool

abbrev pub slot_file : Slot → Folder → Option Content
slot_file journal f = f.journal_file
slot_file journal_tmp f = f.journal_tmp_file
slot_file committed f = f.committed_file
slot_file committed_tmp f = f.committed_tmp_file

abbrev pub set_slot : Slot → Option Content → Folder → Folder
set_slot journal c f = record f { journal_file = c }
set_slot journal_tmp c f = record f { journal_tmp_file = c }
set_slot committed c f = record f { committed_file = c }
set_slot committed_tmp c f = record f { committed_tmp_file = c }

-- with_suffix(suffix + '.tmp')
abbrev pub temporary : Slot → Slot
temporary journal = journal_tmp
temporary committed = committed_tmp
temporary s = s

-- The files below the root, the transaction's folder, whether that folder exists, and the value of
-- the variable `moving` of `delete_history_files`.
pub record Local : Type 0 where
  pub tree : Tree
  pub folder : Folder
  pub exists : Bool
  pub moving : Option String

-- What happens at an operation: it works, it raises an OSError, or the process exits before it.
pub data Fault : Type 0 where
  fine fail crash : Fault

-- A crash is no exception: no handler runs.
pub data Outcome (A : Type 0) : Type 0 where
  done : A → Local → List Fault → Outcome A
  failed : Exn → Local → List Fault → Outcome A
  crashed : Local → Outcome A

abbrev pub M : Type 0 → Type 0
M A = Local → List Fault → Outcome A

unfoldable pub pure : {A : Type 0} → A → M A
pure a d fs = done a d fs

unfoldable pub throw : {A : Type 0} → Exn → M A
throw e d fs = failed e d fs

unfoldable pub continue : {A B : Type 0} → Outcome A → (A → M B) → Outcome B
continue (done a d fs) k = k a d fs
continue (failed e d fs) k = failed e d fs
continue (crashed d) k = crashed d

infixl 5 ◌>>=◌ ◌>>◌
unfoldable pub ◌>>=◌ : {A B : Type 0} → M A → (A → M B) → M B
unfolding continue
◌>>=◌ m k d fs = continue (m d fs) k

unfoldable pub ◌>>◌ : {B : Type 0} → M (Unit {0}) → M B → M B
unfolding ◌>>=◌
m >> k = m >>= λ _. k

unfoldable pub on_failure : {A : Type 0} → Outcome A → (Exn → M A) → Outcome A
on_failure (done a d fs) h = done a d fs
on_failure (failed e d fs) h = h e d fs
on_failure (crashed d) h = crashed d

-- try: m except Exception as e: handler e
unfoldable pub catch : {A : Type 0} → M A → (Exn → M A) → M A
unfolding on_failure
catch m handler d fs = on_failure (m d fs) handler

-- `if not test: raise e`
unfoldable pub check : (Local → Bool) → Exn → M (Unit {0})
check test e d fs = if test d then done tt d fs else failed e d fs

-- A computation that may raise, on the disk as it is.
unfoldable pub attempt : {A : Type 0} → (Local → Result A) → M A
attempt f d fs = elim (f d) [ ok a ↦ done a d fs | raise e ↦ failed e d fs ]

unfoldable pub gets : {A : Type 0} → (Local → A) → M A
gets f d fs = done (f d) d fs

unfoldable pub modify : (Local → Local) → M (Unit {0})
modify f d fs = done tt (f d) fs

-- One operation of the file system.
unfoldable pub step : M (Unit {0})
step d [] = done tt d []
step d (fine ∷ fs) = done tt d fs
step d (fail ∷ fs) = failed os_error d fs
step d (crash ∷ fs) = crashed d

unfoldable pub effect : (Local → Local) → M (Unit {0})
unfolding step modify ◌>>◌
effect f = do step; modify f

-- `_sync_directory`: an fsync that may fail, and does nothing on Windows.
abbrev pub sync_directory : M (Unit {0})
sync_directory = step

abbrev pub is_present {ℓ} : {A : Type ℓ} → Option A → Bool
is_present none = false
is_present (some _) = true

abbrev pub put_slot : Slot → Option Content → Local → Local
put_slot s c d = record d { folder = set_slot s c d.folder }

-- path.unlink(missing_ok=True)
unfoldable pub unlink : Slot → M (Unit {0})
unlink s = effect (put_slot s none)

-- Writes at one name.
abbrev pub write_at : String → Option Node → Tree → Tree
write_at p v t q = if str_eq p q then v else t q

abbrev pub write_bin : ℕ → Option Node → (ℕ → Option Node) → ℕ → Option Node
write_bin i v b j = if i == j then v else b j

-- The renames of `_move`, out of the tree and back.
abbrev pub take_out : Entry → Local → Local
take_out e d = record d {
  tree = write_at e.source none d.tree;
  folder = record d.folder { bins = write_bin e.staged (d.tree e.source) d.folder.bins };
}

abbrev pub put_back : Entry → Local → Local
put_back e d = record d {
  tree = write_at e.source (d.folder.bins e.staged) d.tree;
  folder = record d.folder { bins = write_bin e.staged none d.folder.bins };
}

-- Whether no `<number>.bin` is there, over the numbers that a transaction may use.
unfoldable pub no_bins : ℕ → (ℕ → Option Node) → Bool
no_bins zero b = true
no_bins (suc n) b = not (is_present (b n)) && no_bins n b

unfoldable pub is_empty_folder : Folder → Bool
unfolding no_bins
is_empty_folder f =
    not (is_present f.journal_file)
    && not (is_present f.journal_tmp_file)
    && not (is_present f.committed_file)
    && not (is_present f.committed_tmp_file)
    && not f.foreign
    && no_bins max_batch_files f.bins

-- folder.rmdir(), which refuses a folder that is not empty.
unfoldable pub rmdir : M (Unit {0})
rmdir = do check (λ d. is_empty_folder d.folder) os_error; effect (λ d. record d { exists = false })
