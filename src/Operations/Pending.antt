-- ===== src/Operations/Pending.antt =====
-- `_read_object` and `_pending` of operations.py: the count of unfinished persisted records.
use mllm_windows_ai_workbenc.Prelude.{
  ℕ, ◌+◌, ◌*◌, ◌≤◌, String, ◌≡◌, inl, inr, Bool, true, false, not, ◌&&◌, ◌||◌, Option, none, some,
  List, [], ◌∷◌, arith, ltb, leb, length, select, count_if, all_of, elem, str_eq, if◌then◌else◌,
  Bool-cases,
}
use text.Mathlib.Text.{starts_with}

abbrev pub max_records : ℕ
max_records = 2000

abbrev pub active_states : List String
active_states = "queued" ∷ "preparing" ∷ "sampling" ∷ "decoding" ∷ []

abbrev pub terminal_states : List String
terminal_states = "complete" ∷ "failed" ∷ "cancelled" ∷ []

-- A JSON value as far as the routine looks at it: the state of an object, if that is a text.
pub data Parsed : Type 0 where
  object : Option String → Parsed
  not_object malformed : Parsed

-- Bytes on the disk, or a file that cannot be read.
pub data Content : Type 0 where
  unreadable : Content
  raw : ℕ → Parsed → Content

-- `none` stands for the OSError, ValueError or RecursionError that the caller catches.
pub read_object : Content → ℕ → Option (Option String)
read_object unreadable limit = none
read_object (raw size (object state)) limit = if ltb limit size then none else some state
read_object (raw size _) limit = none

-- An entry of the folder, with the suffix that pathlib gives its name.
pub record Dirent : Type 0 where
  pub name : String
  pub suffix : String
  pub content : Content

pub data Pending : Type 0 where
  unknown : Pending
  known : ℕ → Pending

pub is_record : String → Dirent → Bool
is_record dashed d = starts_with dashed d.name && str_eq d.suffix ".json"

-- A missing state, one that is no text and one that is not listed all return `unknown`.
is_active : String → Bool
is_active s = elem s active_states

record_state : Dirent → Option String
unfolding read_object
record_state d = elim (read_object d.content (1024 * 1024)) [
  | none ↦ none
  | some none ↦ none
  | some (some s) ↦ if elem s active_states || elem s terminal_states then some s else none
]

-- The loop over the folder: `continue`, the two early returns and the counter.
pending_loop : String → List Dirent → ℕ → ℕ → Pending
pending_loop dashed [] count scanned = known count
pending_loop dashed (d ∷ ds) count scanned =
    let skip = pending_loop dashed ds count scanned in
    let go_on = λ (n : ℕ). pending_loop dashed ds n (scanned + 1) in
    if not (is_record dashed d)
    then skip
    else if ltb max_records (scanned + 1)
    then unknown
    else (elim (record_state d) [
      | none ↦ unknown
      | some s ↦ go_on (if is_active s then count + 1 else count)
    ])

-- A folder that cannot be listed is `none`.
pub pending : String → Option (List Dirent) → Pending
unfolding pending_loop is_record record_state is_active
pending dashed none = unknown
pending dashed (some ds) = pending_loop dashed ds 0 0

-- What the count is meant to be, with no loop: over the records of the folder alone.
abbrev has_state : Dirent → Bool
has_state d = elim (record_state d) [ none ↦ false | some _ ↦ true ]

abbrev counts : Dirent → Bool
counts d = elim (record_state d) [ none ↦ false | some s ↦ is_active s ]

pub pending_spec : String → List Dirent → Pending
pending_spec dashed ds =
    let records = select (is_record dashed) ds in
    if leb (length records) max_records && all_of has_state records
    then known (count_if counts records)
    else unknown

abbrev limited : Bool → Bool → ℕ → Pending
limited fits valid n = if fits && valid then known n else unknown

pending_loop-eq :
    (dashed : String) (ds : List Dirent) (count scanned : ℕ)
    → scanned ≤ max_records
    → pending_loop dashed ds count scanned
      ≡ limited
          (leb (scanned + length (select (is_record dashed) ds)) max_records)
          (all_of has_state (select (is_record dashed) ds))
          (count + count_if counts (select (is_record dashed) ds))
unfolding pending_loop
pending_loop-eq dashed [] count scanned h = ground arith
pending_loop-eq dashed (d ∷ ds) count scanned h = elim (Bool-cases (is_record dashed d)) [
  | inr skipped ↦ rw skipped (pending_loop-eq dashed ds count scanned h)
  | inl counted ↦ ground (
    arith,
    pending_loop-eq dashed ds count (scanned + 1),
    pending_loop-eq dashed ds (count + 1) (scanned + 1),
  )
]

-- The count that is reported is that of the records whose persisted state is active, and it is
-- reported exactly when the folder lists no more than 2,000 records, all with a known state.
pub pending-eq-spec :
    (dashed : String) (ds : List Dirent) → pending dashed (some ds) ≡ pending_spec dashed ds
unfolding pending pending_spec
pending-eq-spec dashed ds = ground (arith, pending_loop-eq dashed ds 0 0)
