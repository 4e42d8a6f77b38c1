-- ===== src/History/Record.antt =====
-- Journal records of history_transactions.py: what they hold, and the checks of `_read_record`.
use Prim.Native.String
use mllm_windows_ai_workbenc.Prelude.{
  ℕ, ◌+◌, ◌*◌, ◌^◌, String, Bool, false, not, ◌&&◌, ◌||◌, Option, none, some, List, [], ◌∷◌, ltb,
  leb, ◌==◌, all_of, elem, codes, is_hex_run, is_tagged_hex, has_code, last_code,
}

abbrev pub max_trash_bytes : ℕ
max_trash_bytes = 2 * 1024 ^ 3

abbrev pub max_transactions : ℕ
max_transactions = 1024

abbrev pub max_journal_bytes : ℕ
max_journal_bytes = 4 * 1024 * 1024

abbrev pub max_files : ℕ
max_files = 6

abbrev pub max_refinements : ℕ
max_refinements = 128

abbrev pub max_identity_files : ℕ
max_identity_files = max_files + 3 * max_refinements + 1

abbrev pub max_batch_items : ℕ
max_batch_items = 16

abbrev pub max_batch_files : ℕ
max_batch_files = max_identity_files * max_batch_items

-- `_TX_ID`, `_IDENTITY_ID` and `_BATCH_ID`, as full matches.
unfoldable pub is_tx_id : String → Bool
is_tx_id s = is_hex_run 32 (codes s)

unfoldable pub is_identity_id : String → Bool
is_identity_id s = is_tagged_hex "identity-" 24 s

unfoldable pub is_batch_id : String → Bool
is_batch_id s = is_tagged_hex "batch-" 24 s

-- `len` counts the bytes of the UTF-8 encoding. No slash, backslash, colon or control character.
unfoldable pub is_valid_id : String → Bool
is_valid_id s =
    ltb 0 (String.len s)
    && leb (String.len s) 512
    && not (elem s ("." ∷ ".." ∷ []))
    && not (has_code (0x2f ∷ 0x5c ∷ 0x3a ∷ []) (codes s))
    && all_of (λ c. leb 32 c) (codes s)

-- What pathlib and the operating system say of a path below the root, given as its posix text:
-- its parts, whether the text is relative and canonical, and whether the path or a folder above it
-- is a symbolic link or a reparse point.
pub record Paths : Type 0 where
  pub parts : String → List String
  pub is_canonical : String → Bool
  pub is_redirected : String → Bool

-- The component test of `_plain`: no dots, no alternate streams, no trailing space or dot.
is_plain_part : String → Bool
is_plain_part part =
    not (elem part ("." ∷ ".." ∷ []))
    && not (has_code (0x3a ∷ 0x5c ∷ 0 ∷ []) (codes part))
    && not (elim (last_code (codes part)) [ none ↦ false | some c ↦ (c == 0x20) || (c == 0x2e) ])

unfoldable pub is_plain : Paths → String → Bool
unfolding is_plain_part
is_plain env p = all_of is_plain_part (env.parts p) && not (env.is_redirected p)

-- A file as `stat` tells it apart, and anything that is no regular file.
pub record Info : Type 0 where
  pub size : ℕ
  pub device : ℕ
  pub inode : ℕ

pub data Node : Type 0 where
  file : Info → Node
  other : Node

-- One file of a transaction: `staged` is the number in its name `<number>.bin`.
pub record Entry : Type 0 where
  pub source : String
  pub staged : ℕ
  pub info : Info
  pub owner : Option String

pub data Kind : Type 0 where
  history_hidden batch_deleted unlisted : Kind

-- A journal or a receipt; `extra` says whether the object holds further keys.
pub record Record : Type 0 where
  pub version : ℕ
  pub transaction_id : String
  pub item_id : String
  pub kind : Option Kind
  pub member_ids : Option (List String)
  pub files : List Entry
  pub extra : Bool

-- A JSON file on the disk: an object of the shape of a record, or bytes that are none (partial,
-- not JSON, or with a field of another type).
pub data Content : Type 0 where
  complete : Record → Content
  broken : Content
