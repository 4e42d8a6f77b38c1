-- ===== src/History/Recovery/Moves.antt =====
-- The three phases of a transaction's folder, and what `_move` does in each.
use mllm_windows_ai_workbenc.Prelude.{
  ℕ, String, ◌≡◌, refl, ◌⊎◌, inl, inr, true, false, none, some, List, [],
}
use mllm_windows_ai_workbenc.History.Record.{Paths, Entry, Record, complete, is_plain}
use mllm_windows_ai_workbenc.History.Reading.{Tree, is_other, is_valid_record, is_record_source}
use mllm_windows_ai_workbenc.History.Reading.Agreement.{
  is_record_source-plain, is_valid_record-entries,
}
use mllm_windows_ai_workbenc.History.Local.{Local, Fault, ◌>>◌, sync_directory, put_back}
use mllm_windows_ai_workbenc.History.Transaction.{move_back}
use mllm_windows_ai_workbenc.History.Recovery.Triples.{
  Post, Post-step, Post-effect, Post-then, Post-check,
}
use mllm_windows_ai_workbenc.History.Recovery.Entries.{
  In, Distinct, are_entries-Checked, are_entries-Distinct,
}
use mllm_windows_ai_workbenc.History.Recovery.Invariant.{Kept, Staged, Base, put_back-Base}

module _ (orig : Tree) (n : String) (r : Record) where
  -- Before the journal, and after a rollback.
  pub record Idle (d : Local) : Type 0 where
    pub base : Base orig n r.files d
    pub no_receipt : d.folder.committed_file ≡ none
    pub no_journal : d.folder.journal_file ≡ none
    pub no_draft : d.folder.committed_tmp_file ≡ none
    pub kept : (a : Entry) → In a r.files → Kept d a

  -- The journal says what may have been moved.
  pub record Open (d : Local) : Type 0 where
    pub base : Base orig n r.files d
    pub no_receipt : d.folder.committed_file ≡ none
    pub journalled : d.folder.journal_file ≡ some (complete r)
    pub present : d.exists ≡ true

  -- The receipt says that all has been moved.
  pub record Committed (d : Local) : Type 0 where
    pub base : Base orig n r.files d
    pub receipt : d.folder.committed_file ≡ some (complete r)
    pub staged : (a : Entry) → In a r.files → Staged d a
    pub present : d.exists ≡ true

  abbrev pub Inv : Local → Type 0
  Inv d = Idle d ⊎ (Open d ⊎ Committed d)

  pub Base-Clean :
      (d : Local)
      → Base orig n r.files d
      → (a : Entry) → In a r.files
      → is_other (d.tree a.source) ≡ false
  Base-Clean d b a i = elim (b.placed a i) [ inl k ↦ rw k.there | inr k ↦ rw k.gone ]

module _ (env : Paths) (size : Record → ℕ) (orig : Tree) (n : String) (r : Record)
    (valid : is_valid_record env orig n r ≡ true) where
  pub distinct : Distinct r.files
  distinct =
      are_entries-Distinct env orig r [] 0 r.files (is_valid_record-entries env orig n r valid)

  pub allowed : (a : Entry) → In a r.files → is_record_source env orig r a ≡ true
  allowed a i =
      (are_entries-Checked env orig r [] 0 r.files (is_valid_record-entries env orig n r valid) a
        i).allowed

  pub plain : (a : Entry) → In a r.files → is_plain env a.source ≡ true
  plain a i = is_record_source-plain env orig orig r a (allowed a i)

  pub put_back-Open :
      (d : Local) (e : Entry)
      → In e r.files
      → Staged d e
      → Open orig n r d
      → Open orig n r (put_back e d)
  put_back-Open d e i k o = record {
    base = put_back-Base orig n r.files distinct d e i k o.base;
    no_receipt = o.no_receipt;
    journalled = o.journalled;
    present = o.present;
  }

  pub move_back-Post :
      (d : Local) (fs : List Fault) (e : Entry)
      → In e r.files
      → Staged d e
      → Open orig n r d
      → Post (Inv orig n r) (λ d'. d' ≡ put_back e d) fs (move_back env size e d fs)
  unfolding move_back
  move_back-Post d fs e i k o = Post-check d fs _ _ _ (plain e i) (
      Post-check d fs _ _ _ (rw k.gone) (
        Post-check d fs _ _ _ (rw k.held) (
          Post-then d fs _ _ (Post-effect (put_back e) d fs (inr (inl o)) refl)
            λ d' gs q. settle d' gs q)))
    where
      settled : Open orig n r (put_back e d)
      settled = put_back-Open d e i k o

      settle :
          (d' : Local) (gs : List Fault)
          → d' ≡ put_back e d
          → Post
              (Inv orig n r)
              (λ d'. d' ≡ put_back e d)
              gs
              ((sync_directory >> sync_directory) d' gs)
      settle d' gs q =
          Post-then d' gs _ _ (Post-step d' gs (rw q (inr (inl settled))) q)
            λ d'' hs q'. Post-step d'' hs (rw q' (inr (inl settled))) q'
