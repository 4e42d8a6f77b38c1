-- ===== src/History/Recovery/Undo.antt =====
-- The handler of `delete_history_files`, the cleanup, the whole transaction, and the recovery loop.
use mllm_windows_ai_workbenc.Prelude.{
  ℕ, String, ◌≡◌, refl, ◌⊎◌, inl, inr, Bool, true, false, none, some, List, [], ◌∷◌, leb, select,
}
use mllm_windows_ai_workbenc.Errors.{Exn, api, ok}
use mllm_windows_ai_workbenc.History.Record.{
  Paths, Entry, Record, complete, max_journal_bytes, max_batch_files,
}
use mllm_windows_ai_workbenc.History.Reading.{Tree, is_other, is_valid_record, read_record}
use mllm_windows_ai_workbenc.History.Reading.Agreement.{Clean, is_valid_record-agrees}
use mllm_windows_ai_workbenc.History.Local.{
  Slot, journal, journal_tmp, committed_tmp, Local, Fault, ◌>>=◌, pure, throw, gets, unlink,
  put_slot, is_present,
}
use mllm_windows_ai_workbenc.History.Transaction.{
  rollback, move_back_all, try_unlink, cleanup_committed, all_match, recover_committed,
  recover_begun, recover_unpublished, recover_branch, recover_folder, recovery_failed,
  delete_failed, abandon, undo_unless, undo, transact,
}
use mllm_windows_ai_workbenc.History.Recovery.Triples.{
  Post, Caught, Caught-of-Post, Caught-then, Post-effect, Post-then, Post-check, Post-attempt,
  Post-gets, Post-modify, Post-mono, Post-catch, Post-stop,
}
use mllm_windows_ai_workbenc.History.Recovery.Entries.{In}
use mllm_windows_ai_workbenc.History.Recovery.Invariant.{Staged, Base}
use mllm_windows_ai_workbenc.History.Recovery.Moves.{Idle, Committed, Inv, Base-Clean}
use mllm_windows_ai_workbenc.History.Recovery.Slots.{
  Kept-put_slot, Staged-put_slot, Base-put_slot, bins-none, no_bins-true,
}
use mllm_windows_ai_workbenc.History.Recovery.Rollback.{is_staged, pairs-eq, matches_self}
use mllm_windows_ai_workbenc.History.Recovery.Home.{Empty, Removed, rmdir-Post, rollback-Post}
use mllm_windows_ai_workbenc.History.Recovery.Staging.{Idle-put_slot, Empty-moving, publish-Post}

module _ (orig : Tree) (n : String) (r : Record) where
  Committed-put_slot :
      (s : Slot) (d : Local)
      → (put_slot s none d).folder.committed_file ≡ d.folder.committed_file
      → Committed orig n r d
      → Committed orig n r (put_slot s none d)
  Committed-put_slot s d free h = record {
    base = Base-put_slot orig n r.files s none d h.base;
    receipt = rw free h.receipt;
    present = h.present;
    staged = λ a i. Staged-put_slot s none d a (h.staged a i);
  }

  Empty-unlink : (d : Local) → Idle orig n r d → Empty orig n r (put_slot journal_tmp none d)
  Empty-unlink d h = record { idle = Idle-put_slot orig n r none d h; no_draft = refl }

  Empty-unlink_receipt :
      (d : Local) → Empty orig n r d → Empty orig n r (put_slot committed_tmp none d)
  Empty-unlink_receipt d e = record {
    idle = record {
      base = Base-put_slot orig n r.files committed_tmp none d e.idle.base;
      no_receipt = e.idle.no_receipt;
      no_journal = e.idle.no_journal;
      no_draft = refl;
      kept = λ a i. Kept-put_slot committed_tmp none d a (e.idle.kept a i);
    };
    no_draft = e.no_draft;
  }

  Empty-unlink_journal : (d : Local) → Empty orig n r d → Empty orig n r (put_slot journal none d)
  Empty-unlink_journal d e = record {
    idle = record {
      base = Base-put_slot orig n r.files journal none d e.idle.base;
      no_receipt = e.idle.no_receipt;
      no_journal = refl;
      no_draft = e.idle.no_draft;
      kept = λ a i. Kept-put_slot journal none d a (e.idle.kept a i);
    };
    no_draft = e.no_draft;
  }

  select-none :
      (p : Entry → Bool) (es : List Entry)
      → ((a : Entry) → In a es → p a ≡ false)
      → select p es ≡ []
  select-none p [] h = refl
  select-none p (e ∷ es) h = rw (h e (inl refl)) (select-none p es (λ a i. h a (inr i)))

module _ (env : Paths) (size : Record → ℕ) (orig : Tree) (n : String) (r : Record)
    (valid : is_valid_record env orig n r ≡ true) where
  -- A rollback before the journal was published has nothing to move.
  rollback-Idle-Post :
      (d : Local) (fs : List Fault)
      → Idle orig n r d
      → Post (Inv orig n r) (Removed orig n r) fs (rollback env size r d fs)
  unfolding rollback unlink move_back_all pure
  rollback-Idle-Post d fs h =
      let nothing =
        select-none orig n r (is_staged env size orig n r valid d) r.files
          (λ a i. rw (h.kept a i).unstaged) in
      Post-attempt d fs _ _ []
        (rw (pairs-eq env size orig n r valid d r.files h.base (λ a i. i)) (rw nothing))
        (Post-then {Q = Idle orig n r} d fs _ _ (record { at = (h, λ e. e) })
          λ d₀ f₀ h₀.
            Post-then d₀ f₀ _ _ (Post-effect _ d₀ f₀ (inl h₀) (Empty-unlink orig n r d₀ h₀))
              λ d₁ f₁ h₁.
                Post-then d₁ f₁ _ _
                  (Post-effect _ d₁ f₁ (inl h₁.idle) (Empty-unlink_receipt orig n r d₁ h₁))
                  λ d₂ f₂ h₂.
                    Post-then d₂ f₂ _ _
                      (Post-effect _ d₂ f₂ (inl h₂.idle) (Empty-unlink_journal orig n r d₂ h₂))
                      λ d₃ f₃ h₃. rmdir-Post orig n r d₃ f₃ h₃)

  recovery_failed-Caught :
      (e : Exn) (d : Local) (fs : List Fault)
      → Inv orig n r d
      → Caught (Inv orig n r) (Removed orig n r) (recovery_failed env size e d fs)
  unfolding recovery_failed throw
  recovery_failed-Caught (api x) d fs h = h
  recovery_failed-Caught _ d fs h = h

  abandon-Caught :
      (d : Local) (fs : List Fault)
      → Post (Inv orig n r) (Removed orig n r) fs (rollback env size r d fs)
      → Caught (Inv orig n r) (Committed orig n r) (abandon env size r d fs)
  unfolding abandon delete_failed throw ◌>>=◌ gets
  abandon-Caught d fs h =
      Caught-then (Inv orig n r) (Removed orig n r) (Committed orig n r) d fs _ _
        (Caught-of-Post fs _ (Post-catch d fs _ _ h recovery_failed-Caught)) λ d' gs q. inl q.idle

  undo-Caught :
      (e : Exn) (d : Local) (fs : List Fault)
      → Inv orig n r d
      → Caught (Inv orig n r) (Committed orig n r) (undo env size r d fs)
  unfolding undo undo_unless gets ◌>>=◌ pure
  undo-Caught e d fs (inl h) = simp h.no_receipt (abandon-Caught d fs (rollback-Idle-Post d fs h))
  undo-Caught e d fs (inr (inl o)) =
      simp o.no_receipt (abandon-Caught d fs (rollback-Post env size orig n r valid d fs o))
  undo-Caught e d fs (inr (inr c)) = simp c.receipt c

  try_unlink-Post :
      (s : Slot) (d : Local) (fs : List Fault)
      → ((d : Local) → (put_slot s none d).folder.committed_file ≡ d.folder.committed_file)
      → Committed orig n r d
      → Post (Committed orig n r) (Committed orig n r) fs (try_unlink env size s d fs)
  unfolding try_unlink unlink pure
  try_unlink-Post s d fs free c =
      Post-catch d fs _ _ (Post-effect _ d fs c (Committed-put_slot orig n r s d (free d) c))
        λ e d' gs h. h

  pub cleanup-Post :
      (d : Local) (fs : List Fault)
      → Committed orig n r d
      → Post (Inv orig n r) (Committed orig n r) fs (cleanup_committed env size d fs)
  unfolding cleanup_committed
  cleanup-Post d fs c =
      Post-stop fs _
        (Post-then d fs _ _ (try_unlink-Post journal_tmp d fs (λ d. refl) c) λ d₁ f₁ c₁.
          Post-then d₁ f₁ _ _ (try_unlink-Post committed_tmp d₁ f₁ (λ d. refl) c₁)
            λ d₂ f₂ c₂. try_unlink-Post journal d₂ f₂ (λ d. refl) c₂)
        λ d h. inr (inr h)

  pub transact-Post :
      (d : Local) (fs : List Fault)
      → leb (size r) max_journal_bytes ≡ true
      → Empty orig n r d
      → d.exists ≡ true
      → Post (Inv orig n r) (Committed orig n r) fs (transact env size r d fs)
  unfolding transact
  transact-Post d fs fits e p = Post-modify d fs _ _ (
      Post-then _ fs _ _
        (Post-catch _ fs _ _
          (publish-Post env size orig n r valid fits _ fs (Empty-moving orig n r none d e) p)
          undo-Caught)
        λ d' gs c. cleanup-Post d' gs c)

  -- The record is read back, whatever has been moved.
  reread :
      (d : Local)
      → Base orig n r.files d
      → read_record env d.tree d.folder.name (some (complete r)) ≡ ok r
  unfolding read_record
  reread d b = rw (
    b.name,
    is_valid_record-agrees env orig d.tree n r (listed r.files (λ a i. Base-Clean orig n r d b a i))
        valid,
  )
    where
      listed :
          (es : List Entry)
          → ((a : Entry) → In a es → is_other (d.tree a.source) ≡ false)
          → Clean env orig d.tree es
      listed [] h = tt
      listed (e ∷ es) h = (h e (inl refl), listed es (λ a i. h a (inr i)))

  all_match-Staged :
      (d : Local) (es : List Entry)
      → ((a : Entry) → In a es → Staged d a)
      → all_match env size d.folder.bins es ≡ true
  unfolding all_match
  all_match-Staged d [] h = refl
  all_match-Staged d (e ∷ es) h =
      rw ((h e (inl refl)).held, matches_self e, all_match-Staged d es (λ a i. h a (inr i)))

  abbrev pub Recovered : Local → Type 0
  Recovered d = Removed orig n r d ⊎ Committed orig n r d

  branch-Post :
      (d : Local) (fs : List Fault)
      → Inv orig n r d
      → Post (Inv orig n r) Recovered fs (
          recover_branch env size
            (is_present d.folder.committed_file)
            (is_present d.folder.journal_file)
            d
            fs)
  unfolding recover_branch recover_committed recover_begun recover_unpublished unlink
  branch-Post d fs (inl h) =
      simp (h.no_receipt, h.no_journal)
        (Post-mono {Q = Removed orig n r} fs _
          (Post-check d fs _ _ _
            (rw (
              h.no_draft,
              no_bins-true max_batch_files d.folder.bins (bins-none orig n r.files d h.base h.kept),
            ))
            (Post-then d fs _ _ (Post-effect _ d fs (inl h) (Empty-unlink orig n r d h))
              λ d₁ f₁ h₁. rmdir-Post orig n r d₁ f₁ h₁))
          λ d' q. inl q)
  branch-Post d fs (inr (inl o)) =
      simp (o.no_receipt, o.journalled)
        (Post-mono {Q = Removed orig n r} fs _
          (Post-attempt d fs _ _ r (rw o.journalled (reread d o.base))
            (rollback-Post env size orig n r valid d fs o))
          λ d' q. inl q)
  branch-Post d fs (inr (inr c)) = simp c.receipt (
      Post-mono {Q = Committed orig n r} fs _
        (Post-attempt d fs _ _ r (rw c.receipt (reread d c.base))
          (Post-check d fs _ _ _ (all_match-Staged d r.files c.staged) (cleanup-Post d fs c)))
        λ d' q. inr q)

  Inv-Base : (d : Local) → Inv orig n r d → Base orig n r.files d
  Inv-Base d (inl h) = h.base
  Inv-Base d (inr (inl h)) = h.base
  Inv-Base d (inr (inr h)) = h.base

  pub recover_folder-Post :
      (d : Local) (fs : List Fault)
      → Inv orig n r d
      → Post (Inv orig n r) Recovered fs (recover_folder env size d fs)
  unfolding recover_folder
  recover_folder-Post d fs h =
      Post-check d fs _ _ _ (rw (Inv-Base d h).clean)
        (Post-gets d fs _ _ (Post-gets d fs _ _ (branch-Post d fs h)))
