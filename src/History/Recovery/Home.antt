-- ===== src/History/Recovery/Home.antt =====
-- The whole of `_rollback`, from a journalled folder to no folder.
use mllm_windows_ai_workbenc.Prelude.{
  ℕ, String, ◌≡◌, refl, inl, inr, true, false, none, List, select,
}
use mllm_windows_ai_workbenc.History.Record.{Paths, Entry, Record, max_batch_files}
use mllm_windows_ai_workbenc.History.Reading.{Tree, is_valid_record}
use mllm_windows_ai_workbenc.History.Local.{
  journal, journal_tmp, committed_tmp, Local, Fault, ◌>>◌, put_slot, unlink, rmdir, is_empty_folder,
  sync_directory,
}
use mllm_windows_ai_workbenc.History.Transaction.{rollback}
use mllm_windows_ai_workbenc.History.Recovery.Triples.{
  Post, Post-step, Post-effect, Post-then, Post-check, Post-attempt,
}
use mllm_windows_ai_workbenc.History.Recovery.Entries.{In}
use mllm_windows_ai_workbenc.History.Recovery.Invariant.{Kept, Staged}
use mllm_windows_ai_workbenc.History.Recovery.Moves.{Idle, Open, Inv, distinct}
use mllm_windows_ai_workbenc.History.Recovery.Slots.{
  Kept-put_slot, Base-put_slot, bins-none, no_bins-true, In-select, select-In, select-Distinct,
}
use mllm_windows_ai_workbenc.History.Recovery.Rollback.{
  is_staged, pairs-eq, Restored, move_back_all-Post,
}

module _ (orig : Tree) (n : String) (r : Record) where
  -- Every file is home, and the journal may still be there.
  record Home (d : Local) : Type 0 where
    pub open_still : Open orig n r d
    pub kept : (a : Entry) → In a r.files → Kept d a

  -- As the unlinks go on: what is left of the drafts.
  record Tidy (d : Local) : Type 0 where
    pub home : Home d
    pub no_draft : d.folder.journal_tmp_file ≡ none

  record Bare (d : Local) : Type 0 where
    pub home : Home d
    pub no_draft : d.folder.journal_tmp_file ≡ none
    pub no_receipt_draft : d.folder.committed_tmp_file ≡ none

  -- Idle, and nothing at all in the folder.
  pub record Empty (d : Local) : Type 0 where
    pub idle : Idle orig n r d
    pub no_draft : d.folder.journal_tmp_file ≡ none

  pub record Removed (d : Local) : Type 0 where
    pub idle : Idle orig n r d
    pub removed : d.exists ≡ false

  Tidy-unlink : (d : Local) → Home d → Tidy (put_slot journal_tmp none d)
  Tidy-unlink d h = record {
    home = record {
      open_still = record {
        base = Base-put_slot orig n r.files journal_tmp none d h.open_still.base;
        no_receipt = h.open_still.no_receipt;
        journalled = h.open_still.journalled;
        present = h.open_still.present;
      };
      kept = λ a i. Kept-put_slot journal_tmp none d a (h.kept a i);
    };
    no_draft = refl;
  }

  Bare-unlink : (d : Local) → Tidy d → Bare (put_slot committed_tmp none d)
  Bare-unlink d t = record {
    home = record {
      open_still = record {
        base = Base-put_slot orig n r.files committed_tmp none d t.home.open_still.base;
        no_receipt = t.home.open_still.no_receipt;
        journalled = t.home.open_still.journalled;
        present = t.home.open_still.present;
      };
      kept = λ a i. Kept-put_slot committed_tmp none d a (t.home.kept a i);
    };
    no_draft = t.no_draft;
    no_receipt_draft = refl;
  }

  Empty-unlink : (d : Local) → Bare d → Empty (put_slot journal none d)
  Empty-unlink d b = record {
    idle = record {
      base = Base-put_slot orig n r.files journal none d b.home.open_still.base;
      no_receipt = b.home.open_still.no_receipt;
      no_journal = refl;
      no_draft = b.no_receipt_draft;
      kept = λ a i. Kept-put_slot journal none d a (b.home.kept a i);
    };
    no_draft = b.no_draft;
  }

  Idle-removed : (d : Local) → Idle orig n r d → Idle orig n r (record d { exists = false })
  Idle-removed d h = record {
    base = record {
      name = h.base.name;
      clean = h.base.clean;
      placed = λ a i. inl (record { there = (h.kept a i).there; unstaged = (h.kept a i).unstaged });
      others = h.base.others;
      bins_others = h.base.bins_others;
    };
    no_receipt = h.no_receipt;
    no_journal = h.no_journal;
    no_draft = h.no_draft;
    kept = λ a i. record { there = (h.kept a i).there; unstaged = (h.kept a i).unstaged };
  }

  Empty-no_files : (d : Local) → Empty d → is_empty_folder d.folder ≡ true
  unfolding is_empty_folder
  Empty-no_files d e = rw (
    e.idle.no_journal,
    e.no_draft,
    e.idle.no_receipt,
    e.idle.no_draft,
    e.idle.base.clean,
    no_bins-true max_batch_files d.folder.bins (bins-none orig n r.files d e.idle.base e.idle.kept),
  )

  pub rmdir-Post :
      (d : Local) (fs : List Fault)
      → Empty d
      → Post (Inv orig n r) Removed fs ((rmdir >> sync_directory) d fs)
  unfolding rmdir
  rmdir-Post d fs e =
      Post-then d fs _ _
        (Post-check d fs _ _ _ (Empty-no_files d e) (
          Post-effect _ d fs (inl e.idle)
            (record { idle = Idle-removed d e.idle; removed = refl })))
        λ d' gs h. Post-step d' gs (inl h.idle) h

module _ (env : Paths) (size : Record → ℕ) (orig : Tree) (n : String) (r : Record)
    (valid : is_valid_record env orig n r ≡ true) where
  Restored-Home :
      (d d' : Local)
      → Open orig n r d
      → Restored env size orig n r valid d (select (is_staged env size orig n r valid d) r.files) d'
      → Home orig n r d'
  Restored-Home d d' o h = record {
    open_still = h.open_still;
    kept = λ a i. h.home a i (elim (o.base.placed a i) [
      | inl k ↦ inr k
      | inr k ↦ inl (select-In (is_staged env size orig n r valid d) a r.files (rw k.held) i)
    ]);
  }

  Staged-ones :
      (d : Local)
      → Open orig n r d
      → (a : Entry) → In a (select (is_staged env size orig n r valid d) r.files)
      → In a r.files × Staged d a
  Staged-ones d o a m =
      let (i, p) = In-select (is_staged env size orig n r valid d) a r.files m in
      (i, elim (o.base.placed a i) [ inl k ↦ absurd (impossible k p) | inr k ↦ k ])
    where
      impossible : Kept d a → is_staged env size orig n r valid d a ≡ true → ⊥
      impossible k p = cc (rw k.unstaged at p)

  pub rollback-Post :
      (d : Local) (fs : List Fault)
      → Open orig n r d
      → Post (Inv orig n r) (Removed orig n r) fs (rollback env size r d fs)
  unfolding rollback unlink
  rollback-Post d fs o =
      let chosen = select (is_staged env size orig n r valid d) r.files in
      Post-attempt d fs _ _ chosen (pairs-eq env size orig n r valid d r.files o.base (λ a i. i)) (
        Post-then d fs _ _
          (move_back_all-Post env size orig n r valid d fs chosen
            (select-Distinct (is_staged env size orig n r valid d) r.files
              (distinct env size orig n r valid))
            (Staged-ones d o) o)
          λ d₁ f₁ h₁.
            let home = Restored-Home d d₁ o h₁ in
            Post-then d₁ f₁ _ _
              (Post-effect _ d₁ f₁ (inr (inl home.open_still)) (Tidy-unlink orig n r d₁ home))
              λ d₂ f₂ h₂.
                Post-then d₂ f₂ _ _
                  (Post-effect _ d₂ f₂ (inr (inl h₂.home.open_still)) (Bare-unlink orig n r d₂ h₂))
                  λ d₃ f₃ h₃.
                    Post-then d₃ f₃ _ _
                      (Post-effect _ d₃ f₃ (inr (inl h₃.home.open_still))
                        (Empty-unlink orig n r d₃ h₃))
                      λ d₄ f₄ h₄. rmdir-Post orig n r d₄ f₄ h₄)
