-- ===== src/History/Recovery/Staging.antt =====
-- `_write_record` and the staging loop: what they make of a fresh folder.
use mllm_windows_ai_workbenc.Prelude.{
  ℕ, String, ◌≡◌, refl, ◌⊎◌, inl, inr, true, Option, none, some, List, [], ◌∷◌, leb,
}
use mllm_windows_ai_workbenc.History.Record.{
  Paths, Entry, Record, Content, complete, broken, max_journal_bytes,
}
use mllm_windows_ai_workbenc.History.Reading.{Tree, is_valid_record}
use mllm_windows_ai_workbenc.History.Local.{
  journal, journal_tmp, committed, committed_tmp, Local, Fault, modify, put_slot, take_out,
}
use mllm_windows_ai_workbenc.History.Transaction.{write_record, move_out, stage, publish}
use mllm_windows_ai_workbenc.History.Recovery.Triples.{
  Post, Post-step, Post-effect, Post-then, Post-check, Post-modify,
}
use mllm_windows_ai_workbenc.History.Recovery.Entries.{In, Apart, Distinct, same_or_different}
use mllm_windows_ai_workbenc.History.Recovery.Invariant.{
  Kept, Staged, Base, take_out-Base, take_out-Kept, take_out-Staged, take_out_self,
}
use mllm_windows_ai_workbenc.History.Recovery.Moves.{Idle, Open, Committed, Inv, distinct, plain}
use mllm_windows_ai_workbenc.History.Recovery.Slots.{Kept-put_slot, Staged-put_slot, Base-put_slot}
use mllm_windows_ai_workbenc.History.Recovery.Rollback.{matches_self}
use mllm_windows_ai_workbenc.History.Recovery.Home.{Empty}

abbrev moved_on : Option String → Local → Local
moved_on p d = record d { moving = p }

Kept-moving : (p : Option String) (d : Local) (a : Entry) → Kept d a → Kept (moved_on p d) a
Kept-moving p d a k = record { there = k.there; unstaged = k.unstaged }

Staged-moving : (p : Option String) (d : Local) (a : Entry) → Staged d a → Staged (moved_on p d) a
Staged-moving p d a k = record { gone = k.gone; held = k.held }

module _ (orig : Tree) (n : String) (r : Record) where
  Base-moving :
      (p : Option String) (d : Local) → Base orig n r.files d → Base orig n r.files (moved_on p d)
  Base-moving p d b = record {
    name = b.name;
    clean = b.clean;
    placed = λ a i. elim (b.placed a i) [
      | inl k ↦ inl (Kept-moving p d a k)
      | inr k ↦ inr (Staged-moving p d a k)
    ];
    others = b.others;
    bins_others = b.bins_others;
  }

  Open-moving : (p : Option String) (d : Local) → Open orig n r d → Open orig n r (moved_on p d)
  Open-moving p d o = record {
    base = Base-moving p d o.base;
    no_receipt = o.no_receipt;
    journalled = o.journalled;
    present = o.present;
  }

  pub Empty-moving :
      (p : Option String) (d : Local) → Empty orig n r d → Empty orig n r (moved_on p d)
  Empty-moving p d e = record {
    idle = record {
      base = Base-moving p d e.idle.base;
      no_receipt = e.idle.no_receipt;
      no_journal = e.idle.no_journal;
      no_draft = e.idle.no_draft;
      kept = λ a i. Kept-moving p d a (e.idle.kept a i);
    };
    no_draft = e.no_draft;
  }

  pub Idle-put_slot :
      (c : Option Content) (d : Local) → Idle orig n r d → Idle orig n r (put_slot journal_tmp c d)
  Idle-put_slot c d h = record {
    base = Base-put_slot orig n r.files journal_tmp c d h.base;
    no_receipt = h.no_receipt;
    no_journal = h.no_journal;
    no_draft = h.no_draft;
    kept = λ a i. Kept-put_slot journal_tmp c d a (h.kept a i);
  }

  -- Before the journal, in a folder that is there.
  abbrev Fresh : Local → Type 0
  Fresh d = Idle orig n r d × (d.exists ≡ true)

  -- After the journal: nothing moved yet.
  record Begun (d : Local) : Type 0 where
    pub open_still : Open orig n r d
    pub kept : (a : Entry) → In a r.files → Kept d a
    pub no_receipt_draft : d.folder.committed_tmp_file ≡ none

  -- In the loop: the files of the list are still to go, the others have gone.
  record Under (es : List Entry) (d : Local) : Type 0 where
    pub open_still : Open orig n r d
    pub waiting : (a : Entry) → In a es → Kept d a
    pub gone : (a : Entry) → In a r.files → In a es ⊎ Staged d a
    pub no_receipt_draft : d.folder.committed_tmp_file ≡ none

  Begun-published :
      (d : Local)
      → Idle orig n r d
      → d.exists ≡ true
      → Begun (put_slot journal_tmp none (put_slot journal (some (complete r)) d))
  Begun-published d h p = record {
    open_still = record {
      base =
          Base-put_slot orig n r.files journal_tmp none (put_slot journal (some (complete r)) d)
            (Base-put_slot orig n r.files journal (some (complete r)) d h.base);
      no_receipt = h.no_receipt;
      journalled = refl;
      present = p;
    };
    kept = λ a i.
        Kept-put_slot journal_tmp none (put_slot journal (some (complete r)) d) a
          (Kept-put_slot journal (some (complete r)) d a (h.kept a i));
    no_receipt_draft = h.no_draft;
  }

  -- All files are staged, and the receipt is being written.
  record Ready (d : Local) : Type 0 where
    pub open_still : Open orig n r d
    pub staged : (a : Entry) → In a r.files → Staged d a

  Ready-put_slot : (c : Option Content) (d : Local) → Ready d → Ready (put_slot committed_tmp c d)
  Ready-put_slot c d h = record {
    open_still = record {
      base = Base-put_slot orig n r.files committed_tmp c d h.open_still.base;
      no_receipt = h.open_still.no_receipt;
      journalled = h.open_still.journalled;
      present = h.open_still.present;
    };
    staged = λ a i. Staged-put_slot committed_tmp c d a (h.staged a i);
  }

  Committed-published :
      (d : Local)
      → Ready d
      → Committed orig n r (put_slot committed_tmp none (put_slot committed (some (complete r)) d))
  Committed-published d h = record {
    base =
        Base-put_slot orig n r.files committed_tmp none (put_slot committed (some (complete r)) d)
          (Base-put_slot orig n r.files committed (some (complete r)) d h.open_still.base);
    receipt = refl;
    present = h.open_still.present;
    staged = λ a i.
        Staged-put_slot committed_tmp none (put_slot committed (some (complete r)) d) a
          (Staged-put_slot committed (some (complete r)) d a (h.staged a i));
  }

module _ (env : Paths) (size : Record → ℕ) (orig : Tree) (n : String) (r : Record)
    (valid : is_valid_record env orig n r ≡ true)
    (fits : leb (size r) max_journal_bytes ≡ true) where
  journal-Post :
      (d : Local) (fs : List Fault)
      → Empty orig n r d
      → d.exists ≡ true
      → Post (Inv orig n r) (Begun orig n r) fs (write_record env size journal r d fs)
  unfolding write_record
  journal-Post d fs e p = Post-check d fs _ _ _ fits (
      Post-check d fs _ _ _ (rw e.no_draft) (
        Post-then {Q = Fresh orig n r} d fs _ _
          (Post-effect _ d fs (inl e.idle) (fresh (some broken) d (e.idle, p)))
          λ d₁ f₁ h₁.
            Post-then {Q = Fresh orig n r} d₁ f₁ _ _
              (Post-effect _ d₁ f₁ (inl h₁.0) (fresh (some (complete r)) d₁ h₁))
              λ d₂ f₂ h₂.
                Post-then {Q = Fresh orig n r} d₂ f₂ _ _ (Post-step d₂ f₂ (inl h₂.0) h₂) λ d₃ f₃ h₃.
                  Post-then d₃ f₃ _ _
                    (Post-effect _ d₃ f₃ (inl h₃.0) (Begun-published orig n r d₃ h₃.0 h₃.1))
                    λ d₄ f₄ h₄. Post-step d₄ f₄ (inr (inl h₄.open_still)) h₄))
    where
      fresh :
          (c : Option Content) (d : Local)
          → Idle orig n r d × (d.exists ≡ true)
          → Idle orig n r (put_slot journal_tmp c d) × (d.exists ≡ true)
      fresh c d (h, p) = (Idle-put_slot orig n r c d h, p)

  receipt-Post :
      (d : Local) (fs : List Fault)
      → Under orig n r [] d
      → Post (Inv orig n r) (Committed orig n r) fs (write_record env size committed r d fs)
  unfolding write_record
  receipt-Post d fs u =
      let ready : Ready orig n r d = record {
        open_still = u.open_still;
        staged = λ a i. elim (u.gone a i) [ inl m ↦ absurd m | inr k ↦ k ];
      } in
      Post-check d fs _ _ _ fits (
        Post-check d fs _ _ _ (rw u.no_receipt_draft) (
          Post-then d fs _ _
            (Post-effect _ d fs (inr (inl u.open_still))
              (Ready-put_slot orig n r (some broken) d ready))
            λ d₁ f₁ h₁.
              Post-then d₁ f₁ _ _
                (Post-effect _ d₁ f₁ (inr (inl h₁.open_still))
                  (Ready-put_slot orig n r (some (complete r)) d₁ h₁))
                λ d₂ f₂ h₂.
                  Post-then d₂ f₂ _ _ (Post-step d₂ f₂ (inr (inl h₂.open_still)) h₂) λ d₃ f₃ h₃.
                    Post-then d₃ f₃ _ _
                      (Post-effect _ d₃ f₃ (inr (inl h₃.open_still))
                        (Committed-published orig n r d₃ h₃))
                      λ d₄ f₄ h₄. Post-step d₄ f₄ (inr (inr h₄)) h₄))

  Under-take_out :
      (d : Local) (e : Entry) (es : List Entry)
      → In e r.files
      → Distinct (e ∷ es)
      → Under orig n r (e ∷ es) d
      → Under orig n r es (take_out e d)
  Under-take_out d e es i apart u = record {
    open_still = record {
      base =
          take_out-Base orig n r.files (distinct env size orig n r valid) d e i k u.open_still.base;
      no_receipt = u.open_still.no_receipt;
      journalled = u.open_still.journalled;
      present = u.open_still.present;
    };
    waiting = λ a m. take_out-Kept d e a (apart.0 a m) (u.waiting a (inr m));
    gone = λ a j.
        out a (same_or_different r.files e a (distinct env size orig n r valid) i j) (u.gone a j);
    no_receipt_draft = u.no_receipt_draft;
  }
    where
      k : Kept d e
      k = u.waiting e (inl refl)

      out :
          (a : Entry)
          → (e ≡ a) ⊎ Apart e a
          → In a (e ∷ es) ⊎ Staged d a
          → In a es ⊎ Staged (take_out e d) a
      out a (inl q) _ = inr (rw (← q) (take_out_self d e k))
      out a (inr p) (inl (inl q)) = inr (rw q (take_out_self d e k))
      out a (inr p) (inl (inr m)) = inl m
      out a (inr p) (inr s) = inr (take_out-Staged d e a p s)

  move_out-Post :
      (d : Local) (fs : List Fault) (e : Entry) (es : List Entry)
      → In e r.files
      → Distinct (e ∷ es)
      → Under orig n r (e ∷ es) d
      → Post (Inv orig n r) (Under orig n r es) fs (move_out env size e d fs)
  unfolding move_out
  move_out-Post d fs e es i apart u =
      let k = u.waiting e (inl refl) in
      Post-check d fs _ _ _ (plain env size orig n r valid e i) (
        Post-check d fs _ _ _ (rw k.unstaged) (
          Post-check d fs _ _ _ (rw k.there) (
            Post-then d fs _ _
              (Post-effect _ d fs (inr (inl u.open_still)) (Under-take_out d e es i apart u))
              λ d₁ f₁ h₁.
                Post-then d₁ f₁ _ _ (Post-step d₁ f₁ (inr (inl h₁.open_still)) h₁)
                  λ d₂ f₂ h₂. Post-step d₂ f₂ (inr (inl h₂.open_still)) h₂)))

  Under-moving :
      (p : Option String) (d : Local) (es : List Entry)
      → Under orig n r es d
      → Under orig n r es (moved_on p d)
  Under-moving p d es u = record {
    open_still = Open-moving orig n r p d u.open_still;
    waiting = λ a m. Kept-moving p d a (u.waiting a m);
    gone = λ a i. elim (u.gone a i) [ inl m ↦ inl m | inr k ↦ inr (Staged-moving p d a k) ];
    no_receipt_draft = u.no_receipt_draft;
  }

  stage-Post :
      (d : Local) (fs : List Fault) (es : List Entry)
      → Distinct es
      → ((a : Entry) → In a es → In a r.files)
      → Under orig n r es d
      → Post (Inv orig n r) (Under orig n r []) fs (stage env size es d fs)
  unfolding stage modify
  stage-Post d fs [] apart sub u = record { at = (Under-moving none d [] u, λ e. e) }
  stage-Post d fs (e ∷ es) apart sub u = Post-modify d fs _ _ (
      let v = Under-moving (some e.source) d (e ∷ es) u in
      Post-check _ fs _ _ _ (rw (u.waiting e (inl refl)).there (matches_self e)) (
        Post-then _ fs _ _
          (move_out-Post (moved_on (some e.source) d) fs e es (sub e (inl refl)) apart v)
          λ d₁ f₁ h₁. stage-Post d₁ f₁ es apart.1 (λ a m. sub a (inr m)) h₁))

  pub publish-Post :
      (d : Local) (fs : List Fault)
      → Empty orig n r d
      → d.exists ≡ true
      → Post (Inv orig n r) (Committed orig n r) fs (publish env size r d fs)
  unfolding publish
  publish-Post d fs e p = Post-then d fs _ _ (journal-Post d fs e p) λ d₁ f₁ b.
      Post-then d₁ f₁ _ _
        (stage-Post d₁ f₁ r.files (distinct env size orig n r valid) (λ a i. i)
          (record {
            open_still = b.open_still;
            waiting = b.kept;
            gone = λ a i. inl i;
            no_receipt_draft = b.no_receipt_draft;
          }))
        λ d₂ f₂ u. receipt-Post d₂ f₂ u
