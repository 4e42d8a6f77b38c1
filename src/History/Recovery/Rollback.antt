-- ===== src/History/Recovery/Rollback.antt =====
-- The files that `_rollback` moves back, wherever it is interrupted.
use mllm_windows_ai_workbenc.Prelude.{
  ℕ, String, ◌≡◌, refl, ◌⊎◌, inl, inr, Bool, true, some, List, [], ◌∷◌, arith, select,
}
use mllm_windows_ai_workbenc.Errors.{ok}
use mllm_windows_ai_workbenc.History.Record.{Paths, file, Entry, Record}
use mllm_windows_ai_workbenc.History.Reading.{Tree, is_valid_record}
use mllm_windows_ai_workbenc.History.Reading.Agreement.{is_record_source-agrees}
use mllm_windows_ai_workbenc.History.Local.{Local, Fault, pure, is_present, put_back}
use mllm_windows_ai_workbenc.History.Transaction.{matches, move_back, pairs, move_back_all}
use mllm_windows_ai_workbenc.History.Recovery.Triples.{Post, Post-then, Post-mono}
use mllm_windows_ai_workbenc.History.Recovery.Entries.{
  In, Apart, Apart-sym, Distinct, same_or_different,
}
use mllm_windows_ai_workbenc.History.Recovery.Invariant.{
  Kept, Staged, Base, put_back-Kept, put_back-Staged, put_back_self,
}
use mllm_windows_ai_workbenc.History.Recovery.Moves.{
  Open, Inv, Base-Clean, distinct, allowed, put_back-Open, move_back-Post,
}

pub matches_self : (e : Entry) → matches (some (file e.info)) e ≡ true
unfolding matches
matches_self e = ground arith

module _ (env : Paths) (size : Record → ℕ) (orig : Tree) (n : String) (r : Record)
    (valid : is_valid_record env orig n r ≡ true) where
  abbrev pub is_staged : Local → Entry → Bool
  is_staged d e = is_present (d.folder.bins e.staged)

  pub pairs-eq :
      (d : Local) (es : List Entry)
      → Base orig n r.files d
      → ((a : Entry) → In a es → In a r.files)
      → pairs env size d.tree d.folder.bins r es ≡ ok (select (is_staged d) es)
  unfolding pairs
  pairs-eq d [] b sub = refl
  pairs-eq d (e ∷ es) b sub =
      let i = sub e (inl refl) in
      let ih = pairs-eq d es b (λ a j. sub a (inr j)) in
      let source =
        is_record_source-agrees env orig d.tree r e (Base-Clean orig n r d b e i)
          (allowed env size orig n r valid e i) in
      elim (b.placed e i) [
        | inl k ↦ rw (source, k.unstaged, k.there) ih
        | inr k ↦ rw (source, k.held, k.gone, matches_self e, ih)
      ]

  -- What moving back a list of files does to each file of the transaction.
  pub record Restored (d : Local) (ps : List Entry) (d' : Local) : Type 0 where
    pub open_still : Open orig n r d'
    pub home : (a : Entry) → In a r.files → In a ps ⊎ Kept d a → Kept d' a
    pub untouched :
        (a : Entry) → In a r.files → ((b : Entry) → In b ps → Apart b a) → Staged d a → Staged d' a

  Restored-cons :
      (d d₁ : Local) (e : Entry) (es : List Entry)
      → In e r.files
      → Distinct (e ∷ es)
      → Staged d e
      → Restored d es d₁
      → Restored d (e ∷ es) (put_back e d₁)
  Restored-cons d d₁ e es i apart k h = record {
    open_still = put_back-Open env size orig n r valid d₁ e i held h.open_still;
    home = λ a j. come a j;
    untouched = λ a j far s.
        put_back-Staged d₁ e a (far e (inl refl)) (h.untouched a j (λ b m. far b (inr m)) s);
  }
    where
      held : Staged d₁ e
      held = h.untouched e i (λ b m. Apart-sym (apart.0 b m)) k

      settle : (a : Entry) → (e ≡ a) ⊎ Apart e a → Kept d₁ a ⊎ (e ≡ a) → Kept (put_back e d₁) a
      settle a (inl q) _ = rw (← q) (put_back_self d₁ e held)
      settle a (inr p) (inl c) = put_back-Kept d₁ e a p c
      settle a (inr p) (inr q) = rw (← q) (put_back_self d₁ e held)

      come : (a : Entry) → In a r.files → In a (e ∷ es) ⊎ Kept d a → Kept (put_back e d₁) a
      come a j (inl (inl q)) = rw q (put_back_self d₁ e held)
      come a j (inl (inr m)) = put_back-Kept d₁ e a (apart.0 a m) (h.home a j (inl m))
      come a j (inr c) =
          settle a (same_or_different r.files e a (distinct env size orig n r valid) i j)
            (inl (h.home a j (inr c)))

  pub move_back_all-Post :
      (d : Local) (fs : List Fault) (ps : List Entry)
      → Distinct ps
      → ((a : Entry) → In a ps → In a r.files × Staged d a)
      → Open orig n r d
      → Post (Inv orig n r) (Restored d ps) fs (move_back_all env size ps d fs)
  unfolding move_back_all pure
  move_back_all-Post d fs [] apart ps o = record {
    at = (
      record {
        open_still = o;
        home = λ a i c. elim c [ inl m ↦ absurd m | inr k ↦ k ];
        untouched = λ a i far s. s;
      },
      λ e. e,
    );
  }
  move_back_all-Post d fs (e ∷ es) apart ps o =
      Post-then d fs _ _ (move_back_all-Post d fs es apart.1 (λ a m. ps a (inr m)) o)
        λ d₁ gs h. finish d₁ gs h
    where
      finish :
          (d₁ : Local) (gs : List Fault)
          → Restored d es d₁
          → Post (Inv orig n r) (Restored d (e ∷ es)) gs (move_back env size e d₁ gs)
      finish d₁ gs h =
          let (i, k) = ps e (inl refl) in
          let held = h.untouched e i (λ b m. Apart-sym (apart.0 b m)) k in
          Post-mono gs _ (move_back-Post env size orig n r valid d₁ gs e i held h.open_still)
            λ d₂ q. rw q (Restored-cons d d₁ e es i apart k h)
