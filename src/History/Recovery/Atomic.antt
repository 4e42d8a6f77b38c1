-- ===== src/History/Recovery/Atomic.antt =====
-- A deletion and the recovery after it, over all faults and exits.
use mllm_windows_ai_workbenc.Prelude.{
  ℕ, String, ◌≡◌, refl, sym, ap, subst, ◌∙◌, ◌≢◌, ◌⊎◌, inl, inr, Bool, true, false, none, some,
  List, [], ◌∷◌, leb, str_eq, str_eq_iff, Bool-cases,
}
use mllm_windows_ai_workbenc.History.Record.{
  Paths, file, Entry, Record, complete, max_journal_bytes,
}
use mllm_windows_ai_workbenc.History.Reading.{Tree, is_valid_record}
use mllm_windows_ai_workbenc.History.Local.{Local, Fault, pure, Outcome, done, failed, crashed}
use mllm_windows_ai_workbenc.History.Transaction.{
  transact, restart, restart_if, restarts, final, start,
}
use mllm_windows_ai_workbenc.History.Recovery.Triples.{Post}
use mllm_windows_ai_workbenc.History.Recovery.Entries.{In}
use mllm_windows_ai_workbenc.History.Recovery.Moves.{Committed, Inv}
use mllm_windows_ai_workbenc.History.Recovery.Home.{Empty, Removed}
use mllm_windows_ai_workbenc.History.Recovery.Undo.{transact-Post, Recovered, recover_folder-Post}

-- The tree is as it was, and the transaction's folder is gone.
pub record AsBefore (orig : Tree) (d : Local) : Type 0 where
  pub unchanged : (p : String) → d.tree p ≡ orig p
  pub removed : d.exists ≡ false

-- The receipt is there; every recorded file has left the tree and is held in the folder with its
-- identity; no other path has changed.
pub record Deleted (orig : Tree) (r : Record) (d : Local) : Type 0 where
  pub receipt : d.folder.committed_file ≡ some (complete r)
  pub gone : (a : Entry) → In a r.files → d.tree a.source ≡ none
  pub held : (a : Entry) → In a r.files → d.folder.bins a.staged ≡ some (file a.info)
  pub others : (p : String) → ((a : Entry) → In a r.files → a.source ≢ p) → d.tree p ≡ orig p

-- The recorded files stand in the tree, with the identities that were recorded.
abbrev pub Captured : Tree → Record → Type 0
Captured orig r = (a : Entry) → In a r.files → orig a.source ≡ some (file a.info)

source-cases :
    (p : String) (es : List Entry)
    → ((a : Entry) × In a es × (a.source ≡ p)) ⊎ ((a : Entry) → In a es → a.source ≢ p)
source-cases p [] = inr (λ a m. absurd m)
source-cases p (e ∷ es) = elim (Bool-cases (str_eq e.source p)) [
  | inl h ↦ inl (e, inl refl, (str_eq_iff e.source p).0 h)
  | inr h ↦ extend (source-cases p es) (λ q. cc (h, (str_eq_iff e.source p).1 q))
]
  where
    extend :
        ((a : Entry) × In a es × (a.source ≡ p)) ⊎ ((a : Entry) → In a es → a.source ≢ p)
        → e.source ≢ p
        → ((a : Entry) × In a (e ∷ es) × (a.source ≡ p))
          ⊎ ((a : Entry) → In a (e ∷ es) → a.source ≢ p)
    extend (inl (a, m, q)) ne = inl (a, inr m, q)
    extend (inr f) ne = inr (λ a m. elim m [ inl q ↦ (λ u. ne (cc (u, q))) | inr k ↦ f a k ])

module _ (orig : Tree) (n : String) (r : Record) (captured : Captured orig r) where
  start-Empty : Empty orig n r (start orig n)
  start-Empty = record {
    idle = record {
      base = record {
        name = refl;
        clean = refl;
        placed = λ a i. inl (record { there = captured a i; unstaged = refl });
        others = λ p f. refl;
        bins_others = λ i f. refl;
      };
      no_receipt = refl;
      no_journal = refl;
      no_draft = refl;
      kept = λ a i. record { there = captured a i; unstaged = refl };
    };
    no_draft = refl;
  }

  Removed-AsBefore : (d : Local) → Removed orig n r d → AsBefore orig d
  Removed-AsBefore d h = record {
    unchanged = λ p. same p (source-cases p r.files);
    removed = h.removed;
  }
    where
      same :
          (p : String)
          → ((a : Entry) × In a r.files × (a.source ≡ p))
            ⊎ ((a : Entry) → In a r.files → a.source ≢ p)
          → d.tree p ≡ orig p
      same p (inl (a, m, q)) = rw (← q) ((h.idle.kept a m).there ∙ sym (captured a m))
      same p (inr f) = h.idle.base.others p f

  Committed-Deleted : (d : Local) → Committed orig n r d → Deleted orig r d
  Committed-Deleted d c = record {
    receipt = c.receipt;
    gone = λ a i. (c.staged a i).gone;
    held = λ a i. (c.staged a i).held;
    others = c.base.others;
  }

module _ (env : Paths) (size : Record → ℕ) (orig : Tree) (n : String) (r : Record)
    (valid : is_valid_record env orig n r ≡ true) where
  final-Inv :
      (fs : List Fault) (o : Outcome (Unit {0}))
      → Post (Inv orig n r) (Recovered env size orig n r valid) fs o
      → Inv orig n r (final o)
  final-Inv fs (done a d gs) h = elim h.at.0 [ inl k ↦ inl k.idle | inr k ↦ inr (inr k) ]
  final-Inv fs (failed e d gs) h = h.at.0
  final-Inv fs (crashed d) h = h.at.0

  final-start :
      (fs : List Fault) (o : Outcome (Unit {0}))
      → Post (Inv orig n r) (Committed orig n r) fs o
      → Inv orig n r (final o)
  final-start fs (done a d gs) h = inr (inr h.at.0)
  final-start fs (failed e d gs) h = h.at.0
  final-start fs (crashed d) h = h.at.0

  absent-Removed : (d : Local) → Inv orig n r d → d.exists ≡ false → Removed orig n r d
  absent-Removed d (inl h) e = record { idle = h; removed = e }
  absent-Removed d (inr (inl h)) e = absurd (cc (h.present, e))
  absent-Removed d (inr (inr h)) e = absurd (cc (h.present, e))

  restart_if-Post :
      (b : Bool) (d : Local) (fs : List Fault)
      → d.exists ≡ b
      → Inv orig n r d
      → Post (Inv orig n r) (Recovered env size orig n r valid) fs (restart_if env size b d fs)
  unfolding restart_if pure
  restart_if-Post true d fs e h = recover_folder-Post env size orig n r valid d fs h
  restart_if-Post false d fs e h = record { at = (inl (absent-Removed d h e), λ q. q) }

  restart-Post :
      (d : Local) (fs : List Fault)
      → Inv orig n r d
      → Post (Inv orig n r) (Recovered env size orig n r valid) fs (restart env size d fs)
  unfolding restart
  restart-Post d fs h = restart_if-Post d.exists d fs refl h

  restarts-Inv :
      (runs : List (List Fault)) (d : Local)
      → Inv orig n r d
      → Inv orig n r (restarts env size runs d)
  unfolding restarts
  restarts-Inv [] d h = h
  restarts-Inv (fs ∷ runs) d h =
      restarts-Inv runs (final (restart env size d fs)) (final-Inv fs _ (restart-Post d fs h))

  settled :
      (captured : Captured orig r) (o : Outcome (Unit {0}))
      → Post (Inv orig n r) (Recovered env size orig n r valid) [] o
      → (d' : Local) × (o ≡ done tt d' []) × (AsBefore orig d' ⊎ Deleted orig r d')
  settled captured (done a d gs) h = (
    d,
    rw (h.at.1 refl),
    elim h.at.0 [
      | inl k ↦ inl (Removed-AsBefore orig n r captured d k)
      | inr k ↦ inr (Committed-Deleted orig n r captured d k)
    ],
  )
  settled captured (failed e d gs) h = absurd (h.at.1 refl)
  settled captured (crashed d) h = absurd (h.at.1 refl)

-- Whatever operation of a deletion fails or is the last before the process exits, and however often
-- recovery is itself cut short, the next recovery that meets no fault ends normally, and then either
-- the whole tree is as before and the transaction is gone, or every file is held in the trash with
-- its identity under the receipt and nothing else has changed. The journal has to be valid and short
-- enough, and the files have to stand where it says, as captured.
pub transact_atomic :
    (env : Paths) (size : Record → ℕ) (orig : Tree) (n : String) (r : Record)
    → is_valid_record env orig n r ≡ true
    → leb (size r) max_journal_bytes ≡ true
    → Captured orig r
    → (fs : List Fault) (runs : List (List Fault))
    → let d = restarts env size runs (final (transact env size r (start orig n) fs)) in
      (d' : Local) × (restart env size d [] ≡ done tt d' [])
      × (AsBefore orig d' ⊎ Deleted orig r d')
transact_atomic env size orig n r valid fits captured fs runs =
    settled env size orig n r valid captured _ (
      restart-Post env size orig n r valid _ [] (
        restarts-Inv env size orig n r valid runs _ (
          final-start env size orig n r valid fs _ (
            transact-Post env size orig n r valid (start orig n) fs fits
              (start-Empty orig n r captured) refl))))

returned :
    (orig : Tree) (n : String) (r : Record) (captured : Captured orig r) (fs : List Fault)
    (o : Outcome (Unit {0}))
    → Post (Inv orig n r) (Committed orig n r) fs o
    → ((d : Local) (gs : List Fault) → o ≡ done tt d gs → Deleted orig r d)
      × (fs ≡ [] → (d : Local) × (o ≡ done tt d []))
returned orig n r captured fs (done a d gs) h = (
  λ d' hs e. subst (Deleted orig r) (ap final e) (Committed-Deleted orig n r captured d h.at.0),
  λ e. (d, rw (h.at.1 e)),
)
returned orig n r captured fs (failed x d gs) h = (λ d' hs e. cc, λ e. absurd (h.at.1 e))
returned orig n r captured fs (crashed d) h = (λ d' hs e. cc, λ e. absurd (h.at.1 e))

-- A deletion that reports success has deleted: every file is in the trash under the receipt. With
-- no fault at all it does report success.
pub transact_returns :
    (env : Paths) (size : Record → ℕ) (orig : Tree) (n : String) (r : Record)
    → is_valid_record env orig n r ≡ true
    → leb (size r) max_journal_bytes ≡ true
    → Captured orig r
    → (fs : List Fault)
    → ((d : Local) (gs : List Fault)
        → transact env size r (start orig n) fs ≡ done tt d gs
        → Deleted orig r d)
      × (fs ≡ [] → (d : Local) × (transact env size r (start orig n) fs ≡ done tt d []))
transact_returns env size orig n r valid fits captured fs = returned orig n r captured fs _ (
    transact-Post env size orig n r valid (start orig n) fs fits (start-Empty orig n r captured)
      refl)
