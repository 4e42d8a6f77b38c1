-- ===== src/History/Recovery/Triples.antt =====
-- Postconditions of file operations that may fail or be the last thing the process does.
use mllm_windows_ai_workbenc.Prelude.{Bool, true, ◌≡◌, refl, ◌≢◌, List, [], ◌∷◌}
use mllm_windows_ai_workbenc.Errors.{Exn}
use mllm_windows_ai_workbenc.Errors.{Result, ok}
use mllm_windows_ai_workbenc.History.Local.{
  Local, Fault, fine, fail, crash, Outcome, done, failed, crashed, M, continue, on_failure, check,
  attempt, gets, modify, catch, step, effect, ◌>>=◌, ◌>>◌,
}

-- `Q` holds where the action returns and `I` wherever it stops; it stops by a fault only.
abbrev PostAt : (Local → Type 0) → (Local → Type 0) → List Fault → Outcome (Unit {0}) → Type 0
PostAt I Q fs (done a d fs') = Q d × (fs ≡ [] → fs' ≡ [])
PostAt I Q fs (failed e d fs') = I d × (fs ≢ [])
PostAt I Q fs (crashed d) = I d × (fs ≢ [])

pub record Post (I Q : Local → Type 0) (fs : List Fault) (o : Outcome (Unit {0})) : Type 0 where
  pub at : PostAt I Q fs o

-- The same for an action that runs after a failure: nothing is said of what made it stop.
abbrev pub Caught : (Local → Type 0) → (Local → Type 0) → Outcome (Unit {0}) → Type 0
Caught I Q (done a d fs) = Q d
Caught I Q (failed e d fs) = I d
Caught I Q (crashed d) = I d

module _ {I Q : Local → Type 0} where
  pub Post-later :
      (fs fs' : List Fault) (o : Outcome (Unit {0}))
      → (fs ≡ [] → fs' ≡ [])
      → Post I Q fs' o
      → Post I Q fs o
  Post-later fs fs' (done a d gs) w h = record { at = (h.at.0, λ e. h.at.1 (w e)) }
  Post-later fs fs' (failed e d gs) w h = record { at = (h.at.0, λ e. h.at.1 (w e)) }
  Post-later fs fs' (crashed d) w h = record { at = (h.at.0, λ e. h.at.1 (w e)) }

  pub Post-step : (d : Local) (fs : List Fault) → I d → Q d → Post I Q fs (step d fs)
  unfolding step
  Post-step d [] i q = record { at = (q, λ e. refl) }
  Post-step d (fine ∷ fs) i q = record { at = (q, λ e. cc) }
  Post-step d (fail ∷ fs) i q = record { at = (i, λ e. cc) }
  Post-step d (crash ∷ fs) i q = record { at = (i, λ e. cc) }

  pub Post-effect :
      (f : Local → Local) (d : Local) (fs : List Fault)
      → I d
      → Q (f d)
      → Post I Q fs (effect f d fs)
  unfolding effect step
  Post-effect f d [] i q = record { at = (q, λ e. refl) }
  Post-effect f d (fine ∷ fs) i q = record { at = (q, λ e. cc) }
  Post-effect f d (fail ∷ fs) i q = record { at = (i, λ e. cc) }
  Post-effect f d (crash ∷ fs) i q = record { at = (i, λ e. cc) }

module _ {I Q R : Local → Type 0} where
  -- What follows starts from what the first action ensures.
  pub Post-then :
      (d : Local) (fs : List Fault) (m k : M (Unit {0}))
      → Post I Q fs (m d fs)
      → ((d : Local) (gs : List Fault) → Q d → Post I R gs (k d gs))
      → Post I R fs ((m >> k) d fs)
  unfolding ◌>>◌
  Post-then d fs m k h next = go (m d fs) h
    where
      go : (o : Outcome (Unit {0})) → Post I Q fs o → Post I R fs (continue o (λ _. k))
      go (done a d gs) h = Post-later fs gs (k d gs) h.at.1 (next d gs h.at.0)
      go (failed e d gs) h = record { at = h.at }
      go (crashed d) h = record { at = h.at }

  pub Post-mono :
      (fs : List Fault) (o : Outcome (Unit {0}))
      → Post I Q fs o
      → ((d : Local) → Q d → R d)
      → Post I R fs o
  Post-mono fs (done a d gs) h f = record { at = (f d h.at.0, h.at.1) }
  Post-mono fs (failed e d gs) h f = record { at = h.at }
  Post-mono fs (crashed d) h f = record { at = h.at }

module _ {I R : Local → Type 0} where
  -- A handler starts from what holds wherever the action stops. Without a fault it does not run.
  pub Post-catch :
      (d : Local) (fs : List Fault) (m : M (Unit {0})) (handler : Exn → M (Unit {0}))
      → Post I R fs (m d fs)
      → ((e : Exn) (d : Local) (gs : List Fault) → I d → Caught I R (handler e d gs))
      → Post I R fs (catch m handler d fs)
  unfolding catch
  Post-catch d fs m handler h next = go (m d fs) h
    where
      close : (o : Outcome (Unit {0})) → fs ≢ [] → Caught I R o → Post I R fs o
      close (done a d gs) v c = record { at = (c, λ e. absurd (v e)) }
      close (failed e d gs) v c = record { at = (c, v) }
      close (crashed d) v c = record { at = (c, v) }

      go : (o : Outcome (Unit {0})) → Post I R fs o → Post I R fs (on_failure o handler)
      go (done a d gs) h = record { at = h.at }
      go (failed e d gs) h = close (handler e d gs) h.at.1 (next e d gs h.at.0)
      go (crashed d) h = record { at = h.at }

module _ {I Q : Local → Type 0} where
  pub Post-check :
      (d : Local) (fs : List Fault) (test : Local → Bool) (e : Exn) (k : M (Unit {0}))
      → test d ≡ true
      → Post I Q fs (k d fs)
      → Post I Q fs ((check test e >> k) d fs)
  unfolding ◌>>◌ check
  Post-check d fs test e k h p = rw h p

  pub Post-attempt :
      {A : Type 0} (d : Local) (fs : List Fault) (f : Local → Result A) (k : A → M (Unit {0}))
      (a : A)
      → f d ≡ ok a
      → Post I Q fs (k a d fs)
      → Post I Q fs ((attempt f >>= k) d fs)
  unfolding ◌>>=◌ attempt
  Post-attempt d fs f k a h p = rw (h, attempt) p

  pub Post-modify :
      (d : Local) (fs : List Fault) (f : Local → Local) (k : M (Unit {0}))
      → Post I Q fs (k (f d) fs)
      → Post I Q fs ((modify f >> k) d fs)
  unfolding ◌>>◌ modify
  Post-modify d fs f k p = p

module _ {I Q : Local → Type 0} where
  pub Caught-of-Post : (fs : List Fault) (o : Outcome (Unit {0})) → Post I Q fs o → Caught I Q o
  Caught-of-Post fs (done a d gs) h = h.at.0
  Caught-of-Post fs (failed e d gs) h = h.at.0
  Caught-of-Post fs (crashed d) h = h.at.0

module _ {I Q J : Local → Type 0} where
  pub Post-stop :
      (fs : List Fault) (o : Outcome (Unit {0}))
      → Post I Q fs o
      → ((d : Local) → I d → J d)
      → Post J Q fs o
  Post-stop fs (done a d gs) h f = record { at = h.at }
  Post-stop fs (failed e d gs) h f = record { at = (f d h.at.0, h.at.1) }
  Post-stop fs (crashed d) h f = record { at = (f d h.at.0, h.at.1) }

module _ {I Q : Local → Type 0} where
  pub Post-gets :
      {A : Type 0} (d : Local) (fs : List Fault) (f : Local → A) (k : A → M (Unit {0}))
      → Post I Q fs (k (f d) d fs)
      → Post I Q fs ((gets f >>= k) d fs)
  unfolding ◌>>=◌ gets
  Post-gets d fs f k p = p

module _ (I Q R : Local → Type 0) where
  pub Caught-then :
      (d : Local) (fs : List Fault) (m k : M (Unit {0}))
      → Caught I Q (m d fs)
      → ((d : Local) (gs : List Fault) → Q d → Caught I R (k d gs))
      → Caught I R ((m >> k) d fs)
  unfolding ◌>>◌
  Caught-then d fs m k h next = go (m d fs) h
    where
      go : (o : Outcome (Unit {0})) → Caught I Q o → Caught I R (continue o (λ _. k))
      go (done a d gs) h = next d gs h
      go (failed e d gs) h = h
      go (crashed d) h = h
