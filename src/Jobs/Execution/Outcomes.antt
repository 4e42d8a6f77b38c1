-- ===== src/Jobs/Execution/Outcomes.antt =====
-- How an execution of a job ends.
use mllm_windows_ai_workbenc.Prelude.{
  String, ◌≡◌, refl, ap, ◌∙◌, ◌⊎◌, inl, inr, Bool, true, false, not, some, List, put_self,
}
use mllm_windows_ai_workbenc.Jobs.Runner.{
  State, complete, cancelled, Job, Write, written, refused, torn, next_write, has_failed, persisted,
  Changes, is_finished_state, is_cancelled_state, store, change, update_if_active, is_cancelled,
}
use mllm_windows_ai_workbenc.Jobs.Execution.{
  World, Exit, go, stop, thrown, X, proceed_with, ◌>>=◌, ◌>>◌, acquire, arrive, next_arrival,
  settle_update, updated, check_cancelled, stop_unless, proceed, conclude, finish,
}
use mllm_windows_ai_workbenc.Jobs.Execution.Cancelling.{
  cancelled_job, cancel_active, cancel_settled, update_live, update_dead, is_cancelled_live,
  is_cancelled_dead,
}

module _ (id : String) where
  -- In memory, neither finished nor cancelled.
  pub record Live (w : World) : Type 0 where
    pub job : Job
    pub there : w.runner.jobs id ≡ some job
    pub unfinished : is_finished_state job.state ≡ false
    pub uncancelled : is_cancelled_state job.state ≡ false
    pub unmarked : w.runner.cancelled id ≡ false

  pub record Dead (w : World) : Type 0 where
    pub job : Job
    pub there : w.runner.jobs id ≡ some job
    pub was_cancelled : job.state ≡ cancelled

  abbrev pub Mid : World → Type 0
  Mid w = Live w ⊎ Dead w

  -- Complete or failed, with no cancellation, and complete only for a reason.
  pub record Ended (Reason : Type 0) (w : World) : Type 0 where
    pub job : Job
    pub there : w.runner.jobs id ≡ some job
    pub finished : is_finished_state job.state ≡ true
    pub reason : job.state ≡ complete → Reason
    pub never_marked : w.runner.cancelled id ≡ false

  pub cancelled_flags : (s : State) → s ≡ cancelled → is_cancelled_state s ≡ true
  cancelled_flags s e = rw e

  arrive-Mid :
      (b : Bool) (w : World) (rest : List Bool)
      → Mid w
      → Mid (record { runner = arrive id b w.runner; arrivals = rest })
  unfolding arrive
  arrive-Mid false w rest (inl h) = inl (record {
    job = h.job;
    there = h.there;
    unfinished = h.unfinished;
    uncancelled = h.uncancelled;
    unmarked = h.unmarked;
  })
  arrive-Mid false w rest (inr h) =
      inr (record { job = h.job; there = h.there; was_cancelled = h.was_cancelled })
  arrive-Mid true w rest (inl h) = inr (record {
    job = cancelled_job h.job;
    there = cancel_active id w.runner h.job h.there h.unfinished h.uncancelled;
    was_cancelled = unfold change in refl;
  })
  arrive-Mid true w rest (inr h) = inr (record {
    job = h.job;
    there =
        cancel_settled id w.runner h.job h.there
          (inr (cancelled_flags h.job.state h.was_cancelled));
    was_cancelled = h.was_cancelled;
  })

  pub acquire-Mid : (w : World) → Mid w → Mid (acquire id w)
  unfolding acquire
  acquire-Mid w h = arrive-Mid (next_arrival w.arrivals) w _ h

module _ (id : String) (Reason Flaw : Type 0) where
  abbrev pub Terminal : World → Type 0
  Terminal w = Ended id Reason w ⊎ Dead id w

  -- What holds where an action goes on; it returns from `_execute` at a terminal job only, and
  -- raises for a flaw only, or because a write of the job's record has failed.
  abbrev PostAt : {A : Type 0} → (A → World → Type 0) → Exit A → Type 0
  PostAt Q (go a w) = Q a w
  PostAt Q (stop w) = Terminal w
  PostAt Q (thrown w) = Flaw ⊎ (w.runner.unsaved id ≡ true)

  pub record Post {A : Type 0} (Q : A → World → Type 0) (o : Exit A) : Type 0 where
    pub at : PostAt Q o

  abbrev pub AtMid : {A : Type 0} → A → World → Type 0
  AtMid a w = Mid id w

  -- The answer of a locked test, with the world that it answers for.
  abbrev pub Answered : Bool → World → Type 0
  Answered b w = ((b ≡ true) × Live id w) ⊎ ((b ≡ false) × Dead id w)

  pub Post-bind :
      {A B : Type 0} {Q : A → World → Type 0} {R : B → World → Type 0} (w : World) (m : X A)
      (k : A → X B)
      → Post Q (m w)
      → ((a : A) (v : World) → Q a v → Post R (k a v))
      → Post R ((m >>= k) w)
  unfolding ◌>>=◌
  Post-bind {A} {B} {Q} {R} w m k h next = step (m w) h
    where
      step : (o : Exit A) → Post Q o → Post R (proceed_with o k)
      step (go a v) h = unfold proceed_with in next a v h.at
      step (stop v) h = unfold proceed_with in record { at = h.at }
      step (thrown v) h = unfold proceed_with in record { at = h.at }

  pub Post-then :
      {B : Type 0} {Q : Unit {0} → World → Type 0} {R : B → World → Type 0} (w : World)
      (m : X (Unit {0})) (k : X B)
      → Post Q (m w)
      → ((v : World) → Q tt v → Post R (k v))
      → Post R ((m >> k) w)
  unfolding ◌>>◌
  Post-then {B} {Q} {R} w m k h next = step (m w) h
    where
      step : (o : Exit (Unit {0})) → Post Q o → Post R (proceed_with o (λ _. k))
      step (go a v) h = unfold proceed_with in next v h.at
      step (stop v) h = unfold proceed_with in record { at = h.at }
      step (thrown v) h = unfold proceed_with in record { at = h.at }

  -- An update of a live job goes on, or its write has failed.
  settle_update-Post :
      {Q : Bool → World → Type 0} (j : Job) (v : World)
      → Q true (record { runner = store id j v.runner; arrivals = v.arrivals })
      → Post Q (
          settle_update
            (persisted (next_write v.runner.writes) (some j), store id j v.runner)
            v.arrivals)
  unfolding settle_update store
  settle_update-Post {Q} j v q = go (next_write v.runner.writes) refl
    where
      flag :
          (b : Bool)
          → has_failed (next_write v.runner.writes) ≡ b
          → (store id j v.runner).unsaved id ≡ b
      flag b e = put_self id (has_failed (next_write v.runner.writes)) v.runner.unsaved ∙ e

      go :
          (w : Write)
          → next_write v.runner.writes ≡ w
          → Post Q (settle_update (persisted w (some j), store id j v.runner) v.arrivals)
      go written e = record { at = q }
      go refused e = record { at = inr (flag true (ap has_failed e)) }
      go torn e = record { at = inr (flag true (ap has_failed e)) }

  -- `_update_if_active` with an unfinished state, then the return if it did nothing.
  pub proceed-Post :
      (c : Changes) (w : World)
      → is_finished_state c.state ≡ false
      → is_cancelled_state c.state ≡ false
      → Mid id w
      → Post (λ (a : Unit {0}) v. Live id v) (proceed id c w)
  unfolding proceed updated
  proceed-Post c w f g h =
      Post-bind {Q = Answered} w _ _ (answer (acquire id w) (acquire-Mid id w h)) next
    where
      answer :
          (v : World)
          → Mid id v
          → Post Answered (settle_update (update_if_active id c v.runner) v.arrivals)
      answer v (inl l) = rw (update_live id c v.runner l.job l.there l.uncancelled l.unmarked) (
          settle_update-Post (change c l.job) v (
            inl (
              refl,
              unfold store change in
                  record {
                    job = change c l.job;
                    there = put_self id (some (change c l.job)) v.runner.jobs;
                    unfinished = f;
                    uncancelled = g;
                    unmarked = l.unmarked;
                  },
            )))
      answer v (inr d) =
          rw
            (update_dead id c v.runner d.job d.there
              (cancelled_flags id d.job.state d.was_cancelled))
            (unfold settle_update in
              record {
                at = inr (
                  refl,
                  record { job = d.job; there = d.there; was_cancelled = d.was_cancelled },
                );
              })

      next :
          (b : Bool) (v : World)
          → Answered b v
          → Post (λ (a : Unit {0}) v. Live id v) (stop_unless b v)
      next b v (inl (e, l)) = unfold stop_unless in rw e (record { at = l })
      next b v (inr (e, d)) = unfold stop_unless in rw e (record { at = inr d })

  -- The last update: the job ends as it says, or stays cancelled.
  pub conclude-Post :
      {A : Type 0} {Q : A → World → Type 0} (c : Changes) (w : World)
      → is_finished_state c.state ≡ true
      → (c.state ≡ complete → Reason)
      → Mid id w
      → Post Q (conclude {A = A} id c w)
  unfolding conclude updated
  conclude-Post {A} {Q} c w f reason h =
      Post-bind {Q = λ b v. Terminal v} w _ _ (answer (acquire id w) (acquire-Mid id w h))
        λ b v t. unfold finish in record { at = t }
    where
      answer :
          (v : World)
          → Mid id v
          → Post
              (λ (b : Bool) v. Terminal v)
              (settle_update (update_if_active id c v.runner) v.arrivals)
      answer v (inl l) = rw (update_live id c v.runner l.job l.there l.uncancelled l.unmarked) (
          settle_update-Post (change c l.job) v (
            inl (
              unfold store change in
              record {
                job = change c l.job;
                there = put_self id (some (change c l.job)) v.runner.jobs;
                finished = f;
                reason = reason;
                never_marked = l.unmarked;
              })))
      answer v (inr d) =
          rw
            (update_dead id c v.runner d.job d.there
              (cancelled_flags id d.job.state d.was_cancelled))
            (unfold settle_update in
              record {
                at = inr (record { job = d.job; there = d.there; was_cancelled = d.was_cancelled });
              })

  pub check_cancelled-Post :
      (w : World) → Mid id w → Post (λ b. Answered (not b)) (check_cancelled id w)
  unfolding check_cancelled
  check_cancelled-Post w h = answer (acquire id w) (acquire-Mid id w h)
    where
      answer :
          (v : World) → Mid id v → Post (λ b. Answered (not b)) (go (is_cancelled id v.runner) v)
      answer v (inl l) = record {
        at = inl (rw (is_cancelled_live id v.runner l.job l.there l.uncancelled l.unmarked), l);
      }
      answer v (inr d) = record {
        at = inr (
          rw (
              is_cancelled_dead id v.runner d.job d.there
                (cancelled_flags id d.job.state d.was_cancelled)),
          d,
        );
      }

  pub Answered-Mid : (b : Bool) (v : World) → Answered b v → Mid id v
  Answered-Mid b v (inl h) = inl h.1
  Answered-Mid b v (inr h) = inr h.1
