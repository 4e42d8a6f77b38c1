-- ===== src/Jobs/Runner/Reachable.antt =====
-- Sequences of the locked operations of job_runner.py, in any order.
use mllm_windows_ai_workbenc.Prelude.{
  ℕ, String, ◌≡◌, refl, ◌∙◌, sym, ap, subst, inl, inr, Bool, true, false, ◌||◌, Option, none, some,
  put, str_eq, str_eq_iff, Bool-cases, Option-cases, ||-eq-false,
}
use mllm_windows_ai_workbenc.Errors.{Result, ok, raise}
use mllm_windows_ai_workbenc.Jobs.Runner.{
  GenerateRequest, Job, Runner, read_file, after_lock, Changes, is_finished_state,
  is_cancelled_state, store, change, changes, cancelled, update_if_active, new_job, submit,
  terminate, cancel_native, cancel_loaded, cancel_job, cancel,
}
use mllm_windows_ai_workbenc.Jobs.Runner.Saving.{
  Fine, Good, Result-cases, Saved, cancel-Good, cancel_in_memory, cancel_missing, cancel_on_disk,
  submit-Good, update-Good, update_accepted, update_missing, update_refused,
}

-- A submission draws a fresh id, the queue's thread updates, and clients cancel.
pub data Step : Runner → Runner → Type 0 where
  submits :
      (id : String) (request : GenerateRequest) (drawn : ℕ) (r : Runner)
      → r.jobs id ≡ none
      → Step r (submit id request drawn r).1
  updates : (id : String) (c : Changes) (r : Runner) → Step r (update_if_active id c r).1
  cancels : (id : String) (r : Runner) → Step r (cancel id r).1

pub data Steps : Runner → Runner → Type 0 where
  none_left : (r : Runner) → Steps r r
  one_more : (r s t : Runner) → Step r s → Steps s t → Steps r t

-- A cancelled job in memory.
abbrev pub HasCancelled : String → Job → Runner → Type 0
HasCancelled id j r = (r.jobs id ≡ some j) × (is_cancelled_state j.state ≡ true)

module _ (strict : Bool) where
  Step-Good : (r s : Runner) → Step r s → Good strict r → Good strict s
  Step-Good r _ (submits id request drawn _ fresh) h = submit-Good strict id request drawn r h
  Step-Good r _ (updates id c _) h = update-Good strict id c r h
  Step-Good r _ (cancels id _) h = cancel-Good strict id r h

  Steps-Good : (r s : Runner) → Steps r s → Good strict r → Good strict s
  Steps-Good r _ (none_left _) h = h
  Steps-Good r t (one_more _ s _ one rest) h = Steps-Good s t rest (Step-Good r s one h)

-- However submissions, updates and cancellations follow each other, and whichever writes fail, the
-- file of every job in memory holds the job as it is in memory, unless the last write of that job
-- has failed, if that was so before; and where every write succeeds, none is noted as failed, so
-- every job in memory is on the disk as it is in memory.
pub Steps-Saved : (r s : Runner) → Steps r s → Saved r → Saved s × (Fine r → Fine s)
Steps-Saved r s steps h = (
  (Steps-Good false r s steps (h, λ e. absurd (cc (e)))).0,
  λ f. (Steps-Good true r s steps (h, λ e. f)).1 refl,
)

module _ (id : String) (j : Job) where
  -- A step at another id, or none at all, leaves the job.
  store_elsewhere :
      (k : String) (i : Job) (r : Runner)
      → str_eq k id ≡ false
      → r.jobs id ≡ some j
      → (store k i r).jobs id ≡ some j
  unfolding store
  store_elsewhere k i r e h = rw e h

  jobs-terminate : (k : String) (p : Option Bool) (r : Runner) → (terminate k p r).jobs ≡ r.jobs
  unfolding terminate
  jobs-terminate k none r = refl
  jobs-terminate k (some true) r = refl
  jobs-terminate k (some false) r = refl

  jobs-cancel_native : (p : Option String) (r : Runner) → (cancel_native p r).jobs ≡ r.jobs
  unfolding cancel_native
  jobs-cancel_native none r = refl
  jobs-cancel_native (some x) r = refl

  jobs-after_lock :
      (b : Bool) (p : Option String) (o : Result Job) (r : Runner)
      → (after_lock b p o r).jobs ≡ r.jobs
  unfolding after_lock
  jobs-after_lock b p (raise e) r = refl
  jobs-after_lock true p (ok i) r = refl
  jobs-after_lock false p (ok i) r = jobs-cancel_native p r

  another :
      (k : String) (i : Job) (r : Runner)
      → r.jobs id ≡ some j
      → is_cancelled_state j.state ≡ true
      → r.jobs k ≡ some i
      → is_cancelled_state i.state ≡ false
      → str_eq k id ≡ false
  another k i r h c e d = elim (Bool-cases (str_eq k id)) [
    | inr f ↦ f
    | inl f ↦ absurd (clash ((str_eq_iff k id).0 f))
  ]
    where
      clash : k ≡ id → ⊥
      clash p = cc (p, h, c, e, d)

  absent_elsewhere :
      (k : String) (r : Runner) → r.jobs id ≡ some j → r.jobs k ≡ none → str_eq k id ≡ false
  absent_elsewhere k r h e = elim (Bool-cases (str_eq k id)) [
    | inr f ↦ f
    | inl f ↦ absurd (clash ((str_eq_iff k id).0 f))
  ]
    where
      clash : k ≡ id → ⊥
      clash p = cc (p, h, e)

  loaded_elsewhere :
      (k : String) (i : Job) (r : Runner)
      → r.jobs id ≡ some j
      → (is_cancelled_state i.state ≡ false → str_eq k id ≡ false)
      → (cancel_loaded k i r).1.jobs id ≡ some j
  unfolding cancel_loaded
  loaded_elsewhere k i r h apart = elim (Bool-cases (is_finished_state i.state)) [
    | inl f ↦ rw f h
    | inr f ↦ elim (Bool-cases (is_cancelled_state i.state)) [
      | inl c ↦ rw (f, c) h
      | inr c ↦
          rw (f, c)
            (store_elsewhere k (change (changes cancelled 0 "已取消生成") i)
              (terminate k (r.processes k) (record r { cancelled = put k true r.cancelled }))
              (apart c)
              (ap (λ (m : String → Option Job). m id)
                  (jobs-terminate k (r.processes k)
                    (record r { cancelled = put k true r.cancelled }))
                ∙ h))
    ]
  ]

  cancel_job_elsewhere :
      (k : String) (i : Job) (r : Runner)
      → r.jobs id ≡ some j
      → (is_cancelled_state i.state ≡ false → str_eq k id ≡ false)
      → (cancel_job k i r).1.jobs id ≡ some j
  unfolding cancel_job
  cancel_job_elsewhere k i r h apart =
      ap (λ (m : String → Option Job). m id)
        (jobs-after_lock (is_finished_state i.state) (r.native_jobs k) (cancel_loaded k i r).0
          (cancel_loaded k i r).1)
      ∙ loaded_elsewhere k i r h apart

  Step-HasCancelled :
      (r s : Runner)
      → Step r s
      → r.jobs id ≡ some j
      → is_cancelled_state j.state ≡ true
      → s.jobs id ≡ some j
  unfolding submit
  Step-HasCancelled r _ (submits k request drawn _ fresh) h c =
      store_elsewhere k (new_job k request drawn) r (absent_elsewhere k r h fresh) h
  Step-HasCancelled r _ (updates k d _) h c = elim (Option-cases (r.jobs k)) [
    | inl e ↦ subst (λ x. x.jobs id ≡ some j) (sym (update_missing k d r e)) h
    | inr (i, e) ↦ elim (Bool-cases (r.cancelled k || is_cancelled_state i.state)) [
      | inl f ↦ subst (λ x. x.jobs id ≡ some j) (sym (update_refused k d r i e f)) h
      | inr f ↦
          subst (λ x. x.jobs id ≡ some j) (sym (update_accepted k d r i e f))
            (store_elsewhere k (change d i) r
              (another k i r h c e (||-eq-false (r.cancelled k) (is_cancelled_state i.state) f).1)
              h)
    ]
  ]
  Step-HasCancelled r _ (cancels k _) h c = elim (Option-cases (r.jobs k)) [
    | inr (i, e) ↦
        subst (λ x. x.1.jobs id ≡ some j) (sym (cancel_in_memory k r i e))
          (cancel_job_elsewhere k i r h (another k i r h c e))
    | inl e ↦ elim (Result-cases (read_file (r.files k))) [
      | inl (x, f) ↦ subst (λ x. x.jobs id ≡ some j) (sym (cancel_missing k r x e f)) h
      | inr (i, f) ↦
          let apart = absent_elsewhere k r h e in
          subst (λ x. x.1.jobs id ≡ some j) (sym (cancel_on_disk k r i e f))
            (cancel_job_elsewhere k i (record r { jobs = put k (some i) r.jobs }) (rw apart h)
              (λ _. apart))
    ]
  ]

-- A cancelled job stays exactly as it is, whatever operations follow.
pub Steps-HasCancelled :
    (id : String) (j : Job) (r s : Runner) → Steps r s → HasCancelled id j r → HasCancelled id j s
Steps-HasCancelled id j r _ (none_left _) h = h
Steps-HasCancelled id j r t (one_more _ s _ one rest) h =
    Steps-HasCancelled id j s t rest (Step-HasCancelled id j r s one h.0 h.1, h.1)
