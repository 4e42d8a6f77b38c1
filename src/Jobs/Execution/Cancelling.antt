-- ===== src/Jobs/Execution/Cancelling.antt =====
-- Cancelling a job, and what the next locked section sees of it.
use mllm_windows_ai_workbenc.Prelude.{
  String, ◌≡◌, refl, ap, ◌∙◌, ◌⊎◌, inl, inr, Bool, true, false, Option, none, some, arith, put,
  put_self, Bool-cases,
}
use mllm_windows_ai_workbenc.Errors.{Result, ok, raise}
use mllm_windows_ai_workbenc.Jobs.Runner.{
  cancelled, Job, Runner, is_finished_state, is_cancelled_state, store, change, changes, terminate,
  cancel_native, after_lock, next_write, persisted, cancel_loaded, cancel_job, cancel, Changes,
  update_if_active, is_cancelled,
}

jobs-terminate : (id : String) (p : Option Bool) (r : Runner) → (terminate id p r).jobs ≡ r.jobs
unfolding terminate
jobs-terminate id none r = refl
jobs-terminate id (some true) r = refl
jobs-terminate id (some false) r = refl

jobs-cancel_native : (p : Option String) (r : Runner) → (cancel_native p r).jobs ≡ r.jobs
unfolding cancel_native
jobs-cancel_native none r = refl
jobs-cancel_native (some x) r = refl

jobs-after_lock :
    (b : Bool) (p : Option String) (o : Result Job) (r : Runner)
    → (after_lock b p o r).jobs ≡ r.jobs
unfolding after_lock
jobs-after_lock b p (raise e) r = refl
jobs-after_lock true p (ok j) r = refl
jobs-after_lock false p (ok j) r = jobs-cancel_native p r

abbrev pub cancelled_job : Job → Job
cancelled_job j = change (changes cancelled 0 "已取消生成") j

cancel-loaded :
    (id : String) (r : Runner) (j : Job) → r.jobs id ≡ some j → cancel id r ≡ cancel_job id j r
unfolding cancel
cancel-loaded id r j there = ground arith

-- The state of the jobs after `cancel`, for a job in memory.
jobs-cancel_job :
    (id : String) (j : Job) (r : Runner)
    → (cancel_job id j r).1.jobs ≡ (cancel_loaded id j r).1.jobs
unfolding cancel_job
jobs-cancel_job id j r =
    jobs-after_lock (is_finished_state j.state) (r.native_jobs id) (cancel_loaded id j r).0
      (cancel_loaded id j r).1

jobs-cancel :
    (id : String) (r : Runner) (j : Job)
    → r.jobs id ≡ some j
    → (cancel id r).1.jobs ≡ (cancel_loaded id j r).1.jobs
jobs-cancel id r j there = ap (λ x. x.1.jobs) (cancel-loaded id r j there) ∙ jobs-cancel_job id j r

-- An unfinished job is marked, and a finished or cancelled one stays as it is.
pub cancel_active :
    (id : String) (r : Runner) (j : Job)
    → r.jobs id ≡ some j
    → is_finished_state j.state ≡ false
    → is_cancelled_state j.state ≡ false
    → (cancel id r).1.jobs id ≡ some (cancelled_job j)
unfolding cancel_loaded store
cancel_active id r j there f c =
    ap (λ (m : String → Option Job). m id) (jobs-cancel id r j there)
    ∙ rw (f, c)
        (put_self id (some (cancelled_job j))
          (terminate id (r.processes id) (record r { cancelled = put id true r.cancelled })).jobs)

pub cancel_settled :
    (id : String) (r : Runner) (j : Job)
    → r.jobs id ≡ some j
    → (is_finished_state j.state ≡ true) ⊎ (is_cancelled_state j.state ≡ true)
    → (cancel id r).1.jobs id ≡ some j
unfolding cancel_loaded
cancel_settled id r j there h =
    ap (λ (m : String → Option Job). m id) (jobs-cancel id r j there) ∙ stays h
  where
    stays :
        (is_finished_state j.state ≡ true) ⊎ (is_cancelled_state j.state ≡ true)
        → (cancel_loaded id j r).1.jobs id ≡ some j
    stays (inl f) = rw f there
    stays (inr c) = elim (Bool-cases (is_finished_state j.state)) [
      | inl f ↦ rw f there
      | inr f ↦ rw (f, c) there
    ]

pub update_live :
    (id : String) (c : Changes) (r : Runner) (j : Job)
    → r.jobs id ≡ some j
    → is_cancelled_state j.state ≡ false
    → r.cancelled id ≡ false
    → update_if_active id c r
      ≡ (persisted (next_write r.writes) (some (change c j)), store id (change c j) r)
unfolding update_if_active
update_live id c r j there f m = ground arith

pub update_dead :
    (id : String) (c : Changes) (r : Runner) (j : Job)
    → r.jobs id ≡ some j
    → is_cancelled_state j.state ≡ true
    → update_if_active id c r ≡ (ok none, r)
unfolding update_if_active
update_dead id c r j there f = ground arith

pub is_cancelled_live :
    (id : String) (r : Runner) (j : Job)
    → r.jobs id ≡ some j
    → is_cancelled_state j.state ≡ false
    → r.cancelled id ≡ false
    → is_cancelled id r ≡ false
unfolding is_cancelled
is_cancelled_live id r j there f m = ground arith

pub is_cancelled_dead :
    (id : String) (r : Runner) (j : Job)
    → r.jobs id ≡ some j
    → is_cancelled_state j.state ≡ true
    → is_cancelled id r ≡ true
unfolding is_cancelled
is_cancelled_dead id r j there f = ground arith
