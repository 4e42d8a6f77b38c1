-- ===== src/Jobs/Runner/Saving.antt =====
-- What each operation of job_runner.py on the records keeps of the files.
use mllm_windows_ai_workbenc.Prelude.{
  ℕ, String, ◌≡◌, refl, ◌∙◌, sym, ap, subst, ◌⊎◌, inl, inr, Bool, true, false, ◌||◌, Option, none,
  some, List, [], ◌∷◌, All, arith, put, str_eq, str_eq_iff, if◌then◌else◌, Bool-cases, Option-cases,
}
use mllm_windows_ai_workbenc.Errors.{Exn, Result, ok, raise}
use mllm_windows_ai_workbenc.Jobs.Runner.{
  GenerateRequest, Job, Write, written, refused, torn, File, saved, damaged, Runner, next_write,
  later_writes, write_file, has_failed, persisted, read_file, after_lock, Changes,
  is_finished_state, is_cancelled_state, store, change, changes, cancelled, update_if_active,
  new_job, submit, terminate, cancel_native, cancel_loaded, cancel_job, cancel,
}

-- Every job in memory is on the disk as it is in memory, unless the last write of it has failed.
abbrev pub Saved : Runner → Type 0
Saved r =
    (id : String) (j : Job)
    → r.jobs id ≡ some j
    → r.unsaved id ≡ false
    → r.files id ≡ some (saved j)

store-Saved : (id : String) (j : Job) (r : Runner) → Saved r → Saved (store id j r)
unfolding store
store-Saved id j r s k i h n = go (Bool-cases (str_eq id k))
  where
    file : (w : Write) → has_failed w ≡ false → write_file w j (r.files id) ≡ some (saved j)
    file written e = refl
    file refused e = absurd (cc (e))
    file torn e = absurd (cc (e))

    go :
        (str_eq id k ≡ true) ⊎ (str_eq id k ≡ false)
        → put id (write_file (next_write r.writes) j (r.files id)) r.files k ≡ some (saved i)
    go (inl e) =
        let same : j ≡ i = cc (rw e at h) in
        rw e (file (next_write r.writes) (rw e at n) ∙ ap (λ x. some (saved x)) same)
    go (inr e) = rw e (s k i (rw e at h) (rw e at n))

load-Saved :
    (id : String) (j : Job) (r : Runner)
    → r.files id ≡ some (saved j)
    → Saved r
    → Saved (record r { jobs = put id (some j) r.jobs })
load-Saved id j r there s k i h n = go (Bool-cases (str_eq id k))
  where
    go : (str_eq id k ≡ true) ⊎ (str_eq id k ≡ false) → r.files k ≡ some (saved i)
    go (inl e) =
        let same : j ≡ i = cc (rw e at h) in
        rw (← (str_eq_iff id k).0 e) (there ∙ ap (λ x. some (saved x)) same)
    go (inr e) = s k i (rw e at h) n

read_file-saved : (o : Option File) (j : Job) → read_file o ≡ ok j → o ≡ some (saved j)
unfolding read_file
read_file-saved none j h = absurd (cc (h))
read_file-saved (some damaged) j h = absurd (cc (h))
read_file-saved (some (saved i)) j h = cc (h)

pub Result-cases :
    {A : Type 0} (o : Result A) → ((e : Exn) × (o ≡ raise e)) ⊎ ((a : A) × (o ≡ ok a))
Result-cases (ok a) = inr (a, refl)
Result-cases (raise e) = inl (e, refl)

-- Where each operation takes which branch.
pub cancel_in_memory :
    (id : String) (r : Runner) (j : Job) → r.jobs id ≡ some j → cancel id r ≡ cancel_job id j r
unfolding cancel
cancel_in_memory id r j e = ground arith

pub cancel_on_disk :
    (id : String) (r : Runner) (j : Job)
    → r.jobs id ≡ none
    → read_file (r.files id) ≡ ok j
    → cancel id r ≡ cancel_job id j (record r { jobs = put id (some j) r.jobs })
unfolding cancel
cancel_on_disk id r j e f = ground arith

pub cancel_missing :
    (id : String) (r : Runner) (e : Exn)
    → r.jobs id ≡ none
    → read_file (r.files id) ≡ raise e
    → (cancel id r).1 ≡ r
unfolding cancel
cancel_missing id r x e f = ground arith

pub update_missing :
    (id : String) (c : Changes) (r : Runner) → r.jobs id ≡ none → (update_if_active id c r).1 ≡ r
unfolding update_if_active
update_missing id c r e = ground arith

pub update_refused :
    (id : String) (c : Changes) (r : Runner) (j : Job)
    → r.jobs id ≡ some j
    → (r.cancelled id || is_cancelled_state j.state) ≡ true
    → (update_if_active id c r).1 ≡ r
unfolding update_if_active
update_refused id c r j e f = ground arith

pub update_accepted :
    (id : String) (c : Changes) (r : Runner) (j : Job)
    → r.jobs id ≡ some j
    → (r.cancelled id || is_cancelled_state j.state) ≡ false
    → (update_if_active id c r).1 ≡ store id (change c j) r
unfolding update_if_active
update_accepted id c r j e f = ground arith

-- Every coming write succeeds, and no write has failed.
abbrev pub Fine : Runner → Type 0
Fine r = All (λ w. w ≡ written) r.writes × ((id : String) → r.unsaved id ≡ false)

store-Fine : (id : String) (j : Job) (r : Runner) → Fine r → Fine (store id j r)
unfolding store
store-Fine id j r (w, u) = (
  later r.writes w,
  λ k. elim (Bool-cases (str_eq id k)) [ inl e ↦ rw e (next r.writes w) | inr e ↦ rw e (u k) ],
)
  where
    later : (ws : List Write) → All (λ w. w ≡ written) ws → All (λ w. w ≡ written) (later_writes ws)
    later [] h = tt
    later (w ∷ ws) h = h.1

    next : (ws : List Write) → All (λ w. w ≡ written) ws → has_failed (next_write ws) ≡ false
    next [] h = refl
    next (w ∷ ws) h = ap has_failed h.0

module _ (strict : Bool) where
  -- Jobs are saved, and, where it is asked for, no write fails.
  abbrev pub Good : Runner → Type 0
  Good r = Saved r × (strict ≡ true → Fine r)

  store-Good : (id : String) (j : Job) (r : Runner) → Good r → Good (store id j r)
  store-Good id j r (s, f) = (store-Saved id j r s, λ e. store-Fine id j r (f e))

  load-Good :
      (id : String) (j : Job) (r : Runner)
      → r.files id ≡ some (saved j)
      → Good r
      → Good (record r { jobs = put id (some j) r.jobs })
  load-Good id j r there (s, f) = (load-Saved id j r there s, f)

  terminate-Good : (id : String) (p : Option Bool) (r : Runner) → Good r → Good (terminate id p r)
  unfolding terminate
  terminate-Good id none r s = s
  terminate-Good id (some true) r s = s
  terminate-Good id (some false) r s = s

  cancel_native-Good : (p : Option String) (r : Runner) → Good r → Good (cancel_native p r)
  unfolding cancel_native
  cancel_native-Good none r s = s
  cancel_native-Good (some x) r s = s

  cancel_loaded-Good : (id : String) (j : Job) (r : Runner) → Good r → Good (cancel_loaded id j r).1
  unfolding cancel_loaded
  cancel_loaded-Good id j r s = go (is_finished_state j.state) (is_cancelled_state j.state)
    where
      go :
          (f c : Bool)
          → Good
              (if◌then◌else◌ {A = Result Job × Runner} f
                (ok j, r)
                (if◌then◌else◌ {A = Result Job × Runner} c
                  (ok j, r)
                  (let c = change (changes cancelled 0 "已取消生成") j in
                    (
                      persisted (next_write r.writes) c,
                      store id c (
                          terminate id
                            (r.processes id)
                            (record r { cancelled = put id true r.cancelled })),
                    )))).1
      go true c = s
      go false true = s
      go false false =
          store-Good id (change (changes cancelled 0 "已取消生成") j)
            (terminate id (r.processes id) (record r { cancelled = put id true r.cancelled }))
            (terminate-Good id (r.processes id) (record r { cancelled = put id true r.cancelled })
              s)

  after_lock-Good :
      (b : Bool) (p : Option String) (o : Result Job) (r : Runner)
      → Good r
      → Good (after_lock b p o r)
  unfolding after_lock
  after_lock-Good b p (raise e) r s = s
  after_lock-Good true p (ok j) r s = s
  after_lock-Good false p (ok j) r s = cancel_native-Good p r s

  cancel_job-Good : (id : String) (j : Job) (r : Runner) → Good r → Good (cancel_job id j r).1
  unfolding cancel_job
  cancel_job-Good id j r s =
      after_lock-Good (is_finished_state j.state) (r.native_jobs id) (cancel_loaded id j r).0
        (cancel_loaded id j r).1 (cancel_loaded-Good id j r s)

  pub cancel-Good : (id : String) (r : Runner) → Good r → Good (cancel id r).1
  cancel-Good id r s = elim (Option-cases (r.jobs id)) [
    | inr (j, e) ↦
        subst (λ x. Good x.1) (sym (cancel_in_memory id r j e)) (cancel_job-Good id j r s)
    | inl e ↦ elim (Result-cases (read_file (r.files id))) [
      | inr (j, f) ↦
          subst (λ x. Good x.1) (sym (cancel_on_disk id r j e f))
            (cancel_job-Good id j (record r { jobs = put id (some j) r.jobs })
              (load-Good id j r (read_file-saved (r.files id) j f) s))
      | inl (x, f) ↦ subst Good (sym (cancel_missing id r x e f)) s
    ]
  ]

  pub update-Good :
      (id : String) (c : Changes) (r : Runner) → Good r → Good (update_if_active id c r).1
  update-Good id c r s = elim (Option-cases (r.jobs id)) [
    | inl e ↦ subst Good (sym (update_missing id c r e)) s
    | inr (j, e) ↦ elim (Bool-cases (r.cancelled id || is_cancelled_state j.state)) [
      | inl f ↦ subst Good (sym (update_refused id c r j e f)) s
      | inr f ↦ subst Good (sym (update_accepted id c r j e f)) (store-Good id (change c j) r s)
    ]
  ]

  pub submit-Good :
      (id : String) (request : GenerateRequest) (drawn : ℕ) (r : Runner)
      → Good r
      → Good (submit id request drawn r).1
  unfolding submit
  submit-Good id request drawn r s = store-Good id (new_job id request drawn) r s
