-- ===== src/Batches/Submission/Undoing.antt =====
-- The parts of the rollback of a submission.
use mllm_windows_ai_workbenc.Prelude.{
  ◌≡◌, refl, sym, ap, ◌∙◌, String, Bool, true, false, ◌⊎◌, inl, inr, Option, none, List, [], ◌∷◌,
  arith, str_eq, elem, put, Bool-cases, if◌then◌else◌, subst,
}
use mllm_windows_ai_workbenc.Errors.{raise, ok, os_error}
use mllm_windows_ai_workbenc.Batches.Model.{Item, Batch}
use mllm_windows_ai_workbenc.Batches.Store.{Store, write}
use mllm_windows_ai_workbenc.Batches.Completion.Posts.{write-cases}
use mllm_windows_ai_workbenc.Batches.Submission.{
  forget_items, removed, unlink_jobs, unlink_batch, reindexed, restore_index,
}
use mllm_windows_ai_workbenc.Batches.Attempt.{Desk, Index, ids_of}

-- `pop` of every id of a list.
abbrev pub except {ℓ} : {V : Type ℓ} → List String → (String → Option V) → String → Option V
except ids f k = if elem k ids then none else f k

pub except-later {ℓ} :
    {V : Type ℓ} (id : String) (ids : List String) (f : String → Option V) (k : String)
    → except ids (put id none f) k ≡ except (id ∷ ids) f k
except-later id ids f k = elim (Bool-cases (str_eq id k)) [
  | inl e ↦ ground (arith, e)
  | inr e ↦ ground (arith, e)
]

pub except-same :
    (ids : List String) (f g : String → Option Item) (k : String)
    → f k ≡ g k
    → except ids f k ≡ except ids g k
except-same ids f g k e = rw e refl

pub forget_items-jobs :
    (items : List Item) (s : Store) (k : String)
    → (forget_items items s).jobs k ≡ except (ids_of items) s.jobs k
unfolding forget_items
forget_items-jobs [] s k = refl
forget_items-jobs (x ∷ xs) s k =
    forget_items-jobs xs (record s { jobs = put x.id none s.jobs; owners = put x.id none s.owners })
      k
    ∙ except-later x.id (ids_of xs) s.jobs k

pub forget_items-owners :
    (items : List Item) (s : Store) (k : String)
    → (forget_items items s).owners k ≡ except (ids_of items) s.owners k
unfolding forget_items
forget_items-owners [] s k = refl
forget_items-owners (x ∷ xs) s k =
    forget_items-owners xs
      (record s { jobs = put x.id none s.jobs; owners = put x.id none s.owners }) k
    ∙ except-later x.id (ids_of xs) s.owners k

-- The fields that no `pop` of the service's two maps touches.
pub record Apart (s t : Store) : Type 0 where
  pub records : t.records ≡ s.records
  pub batch_files : t.batch_files ≡ s.batch_files
  pub job_files : t.job_files ≡ s.job_files

pub forget_items-Apart : (items : List Item) (s : Store) → Apart s (forget_items items s)
unfolding forget_items
forget_items-Apart [] s = record { records = refl; batch_files = refl; job_files = refl }
forget_items-Apart (x ∷ xs) s =
    let u : Store = record s { jobs = put x.id none s.jobs; owners = put x.id none s.owners } in
    let rest = forget_items-Apart xs u in
    record { records = rest.records; batch_files = rest.batch_files; job_files = rest.job_files }

-- What a part of the rollback leaves: memory as it is, and either a file that could not be removed
-- and is noted, or the given files and index.
pub record Cleaned (d e : Desk) (jf : String → Option Item) (bf : String → Option Batch)
    (index : Option Index) : Type 0 where
  pub jobs : e.store.jobs ≡ d.store.jobs
  pub owners : e.store.owners ≡ d.store.owners
  pub records : e.store.records ≡ d.store.records
  pub attempted : e.attempted ≡ d.attempted
  pub index_attempted : e.index_attempted ≡ d.index_attempted
  pub prior_index : e.prior_index ≡ d.prior_index
  pub outcome :
      (e.cleanup_failed ≡ true)
      ⊎ ((e.cleanup_failed ≡ d.cleanup_failed)
          × ((k : String) → e.store.job_files k ≡ jf k)
          × ((k : String) → e.store.batch_files k ≡ bf k)
          × (e.index ≡ index))

Cleaned-refl : (d : Desk) → Cleaned d d d.store.job_files d.store.batch_files d.index
Cleaned-refl d = record {
  jobs = refl;
  owners = refl;
  records = refl;
  attempted = refl;
  index_attempted = refl;
  prior_index = refl;
  outcome = inr (refl, λ k. refl, λ k. refl, refl);
}

-- A failure stays noted.
pub Cleaned-trans :
    (d e f : Desk) (jf jf' jf'' : String → Option Item) (bf bf' bf'' : String → Option Batch)
    (i i' i'' : Option Index)
    → Cleaned d e jf bf i
    → Cleaned e f jf' bf' i'
    → (((k : String) → e.store.job_files k ≡ jf k)
        → ((k : String) → e.store.batch_files k ≡ bf k)
        → e.index ≡ i
        → ((k : String) → jf' k ≡ jf'' k) × ((k : String) → bf' k ≡ bf'' k) × (i' ≡ i''))
    → Cleaned d f jf'' bf'' i''
Cleaned-trans d e f jf jf' jf'' bf bf' bf'' i i' i'' p q join = record {
  jobs = q.jobs ∙ p.jobs;
  owners = q.owners ∙ p.owners;
  records = q.records ∙ p.records;
  attempted = q.attempted ∙ p.attempted;
  index_attempted = q.index_attempted ∙ p.index_attempted;
  prior_index = q.prior_index ∙ p.prior_index;
  outcome = elim q.outcome [
    | inl h ↦ inl h
    | inr (c, a, b, x) ↦ elim p.outcome [
      | inl h ↦ inl (c ∙ h)
      | inr (c', a', b', x') ↦
          let (u, v, w) = join a' b' x' in inr (c ∙ c', λ k. a k ∙ u k, λ k. b k ∙ v k, x ∙ w)
    ]
  ];
}

-- One attempt to remove or to restore something.
tried :
    (f : Store → Store) (d : Desk) (jf : String → Option Item) (bf : String → Option Batch)
    → ((w : List Bool)
        → ((f (record d.store { writes = w })).jobs ≡ d.store.jobs)
          × ((f (record d.store { writes = w })).owners ≡ d.store.owners)
          × ((f (record d.store { writes = w })).records ≡ d.store.records)
          × ((f (record d.store { writes = w })).job_files ≡ jf)
          × ((f (record d.store { writes = w })).batch_files ≡ bf))
    → Cleaned d (removed f d (write d.store)) jf bf d.index
tried f d jf bf same = go (write-cases d.store)
  where
    go :
        ((w : List Bool) × ((write d.store ≡ (ok tt, record d.store { writes = w }))
            ⊎ (write d.store ≡ (raise os_error, record d.store { writes = w }))))
        → Cleaned d (removed f d (write d.store)) jf bf d.index
    go (w, inl e) =
        let (a, b, c, x, y) = same w in
        subst (λ o. Cleaned d (removed f d o) jf bf d.index) (sym e)
          (record {
            jobs = a;
            owners = b;
            records = c;
            attempted = refl;
            index_attempted = refl;
            prior_index = refl;
            outcome = inr (refl, λ k. ap (λ g. g k) x, λ k. ap (λ g. g k) y, refl);
          })
    go (w, inr e) =
        subst (λ o. Cleaned d (removed f d o) jf bf d.index) (sym e)
          (record {
            jobs = refl;
            owners = refl;
            records = refl;
            attempted = refl;
            index_attempted = refl;
            prior_index = refl;
            outcome = inl refl;
          })

pub unlink_jobs-Cleaned :
    (ids : List String) (d : Desk)
    → Cleaned d (unlink_jobs ids d) (except ids d.store.job_files) d.store.batch_files d.index
unfolding unlink_jobs
unlink_jobs-Cleaned [] d = Cleaned-refl d
unlink_jobs-Cleaned (id ∷ ids) d =
    let f = λ (t : Store). record t { job_files = put id none t.job_files } in
    let e = removed f d (write d.store) in
    let one =
      tried f d (put id none d.store.job_files) d.store.batch_files
        (λ w. (refl, refl, refl, refl, refl)) in
    Cleaned-trans d e (unlink_jobs ids e) (put id none d.store.job_files)
      (except ids e.store.job_files) (except (id ∷ ids) d.store.job_files) d.store.batch_files
      e.store.batch_files d.store.batch_files d.index e.index d.index one
      (unlink_jobs-Cleaned ids e)
      (λ a b x. (
        λ k.
            except-same ids e.store.job_files (put id none d.store.job_files) k (a k)
            ∙ except-later id ids d.store.job_files k,
        b,
        x,
      ))

abbrev pub batch_files_after : String → Desk → String → Option Batch
batch_files_after id d k =
    if d.batch_attempted then put id none d.store.batch_files k else d.store.batch_files k

pub unlink_batch-Cleaned :
    (id : String) (d : Desk)
    → Cleaned d (unlink_batch id d) d.store.job_files (batch_files_after id d) d.index
unfolding unlink_batch
unlink_batch-Cleaned id d = go d.batch_attempted refl
  where
    go :
        (b : Bool)
        → d.batch_attempted ≡ b
        → Cleaned d
            (if b
              then removed
                  (λ t. record t { batch_files = put id none t.batch_files })
                  d
                  (write d.store)
              else d)
            d.store.job_files
            (λ k. if b then put id none d.store.batch_files k else d.store.batch_files k)
            d.index
    go true e =
        tried (λ t. record t { batch_files = put id none t.batch_files }) d d.store.job_files
          (put id none d.store.batch_files) (λ w. (refl, refl, refl, refl, refl))
    go false e = Cleaned-refl d

pub restore_index-Cleaned :
    (d : Desk)
    → Cleaned d
        (restore_index d)
        d.store.job_files
        d.store.batch_files
        (if d.index_attempted then d.prior_index else d.index)
unfolding restore_index
restore_index-Cleaned d = go d.index_attempted (write-cases d.store)
  where
    go :
        (b : Bool)
        → ((w : List Bool) × ((write d.store ≡ (ok tt, record d.store { writes = w }))
              ⊎ (write d.store ≡ (raise os_error, record d.store { writes = w }))))
        → Cleaned d
            (if b then reindexed d (write d.store) else d)
            d.store.job_files
            d.store.batch_files
            (if b then d.prior_index else d.index)
    go false c = Cleaned-refl d
    go true (w, inl e) =
        subst (λ o. Cleaned d (reindexed d o) d.store.job_files d.store.batch_files d.prior_index)
          (sym e)
          (record {
            jobs = refl;
            owners = refl;
            records = refl;
            attempted = refl;
            index_attempted = refl;
            prior_index = refl;
            outcome = inr (refl, λ k. refl, λ k. refl, refl);
          })
    go true (w, inr e) =
        subst (λ o. Cleaned d (reindexed d o) d.store.job_files d.store.batch_files d.prior_index)
          (sym e)
          (record {
            jobs = refl;
            owners = refl;
            records = refl;
            attempted = refl;
            index_attempted = refl;
            prior_index = refl;
            outcome = inl refl;
          })
