-- ===== src/Batches/Submission/Undone.antt =====
-- The rollback of a submission as a whole, against the state before.
use mllm_windows_ai_workbenc.Prelude.{
  ◌≡◌, refl, sym, ap, ◌∙◌, String, Bool, true, false, ◌⊎◌, inl, inr, Option, none, List, str_eq,
  str_eq_iff, elem, put, Bool-cases, if◌then◌else◌, subst,
}
use mllm_windows_ai_workbenc.Batches.Model.{Item, Batch}
use mllm_windows_ai_workbenc.Batches.Store.{Store}
use mllm_windows_ai_workbenc.Batches.Submission.Trying.{Kept}
use mllm_windows_ai_workbenc.Batches.Submission.Undoing.{
  except, Apart, Cleaned, batch_files_after, except-same, forget_items-jobs, forget_items-owners,
  forget_items-Apart, Cleaned-trans, unlink_jobs-Cleaned, unlink_batch-Cleaned,
  restore_index-Cleaned,
}
use mllm_windows_ai_workbenc.Batches.Submission.{
  unlink_jobs, unlink_batch, restore_index, forget, roll_back,
}
use mllm_windows_ai_workbenc.Batches.Attempt.{Desk, Index, ids_of}

except-fresh {ℓ} :
    {V : Type ℓ} (ids : List String) (f g : String → Option V)
    → ((k : String) → elem k ids ≡ false → f k ≡ g k)
    → ((k : String) → elem k ids ≡ true → g k ≡ none)
    → (k : String) → except ids f k ≡ g k
except-fresh ids f g same fresh k = elim (Bool-cases (elem k ids)) [
  | inl e ↦ rw e (sym (fresh k e))
  | inr e ↦ rw e (same k e)
]

put-fresh {ℓ} :
    {V : Type ℓ} (id : String) (f g : String → Option V)
    → ((k : String) → str_eq id k ≡ false → f k ≡ g k)
    → g id ≡ none
    → (k : String) → put id none f k ≡ g k
put-fresh id f g same fresh k = elim (Bool-cases (str_eq id k)) [
  | inl e ↦ rw e (sym (subst (λ k. g k ≡ none) ((str_eq_iff id k).0 e) fresh))
  | inr e ↦ rw e (same k e)
]

-- Ids that nothing in memory or on the disk is known by.
pub record Fresh (id : String) (gone : List String) (s : Store) : Type 0 where
  pub jobs : (k : String) → elem k gone ≡ true → s.jobs k ≡ none
  pub owners : (k : String) → elem k gone ≡ true → s.owners k ≡ none
  pub job_files : (k : String) → elem k gone ≡ true → s.job_files k ≡ none
  pub records : s.records id ≡ none
  pub batch_files : s.batch_files id ≡ none

-- The maps in memory are as before; so are the files and the index, unless the rollback has noted
-- that it failed.
pub record Undone (s : Store) (index : Option Index) (d : Desk) : Type 0 where
  pub jobs : (k : String) → d.store.jobs k ≡ s.jobs k
  pub owners : (k : String) → d.store.owners k ≡ s.owners k
  pub records : (k : String) → d.store.records k ≡ s.records k
  pub files :
      (d.cleanup_failed ≡ true)
      ⊎ (((k : String) → d.store.job_files k ≡ s.job_files k)
          × ((k : String) → d.store.batch_files k ≡ s.batch_files k)
          × (d.index ≡ index))

module _ (id : String) (items : List Item) (s : Store) (index : Option Index) (d : Desk) where
  forget-Fresh :
      Fresh id (ids_of items) s
      → Kept id (ids_of items) s index d
      → let e : Desk = forget id items d in
        ((k : String) → e.store.jobs k ≡ s.jobs k)
        × ((k : String) → e.store.owners k ≡ s.owners k)
        × ((k : String) → e.store.records k ≡ s.records k)
        × Apart (record d.store { records = put id none d.store.records }) e.store
  unfolding forget
  forget-Fresh f p =
      let t : Store = record d.store { records = put id none d.store.records } in
      let apart = forget_items-Apart items t in
      (
        λ k.
            forget_items-jobs items t k
            ∙ except-fresh (ids_of items) d.store.jobs s.jobs p.jobs f.jobs k,
        λ k.
            forget_items-owners items t k
            ∙ except-fresh (ids_of items) d.store.owners s.owners p.owners f.owners k,
        λ k.
            ap (λ g. g k) apart.records
            ∙ put-fresh id d.store.records s.records p.records f.records k,
        apart,
      )

  after_batch :
      Fresh id (ids_of items) s
      → Kept id (ids_of items) s index d
      → (k : String)
      → (if d.batch_attempted then put id none d.store.batch_files k else d.store.batch_files k)
        ≡ s.batch_files k
  after_batch f p k = go d.batch_attempted refl
    where
      go :
          (b : Bool)
          → d.batch_attempted ≡ b
          → (if b then put id none d.store.batch_files k else d.store.batch_files k)
            ≡ s.batch_files k
      go true e =
          put-fresh id d.store.batch_files s.batch_files (λ k h. p.batch_files k (rw e h))
            f.batch_files k
      go false e = p.batch_files k (rw e refl)

  after_index :
      Kept id (ids_of items) s index d
      → (if d.index_attempted then d.prior_index else d.index) ≡ index
  after_index p = elim p.back [ inl (a, b) ↦ rw (a, b) refl | inr (a, b) ↦ rw (a, b) refl ]

  roll_back-Cleaned :
      let e : Desk = forget id items d in
      Cleaned e
        (roll_back id items d)
        (except d.attempted e.store.job_files)
        (batch_files_after id e)
        (if d.index_attempted then d.prior_index else e.index)
  unfolding roll_back forget
  roll_back-Cleaned =
      let e : Desk = forget id items d in
      let f = unlink_batch id e in
      let g = unlink_jobs d.attempted f in
      let first = unlink_batch-Cleaned id e in
      let both =
        Cleaned-trans e f g e.store.job_files (except d.attempted f.store.job_files)
          (except d.attempted e.store.job_files) (batch_files_after id e) f.store.batch_files
          (batch_files_after id e) e.index f.index e.index first (unlink_jobs-Cleaned d.attempted f)
          (λ a b x.
            (λ k. except-same d.attempted f.store.job_files e.store.job_files k (a k), b, x)) in
      Cleaned-trans e g (restore_index g) (except d.attempted e.store.job_files) g.store.job_files
        (except d.attempted e.store.job_files) (batch_files_after id e) g.store.batch_files
        (batch_files_after id e) e.index (if g.index_attempted then g.prior_index else g.index)
        (if d.index_attempted then d.prior_index else e.index) both (restore_index-Cleaned g)
        (λ a b x. (a, b, rw (both.index_attempted, both.prior_index, x) refl))

  -- The rollback undoes all that has been changed so far.
  pub roll_back-Undone :
      Fresh id (ids_of items) s
      → Kept id (ids_of items) s index d
      → Undone s index (roll_back id items d)
  unfolding forget
  roll_back-Undone f p =
      let e : Desk = forget id items d in
      let (j, o, r, apart) = forget-Fresh f p in
      let c = roll_back-Cleaned in
      record {
        jobs = λ k. ap (λ g. g k) c.jobs ∙ j k;
        owners = λ k. ap (λ g. g k) c.owners ∙ o k;
        records = λ k. ap (λ g. g k) c.records ∙ r k;
        files = elim c.outcome [
          | inl h ↦ inl h
          | inr (h, a, b, x) ↦ inr (
            λ k.
                a k
                ∙ ap (λ g. except d.attempted g k) apart.job_files
                ∙ except-fresh d.attempted d.store.job_files s.job_files p.job_files
                    (λ k h. f.job_files k (p.attempted k h)) k,
            λ k.
                b k
                ∙ ap
                    (λ (g : String → Option Batch).
                      if d.batch_attempted then put id none g k else g k)
                    apart.batch_files
                ∙ after_batch f p k,
            x ∙ after_index p,
          )
        ];
      }
