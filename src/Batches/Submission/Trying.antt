-- ===== src/Batches/Submission/Trying.antt =====
-- What a submission has changed so far, whether the next step succeeds or not.
use mllm_windows_ai_workbenc.Prelude.{
  ◌≡◌, refl, sym, subst, String, Bool, true, false, ◌&&◌, ◌||◌, ◌⊎◌, inl, inr, Option, some, List,
  [], ◌∷◌, str_eq, str_eq_iff, str_eq_refl, elem, put, Bool-cases, ||-eq-false,
}
use mllm_windows_ai_workbenc.Errors.{Result, ok, raise, os_error}
use mllm_windows_ai_workbenc.Batches.Model.{Item, Batch}
use mllm_windows_ai_workbenc.Batches.Store.{Store, next, write, stamped, save}
use mllm_windows_ai_workbenc.Batches.Completion.Posts.{write-cases}
use mllm_windows_ai_workbenc.Batches.Attempt.{
  Desk, Index, Stage, ids_of, follow, written, put_job_file, save_item, save_items, put_index,
  save_index, kept, save_batch, publish_item, publish,
}

-- Only the new entries, the files that were attempted, and the index differ.
pub record Kept (id : String) (gone : List String) (s : Store) (index : Option Index) (d : Desk)
    : Type 0 where
  pub jobs : (k : String) → elem k gone ≡ false → d.store.jobs k ≡ s.jobs k
  pub owners : (k : String) → elem k gone ≡ false → d.store.owners k ≡ s.owners k
  pub records : (k : String) → str_eq id k ≡ false → d.store.records k ≡ s.records k
  pub batch_files :
      (k : String)
      → (d.batch_attempted && str_eq id k) ≡ false
      → d.store.batch_files k ≡ s.batch_files k
  pub job_files : (k : String) → elem k d.attempted ≡ false → d.store.job_files k ≡ s.job_files k
  pub attempted : (k : String) → elem k d.attempted ≡ true → elem k gone ≡ true
  pub clean : d.cleanup_failed ≡ false
  pub back :
      ((d.index_attempted ≡ false) × (d.index ≡ index))
      ⊎ ((d.index_attempted ≡ true) × (d.prior_index ≡ index))

-- A write that succeeds or not, where both ways keep a statement.
pub written-keeps :
    (P : Desk → Type 0) (f : Desk → Desk) (d : Desk)
    → ((w : List Bool) → P (f (record d { store = record d.store { writes = w } })))
    → ((w : List Bool) → P (record d { store = record d.store { writes = w } }))
    → P ((written f d (write d.store)).1)
written-keeps P f d p q = go (write-cases d.store)
  where
    go :
        ((w : List Bool) × ((write d.store ≡ (ok tt, record d.store { writes = w }))
            ⊎ (write d.store ≡ (raise os_error, record d.store { writes = w }))))
        → P ((written f d (write d.store)).1)
    go (w, inl e) = subst (λ o. P ((written f d o).1)) (sym e) (p w)
    go (w, inr e) = subst (λ o. P ((written f d o).1)) (sym e) (q w)

pub follow-keeps :
    {A B : Type 0} (P : Desk → Type 0) (o : Result A × Desk) (k : A → Stage B)
    → P (o.1)
    → ((a : A) (d : Desk) → P d → P ((k a d).1))
    → P ((follow o k).1)
follow-keeps P (ok a, d) k p f = f a d p
follow-keeps P (raise e, d) k p f = p

-- The same where a later step needs less.
pub follow-leaves :
    {A B : Type 0} (P Q : Desk → Type 0) (o : Result A × Desk) (k : A → Stage B)
    → P (o.1)
    → ((d : Desk) → P d → Q d)
    → ((a : A) (d : Desk) → P d → Q ((k a d).1))
    → Q ((follow o k).1)
follow-leaves P Q (ok a, d) k p w f = f a d p
follow-leaves P Q (raise e, d) k p w f = w d p

module _ (id : String) (gone : List String) (s : Store) (index : Option Index) where
  attempt_more :
      (d : Desk) (x : String) (k : String)
      → elem k (x ∷ d.attempted) ≡ false
      → elem k d.attempted ≡ false
  attempt_more d x k h = (||-eq-false (str_eq x k) (elem k d.attempted) h).1

  save_item-keeps :
      (x : Item) (d : Desk)
      → elem x.id gone ≡ true
      → Kept id gone s index d
      → Kept id gone s index ((save_item x d).1)
  unfolding save_item
  save_item-keeps x d among p =
      let e : Desk = record d { attempted = x.id ∷ d.attempted } in
      let inside : (k : String) → elem k (x.id ∷ d.attempted) ≡ true → elem k gone ≡ true = λ k h.
        (elim (Bool-cases (str_eq x.id k)) [
          | inl q ↦ subst (λ k. elem k gone ≡ true) ((str_eq_iff x.id k).0 q) among
          | inr q ↦ p.attempted k (cc (rw q at h))
        ]) in
      written-keeps (Kept id gone s index) (put_job_file x) e
        (λ w. record {
          jobs = p.jobs;
          owners = p.owners;
          records = p.records;
          batch_files = p.batch_files;
          job_files = λ k h.
              let (a, b) = ||-eq-false (str_eq x.id k) (elem k d.attempted) h in
              rw a (p.job_files k b);
          attempted = inside;
          clean = p.clean;
          back = p.back;
        })
        (λ w. record {
          jobs = p.jobs;
          owners = p.owners;
          records = p.records;
          batch_files = p.batch_files;
          job_files = λ k h. p.job_files k (attempt_more d x.id k h);
          attempted = inside;
          clean = p.clean;
          back = p.back;
        })

  pub save_items-keeps :
      (xs : List Item) (d : Desk)
      → ((k : String) → elem k (ids_of xs) ≡ true → elem k gone ≡ true)
      → Kept id gone s index d
      → Kept id gone s index ((save_items xs d).1)
  unfolding save_items
  save_items-keeps [] d among p = p
  save_items-keeps (x ∷ xs) d among p =
      follow-keeps (Kept id gone s index) (save_item x d) (λ _. save_items xs)
        (save_item-keeps x d (among x.id (rw (str_eq_refl x.id) refl)) p)
        (λ u e q. save_items-keeps xs e (λ k h. among k (or_true (str_eq x.id k) h)) q)
    where
      or_true : {b : Bool} (a : Bool) → b ≡ true → (a || b) ≡ true
      or_true true h = refl
      or_true false h = h

  pub save_index-keeps :
      (items : List Item) (d : Desk)
      → d.prior_index ≡ index
      → Kept id gone s index d
      → Kept id gone s index ((save_index items d).1)
  unfolding save_index
  save_index-keeps items d prior p =
      written-keeps (Kept id gone s index) (put_index items) (record d { index_attempted = true })
        (λ w. record {
          jobs = p.jobs;
          owners = p.owners;
          records = p.records;
          batch_files = p.batch_files;
          job_files = p.job_files;
          attempted = p.attempted;
          clean = p.clean;
          back = inr (refl, prior);
        })
        (λ w. record {
          jobs = p.jobs;
          owners = p.owners;
          records = p.records;
          batch_files = p.batch_files;
          job_files = p.job_files;
          attempted = p.attempted;
          clean = p.clean;
          back = inr (refl, prior);
        })

  pub save_batch-keeps :
      (r : Batch) (d : Desk)
      → r.id ≡ id
      → Kept id gone s index d
      → Kept id gone s index ((save_batch r d).1)
  unfolding save_batch save
  save_batch-keeps r d same p = go (write-cases d.store)
    where
      e : Desk
      e = record d { batch_attempted = true }

      q : Batch
      q = stamped r d.store

      rest : Unit {0} → Store → Result Batch × Store
      rest u t = (
        ok q,
        record t {
          records = put r.id (some q) t.records;
          batch_files = put r.id (some q) t.batch_files;
        },
      )

      and_false : {c : Bool} (b : Bool) → c ≡ false → (b && c) ≡ false
      and_false true h = h
      and_false false h = refl

      other : (k : String) → str_eq id k ≡ false → str_eq r.id k ≡ false
      other k h = subst (λ i. str_eq i k ≡ false) (sym same) h

      go :
          ((w : List Bool) × ((write d.store ≡ (ok tt, record d.store { writes = w }))
              ⊎ (write d.store ≡ (raise os_error, record d.store { writes = w }))))
          → Kept id gone s index ((kept e (save r d.store)).1)
      go (w, inl c) =
          subst (λ o. Kept id gone s index ((kept e (next o rest)).1)) (sym c)
            (record {
              jobs = p.jobs;
              owners = p.owners;
              records = λ k h. rw (other k h) (p.records k h);
              batch_files = λ k h. rw (other k h) (p.batch_files k (and_false d.batch_attempted h));
              job_files = p.job_files;
              attempted = p.attempted;
              clean = p.clean;
              back = p.back;
            })
      go (w, inr c) =
          subst (λ o. Kept id gone s index ((kept e (next o rest)).1)) (sym c)
            (record {
              jobs = p.jobs;
              owners = p.owners;
              records = p.records;
              batch_files = λ k h. p.batch_files k (and_false d.batch_attempted h);
              job_files = p.job_files;
              attempted = p.attempted;
              clean = p.clean;
              back = p.back;
            })

  pub publish-Kept :
      (items : List Item) (d : Desk)
      → ((k : String) → elem k (ids_of items) ≡ true → elem k gone ≡ true)
      → Kept id gone s index d
      → Kept id gone s index (record d { store = publish id items d.store })
  unfolding publish
  publish-Kept [] d among p = p
  publish-Kept (x ∷ xs) d among p =
      publish-Kept xs (record d { store = publish_item id x d.store })
        (λ k h. among k (or_right (str_eq x.id k) h))
        (record {
          jobs = λ k h. rw (other k h) (p.jobs k h);
          owners = λ k h. rw (other k h) (p.owners k h);
          records = p.records;
          batch_files = p.batch_files;
          job_files = p.job_files;
          attempted = p.attempted;
          clean = p.clean;
          back = p.back;
        })
    where
      or_right : {b : Bool} (a : Bool) → b ≡ true → (a || b) ≡ true
      or_right true h = refl
      or_right false h = h

      other : (k : String) → elem k gone ≡ false → str_eq x.id k ≡ false
      other k h = elim (Bool-cases (str_eq x.id k)) [
        | inr e ↦ e
        | inl e ↦ let there : elem k gone ≡ true = among k (rw e refl) in absurd (cc (there, h))
      ]
