-- ===== src/Batches/Submission/Saving.antt =====
-- What a submission has done where all its steps succeed, and how a step fails.
use mllm_windows_ai_workbenc.Prelude.{
  ◌≡◌, refl, sym, ◌∙◌, subst, String, Bool, true, false, not, ◌⊎◌, inl, inr, some, List, [], ◌∷◌,
  ◌++◌, str_eq, elem, put, put_self, ||-eq-false, &&-eq-true, All,
}
use mllm_windows_ai_workbenc.Errors.{Result, ok, raise, os_error}
use mllm_windows_ai_workbenc.Batches.Model.{Item, Batch}
use mllm_windows_ai_workbenc.Batches.Store.{Store, next, write, stamped, save}
use mllm_windows_ai_workbenc.Batches.Completion.Posts.{write-cases}
use mllm_windows_ai_workbenc.Batches.Lineage.{is_distinct}
use mllm_windows_ai_workbenc.Batches.Submission.{is_handled}
use mllm_windows_ai_workbenc.Batches.Attempt.{
  Desk, listing, Stage, ids_of, follow, written, put_job_file, save_item, save_items, put_index,
  save_index, kept, save_batch, publish_item, publish,
}
use mllm_windows_ai_workbenc.Batches.Submission.Trying.{written-keeps, follow-keeps}

-- What holds where a step succeeds; where it fails, the routine handles the exception.
abbrev pub Succeeds : {A : Type 0} → (A → Desk → Type 0) → Result A × Desk → Type 0
Succeeds P (ok a, d) = P a d
Succeeds P (raise e, d) = is_handled e ≡ true

pub follow-Succeeds :
    {A B : Type 0} (P : A → Desk → Type 0) (Q : B → Desk → Type 0) (o : Result A × Desk)
    (k : A → Stage B)
    → Succeeds P o
    → ((a : A) (d : Desk) → P a d → Succeeds Q (k a d))
    → Succeeds Q (follow o k)
follow-Succeeds P Q (ok a, d) k p f = f a d p
follow-Succeeds P Q (raise e, d) k p f = p

Succeeds-map :
    {A : Type 0} (P Q : A → Desk → Type 0) (R : Desk → Type 0) (o : Result A × Desk)
    → Succeeds P o
    → R (o.1)
    → ((a : A) (d : Desk) → P a d → R d → Q a d)
    → Succeeds Q o
Succeeds-map P Q R (ok a, d) p r f = f a d p r
Succeeds-map P Q R (raise e, d) p r f = p

written-Succeeds :
    (P : Desk → Type 0) (f : Desk → Desk) (d : Desk)
    → ((w : List Bool) → P (f (record d { store = record d.store { writes = w } })))
    → Succeeds (λ u e. P e) (written f d (write d.store))
written-Succeeds P f d p = go (write-cases d.store)
  where
    go :
        ((w : List Bool) × ((write d.store ≡ (ok tt, record d.store { writes = w }))
            ⊎ (write d.store ≡ (raise os_error, record d.store { writes = w }))))
        → Succeeds (λ u e. P e) (written f d (write d.store))
    go (w, inl e) = subst (λ o. Succeeds (λ u e. P e) (written f d o)) (sym e) (p w)
    go (w, inr e) = subst (λ o. Succeeds (λ u e. P e) (written f d o)) (sym e) refl

-- Every image has its own file.
abbrev pub Filed : List Item → Desk → Type 0
Filed xs d = All (λ (x : Item). d.store.job_files x.id ≡ some x) xs

save_items-others :
    (xs : List Item) (d : Desk) (k : String)
    → elem k (ids_of xs) ≡ false
    → ((save_items xs d).1).store.job_files k ≡ d.store.job_files k
unfolding save_items save_item
save_items-others [] d k h = refl
save_items-others (x ∷ xs) d k h =
    let (a, b) = ||-eq-false (str_eq x.id k) (elem k (ids_of xs)) h in
    let P = λ (e : Desk). e.store.job_files k ≡ d.store.job_files k in
    follow-keeps P (save_item x d) (λ _. save_items xs)
      (written-keeps P (put_job_file x) (record d { attempted = x.id ∷ d.attempted })
        (λ w. rw a refl) (λ w. refl))
      (λ u e p. save_items-others xs e k b ∙ p)

pub save_items-Filed :
    (xs : List Item) (d : Desk)
    → is_distinct (ids_of xs) ≡ true
    → Succeeds (λ u e. Filed xs e × (e.ids ≡ d.ids)) (save_items xs d)
unfolding save_items save_item is_distinct
save_items-Filed [] d h = (tt, refl)
save_items-Filed (x ∷ xs) d h =
    let (new, rest) = &&-eq-true (not (elem x.id (ids_of xs))) (is_distinct (ids_of xs)) h in
    follow-Succeeds (λ u (e : Desk). (e.store.job_files x.id ≡ some x) × (e.ids ≡ d.ids)) _
      (save_item x d) (λ _. save_items xs)
      (written-Succeeds (λ (e : Desk). (e.store.job_files x.id ≡ some x) × (e.ids ≡ d.ids))
        (put_job_file x) (record d { attempted = x.id ∷ d.attempted })
        (λ w. (put_self x.id (some x) d.store.job_files, refl)))
      (λ u e p.
        Succeeds-map (λ u f. Filed xs f × (f.ids ≡ e.ids)) _
          (λ (f : Desk). f.store.job_files x.id ≡ e.store.job_files x.id) (save_items xs e)
          (save_items-Filed xs e rest)
          (save_items-others xs e x.id (not_true (elem x.id (ids_of xs)) new))
          (λ u f q r. ((r ∙ p.0, q.0), q.1 ∙ p.1)))
  where
    not_true : (b : Bool) → not b ≡ true → b ≡ false
    not_true true h = absurd (cc)
    not_true false h = refl

-- The index lists the new ids too, and no job file has changed.
pub save_index-Succeeds :
    (items : List Item) (d : Desk)
    → Succeeds
        (λ u e.
          (e.store.job_files ≡ d.store.job_files)
          × (e.index ≡ some (listing (d.ids ++ ids_of items))))
        (save_index items d)
unfolding save_index
save_index-Succeeds items d =
    written-Succeeds
      (λ (e : Desk).
        (e.store.job_files ≡ d.store.job_files)
        × (e.index ≡ some (listing (d.ids ++ ids_of items))))
      (put_index items) (record d { index_attempted = true }) (λ w. (refl, refl))

-- The record is saved, as it is returned.
pub save_batch-Succeeds :
    (r : Batch) (d : Desk)
    → Succeeds
        (λ q e.
          (q ≡ stamped r d.store)
          × (e.store.job_files ≡ d.store.job_files)
          × (e.index ≡ d.index)
          × (e.store.records r.id ≡ some q)
          × (e.store.batch_files r.id ≡ some q))
        (save_batch r d)
unfolding save_batch save
save_batch-Succeeds r d = go (write-cases d.store)
  where
    q : Batch
    q = stamped r d.store

    e : Desk
    e = record d { batch_attempted = true }

    rest : Unit {0} → Store → Result Batch × Store
    rest u t = (
      ok q,
      record t {
        records = put r.id (some q) t.records;
        batch_files = put r.id (some q) t.batch_files;
      },
    )

    Goal : Result Batch × Desk → Type 0
    Goal = Succeeds (λ q e.
        (q ≡ stamped r d.store)
        × (e.store.job_files ≡ d.store.job_files)
        × (e.index ≡ d.index)
        × (e.store.records r.id ≡ some q)
        × (e.store.batch_files r.id ≡ some q))

    go :
        ((w : List Bool) × ((write d.store ≡ (ok tt, record d.store { writes = w }))
            ⊎ (write d.store ≡ (raise os_error, record d.store { writes = w }))))
        → Goal (kept e (save r d.store))
    go (w, inl c) =
        subst (λ o. Goal (kept e (next o rest))) (sym c)
          (
            refl,
            refl,
            refl,
            put_self r.id (some q) d.store.records,
            put_self r.id (some q) d.store.batch_files,
          )
    go (w, inr c) = subst (λ o. Goal (kept e (next o rest))) (sym c) refl

-- The images are published, and nothing else has changed.
abbrev pub Published : String → List Item → Store → Type 0
Published id xs s = All (λ (x : Item). (s.jobs x.id ≡ some x) × (s.owners x.id ≡ some id)) xs

publish-others :
    (id : String) (xs : List Item) (s : Store) (k : String)
    → elem k (ids_of xs) ≡ false
    → ((publish id xs s).jobs k ≡ s.jobs k) × ((publish id xs s).owners k ≡ s.owners k)
unfolding publish
publish-others id [] s k h = (refl, refl)
publish-others id (x ∷ xs) s k h =
    let (a, b) = ||-eq-false (str_eq x.id k) (elem k (ids_of xs)) h in
    let (p, q) = publish-others id xs (publish_item id x s) k b in (p ∙ rw a refl, q ∙ rw a refl)

pub publish-Published :
    (id : String) (xs : List Item) (s : Store)
    → is_distinct (ids_of xs) ≡ true
    → Published id xs (publish id xs s)
unfolding publish is_distinct
publish-Published id [] s h = tt
publish-Published id (x ∷ xs) s h =
    let (new, rest) = &&-eq-true (not (elem x.id (ids_of xs))) (is_distinct (ids_of xs)) h in
    let (p, q) = publish-others id xs (publish_item id x s) x.id (not_true _ new) in
    (
      (p ∙ put_self x.id (some x) s.jobs, q ∙ put_self x.id (some id) s.owners),
      publish-Published id xs (publish_item id x s) rest,
    )
  where
    not_true : (b : Bool) → not b ≡ true → b ≡ false
    not_true true h = absurd (cc)
    not_true false h = refl

pub record Same (s t : Store) : Type 0 where
  pub job_files : t.job_files ≡ s.job_files
  pub records : t.records ≡ s.records
  pub batch_files : t.batch_files ≡ s.batch_files

pub publish-Same : (id : String) (xs : List Item) (s : Store) → Same s (publish id xs s)
unfolding publish
publish-Same id [] s = record { job_files = refl; records = refl; batch_files = refl }
publish-Same id (x ∷ xs) s =
    let p = publish-Same id xs (publish_item id x s) in
    record { job_files = p.job_files; records = p.records; batch_files = p.batch_files }
