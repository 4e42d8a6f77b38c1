-- ===== src/Batches/Submission/Attempting.antt =====
-- What the body of the `try` leaves, whichever step fails.
use mllm_windows_ai_workbenc.Prelude.{
  ◌≡◌, refl, sym, ap, ◌∙◌, subst, String, true, ◌⊎◌, inl, inr, Option, none, some, List, [], ◌∷◌,
  ◌++◌, All,
}
use mllm_windows_ai_workbenc.Errors.{Result, ok, raise, runtime_error}
use mllm_windows_ai_workbenc.Batches.Model.{Item, Batch}
use mllm_windows_ai_workbenc.Batches.Store.{Store, stamped}
use mllm_windows_ai_workbenc.Batches.Attempt.{
  Desk, Index, listing, unreadable, Drawn, Stage, ids_of, follow, read_index, put_job_file,
  save_item, save_items, save_index, save_batch, publish, publish_all, attempt, opened,
}
use mllm_windows_ai_workbenc.Batches.Submission.Trying.{
  Kept, written-keeps, follow-keeps, follow-leaves, save_items-keeps, save_index-keeps,
  save_batch-keeps, publish-Kept,
}
use mllm_windows_ai_workbenc.Batches.Lineage.{is_distinct}
use mllm_windows_ai_workbenc.Batches.Submission.Saving.{
  Succeeds, follow-Succeeds, Filed, save_items-Filed, save_index-Succeeds, save_batch-Succeeds,
  Published, publish-Published, publish-Same,
}

save_items-prior : (xs : List Item) (d : Desk) → ((save_items xs d).1).prior_index ≡ d.prior_index
unfolding save_items save_item
save_items-prior [] d = refl
save_items-prior (x ∷ xs) d =
    follow-keeps (λ e. e.prior_index ≡ d.prior_index) (save_item x d) (λ _. save_items xs)
      (written-keeps (λ e. e.prior_index ≡ d.prior_index) (put_job_file x)
        (record d { attempted = x.id ∷ d.attempted }) (λ w. refl) (λ w. refl))
      (λ u e p. save_items-prior xs e ∙ p)

module _ (id : String) (items : List Item) (s : Store) (index : Option Index) where
  opened-Kept :
      (ids : List String) (o p : Option Index)
      → index ≡ o
      → Kept id (ids_of items) s index (record (opened index ids s) { index = o; prior_index = p })
  opened-Kept ids o p e = record {
    jobs = λ k h. refl;
    owners = λ k h. refl;
    records = λ k h. refl;
    batch_files = λ k h. refl;
    job_files = λ k h. refl;
    attempted = λ k h. absurd (cc);
    clean = refl;
    back = inl (refl, sym e);
  }

  read-Kept :
      (ids : List String) (k : Unit {0} → Stage Batch)
      → ((d : Desk)
          → Kept id (ids_of items) s index d
          → d.prior_index ≡ index
          → Kept id (ids_of items) s index ((k tt d).1))
      → Kept id (ids_of items) s index ((follow (read_index (opened index ids s)) k).1)
  unfolding read_index
  read-Kept ids k f = go index refl
    where
      go :
          (o : Option Index)
          → index ≡ o
          → Kept id
              (ids_of items)
              s
              index
              ((follow (read_index (record (opened index ids s) { index = o })) k).1)
      go none e =
          f (record (opened index ids s) { index = none }) (opened-Kept ids none none e) (sym e)
      go (some (listing l)) e =
          let o : Option Index = some (listing l) in
          f (record (opened index ids s) { index = o; prior_index = o }) (opened-Kept ids o o e)
            (sym e)
      go (some unreadable) e = opened-Kept ids (some unreadable) none e

  pub attempt-Kept :
      (drawn : Drawn) (r : Batch) (ids : List String)
      → r.id ≡ id
      → drawn.batch_id ≡ id
      → Kept id (ids_of items) s index ((attempt drawn items r (opened index ids s)).1)
  unfolding attempt publish_all
  attempt-Kept drawn r ids same named = read-Kept ids _ λ d p prior.
      let There : Desk → Type 0 = Kept id (ids_of items) s index in
      follow-leaves (λ d. There d × (d.prior_index ≡ index)) There (save_items items d) _
        (
          save_items-keeps id (ids_of items) s index items d (λ k h. h) p,
          save_items-prior items d ∙ prior,
        )
        (λ d q. q.0)
        (λ u d q.
          follow-keeps There (save_index items d) _
            (save_index-keeps id (ids_of items) s index items d q.1 q.0)
            (λ u d q.
              follow-keeps There (save_batch r d) _
                (save_batch-keeps id (ids_of items) s index r d same q)
                (λ initial d q.
                  follow-keeps There
                    (
                      drawn.enqueued,
                      record d {
                        store = publish drawn.batch_id items d.store;
                        ids = d.ids ++ ids_of items;
                      },
                    )
                    _ (published d q) (λ u d q. q))))
    where
      with_ids :
          {d : Desk} {l : List String}
          → Kept id (ids_of items) s index d
          → Kept id (ids_of items) s index (record d { ids = l })
      with_ids p = record {
        jobs = p.jobs;
        owners = p.owners;
        records = p.records;
        batch_files = p.batch_files;
        job_files = p.job_files;
        attempted = p.attempted;
        clean = p.clean;
        back = p.back;
      }

      published :
          (d : Desk)
          → Kept id (ids_of items) s index d
          → Kept id (ids_of items) s index (record d {
            store = publish drawn.batch_id items d.store;
            ids = d.ids ++ ids_of items;
          })
      published d q =
          subst
            (λ i.
              Kept id (ids_of items) s index
                (record d { store = publish i items d.store; ids = d.ids ++ ids_of items }))
            (sym named) (with_ids (publish-Kept id (ids_of items) s index items d (λ k h. h) q))

-- A submission that has been accepted.
pub record Submitted (id : String) (items : List Item) (r : Batch) (ids : List String) (d : Desk)
    : Type 0 where
  pub record_saved : (d.store.records id ≡ some r) × (d.store.batch_files id ≡ some r)
  pub jobs_saved : Filed items d
  pub published : Published id items d.store
  pub indexed : d.index ≡ some (listing (ids ++ ids_of items))

read_index-Succeeds :
    (index : Option Index) (ids : List String) (s : Store)
    → Succeeds (λ u e. e.ids ≡ ids) (read_index (opened index ids s))
unfolding read_index
read_index-Succeeds none ids s = refl
read_index-Succeeds (some (listing l)) ids s = refl
read_index-Succeeds (some unreadable) ids s = refl

pub attempt-Submitted :
    (drawn : Drawn) (items : List Item) (r : Batch) (index : Option Index) (ids : List String)
    (s : Store)
    → r.id ≡ drawn.batch_id
    → ((t : Store) → stamped r t ≡ r)
    → is_distinct (ids_of items) ≡ true
    → (drawn.enqueued ≡ ok tt) ⊎ (drawn.enqueued ≡ raise runtime_error)
    → Succeeds
        (λ q e. (q ≡ r) × Submitted drawn.batch_id items r ids e)
        (attempt drawn items r (opened index ids s))
unfolding attempt publish_all
attempt-Submitted drawn items r index ids s same plain distinct enqueued =
    let Q = λ (q : Batch) (e : Desk). (q ≡ r) × Submitted drawn.batch_id items r ids e in
    follow-Succeeds _ Q (read_index (opened index ids s)) _ (read_index-Succeeds index ids s)
      λ u d h.
        follow-Succeeds _ Q (save_items items d) _ (save_items-Filed items d distinct) λ u e f.
          follow-Succeeds _ Q (save_index items e) _ (save_index-Succeeds items e) λ u g x.
            follow-Succeeds _ Q (save_batch r g) _ (save_batch-Succeeds r g) λ q k y.
              let k' : Desk = record k {
                store = publish drawn.batch_id items k.store;
                ids = k.ids ++ ids_of items;
              } in
              let is_r : q ≡ r = y.0 ∙ plain g.store in
              let kept = publish-Same drawn.batch_id items k.store in
              follow-Succeeds (λ u (e : Desk). e ≡ k') Q (drawn.enqueued, k') _
                (started drawn.enqueued k' enqueued)
                (λ u z b. (
                  is_r,
                  subst (λ z. Submitted drawn.batch_id items r ids z) (sym b)
                      (record {
                        record_saved = (
                          ap (λ m. m drawn.batch_id) kept.records
                              ∙ subst (λ i. k.store.records i ≡ some q) same y.3
                              ∙ ap some is_r,
                          ap (λ m. m drawn.batch_id) kept.batch_files
                              ∙ subst (λ i. k.store.batch_files i ≡ some q) same y.4
                              ∙ ap some is_r,
                        );
                        jobs_saved =
                            subst (λ m. All (λ (x : Item). m x.id ≡ some x) items)
                              (sym (kept.job_files ∙ y.1 ∙ x.0)) f.0;
                        published = publish-Published drawn.batch_id items k.store distinct;
                        indexed =
                            y.2 ∙ x.1 ∙ ap (λ l. some (listing (l ++ ids_of items))) (f.1 ∙ h);
                      }),
                ))
  where
    started :
        (o : Result (Unit {0})) (d : Desk)
        → (o ≡ ok tt) ⊎ (o ≡ raise runtime_error)
        → Succeeds (λ u (e : Desk). e ≡ d) (o, d)
    started (ok u) d h = refl
    started (raise e) d (inl h) = absurd (cc (h))
    started (raise e) d (inr h) =
        subst (λ (o : Result (Unit {0})). Succeeds (λ u (e : Desk). e ≡ d) (o, d)) (sym h) refl
