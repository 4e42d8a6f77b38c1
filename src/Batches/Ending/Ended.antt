-- ===== src/Batches/Ending/Ended.antt =====
-- How `_finish` leaves a batch.
use mllm_windows_ai_workbenc.Prelude.{
  ℕ, ◌≤◌, ◌≡◌, refl, ap, ◌∙◌, subst, String, Bool, true, false, ◌⊎◌, inl, inr, Option, none, some,
  List, [], ◌∷◌, arith, str_eq, str_eq_refl, elem, put_self, All, Bool-cases,
}
use mllm_windows_ai_workbenc.Errors.{Exn, Result, ok, raise, os_error}
use mllm_windows_ai_workbenc.Batches.Model.{Item, Batch, State, is_complete, is_terminal}
use mllm_windows_ai_workbenc.Batches.Store.{
  Store, next, put_job, update, execution_elapsed, stamped, save, load,
}
use mllm_windows_ai_workbenc.Batches.Completion.{Outside, complete_count, prior_of}
use mllm_windows_ai_workbenc.Batches.Completion.Sound.{ids, Distinct, Elsewhere, apart}
use mllm_windows_ai_workbenc.Batches.Completion.Posts.{
  Post, Post-raise, next-Post, Post-eq, stored, put_other, update-cases,
}
use mllm_windows_ai_workbenc.Batches.Completion.Consuming.{save-cases, written_record, stamped-eq}
use mllm_windows_ai_workbenc.Batches.Ending.{
  stopped, Stop, settle_stop, stop_item, stop_items, stop_list, ended, any_pending, keep, finish,
}

-- The service knows the item's job, under the item's id.
pub record Owned (s : Store) (x : Item) : Type 0 where
  pub job : Item
  pub there : s.jobs x.id ≡ some job
  pub named : job.id ≡ x.id
  pub prior_named : (prior_of x s).id ≡ x.id

prior-Elsewhere :
    (id : String) (s t : Store) (x : Item)
    → Elsewhere id s t
    → str_eq id x.id ≡ false
    → prior_of x t ≡ prior_of x s
unfolding prior_of
prior-Elsewhere id s t x e n = rw (e.pending x.id n, e.jobs x.id n) refl

Owned-Elsewhere :
    (id : String) (s t : Store) (xs : List Item)
    → Elsewhere id s t
    → All (λ x. str_eq id x.id ≡ false) xs
    → All (Owned s) xs
    → All (Owned t) xs
Owned-Elsewhere id s t [] e n h = tt
Owned-Elsewhere id s t (x ∷ xs) e n h = (
  record {
    job = h.0.job;
    there = e.jobs x.id n.0 ∙ h.0.there;
    named = h.0.named;
    prior_named = ap (λ (y : Item). y.id) (prior-Elsewhere id s t x e n.0) ∙ h.0.prior_named;
  },
  Owned-Elsewhere id s t xs e n.1 h.1,
)

-- What has become of each item: a complete one stays, any other has the batch's last state.
abbrev pub Ends : State → Store → List Item → List Item → Type 0
Ends state s [] [] = Unit
Ends state s (x ∷ xs) (y ∷ ys) =
    (y.id ≡ x.id)
    × (((is_complete (prior_of x s).state ≡ true) × (y ≡ prior_of x s))
        ⊎ ((is_complete (prior_of x s).state ≡ false) × (y.state ≡ state)))
    × Ends state s xs ys
Ends state s _ _ = ⊥

Ends-Elsewhere :
    (state : State) (id : String) (s t : Store) (xs ys : List Item)
    → Elsewhere id s t
    → All (λ x. str_eq id x.id ≡ false) xs
    → Ends state t xs ys
    → Ends state s xs ys
Ends-Elsewhere state id s t [] [] e n h = tt
Ends-Elsewhere state id s t [] (y ∷ ys) e n h = absurd h
Ends-Elsewhere state id s t (x ∷ xs) [] e n h = absurd h
Ends-Elsewhere state id s t (x ∷ xs) (y ∷ ys) e n h =
    let p = prior-Elsewhere id s t x e n.0 in
    (
      h.0,
      subst
          (λ z.
            ((is_complete (Item.state z) ≡ true) × (y ≡ z))
            ⊎ ((is_complete (Item.state z) ≡ false) × (y.state ≡ state)))
          p h.1,
      Ends-Elsewhere state id s t xs ys e n.1 h.2,
    )

module _ (env : Outside) (state : State) (error : Option String) where
  -- One item, in the store before the loop's body.
  record Stopped (x : Item) (s : Store) (y : Stop) (t : Store) : Type 0 where
    named : y.item.id ≡ x.id
    how :
        ((is_complete (prior_of x s).state ≡ true) × (y.item ≡ prior_of x s))
        ⊎ ((is_complete (prior_of x s).state ≡ false) × (y.item.state ≡ state))
    elsewhere : Elsewhere x.id s t
    records : t.records ≡ s.records

  Elsewhere-refl : (id : String) (s : Store) → Elsewhere id s s
  Elsewhere-refl id s = record { jobs = λ k n. refl; pending = λ k n. refl }

  put_job-Elsewhere : (id : String) (y : Item) (s : Store) → Elsewhere id s (put_job id y s)
  put_job-Elsewhere id y s = record {
    jobs = λ k n. put_other id k (some y) s.jobs n;
    pending = λ k n. refl;
  }

  adopted-Elsewhere :
      (id : String) (y : Item) (s : Store) (o : Option Item)
      → Elsewhere id s (elim o [ none ↦ s | some _ ↦ put_job id y s ])
  adopted-Elsewhere id y s none = Elsewhere-refl id s
  adopted-Elsewhere id y s (some z) = put_job-Elsewhere id y s

  -- The paths of an image's outputs lead out of Dream, and the batches in memory are as before.
  pub record Stuck (xs : List Item) (s t : Store) : Type 0 where
    pub id : String
    pub among : elem id (ids xs) ≡ true
    pub no_paths : env.has_paths id ≡ false
    pub records : t.records ≡ s.records

  adopted-records :
      (id : String) (y : Item) (s : Store) (o : Option Item)
      → Store.records (elim o [ none ↦ s | some _ ↦ put_job id y s ]) ≡ s.records
  adopted-records id y s none = refl
  adopted-records id y s (some z) = refl

  stop_item-Post :
      (x : Item) (s : Store)
      → Owned s x
      → Post (Stopped x s) (Stuck (x ∷ []) s) (stop_item env state error x s)
  unfolding stop_item settle_stop
  stop_item-Post x s h = elim (Bool-cases (is_complete (prior_of x s).state)) [
    | inl e ↦ rw e (record {
      at = record {
        named = h.prior_named;
        how = inl (e, refl);
        elsewhere = adopted-Elsewhere x.id (prior_of x s) s (s.pending x.id);
        records = adopted-records x.id (prior_of x s) s (s.pending x.id);
      };
    })
    | inr e ↦ elim (Bool-cases (env.has_paths x.id)) [
      | inl p ↦ rw (e, p) (go e (update-cases x.id ch s h.job h.there))
      | inr p ↦
          rw (e, p)
            (record {
              at = record {
                id = x.id;
                among = rw (str_eq_refl x.id) refl;
                no_paths = p;
                records = refl;
              };
            })
    ]
  ]
    where
      ch : Item → Item
      ch = stopped state error (env.cleanup x.id)

      go :
          is_complete (prior_of x s).state ≡ false
          → ((w : List Bool) × ((update x.id ch s ≡ (ok (ch h.job), stored x.id (ch h.job) s w))
                ⊎ (update x.id ch s ≡ (raise os_error, record s { writes = w }))))
          → Post
              (Stopped x s)
              (Stuck (x ∷ []) s)
              (settle_stop state error (env.cleanup x.id) x.id (prior_of x s) (update x.id ch s))
      go e (w, inl g) =
          Post-eq (ap (settle_stop state error (env.cleanup x.id) x.id (prior_of x s)) g) (record {
            at = record {
              named = h.named;
              how = inr (e, refl);
              elsewhere = record {
                jobs = λ k n. put_other x.id k (some (ch h.job)) s.jobs n;
                pending = λ k n. refl;
              };
              records = refl;
            };
          })
      go e (w, inr g) =
          Post-eq (ap (settle_stop state error (env.cleanup x.id) x.id (prior_of x s)) g) (record {
            at = record {
              named = h.prior_named;
              how = inr (e, refl);
              elsewhere = record {
                jobs = λ k n. put_other x.id k (some (ch (prior_of x s))) s.jobs n;
                pending = λ k n. refl;
              };
              records = refl;
            };
          })

  -- It is one of more images, and the batches in memory were so before.
  Stuck-first : (x : Item) (xs : List Item) (s t : Store) → Stuck (x ∷ []) s t → Stuck (x ∷ xs) s t
  Stuck-first x xs s t k = record {
    id = k.id;
    among = elim (Bool-cases (str_eq x.id k.id)) [
      | inl e ↦ rw e refl
      | inr e ↦ absurd (cc (rw e at k.among))
    ];
    no_paths = k.no_paths;
    records = k.records;
  }

  Stuck-rest :
      (x : Item) (xs : List Item) (s t u : Store)
      → t.records ≡ s.records
      → Stuck xs t u
      → Stuck (x ∷ xs) s u
  Stuck-rest x xs s t u e k = record {
    id = k.id;
    among = elim (Bool-cases (str_eq x.id k.id)) [ inl d ↦ rw d refl | inr d ↦ rw d k.among ];
    no_paths = k.no_paths;
    records = k.records ∙ e;
  }

  stop_items-Post :
      (xs : List Item) (s : Store)
      → Distinct (ids xs)
      → All (Owned s) xs
      → Post (λ ys t. Ends state s xs (stop_list ys)) (Stuck xs s) (stop_items env state error xs s)
  unfolding stop_items
  stop_items-Post [] s d h = record { at = tt }
  stop_items-Post (x ∷ xs) s d h =
      next-Post _ _
        (Post-raise (stop_item env state error x s) (stop_item-Post x s h.0)
          (λ t k. Stuck-first x xs s t k))
        λ y t k.
          next-Post _ _
            (Post-raise (stop_items env state error xs t)
              (stop_items-Post xs t d.1
                (Owned-Elsewhere x.id s t xs k.elsewhere (apart x.id xs d.0) h.1))
              (λ u j. Stuck-rest x xs s t u k.records j))
            λ ys u r. record {
              at = (
                k.named,
                k.how,
                Ends-Elsewhere state x.id s t xs (stop_list ys) k.elsewhere (apart x.id xs d.0) r,
              );
            }

  -- What `_finish` gives back and keeps in memory.
  pub record Finished (r : Batch) (s : Store) (q : Batch) (t : Store) : Type 0 where
    pub id : q.id ≡ r.id
    pub in_memory : t.records q.id ≡ some q
    pub ends : q.state ≡ state
    pub images : Ends state s r.items q.items
    pub counted : q.completed_items ≡ complete_count q.items

  keep-Post :
      (r q : Batch) (s u : Store)
      → q.id ≡ r.id
      → q.state ≡ state
      → Ends state s r.items q.items
      → q.completed_items ≡ complete_count q.items
      → Post (Finished r s) (Stuck r.items s) (keep q (save q u))
  unfolding keep
  keep-Post r q s u i e m c = go (save-cases q u) (stamped-eq q u)
    where
      Saves : Type 0
      Saves =
          (w : List Bool) × ((save q u ≡ (ok (stamped q u), written_record q u w))
            ⊎ (save q u ≡ (raise os_error, record u { writes = w })))

      go :
          Saves
          → ((n : ℕ) × (stamped q u ≡ record q { elapsed_ms = n }) × (q.elapsed_ms ≤ n))
          → Post (Finished r s) (Stuck r.items s) (keep q (save q u))
      go (w, inl g) (n, f, le) = Post-eq (ap (keep q) g) (record {
        at = rw f (record {
          id = i;
          in_memory = put_self q.id (some (record q { elapsed_ms = n })) u.records;
          ends = e;
          images = m;
          counted = c;
        });
      })
      go (w, inr g) k = Post-eq (ap (keep q) g) (record {
        at = record {
          id = i;
          in_memory = put_self q.id _ u.records;
          ends = e;
          images = m;
          counted = c;
        };
      })

load-live :
    (id : String) (s : Store) (r : Batch)
    → s.records id ≡ some r
    → (n : ℕ) × (load true id s ≡ (ok (record r { elapsed_ms = n }), s))
unfolding load
load-live id s r h = elim (Bool-cases (is_terminal r.state)) [
  | inl e ↦ (r.elapsed_ms, ground (arith, h, e))
  | inr e ↦ (execution_elapsed r s, ground (arith, h, e))
]

-- Whatever writes fail, `_finish` returns, or it raises because the paths of an image's outputs lead
-- out of Dream, and then the batches in memory are as before. Where it returns, the batch in memory
-- has the given state, its images keep their ids and are counted, an image that was complete, saved
-- or pending, stays as the service knew it, and every other one has the given state too. The service
-- has to know the images.
pub finish_ends :
    (env : Outside) (id : String) (state : State) (error : Option String) (s : Store) (r : Batch)
    → s.records id ≡ some r
    → Distinct (ids r.items)
    → All (Owned s) r.items
    → ((q : Batch) × (t : Store) × (finish env id state error s ≡ (ok q, t))
        × Finished env state error r s q t)
      ⊎ ((e : Exn) × (t : Store) × (finish env id state error s ≡ (raise e, t))
          × Stuck env state error r.items s t)
unfolding finish ended
finish_ends env id state error s r there d owned = go (load-live id s r there)
  where
    How : Type 0
    How =
        ((q : Batch) × (t : Store) × (finish env id state error s ≡ (ok q, t))
          × Finished env state error r s q t)
        ⊎ ((e : Exn) × (t : Store) × (finish env id state error s ≡ (raise e, t))
            × Stuck env state error r.items s t)

    read :
        (o : Result Batch × Store)
        → finish env id state error s ≡ o
        → Post (Finished env state error r s) (Stuck env state error r.items s) o
        → How
    read (ok q, t) e p = inl (q, t, e, p.at)
    read (raise x, t) e p = inr (x, t, e, p.at)

    rest : Batch → Store → Result Batch × Store
    rest l t = next (stop_items env state error l.items t) λ stops u.
        let q =
          ended state error l stops (any_pending l.items t) (any_pending (stop_list stops) u) in
        keep q (save q u)

    go : ((n : ℕ) × (load true id s ≡ (ok (record r { elapsed_ms = n }), s))) → How
    go (n, e) = read (finish env id state error s) refl (
        Post-eq (ap (λ o. next o rest) e) (
          next-Post _ _ (stop_items-Post env state error r.items s d owned)
            λ stops u m. keep-Post env state error r _ s u refl refl m refl))

-- It returns where the paths of all images can be formed.
pub finish_returns :
    (env : Outside) (id : String) (state : State) (error : Option String) (s : Store) (r : Batch)
    → s.records id ≡ some r
    → Distinct (ids r.items)
    → All (Owned s) r.items
    → ((k : String) → elem k (ids r.items) ≡ true → env.has_paths k ≡ true)
    → (q : Batch) × (t : Store) × (finish env id state error s ≡ (ok q, t))
      × Finished env state error r s q t
finish_returns env id state error s r there d owned formed =
    elim (finish_ends env id state error s r there d owned) [
      | inl h ↦ h
      | inr (e, t, f, k) ↦ absurd (cc (formed k.id k.among, k.no_paths))
    ]
