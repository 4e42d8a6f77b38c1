-- ===== src/Batches/Completion/Consuming.antt =====
-- `consume` as a whole, on a sound record.
use mllm_windows_ai_workbenc.Prelude.{
  ℕ, suc, ◌*◌, ◌≤◌, ◌≡◌, refl, sym, ap, ◌∙◌, subst, ◌≢◌, String, Bool, ◌⊎◌, inl, inr, Option, some,
  List, [], ◌∷◌, arith, put, put_self, All, Bool-cases, Option-cases,
}
use mllm_windows_ai_workbenc.Errors.{Result, ok, raise, os_error}
use mllm_windows_ai_workbenc.Batches.Model.{Item, Batch, is_terminal}
use mllm_windows_ai_workbenc.Batches.Store.{Store, write, save, stamped, execution_elapsed, load}
use mllm_windows_ai_workbenc.Batches.Observed.{Event, elapsed_of, validated_event}
use mllm_windows_ai_workbenc.Batches.Completion.{
  Outside, observe, observed_steps, sum_steps, progress_cap, measured, take_event, consume,
}
use mllm_windows_ai_workbenc.Batches.Completion.Sound.{ids, Distinct, Fit, at_most_lem, Sound}
use mllm_windows_ai_workbenc.Batches.Completion.Posts.{
  Post, Unsaved, Unsaved-refl, next-Post, lift-Post, write-cases, Post-eq,
}
use mllm_windows_ai_workbenc.Batches.Completion.Completing.{Observed}
use mllm_windows_ai_workbenc.Batches.Completion.Observing.{observe-Post}
use mllm_windows_ai_workbenc.Batches.Completion.Validating.{Accepted, validated_event-Accepted}

-- From one saved record to the next.
pub record Progressed (r : Batch) (q : Batch) (t : Store) : Type 0 where
  pub id : q.id ≡ r.id
  pub later : r.elapsed_ms ≤ q.elapsed_ms
  pub names : ids q.items ≡ ids r.items
  pub grows : r.completed_items ≤ q.completed_items
  pub by_one : q.completed_items ≤ suc r.completed_items
  pub sound : Sound q t

abbrev pub Next : Batch → Batch → Store → Type 0
Next r q t = (t.records q.id ≡ some q) × Progressed r q t

abbrev pub written_record : Batch → Store → List Bool → Store
written_record q s w = record s {
  writes = w;
  records = put q.id (some (stamped q s)) s.records;
  batch_files = put q.id (some (stamped q s)) s.batch_files;
}

pub save-cases :
    (q : Batch) (s : Store)
    → (w : List Bool) × ((save q s ≡ (ok (stamped q s), written_record q s w))
        ⊎ (save q s ≡ (raise os_error, record s { writes = w })))
unfolding save
save-cases q s = go (write-cases s)
  where
    go :
        ((w : List Bool) × ((write s ≡ (ok tt, record s { writes = w }))
            ⊎ (write s ≡ (raise os_error, record s { writes = w }))))
        → (w : List Bool) × ((save q s ≡ (ok (stamped q s), written_record q s w))
            ⊎ (save q s ≡ (raise os_error, record s { writes = w })))
    go (w, inl e) = (w, inl (rw e refl))
    go (w, inr e) = (w, inr (rw e refl))

elapsed-le : (q : Batch) (s : Store) → q.elapsed_ms ≤ execution_elapsed q s
unfolding execution_elapsed
elapsed-le q s = elim (Option-cases (s.started q.id)) [
  | inl e ↦ ground (arith, e)
  | inr (t, e) ↦ ground (arith, e)
]

pub stamped-eq :
    (q : Batch) (s : Store)
    → (n : ℕ) × (stamped q s ≡ record q { elapsed_ms = n }) × (q.elapsed_ms ≤ n)
unfolding stamped execution_elapsed
stamped-eq q s = elim (Bool-cases (is_terminal q.state)) [
  | inr e ↦ (q.elapsed_ms, rw e refl, omega arith)
  | inl e ↦ (execution_elapsed q s, rw e refl, elapsed-le q s)
]

Fit-moved :
    (s t : Store) (xs : List Item)
    → t.jobs ≡ s.jobs
    → t.pending ≡ s.pending
    → All (Fit s) xs
    → All (Fit t) xs
Fit-moved s t [] a b h = tt
Fit-moved s t (x ∷ xs) a b h = (
  record {
    job = h.0.job;
    settled = ap (λ (m : String → Option Item). m x.id) b ∙ h.0.settled;
    there = ap (λ (m : String → Option Item). m x.id) a ∙ h.0.there;
    named = h.0.named;
    agrees = h.0.agrees;
  },
  Fit-moved s t xs a b h.1,
)

module _ (env : Outside) (r : Batch) (s : Store) (sound : Sound r s) where
  -- The event's time is taken over first.
  timed-Sound : (e : Event) → Sound (record r { elapsed_ms = elapsed_of e }) s
  timed-Sound e = record {
    known = sound.known;
    first = sound.first;
    distinct = sound.distinct;
    fit = sound.fit;
    current = sound.current;
    measured = sound.measured;
  }

  -- The record after an event is measured and saved.
  saved_Next :
      (e : Event) (q : Batch) (t : Store) (n : ℕ) (w : List Bool)
      → r.elapsed_ms ≤ elapsed_of e
      → Observed (record r { elapsed_ms = elapsed_of e }) s q t
      → Next r (stamped (measured q n) t) (written_record (measured q n) t w)
  saved_Next v q t n w later o = go (stamped-eq (measured q n) t)
    where
      m : Batch
      m = measured q n

      go :
          ((k : ℕ) × (stamped m t ≡ record m { elapsed_ms = k }) × (m.elapsed_ms ≤ k))
          → Next r (stamped m t) (written_record m t w)
      go (k, e, le) = rw e (
        put_self m.id (some (record m { elapsed_ms = k })) t.records,
        record {
          id = o.id;
          later = omega (arith, later, le, o.elapsed);
          names = o.names;
          grows = o.grows;
          by_one = o.by_one;
          sound = record {
            known = o.known;
            first = o.first;
            distinct = subst Distinct (sym o.names) sound.distinct;
            fit = Fit-moved t _ q.items refl refl o.fit;
            current = o.current;
            measured = at_most_lem (progress_cap q) (100 * n) (sum_steps q.items);
          };
        },
      )

  save_after :
      (e : Event) (q : Batch) (t : Store) (n : ℕ)
      → r.elapsed_ms ≤ elapsed_of e
      → Observed (record r { elapsed_ms = elapsed_of e }) s q t
      → Post (Next r) (Unsaved s) (save (measured q n) t)
  save_after e q t n later o = go (save-cases (measured q n) t)
    where
      go :
          ((w : List Bool) × ((save (measured q n) t
                ≡ (ok (stamped (measured q n) t), written_record (measured q n) t w))
              ⊎ (save (measured q n) t ≡ (raise os_error, record t { writes = w }))))
          → Post (Next r) (Unsaved s) (save (measured q n) t)
      go (w, inl h) = Post-eq h (record { at = saved_Next e q t n w later o })
      go (w, inr h) = Post-eq h (record {
        at = record { records = o.unsaved.records; batch_files = o.unsaved.batch_files };
      })

  take_event-Post :
      (value : Option Event)
      → Post (λ _ t. (q : Batch) × Next r q t) (Unsaved s) (take_event env value r s)
  unfolding take_event
  take_event-Post value = next-Post _ _ valid λ e t h.
      next-Post _ _
        (subst
          (λ u.
            Post (Observed (record r { elapsed_ms = elapsed_of e }) s) (Unsaved s)
              (observe env (record r { elapsed_ms = elapsed_of e }) e u))
          (sym h.1)
          (observe-Post env (record r { elapsed_ms = elapsed_of e }) s (timed-Sound e) e h.0.within
            h.0.in_turn))
        λ q u o.
          next-Post _ _ (lift-Post {P = λ n v. v ≡ u} (observed_steps q) u (λ n g. refl) o.unsaved)
            λ n v g.
              next-Post _ _
                (subst (λ x. Post (Next r) (Unsaved s) (save (measured q n) x)) (sym g)
                  (save_after e q u n h.0.later o))
                λ z x k. record { at = (z, k) }
    where
      valid : Post (λ e t. Accepted r e × (t ≡ s)) (Unsaved s) (validated_event r value, s)
      valid =
          lift-Post (validated_event r value) s
            (λ e g. (validated_event-Accepted r value e g, refl)) (Unsaved-refl s)

consume-loaded :
    (env : Outside) (id : String) (value : Option Event) (s : Store) (r : Batch)
    → s.records id ≡ some r
    → consume env id value s ≡ take_event env value r s
unfolding consume load
consume-loaded env id value s r h = ground (arith, h)

-- An event that is consumed takes a sound record to the next sound record: the worker's time does not
-- go back, the images keep their ids, and at most one more is complete. One that is refused, for
-- whatever reason, changes no saved record. A sound record has its complete images first, counts
-- them, agrees with the service's jobs, and reports less than 100 per cent until all are complete.
pub consume-Sound :
    (env : Outside) (id : String) (value : Option Event) (s : Store) (r : Batch)
    → s.records id ≡ some r
    → Sound r s
    → (e : Result (Unit {0})) (t : Store) → consume env id value s ≡ (e, t)
    → ((e ≡ ok tt) × ((q : Batch) × Next r q t)) ⊎ ((e ≢ ok tt) × Unsaved s t)
consume-Sound env id value s r there sound e t h = read e (
    subst (Post (λ _ u. (q : Batch) × Next r q u) (Unsaved s))
      (sym (consume-loaded env id value s r there) ∙ h) (take_event-Post env r s sound value))
  where
    read :
        (f : Result (Unit {0}))
        → Post (λ _ u. (q : Batch) × Next r q u) (Unsaved s) (f, t)
        → ((f ≡ ok tt) × ((q : Batch) × Next r q t)) ⊎ ((f ≢ ok tt) × Unsaved s t)
    read (ok u) p = inl (refl, p.at)
    read (raise x) p = inr ((λ g. cc), p.at)
