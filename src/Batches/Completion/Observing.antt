-- ===== src/Batches/Completion/Observing.antt =====
-- What one event changes, on a record that holds the invariant.
use mllm_windows_ai_workbenc.Prelude.{
  ℕ, suc, ◌*◌, ◌≤◌, ◌<◌, ◌≡◌, refl, sym, ap, ◌∙◌, subst, String, false, inl, inr, Option, none,
  some, arith, get_elem?, set, Bool-cases, Option-cases, ◌==◌, ==_iff, if◌then◌else◌,
}
use mllm_windows_ai_workbenc.Errors.{Exn, Result, ok, raise, index_error}
use mllm_windows_ai_workbenc.Batches.Model.{Item, Batch, sampling, is_complete}
use mllm_windows_ai_workbenc.Batches.Store.{Store, next, ◌>>=◌, pure, lift, update}
use mllm_windows_ai_workbenc.Batches.Observed.{
  Event, stage, step, item_complete, preview_error, index_of, is_beyond,
}
use mllm_windows_ai_workbenc.Batches.Completion.{
  Outside, refused, complete_item, observe_complete, item_at, replaced, entered, observe_stage,
  at_most, preview_checked, previewed, estimated, put_sample, sampled, observe_step, observe,
}
use mllm_windows_ai_workbenc.Batches.Completion.Sound.{
  Prefix, Prefix-set_open, Prefix-at, Fit, Fit-at, Sound,
}
use mllm_windows_ai_workbenc.Batches.Completion.Posts.{
  Post, Unsaved, Unsaved-refl, next-Post, Updated, Post-eq, Post-map, update-Post,
}
use mllm_windows_ai_workbenc.Batches.Completion.Completing.{
  Observed, Observed-same, Observed-set, complete-Post,
}

item_at-there : (r : Batch) (i : ℕ) (x : Item) → item_at r i ≡ ok x → get_elem? r.items i ≡ some x
item_at-there r i x h = ground arith

below : (r : Batch) (i : ℕ) → is_beyond r (some i) ≡ false → i < r.total_items
below r i h = ground arith

reached : (r : Batch) (i : ℕ) → is_beyond r (some i) ≡ false → i ≤ r.completed_items
reached r i h = ground arith

missing_item :
    (env : Outside) (r : Batch) (i : ℕ) (s : Store)
    → get_elem? r.items i ≡ none
    → complete_item env r i s ≡ (refused index_error, s)
unfolding complete_item
missing_item env r i s e = ground (arith, e)

module _ (env : Outside) (r : Batch) (s : Store) (sound : Sound r s) where
  -- The item in hand changes, and is no more complete than it was.
  open_item :
      (i : ℕ) (x y job : Item) (q : Batch) (t : Store)
      → get_elem? r.items i ≡ some x
      → i ≡ r.completed_items
      → i < r.total_items
      → Fit s x
      → s.jobs x.id ≡ some job
      → y.id ≡ job.id
      → is_complete y.state ≡ is_complete job.state
      → Updated x.id y s t
      → q.id ≡ r.id
      → q.elapsed_ms ≡ r.elapsed_ms
      → q.total_items ≡ r.total_items
      → q.items ≡ set r.items i y
      → q.completed_items ≡ r.completed_items
      → q.current_item ≡ suc i
      → Observed r s q t
  open_item i x y job q t there at_end inside f known same_id same_state u a b c d k cur =
      let j : f.job ≡ job = same_some f.job job (sym f.there ∙ known) in
      let n : y.id ≡ x.id = same_id ∙ ap (λ (w : Item). w.id) (sym j) ∙ f.named in
      let part : is_complete x.state ≡ false =
        Prefix-at r.completed_items r.items x sound.first
          (subst (λ m. get_elem? r.items m ≡ some x) at_end there) in
      let e : is_complete y.state ≡ false =
        same_state ∙ ap (λ (w : Item). is_complete w.state) (sym j) ∙ f.agrees ∙ part in
      Observed-set r q s t i x y sound there n u.elsewhere u.unsaved
        (record {
          job = y;
          settled =
              ap t.pending n ∙ ap (λ (m : String → Option Item). m x.id) u.pending ∙ f.settled;
          there = ap t.jobs n ∙ u.there;
          named = refl;
          agrees = refl;
        })
        inside a b c d
        (subst (λ m. Prefix q.completed_items (set r.items m y)) (sym at_end)
          (subst (λ m. Prefix m (set r.items r.completed_items y)) (sym k)
            (Prefix-set_open r.completed_items r.items y sound.first e)))
        (omega (arith, k)) (omega (arith, k)) (omega (arith, cur, inside))
    where
      same_some : (v w : Item) → Path (Option Item) (some v) (some w) → v ≡ w
      same_some v w h = cc

  same_record :
      (q : Batch)
      → q.id ≡ r.id
      → q.elapsed_ms ≡ r.elapsed_ms
      → q.total_items ≡ r.total_items
      → q.items ≡ r.items
      → q.completed_items ≡ r.completed_items
      → q.current_item ≡ r.current_item
      → Observed r s q s
  same_record q a b c d e f = Observed-same r q s sound a b c d e (omega (arith, f, sound.current))

  stage-Post :
      (text : String) (i : Option ℕ)
      → is_beyond r i ≡ false
      → Post (Observed r s) (Unsaved s) (observe_stage r text i s)
  unfolding observe_stage
  stage-Post text none h = record { at = same_record _ refl refl refl refl refl refl }
  stage-Post text (some i) h = elim (Bool-cases (i == r.completed_items)) [
    | inr e ↦ rw e (record { at = same_record _ refl refl refl refl refl refl })
    | inl e ↦ rw e (staged ((==_iff i r.completed_items).0 e) (item_at r i) refl)
  ]
    where
      q : Batch
      q = record r { stage = text; eta_ms = none }

      inside : i < r.total_items
      inside = below r i h

      staged :
          i ≡ r.completed_items
          → (o : Result Item) → item_at r i ≡ o
          → Post (Observed r s) (Unsaved s) (
              next
                (o, s)
                λ x. update x.id (λ y. record y { message = text }) >>= λ y.
                  pure (replaced (entered q i x) i y))
      staged at_end (raise e) g = record { at = Unsaved-refl s }
      staged at_end (ok x) g =
          let there = item_at-there r i x g in
          let f = Fit-at s r.items i x there sound.fit in
          next-Post _ _ (update-Post x.id (λ y. record y { message = text }) s f.job f.there)
            λ y t k. record {
              at =
                  open_item i x y f.job (replaced (entered q i x) i y) t there at_end inside f
                    f.there (ap (λ (w : Item). w.id) k.0)
                    (ap (λ (w : Item). is_complete w.state) k.0) k.1 refl refl refl refl refl refl;
            }

  not_yet :
      (i : ℕ) (x : Item) (f : Fit s x)
      → get_elem? r.items i ≡ some x
      → i ≡ r.completed_items
      → is_complete sampling ≡ is_complete f.job.state
  not_yet i x f there at_end = sym (
      f.agrees
      ∙ Prefix-at r.completed_items r.items x sound.first
          (subst (λ m. get_elem? r.items m ≡ some x) at_end there))

  step-Post :
      (elapsed i number total : ℕ) (file : Option String)
      → i ≡ r.completed_items
      → i < r.total_items
      → Post (Observed r s) (Unsaved s) (observe_step env r elapsed i number total file s)
  unfolding observe_step sampled
  step-Post elapsed i number total file at_end inside =
      stepped (item_at r i) refl (preview_checked env file)
    where
      ch : Item → Item
      ch y = record y { state = sampling; progress = at_most 99 (100 * number) total }

      started : Batch
      started = previewed file (record r {
        preview_url = if r.current_item == suc i then r.preview_url else none;
        state = sampling;
        current_item = suc i;
        step = number;
        total_steps = total;
        stage = "采样";
      })

      p : Batch
      p = estimated env elapsed i number total (s.samples started.id i) started

      s' : Store
      s' = put_sample started.id i (number, elapsed) s

      from_sample : (x y : Item) (t : Store) → Updated x.id y s' t → Updated x.id y s t
      from_sample x y t u = record {
        unsaved = record { records = u.unsaved.records; batch_files = u.unsaved.batch_files };
        elsewhere = record { jobs = u.elsewhere.jobs; pending = u.elsewhere.pending };
        pending = u.pending;
        there = u.there;
      }

      stepped :
          (o : Result Item)
          → item_at r i ≡ o
          → (v : Result (Unit {0}))
          → Post
              (Observed r s)
              (Unsaved s)
              (next (o, s) λ x. lift v >>= λ _. sampled env elapsed i number total x started)
      stepped (raise e) g v = record { at = Unsaved-refl s }
      stepped (ok x) g (raise e) = record { at = Unsaved-refl s }
      stepped (ok x) g (ok u) =
          let there = item_at-there r i x g in
          let f = Fit-at s r.items i x there sound.fit in
          let once : Post (λ y t. (y ≡ ch f.job) × Updated x.id y s t) (Unsaved s)
              (update x.id ch s') =
            Post-map _ (λ y t k. (k.0, from_sample x y t k.1))
              (λ t k. record { records = k.records; batch_files = k.batch_files })
              (update-Post x.id ch s' f.job f.there) in
          next-Post _ _ once λ y t k. record {
            at =
                open_item i x y f.job (replaced p i y) t there at_end inside f f.there
                  (ap (λ (w : Item). w.id) k.0)
                  (ap (λ (w : Item). is_complete w.state) k.0 ∙ not_yet i x f there at_end) k.1 refl
                  refl refl refl refl refl;
          }

  refused_Post : (e : Exn) → Post (Observed r s) (Unsaved s) (observe_complete (refused e, s))
  unfolding observe_complete
  refused_Post e = record { at = Unsaved-refl s }

  pub observe-Post :
      (e : Event)
      → is_beyond r (index_of e) ≡ false
      → ((elapsed i n total : ℕ) (file : Option String)
          → e ≡ step elapsed i n total file
          → i ≡ r.completed_items)
      → Post (Observed r s) (Unsaved s) (observe env r e s)
  unfolding observe
  observe-Post (stage elapsed text i) h g = stage-Post text i h
  observe-Post (preview_error elapsed i message) h g = record {
    at = same_record _ refl refl refl refl refl refl;
  }
  observe-Post (step elapsed i n total file) h g =
      step-Post elapsed i n total file (g elapsed i n total file refl) (below r i h)
  observe-Post (item_complete elapsed i job_id) h g = elim (Option-cases (get_elem? r.items i)) [
    | inl e ↦ Post-eq (ap observe_complete (missing_item env r i s e)) (refused_Post index_error)
    | inr (x, e) ↦ complete-Post env r s sound i x e (below r i h) (reached r i h)
  ]
