-- ===== src/Batches/Completion/Validating.antt =====
-- What `_validated_event` has checked of an event.
use mllm_windows_ai_workbenc.Prelude.{
  ℕ, ◌≤◌, ◌≡◌, refl, subst, String, Bool, true, false, not, inl, inr, Option, none, some, arith,
  get_elem?, Option-cases, leb, leb→le,
}
use mllm_windows_ai_workbenc.Errors.{
  guard-ok, Exn, Result, ok, raise, os_error, value_error, key_error, index_error,
}
use mllm_windows_ai_workbenc.Errors
use mllm_windows_ai_workbenc.Batches.Model.{Batch}
use mllm_windows_ai_workbenc.Batches.Observed.{
  Event, step, elapsed_of, index_of, item_of, is_beyond, is_ranged, is_bad_step, is_bad_preview,
  validated_item, validated_place, validated_event,
}

-- What `_validated_event` has checked.
then-ok :
    {A : Type 0} (m : Result (Unit {0})) (k : Result A) (a : A)
    → Errors.◌>>◌ m k ≡ ok a
    → (m ≡ ok tt) × (k ≡ ok a)
then-ok (ok u) k a h = (refl, h)
then-ok (raise e) k a h = absurd (cc)

bind-ok :
    {A : Type 0} (m : Result (Unit {0})) (v a : A)
    → Errors.◌>>=◌ m (λ _. ok v) ≡ ok a
    → (m ≡ ok tt) × (v ≡ a)
bind-ok (ok u) v a h = (refl, cc)
bind-ok (raise e) v a h = absurd (cc)

step_in_turn :
    (r : Batch) (elapsed i n total : ℕ) (file : Option String)
    → validated_place r (step elapsed i n total file) (some i) ≡ ok tt
    → i ≡ r.completed_items
unfolding validated_item is_bad_step
step_in_turn r elapsed i n total file h = elim (Option-cases (get_elem? r.items i)) [
  | inl e ↦ absurd (cc (rw (e, validated_place) at h))
  | inr (x, e) ↦
      let parts =
        then-ok (Errors.guard (not (is_bad_step r x i n total)) value_error)
          (Errors.guard (not (is_bad_preview r x n file)) value_error) tt
          (rw (e, validated_place) at h) in
      let good = guard-ok (not (is_bad_step r x i n total)) value_error parts.0 in
      ground (arith, good)
]

pub record Accepted (r : Batch) (e : Event) : Type 0 where
  pub later : r.elapsed_ms ≤ elapsed_of e
  pub within : is_beyond r (index_of e) ≡ false
  pub in_turn :
      (elapsed i n total : ℕ) (file : Option String)
      → e ≡ step elapsed i n total file
      → i ≡ r.completed_items

pub validated_event-Accepted :
    (r : Batch) (value : Option Event) (e : Event) → validated_event r value ≡ ok e → Accepted r e
unfolding validated_event
validated_event-Accepted r none e h = absurd (cc)
validated_event-Accepted r (some v) e h =
    let place = validated_place r v (item_of v) in
    let last =
      then-ok
        (Errors.◌>>◌
          (Errors.◌>>◌ (Errors.guard (is_ranged v) value_error)
            (Errors.guard (leb r.elapsed_ms (elapsed_of v)) value_error))
          (Errors.guard (not (is_beyond r (index_of v))) value_error))
        (Errors.◌>>=◌ place (λ _. ok v)) e h in
    let end = bind-ok place v e last.1 in
    let inner =
      then-ok
        (Errors.◌>>◌ (Errors.guard (is_ranged v) value_error)
          (Errors.guard (leb r.elapsed_ms (elapsed_of v)) value_error))
        (Errors.guard (not (is_beyond r (index_of v))) value_error) tt last.0 in
    let first =
      then-ok (Errors.guard (is_ranged v) value_error)
        (Errors.guard (leb r.elapsed_ms (elapsed_of v)) value_error) tt inner.0 in
    subst (Accepted r) end.1 (record {
      later = leb→le r.elapsed_ms (elapsed_of v) (guard-ok _ value_error first.1);
      within = negated (is_beyond r (index_of v)) (guard-ok _ value_error inner.1);
      in_turn = λ elapsed i n total file q.
          step_in_turn r elapsed i n total file
            (subst (λ w. validated_place r w (item_of w) ≡ ok tt) q end.0);
    })
  where
    negated : (b : Bool) → not b ≡ true → b ≡ false
    negated true h = absurd (cc)
    negated false h = refl
