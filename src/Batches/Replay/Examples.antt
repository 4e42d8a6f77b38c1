-- ===== src/Batches/Replay/Examples.antt =====
-- A batch of two images whose second one was cut off, with an event that completes it.
use mllm_windows_ai_workbenc.Prelude.{
  ◌≡◌, refl, sym, ap, ◌∙◌, inl, inr, Option, some, [], ◌∷◌, str_eq, str_eq_iff, Bool-cases, length,
  ◌==◌, if◌then◌else◌,
}
use mllm_windows_ai_workbenc.Errors.{Result}
use mllm_windows_ai_workbenc.Batches.Model.{Item, Batch, complete, queued}
use mllm_windows_ai_workbenc.Batches.Store.{Store}
use mllm_windows_ai_workbenc.Batches.Observed.{Event, item_complete}
use mllm_windows_ai_workbenc.Batches.Running.{image, first_id, second_id, running, store, outside}
use mllm_windows_ai_workbenc.Events.{Bytes}
use mllm_windows_ai_workbenc.Batches.Replay.{holds, sync_items, recover_batch}
use mllm_windows_ai_workbenc.Batches.Replay.Synced.{Tidy}
use mllm_windows_ai_workbenc.Batches.Replay.Ended.{Recovered, recover_batch-Recovered}

-- A line of two bytes is the completion of the first image, any longer one that of the second.
abbrev decode : Bytes → Option (Option Event)
decode l =
    if length l == 2
    then some (some (item_complete 10 0 first_id))
    else some (some (item_complete 20 1 second_id))

store_Tidy : Tidy store
store_Tidy = record {
  jobs = λ i j h. elim (Bool-cases (str_eq first_id i)) [
    | inl e ↦
        let same : image first_id complete ≡ j = cc (rw e at h) in
        ap (λ (x : Item). x.id) (sym same) ∙ (str_eq_iff first_id i).0 e
    | inr e ↦ elim (Bool-cases (str_eq second_id i)) [
      | inl d ↦
          let same : image second_id queued ≡ j = cc (rw (e, d) at h) in
          ap (λ (x : Item). x.id) (sym same) ∙ (str_eq_iff second_id i).0 d
      | inr d ↦ absurd (cc (rw (e, d) at h))
    ]
  ];
  pending = λ i p h. absurd (cc (h));
}

recover_batch-Recovered_example :
    (o : Result (Unit {0})) × (q : Batch) × (t : Store) × (recover_batch outside decode
        (holds (1 ∷ 10 ∷ 1 ∷ 1 ∷ 10 ∷ []))
        running
        store
      ≡ (o, t))
    × Recovered running store q t
unfolding sync_items
recover_batch-Recovered_example =
    recover_batch-Recovered outside decode (holds (1 ∷ 10 ∷ 1 ∷ 1 ∷ 10 ∷ [])) running store
      store_Tidy (refl, (refl, tt)) (λ k m. refl) refl
