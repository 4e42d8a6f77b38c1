-- ===== src/Operations/Examples.antt =====
-- Concrete measurements and folders.
use mllm_windows_ai_workbenc.Prelude.{
  ℕ, ◌*◌, ◌≤◌, ◌<◌, ◌≡◌, ◌↔◌, ◌⊎◌, refl, true, none, some, List, [], ◌∷◌,
}
use mllm_windows_ai_workbenc.Errors.{ok, raise, api}
use mllm_windows_ai_workbenc.Operations.Capacity.{
  gib, blocking_bytes, warning_bytes, bytes, DiskStatus, unknown, warning, ok_space, capacity_error,
  ensure_generation_capacity, ensure_generation_capacity-refuses, ensure_generation_capacity-allows,
}
use mllm_windows_ai_workbenc.Operations.Pending.{
  Dirent, object, not_object, raw, pending, pending_spec, pending-eq-spec,
}

ensure_generation_capacity-refuses_example :
    (ensure_generation_capacity (bytes gib) ≡ raise (api capacity_error))
    ↔ ((n : ℕ) × (bytes gib ≡ bytes n) × (n < blocking_bytes))
ensure_generation_capacity-refuses_example = ensure_generation_capacity-refuses (bytes gib)

-- 5 GiB are left.
abbrev tight : DiskStatus
tight = record { status = warning; free_bytes = some (5 * gib); generation_allowed = some true }

tight_passes : ensure_generation_capacity (bytes (5 * gib)) ≡ ok tight
unfolding ensure_generation_capacity
tight_passes = refl

ensure_generation_capacity-allows_example :
    ((tight.free_bytes ≡ none) × (tight.generation_allowed ≡ none) × (tight.status ≡ unknown))
    ⊎ ((n : ℕ) × (tight.free_bytes ≡ some n)
        × (blocking_bytes ≤ n)
        × (tight.generation_allowed ≡ some true)
        × (tight.status ≡ ok_space → warning_bytes ≤ n)
        × (warning_bytes ≤ n → tight.status ≡ ok_space))
ensure_generation_capacity-allows_example =
    ensure_generation_capacity-allows (bytes (5 * gib)) tight tight_passes

abbrev folder : List Dirent
folder =
    record { name = "identity-1.json"; suffix = ".json"; content = raw 20 (object (some "queued")) }
    ∷ record {
      name = "identity-2.json";
      suffix = ".json";
      content = raw 20 (object (some "complete"));
    }
    ∷ record { name = "notes.txt"; suffix = ".txt"; content = raw 20 not_object }
    ∷ []

pending-eq-spec_example : pending "identity-" (some folder) ≡ pending_spec "identity-" folder
pending-eq-spec_example = pending-eq-spec "identity-" folder
