-- ===== src/Vram/Bounds.antt =====
-- What the CUDA budget of vram_policy.py promises.
use mllm_windows_ai_workbenc.Prelude.{◌+◌, ◌*◌, ◌≤◌, ◌≡◌, ◌⊎◌, arith}
use mllm_windows_ai_workbenc.Vram.{ℤ, at_least_zero, min_cuda_budget, safe_cuda_budget}

-- The budget is never below 3.0 GiB; where it is above, the budget, the memory that others use, the
-- reserve and the overhead together fit into the total, and less than a tenth of a GiB is left over.
pub safe_cuda_budget_fits :
    (total other reserve overhead : ℤ)
    → let b = safe_cuda_budget total other reserve overhead in
      let used = at_least_zero other + at_least_zero reserve + at_least_zero overhead in
      (min_cuda_budget ≤ b)
      × ((b ≡ min_cuda_budget)
          ⊎ ((b * 1024 + used * 10 ≤ at_least_zero total * 10)
              × (at_least_zero total * 10 ≤ b * 1024 + used * 10 + 1023)))
unfolding safe_cuda_budget
safe_cuda_budget_fits total other reserve overhead = ground arith

-- More memory on the card never lowers the budget, and more memory in use by others never raises it.
pub safe_cuda_budget_mono :
    (total total' other other' reserve overhead : ℤ)
    → at_least_zero total ≤ at_least_zero total'
    → at_least_zero other' ≤ at_least_zero other
    → safe_cuda_budget total other reserve overhead
      ≤ safe_cuda_budget total' other' reserve overhead
unfolding safe_cuda_budget
safe_cuda_budget_mono total total' other other' reserve overhead h k = ground arith
