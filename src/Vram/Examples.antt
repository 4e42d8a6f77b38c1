-- ===== src/Vram/Examples.antt =====
-- Cards of 12 and 8 GiB.
use mllm_windows_ai_workbenc.Prelude.{ℕ, ◌+◌, ◌*◌, ◌≤◌, ◌≡◌, ◌⊎◌, arith}
use mllm_windows_ai_workbenc.Vram.{
  ℤ, pos, min_cuda_budget, default_reserve_mib, default_overhead_mib, safe_cuda_budget,
}
use mllm_windows_ai_workbenc.Vram.Bounds.{safe_cuda_budget_fits, safe_cuda_budget_mono}

abbrev budget : ℤ → ℤ → ℕ
budget total other = safe_cuda_budget total other default_reserve_mib default_overhead_mib

safe_cuda_budget_fits_example :
    (min_cuda_budget ≤ budget (pos 12288) (pos 900))
    × ((budget (pos 12288) (pos 900) ≡ min_cuda_budget)
        ⊎ ((budget (pos 12288) (pos 900) * 1024 + (900 + 1024 + 512) * 10 ≤ 12288 * 10)
            × (12288 * 10 ≤ budget (pos 12288) (pos 900) * 1024 + (900 + 1024 + 512) * 10 + 1023)))
safe_cuda_budget_fits_example =
    safe_cuda_budget_fits (pos 12288) (pos 900) default_reserve_mib default_overhead_mib

safe_cuda_budget_mono_example : budget (pos 8192) (pos 900) ≤ budget (pos 12288) (pos 300)
safe_cuda_budget_mono_example =
    safe_cuda_budget_mono (pos 8192) (pos 12288) (pos 900) (pos 300) default_reserve_mib
      default_overhead_mib (omega arith) (omega arith)
