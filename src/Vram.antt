-- ===== src/Vram.antt =====
-- vram_policy.py: the CUDA budget, in tenths of a GiB.
pub mod Bounds
mod Examples
use mllm_windows_ai_workbenc.Prelude.{ℕ, ◌+◌, ◌-◌, ◌*◌, ◌/◌, max, leb, if◌then◌else◌}

-- A Python integer; `negsuc n` is -(n + 1).
pub data ℤ : Type 0 where
  pos negsuc : ℕ → ℤ

-- max(0, int(value))
abbrev pub at_least_zero : ℤ → ℕ
at_least_zero (pos n) = n
at_least_zero (negsuc n) = 0

-- MIN_CUDA_BUDGET_GB = 3.0
abbrev pub min_cuda_budget : ℕ
min_cuda_budget = 30

abbrev pub default_reserve_mib : ℤ
default_reserve_mib = pos 1024

abbrev pub default_overhead_mib : ℤ
default_overhead_mib = pos 512

-- `-` stops at 0, where the source compares the difference with 0. `available / 1024` is exact
-- for a double, so the floor of ten times it is that of the fraction.
pub safe_cuda_budget : ℤ → ℤ → ℤ → ℤ → ℕ
safe_cuda_budget total_vram_mib other_vram_mib reserve_mib overhead_mib =
    let total = at_least_zero total_vram_mib in
    let other = at_least_zero other_vram_mib in
    let reserve = at_least_zero reserve_mib in
    let overhead = at_least_zero overhead_mib in
    let available_mib = total - other - reserve - overhead in
    if leb available_mib 0 then min_cuda_budget else max min_cuda_budget (available_mib * 10 / 1024)
