-- ===== src/Contract/Estimate.antt =====
-- The estimate of a trace's size, against the limit.
use native.Mathlib.Nat.{mul-le-mul}
use mllm_windows_ai_workbenc.Prelude.{
  ℕ, ◌+◌, ◌*◌, ◌≤◌, ◌≡◌, refl, sym, ap, ◌∙◌, subst, ◌⊎◌, inl, inr, Bool, true, false, not, ◌&&◌,
  ◌||◌, max, arith, leb, leb→le, Bool-cases, &&-eq-true,
}
use mllm_windows_ai_workbenc.Errors.{
  Result, ok, raise, guard, value_error, ◌>>◌, bound-ok, guard-ok,
}
use mllm_windows_ai_workbenc.Contract.{
  h6, h7, is_h7, Request, cells, grid, area, samples, layers, token_limit, estimated_capture_bytes,
  tokens_of, max_artifact_bytes, is_affordable, is_deep_extended, check_research, bounded_research,
}

-- The estimate grows with each of its parts.
estimate_bound :
    (width height steps tokens : ℕ) (extended : Bool) (s a t n g : ℕ)
    → samples steps extended ≤ s
    → area width height extended ≤ a
    → tokens + 9 ≤ t
    → steps ≤ n
    → grid width height 1 ≤ g
    → estimated_capture_bytes width height steps tokens extended
      ≤ s * a * t * 26 + s * layers extended * t * 1400 + n * g * 8 + 8 * 1024 * 1024
unfolding estimated_capture_bytes
estimate_bound width height steps tokens extended s a t n g hs ha ht hn hg =
    let first = mul-le-mul (mul-le-mul hs ha) ht in
    let layer : layers extended ≤ layers extended = omega arith in
    let maps = mul-le-mul (mul-le-mul hs layer) ht in
    let steps_bound = mul-le-mul hn hg in omega (arith, first, maps, steps_bound)

-- The cells of a side, at each of the four scales.
cells_512 :
    (size : ℕ)
    → size ≤ 512
    → (cells size 1 ≤ 64) × (cells size 2 ≤ 32) × (cells size 4 ≤ 16) × (cells size 8 ≤ 8)
unfolding cells
cells_512 size h = (omega (arith, h), omega (arith, h), omega (arith, h), omega (arith, h))

cells_1152 : (size : ℕ) → size ≤ 1152 → (cells size 1 ≤ 144) × (cells size 8 ≤ 18)
unfolding cells
cells_1152 size h = (omega (arith, h), omega (arith, h))

extended_fits :
    (width height steps tokens : ℕ)
    → width ≤ 512
    → height ≤ 512
    → steps ≤ 8
    → tokens ≤ 75
    → estimated_capture_bytes width height steps tokens true ≤ max_artifact_bytes
unfolding area grid
extended_fits width height steps tokens w h s t =
    let (a₁, a₂, a₄, a₈) = cells_512 width w in
    let (b₁, b₂, b₄, b₈) = cells_512 height h in
    let g₁ : cells width 1 * cells height 1 ≤ 64 * 64 = mul-le-mul a₁ b₁ in
    let g₂ : cells width 2 * cells height 2 ≤ 32 * 32 = mul-le-mul a₂ b₂ in
    let g₄ : cells width 4 * cells height 4 ≤ 16 * 16 = mul-le-mul a₄ b₄ in
    let g₈ : cells width 8 * cells height 8 ≤ 8 * 8 = mul-le-mul a₈ b₈ in
    let bound =
      estimate_bound width height steps tokens true 8 26944 84 8 4096 s
        (omega (arith, g₁, g₂, g₄, g₈)) (omega (arith, t)) s g₁ in
    omega (arith, bound)

representative_fits :
    (width height steps tokens : ℕ)
    → width ≤ 1152
    → height ≤ 1152
    → steps ≤ 50
    → tokens ≤ 32
    → estimated_capture_bytes width height steps tokens false ≤ max_artifact_bytes
unfolding area grid
representative_fits width height steps tokens w h s t =
    let (a₁, a₈) = cells_1152 width w in
    let (b₁, b₈) = cells_1152 height h in
    let g₁ : cells width 1 * cells height 1 ≤ 144 * 144 = mul-le-mul a₁ b₁ in
    let g₈ : cells width 8 * cells height 8 ≤ 18 * 18 = mul-le-mul a₈ b₈ in
    let bound =
      estimate_bound width height steps tokens false 5 41796 41 50 20736 (omega arith)
        (omega (arith, g₁, g₈)) (omega (arith, t)) s g₁ in
    omega (arith, bound)

-- What the estimate is checked after.
check_research-small :
    (r : Request) (u : Unit {0})
    → r.trace_level ≡ h7
    → r.is_extended ≡ true
    → check_research r ≡ ok u
    → (r.width ≤ 512) × (r.height ≤ 512)
unfolding check_research
check_research-small r u e x h =
    let (_, _, last) =
      bound-ok _
        (λ _.
          guard (not (is_deep_extended r) || (leb (max r.width r.height) 512 && leb r.steps 12))
            value_error)
        u h in
    let checked = guard-ok _ value_error last in
    let both : (leb (max r.width r.height) 512 && leb r.steps 12) ≡ true =
      cc (rw (e, x) at checked) in
    let small = leb→le (max r.width r.height) 512 (&&-eq-true _ _ both).0 in
    (omega (arith, small), omega (arith, small))

tokens_limit : (r : Request) → tokens_of r ≤ token_limit r.is_extended
unfolding tokens_of
tokens_limit r = omega arith

le→leb : (a b : ℕ) → a ≤ b → leb a b ≡ true
le→leb a b h = ground (arith, h)

affordable :
    (r : Request) (u : Unit {0})
    → r.trace_level ≡ h7
    → r.width ≤ 1152
    → r.height ≤ 1152
    → r.steps ≤ 50
    → (r.is_extended ≡ false) ⊎ (r.steps ≤ 8)
    → check_research r ≡ ok u
    → is_affordable r ≡ true
affordable r u e w h s advice checked =
    le→leb (estimated_capture_bytes r.width r.height r.steps (tokens_of r) r.is_extended)
      max_artifact_bytes
      (elim (Bool-cases r.is_extended) [
        | inl x ↦ at true x (
            let (w, h) = check_research-small r u e x checked in
            elim advice [
              | inl y ↦ absurd (cc (x, y))
              | inr n ↦
                  extended_fits r.width r.height r.steps (tokens_of r) w h n
                    (subst (λ b. tokens_of r ≤ token_limit b) x (tokens_limit r))
            ])
        | inr x ↦ at false x (
            representative_fits r.width r.height r.steps (tokens_of r) w h s
              (subst (λ b. tokens_of r ≤ token_limit b) x (tokens_limit r)))
      ])
  where
    at :
        (b : Bool)
        → r.is_extended ≡ b
        → estimated_capture_bytes r.width r.height r.steps (tokens_of r) b ≤ max_artifact_bytes
        → estimated_capture_bytes r.width r.height r.steps (tokens_of r) r.is_extended
          ≤ max_artifact_bytes
    at b x =
        subst
          (λ b.
            estimated_capture_bytes r.width r.height r.steps (tokens_of r) b ≤ max_artifact_bytes)
          (sym x)

-- The other checks do not tell H6 from H7.
check_research-level :
    (r : Request)
    → r.trace_level ≡ h7
    → check_research r ≡ check_research (record r { trace_level = h6 })
unfolding check_research
check_research-level r e = rw e refl

-- An H7 request of at most 1152 by 1152 pixels and 50 steps that keeps to what the refusal advises,
-- a representative coverage or at most 8 steps, is never refused for the estimate: it is accepted
-- or refused as the same request at H6 is.
pub bounded_research-advice :
    (r : Request)
    → r.trace_level ≡ h7
    → r.width ≤ 1152
    → r.height ≤ 1152
    → r.steps ≤ 50
    → (r.is_extended ≡ false) ⊎ (r.steps ≤ 8)
    → bounded_research r ≡ bounded_research (record r { trace_level = h6 })
unfolding bounded_research
bounded_research-advice r e w h s advice =
    go (check_research r) refl ∙ ap (λ o. o >> guard true value_error) (check_research-level r e)
  where
    go :
        (o : Result (Unit {0}))
        → check_research r ≡ o
        → (o >> guard (not (is_h7 r.trace_level) || is_affordable r) value_error)
          ≡ (o >> guard true value_error)
    go (raise x) c = refl
    go (ok u) c = let fits = affordable r u e w h s advice c in rw fits (rw e refl)
