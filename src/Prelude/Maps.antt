-- ===== src/Prelude/Maps.antt =====
-- Dictionaries with text keys, as functions.
use Prim.Native.String.{String}
use mathlib.Core.Path.{◌≡◌}
use mathlib.Core.Logic.{◌≢◌}
use native.Mathlib.Omega.{arith}
use text.Mathlib.Text.{◌==◌ as str_eq}
use text.Mathlib.TextEquality.{eq_iff as str_eq_iff}
use mllm_windows_ai_workbenc.Prelude.Tests.{if◌then◌else◌}

-- d[k] = v
abbrev pub put {ℓ} : {V : Type ℓ} → String → V → (String → V) → String → V
put k v d j = if str_eq k j then v else d j

module _ {ℓ} {V : Type ℓ} where
  pub put_self : (k : String) (v : V) (d : String → V) → put k v d k ≡ v
  put_self k v d = ground (arith, str_eq_iff k k)

  pub put-ne : (k j : String) (v : V) (d : String → V) → k ≢ j → put k v d j ≡ d j
  put-ne k j v d h = ground (arith, str_eq_iff k j)
