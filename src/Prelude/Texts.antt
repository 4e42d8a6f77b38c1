-- ===== src/Prelude/Texts.antt =====
-- Texts as lists of code points, and the identifier patterns that the program writes as regular
-- expressions.
use Prim.Native.Nat.{ℕ}
use Prim.Native.Char.{code}
use Prim.Native.String.{String}
use mathlib.Core.Bool.{Bool, true, false, ◌&&◌, ◌||◌}
use mathlib.Core.List.{List, [], ◌∷◌}
use mathlib.Core.Option.{Option, none, some}
use mllm_windows_ai_workbenc.Prelude.Tests.{leb, ◌==◌}
use mllm_windows_ai_workbenc.Prelude.Lists.{length, all_of, any_of}

-- The code points of a text.
abbrev pub codes : String → List ℕ
codes String.[] = []
codes (String.◌∷◌ c s) = code c ∷ codes s

-- What follows a prefix, where the text has it.
unfoldable pub strip : List ℕ → List ℕ → Option (List ℕ)
strip [] s = some s
strip (p ∷ ps) [] = none
strip (p ∷ ps) (c ∷ s) = let rest = strip ps s in elim (p == c) [ true ↦ rest | false ↦ none ]

-- [a-f0-9]
unfoldable pub is_hex : ℕ → Bool
is_hex c = (leb b'a' c && leb c b'f') || (leb b'0' c && leb c b'9')

-- A full match of `[a-f0-9]{n}`.
unfoldable pub is_hex_run : ℕ → List ℕ → Bool
unfolding is_hex
is_hex_run n s = (length s == n) && all_of is_hex s

is_hex_rest : ℕ → Option (List ℕ) → Bool
unfolding is_hex_run
is_hex_rest n none = false
is_hex_rest n (some rest) = is_hex_run n rest

-- A full match of a literal prefix followed by `[a-f0-9]{n}`.
unfoldable pub is_tagged_hex : String → ℕ → String → Bool
unfolding strip is_hex_rest
is_tagged_hex tag n s = is_hex_rest n (strip (codes tag) (codes s))

-- Whether one of the code points occurs.
unfoldable pub has_code : List ℕ → List ℕ → Bool
has_code set s = any_of (λ c. any_of (λ d. c == d) set) s

unfoldable pub last_code : List ℕ → Option ℕ
last_code [] = none
last_code (c ∷ []) = some c
last_code (c ∷ d ∷ s) = last_code (d ∷ s)
