-- ===== src/Events.antt =====
-- identity_events.py: events of a worker in a file, one JSON object in a line.
pub mod Reading
pub mod Consuming
mod Examples
use mllm_windows_ai_workbenc.Prelude.{
  ℕ, zero, suc, ◌+◌, ◌*◌, Bool, true, false, not, ◌&&◌, ◌||◌, Option, none, some, List, [], ◌∷◌,
  ◌++◌, ltb, ◌==◌, if◌then◌else◌, length,
}
use mllm_windows_ai_workbenc.Errors.{Result, ok, raise, value_error}

abbrev pub max_line : ℕ
max_line = 16 * 1024

abbrev pub max_read : ℕ
max_read = 64 * 1024

abbrev pub Bytes : Type 0
Bytes = List ℕ

-- Slices of bytes: data[:n] and data[n:].
module _ {ℓ} {A : Type ℓ} where
  unfoldable pub take : ℕ → List A → List A
  take zero xs = []
  take (suc n) [] = []
  take (suc n) (x ∷ xs) = x ∷ take n xs

  unfoldable pub drop : ℕ → List A → List A
  drop zero xs = xs
  drop (suc n) [] = []
  drop (suc n) (x ∷ xs) = drop n xs

abbrev pub starts_feed : Bytes → Bool
starts_feed [] = false
starts_feed (c ∷ cs) = c == 10

-- A line ends after a line feed, and after a carriage return that no line feed follows.
abbrev pub ends_line : ℕ → Bytes → Bool
ends_line c rest = (c == 10) || ((c == 13) && not (starts_feed rest))

abbrev pub push : ℕ → List Bytes → List Bytes
push c [] = (c ∷ []) ∷ []
push c (l ∷ ls) = (c ∷ l) ∷ ls

-- data.splitlines(keepends=True)
unfoldable pub split_lines : Bytes → List Bytes
split_lines [] = []
split_lines (c ∷ cs) =
    let rest = split_lines cs in if ends_line c cs then (c ∷ []) ∷ rest else push c rest

-- line.endswith(b'\n')
unfoldable pub is_ended : Bytes → Bool
is_ended [] = false
is_ended (c ∷ []) = c == 10
is_ended (c ∷ d ∷ cs) = is_ended (d ∷ cs)

-- `encode` is the compact JSON text of an object, in UTF-8.
module _ {E : Type 0} (encode : E → Bytes) where
  unfoldable pub line_of : E → Bytes
  line_of e = encode e ++ (10 ∷ [])

  -- `emit_event` at a path, with the bytes that are there: a line is appended.
  unfoldable pub emit_event : E → Bytes → Result Bytes
  emit_event e bytes =
      if ltb max_line (length (line_of e)) then raise value_error else ok (bytes ++ line_of e)

  -- The lines of several events.
  unfoldable pub written : List E → Bytes
  written [] = []
  written (e ∷ es) = line_of e ++ written es

-- A bad line: what was read before it is returned first.
unfoldable pub settle : {E : Type 0} → List E → ℕ → Result (List E × ℕ)
settle [] position = raise value_error
settle (e ∷ es) position = ok (e ∷ es, position)

-- `decode` parses a line to an object; none stands for a ValueError or UnicodeDecodeError.
module _ {E : Type 0} (decode : Bytes → Option E) where
  -- The loop over the lines; `position` is `offset + consumed`.
  unfoldable pub read_lines : List Bytes → List E → ℕ → Result (List E × ℕ)
  read_lines [] events position = ok (events, position)
  read_lines (l ∷ ls) events position =
      let go_on = λ (v : E). read_lines ls (events ++ (v ∷ [])) (position + length l) in
      if ltb max_line (length l)
      then settle events position
      else if not (is_ended l)
      then ok (events, position)
      else (elim (decode l) [ none ↦ settle events position | some v ↦ go_on v ])

  -- `read_events`, at an offset that is a natural number; a missing file is none.
  unfoldable pub read_events : Option Bytes → ℕ → Result (List E × ℕ)
  read_events none offset = ok ([], offset)
  read_events (some bytes) offset =
      if ltb (length bytes) offset
      then raise value_error
      else read_lines (split_lines (take max_read (drop offset bytes))) [] offset
