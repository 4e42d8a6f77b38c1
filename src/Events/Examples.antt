-- ===== src/Events/Examples.antt =====
-- Two kinds of events, in files of a few bytes.
use mllm_windows_ai_workbenc.Prelude.{
  ◌≡◌, refl, Bool, true, false, Option, none, some, List, [], ◌∷◌, ◌++◌, arith, ◌==◌, if◌then◌else◌,
  length,
}
use mllm_windows_ai_workbenc.Errors.{ok, raise, value_error}
use mllm_windows_ai_workbenc.Events.{Bytes, line_of, emit_event, read_events, written}
use mllm_windows_ai_workbenc.Actions.{Action}
use mllm_windows_ai_workbenc.Events.Consuming.Rounds.{Delivered}
use mllm_windows_ai_workbenc.Events.Reading.{IsInner, read_events-written, emit_event-read_events}

abbrev text : Bool → Bytes
text true = 123 ∷ 125 ∷ []
text false = 123 ∷ 32 ∷ 125 ∷ []

abbrev parse : Bytes → Option Bool
parse l = if length l == 3 then some true else if length l == 4 then some false else none

text_IsInner : (e : Bool) → IsInner (text e)
text_IsInner true = refl
text_IsInner false = refl

parses : (e : Bool) → parse (line_of text e) ≡ some e
unfolding line_of written
parses true = refl
parses false = refl

abbrev three : List Bool
three = true ∷ false ∷ true ∷ []

read_events-written_example :
    (front back : List Bool) × (three ≡ front ++ back)
    × (read_events parse (some ((7 ∷ 10 ∷ []) ++ (written text three ++ (123 ∷ [])))) 2
        ≡ ok (front, length ((7 ∷ 10 ∷ []) ++ written text front)))
    × (front ≡ [] → three ≡ [])
unfolding line_of written
read_events-written_example =
    read_events-written parse text text_IsInner parses (7 ∷ 10 ∷ []) (123 ∷ []) three
      (omega arith, (omega arith, (omega arith, tt))) refl (omega arith)

emitted : emit_event text false (7 ∷ 10 ∷ []) ≡ ok (7 ∷ 10 ∷ 123 ∷ 32 ∷ 125 ∷ 10 ∷ [])
unfolding emit_event line_of
emitted = refl

emit_event-read_events_example :
    read_events parse (some (7 ∷ 10 ∷ 123 ∷ 32 ∷ 125 ∷ 10 ∷ [])) 2 ≡ ok (false ∷ [], 6)
emit_event-read_events_example =
    emit_event-read_events parse text text_IsInner parses false (7 ∷ 10 ∷ [])
      (7 ∷ 10 ∷ 123 ∷ 32 ∷ 125 ∷ 10 ∷ []) emitted

-- The callback notes the events that it gets, and takes no third one.
abbrev noted : Bool → Action (List Bool) (Unit {0})
noted e s = if length s == 2 then (raise value_error, s) else (ok tt, s ++ (e ∷ []))
