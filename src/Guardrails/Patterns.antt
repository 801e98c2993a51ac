-- ===== src/Guardrails/Patterns.antt =====
-- `_INJECTION_PATTERNS` of backend/src/postmortem_backend/guardrails/injection.py, and the part of
-- Python's `re` that they use. A search asks only whether there is a match, so a pattern gives the
-- list of all ends of its matches at a place. A place is the character before it and the text
-- after it. A repetition stands over one class of characters only, so matching is structural.
use mathlib.Core.Bool.{xor}
use mathlib.Core.List.{flat_map}
use ckdb_aws.Base.{
  Bool, List, Option, [], any, false, if◌then◌else◌, leb, nat_eq, none, some, string_eq, true, ℕ,
  ◌&&◌, ◌++◌, ◌+◌, ◌==◌, ◌||◌, ◌∷◌,
}
use ckdb_aws.Domain.{Text, text, text_eq}
use ckdb_aws.Guardrails.Unicode.{Unicode, is_space}

pub data Pattern : Type 0 where
  -- one character of a class
  one : (ℕ → Bool) → Pattern
  -- none or more, and one or more, of a class
  many : (ℕ → Bool) → Pattern
  some_of : (ℕ → Bool) → Pattern
  -- `\b`, and `^` with `(?m)`
  boundary : Pattern
  line_start : Pattern
  empty : Pattern
  then_match : Pattern → Pattern → Pattern
  either : Pattern → Pattern → Pattern

abbrev pub Place : Type 0
Place = Option ℕ × Text

run_class : (ℕ → Bool) → Option ℕ → Text → List Place
run_class test before [] = (before, []) ∷ []
run_class test before (c ∷ s) = (before, c ∷ s) ∷ (if test c then run_class test (some c) s else [])

-- `\w`
abbrev is_word : Unicode → ℕ → Bool
is_word u c = u.is_alnum c || c == b'_'

abbrev word_before : Unicode → Option ℕ → Bool
word_before u none = false
word_before u (some c) = is_word u c

abbrev word_after : Unicode → Text → Bool
word_after u [] = false
word_after u (c ∷ s) = is_word u c

abbrev starts_line : Option ℕ → Bool
starts_line none = true
starts_line (some c) = c == 10

one_char : (ℕ → Bool) → Text → List Place
one_char test [] = []
one_char test (c ∷ s) = if test c then (some c, s) ∷ [] else []

-- The ends of the matches of a pattern from a place.
unfoldable pub ends : Unicode → Pattern → Option ℕ → Text → List Place
unfolding run_class one_char
ends u (one test) before s = one_char test s
ends u (many test) before s = run_class test before s
ends u (some_of test) before s = flat_map (λ (b, r). run_class test b r) (one_char test s)
ends u boundary before s =
    if xor (word_before u before) (word_after u s) then (before, s) ∷ [] else []
ends u line_start before s = if starts_line before then (before, s) ∷ [] else []
ends u empty before s = (before, s) ∷ []
ends u (then_match p q) before s = flat_map (λ (b, r). ends u q b r) (ends u p before s)
ends u (either p q) before s = ends u p before s ++ ends u q before s

-- `pattern.search(text)` from a place on.
search_from : Unicode → Pattern → Option ℕ → Text → Bool
unfolding ends
search_from u p before [] = elim (ends u p before []) [ [] ↦ false | _ ∷ _ ↦ true ]
search_from u p before (c ∷ s) =
    let later = search_from u p (some c) s in
    elim (ends u p before (c ∷ s)) [ [] ↦ later | _ ∷ _ ↦ true ]

unfoldable pub search_text : Unicode → Pattern → Text → Bool
unfolding search_from
search_text u p s = search_from u p none s

-- A letter under `re.IGNORECASE`: both cases, and the characters that Python counts as equal to
-- an ASCII letter.
unfoldable pub letter : ℕ → ℕ → Bool
letter l c =
    c == l
    || ((leb b'a' l && (leb l b'z' && c + 32 == l))
        || ((l == b'i' && (c == 0x130 || c == 0x131))
            || ((l == b's' && c == 0x17f) || (l == b'k' && c == 0x212a))))

-- A literal, given in lower case.
word : Text → Pattern
unfolding letter
word [] = empty
word (c ∷ s) = then_match (one (letter c)) (word s)

-- Patterns in a row, and alternatives.
sequence : List Pattern → Pattern
sequence [] = empty
sequence (p ∷ ps) = then_match p (sequence ps)

choice : Pattern → List Pattern → Pattern
choice p [] = p
choice p (q ∷ ps) = either p (choice q ps)

optional : Pattern → Pattern
optional p = either p empty

spaces : Pattern
unfolding is_space
spaces = some_of is_space

-- `<\s*/?\s*`
tag_open : Pattern
unfolding is_space word optional
tag_open =
    then_match (word (text "<"))
      (then_match (many is_space) (then_match (optional (word (text "/"))) (many is_space)))

-- `[_-]?`
joiner : Pattern
unfolding optional
joiner = optional (one (λ c. c == b'_' || c == b'-'))

unfoldable pub injection_patterns : List Pattern
unfolding word sequence choice optional spaces tag_open joiner is_space
injection_patterns =
    sequence (boundary ∷ word (text "tool_call") ∷ boundary ∷ [])
    ∷ sequence (boundary ∷ word (text "function_call") ∷ boundary ∷ [])
    ∷ sequence (tag_open ∷ word (text "tool") ∷ joiner ∷ word (text "use") ∷ boundary ∷ [])
    ∷ sequence (
        tag_open
        ∷ word (text "function")
        ∷ joiner
        ∷ word (text "call")
        ∷ optional (word (text "s"))
        ∷ boundary
        ∷ [])
    ∷ sequence (
        boundary
        ∷ choice (word (text "remediate_and_record")) (
            word (text "scale_data_tier")
            ∷ word (text "update_incident_state")
            ∷ word (text "record_episode")
            ∷ [])
        ∷ many is_space
        ∷ word (text "(")
        ∷ [])
    ∷ sequence (
        word (text "ignore")
        ∷ spaces
        ∷ optional (then_match (word (text "all")) spaces)
        ∷ choice (word (text "previous")) (word (text "prior") ∷ word (text "above") ∷ [])
        ∷ spaces
        ∷ word (text "instructions")
        ∷ [])
    ∷ sequence (
        word (text "disregard")
        ∷ spaces
        ∷ optional (then_match (word (text "all")) spaces)
        ∷ choice (word (text "previous")) (
            word (text "prior")
            ∷ sequence (word (text "the") ∷ spaces ∷ word (text "above") ∷ [])
            ∷ [])
        ∷ [])
    ∷ sequence
        (word (text "you") ∷ spaces ∷ word (text "are") ∷ spaces ∷ word (text "now") ∷ spaces ∷ [])
    ∷ sequence
        (word (text "new") ∷ spaces ∷ word (text "system") ∷ spaces ∷ word (text "prompt") ∷ [])
    ∷ sequence (
        line_start
        ∷ many is_space
        ∷ choice (word (text "system")) (word (text "assistant") ∷ word (text "developer") ∷ [])
        ∷ many is_space
        ∷ word (text ":")
        ∷ [])
    ∷ sequence (
        tag_open
        ∷ choice (word (text "system")) (word (text "assistant") ∷ word (text "user") ∷ [])
        ∷ many is_space
        ∷ word (text ">")
        ∷ [])
    ∷ sequence (word (text "[") ∷ optional (word (text "/")) ∷ word (text "inst]") ∷ [])
    ∷ sequence (
        word (text "<|")
        ∷ choice (word (text "im_start"))
            (word (text "im_end") ∷ word (text "system") ∷ word (text "assistant") ∷ [])
        ∷ word (text "|>")
        ∷ [])
    ∷ []

-- `contains_tool_call_injection`; no pattern matches the empty text.
unfoldable pub contains_tool_call_injection : Unicode → Text → Bool
contains_tool_call_injection u [] = false
contains_tool_call_injection u (c ∷ s) = any (λ p. search_text u p (c ∷ s)) injection_patterns
