-- ===== src/Json.antt =====
-- ValidateIsJson of src/RapidJsonUtil.hpp. A text is the list of its bytes.
pub mod Balance
use mofka.Prelude.{
  ◌==◌, if◌then◌else◌, Bytes, ℕ, Bool, true, false, not, ◌&&◌, ◌||◌, Option, none, some, List, [],
  ◌∷◌,
}

-- The variables of the loop; the top of the stack is the head.
pub record Scan : Type 0 where
  pub brackets : List ℕ
  pub inside_string : Bool
  pub escaped : Bool

-- A closing bracket against the stack; `none` is `return false`.
close : ℕ → List ℕ → Option (List ℕ)
close c [] = none
close c (top ∷ rest) =
    if (c == b'}' && not (top == b'{')) || (c == b']' && not (top == b'[')) then none else some rest

-- What a character that is not escaped does.
scan_char : ℕ → Scan → Option Scan
unfolding close
scan_char c s =
    if c == b'"'
    then some (record s { inside_string = not s.inside_string })
    else if s.inside_string
    then some s
    else if c == b'{' || c == b'['
    then some (record s { brackets = c ∷ s.brackets })
    else if c == b'}' || c == b']'
    then elim (close c s.brackets) [ none ↦ none | some rest ↦ some (record s { brackets = rest }) ]
    else some s

-- One round of the loop.
scan_step : ℕ → Scan → Option Scan
unfolding scan_char
scan_step c s = elim (if s.escaped then some s else scan_char c s) [
  | none ↦ none
  | some s' ↦ some (record s' { escaped = if c == b'\\' then not s.escaped else false })
]

is_empty : List ℕ → Bool
is_empty [] = true
is_empty (b ∷ bs) = false

scan : Bytes → Scan → Bool
unfolding scan_step is_empty
scan [] s = is_empty s.brackets
scan (c ∷ cs) s = elim (scan_step c s) [ none ↦ false | some s' ↦ scan cs s' ]

unfoldable pub validate_is_json : Bytes → Bool
unfolding scan
validate_is_json json = scan json (record { brackets = []; inside_string = false; escaped = false })
