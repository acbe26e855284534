-- ===== src/Json/Balance.antt =====
-- ValidateIsJson accepts exactly the texts whose brackets, strings left out, are balanced.
use mofka.Prelude.{
  All, ◌==◌, if◌then◌else◌, Bool-cases, Bytes, ℕ, ◌≡◌, refl, sym, ap, ◌∙◌, subst, ◌≢◌, ◌↔◌, ◌⊎◌,
  inl, inr, Bool, true, false, not, ◌||◌, none, some, List, [], ◌∷◌, ◌++◌, append-nil, append_assoc,
  arith,
}
use mofka.Json.{close, is_empty, scan, validate_is_json}

-- The text without its escapes: each backslash is dropped with the character behind it.
unfoldable pub strip_escapes : Bytes → Bytes
strip_escapes [] = []
strip_escapes (c ∷ []) = if c == b'\\' then [] else c ∷ []
strip_escapes (c ∷ d ∷ cs) =
    let behind = strip_escapes cs in
    let rest = strip_escapes (d ∷ cs) in if c == b'\\' then behind else c ∷ rest

-- What stands outside of the quotes.
unfoldable pub outside : (quoted : Bool) → Bytes → Bytes
outside quoted [] = []
outside quoted (c ∷ cs) =
    let turned = outside (not quoted) cs in
    let rest = outside quoted cs in if c == b'"' then turned else if quoted then rest else c ∷ rest

unfoldable pub only_brackets : Bytes → Bytes
only_brackets [] = []
only_brackets (c ∷ cs) =
    let rest = only_brackets cs in
    if c == b'{' || (c == b'[' || (c == b'}' || c == b']')) then c ∷ rest else rest

-- The brackets of a text, escapes and strings left out.
unfoldable pub brackets_of : Bytes → Bytes
unfolding strip_escapes outside only_brackets
brackets_of text = only_brackets (outside false (strip_escapes text))

-- The brackets that the scan looks at.
visible : Bytes → (inside_string escaped : Bool) → Bytes
visible [] inside escaped = []
visible (c ∷ cs) inside escaped =
    let escaped' = if c == b'\\' then not escaped else false in
    let inside' = if escaped then inside else if c == b'"' then not inside else inside in
    let rest = visible cs inside' escaped' in
    if escaped || inside
    then rest
    else if c == b'{' || (c == b'[' || (c == b'}' || c == b']'))
    then c ∷ rest
    else rest

visible_lem :
    (cs : Bytes) (inside : Bool)
    → visible cs inside false ≡ only_brackets (outside inside (strip_escapes cs))
unfolding visible strip_escapes outside only_brackets
visible_lem [] inside = refl
visible_lem (c ∷ []) inside = ground arith
visible_lem (c ∷ d ∷ cs) inside =
    ground
      (arith, visible_lem cs inside, visible_lem (d ∷ cs) inside, visible_lem (d ∷ cs) (not inside))

abbrev pub Pair : ℕ → ℕ → Type 0
Pair o c = ((o ≡ b'{') × (c ≡ b'}')) ⊎ ((o ≡ b'[') × (c ≡ b']'))

-- Words of properly nested brackets.
pub data Balanced : Bytes → Type 0 where
  blank : Balanced []
  group :
      {o c : ℕ} {u v : Bytes} → Pair o c → Balanced u → Balanced v → Balanced (o ∷ (u ++ (c ∷ v)))

-- A word that closes the brackets of a stack.
data Closes : List ℕ → Bytes → Type 0 where
  done : (w : Bytes) → Balanced w → Closes [] w
  next :
      (o c : ℕ) (st : List ℕ) (u v : Bytes)
      → Pair o c
      → Balanced u
      → Closes st v
      → Closes (o ∷ st) (u ++ (c ∷ v))

-- The scan of a word of brackets.
check : Bytes → List ℕ → Bool
check [] st = is_empty st
check (c ∷ cs) st =
    if c == b'{' || c == b'['
    then check cs (c ∷ st)
    else elim (close c st) [ none ↦ false | some st' ↦ check cs st' ]

check-close : (o c : ℕ) (w : Bytes) (st : List ℕ) → Pair o c → check (c ∷ w) (o ∷ st) ≡ check w st
unfolding check close
check-close o c w st (inl (e, f)) = ground arith
check-close o c w st (inr (e, f)) = ground arith

check-open : (o c : ℕ) (w : Bytes) (st : List ℕ) → Pair o c → check (o ∷ w) st ≡ check w (o ∷ st)
unfolding check close
check-open o c w st (inl (e, f)) = ground arith
check-open o c w st (inr (e, f)) = ground arith

check-Balanced : (u w : Bytes) (st : List ℕ) → Balanced u → check (u ++ w) st ≡ check w st
check-Balanced u w st blank = refl
check-Balanced u w st (group {o} {c} {u = u₁} {v} p b d) = rw (append_assoc u₁ (c ∷ v) w) (
    check-open o c (u₁ ++ (c ∷ (v ++ w))) st p
    ∙ check-Balanced u₁ (c ∷ (v ++ w)) (o ∷ st) b
    ∙ check-close o c (v ++ w) st p
    ∙ check-Balanced v w st d)

-- A balanced word is accepted.
check_complete : (w : Bytes) → Balanced w → check w [] ≡ true
unfolding check is_empty
check_complete w b = ap (λ u. check u []) (sym (append-nil w)) ∙ check-Balanced w [] [] b

wrap :
    (o c : ℕ) (st : List ℕ) (u v : Bytes)
    → Pair o c
    → Balanced u
    → Closes st v
    → Closes st (o ∷ (u ++ (c ∷ v)))
wrap o c st u v p b (done w d) = done _ (group p b d)
wrap o c st u v p b (next o' c' st' u' v' q b' k) =
    subst (λ w. Closes (o' ∷ st') (o ∷ w)) (append_assoc u (c ∷ u') (c' ∷ v'))
      (next o' c' st' (o ∷ (u ++ (c ∷ u'))) v' q (group p b b') k)

abbrev is_open : ℕ → Bool
is_open c = c == b'{' || c == b'['

abbrev IsBracket : ℕ → Type 0
IsBracket c = (is_open c ≡ true) ⊎ ((c == b'}' || c == b']') ≡ true)

Closes-open : (c : ℕ) (st : List ℕ) (w : Bytes) → Closes (c ∷ st) w → Closes st (c ∷ w)
Closes-open c st w (next o c' st' u v p b k) = wrap o c' st' u v p b k

close_empty : (c : ℕ) → close c [] ≡ none
unfolding close
close_empty c = refl

close-Pair :
    (c o : ℕ) (st : List ℕ)
    → is_open o ≡ true
    → (c == b'}' || c == b']') ≡ true
    → close c (o ∷ st) ≢ none
    → (close c (o ∷ st) ≡ some st) × Pair o c
unfolding close
close-Pair c o st h k n = (ground arith, ground arith)

check_sound :
    (w : Bytes) (st : List ℕ)
    → All IsBracket w
    → All (λ o. is_open o ≡ true) st
    → check w st ≡ true
    → Closes st w
unfolding check is_empty
check_sound [] [] a d h = done [] blank
check_sound [] (o ∷ st) a d h = cc
check_sound (c ∷ w) [] a d h = elim (Bool-cases (is_open c)) [
  | inl opens ↦ Closes-open c [] w (check_sound w (c ∷ []) a.1 (opens, tt) (ground arith))
  | inr shuts ↦ absurd (ground (arith, close_empty c))
]
check_sound (c ∷ w) (o ∷ st) a d h = elim (Bool-cases (is_open c)) [
  | inl opens ↦ Closes-open c (o ∷ st) w (check_sound w (c ∷ o ∷ st) a.1 (opens, d) (ground arith))
  | inr shuts ↦
      let closed = close-Pair c o st d.0 (ground arith) (ground arith) in
      next o c st [] w closed.1 blank (check_sound w st a.1 d.1 (ground (arith, closed.0)))
]

scan-check :
    (cs : Bytes) (st : List ℕ) (inside escaped : Bool)
    → scan cs (record { brackets = st; inside_string = inside; escaped = escaped })
      ≡ check (visible cs inside escaped) st
unfolding scan check visible
scan-check [] st inside escaped = refl
scan-check (c ∷ cs) [] inside escaped = ground (
  arith,
  scan-check cs [] inside false,
  scan-check cs [] inside true,
  scan-check cs [] (not inside) false,
  scan-check cs (c ∷ []) false false,
)
scan-check (c ∷ cs) (o ∷ st) inside escaped = ground (
  arith,
  scan-check cs (o ∷ st) inside false,
  scan-check cs (o ∷ st) inside true,
  scan-check cs (o ∷ st) (not inside) false,
  scan-check cs (c ∷ o ∷ st) false false,
  scan-check cs st false false,
)

visible-IsBracket : (cs : Bytes) (inside escaped : Bool) → All IsBracket (visible cs inside escaped)
unfolding visible
visible-IsBracket [] inside escaped = tt
visible-IsBracket (c ∷ cs) inside escaped = ground (
  arith,
  visible-IsBracket cs inside false,
  visible-IsBracket cs inside true,
  visible-IsBracket cs (not inside) false,
)

Closes-Balanced : {w : Bytes} → Closes [] w → Balanced w
Closes-Balanced (done w b) = b

-- ValidateIsJson accepts a text exactly when its brackets nest properly, after each backslash, also one
-- outside of a string, is left out with the character behind it, and then everything between quotes.
pub validate_is_json-Balanced :
    (text : Bytes) → (validate_is_json text ≡ true) ↔ Balanced (brackets_of text)
unfolding validate_is_json brackets_of
validate_is_json-Balanced text =
    let same = scan-check text [] false false in
    let seen = visible_lem text false in
    (
      (λ h. subst Balanced seen (
          Closes-Balanced (
            check_sound (visible text false false) [] (visible-IsBracket text false false) tt
              (sym same ∙ h)))),
      (λ b. same ∙ check_complete (visible text false false) (subst Balanced (sym seen) b)),
    )
