-- ===== src/Journal/Lines.antt =====
-- What an append does to the lines of a file.
use anolis.Base.{
  ℕ, zero, suc, ◌<◌, ◌≤◌, ◌≡◌, ◌⊎◌, refl, sym, ap, ◌∙◌, true, false, List, [], ◌∷◌, ◌++◌,
  if◌then◌else◌, eqb, take, length, Text, All, arith, inl, inr, Bool-cases, append_nil, leb,
  take-append, take_nil,
}
use anolis.Journal.Files.{add_to_first, lines, ends_without_newline, appended}

abbrev pub IsOneLine : Text → Type 0
IsOneLine s = All (λ c. eqb c 10 ≡ false) s

separator : Text → Text
unfolding ends_without_newline
separator file = if ends_without_newline file then 10 ∷ [] else []

lines-line : (line rest : Text) → IsOneLine line → lines (line ++ 10 ∷ rest) ≡ line ∷ lines rest
unfolding lines
lines-line [] rest h = refl
lines-line (x ∷ line) rest h = rw (h.0, lines-line line rest h.1) refl

-- A line that is not ended yet.
lines_torn : (x : ℕ) (line : Text) → IsOneLine (x ∷ line) → lines (x ∷ line) ≡ (x ∷ line) ∷ []
unfolding lines
lines_torn x [] h = rw h.0 refl
lines_torn x (y ∷ line) h = rw (h.0, lines_torn y line h.1) refl

line-step : (x : ℕ) (t : Text) → eqb x 10 ≡ true → lines (x ∷ t) ≡ [] ∷ lines t
unfolding lines
line-step x t h = rw h refl

letter-step : (x : ℕ) (t : Text) → eqb x 10 ≡ false → lines (x ∷ t) ≡ add_to_first x (lines t)
unfolding lines
letter-step x t h = rw h refl

lines_given : (y : ℕ) (s : Text) → (l : Text) × ((ls : List Text) × (lines (y ∷ s) ≡ l ∷ ls))
unfolding lines
lines_given y s = elim (Bool-cases (eqb y 10)) [
  | inl newline ↦ ([], (lines s, ground (arith, newline)))
  | inr inside ↦ added (lines s) (letter-step y s inside)
]
  where
    added :
        (ls : List Text)
        → lines (y ∷ s) ≡ add_to_first y ls
        → (l : Text) × ((rest : List Text) × (lines (y ∷ s) ≡ l ∷ rest))
    added [] e = (y ∷ [], ([], e))
    added (l ∷ ls) e = (y ∷ l, (ls, e))

add-append :
    (x : ℕ) (t : Text) (ms : List Text)
    → (l : Text) × ((ls : List Text) × (lines t ≡ l ∷ ls))
    → add_to_first x (lines t ++ ms) ≡ add_to_first x (lines t) ++ ms
add-append x t ms (l, (ls, e)) = rw e refl

-- What follows a whole or a torn line, after the newline that the latter needs.
lines-append :
    (file rest : Text) → lines (file ++ (separator file ++ rest)) ≡ lines file ++ lines rest
unfolding lines separator ends_without_newline
lines-append [] rest = refl
lines-append (x ∷ []) rest = ground arith
lines-append (x ∷ y ∷ s) rest = elim (Bool-cases (eqb x 10)) [
  | inl newline ↦
      line-step x ((y ∷ s) ++ (separator (y ∷ s) ++ rest)) newline
      ∙ ap (λ ls. [] ∷ ls) (lines-append (y ∷ s) rest)
      ∙ ap (λ ls. ls ++ lines rest) (sym (line-step x (y ∷ s) newline))
  | inr inside ↦
      letter-step x ((y ∷ s) ++ (separator (y ∷ s) ++ rest)) inside
      ∙ ap (add_to_first x) (lines-append (y ∷ s) rest)
      ∙ add-append x (y ∷ s) (lines rest) (lines_given y s)
      ∙ ap (λ ls. ls ++ lines rest) (sym (letter-step x (y ∷ s) inside))
]

-- The bytes of an append, and what a part of them adds.
pub lines-appended :
    (file line : Text)
    → IsOneLine line
    → lines (file ++ appended file line) ≡ lines file ++ line ∷ []
unfolding appended separator lines
lines-appended file line h =
    lines-append file (line ++ 10 ∷ []) ∙ ap (λ ls. lines file ++ ls) (lines-line line [] h)

take-separator :
    (n : ℕ) (file t : Text)
    → (take n (separator file ++ t) ≡ [])
      ⊎ ((m : ℕ) × (take n (separator file ++ t) ≡ separator file ++ take m t))
unfolding separator
take-separator n file t = elim (Bool-cases (ends_without_newline file)) [
  | inr whole ↦ inr (n, ground (arith, whole))
  | inl torn ↦ torn_case n torn
]
  where
    torn_case :
        (k : ℕ)
        → ends_without_newline file ≡ true
        → (take k (separator file ++ t) ≡ [])
          ⊎ ((m : ℕ) × (take k (separator file ++ t) ≡ separator file ++ take m t))
    torn_case zero torn = inl refl
    torn_case (suc m) torn = inr (m, ground (arith, torn))

IsOneLine-take : (k : ℕ) (s : Text) → IsOneLine s → IsOneLine (take k s)
IsOneLine-take zero s h = tt
IsOneLine-take (suc k) [] h = tt
IsOneLine-take (suc k) (x ∷ s) h = (h.0, IsOneLine-take k s h.1)

pub take_all : (s : Text) → take (length s) s ≡ s
take_all [] = refl
take_all (x ∷ s) = ap (λ t. x ∷ t) (take_all s)

take_past : (m : ℕ) (s : Text) → length s < m → take m (s ++ 10 ∷ []) ≡ s ++ 10 ∷ []
take_past zero s h = absurd (omega arith)
take_past (suc m) [] h = ap (λ t. 10 ∷ t) (take_nil m)
take_past (suc m) (x ∷ s) h = ap (λ t. x ∷ t) (take_past m s (omega arith))

lines_part : (s : Text) → IsOneLine s → (lines s ≡ []) ⊎ (lines s ≡ s ∷ [])
unfolding lines
lines_part [] h = inl refl
lines_part (x ∷ s) h = inr (lines_torn x s h)

lines-piece :
    (m : ℕ) (line : Text)
    → IsOneLine line
    → (lines (take m (line ++ 10 ∷ [])) ≡ [])
      ⊎ ((k : ℕ) × ((k ≤ length line) × (lines (take m (line ++ 10 ∷ [])) ≡ take k line ∷ [])))
unfolding lines
lines-piece m line h = elim (Bool-cases (leb m (length line))) [
  | inl inside ↦
      let e = take-append m line (10 ∷ []) (ground (arith, inside)) in
      elim (lines_part (take m line) (IsOneLine-take m line h)) [
        | inl nothing ↦ inl (ap lines e ∙ nothing)
        | inr part ↦ inr (m, (ground (arith, inside), ap lines e ∙ part))
      ]
  | inr past ↦ inr (
    length line,
    (
      omega arith,
      ap lines (take_past m line (ground (arith, past)))
          ∙ lines-line line [] h
          ∙ lines_nil (take (length line) line) line (take_all line),
    ),
  )
]
  where
    lines_nil : (a b : Text) → a ≡ b → b ∷ lines [] ≡ a ∷ []
    lines_nil a b e = ap (λ t. t ∷ []) (sym e)

-- A part of an append adds nothing to the lines, or one line that is the start of the record.
pub lines-cut :
    (file line : Text) (n : ℕ)
    → IsOneLine line
    → (lines (file ++ take n (appended file line)) ≡ lines file)
      ⊎ ((k : ℕ) × ((k ≤ length line)
            × (lines (file ++ take n (appended file line)) ≡ lines file ++ take k line ∷ [])))
unfolding appended separator
lines-cut file line n h = elim (take-separator n file (line ++ 10 ∷ [])) [
  | inl nothing ↦ inl (ap (λ t. lines (file ++ t)) nothing ∙ ap lines (append_nil file))
  | inr (m, e) ↦
      let whole = ap (λ t. lines (file ++ t)) e ∙ lines-append file (take m (line ++ 10 ∷ [])) in
      elim (lines-piece m line h) [
        | inl nothing ↦ inl (whole ∙ ap (λ ls. lines file ++ ls) nothing ∙ append_nil (lines file))
        | inr (k, (le, part)) ↦ inr (k, (le, whole ∙ ap (λ ls. lines file ++ ls) part))
      ]
]
