-- ===== src/Interview/Log/Lines.antt =====
-- The lines of a log that is appended to, and of one that ends within a line (`str::lines` as `read`
-- uses it, and `append_line`, of cli/src/interview.rs).
use drovr.Base.{
  false, ℕ, ◌+◌, ◌≡◌, ◌≢◌, refl, sym, ap, ◌∙◌, ◌⊎◌, inl, inr, Text, List, [], ◌∷◌, ◌++◌, All, ◌==◌,
  ◌&&◌, nat_eq, lines, starts_with, utf8_len, arith, Bool-cases,
}

-- A text that lies within a line, and a log whose last line is ended.
abbrev pub IsLine : Text → Type 0
IsLine line = All (λ c. (c ≢ b'\n') × (c ≢ b'\r')) line

abbrev pub IsWhole : Text → Type 0
IsWhole log = (log ≡ []) ⊎ ((front : Text) × (log ≡ front ++ (b'\n' ∷ [])))

pub utf8_len-append : (s t : Text) → utf8_len (s ++ t) ≡ utf8_len s + utf8_len t
unfolding utf8_len
utf8_len-append [] t = ground arith
utf8_len-append (c ∷ s) t = ground (arith, utf8_len-append s t)

not_same : (c d : ℕ) → c ≢ d → (c == d) ≡ false
not_same c d h = elim (Bool-cases (c == d)) [ inl e ↦ absurd (h (ground (arith, e))) | inr e ↦ e ]

-- One line is the text before its line feed.
lines-line : (line : Text) → IsLine line → lines (line ++ (b'\n' ∷ [])) ≡ line ∷ []
unfolding lines
lines-line [] h = refl
lines-line (c ∷ line) ((n, r), h) =
    rw (lines, not_same c b'\n' n, not_same c b'\r' r, lines-line line h) refl

starts-ended :
    (front rest : Text)
    → starts_with (front ++ (b'\n' ∷ rest)) (b'\n' ∷ [])
      ≡ starts_with (front ++ (b'\n' ∷ [])) (b'\n' ∷ [])
unfolding starts_with
starts-ended [] rest = refl
starts-ended (c ∷ front) rest = refl

some_line :
    (front : Text) → (l : Text) × (ls : List Text) × (lines (front ++ (b'\n' ∷ [])) ≡ l ∷ ls)
unfolding lines
some_line [] = ([], [], refl)
some_line (c ∷ front) =
    let (l, ls, e) = some_line front in
    elim (Bool-cases (c == b'\n')) [
      | inl n ↦ ([], lines (front ++ (b'\n' ∷ [])), rw (lines, n) refl)
      | inr n ↦
          elim (Bool-cases ((c == b'\r') && starts_with (front ++ (b'\n' ∷ [])) (b'\n' ∷ []))) [
            | inl r ↦ (l, ls, rw (lines, n, r) e)
            | inr r ↦ (c ∷ l, ls, rw (lines, n, r, e) refl)
          ]
    ]

lines-ended :
    (front rest : Text)
    → lines (front ++ (b'\n' ∷ rest)) ≡ lines (front ++ (b'\n' ∷ [])) ++ lines rest
unfolding lines
lines-ended [] rest = refl
lines-ended (c ∷ front) rest =
    let (l, ls, e) = some_line front in
    elim (Bool-cases (c == b'\n')) [
      | inl n ↦ rw (lines, n) (ap (λ x. [] ∷ x) (lines-ended front rest))
      | inr n ↦
          elim (Bool-cases ((c == b'\r') && starts_with (front ++ (b'\n' ∷ [])) (b'\n' ∷ []))) [
            | inl r ↦ rw (lines, n, starts-ended front rest, r) (lines-ended front rest)
            | inr r ↦ rw (lines, n, starts-ended front rest, r, lines-ended front rest, e) refl
          ]
    ]

append_assoc : (s t u : Text) → (s ++ t) ++ u ≡ s ++ (t ++ u)
append_assoc [] t u = refl
append_assoc (c ∷ s) t u = ap (λ x. c ∷ x) (append_assoc s t u)

-- What is appended to a log whose last line is ended is one line more.
pub lines-append :
    (log line : Text)
    → IsWhole log
    → IsLine line
    → lines (log ++ (line ++ (b'\n' ∷ []))) ≡ lines log ++ (line ∷ [])
unfolding lines
lines-append log line (inl e) h = rw e (lines-line line h)
lines-append log line (inr (front, e)) h =
    ap (λ s. lines (s ++ (line ++ (b'\n' ∷ [])))) e
    ∙ ap lines (append_assoc front (b'\n' ∷ []) (line ++ (b'\n' ∷ [])))
    ∙ lines-ended front (line ++ (b'\n' ∷ []))
    ∙ ap (λ x. lines (front ++ (b'\n' ∷ [])) ++ x) (lines-line line h)
    ∙ ap (λ s. lines s ++ (line ∷ [])) (sym e)

-- Where the log ends within a line, what is appended goes on with that line.
pub lines-append_torn :
    (front torn line : Text)
    → IsWhole front
    → IsLine (torn ++ line)
    → lines ((front ++ torn) ++ (line ++ (b'\n' ∷ []))) ≡ lines front ++ ((torn ++ line) ∷ [])
lines-append_torn front torn line whole h =
    ap lines (append_assoc front torn (line ++ (b'\n' ∷ [])))
    ∙ ap (λ s. lines (front ++ s)) (sym (append_assoc torn line (b'\n' ∷ [])))
    ∙ lines-append front (torn ++ line) whole h
