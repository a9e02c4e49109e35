-- ===== src/Shell/Words.antt =====
-- A quoted text is read back by a POSIX shell as one word, with its value unchanged.
use drovr.Base.{ℕ, ◌≡◌, refl, ◌∙◌, Text, codes, Bool, true, false, Option, none, some}
use drovr.Base.{
  [], ◌∷◌, ◌++◌, append_assoc, append-nil, ◌==◌, nat_eq, if◌then◌else◌, arith, contains, Bool-cases,
  inl, inr,
}
use drovr.Shell.{escape_quotes, shell_single_quote}

-- Where a reader of a word stands: outside quotes, inside single quotes, after a backslash.
pub data Mode : Type 0 where
  bare quoted escaped : Mode

-- What ends a word outside quotes, and what a shell would expand or act on there.
abbrev pub ends_word : ℕ → Bool
ends_word c = contains (codes " \t\n;&|<>()") c

abbrev pub is_active : ℕ → Bool
is_active c = contains (codes "$`\"*?[#~=%!{}") c

-- One word of a POSIX shell's input: the word's value and the input after it. Nothing is read
-- where the shell would do more than take characters as they stand, or where a quote is open.
unfoldable pub read_word : Mode → Text → Text → Option (Text × Text)
read_word bare [] word = some (word, [])
read_word quoted [] word = none
read_word escaped [] word = none
read_word bare (c ∷ s) word =
    let inside = read_word quoted s word in
    let after = read_word escaped s word in
    let next = read_word bare s (word ++ (c ∷ [])) in
    if c == b'\''
    then inside
    else if c == b'\\'
    then after
    else if ends_word c
    then some (word, c ∷ s)
    else if is_active c
    then none
    else next
read_word quoted (c ∷ s) word =
    let outside = read_word bare s word in
    let next = read_word quoted s (word ++ (c ∷ [])) in if c == b'\'' then outside else next
read_word escaped (c ∷ s) word = read_word bare s (word ++ (c ∷ []))

read_word-escape_quotes :
    (s rest word : Text)
    → read_word quoted (escape_quotes s ++ (codes "'" ++ rest)) word
      ≡ read_word bare rest (word ++ s)
unfolding read_word escape_quotes
read_word-escape_quotes [] rest word = rw append-nil refl
read_word-escape_quotes (c ∷ s) rest word = elim (Bool-cases (c == b'\'')) [
  | inl h ↦
      let quote : c ≡ b'\'' = ground arith in
      rw quote (read_word-escape_quotes s rest (word ++ (b'\'' ∷ [])) ∙ rw append_assoc refl)
  | inr h ↦
      rw (h, read_word, h)
        (read_word-escape_quotes s rest (word ++ (c ∷ [])) ∙ rw append_assoc refl)
]

read_word-bare :
    (c : ℕ) (rest word : Text)
    → ends_word c ≡ true
    → read_word bare (c ∷ rest) word ≡ some (word, c ∷ rest)
unfolding read_word
read_word-bare c rest word h =
    let plain : (c == b'\'') ≡ false = ground arith in
    let slashless : (c == b'\\') ≡ false = ground arith in rw (plain, slashless, h) refl

-- Followed by a blank, a separator or nothing, a quoted text is read as one word whose value is
-- the text itself: none of its characters is taken for the shell's own.
pub read_word-shell_single_quote :
    (s : Text) (c : ℕ) (rest : Text)
    → ends_word c ≡ true
    → (read_word bare (shell_single_quote s) [] ≡ some (s, []))
      × (read_word bare (shell_single_quote s ++ (c ∷ rest)) [] ≡ some (s, c ∷ rest))
unfolding read_word shell_single_quote
read_word-shell_single_quote s c rest h = (
  read_word-escape_quotes s [] [],
  rw append_assoc (read_word-escape_quotes s (c ∷ rest) []) ∙ read_word-bare c rest s h,
)
