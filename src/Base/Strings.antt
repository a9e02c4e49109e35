-- ===== src/Base/Strings.antt =====
-- Texts as lists of code points, with the `str` and `char` methods that the source calls.
use Prim.Native.Nat.{ℕ, ◌+◌, ◌-◌, ◌*◌, ◌<◌}
use mathlib.Core.Option.{Option, none, some}
use Prim.Native.Char.{code}
use Prim.Native.String.{String}
use mathlib.Core.Path.{◌≡◌, refl}
use mathlib.Core.Bool.{Bool, true, false, ◌&&◌, ◌||◌}
use mathlib.Core.Logic.{◌↔◌}
use mathlib.Core.List.{List, [], ◌∷◌, map}
use native.Mathlib.Omega.{arith}
use drovr.Base.Tests.{ltb, leb, if◌then◌else◌, PartialEq, ◌==◌, nat_eq}
use drovr.Base.Lists.{is_empty}

abbrev pub Text : Type 0
Text = List ℕ

-- The code points of a literal.
abbrev pub codes : String → Text
codes String.[] = []
codes (String.◌∷◌ c s) = code c ∷ codes s

unfoldable pub text_beq : Text → Text → Bool
text_beq [] [] = true
text_beq [] (d ∷ t) = false
text_beq (c ∷ s) [] = false
text_beq (c ∷ s) (d ∷ t) = (c == d) && text_beq s t

text_beq_sound : (s t : Text) → text_beq s t ≡ true → s ≡ t
unfolding text_beq
text_beq_sound [] [] h = refl
text_beq_sound [] (d ∷ t) h = cc
text_beq_sound (c ∷ s) [] h = cc
text_beq_sound (c ∷ s) (d ∷ t) h = ground (arith, text_beq_sound s t)

text_beq_refl : (s : Text) → text_beq s s ≡ true
unfolding text_beq
text_beq_refl [] = refl
text_beq_refl (c ∷ s) = ground (arith, text_beq_refl s)

pub text_beq_iff : (s t : Text) → (text_beq s t ≡ true) ↔ (s ≡ t)
text_beq_iff s t = (text_beq_sound s t, λ e. rw e (text_beq_refl t))

instance abbrev pub text_eq : PartialEq Text
text_eq = record { eq = text_beq; eq_iff = text_beq_iff }

-- `char::is_whitespace`: the code points with the property White_Space.
unfoldable pub is_whitespace : ℕ → Bool
is_whitespace c =
    (leb 9 c && leb c 13)
    || (c == 32)
    || (c == 0x85)
    || (c == 0xA0)
    || (c == 0x1680)
    || (leb 0x2000 c && leb c 0x200A)
    || (c == 0x2028)
    || (c == 0x2029)
    || (c == 0x202F)
    || (c == 0x205F)
    || (c == 0x3000)

-- `char::is_ascii_alphanumeric`
unfoldable pub is_ascii_alphanumeric : ℕ → Bool
is_ascii_alphanumeric c =
    (leb b'0' c && leb c b'9') || (leb b'A' c && leb c b'Z') || (leb b'a' c && leb c b'z')

-- `str::len`: the bytes of the UTF-8 encoding.
unfoldable pub utf8_len : Text → ℕ
utf8_len [] = 0
utf8_len (c ∷ s) =
    (if ltb c 0x80 then 1 else if ltb c 0x800 then 2 else if ltb c 0x10000 then 3 else 4)
    + utf8_len s

-- `char::to_ascii_lowercase` and `str::eq_ignore_ascii_case`
unfoldable pub to_ascii_lowercase : ℕ → ℕ
to_ascii_lowercase c = if leb b'A' c && leb c b'Z' then c + 32 else c

unfoldable pub eq_ignore_ascii_case : Text → Text → Bool
unfolding to_ascii_lowercase
eq_ignore_ascii_case s t = text_beq (map to_ascii_lowercase s) (map to_ascii_lowercase t)

-- `str::trim_start` by a test on characters
unfoldable pub trim_start_by : (ℕ → Bool) → Text → Text
trim_start_by p [] = []
trim_start_by p (c ∷ s) = let rest = trim_start_by p s in if p c then rest else c ∷ s

-- `str::trim_end`
unfoldable pub trim_end_by : (ℕ → Bool) → Text → Text
trim_end_by p [] = []
trim_end_by p (c ∷ s) = let rest = trim_end_by p s in if is_empty rest && p c then [] else c ∷ rest

-- `str::trim` and `str::trim_matches`
unfoldable pub trim_by : (ℕ → Bool) → Text → Text
unfolding trim_start_by trim_end_by
trim_by p s = trim_end_by p (trim_start_by p s)

unfoldable pub trim : Text → Text
unfolding trim_by is_whitespace
trim s = trim_by is_whitespace s

unfoldable pub trim_end : Text → Text
unfolding trim_end_by is_whitespace
trim_end s = trim_end_by is_whitespace s

-- `str::starts_with`
unfoldable pub starts_with : Text → Text → Bool
starts_with s [] = true
starts_with [] (d ∷ t) = false
starts_with (c ∷ s) (d ∷ t) = (c == d) && starts_with s t

-- `str::contains` of a text
unfoldable pub contains_text : Text → Text → Bool
unfolding starts_with
contains_text [] t = starts_with [] t
contains_text (c ∷ s) t = starts_with (c ∷ s) t || contains_text s t

-- `str::lines`, which takes off "\n" or "\r\n" at the end of each line
abbrev cons_first : ℕ → List Text → List Text
cons_first c [] = (c ∷ []) ∷ []
cons_first c (line ∷ lines) = (c ∷ line) ∷ lines

unfoldable pub lines : Text → List Text
unfolding starts_with
lines [] = []
lines (c ∷ s) =
    let rest = lines s in
    if c == b'\n'
    then [] ∷ rest
    else if (c == b'\r') && starts_with s (b'\n' ∷ [])
    then rest
    else cons_first c rest

-- `str::strip_prefix`
unfoldable pub strip_prefix : Text → Text → Option Text
strip_prefix s [] = some s
strip_prefix [] (d ∷ t) = none
strip_prefix (c ∷ s) (d ∷ t) = let rest = strip_prefix s t in if c == d then rest else none

-- `str::split_once` at a character
abbrev cons_part : ℕ → Option (Text × Text) → Option (Text × Text)
cons_part c none = none
cons_part c (some (before, after)) = some (c ∷ before, after)

unfoldable pub split_once : ℕ → Text → Option (Text × Text)
split_once at [] = none
split_once at (c ∷ s) =
    let rest = split_once at s in if c == at then some ([], s) else cons_part c rest

-- `str::parse` of an unsigned number below a bound: a sign `+` is taken, and a digit must follow.
unfoldable pub parse_digits : ℕ → Text → Option ℕ
parse_digits v [] = some v
parse_digits v (c ∷ s) =
    let rest = parse_digits (v * 10 + (c - b'0')) s in
    if leb b'0' c && leb c b'9' then rest else none

abbrev below : ℕ → Option ℕ → Option ℕ
below bound none = none
below bound (some n) = if ltb n bound then some n else none

unfoldable pub parse_unsigned : ℕ → Text → Option ℕ
unfolding parse_digits
parse_unsigned bound [] = none
parse_unsigned bound (c ∷ s) =
    if c == b'+'
    then (if is_empty s then none else below bound (parse_digits 0 s))
    else below bound (parse_digits 0 (c ∷ s))

below_small : (bound n : ℕ) (o : Option ℕ) → below bound o ≡ some n → n < bound
below_small bound n none h = cc
below_small bound n (some k) h = ground (arith, h)

pub parse_unsigned_small : (bound n : ℕ) (s : Text) → parse_unsigned bound s ≡ some n → n < bound
unfolding parse_unsigned
parse_unsigned_small bound n [] h = cc
parse_unsigned_small bound n (c ∷ s) h = signed (c == b'+') (is_empty s) h
  where
    signed :
        (b d : Bool)
        → (if b
            then (if d then none else below bound (parse_digits 0 s))
            else below bound (parse_digits 0 (c ∷ s)))
          ≡ some n
        → n < bound
    signed true true k = cc
    signed true false k = below_small bound n (parse_digits 0 s) k
    signed false d k = below_small bound n (parse_digits 0 (c ∷ s)) k
