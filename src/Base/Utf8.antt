-- ===== src/Base/Utf8.antt =====
-- `str::as_bytes` and `String::from_utf8`.
use Prim.Native.Nat.{ℕ, zero, suc, ◌+◌, ◌-◌, ◌*◌, ◌/◌, ◌%◌}
use mathlib.Core.Bool.{◌&&◌}
use mathlib.Core.Option.{Option, none, some}
use mathlib.Core.List.{List, [], ◌∷◌, ◌++◌}
use drovr.Base.Tests.{ltb, leb, if◌then◌else◌, ◌==◌, nat_eq}
use drovr.Base.Strings.{Text}

abbrev char_bytes : ℕ → List ℕ
char_bytes c =
    if ltb c 0x80
    then c ∷ []
    else if ltb c 0x800
    then (0xC0 + c / 64) ∷ (0x80 + c % 64) ∷ []
    else if ltb c 0x10000
    then (0xE0 + c / 4096) ∷ (0x80 + c / 64 % 64) ∷ (0x80 + c % 64) ∷ []
    else (0xF0 + c / 262144) ∷ (0x80 + c / 4096 % 64) ∷ (0x80 + c / 64 % 64) ∷ (0x80 + c % 64) ∷ []

unfoldable pub as_bytes : Text → List ℕ
as_bytes [] = []
as_bytes (c ∷ s) = char_bytes c ++ as_bytes s

-- The bytes that are missing from a character, the bounds of the next, and the bits so far.
record Partial : Type 0 where
  need : ℕ
  low : ℕ
  high : ℕ
  bits : ℕ

abbrev of_lead : ℕ → ℕ → ℕ → ℕ → Option Partial
of_lead need low high bits = some (record { need = need; low = low; high = high; bits = bits })

abbrev lead : ℕ → Option Partial
lead b =
    if ltb b 0x80
    then of_lead 0 0 0 b
    else if leb 0xC2 b && leb b 0xDF
    then of_lead 1 0x80 0xBF (b - 0xC0)
    else if b == 0xE0
    then of_lead 2 0xA0 0xBF 0
    else if b == 0xED
    then of_lead 2 0x80 0x9F 13
    else if leb 0xE1 b && leb b 0xEF
    then of_lead 2 0x80 0xBF (b - 0xE0)
    else if b == 0xF0
    then of_lead 3 0x90 0xBF 0
    else if leb 0xF1 b && leb b 0xF3
    then of_lead 3 0x80 0xBF (b - 0xF0)
    else if b == 0xF4
    then of_lead 3 0x80 0x8F 4
    else none

abbrev continued : Partial → ℕ → ℕ → Option Partial
continued p need b =
    if leb p.low b && leb b p.high then of_lead need 0x80 0xBF (p.bits * 64 + (b - 0x80)) else none

abbrev advance : Partial → ℕ → ℕ → Option Partial
advance p zero b = lead b
advance p (suc need) b = continued p need b

abbrev emit : ℕ → ℕ → Option Text → Option Text
emit need bits none = none
emit zero bits (some s) = some (bits ∷ s)
emit (suc need) bits (some s) = some s

unfoldable decode : Partial → List ℕ → Option Text
decode p [] = if p.need == 0 then some [] else none
decode p (b ∷ bs) = elim (advance p p.need b) [
  | none ↦ none
  | some q ↦ emit q.need q.bits (decode q bs)
]

unfoldable pub from_utf8 : List ℕ → Option Text
unfolding decode
from_utf8 bs = decode (record { need = 0; low = 0; high = 0; bits = 0 }) bs
