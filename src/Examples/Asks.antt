-- ===== src/Examples/Asks.antt =====
-- The theorems on the interview's log, applied to a log of one question.
use drovr.Base.{ℕ, Text, [], ◌∷◌, ◌≡◌, refl, codes, All, some, none, text_beq, Option}
use drovr.Errors.{ok}
use drovr.Interview.{Value, Members, Ask}
use drovr.Interview.Log.{ask_object, read}
use drovr.Interview.Log.Sound.{IsSound, read-IsSound}

abbrev which : Ask
which = record {
  id = codes "ask-0";
  seq = 0;
  question = codes "which?";
  context = none;
  options = record { value = codes "a"; label = codes "A" } ∷ [];
  recommend = some (codes "a");
  answer = none;
  answered_at = none;
}

-- A parser and a printer that know one object.
abbrev parses : Text → Option Value
parses t = some (Value.object (ask_object which))

abbrev prints : Members → Text
prints o = codes "{}"

abbrev digits : ℕ → Text
digits n = codes "0"

reads_one : read parses (codes "{}\n") ≡ ok (which ∷ [])
unfolding read ask_object text_beq
reads_one = refl

read-IsSound_example : All IsSound (which ∷ [])
read-IsSound_example = read-IsSound parses (codes "{}\n") (which ∷ []) reads_one
