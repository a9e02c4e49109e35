-- ===== src/Interview/Log/Object.antt =====
-- What `append_ask` of cli/src/interview.rs writes for an ask that passed its checks, read again.
use drovr.Base.{
  ℕ, ◌≡◌, refl, Text, text_eq, text_beq, Bool, true, false, not, Option, none, some, List, [], ◌∷◌,
  is_empty, trim, ltb,
}
use drovr.Errors.{ErrorKind, Site, Done, Result, ok, err}
use drovr.Interview.{
  AskOption, Ask, Record, get, opt_str, parse_options, collect_options, check_options,
  recommend_is_offered, parse_ask, record_of, ◌>>=◌ as and_then,
}
use drovr.Interview.Log.{
  check_ask, require, check_field, check_optional, check_option_fields, options_array, ask_object,
  ◌>>=◌, ◌>>◌,
}

collect_options-options_array : (os : List AskOption) → collect_options (options_array os) ≡ some os
unfolding collect_options options_array get text_beq
collect_options-options_array [] = refl
collect_options-options_array (o ∷ os) = rw (collect_options-options_array os) refl

-- An ask without an answer.
abbrev pub asked : Text → ℕ → Text → Option Text → List AskOption → Option Text → Ask
asked id seq question context options recommend = record {
  id = id;
  seq = seq;
  question = question;
  context = context;
  options = options;
  recommend = recommend;
  answer = none;
  answered_at = none;
}

pub record_of-ask_object :
    (id : Text) (seq : ℕ) (question : Text) (context : Option Text) (options : List AskOption)
    (recommend : Option Text)
    → is_empty id ≡ false
    → ltb seq 4294967296 ≡ true
    → check_options options ≡ ok tt
    → recommend_is_offered recommend options ≡ true
    → record_of (ask_object (asked id seq question context options recommend))
      ≡ some (Record.ask (asked id seq question context options recommend))
unfolding record_of ask_object parse_ask parse_options opt_str get text_beq
record_of-ask_object id seq question none [] none a b c d = rw (a, b) refl
record_of-ask_object id seq question none [] (some r) a b c d = rw (a, b) refl
record_of-ask_object id seq question (some t) [] none a b c d = rw (a, b) refl
record_of-ask_object id seq question (some t) [] (some r) a b c d = rw (a, b) refl
record_of-ask_object id seq question none (o ∷ os) none a b c d =
    rw (a, b, collect_options-options_array (o ∷ os), c) refl
record_of-ask_object id seq question none (o ∷ os) (some r) a b c d =
    rw (a, b, collect_options-options_array (o ∷ os), c)
      (rw (and_then, opt_str, get, ask_object, d) refl)
record_of-ask_object id seq question (some t) (o ∷ os) none a b c d =
    rw (a, b, collect_options-options_array (o ∷ os), c) refl
record_of-ask_object id seq question (some t) (o ∷ os) (some r) a b c d =
    rw (a, b, collect_options-options_array (o ∷ os), c)
      (rw (and_then, opt_str, get, ask_object, d) refl)

pub bind_ok :
    {A B : Type 0} (r : Result A) (f : A → Result B) (b : B)
    → (r >>= f) ≡ ok b
    → (a : A) × (r ≡ ok a) × (f a ≡ ok b)
bind_ok (ok a) f b h = (a, refl, h)
bind_ok (err e) f b h = cc

pub next_ok :
    {B : Type 0} (r : Result Done) (s : Result B) (b : B)
    → (r >> s) ≡ ok b
    → (r ≡ ok tt) × (s ≡ ok b)
next_ok (ok u) s b h = (refl, h)
next_ok (err e) s b h = cc

pub require_ok :
    (b : Bool) (kind : ErrorKind) (site : Site) (u : Done) → require b kind site ≡ ok u → b ≡ true
require_ok true kind site u h = refl
require_ok false kind site u h = cc

pub check_ask_lem :
    (question : Text) (context : Option Text) (options : List AskOption) (recommend : Option Text)
    (u : Done)
    → check_ask question context options recommend ≡ ok u
    → (check_options options ≡ ok tt) × (recommend_is_offered recommend options ≡ true)
unfolding check_ask
check_ask_lem question context options recommend u h =
    let (h1, k1) =
      next_ok (require (not (is_empty (trim question))) ErrorKind.invalid_input Site.empty_question)
        _ u h in
    let (h2, k2) = next_ok (check_field question) _ u k1 in
    let (h3, k3) = next_ok (check_optional context) _ u k2 in
    let (h4, k4) = next_ok (check_optional recommend) _ u k3 in
    let (h5, k5) = next_ok (check_option_fields options) _ u k4 in
    let (h6, k6) = next_ok (check_options options) _ u k5 in
    (
      h6,
      require_ok (recommend_is_offered recommend options) ErrorKind.invalid_input Site.unoffered u
          k6,
    )
