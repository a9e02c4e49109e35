-- ===== src/Interview/Log/Sound.antt =====
-- What holds of every ask that the log gives, whoever wrote its lines.
use drovr.Base.{
  lines, utf8_len, ℕ, ◌≡◌, refl, subst, inl, inr, Text, text_eq, codes, Bool, true, false, ◌&&◌,
  Option, none, some, List, [], ◌∷◌, ◌++◌, any, All, is_empty, trim, ltb, leb, arith, Bool-cases,
  Option-cases,
}
use drovr.Errors.{Done, Result, ok, err, is_ok}
use drovr.Interview.{
  Value, Members, Ask, Record, get, get_str, get_seq, opt_str, parse_options, check_options,
  recommend_is_offered, parse_answer, parse_ask, parse_by_kind, record_of, ◌>>=◌,
}
use drovr.Interview.Log.{
  has_id, set_answer, update_ask, fold_record, insert_by_seq, sort_by_seq, parse_record, fold_lines,
  read, max_log,
}

abbrev pub is_some : Option Text → Bool
is_some none = false
is_some (some t) = true

-- An answer has its time, and a recommendation is one of the options, which are well formed.
abbrev pub IsSound : Ask → Type 0
IsSound a =
    (is_some a.answer ≡ is_some a.answered_at)
    × (check_options a.options ≡ ok tt)
    × (recommend_is_offered a.recommend a.options ≡ true)
    × (is_empty a.id ≡ false)

abbrev SoundRecord : Option Record → Type 0
SoundRecord none = Unit {0}
SoundRecord (some (Record.ask a)) = IsSound a
SoundRecord (some (Record.answer id said at)) = Unit {0}

bind-SoundRecord :
    {A : Type 0} (o : Option A) (f : A → Option Record)
    → ((a : A) → SoundRecord (f a))
    → SoundRecord (o >>= f)
bind-SoundRecord none f h = tt
bind-SoundRecord (some a) f h = h a

accepted_lem : (r : Result Done) (b : Bool) → (is_ok r && b) ≡ true → (r ≡ ok tt) × (b ≡ true)
accepted_lem (ok u) b h = (refl, h)
accepted_lem (err e) b h = cc

parse_ask-SoundRecord :
    (obj : Members) (id : Text) (seq : ℕ) → is_empty id ≡ false → SoundRecord (parse_ask obj id seq)
unfolding parse_ask
parse_ask-SoundRecord obj id seq known =
    bind-SoundRecord (parse_options (get obj (codes "options"))) _ (λ options.
      bind-SoundRecord (opt_str (get obj (codes "recommend"))) _ (λ recommend.
        elim (Bool-cases
          (is_ok (check_options options) && recommend_is_offered recommend options)) [
            | inr b ↦ rw b tt
            | inl b ↦
                let (usable, offered) = accepted_lem (check_options options) _ b in
                rw b (
                  bind-SoundRecord (get_str obj (codes "question")) _ (λ question.
                    bind-SoundRecord (opt_str (get obj (codes "context"))) _
                      (λ context. (refl, usable, offered, known))))
          ]))

parse_by_kind-SoundRecord :
    (question said : Bool) (obj : Members) (id : Text) (seq : ℕ)
    → is_empty id ≡ false
    → SoundRecord (parse_by_kind question said obj id seq)
unfolding parse_answer
parse_by_kind-SoundRecord false true obj id seq known =
    bind-SoundRecord (get_str obj (codes "answer")) _
      (λ said. bind-SoundRecord (get_str obj (codes "answered_at")) _ (λ at. tt))
parse_by_kind-SoundRecord true false obj id seq known = parse_ask-SoundRecord obj id seq known
parse_by_kind-SoundRecord false false obj id seq known = tt
parse_by_kind-SoundRecord true true obj id seq known = tt

record_of-SoundRecord : (obj : Members) → SoundRecord (record_of obj)
unfolding record_of
record_of-SoundRecord obj = bind-SoundRecord (get_str obj (codes "id")) _ (λ id.
    elim (Bool-cases (is_empty id)) [
      | inl b ↦ rw b tt
      | inr b ↦
          rw b
            (bind-SoundRecord (get_seq obj) _ (λ seq. parse_by_kind-SoundRecord _ _ obj id seq b))
    ])

update_ask-IsSound :
    (said at id : Text) (asks : List Ask)
    → All IsSound asks
    → All IsSound (update_ask (set_answer said at) id asks)
unfolding update_ask
update_ask-IsSound said at id [] h = tt
update_ask-IsSound said at id (a ∷ asks) (sound, h) = elim (Bool-cases (has_id id a)) [
  | inl b ↦ rw b ((refl, sound.1, sound.2, sound.3), h)
  | inr b ↦ rw b (sound, update_ask-IsSound said at id asks h)
]

append-IsSound :
    (asks : List Ask) (a : Ask) → All IsSound asks → IsSound a → All IsSound (asks ++ (a ∷ []))
append-IsSound [] a h s = (s, tt)
append-IsSound (b ∷ asks) a (sound, h) s = (sound, append-IsSound asks a h s)

fold_record-IsSound :
    (asks : List Ask) (r : Option Record)
    → All IsSound asks
    → SoundRecord r
    → All IsSound (fold_record asks r)
unfolding fold_record
fold_record-IsSound asks none h s = h
fold_record-IsSound asks (some (Record.ask a)) h s = elim (Bool-cases (any (has_id a.id) asks)) [
  | inl b ↦ rw b h
  | inr b ↦ rw b (append-IsSound asks a h s)
]
fold_record-IsSound asks (some (Record.answer id said at)) h s =
    update_ask-IsSound said at id asks h

insert_by_seq-IsSound :
    (a : Ask) (asks : List Ask) → IsSound a → All IsSound asks → All IsSound (insert_by_seq a asks)
unfolding insert_by_seq
insert_by_seq-IsSound a [] s h = (s, tt)
insert_by_seq-IsSound a (b ∷ asks) s (sound, h) = elim (Bool-cases (leb a.seq b.seq)) [
  | inl e ↦ rw e (s, (sound, h))
  | inr e ↦ rw e (sound, insert_by_seq-IsSound a asks s h)
]

sort_by_seq-IsSound : (asks : List Ask) → All IsSound asks → All IsSound (sort_by_seq asks)
unfolding sort_by_seq
sort_by_seq-IsSound [] h = tt
sort_by_seq-IsSound (a ∷ asks) (s, h) =
    insert_by_seq-IsSound a (sort_by_seq asks) s (sort_by_seq-IsSound asks h)

module _ (parse : Text → Option Value) where
  parse_record-SoundRecord : (line : Text) → SoundRecord (parse_record parse line)
  unfolding parse_record
  parse_record-SoundRecord line = elim (Option-cases (parse (trim line))) [
    | inl n ↦ rw (parse_record, n) tt
    | inr (Value.object obj, n) ↦
        rw (parse_record, n)
          (elim (Bool-cases (is_empty (trim line))) [
            | inl b ↦ rw b tt
            | inr b ↦ rw b (record_of-SoundRecord obj)
          ])
    | inr (_, n) ↦ rw (parse_record, n) tt
  ]

  fold_lines-IsSound :
      (asks : List Ask) (log : List Text)
      → All IsSound asks
      → All IsSound (fold_lines parse asks log)
  unfolding fold_lines
  fold_lines-IsSound asks [] h = h
  fold_lines-IsSound asks (line ∷ log) h =
      fold_lines-IsSound (fold_record asks (parse_record parse line)) log
        (fold_record-IsSound asks (parse_record parse line) h (parse_record-SoundRecord line))

  -- Whatever the log holds, in every ask that a reading gives the answer and its time
  -- are both there or both missing, the options are well formed, a recommendation among options is
  -- one of them, and the id is not empty.
  pub read-IsSound : (log : Text) (asks : List Ask) → read parse log ≡ ok asks → All IsSound asks
  unfolding read
  read-IsSound log asks h = elim (Bool-cases (ltb max_log (utf8_len log))) [
    | inl b ↦ absurd (ground (arith, b, h))
    | inr b ↦
        let same_asks : sort_by_seq (fold_lines parse [] (lines log)) ≡ asks =
          ground (arith, b, h) in
        subst (All IsSound) same_asks (
          sort_by_seq-IsSound (fold_lines parse [] (lines log))
            (fold_lines-IsSound [] (lines log) tt))
  ]
