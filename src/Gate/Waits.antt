-- ===== src/Gate/Waits.antt =====
-- The wait for the reviewer: it ends, and with what the server said last or at the deadline.
use drovr.Base.{
  ◌≢◌, ℕ, zero, suc, ◌+◌, ◌-◌, ◌<◌, ◌≤◌, min, leb, ◌≡◌, refl, ◌⊎◌, inl, inr, Text, codes, text_beq,
  text_beq_iff, false, Option, none, some, ap, arith, Bool-cases,
}
use drovr.Errors.{Result, ok, err}
use drovr.Gate.{Json}
use drovr.Gate.Wait.{
  WaitOutcome, Client, acted, fetch_state, Waited, round_end, round, wait_loop, with_server,
  review_wait,
}

-- What the reviewer's word decides, and a word that decides nothing.
abbrev pub IsDecided : Text → WaitOutcome → Type 0
IsDecided word WaitOutcome.approved = word ≡ codes "approved"
IsDecided word WaitOutcome.cancelled = word ≡ codes "cancelled"
IsDecided word WaitOutcome.changes_requested = word ≡ codes "waiting"
IsDecided word WaitOutcome.timeout = ⊥

abbrev pub IsUndecided : Text → Type 0
IsUndecided word = (word ≢ codes "approved") × (word ≢ codes "cancelled") × (word ≢ codes "waiting")

abbrev Said : Text → Option WaitOutcome → Type 0
Said word none = IsUndecided word
Said word (some o) = IsDecided word o

differs : (a b : Text) → text_beq a b ≡ false → a ≢ b
differs a b h e = let same = (text_beq_iff a b).1 e in absurd (ground (arith, h, same))

acted-Said : (word : Text) → Said word (acted word)
unfolding acted
acted-Said word = elim (Bool-cases (text_beq word (codes "approved"))) [
  | inl a ↦ rw (acted, a) ((text_beq_iff word (codes "approved")).0 a)
  | inr a ↦ elim (Bool-cases (text_beq word (codes "cancelled"))) [
    | inl c ↦ rw (acted, a, c) ((text_beq_iff word (codes "cancelled")).0 c)
    | inr c ↦ elim (Bool-cases (text_beq word (codes "waiting"))) [
      | inl d ↦ rw (acted, a, c, d) ((text_beq_iff word (codes "waiting")).0 d)
      | inr d ↦
          rw (acted, a, c, d)
            (
              differs word (codes "approved") a,
              differs word (codes "cancelled") c,
              differs word (codes "waiting") d,
            )
    ]
  ]
]

-- An answer takes no negative time, and a sleep lasts as long as it was asked to.
pub record IsClocked {S : Type 0} (client : Client S) : Type 0 where
  pub get_state :
      (addr run : Text) (s : S) → client.now s ≤ client.now (client.get_state addr run s).1
  pub sleep : (d : ℕ) (s : S) → client.now s + d ≤ client.now (client.sleep d s)

module _ {S : Type 0} (json : Json) (client : Client S) (addr run : Text) (deadline : ℕ) where
  -- From the start of a round to the start of a later one: each answer decided nothing, came before
  -- the deadline, and was followed by a sleep of half a second, or of what was left.
  pub data Polls : S → S → Type 0 where
    here : (s : S) → Polls s s
    again :
        (s t : S) (word : Text)
        → (fetch_state json client addr run s).0 ≡ ok word
        → IsUndecided word
        → client.now (fetch_state json client addr run s).1 < deadline
        → Polls
            (client.sleep
              (min 500 (deadline - client.now (fetch_state json client addr run s).1))
              (fetch_state json client addr run s).1)
            t
        → Polls s t

  -- The last answer, and what it or the deadline makes the outcome.
  abbrev IsLast : WaitOutcome → Text → S → Type 0
  IsLast o word t =
      IsDecided word o ⊎ ((o ≡ WaitOutcome.timeout) × IsUndecided word × (deadline ≤ client.now t))

  abbrev pub IsEnded : S → Waited json client × S → Type 0
  IsEnded s (none, t) = ⊥
  IsEnded s (some (err e), t) =
      (u : S) × Polls s u × (fetch_state json client addr run u ≡ (err e, t))
  IsEnded s (some (ok o), t) =
      (u : S) × (word : Text) × Polls s u
      × (fetch_state json client addr run u ≡ (ok word, t))
      × IsLast o word t

  IsEnded-again :
      (s v : S) (r : Waited json client × S)
      → ((u : S) → Polls v u → Polls s u)
      → IsEnded v r
      → IsEnded s r
  IsEnded-again s v (none, t) more h = h
  IsEnded-again s v (some (err e), t) more (u, p, k) = (u, more u p, k)
  IsEnded-again s v (some (ok o), t) more (u, word, p, k, l) = (u, word, more u p, k, l)

  module _ (clock : IsClocked client) where
    slept :
        (fuel before t later : ℕ)
        → deadline - before < suc fuel
        → before ≤ t
        → leb deadline t ≡ false
        → t + min 500 (deadline - t) ≤ later
        → deadline - later < fuel
    slept fuel before t later h l b k = ground arith

    -- A round, from the end of its answer; `ended` is what is known of the rounds after it.
    module _ (fuel : ℕ) (s : S) (enough : deadline - client.now s < suc fuel)
        (ended : (v : S)
          → deadline - client.now v < fuel
          → IsEnded v (wait_loop json client fuel addr run deadline v)) where
      round_end-IsEnded :
          (word : Text) (o : Option WaitOutcome)
          → (fetch_state json client addr run s).0 ≡ ok word
          → client.now s ≤ client.now (fetch_state json client addr run s).1
          → Said word o
          → IsEnded s (
              round_end json client deadline
                (λ v. wait_loop json client fuel addr run deadline v)
                o
                (fetch_state json client addr run s).1)
      round_end-IsEnded word (some o) e later d =
          (s, word, Polls.here s, ap (λ r. (r, (fetch_state json client addr run s).1)) e, inl d)
      round_end-IsEnded word none e later d =
          let t = (fetch_state json client addr run s).1 in
          elim (Bool-cases (leb deadline (client.now t))) [
            | inl b ↦
                rw b (s, word, Polls.here s, ap (λ r. (r, t)) e, inr (refl, d, ground (arith, b)))
            | inr b ↦
                let v = client.sleep (min 500 (deadline - client.now t)) t in
                rw b (
                  IsEnded-again s v (wait_loop json client fuel addr run deadline v)
                    (λ u p. Polls.again s u word e d (ground (arith, b)) p)
                    (ended v (
                      slept fuel (client.now s) (client.now t) (client.now v) enough later b
                        (clock.sleep (min 500 (deadline - client.now t)) t))))
          ]

      round-IsEnded :
          (r : Result Text)
          → (fetch_state json client addr run s).0 ≡ r
          → client.now s ≤ client.now (fetch_state json client addr run s).1
          → IsEnded s (
              round json client deadline
                (λ v. wait_loop json client fuel addr run deadline v)
                r
                (fetch_state json client addr run s).1)
      unfolding acted
      round-IsEnded (err x) e later =
          (s, Polls.here s, ap (λ r. (r, (fetch_state json client addr run s).1)) e)
      round-IsEnded (ok word) e later =
          round_end-IsEnded word (acted word) e later (acted-Said word)

    fetched_later : (s : S) → client.now s ≤ client.now (fetch_state json client addr run s).1
    unfolding fetch_state
    fetched_later s = clock.get_state addr run s

    wait_loop-IsEnded :
        (fuel : ℕ) (s : S)
        → deadline - client.now s < fuel
        → IsEnded s (wait_loop json client fuel addr run deadline s)
    unfolding wait_loop
    wait_loop-IsEnded zero s h = absurd (ground (arith, h))
    wait_loop-IsEnded (suc fuel) s h =
        round-IsEnded fuel s h (wait_loop-IsEnded fuel) (fetch_state json client addr run s).0 refl
          (fetched_later s)

module _ {S : Type 0} (json : Json) (client : Client S) (run : Text) (timeout_ms : ℕ) where
  -- The wait from the start of the server on.
  abbrev pub IsWaited : Result Text × S → Waited json client × S → Type 0
  IsWaited (err e, s) (r, t) = (r ≡ some (err e)) × (t ≡ s)
  IsWaited (ok addr, s) ended = IsEnded json client addr run (client.now s + timeout_ms) s ended

  with_server-IsWaited :
      (fuel : ℕ) (r : Result Text) (s : S)
      → IsClocked client
      → timeout_ms < fuel
      → IsWaited (r, s) (with_server json client fuel run timeout_ms r s)
  unfolding wait_loop
  with_server-IsWaited fuel (err e) s clock h = (refl, refl)
  with_server-IsWaited fuel (ok addr) s clock h =
      wait_loop-IsEnded json client addr run (client.now s + timeout_ms) clock fuel s
        (ground (arith, h))

  -- On more rounds than the timeout has milliseconds the wait ends, if an answer takes no negative
  -- time and a sleep lasts as long as it was asked to. It ends with the error of the server's start,
  -- or with that of the first answer that fails; with an outcome of the reviewer's only if it is
  -- what the last answer says; and with a timeout only if the last answer decides nothing and had
  -- come at the deadline or later. No answer before the last one decided anything.
  pub review_wait-IsWaited :
      (fuel : ℕ) (s : S)
      → IsClocked client
      → timeout_ms < fuel
      → IsWaited (client.ensure_server s) (review_wait json client fuel run timeout_ms s)
  unfolding review_wait
  review_wait-IsWaited fuel s clock h =
      with_server-IsWaited fuel (client.ensure_server s).0 (client.ensure_server s).1 clock h
