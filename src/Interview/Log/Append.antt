-- ===== src/Interview/Log/Append.antt =====
-- What an ask that was appended to the log is when it is read again.
use drovr.Base.{
  lines, ℕ, ◌+◌, ◌≡◌, refl, ap, ◌∙◌, inl, inr, Text, text_eq, false, Option, List, [], ◌∷◌, ◌++◌,
  ltb, arith, Bool-cases,
}
use drovr.Errors.{ok}
use drovr.Base.{utf8_len}
use drovr.Interview.{Value, Members, Ask}
use drovr.Interview.Log.Lines.{IsLine, IsWhole, utf8_len-append, lines-append_torn}
use drovr.Interview.Log.{
  fold_record, sort_by_seq, parse_record, fold_lines, read, max_log, append_line,
}

utf8_len-ended : (line : Text) → utf8_len (line ++ (b'\n' ∷ [])) ≡ utf8_len line + 1
unfolding utf8_len
utf8_len-ended line = utf8_len-append line (b'\n' ∷ [])

module _ (parse : Text → Option Value) where
  fold_lines-append :
      (asks : List Ask) (log : List Text) (line : Text)
      → fold_lines parse asks (log ++ (line ∷ []))
        ≡ fold_record (fold_lines parse asks log) (parse_record parse line)
  unfolding fold_lines
  fold_lines-append asks [] line = refl
  fold_lines-append asks (l ∷ log) line =
      fold_lines-append (fold_record asks (parse_record parse l)) log line

  append_line_ok :
      (log line log' : Text)
      → append_line log line ≡ ok log'
      → (log' ≡ log ++ (line ++ (b'\n' ∷ [])))
        × (read parse log' ≡ ok (sort_by_seq (fold_lines parse [] (lines log'))))
  unfolding append_line read
  append_line_ok log line log' h =
      elim (Bool-cases (ltb max_log (utf8_len log + (utf8_len line + 1)))) [
        | inl b ↦ absurd (ground (arith, b, h))
        | inr b ↦
            let grown : log' ≡ log ++ (line ++ (b'\n' ∷ [])) = ground (arith, b, h) in
            let size : utf8_len log' ≡ utf8_len log + (utf8_len line + 1) =
              ap utf8_len grown
              ∙ utf8_len-append log (line ++ (b'\n' ∷ []))
              ∙ ap (λ n. utf8_len log + n) (utf8_len-ended line) in
            let small : ltb max_log (utf8_len log') ≡ false = rw size b in (grown, rw small refl)
      ]

  module _ (print : Members → Text) (decimal : ℕ → Text) where
    -- Where a write was cut short the log ends within a line: the next line that is appended goes on
    -- with it, and a reading takes the two for one record.
    pub read-append_torn :
        (front torn line log' : Text)
        → append_line (front ++ torn) line ≡ ok log'
        → IsWhole front
        → IsLine (torn ++ line)
        → read parse log'
          ≡ ok (
              sort_by_seq (
                fold_record
                  (fold_lines parse [] (lines front))
                  (parse_record parse (torn ++ line))))
    read-append_torn front torn line log' h whole within =
        let (grown, reads) = append_line_ok (front ++ torn) line log' h in
        reads
        ∙ ap (λ s. ok (sort_by_seq (fold_lines parse [] (lines s)))) grown
        ∙ ap (λ ls. ok (sort_by_seq (fold_lines parse [] ls)))
            (lines-append_torn front torn line whole within)
        ∙ ap (λ asks. ok (sort_by_seq asks)) (fold_lines-append [] (lines front) (torn ++ line))
