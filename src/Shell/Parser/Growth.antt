-- ===== src/Shell/Parser/Growth.antt =====
-- How much `parse` writes for a line of some length.
use systems_projects.Prelude.{
  ℕ, ◌+◌, ◌*◌, ◌≤◌, Bool, true, false, if◌then◌else◌, List, [], ◌∷◌, length, length-append, arith,
}
use systems_projects.Shell.Parser.{
  Scan, init, split, end_word, save_char, scan_char, is_full, scan_line, finish, parse,
}

end_word_grows :
    (b : Bool) (t : Scan)
    → (length (end_word b t).argv ≤ length t.argv + 1)
      × (length (end_word b t).buf ≤ length t.buf + 1)
unfolding end_word
end_word_grows true t =
    (omega (arith, length-append t.argv (t.word ∷ [])), omega (arith, length-append t.buf (0 ∷ [])))
end_word_grows false t = (omega arith, omega arith)

save_char_grows :
    (b : Bool) (c : ℕ) (t : Scan)
    → (length (save_char b c t).argv ≤ length t.argv)
      × (length (save_char b c t).buf ≤ length t.buf + 1)
unfolding save_char
save_char_grows true c t = (omega arith, omega (arith, length-append t.buf (c ∷ [])))
save_char_grows false c t = (omega arith, omega arith)

scan_char_grows :
    (t : Scan) (c : ℕ)
    → (length (scan_char t c).argv ≤ length t.argv + 1)
      × (length (scan_char t c).buf ≤ length t.buf + 2)
unfolding scan_char
scan_char_grows t c =
    let (q, act) = split t.quotes t.prev c in
    let (args, bytes) = end_word_grows act.split t in
    let (args', bytes') = save_char_grows act.save c (end_word act.split t) in
    (omega (arith, args, args'), omega (arith, bytes, bytes'))

abbrev Grown : ℕ → (t t' : Scan) → Type 0
Grown n t t' = (length t'.argv ≤ length t.argv + n) × (length t'.buf ≤ length t.buf + 2 * n)

scan_line_grows :
    (argc_max buf_len : ℕ) (line : List ℕ) (t : Scan)
    → Grown (length line) t (scan_line argc_max buf_len t line)
unfolding scan_line
scan_line_grows argc_max buf_len [] t = (omega arith, omega arith)
scan_line_grows argc_max buf_len (c ∷ line) t =
    let (args, bytes) = scan_char_grows t c in
    let (args', bytes') = scan_line_grows argc_max buf_len line (scan_char t c) in
    elim (is_full argc_max buf_len (scan_char t c))
      as (λ b.
        Grown (length (c ∷ line)) t
          (if b then scan_char t c else scan_line argc_max buf_len (scan_char t c) line)) [
            | true ↦ (omega (arith, args), omega (arith, bytes))
            | false ↦ (omega (arith, args, args'), omega (arith, bytes, bytes'))
          ]

-- A line of `n` bytes gives at most n + 1 words, in at most 2n + 1 bytes of the buffer.
pub parse_grows :
    (line : List ℕ) (argc_max buf_len : ℕ)
    → (length (parse line argc_max buf_len).argv ≤ length line + 1)
      × (length (parse line argc_max buf_len).buf ≤ 2 * length line + 1)
unfolding parse finish
parse_grows line argc_max buf_len =
    let t = scan_line argc_max buf_len init line in
    let (args, bytes) = scan_line_grows argc_max buf_len line init in
    (
      ground (arith, args, length-append t.argv (t.word ∷ [])),
      ground (arith, bytes, length-append t.buf (0 ∷ [])),
    )
