-- ===== src/Shell/Parser/Bounds.antt =====
-- How far `parse` writes into its two arrays.
use systems_projects.Prelude.{
  ℕ, zero, suc, ◌+◌, ◌*◌, ◌≤◌, ◌≡◌, refl, Bool, true, false, ◌==◌, List, [], ◌∷◌, ◌++◌, length,
  length-append, arith, Bool-cases, inl, inr,
}
use systems_projects.Shell.Parser.{
  Scan, action, init, is_space, split, end_word, save_char, scan_char, is_full, scan_line, finish,
  parse,
}

-- The rounds so far stay within the arrays.
pub record Within (argc_max buf_len : ℕ) (t : Scan) : Type 0 where
  pub buf_fits : length t.buf ≤ buf_len
  pub argv_fits : length t.argv + 1 ≤ argc_max

end_word_grows :
    (b : Bool) (t : Scan)
    → (length (end_word b t).buf ≤ length t.buf + 1)
      × (length (end_word b t).argv ≤ length t.argv + 1)
unfolding end_word
end_word_grows true t =
    omega (arith, length-append t.buf (0 ∷ []), length-append t.argv (t.word ∷ []))
end_word_grows false t = omega arith

save_char_grows :
    (b : Bool) (c : ℕ) (t : Scan)
    → (length (save_char b c t).buf ≤ length t.buf + 1)
      × (length (save_char b c t).argv ≡ length t.argv)
unfolding save_char
save_char_grows true c t = omega (arith, length-append t.buf (c ∷ []))
save_char_grows false c t = omega arith

scan_char_grows :
    (t : Scan) (c : ℕ)
    → (length (scan_char t c).buf ≤ length t.buf + 2)
      × (length (scan_char t c).argv ≤ length t.argv + 1)
unfolding scan_char
scan_char_grows t c =
    let act = (split t.quotes t.prev c).1 in
    omega (arith, end_word_grows act.split t, save_char_grows act.save c (end_word act.split t))

module _ (argc_max buf_len : ℕ) where
  scan_char-Within :
      (t : Scan) (c : ℕ)
      → is_full argc_max buf_len t ≡ false
      → Within argc_max buf_len (scan_char t c)
  scan_char-Within t c room = ground (arith, scan_char_grows t c)

  scan_line-Within :
      (t : Scan) (line : List ℕ)
      → Within argc_max buf_len t
      → is_full argc_max buf_len t ≡ false
      → Within argc_max buf_len (scan_line argc_max buf_len t line)
  unfolding scan_line
  scan_line-Within t [] h room = h
  scan_line-Within t (c ∷ line) h room =
      elim (Bool-cases (is_full argc_max buf_len (scan_char t c))) [
        | inl full ↦ rw full (scan_char-Within t c room)
        | inr free ↦
            rw free (scan_line-Within (scan_char t c) line (scan_char-Within t c room) free)
      ]

  -- Whatever the line, `parse` returns at most argc_max words and writes at most one byte more than
  -- the buffer has, when both arrays have two elements or more.
  pub parse_bounds :
      (line : List ℕ)
      → 2 ≤ argc_max
      → 2 ≤ buf_len
      → (length (parse line argc_max buf_len).argv ≤ argc_max)
        × (length (parse line argc_max buf_len).buf ≤ buf_len + 1)
  unfolding parse
  parse_bounds line ha hb =
      let t = scan_line argc_max buf_len init line in
      let h = scan_line-Within init line (omega arith) (ground arith) in
      ground (arith, h, length-append t.argv (t.word ∷ []), length-append t.buf (0 ∷ []))

abbrev pub pipes : ℕ → List ℕ
pipes zero = []
pipes (suc n) = b'|' ∷ pipes n

-- The state before a `|` that does not follow a blank: a word has begun, and no quote is open.
record InWord (t : Scan) : Type 0 where
  no_2quote : t.quotes.in_2quote ≡ false
  no_1quote : t.quotes.in_1quote ≡ false
  started : (t.prev == 0) ≡ false
  joined : is_space t.prev ≡ false
  begun : length t.buf ≡ t.word + 1

split_pipe : (t : Scan) → InWord t → split t.quotes t.prev b'|' ≡ (t.quotes, action true true)
unfolding split
split_pipe t h = rw (h.started, h.no_2quote, h.no_1quote, h.joined)

-- The state after such a `|`.
abbrev after_pipe : Scan → Scan
after_pipe t = record {
  quotes = t.quotes;
  prev = b'|';
  buf = (t.buf ++ (0 ∷ [])) ++ (b'|' ∷ []);
  argv = t.argv ++ (t.word ∷ []);
  word = length t.buf + 1;
}

scan_pipe : (t : Scan) → InWord t → scan_char t b'|' ≡ after_pipe t
unfolding scan_char
scan_pipe t h = rw (split_pipe t h)

length-after_pipe : (t : Scan) → length (after_pipe t).buf ≡ length t.buf + 2
length-after_pipe t =
    omega (arith, length-append t.buf (0 ∷ []), length-append (t.buf ++ (0 ∷ [])) (b'|' ∷ []))

after_pipe-InWord : (t : Scan) → InWord t → InWord (after_pipe t)
after_pipe-InWord t h = record {
  no_2quote = h.no_2quote;
  no_1quote = h.no_1quote;
  started = refl;
  joined = refl;
  begun = omega (arith, length-after_pipe t);
}

-- Each further `|` ends one word and begins another, up to the last entry of argv.
scan-pipes :
    (n argc_max buf_len : ℕ) (t : Scan)
    → InWord t
    → length t.argv + n + 1 ≡ argc_max
    → length t.buf + 2 * n + 2 ≤ buf_len
    → length (finish (scan_line argc_max buf_len t (pipes n))).argv ≡ argc_max
unfolding scan_line finish
scan-pipes zero argc_max buf_len t h e room =
    let d : (length t.buf == t.word) ≡ false = ground (arith, h.begun) in
    rw d (omega (arith, length-append t.argv (t.word ∷ [])))
scan-pipes (suc zero) argc_max buf_len t h e room =
    let u = after_pipe t in
    let ih =
      scan-pipes zero argc_max buf_len u (after_pipe-InWord t h)
        (omega (arith, length-append t.argv (t.word ∷ []))) (omega (arith, length-after_pipe t)) in
    rw (scan_pipe t h) (elim (Bool-cases (is_full argc_max buf_len u)) [
      | inl full ↦ rw full ih
      | inr free ↦ rw free ih
    ])
scan-pipes (suc (suc n)) argc_max buf_len t h e room =
    let u = after_pipe t in
    let a = length-append t.argv (t.word ∷ []) in
    let b = length-after_pipe t in
    let ih =
      scan-pipes (suc n) argc_max buf_len u (after_pipe-InWord t h) (omega (arith, a))
        (omega (arith, b)) in
    let free : is_full argc_max buf_len u ≡ false = ground (arith, a, b) in
    rw (scan_pipe t h, free) ih

-- The state after a first character that is no blank.
abbrev after_first : ℕ → Scan
after_first c = record init { prev = c; buf = c ∷ [] }

scan_first : (c : ℕ) → is_space c ≡ false → scan_char init c ≡ after_first c
unfolding scan_char split
scan_first c s = rw s

scan_line-after_first :
    (c : ℕ) (line : List ℕ) (argc_max buf_len : ℕ)
    → is_space c ≡ false
    → is_full argc_max buf_len (after_first c) ≡ false
    → scan_line argc_max buf_len init (c ∷ line) ≡ scan_line argc_max buf_len (after_first c) line
unfolding scan_line
scan_line-after_first c line argc_max buf_len s free = rw (scan_first c s, free)

-- A line that begins with a character that is no blank and goes on with argc_max - 1 pipes has
-- argc_max words: the NULL behind them is written to argv[argc_max], outside the array. The buffer is
-- large enough here for the loop to be left by the other break.
pub parse-pipes :
    (c k buf_len : ℕ)
    → is_space c ≡ false
    → (c == 0) ≡ false
    → 2 * k + 5 ≤ buf_len
    → length (parse (c ∷ pipes (suc k)) (suc (suc k)) buf_len).argv ≡ suc (suc k)
unfolding parse
parse-pipes c k buf_len s z room =
    let t = after_first c in
    let h : InWord t = record {
      no_2quote = refl;
      no_1quote = refl;
      started = z;
      joined = s;
      begun = omega arith;
    } in
    let free : is_full (suc (suc k)) buf_len t ≡ false = ground arith in
    rw (scan_line-after_first c (pipes (suc k)) (suc (suc k)) buf_len s free)
      (scan-pipes (suc k) (suc (suc k)) buf_len t h (omega arith) (omega arith))
