-- ===== src/Shell/Parser/Words.antt =====
-- How the loop of `parse` reads a word of plain characters, and the blanks behind it.
use systems_projects.Prelude.{
  ℕ, ◌+◌, ◌≤◌, ◌≡◌, refl, ◌∙◌, Bool, true, false, not, ◌&&◌, ◌||◌, ◌==◌, List, [], ◌∷◌, ◌++◌,
  append_assoc, append-nil, length, length-append, All, arith,
}
use systems_projects.Shell.Parser.{
  Quotes, Scan, action, is_space, is_quote, split, scan_char, is_full, scan_line,
}

-- A character with no meaning to the tokenizer.
abbrev pub is_plain : ℕ → Bool
is_plain c =
    not (c == 0)
    && not (is_space c)
    && not (is_quote c)
    && not (c == b'|')
    && not (c == b'<')
    && not (c == b'>')

-- A character after which a plain one goes on with the word, or begins one.
abbrev pub is_neutral : ℕ → Bool
is_neutral p = (p == 0) || is_space p || is_plain p

module _ (q : Quotes) (no_2 : q.in_2quote ≡ false) (no_1 : q.in_1quote ≡ false) where
  split-plain :
      (p c : ℕ) → is_neutral p ≡ true → is_plain c ≡ true → split q p c ≡ (q, action false true)
  unfolding split
  split-plain p c hp hc = rw (no_2, no_1) (ground arith)

  split-blank :
      (p c : ℕ) → is_plain p ≡ true → is_space c ≡ true → split q p c ≡ (q, action true false)
  unfolding split
  split-blank p c hp hc = rw (no_2, no_1) (ground arith)

  split-blanks :
      (p c : ℕ) → is_space p ≡ true → is_space c ≡ true → split q p c ≡ (q, action false false)
  unfolding split
  split-blanks p c hp hc = rw (no_2, no_1) (ground arith)

-- The state outside quotes, by its other fields.
abbrev pub at : (p : ℕ) → (b a : List ℕ) → (w : ℕ) → Scan
at p b a w = record {
  quotes = record { in_2quote = false; in_1quote = false };
  prev = p;
  buf = b;
  argv = a;
  word = w;
}

module _ (p c : ℕ) (b a : List ℕ) (w : ℕ) where
  scan_plain :
      is_neutral p ≡ true → is_plain c ≡ true → scan_char (at p b a w) c ≡ at c (b ++ (c ∷ [])) a w
  unfolding scan_char
  scan_plain hp hc = rw (split-plain _ refl refl p c hp hc)

  pub scan_blank :
      is_plain p ≡ true
      → is_space c ≡ true
      → scan_char (at p b a w) c ≡ at c (b ++ (0 ∷ [])) (a ++ (w ∷ [])) (length b + 1)
  unfolding scan_char
  scan_blank hp hc = rw (split-blank _ refl refl p c hp hc)

  scan_blanks : is_space p ≡ true → is_space c ≡ true → scan_char (at p b a w) c ≡ at c b a w
  unfolding scan_char
  scan_blanks hp hc = rw (split-blanks _ refl refl p c hp hc)

abbrev pub last : ℕ → List ℕ → ℕ
last p [] = p
last p (c ∷ cs) = last c cs

module _ (argc_max buf_len : ℕ) where
  pub scan_line-step :
      (t t' : Scan) (c : ℕ) (line : List ℕ)
      → scan_char t c ≡ t'
      → length t'.buf + 2 ≤ buf_len
      → length t'.argv + 2 ≤ argc_max
      → scan_line argc_max buf_len t (c ∷ line) ≡ scan_line argc_max buf_len t' line
  unfolding scan_line
  scan_line-step t t' c line e hb ha =
      let free : is_full argc_max buf_len t' ≡ false = ground arith in rw (e, free)

  pub scan_word :
      (cs : List ℕ) (p : ℕ) (b a : List ℕ) (w : ℕ) (rest : List ℕ)
      → is_neutral p ≡ true
      → All (λ c. is_plain c ≡ true) cs
      → length b + length cs + 2 ≤ buf_len
      → length a + 2 ≤ argc_max
      → scan_line argc_max buf_len (at p b a w) (cs ++ rest)
        ≡ scan_line argc_max buf_len (at (last p cs) (b ++ cs) a w) rest
  scan_word [] p b a w rest hp hc hb ha = rw append-nil
  scan_word (c ∷ cs) p b a w rest hp hc hb ha =
      let grown = length-append b (c ∷ []) in
      scan_line-step (at p b a w) (at c (b ++ (c ∷ [])) a w) c (cs ++ rest)
        (scan_plain p c b a w hp hc.0) (omega (arith, grown)) ha
      ∙ scan_word cs c (b ++ (c ∷ [])) a w rest (ground (arith, hc.0)) hc.1 (omega (arith, grown))
          ha
      ∙ rw append_assoc

  pub scan_gap :
      (cs : List ℕ) (p : ℕ) (b a : List ℕ) (w : ℕ) (rest : List ℕ)
      → is_space p ≡ true
      → All (λ c. is_space c ≡ true) cs
      → length b + 2 ≤ buf_len
      → length a + 2 ≤ argc_max
      → scan_line argc_max buf_len (at p b a w) (cs ++ rest)
        ≡ scan_line argc_max buf_len (at (last p cs) b a w) rest
  scan_gap [] p b a w rest hp hc hb ha = refl
  scan_gap (c ∷ cs) p b a w rest hp hc hb ha =
      scan_line-step (at p b a w) (at c b a w) c (cs ++ rest) (scan_blanks p c b a w hp hc.0) hb ha
      ∙ scan_gap cs c b a w rest hc.0 hc.1 hb ha
