-- ===== src/Shell/Parser/RoundTrip.antt =====
-- `parse` finds the words of a line: words of plain characters, separated by blanks, come back.
use systems_projects.Prelude.{
  ℕ, zero, suc, ◌+◌, ◌≤◌, ◌≡◌, refl, ap, ◌∙◌, true, false, not, ◌&&◌, ◌==◌, if◌then◌else◌, List, [],
  ◌∷◌, ◌++◌, append_assoc, append-nil, length, length-append, All, arith,
}
use systems_projects.Shell.Parser.{is_space, scan_line, finish, parse}
use systems_projects.Shell.Parser.Words.{
  is_plain, is_neutral, at, last, scan_blank, scan_line-step, scan_word, scan_gap,
}

-- A word and the blanks that follow it, each by its first character and the others.
pub record Typed : Type 0 where
  pub head : ℕ
  pub tail : List ℕ
  pub blank : ℕ
  pub blanks : List ℕ

pub record IsTyped (e : Typed) : Type 0 where
  pub plain_head : is_plain e.head ≡ true
  pub plain_tail : All (λ c. is_plain c ≡ true) e.tail
  pub one_blank : is_space e.blank ≡ true
  pub more_blanks : All (λ c. is_space c ≡ true) e.blanks

abbrev pub word_of : Typed → List ℕ
word_of e = e.head ∷ e.tail

abbrev pub words_of : List Typed → List (List ℕ)
words_of [] = []
words_of (e ∷ es) = word_of e ∷ words_of es

-- The line that was typed.
abbrev pub text : List Typed → List ℕ
text [] = []
text (e ∷ es) = word_of e ++ (e.blank ∷ (e.blanks ++ text es))

-- The words as they lie in the buffer, each with a null behind it, and where each begins.
abbrev pub packed : List (List ℕ) → List ℕ
packed [] = []
packed (w ∷ ws) = w ++ (0 ∷ packed ws)

abbrev pub offsets : ℕ → List (List ℕ) → List ℕ
offsets n [] = []
offsets n (w ∷ ws) = n ∷ offsets (n + length w + 1) ws

last-plain :
    (c : ℕ) (cs : List ℕ)
    → is_plain c ≡ true
    → All (λ c. is_plain c ≡ true) cs
    → is_plain (last c cs) ≡ true
last-plain c [] h hs = h
last-plain c (d ∷ cs) h hs = last-plain d cs hs.0 hs.1

last-space :
    (c : ℕ) (cs : List ℕ)
    → is_space c ≡ true
    → All (λ c. is_space c ≡ true) cs
    → is_space (last c cs) ≡ true
last-space c [] h hs = h
last-space c (d ∷ cs) h hs = last-space d cs hs.0 hs.1

prev_of : ℕ → List Typed → ℕ
prev_of p [] = p
prev_of p (e ∷ es) = prev_of (last e.blank e.blanks) es

packed-snoc :
    (b w : List ℕ) (ws : List (List ℕ)) → ((b ++ w) ++ (0 ∷ [])) ++ packed ws ≡ b ++ packed (w ∷ ws)
packed-snoc b w ws = simp append_assoc

module _ (argc_max buf_len : ℕ) where
  -- One word and the blanks behind it.
  scan_typed :
      (e : Typed) (p : ℕ) (b a : List ℕ) (w : ℕ) (rest : List ℕ)
      → (is_neutral p && not (is_plain p)) ≡ true
      → IsTyped e
      → length b + length (word_of e) + 3 ≤ buf_len
      → length a + 3 ≤ argc_max
      → scan_line argc_max buf_len (at p b a w) (word_of e ++ (e.blank ∷ (e.blanks ++ rest)))
        ≡ scan_line argc_max buf_len
            (at
              (last e.blank e.blanks)
              ((b ++ word_of e) ++ (0 ∷ []))
              (a ++ (w ∷ []))
              (length (b ++ word_of e) + 1))
            rest
  scan_typed e p b a w rest hp h hb ha =
      let c = last e.head e.tail in
      let grown = length-append b (word_of e) in
      let more = length-append (b ++ word_of e) (0 ∷ []) in
      let args = length-append a (w ∷ []) in
      scan_word argc_max buf_len (word_of e) p b a w (e.blank ∷ (e.blanks ++ rest)) (ground arith)
        (h.plain_head, h.plain_tail) (omega arith) (omega arith)
      ∙ scan_line-step argc_max buf_len (at c (b ++ word_of e) a w)
          (at e.blank ((b ++ word_of e) ++ (0 ∷ [])) (a ++ (w ∷ [])) (length (b ++ word_of e) + 1))
          e.blank (e.blanks ++ rest)
          (scan_blank c e.blank (b ++ word_of e) a w
            (last-plain e.head e.tail h.plain_head h.plain_tail) h.one_blank)
          (omega (arith, grown, more)) (omega (arith, args))
      ∙ scan_gap argc_max buf_len e.blanks e.blank ((b ++ word_of e) ++ (0 ∷ [])) (a ++ (w ∷ []))
          (length (b ++ word_of e) + 1) rest h.one_blank h.more_blanks (omega (arith, grown, more))
          (omega (arith, args))

  scan_text :
      (es : List Typed) (p : ℕ) (b a : List ℕ)
      → (is_neutral p && not (is_plain p)) ≡ true
      → All IsTyped es
      → length b + length (packed (words_of es)) + 2 ≤ buf_len
      → length a + length es + 2 ≤ argc_max
      → scan_line argc_max buf_len (at p b a (length b)) (text es)
        ≡ at
            (prev_of p es)
            (b ++ packed (words_of es))
            (a ++ offsets (length b) (words_of es))
            (length (b ++ packed (words_of es)))
  unfolding scan_line prev_of
  scan_text [] p b a hp h hb ha = rw (append-nil, append-nil)
  scan_text (e ∷ es) p b a hp h hb ha =
      let b' = (b ++ word_of e) ++ (0 ∷ []) in
      let a' = a ++ (length b ∷ []) in
      let size = length-append (word_of e) (0 ∷ packed (words_of es)) in
      let grown = length-append b (word_of e) in
      let more = length-append (b ++ word_of e) (0 ∷ []) in
      let args = length-append a (length b ∷ []) in
      let blank = last-space e.blank e.blanks h.0.one_blank h.0.more_blanks in
      let there : length b' ≡ length b + length (word_of e) + 1 = omega (arith, grown, more) in
      let here : length (b ++ word_of e) + 1 ≡ length b' = omega (arith, more) in
      scan_typed e p b a (length b) (text es) hp h.0 (omega (arith, size)) (omega arith)
      ∙ rw here (
          scan_text es (last e.blank e.blanks) b' a' (ground arith) h.1
            (omega (arith, size, grown, more)) (omega (arith, args))
          ∙ rw (packed-snoc b (word_of e) (words_of es), there, append_assoc))

-- The string at an offset of the buffer: the bytes up to the next null.
abbrev pub drop : ℕ → List ℕ → List ℕ
drop zero l = l
drop (suc n) [] = []
drop (suc n) (c ∷ l) = drop n l

abbrev pub until_null : List ℕ → List ℕ
until_null [] = []
until_null (c ∷ l) = if c == 0 then [] else c ∷ until_null l

-- What the caller finds in argv.
abbrev pub strings : List ℕ → List ℕ → List (List ℕ)
strings buf [] = []
strings buf (offset ∷ argv) = until_null (drop offset buf) ∷ strings buf argv

until_null-append :
    (w rest : List ℕ) → All (λ c. is_plain c ≡ true) w → until_null (w ++ (0 ∷ rest)) ≡ w
until_null-append [] rest h = refl
until_null-append (c ∷ w) rest h =
    let n : (c == 0) ≡ false = ground (arith, h.0) in rw (n, until_null-append w rest h.1)

drop-append : (b l : List ℕ) (n : ℕ) → n ≡ length b → drop n (b ++ l) ≡ l
drop-append [] l zero e = refl
drop-append [] l (suc n) e = absurd (omega arith)
drop-append (c ∷ b) l zero e = absurd (omega arith)
drop-append (c ∷ b) l (suc n) e = drop-append b l n (omega arith)

pub strings-packed :
    (ws : List (List ℕ)) (b : List ℕ) (n : ℕ)
    → n ≡ length b
    → All (All (λ c. is_plain c ≡ true)) ws
    → strings (b ++ packed ws) (offsets n ws) ≡ ws
strings-packed [] b n e h = refl
strings-packed (w ∷ ws) b n e h =
    let b' = (b ++ w) ++ (0 ∷ []) in
    let grown = length-append b w in
    let more = length-append (b ++ w) (0 ∷ []) in
    let ih = strings-packed ws b' (n + length w + 1) (omega (arith, grown, more)) h.1 in
    rw (drop-append b (w ++ (0 ∷ packed ws)) n e, until_null-append w (packed ws) h.0)
      (ap (λ l. w ∷ l) (rw (packed-snoc b w ws) at ih))

pub words_of-plain :
    (es : List Typed) → All IsTyped es → All (All (λ c. is_plain c ≡ true)) (words_of es)
words_of-plain [] h = h
words_of-plain (e ∷ es) h = ((h.0.plain_head, h.0.plain_tail), words_of-plain es h.1)

pub parse-text :
    (es : List Typed) (argc_max buf_len : ℕ)
    → All IsTyped es
    → length es + 2 ≤ argc_max
    → length (packed (words_of es)) + 2 ≤ buf_len
    → parse (text es) argc_max buf_len
      ≡ record { argv = offsets 0 (words_of es); buf = packed (words_of es) }
unfolding parse finish
parse-text es argc_max buf_len h ha hb =
    let e = scan_text argc_max buf_len es 0 [] [] refl h (omega arith) (omega arith) in
    let d : (length (packed (words_of es)) == length (packed (words_of es))) ≡ true =
      ground arith in
    rw (e, d) refl

-- On a line of words of plain characters, each followed by one or more blanks, `parse` returns an
-- argv of exactly those words, if two entries of argv and two bytes of the buffer are left over.
pub strings-parse-text :
    (es : List Typed) (argc_max buf_len : ℕ)
    → All IsTyped es
    → length es + 2 ≤ argc_max
    → length (packed (words_of es)) + 2 ≤ buf_len
    → let p = parse (text es) argc_max buf_len in strings p.buf p.argv ≡ words_of es
strings-parse-text es argc_max buf_len h ha hb =
    rw (parse-text es argc_max buf_len h ha hb)
      (strings-packed (words_of es) [] 0 refl (words_of-plain es h))
