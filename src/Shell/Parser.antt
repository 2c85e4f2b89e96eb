-- ===== src/Shell/Parser.antt =====
-- unix-shell-from-scratch/parser.c: `split` decides on each character, and `parse` copies the words
-- of a line into a buffer. Characters are their codes. The buffer is the list of the bytes written
-- so far, so that `ptr - buf` is its length, and a pointer into it is an offset.
pub mod Bounds
pub mod Words
pub mod RoundTrip
pub mod Growth
use systems_projects.Prelude.{
  ℕ, ◌+◌, Bool, true, false, not, ◌&&◌, ◌||◌, ltb, leb, ◌==◌, if◌then◌else◌, List, [], ◌∷◌, ◌++◌,
  length,
}

pub record Quotes : Type 0 where
  pub in_2quote : Bool
  pub in_1quote : Bool

-- The bits SPLIT and SAVE of the result of `split`.
pub record Action : Type 0 where
  pub split : Bool
  pub save : Bool

abbrev pub action : (split save : Bool) → Action
action a b = record { split = a; save = b }

-- `isspace` in the C locale: the blank, and tab to carriage return. A byte of 128 and more is no space
-- here; where `char` is signed it is negative, and the call is undefined.
abbrev pub is_space : ℕ → Bool
is_space c = (c == 32) || (leb 9 c && leb c 13)

abbrev pub is_quote : ℕ → Bool
is_quote c = (c == 34) || (c == 39)

-- What `split` does outside quotes with a character `c2` that is no quote.
unfoldable pub split_plain : (c1 c2 : ℕ) → Action
split_plain c1 c2 =
    if c2 == b'|'
    then action (not (is_space c1)) true
    else if c1 == b'|'
    then action true (not (is_space c2))
    else if is_space c2
    then action (not (is_space c1 || is_quote c1)) false
    else if (c2 == b'>') || (c2 == b'<')
    then action (not (is_space c1)) true
    else if (c1 == b'>') || (c1 == b'<')
    then action true (not (is_space c2))
    else action false true

unfoldable pub split : Quotes → (c1 c2 : ℕ) → Quotes × Action
unfolding split_plain
split q c1 c2 =
    if c1 == 0
    then (q, action false (not (is_space c2)))
    else if q.in_2quote
    then (if c2 == 34
        then (record q { in_2quote = false }, action true false)
        else (q, action false true))
    else if q.in_1quote
    then (if c2 == 39
        then (record q { in_1quote = false }, action true false)
        else (q, action false true))
    else if c2 == 34
    then (record q { in_2quote = true }, action (not (is_space c1)) false)
    else if c2 == 39
    then (record q { in_1quote = true }, action (not (is_space c1)) false)
    else (q, split_plain c1 c2)

-- The variables of `parse`: `argv` holds the entries before `argv[i]`, and `word` is `argv[i]`.
pub record Scan : Type 0 where
  pub quotes : Quotes
  pub prev : ℕ
  pub buf : List ℕ
  pub argv : List ℕ
  pub word : ℕ

abbrev pub init : Scan
init = record {
  quotes = record { in_2quote = false; in_1quote = false };
  prev = 0;
  buf = [];
  argv = [];
  word = 0;
}

unfoldable pub end_word : Bool → Scan → Scan
end_word true t = record t {
  buf = t.buf ++ (0 ∷ []);
  argv = t.argv ++ (t.word ∷ []);
  word = length t.buf + 1;
}
end_word false t = t

unfoldable pub save_char : Bool → ℕ → Scan → Scan
save_char true c t = record t { buf = t.buf ++ (c ∷ []) }
save_char false c t = t

-- One round of the loop, up to its two breaks.
unfoldable pub scan_char : Scan → ℕ → Scan
unfolding end_word save_char
scan_char t c =
    let (q, act) = split t.quotes t.prev c in
    let t' = save_char act.save c (end_word act.split t) in record t' { quotes = q; prev = c }

-- The two breaks, `ptr > buf+buf_len-2` and `i >= argc_max-1`.
abbrev pub is_full : (argc_max buf_len : ℕ) → Scan → Bool
is_full argc_max buf_len t = ltb buf_len (length t.buf + 2) || leb argc_max (length t.argv + 1)

unfoldable pub scan_line : (argc_max buf_len : ℕ) → Scan → List ℕ → Scan
scan_line argc_max buf_len t [] = t
scan_line argc_max buf_len t (c ∷ line) =
    let t' = scan_char t c in
    let rest = scan_line argc_max buf_len t' line in
    if is_full argc_max buf_len t' then t' else rest

-- The entries of argv before the NULL, and the bytes of the buffer.
pub record Parsed : Type 0 where
  pub argv : List ℕ
  pub buf : List ℕ

unfoldable pub finish : Scan → Parsed
finish t =
    if length t.buf == t.word
    then record { argv = t.argv; buf = t.buf }
    else record { argv = t.argv ++ (t.word ∷ []); buf = t.buf ++ (0 ∷ []) }

unfoldable pub parse : (line : List ℕ) → (argc_max buf_len : ℕ) → Parsed
unfolding scan_line finish
parse line argc_max buf_len = finish (scan_line argc_max buf_len init line)
