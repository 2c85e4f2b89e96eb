-- ===== src/Shell/Examples.antt =====
-- Short lines of text, parsed, and the theorems about the shell at them.
use systems_projects.Prelude.{ℕ, ◌≤◌, ◌≡◌, refl, true, some, List, [], ◌∷◌, length, arith}
use systems_projects.Shell.Parser.{parse, finish, scan_char, scan_line, split, end_word, save_char}
use systems_projects.Shell.Parser.Words.{is_plain}
use systems_projects.Shell.Parser.Bounds.{pipes, parse_bounds, parse-pipes}
use systems_projects.Shell.Parser.RoundTrip.{
  Typed, IsTyped, text, words_of, strings, strings-parse-text,
}
use systems_projects.Shell.Commands.{Token, less, pipe, word, CommandList, build_command_list}
use systems_projects.Shell.Commands.Lines.{
  Line, last, piped, anded, from, tokens_of, views, meaning,
}
use systems_projects.Shell.Commands.Pipeline.{build_command_list-tokens_of}
use systems_projects.Shell.Commands.Links.{IsLinked, build_command_list-IsLinked}

abbrev typed : ℕ → ℕ → Typed
typed c d = record { head = c; tail = d ∷ []; blank = b' '; blanks = [] }

-- `ls -a`, each word with a blank behind it.
abbrev ls : List Typed
ls = typed b'l' b's' ∷ typed b'-' b'a' ∷ []

ls_word : (c d : ℕ) → is_plain c ≡ true → is_plain d ≡ true → IsTyped (typed c d)
ls_word c d h k = record {
  plain_head = h;
  plain_tail = (k, tt);
  one_blank = refl;
  more_blanks = tt;
}

-- `a|'b c'`: the operator is a word of its own, and a blank within quotes is kept.
quoted_runs :
    parse (b'a' ∷ b'|' ∷ b'\'' ∷ b'b' ∷ b' ' ∷ b'c' ∷ b'\'' ∷ []) 8 16
    ≡ record { buf = b'a' ∷ 0 ∷ b'|' ∷ 0 ∷ b'b' ∷ b' ' ∷ b'c' ∷ 0 ∷ []; argv = 0 ∷ 2 ∷ 4 ∷ [] }
unfolding parse finish scan_line scan_char split end_word save_char
quoted_runs = refl

parse_bounds_example :
    (length (parse (b'a' ∷ pipes 3) 2 4).argv ≤ 2) × (length (parse (b'a' ∷ pipes 3) 2 4).buf ≤ 5)
parse_bounds_example = parse_bounds 2 4 (b'a' ∷ pipes 3) (omega arith) (omega arith)

parse-pipes_example : length (parse (b'a' ∷ pipes 2) 3 16).argv ≡ 3
parse-pipes_example = parse-pipes b'a' 1 16 refl refl (omega arith)

strings-parse-text_example : let p = parse (text ls) 4 16 in strings p.buf p.argv ≡ words_of ls
strings-parse-text_example =
    strings-parse-text ls 4 16 (ls_word b'l' b's' refl refl, (ls_word b'-' b'a' refl refl, tt))
      (omega arith) (omega arith)

-- `a <f | b`.
abbrev piped_tokens : List Token
piped_tokens = word (b'a' ∷ []) ∷ less ∷ word (b'f' ∷ []) ∷ pipe ∷ word (b'b' ∷ []) ∷ []

build_command_list-IsLinked_example :
    (r : CommandList) × (build_command_list piped_tokens ≡ some r) × IsLinked r
build_command_list-IsLinked_example = build_command_list-IsLinked piped_tokens

-- `a <f | b c && d`.
abbrev three_stages : Line
three_stages =
    piped (record { program = b'a' ∷ []; arguments = []; redirects = from (b'f' ∷ []) ∷ [] })
      (anded (record { program = b'b' ∷ []; arguments = (b'c' ∷ []) ∷ []; redirects = [] })
        (last (record { program = b'd' ∷ []; arguments = []; redirects = [] })))

build_command_list-tokens_of_example :
    (r : CommandList) × (build_command_list (tokens_of three_stages) ≡ some r)
    × (views r.cells ≡ meaning three_stages)
build_command_list-tokens_of_example = build_command_list-tokens_of three_stages
