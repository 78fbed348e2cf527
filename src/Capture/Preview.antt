-- ===== src/Capture/Preview.antt =====
-- The preview of internal/cmdoutput/cmdoutput.go: the first and the last ten lines of an output that does not
-- fit. A text is its code points, a cap that is not positive is 0, and newline is 10.
use lightcode.Prelude.{
  ℕ, zero, suc, ◌+◌, ◌-◌, ◌/◌, ◌%◌, Bool, true, false, ◌&&◌, ◌||◌, List, [], ◌∷◌, ◌++◌, Text, codes,
  if◌then◌else◌, leb, ltb, ◌==◌, length, take, drop,
}

-- The digits of fmt's %d, where more fuel than the number is enough
unfoldable pub decimal_on : ℕ → ℕ → Text
decimal_on zero n = []
decimal_on (suc fuel) n =
    let rest = decimal_on fuel (n / 10) in (if ltb n 10 then [] else rest) ++ (48 + n % 10) ∷ []

abbrev pub decimal : ℕ → Text
decimal n = decimal_on (suc n) n

pub record Preview : Type 0 where
  pub line_cap : ℕ
  pub first : List Text
  pub last : List Text
  pub lines : ℕ
  pub current : Text
  pub current_runes : ℕ
  pub current_has_any : Bool

abbrev pub new_preview : ℕ → ℕ → Preview
new_preview max_line_chars max_bytes = record {
  line_cap = if max_line_chars == 0 then max_bytes else max_line_chars;
  first = [];
  last = [];
  lines = 0;
  current = [];
  current_runes = 0;
  current_has_any = false;
}

abbrev pub note : ℕ → Text
note runes = codes "... [truncated " ++ decimal runes ++ codes " chars]"

-- The oldest of the last lines goes when there are more than ten.
unfoldable pub push_last : List Text → Text → List Text
push_last last line =
    let pushed = last ++ line ∷ [] in
    if ltb 10 (length pushed) then take 10 (drop 1 pushed) else pushed

unfoldable pub finish_line : Preview → Preview
finish_line p =
    let line =
      if ltb 0 p.line_cap && ltb p.line_cap p.current_runes
      then p.current ++ note p.current_runes
      else p.current in
    record p {
      lines = p.lines + 1;
      first = if ltb (length p.first) 10 then p.first ++ line ∷ [] else p.first;
      last = push_last p.last line;
      current = [];
      current_runes = 0;
      current_has_any = false;
    }

unfoldable pub read_rune : ℕ → Preview → Preview
unfolding finish_line
read_rune ch p = if ch == 10 then finish_line p else record p {
  current_has_any = true;
  current_runes = p.current_runes + 1;
  current =
      if p.line_cap == 0 || leb (p.current_runes + 1) p.line_cap
      then p.current ++ ch ∷ []
      else p.current;
}

unfoldable pub read : Text → Preview → Preview
unfolding read_rune finish_line
read [] p = if p.current_has_any then finish_line p else p
read (ch ∷ text) p = read text (read_rune ch p)

-- strings.Join with a newline
unfoldable pub join_lines : List Text → Text
join_lines [] = []
join_lines (l ∷ []) = l
join_lines (l ∷ m ∷ ls) = l ++ 10 ∷ join_lines (m ∷ ls)

unfoldable pub format_lines : Preview → Text → List Text
format_lines p marker =
    if leb p.lines 20
    then (p.first ++ (if ltb 10 p.lines then drop (length p.last - (p.lines - 10)) p.last else []))
      ++ marker ∷ []
    else (p.first ++ marker ∷ []) ++ p.last

abbrev pub format : Preview → Text → Text
format p marker = join_lines (format_lines p marker)

-- What Format shows of an output over its bound
abbrev pub format_preview : ℕ → ℕ → Text → Text → Text
format_preview max_line_chars max_bytes text marker =
    format (read text (new_preview max_line_chars max_bytes)) marker
