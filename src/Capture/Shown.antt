-- ===== src/Capture/Shown.antt =====
-- What the preview of internal/cmdoutput/cmdoutput.go shows, line by line.
use mathlib.Core.List.{append_assoc, append-nil}
use lightcode.Prelude.{
  inl, inr, ℕ, ◌-◌, ◌≤◌, ◌<◌, ◌≡◌, refl, true, false, ◌&&◌, List, [], ◌∷◌, ◌++◌, map, Text,
  if◌then◌else◌, leb, ltb, ◌==◌, length, take, drop, arith, length-append, length-drop, length-take,
  take_over, drop-drop, drop_at, take-append-drop, if_cases, Bool-cases, ap, ◌∙◌,
}
use lightcode.Capture.Lines.{
  lines_of, shown, summary, attach, attach_newline, attach-starting, take-push, push_last_lem,
}
use lightcode.Capture.Preview.{
  Preview, new_preview, note, finish_line, read_rune, read, join_lines, format_lines,
  format_preview,
}

-- After the finished lines `ls`, with `raw` of the line that is being read
record HasRead (cap : ℕ) (ls : List Text) (raw : Text) (p : Preview) : Type 0 where
  capped : p.line_cap ≡ cap
  first_ten : p.first ≡ take 10 ls
  last_ten : p.last ≡ drop (length ls - 10) ls
  count : p.lines ≡ length ls
  cut : p.current ≡ (if cap == 0 then raw else take cap raw)
  runes : p.current_runes ≡ length raw
  any : p.current_has_any ≡ ltb 0 (length raw)

line-shown :
    (cap : ℕ) (ls : List Text) (raw : Text) (p : Preview)
    → HasRead cap ls raw p
    → (if ltb 0 p.line_cap && ltb p.line_cap p.current_runes
        then p.current ++ note p.current_runes
        else p.current)
      ≡ shown cap raw
line-shown cap ls raw p h = rw (h.capped, h.runes, h.cut) (ground (arith, take_over cap raw))

HasRead-finish_line :
    (cap : ℕ) (ls : List Text) (raw : Text) (p : Preview)
    → HasRead cap ls raw p
    → HasRead cap (ls ++ shown cap raw ∷ []) [] (finish_line p)
unfolding finish_line
HasRead-finish_line cap ls raw p h = record {
  capped = h.capped;
  first_ten = rw (line-shown cap ls raw p h, h.first_ten) (take-push 10 ls (shown cap raw));
  last_ten = rw (line-shown cap ls raw p h, h.last_ten) (push_last_lem ls (shown cap raw));
  count = omega (arith, h.count, length-append ls (shown cap raw ∷ []));
  cut = ground (arith, take_over {A = ℕ} cap []);
  runes = refl;
  any = refl;
}

read_rune_newline : (ch : ℕ) (p : Preview) → (ch == 10) ≡ true → read_rune ch p ≡ finish_line p
unfolding read_rune
read_rune_newline ch p e = rw e

HasRead-read_rune :
    (cap : ℕ) (ls : List Text) (raw : Text) (ch : ℕ) (p : Preview)
    → (ch == 10) ≡ false
    → HasRead cap ls raw p
    → HasRead cap ls (raw ++ ch ∷ []) (read_rune ch p)
unfolding read_rune
HasRead-read_rune cap ls raw ch p e h = rw e (record {
  capped = h.capped;
  first_ten = h.first_ten;
  last_ten = h.last_ten;
  count = h.count;
  cut = rw (h.capped, h.runes, h.cut) (ground (arith, length-take cap raw, take-push cap raw ch));
  runes = omega (arith, h.runes, length-append raw (ch ∷ []));
  any = ground (arith, length-append raw (ch ∷ []));
})

lines-newline :
    (cap : ℕ) (ls : List Text) (raw : Text) (ch : ℕ) (text : Text)
    → (ch == 10) ≡ true
    → (ls ++ shown cap raw ∷ []) ++ map (shown cap) (lines_of text)
      ≡ ls ++ map (shown cap) (attach raw (lines_of (ch ∷ text)))
unfolding lines_of
lines-newline cap ls raw ch text e =
    rw (e, attach_newline raw (lines_of text))
      (append_assoc ls (shown cap raw ∷ []) (map (shown cap) (lines_of text)))

lines-other :
    (cap : ℕ) (ls : List Text) (raw : Text) (ch : ℕ) (text : Text)
    → (ch == 10) ≡ false
    → ls ++ map (shown cap) (attach (raw ++ ch ∷ []) (lines_of text))
      ≡ ls ++ map (shown cap) (attach raw (lines_of (ch ∷ text)))
unfolding lines_of
lines-other cap ls raw ch text e = rw (e, attach-starting raw ch (lines_of text)) refl

HasRead-at :
    (cap : ℕ) (ls ls' : List Text) (p : Preview)
    → ls ≡ ls'
    → HasRead cap ls [] p
    → HasRead cap ls' [] p
HasRead-at cap ls ls' p e h = rw (← e) h

HasRead-read :
    (cap : ℕ) (ls : List Text) (raw text : Text) (p : Preview)
    → HasRead cap ls raw p
    → HasRead cap (ls ++ map (shown cap) (attach raw (lines_of text))) [] (read text p)
unfolding read lines_of
HasRead-read cap ls [] [] p h =
    if_cases (HasRead cap (ls ++ []) []) p.current_has_any _ p (λ e. ground (arith, e, h.any))
      (λ _. rw (append-nil ls) h)
HasRead-read cap ls (r ∷ rs) [] p h =
    if_cases (HasRead cap (ls ++ shown cap (r ∷ rs) ∷ []) []) p.current_has_any (finish_line p) p
      (λ _. HasRead-finish_line cap ls (r ∷ rs) p h) (λ e. ground (arith, e, h.any))
HasRead-read cap ls raw (ch ∷ text) p h = elim (Bool-cases (ch == 10)) [
  | inl e ↦ HasRead-at cap _ _ (read text (read_rune ch p)) (lines-newline cap ls raw ch text e) (
      rw (read_rune_newline ch p e) (
        HasRead-read cap (ls ++ shown cap raw ∷ []) [] text (finish_line p)
          (HasRead-finish_line cap ls raw p h)))
  | inr e ↦ HasRead-at cap _ _ (read text (read_rune ch p)) (lines-other cap ls raw ch text e) (
      HasRead-read cap ls (raw ++ ch ∷ []) text (read_rune ch p)
        (HasRead-read_rune cap ls raw ch p e h))
]

-- Between eleven and twenty lines, what of the last ten is not among the first ten is added to these.
take-last_ten :
    (ls : List Text)
    → (length ls ≤ 20)
    → 10 < length ls
    → take 10 ls
        ++ drop (length (drop (length ls - 10) ls) - (length ls - 10)) (drop (length ls - 10) ls)
      ≡ ls
take-last_ten ls h k =
    ap (λ t. take 10 ls ++ t)
      (drop-drop (length (drop (length ls - 10) ls) - (length ls - 10)) (length ls - 10) ls
        ∙ drop_at _ 10 ls (omega (arith, length-drop (length ls - 10) ls)))
    ∙ take-append-drop 10 ls

format_lines-summary :
    (cap : ℕ) (ls : List Text) (p : Preview) (marker : Text)
    → HasRead cap ls [] p
    → format_lines p marker ≡ summary ls marker
unfolding format_lines
format_lines-summary cap ls p marker h =
    rw (h.first_ten, h.last_ten, h.count)
      (elim (Bool-cases (leb (length ls) 10)) [
        | inl e ↦ ground (arith, take_over 10 ls, append-nil ls)
        | inr e ↦ ground (arith, take-last_ten ls)
      ])

-- Whatever the output: the preview shows its lines, each of them cut at the cap, all of them up to twenty,
-- and of more the first and the last ten with the marker between them.
pub format_preview-summary :
    (max_line_chars max_bytes : ℕ) (text marker : Text)
    → format_preview max_line_chars max_bytes text marker
      ≡ join_lines (
          summary
            (map
              (shown (if max_line_chars == 0 then max_bytes else max_line_chars))
              (lines_of text))
            marker)
format_preview-summary max_line_chars max_bytes text marker =
    let cap = if max_line_chars == 0 then max_bytes else max_line_chars in
    ap join_lines (
      format_lines-summary cap _ _ marker (
        HasRead-read cap [] [] text (new_preview max_line_chars max_bytes) (record {
          capped = refl;
          first_ten = refl;
          last_ten = refl;
          count = refl;
          cut = ground (arith, take_over {A = ℕ} cap []);
          runes = refl;
          any = refl;
        })))
