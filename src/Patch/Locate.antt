-- ===== src/Patch/Locate.antt =====
-- The searches of internal/tool/apply_patch_match.go find the first place, and miss none.
use lightcode.Prelude.{
  ℕ, zero, suc, ◌+◌, ◌≤◌, ◌<◌, ◌≡◌, refl, Bool, true, false, ◌&&◌, Option, none, some, List, ◌∷◌,
  Text, length, leb, ltb, ◌==◌, ==_iff, arith, Bool-cases, inl, inr,
}
use lightcode.Patch.{
  HunkLine, HunkLocation, Result, fails, gives, no_expected_lines, first_from, match_pattern_at,
  min_of, last_line, init_lines, is_blank_context, ends_at, retry, starts_left, locate_end,
  seq_result, locate_seq, pattern_texts,
}

-- The first of `count` numbers from `from` that passes, or none that does.
abbrev pub IsFirst : (ℕ → Bool) → ℕ → ℕ → Option ℕ → Type 0
IsFirst test from count none = (i : ℕ) → (test i && leb from i && ltb i (from + count)) ≡ false
IsFirst test from count (some r) =
    (test r ≡ true)
    × (from ≤ r)
    × (r < from + count)
    × ((i : ℕ) → (test i && leb from i && ltb i r) ≡ false)

skip_number :
    (test : ℕ → Bool) (from end i : ℕ)
    → test from ≡ false
    → (test i && leb (1 + from) i && ltb i end) ≡ false
    → (test i && leb from i && ltb i end) ≡ false
skip_number test from end i h k = elim (Bool-cases (i == from)) [
  | inl e ↦ let same : i ≡ from = (==_iff i from).0 e in rw same (ground (arith, h))
  | inr e ↦ ground (arith, k)
]

IsFirst-cons :
    (test : ℕ → Bool) (from count : ℕ) (o : Option ℕ)
    → test from ≡ false
    → IsFirst test (1 + from) count o
    → IsFirst test from (suc count) o
IsFirst-cons test from count none h k =
    λ i. skip_number test from (from + suc count) i h (ground (arith, k i))
IsFirst-cons test from count (some r) h k =
    let (passes, low, high, before) = k in
    (passes, omega (arith, low), omega (arith, high), λ i. skip_number test from r i h (before i))

pub first_from-IsFirst :
    (test : ℕ → Bool) (from count : ℕ) → IsFirst test from count (first_from test from count)
unfolding first_from
first_from-IsFirst test from zero = λ i. ground arith
first_from-IsFirst test from (suc n) = elim (Bool-cases (test from)) [
  | inl h ↦ rw h (h, omega arith, omega arith, λ i. ground arith)
  | inr h ↦ rw h (IsFirst-cons test from n _ h (first_from-IsFirst test (1 + from) n))
]

-- From `c` on, the pattern stands nowhere in the file.
abbrev pub Nowhere : List Text → List HunkLine → ℕ → Type 0
Nowhere lines pattern c =
    (i : ℕ)
    → (match_pattern_at lines pattern i && leb c i && leb (i + length pattern) (length lines))
      ≡ false

-- A location of a pattern, and one of a pattern without its blank last line at the end of the file
abbrev pub LocatedAt : List Text → HunkLine → List HunkLine → ℕ → HunkLocation → Bool → Type 0
LocatedAt lines p ps c l false =
    (match_pattern_at lines (p ∷ ps) l.start ≡ true)
    × (c ≤ l.start)
    × (l.start + length (p ∷ ps) ≤ length lines)
    × (l.real_matched_len ≡ length (p ∷ ps))
    × ((i : ℕ) → (match_pattern_at lines (p ∷ ps) i && leb c i && ltb i l.start) ≡ false)
LocatedAt lines p ps c l true =
    (is_blank_context (last_line p ps) ≡ true)
    × (match_pattern_at lines (init_lines p ps) l.start ≡ true)
    × (c ≤ l.start)
    × (l.start + length (init_lines p ps) ≡ length lines)
    × (l.real_matched_len ≡ length (init_lines p ps))
    × Nowhere lines (p ∷ ps) c

abbrev pub Located : List Text → HunkLine → List HunkLine → ℕ → Result HunkLocation → Type 0
Located lines p ps c (gives l) = LocatedAt lines p ps c l l.synthetic_trailing_empty
Located lines p ps c (fails e) =
    (e ≡ no_expected_lines (pattern_texts (p ∷ ps)))
    × Nowhere lines (p ∷ ps) c
    × ((i : ℕ)
        → (is_blank_context (last_line p ps) && ends_at lines (init_lines p ps) i && leb c i)
          ≡ false)

module _ (lines : List Text) (p : HunkLine) (ps : List HunkLine) (c : ℕ) where
  retry-Located :
      (o : Option ℕ)
      → is_blank_context (last_line p ps) ≡ true
      → Nowhere lines (p ∷ ps) c
      → IsFirst (ends_at lines (init_lines p ps)) c (starts_left lines (init_lines p ps) c) o
      → Located lines p ps c (retry (p ∷ ps) (init_lines p ps) o)
  retry-Located none b n f = (refl, n, λ i. ground (arith, f i))
  retry-Located (some r) b n (passes, low, high, before) =
      (b, ground (arith, passes), low, ground (arith, passes), refl, n)

  locate_end-Located : Nowhere lines (p ∷ ps) c → Located lines p ps c (locate_end lines p ps c)
  locate_end-Located n = elim (Bool-cases (is_blank_context (last_line p ps))) [
    | inl h ↦ rw h (retry-Located _ h n (first_from-IsFirst (ends_at lines (init_lines p ps)) c _))
    | inr h ↦ rw h (refl, n, λ i. rw h refl)
  ]

  seq_result-Located :
      (o : Option ℕ)
      → IsFirst (match_pattern_at lines (p ∷ ps)) c (starts_left lines (p ∷ ps) c) o
      → Located lines p ps c (seq_result lines p ps c o)
  seq_result-Located none f = locate_end-Located (λ i. ground (arith, f i))
  seq_result-Located (some r) (passes, low, high, before) =
      (passes, low, omega (arith, high), refl, before)

-- The search for a pattern's lines is sound, complete and takes the first place: a location stands
-- at or after the cursor (cut at the file's length), inside the file, the pattern matches there and
-- nowhere between the cursor and it; a synthetic location is given only when the whole pattern stands nowhere, its last line is a
-- blank context line and the others match at the very end of the file; and the search fails, with
-- the pattern's lines, only when neither exists.
pub locate_seq_lem :
    (lines : List Text) (p : HunkLine) (ps : List HunkLine) (cursor : ℕ)
    → Located lines p ps (min_of cursor (length lines)) (locate_seq lines (p ∷ ps) cursor)
unfolding locate_seq
locate_seq_lem lines p ps cursor =
    let c : ℕ = min_of cursor (length lines) in
    seq_result-Located lines p ps c _ (first_from-IsFirst (match_pattern_at lines (p ∷ ps)) c _)
