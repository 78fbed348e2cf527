-- ===== src/Terminal/Completion.antt =====
-- CompleteSlashCommand and longestCommonPrefix of internal/terminal/input.go.
use mathlib.Core.Bool.{false≢true}
use mathlib.Core.Path.{subst}
use native.Mathlib.Decide.{dec_le}
use lightcode.Prelude.{
  ◌↔◌, ℕ, zero, suc, ◌≤◌, ◌≡◌, ◌⊎◌, refl, true, false, not, List, [], ◌∷◌, ◌++◌, Text, arith, ltb,
  if◌then◌else◌, length, take, All, has_prefix, Bool-cases, inl, inr, ◌∙◌, sym, codes,
}

-- The inner loop: the prefix is cut from its end until `s` begins with it. `n` is its length so far.
unfoldable pub shrink : Text → Text → ℕ → Text
shrink s prefix zero = []
shrink s prefix (suc n) =
    let rest = shrink s prefix n in
    if has_prefix s (take (suc n) prefix) then take (suc n) prefix else rest

unfoldable pub common_from : Text → List Text → Text
unfolding shrink
common_from prefix [] = prefix
common_from prefix (s ∷ strs) = common_from (shrink s prefix (length prefix)) strs

unfoldable pub longest_common_prefix : List Text → Text
unfolding common_from
longest_common_prefix [] = []
longest_common_prefix (s ∷ strs) = common_from s strs

unfoldable pub matching : Text → List Text → List Text
matching text [] = []
matching text (c ∷ cs) = let rest = matching text cs in if has_prefix c text then c ∷ rest else rest

abbrev pub choose : Text → List Text → Text
choose text [] = text
choose text (m ∷ []) = m ++ codes " "
choose text (m ∷ n ∷ ms) =
    let lcp = longest_common_prefix (m ∷ n ∷ ms) in
    if ltb (length text) (length lcp) then lcp else text

unfoldable pub complete_slash_command : Text → List Text → Text
unfolding matching longest_common_prefix
complete_slash_command text commands =
    if not (has_prefix text (codes "/")) then text else choose text (matching text commands)

has_prefix_nil : (s : Text) → has_prefix s [] ≡ true
unfolding has_prefix
has_prefix_nil [] = refl
has_prefix_nil (c ∷ s) = refl

-- Prefixes: reflexive, transitive, and comparable where they are of one text.
has_prefix_refl : (s : Text) → has_prefix s s ≡ true
unfolding has_prefix
has_prefix_refl [] = refl
has_prefix_refl (c ∷ s) = ground (arith, has_prefix_refl s)

has_prefix_trans :
    (s t u : Text) → has_prefix s t ≡ true → has_prefix t u ≡ true → has_prefix s u ≡ true
unfolding has_prefix
has_prefix_trans s t [] h k = has_prefix_nil s
has_prefix_trans [] [] (z ∷ u) h k = cc
has_prefix_trans [] (y ∷ t) (z ∷ u) h k = cc
has_prefix_trans (x ∷ s) [] (z ∷ u) h k = cc
has_prefix_trans (x ∷ s) (y ∷ t) (z ∷ u) h k = ground (arith, has_prefix_trans s t u)

has_prefix-take : (n : ℕ) (s : Text) → has_prefix s (take n s) ≡ true
unfolding has_prefix
has_prefix-take zero [] = refl
has_prefix-take zero (c ∷ s) = refl
has_prefix-take (suc n) [] = refl
has_prefix-take (suc n) (c ∷ s) = ground (arith, has_prefix-take n s)

-- A prefix is a `take` of the text.
has_prefix-eq-take : (s p : Text) → has_prefix s p ≡ true → p ≡ take (length p) s
unfolding has_prefix
has_prefix-eq-take [] [] h = refl
has_prefix-eq-take (c ∷ s) [] h = refl
has_prefix-eq-take [] (x ∷ p) h = cc
has_prefix-eq-take (c ∷ s) (x ∷ p) h = ground (arith, has_prefix-eq-take s p)

length-has_prefix : (s p : Text) → has_prefix s p ≡ true → length p ≤ length s
unfolding has_prefix
length-has_prefix s [] h = omega arith
length-has_prefix [] (x ∷ p) h = cc
length-has_prefix (c ∷ s) (x ∷ p) h = ground (arith, length-has_prefix s p)

shrink_prefix :
    (s prefix : Text) (n : ℕ)
    → (has_prefix s (shrink s prefix n) ≡ true) × (has_prefix prefix (shrink s prefix n) ≡ true)
unfolding shrink
shrink_prefix s prefix zero = (has_prefix_nil s, has_prefix_nil prefix)
shrink_prefix s prefix (suc n) =
    ground (arith, shrink_prefix s prefix n, has_prefix-take (suc n) prefix)

take-has_prefix :
    (n : ℕ) (s p : Text) → length p ≤ n → has_prefix s p ≡ true → has_prefix (take n s) p ≡ true
unfolding has_prefix
take-has_prefix n s [] b h = has_prefix_nil (take n s)
take-has_prefix zero s (x ∷ p) b h = absurd (omega arith)
take-has_prefix (suc n) [] (x ∷ p) b h = h
take-has_prefix (suc n) (c ∷ s) (x ∷ p) b h = ground (arith, take-has_prefix n s p)

shrink_longest :
    (s prefix p : Text) (n : ℕ)
    → length p ≤ n
    → has_prefix s p ≡ true
    → has_prefix prefix p ≡ true
    → has_prefix (shrink s prefix n) p ≡ true
unfolding shrink
shrink_longest s prefix [] zero b h k = unfold has_prefix in refl
shrink_longest s prefix (x ∷ p) zero b h k = absurd (omega arith)
shrink_longest s prefix p (suc n) b h k = elim (Bool-cases (has_prefix s (take (suc n) prefix))) [
  | inl q ↦ rw q (take-has_prefix (suc n) prefix p b k)
  | inr q ↦ rw q (shrink_longest s prefix p n (shorter q) h k)
]
  where
    shorter : has_prefix s (take (suc n) prefix) ≡ false → length p ≤ n
    shorter q = elim (dec_le (length p) n) [
      | yes l ↦ l
      | no l ↦
          let full : length p ≡ suc n = omega arith in
          absurd (
            false≢true (
              sym q
              ∙ subst (λ m. has_prefix s (take m prefix) ≡ true) full
                  (rw (← has_prefix-eq-take prefix p k) h)))
    ]

-- `p` begins every text of the list.
abbrev pub BeginsAll : Text → List Text → Type 0
BeginsAll p = All (λ s. has_prefix s p ≡ true)

common_from_prefix :
    (prefix : Text) (strs : List Text)
    → (has_prefix prefix (common_from prefix strs) ≡ true)
      × BeginsAll (common_from prefix strs) strs
unfolding common_from
common_from_prefix prefix [] = (has_prefix_refl prefix, tt)
common_from_prefix prefix (s ∷ strs) =
    let cut = shrink s prefix (length prefix) in
    let (a, b) = shrink_prefix s prefix (length prefix) in
    let (c, d) = common_from_prefix cut strs in
    (
      has_prefix_trans prefix cut (common_from cut strs) b c,
      (has_prefix_trans s cut (common_from cut strs) a c, d),
    )

common_from_longest :
    (prefix p : Text) (strs : List Text)
    → has_prefix prefix p ≡ true
    → BeginsAll p strs
    → has_prefix (common_from prefix strs) p ≡ true
unfolding common_from
common_from_longest prefix p [] h b = h
common_from_longest prefix p (s ∷ strs) h b =
    common_from_longest (shrink s prefix (length prefix)) p strs
      (shrink_longest s prefix p (length prefix) (length-has_prefix prefix p h) b.0 h) b.1

BeginsAll-trans :
    (q p : Text) (ts : List Text) → has_prefix q p ≡ true → BeginsAll q ts → BeginsAll p ts
BeginsAll-trans q p [] h b = tt
BeginsAll-trans q p (t ∷ ts) h b = (has_prefix_trans t q p b.0 h, BeginsAll-trans q p ts h b.1)

-- The longest common prefix begins every text, and every text that begins them all begins it too.
pub longest_common_prefix_lem :
    (s p : Text) (strs : List Text)
    → BeginsAll (longest_common_prefix (s ∷ strs)) (s ∷ strs)
      × (BeginsAll p (s ∷ strs) ↔ (has_prefix (longest_common_prefix (s ∷ strs)) p ≡ true))
unfolding longest_common_prefix
longest_common_prefix_lem s p strs =
    let (a, b) = common_from_prefix s strs in
    (
      (a, b),
      (
        λ h. common_from_longest s p strs h.0 h.1,
        λ h. (
          has_prefix_trans s (common_from s strs) p a h,
          BeginsAll-trans (common_from s strs) p strs h b,
        ),
      ),
    )

matching-BeginsAll : (text : Text) (commands : List Text) → BeginsAll text (matching text commands)
unfolding matching
matching-BeginsAll text [] = tt
matching-BeginsAll text (c ∷ cs) = elim (Bool-cases (has_prefix c text)) [
  | inl q ↦ rw q (q, matching-BeginsAll text cs)
  | inr q ↦ rw q (matching-BeginsAll text cs)
]

has_prefix-append : (s t : Text) → has_prefix (s ++ t) s ≡ true
unfolding has_prefix
has_prefix-append [] t = has_prefix_nil t
has_prefix-append (c ∷ s) t = ground (arith, has_prefix-append s t)

-- One command is completed in full, with a space; several keep a text that begins them all.
abbrev pub Completes : Text → List Text → Type 0
Completes result matches =
    ((m : Text) × (matches ≡ m ∷ []) × (result ≡ m ++ codes " ")) ⊎ BeginsAll result matches

choose_lem :
    (text : Text) (matches : List Text)
    → BeginsAll text matches
    → (has_prefix (choose text matches) text ≡ true) × Completes (choose text matches) matches
choose_lem text [] b = (has_prefix_refl text, inr tt)
choose_lem text (m ∷ []) b = (
  has_prefix_trans (m ++ codes " ") m text (has_prefix-append m (codes " ")) b.0,
  inl (m, refl, refl),
)
choose_lem text (m ∷ n ∷ ms) b =
    let lcp = longest_common_prefix (m ∷ n ∷ ms) in
    let (all, best) = longest_common_prefix_lem m text (n ∷ ms) in
    let Good : Text → Type 0 = λ r. (has_prefix r text ≡ true) × Completes r (m ∷ n ∷ ms) in
    elim (Bool-cases (ltb (length text) (length lcp))) [
      | inl q ↦ subst Good {x = lcp} (ground arith) (best.0 b, inr all)
      | inr q ↦ subst Good {x = text} (ground arith) (has_prefix_refl text, inr b)
    ]

-- Completion of a text that begins with a slash never takes back what has been typed. The only matching command is completed in full
-- with a space behind it, and with several the result still begins every matching command.
pub complete_slash_command_lem :
    (text : Text) (commands : List Text)
    → has_prefix text (codes "/") ≡ true
    → (has_prefix (complete_slash_command text commands) text ≡ true)
      × Completes (complete_slash_command text commands) (matching text commands)
unfolding complete_slash_command
complete_slash_command_lem text commands h =
    rw h (choose_lem text (matching text commands) (matching-BeginsAll text commands))
