-- ===== src/Terminal/History.antt =====
-- InputHistory of internal/terminal/input.go, over texts as code points.
use lightcode.Prelude.{
  ◌||◌, ◌≢◌, ℕ, zero, suc, ◌+◌, ◌-◌, ◌≤◌, ◌<◌, ◌≡◌, refl, Bool, true, false, none, some, List, [],
  ◌∷◌, ◌++◌, Text, same, same_iff, is_empty, arith, ◌==◌, leb, if◌then◌else◌, length, get_elem?,
  length-append, trim_space, ap, ◌∙◌,
}

pub record InputHistory : Type 0 where
  pub entries : List Text
  pub pos : ℕ
  pub draft : Text

abbrev pub new_input_history : InputHistory
new_input_history = record { entries = []; pos = 0; draft = [] }

-- What Prev and Next return: nothing, a text, or a panic for an index out of range.
pub data Recall : Type 0 where
  nothing panics : Recall
  recalled : Text → Recall

abbrev pub entry_at : List Text → ℕ → Recall
entry_at entries i = elim (get_elem? entries i) [ none ↦ panics | some t ↦ recalled t ]

unfoldable pub is_blank : Text → Bool
is_blank t = is_empty (trim_space t)

unfoldable pub keep_entries : List Text → List Text
unfolding is_blank
keep_entries [] = []
keep_entries (e ∷ es) = let rest = keep_entries es in if is_blank e then rest else e ∷ rest

-- Whether the last entry is the text.
unfoldable pub last_is : List Text → Text → Bool
last_is [] t = false
last_is (e ∷ []) t = same e t
last_is (e ∷ f ∷ es) t = last_is (f ∷ es) t

abbrev at_rest : InputHistory → List Text → InputHistory
at_rest h entries = record { entries = entries; pos = length entries; draft = [] }

unfoldable pub reset : InputHistory → List Text → InputHistory
unfolding keep_entries
reset h entries = at_rest h (keep_entries entries)

unfoldable pub add : InputHistory → Text → InputHistory
unfolding is_blank last_is
add h text =
    if is_blank text
    then h
    else if last_is h.entries text
    then at_rest h h.entries
    else at_rest h (h.entries ++ text ∷ [])

unfoldable pub prev : InputHistory → Text → InputHistory × Recall
prev h current =
    if length h.entries == 0 || h.pos == 0
    then (h, nothing)
    else (let draft = if h.pos == length h.entries then current else h.draft in
        (record h { pos = h.pos - 1; draft = draft }, entry_at h.entries (h.pos - 1)))

unfoldable pub next : InputHistory → InputHistory × Recall
next h = if leb (length h.entries) h.pos then (h, nothing) else (
  record h { pos = h.pos + 1 },
  if h.pos + 1 == length h.entries then recalled h.draft else entry_at h.entries (h.pos + 1),
)

unfoldable pub edited : InputHistory → InputHistory
edited h = at_rest h h.entries

-- The position stands in the entries or just behind them.
abbrev pub IsPlaced : InputHistory → Type 0
IsPlaced h = h.pos ≤ length h.entries

get_elem?_within : (es : List Text) (i : ℕ) → i < length es → (t : Text) × (get_elem? es i ≡ some t)
get_elem?_within [] i h = elim h [ ]
get_elem?_within (e ∷ es) zero h = (e, refl)
get_elem?_within (e ∷ es) (suc i) h = get_elem?_within es i (omega arith)

entry_at_within : (es : List Text) (i : ℕ) → i < length es → entry_at es i ≢ panics
entry_at_within es i h = let (t, p) = get_elem?_within es i h in rw (p, entry_at) (λ q. cc)

-- From a position in the entries or just behind them, going up and going down lead to such a
-- position, and never index out of range.
pub navigation-IsPlaced :
    (h : InputHistory) (current : Text)
    → IsPlaced h
    → IsPlaced (prev h current).0
      × ((prev h current).1 ≢ panics)
      × IsPlaced (next h).0
      × ((next h).1 ≢ panics)
unfolding prev next
navigation-IsPlaced h current p = (
  ground arith,
  λ q. ground (arith, entry_at_within h.entries (h.pos - 1)),
  ground arith,
  λ q. ground (arith, entry_at_within h.entries (h.pos + 1)),
)

-- `n` times up from the line `current`, and `n + 1` times down
unfoldable pub ups : ℕ → InputHistory → Text → InputHistory
ups zero h current = h
ups (suc n) h current = (prev (ups n h current) current).0

unfoldable pub downs : ℕ → InputHistory → InputHistory × Recall
downs zero h = next h
downs (suc n) h = downs n (next h).0

ups_lem :
    (n : ℕ) (h : InputHistory) (current : Text)
    → h.pos ≡ length h.entries
    → n < length h.entries
    → ups (suc n) h current ≡ record h { pos = length h.entries - suc n; draft = current }
unfolding ups
ups_lem zero h current p q = unfold prev in ground arith
ups_lem (suc n) h current p q =
    ap (λ g. (prev g current).0) (ups_lem n h current p (omega arith))
    ∙ (unfold prev in ground arith)

downs_lem :
    (n : ℕ) (h : InputHistory)
    → h.pos + suc n ≡ length h.entries
    → downs n h ≡ (record h { pos = length h.entries }, recalled h.draft)
unfolding downs
downs_lem zero h p = unfold next in ground arith
downs_lem (suc n) h p =
    let step : (next h).0 ≡ record h { pos = h.pos + 1 } = unfold next in ground arith in
    ap (downs n) step ∙ downs_lem n (record h { pos = h.pos + 1 }) (omega arith)

-- From the line being written, any number of steps up, at most the number of the entries, and as
-- many down come back to it: the last step returns its text, and the position is at rest again.
pub downs-ups :
    (n : ℕ) (h : InputHistory) (current : Text)
    → h.pos ≡ length h.entries
    → n < length h.entries
    → downs n (ups (suc n) h current) ≡ (record h { draft = current }, recalled current)
downs-ups n h current p q =
    ap (downs n) (ups_lem n h current p q)
    ∙ downs_lem n (record h { pos = length h.entries - suc n; draft = current }) (omega arith)
    ∙ ground arith

entry_at_last :
    (es : List Text) (t : Text) → last_is es t ≡ true → entry_at es (length es - 1) ≡ recalled t
unfolding last_is
entry_at_last [] t h = cc
entry_at_last (e ∷ []) t h = ground (arith, same_iff e t)
entry_at_last (e ∷ f ∷ es) t h =
    let k : suc (suc (length es)) - 1 ≡ suc (suc (length es) - 1) = omega arith in
    rw k (entry_at_last (f ∷ es) t h)

entry_at_snoc : (es : List Text) (t : Text) → entry_at (es ++ t ∷ []) (length es) ≡ recalled t
entry_at_snoc [] t = refl
entry_at_snoc (e ∷ es) t = entry_at_snoc es t

length-last_is : (es : List Text) (t : Text) → last_is es t ≡ true → 0 < length es
unfolding last_is
length-last_is [] t h = cc
length-last_is (e ∷ es) t h = omega arith

-- A line that is not blank is what one step up recalls after it has been added, whatever the input
-- holds then, also where it repeats the last entry.
pub prev-add :
    (h : InputHistory) (text current : Text)
    → is_blank text ≡ false
    → (prev (add h text) current).1 ≡ recalled text
unfolding prev add
prev-add h text current b = ground (
  arith,
  entry_at_last h.entries text,
  entry_at_snoc h.entries text,
  length-last_is h.entries text,
  length-append h.entries (text ∷ []),
)
