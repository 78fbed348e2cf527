-- ===== src/Capture/Lines.antt =====
-- The lines of an output, cut and chosen, and what the two lists of ten of internal/cmdoutput/cmdoutput.go are of them
use mathlib.Core.List.{append_assoc, append-nil}
use lightcode.Prelude.{
  inl, inr, ℕ, zero, suc, ◌+◌, ◌-◌, ◌*◌, ◌/◌, ◌%◌, ◌<◌, ◌≡◌, refl, ◌||◌, List, [], ◌∷◌, ◌++◌, Text,
  if◌then◌else◌, leb, ltb, ◌==◌, length, take, drop, arith, length-append, length-drop, length-take,
  take_over, take-append, drop-append, drop-drop_one, Bool-cases, ap, sym,
}
use lightcode.Capture.Preview.{decimal_on, note, push_last}

-- The number that a row of digits writes
abbrev pub value_from : ℕ → Text → ℕ
value_from acc [] = acc
value_from acc (d ∷ ds) = value_from (acc * 10 + (d - 48)) ds

value_from-append :
    (acc : ℕ) (ds : Text) (d : ℕ)
    → value_from acc (ds ++ d ∷ []) ≡ value_from acc ds * 10 + (d - 48)
value_from-append acc [] d = refl
value_from-append acc (x ∷ ds) d = value_from-append (acc * 10 + (x - 48)) ds d

-- More fuel than the number is enough: the digits write the number.
pub value_from-decimal_on : (fuel n : ℕ) → n < fuel → value_from 0 (decimal_on fuel n) ≡ n
unfolding decimal_on
value_from-decimal_on zero n h = omega (arith, h)
value_from-decimal_on (suc fuel) n h = ground (
  arith,
  value_from-append 0 (if ltb n 10 then [] else decimal_on fuel (n / 10)) (48 + n % 10),
  value_from-decimal_on fuel (n / 10),
)

-- The lines of a text, without an empty one behind its last newline
abbrev pub starting : ℕ → List Text → List Text
starting ch [] = (ch ∷ []) ∷ []
starting ch (l ∷ ls) = (ch ∷ l) ∷ ls

unfoldable pub lines_of : Text → List Text
lines_of [] = []
lines_of (ch ∷ text) = if ch == 10 then [] ∷ lines_of text else starting ch (lines_of text)

-- A line of at most `cap` code points as it is, and a longer one cut, with its length
abbrev pub shown : ℕ → Text → Text
shown cap line =
    if cap == 0 || leb (length line) cap then line else take cap line ++ note (length line)

-- Up to twenty lines are all there; of more, the marker stands for those between the first and the last ten.
abbrev pub summary : List Text → Text → List Text
summary ls marker =
    if leb (length ls) 20
    then ls ++ marker ∷ []
    else (take 10 ls ++ marker ∷ []) ++ drop (length ls - 10) ls

pub take-push :
    {A : Type 0} (n : ℕ) (ls : List A) (x : A)
    → (if ltb (length (take n ls)) n then take n ls ++ x ∷ [] else take n ls)
      ≡ take n (ls ++ x ∷ [])
take-push n ls x = elim (Bool-cases (leb n (length ls))) [
  | inl h ↦ ground (arith, length-take n ls, take-append n ls (x ∷ []) (ground (arith, h)))
  | inr h ↦ ground (
    arith,
    length-take n ls,
    take_over n ls,
    take_over n (ls ++ x ∷ []),
    length-append ls (x ∷ []),
  )
]

pub push_last_lem :
    (ls : List Text) (x : Text)
    → push_last (drop (length ls - 10) ls) x ≡ drop (length (ls ++ x ∷ []) - 10) (ls ++ x ∷ [])
unfolding push_last
push_last_lem ls x =
    let k = length ls - 10 in
    elim (Bool-cases (leb 10 (length ls))) [
      | inl h ↦ ground (
        arith,
        length-drop k ls,
        length-append ls (x ∷ []),
        length-append (drop k ls) (x ∷ []),
        drop-append (suc k) ls (x ∷ []) (ground (arith, h)),
        drop-append k ls (x ∷ []) (omega arith),
        drop-drop_one k (ls ++ x ∷ []),
        length-drop (suc k) (ls ++ x ∷ []),
        take_over 10 (drop (suc k) (ls ++ x ∷ [])),
      )
      | inr h ↦
          ground
            (arith, length-drop k ls, length-append ls (x ∷ []), length-append (drop k ls) (x ∷ []))
    ]

-- The line that is being read goes on with the first line of the rest.
abbrev pub attach : Text → List Text → List Text
attach [] ls = ls
attach (r ∷ rs) [] = (r ∷ rs) ∷ []
attach (r ∷ rs) (l ∷ ls) = ((r ∷ rs) ++ l) ∷ ls

pub attach_newline : (raw : Text) (ls : List Text) → attach raw ([] ∷ ls) ≡ raw ∷ ls
attach_newline [] ls = refl
attach_newline (r ∷ rs) ls = ap (λ l. l ∷ ls) (append-nil (r ∷ rs))

pub attach-starting :
    (raw : Text) (ch : ℕ) (ls : List Text)
    → attach raw (starting ch ls) ≡ attach (raw ++ ch ∷ []) ls
attach-starting [] ch [] = refl
attach-starting [] ch (l ∷ ls) = refl
attach-starting (r ∷ rs) ch [] = refl
attach-starting (r ∷ rs) ch (l ∷ ls) = ap (λ t. t ∷ ls) (sym (append_assoc (r ∷ rs) (ch ∷ []) l))
