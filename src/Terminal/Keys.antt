-- ===== src/Terminal/Keys.antt =====
-- ParseInputBytes of internal/terminal/input.go. A byte is a number, which is below 256 in the code.
use lightcode.Prelude.{
  ℕ, ◌≡◌, ◌≢◌, ◌<◌, Bool, true, false, ◌&&◌, ◌||◌, List, [], ◌∷◌, ◌++◌, ◌==◌, if◌then◌else◌,
}

pub data KeySpecial : Type 0 where
  none enter backspace tab escape up down left right ctrl_c ctrl_d ctrl_t delete home end :
      KeySpecial

pub record KeyMsg : Type 0 where
  pub rune : ℕ
  pub special : KeySpecial

abbrev pub special_key : KeySpecial → KeyMsg
special_key k = record { rune = 0; special = k }

-- A byte that begins no escape sequence; 0x1b alone is the escape key.
unfoldable pub key_of : ℕ → KeyMsg
key_of b =
    if b == 0x03
    then special_key ctrl_c
    else if b == 0x04
    then special_key ctrl_d
    else if b == 0x14
    then special_key ctrl_t
    else if b == 13 || b == 10
    then special_key enter
    else if b == 0x7f || b == 0x08
    then special_key backspace
    else if b == 9
    then special_key tab
    else if b == 0x1b
    then special_key escape
    else record { rune = b; special = none }

-- The third byte of a sequence of three bytes
unfoldable pub sequence_key : ℕ → KeySpecial
sequence_key d =
    if d == b'A'
    then up
    else if d == b'B'
    then down
    else if d == b'C'
    then right
    else if d == b'D'
    then left
    else if d == b'H'
    then home
    else if d == b'F'
    then end
    else escape

abbrev pub is_sequence : ℕ → ℕ → Bool
is_sequence b c = b == 0x1b && c == b'['

-- The index of the loop is the number of bytes that have been taken off the list.
unfoldable pub parse_input_bytes : List ℕ → List KeyMsg
unfolding key_of sequence_key
parse_input_bytes [] = []
parse_input_bytes (b ∷ []) = key_of b ∷ []
parse_input_bytes (b ∷ c ∷ []) = key_of b ∷ parse_input_bytes (c ∷ [])
parse_input_bytes (b ∷ c ∷ d ∷ []) =
    let one = key_of b ∷ parse_input_bytes (c ∷ d ∷ []) in
    if is_sequence b c then special_key (sequence_key d) ∷ [] else one
parse_input_bytes (b ∷ c ∷ d ∷ e ∷ rest) =
    let one = key_of b ∷ parse_input_bytes (c ∷ d ∷ e ∷ rest) in
    let three = special_key (sequence_key d) ∷ parse_input_bytes (e ∷ rest) in
    let four = special_key delete ∷ parse_input_bytes rest in
    if is_sequence b c then (if d == b'3' && e == b'~' then four else three) else one

-- The bytes that a terminal sends for a key.
unfoldable pub encode_special : KeySpecial → List ℕ
encode_special none = []
encode_special enter = 13 ∷ []
encode_special backspace = 0x7f ∷ []
encode_special tab = 9 ∷ []
encode_special escape = 0x1b ∷ []
encode_special up = 0x1b ∷ b'[' ∷ b'A' ∷ []
encode_special down = 0x1b ∷ b'[' ∷ b'B' ∷ []
encode_special right = 0x1b ∷ b'[' ∷ b'C' ∷ []
encode_special left = 0x1b ∷ b'[' ∷ b'D' ∷ []
encode_special ctrl_c = 0x03 ∷ []
encode_special ctrl_d = 0x04 ∷ []
encode_special ctrl_t = 0x14 ∷ []
encode_special delete = 0x1b ∷ b'[' ∷ b'3' ∷ b'~' ∷ []
encode_special home = 0x1b ∷ b'[' ∷ b'H' ∷ []
encode_special end = 0x1b ∷ b'[' ∷ b'F' ∷ []

-- A typed key: a special key with no rune, or a rune of ASCII that is no control byte. A terminal sends
-- any other rune as several bytes, which ParseInputBytes takes for several keys.
pub data Typed : Type 0 where
  pressed : (k : KeySpecial) → k ≢ none → Typed
  typed : (r : ℕ) → r < 0x80 → (key_of r ≡ record { rune = r; special = none }) → Typed

abbrev pub message : Typed → KeyMsg
message (pressed k h) = special_key k
message (typed r l h) = record { rune = r; special = none }

unfoldable pub encode : Typed → List ℕ
unfolding encode_special
encode (pressed k h) = encode_special k
encode (typed r l h) = r ∷ []

unfoldable pub encode_all : List Typed → List ℕ
encode_all [] = []
encode_all (k ∷ ks) = encode k ++ encode_all ks

-- The escape key is not followed by a typed bracket, with which it would read as a sequence.
abbrev pub starts_bracket : List ℕ → Bool
starts_bracket [] = false
starts_bracket (b ∷ _) = b == b'['

abbrev pub is_escape_special : KeySpecial → Bool
is_escape_special escape = true
is_escape_special _ = false

abbrev pub is_escape : Typed → Bool
is_escape (pressed k _) = is_escape_special k
is_escape (typed _ _ _) = false

abbrev pub Unambiguous : List Typed → Type 0
Unambiguous [] = Unit {0}
Unambiguous (k ∷ ks) = ((is_escape k && starts_bracket (encode_all ks)) ≡ false) × Unambiguous ks
