-- ===== src/Storage/Listing.antt =====
-- ListSessionIDs of internal/storage/memory.go: the sorted union of the identities in use.
use lightcode.Prelude.{
  insert_text, sort_texts, ◌≡◌, refl, Bool, true, false, ◌||◌, List, [], ◌∷◌, Text, arith,
  Bool-cases, inl, inr, ap, ◌∙◌, same, same_iff, All, text_leb,
}
use lightcode.Prelude.Order.{text_leb_total, text_leb_trans}
use lightcode.Storage.{Entry, RegisterKey, Register, text_key, register_key}
use lightcode.Storage.State.{State, any_register}
use lightcode.Storage.Read.{contains, add_id, seen_entries, seen_registers, list_session_ids}

-- Each identity is below all later ones and differs from them.
abbrev pub StrictlyRising : List Text → Type 0
StrictlyRising [] = Unit {0}
StrictlyRising (x ∷ xs) =
    All (λ y. (text_leb x y ≡ true) × (same x y ≡ false)) xs × StrictlyRising xs

-- Whether a map of slices has the key.
pub has_list : Text → List (Text × List Entry) → Bool
has_list sid [] = false
has_list sid ((j, _) ∷ m) = same j sid || has_list sid m

abbrev Distinct : List Text → Type 0
Distinct [] = Unit {0}
Distinct (x ∷ xs) = (contains x xs ≡ false) × Distinct xs

add_id-Distinct : (t : Text) (seen : List Text) → Distinct seen → Distinct (add_id t seen)
unfolding add_id
add_id-Distinct t seen h = elim (Bool-cases (contains t seen)) [
  | inl p ↦ rw p h
  | inr p ↦ rw p (p, h)
]

contains-add_id :
    (t u : Text) (seen : List Text) → contains u (add_id t seen) ≡ (same t u || contains u seen)
unfolding add_id
contains-add_id t u seen = ground (arith, same_iff t u)

seen_entries-Distinct : (m : List (Text × List Entry)) → Distinct (seen_entries m)
unfolding seen_entries
seen_entries-Distinct [] = tt
seen_entries-Distinct ((j, _) ∷ m) = add_id-Distinct j (seen_entries m) (seen_entries-Distinct m)

seen_registers-Distinct :
    (seen : List Text) (m : List (RegisterKey × Register))
    → Distinct seen
    → Distinct (seen_registers seen m)
unfolding seen_registers
seen_registers-Distinct seen [] h = h
seen_registers-Distinct seen ((k, _) ∷ m) h =
    add_id-Distinct k.session_id (seen_registers seen m) (seen_registers-Distinct seen m h)

contains-seen_entries :
    (u : Text) (m : List (Text × List Entry)) → contains u (seen_entries m) ≡ has_list u m
unfolding seen_entries has_list contains
contains-seen_entries u [] = refl
contains-seen_entries u ((j, _) ∷ m) =
    contains-add_id j u (seen_entries m) ∙ ap (λ b. same j u || b) (contains-seen_entries u m)

contains-seen_registers :
    (u : Text) (seen : List Text) (m : List (RegisterKey × Register))
    → contains u (seen_registers seen m) ≡ (any_register u m || contains u seen)
unfolding seen_registers any_register
contains-seen_registers u seen [] = refl
contains-seen_registers u seen ((k, _) ∷ m) =
    contains-add_id k.session_id u (seen_registers seen m)
    ∙ ground (arith, contains-seen_registers u seen m)

contains-insert_text :
    (u t : Text) (xs : List Text) → contains u (insert_text t xs) ≡ (same t u || contains u xs)
unfolding insert_text contains
contains-insert_text u t [] = refl
contains-insert_text u t (x ∷ xs) = ground (arith, contains-insert_text u t xs)

contains-sort_texts : (u : Text) (xs : List Text) → contains u (sort_texts xs) ≡ contains u xs
unfolding sort_texts contains
contains-sort_texts u [] = refl
contains-sort_texts u (x ∷ xs) =
    contains-insert_text u x (sort_texts xs) ∙ ap (λ b. same x u || b) (contains-sort_texts u xs)

-- Being below `x` and different from it.
abbrev Below : Text → Text → Type 0
Below x y = (text_leb x y ≡ true) × (same x y ≡ false)

All-insert_text :
    (x t : Text) (xs : List Text) → Below x t → All (Below x) xs → All (Below x) (insert_text t xs)
unfolding insert_text
All-insert_text x t [] p h = (p, tt)
All-insert_text x t (y ∷ ys) p h = elim (Bool-cases (text_leb t y)) [
  | inl q ↦ rw q (p, h)
  | inr q ↦ rw q (h.0, All-insert_text x t ys p h.1)
]

All-Below :
    (t x : Text) (xs : List Text)
    → text_leb t x ≡ true
    → contains t xs ≡ false
    → All (Below x) xs
    → All (Below t) xs
unfolding contains
All-Below t x [] p c h = tt
All-Below t x (y ∷ ys) p c h = (
  (text_leb_trans t x y p h.0.0, ground (arith, same_iff t y, same_iff y t, c)),
  All-Below t x ys p (ground arith) h.1,
)

insert_text-StrictlyRising :
    (t : Text) (xs : List Text)
    → contains t xs ≡ false
    → StrictlyRising xs
    → StrictlyRising (insert_text t xs)
unfolding insert_text contains
insert_text-StrictlyRising t [] c h = (tt, tt)
insert_text-StrictlyRising t (x ∷ xs) c h = elim (Bool-cases (text_leb t x)) [
  | inl q ↦ rw q (
    ((q, ground (arith, same_iff t x, same_iff x t, c)), All-Below t x xs q (ground arith) h.0),
    h,
  )
  | inr q ↦ rw q (
    All-insert_text x t xs (text_leb_total t x q, ground arith) h.0,
    insert_text-StrictlyRising t xs (ground arith) h.1,
  )
]

sort_texts-StrictlyRising : (xs : List Text) → Distinct xs → StrictlyRising (sort_texts xs)
unfolding sort_texts
sort_texts-StrictlyRising [] h = tt
sort_texts-StrictlyRising (x ∷ xs) h =
    insert_text-StrictlyRising x (sort_texts xs) (contains-sort_texts x xs ∙ h.0)
      (sort_texts-StrictlyRising xs h.1)

-- The listed identities rise strictly, so none is there twice, and they are exactly those of a
-- register or of a list of entries.
pub list_session_ids_lem :
    (s : State)
    → StrictlyRising (list_session_ids s)
      × ((sid : Text)
          → contains sid (list_session_ids s)
            ≡ (any_register sid s.registers || has_list sid s.entries))
unfolding list_session_ids
list_session_ids_lem s =
    let seen = seen_entries s.entries in
    (
      sort_texts-StrictlyRising (seen_registers seen s.registers)
          (seen_registers-Distinct seen s.registers (seen_entries-Distinct s.entries)),
      λ sid.
          contains-sort_texts sid (seen_registers seen s.registers)
          ∙ contains-seen_registers sid seen s.registers
          ∙ ap (λ b. any_register sid s.registers || b) (contains-seen_entries sid s.entries),
    )
