-- ===== src/Permission/Policy.antt =====
-- What the levels and the built-in rules of harness/permission.go decide.
use lightcode.Prelude.{
  ◌≡◌, ◌↔◌, inl, inr, refl, Bool, true, false, not, ◌&&◌, ◌||◌, Option, none, some, List, [], ◌∷◌,
  ◌++◌, Text, same, if◌then◌else◌, arith, Bool-cases, All,
}
use lightcode.Permission.{
  PermissionRequest, PermissionRule, PermissionLevel, PermissionPolicy, file_read, file_write,
  applies, decide_from, or_else, decide, compile_glob,
}
use lightcode.Permission.Builtin.{
  base, contains_path, builtin_matches, glob_matches, sensitive_basename_patterns, denials,
  target_rules, BuiltinRule, last_answer, or_deny, builtin_decide, evaluate, call_allowed,
}

decide_from-snoc :
    (rules : List PermissionRule) (answer : Option Bool) (rule : PermissionRule)
    (req : PermissionRequest)
    → decide_from answer (rules ++ rule ∷ []) req
      ≡ (if applies rule req then some rule.allow else decide_from answer rules req)
unfolding decide_from
decide_from-snoc [] answer rule req = refl
decide_from-snoc (r ∷ rules) answer rule req =
    decide_from-snoc rules (if applies r req then some r.allow else answer) rule req

-- The last matching rule of a level decides: a rule behind the others decides what it applies to,
-- and leaves every other request to them and to the level's default.
pub decide-snoc :
    (level : PermissionLevel) (rule : PermissionRule) (req : PermissionRequest)
    → decide (record level { rules = level.rules ++ rule ∷ [] }) req
      ≡ (if applies rule req then some rule.allow else decide level req)
unfolding decide
decide-snoc level rule req =
    rw (decide_from-snoc level.rules none rule req) (elim (Bool-cases (applies rule req)) [
      | inl h ↦ ground (arith, h)
      | inr h ↦ ground (arith, h)
    ])

-- Whether a basename is one of the sensitive ones
abbrev pub any_glob : List Text → Text → Bool
any_glob [] s = false
any_glob (p ∷ ps) s = glob_matches (compile_glob p) s || any_glob ps s

abbrev pub read_of : Text → PermissionRequest
read_of target = record { permission = file_read; target = target }

abbrev pub write_of : Text → PermissionRequest
write_of target = record { permission = file_write; target = target }

denials-read :
    (ps : List Text) (rest : List BuiltinRule) (root target : Text)
    → last_answer rest root (read_of target) ≡ none
    → last_answer (denials ps ++ rest) root (read_of target)
      ≡ (if any_glob ps (base target) then some false else none)
unfolding last_answer builtin_matches same
denials-read [] rest root target h = h
denials-read (p ∷ ps) rest root target h = ground (arith, denials-read ps rest root target h)

denials-write :
    (ps : List Text) (rest : List BuiltinRule) (root target : Text)
    → last_answer rest root (write_of target) ≡ none
    → last_answer (denials ps ++ rest) root (write_of target)
      ≡ (if any_glob ps (base target) then some false else none)
unfolding last_answer builtin_matches same
denials-write [] rest root target h = h
denials-write (p ∷ ps) rest root target h = ground (arith, denials-write ps rest root target h)

read_answer :
    (inside sensitive : Bool) (o : Option Bool)
    → o ≡ (if sensitive then some false else none)
    → or_deny (or_else (or_else o none) (if inside then some true else none))
      ≡ (inside && not sensitive)
read_answer inside sensitive o h = rw h (ground arith)

write_answer :
    (inside sensitive : Bool) (o : Option Bool)
    → o ≡ (if sensitive then some false else none)
    → or_deny (or_else (or_else o (if inside then some true else none)) none)
      ≡ (inside && not sensitive)
write_answer inside sensitive o h = rw h (ground arith)

-- Under the built-in policy a file may be read or written exactly when it lies in the workspace and
-- its basename matches none of the sensitive patterns.
pub builtin_decide-files :
    (root target : Text)
    → (builtin_decide root (read_of target)
        ≡ (contains_path root target && not (any_glob sensitive_basename_patterns (base target))))
      × (builtin_decide root (write_of target)
          ≡ (contains_path root target && not (any_glob sensitive_basename_patterns (base target))))
unfolding builtin_decide last_answer builtin_matches same
builtin_decide-files root target =
    let sensitive : Bool = any_glob sensitive_basename_patterns (base target) in
    (
      read_answer (contains_path root target) sensitive _
          (denials-read sensitive_basename_patterns target_rules root target refl),
      write_answer (contains_path root target) sensitive _
          (denials-write sensitive_basename_patterns target_rules root target refl),
    )

-- A call may run exactly when each of its requests is allowed.
pub call_allowed-All :
    (policy : PermissionPolicy) (root : Text) (requests : List PermissionRequest)
    → (call_allowed policy root requests ≡ true)
      ↔ All (λ req. evaluate policy root req ≡ true) requests
unfolding call_allowed
call_allowed-All policy root [] = (λ h. tt, λ h. refl)
call_allowed-All policy root (req ∷ requests) =
    let rest = call_allowed-All policy root requests in
    (λ h. (ground (arith, h), rest.0 (ground (arith, h))), λ (h, hs). ground (arith, h, rest.1 hs))
