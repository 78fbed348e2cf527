-- ===== src/Permission/Parse.antt =====
-- The configuration blocks of harness/permission.go. What encoding/json makes of the raw bytes is
-- given: the members of an object, and a value read as a string or as an array of objects.
use lightcode.Prelude.{
  ◌>>=◌, ◌≡◌, refl, Bool, true, false, not, ◌||◌, Option, none, some, List, [], ◌∷◌, Text, same,
  codes, ◌==◌, length, if◌then◌else◌, arith,
}
use lightcode.Prelude.Assoc.{text_key, lookup}
use lightcode.Permission.{
  Piece, compile_glob, PermissionRule, PermissionLevel, PermissionPolicy, PermissionRequest,
  no_level, decide, decide_from,
}
use lightcode.Permission.Builtin.{evaluate, builtin_decide, resolve_permission_policy}

-- An object of a rules array; a null is the object without members.
abbrev pub Fields : Type 0
Fields = List (Text × Option Text)

-- A member of a block, read as a string, and as an array, with none for an error or for null
pub record Value : Type 0 where
  pub as_string : Option Text
  pub as_rules : Option (List Fields)

-- A supplied block: nothing, no JSON object, or the members of one
pub data Block : Type 0 where
  absent malformed : Block
  object : List (Text × Value) → Block

abbrev pub filled : Option (Option Text) → Option Text
filled (some (some (c ∷ s))) = some (c ∷ s)
filled (some (some [])) = none
filled (some none) = none
filled none = none

unfoldable pub required_rule_string : Fields → Text → Option Text
required_rule_string fields name = filled (lookup name fields)

unfoldable pub access_of : Text → Option Bool
access_of access =
    if same access (codes "allow")
    then some true
    else if same access (codes "deny")
    then some false
    else none

abbrev pub rule_of : Text → Option Bool → Option (List Piece) → Option PermissionRule
rule_of permission (some allow) (some glob) =
    some (record { permission = permission; glob = glob; allow = allow })
rule_of permission none glob = none
rule_of permission (some allow) none = none

unfoldable pub parse_permission_rule : Fields → Option PermissionRule
unfolding required_rule_string access_of
parse_permission_rule fields = if not (length fields == 3) then none else do
  permission ← required_rule_string fields (codes "permission")
  target ← required_rule_string fields (codes "target")
  access ← required_rule_string fields (codes "access")
  rule_of permission (access_of access) (compile_glob target)

unfoldable pub parse_permission_rules : List Fields → Option (List PermissionRule)
parse_permission_rules [] = some []
parse_permission_rules (fields ∷ encoded) = do
  rule ← parse_permission_rule fields
  rules ← parse_permission_rules encoded
  some (rule ∷ rules)

-- The members of a block, in any order: each sets its part of the level.
unfoldable pub add_member : Text → Value → PermissionLevel → Option PermissionLevel
unfolding access_of parse_permission_rules
add_member name value level =
    if same name (codes "default")
    then (do
      access ← value.as_string
      allow ← access_of access
      some (record level { default_allow = some allow }))
    else if same name (codes "rules")
    then (do
      encoded ← value.as_rules
      rules ← parse_permission_rules encoded
      some (record level { rules = rules }))
    else none

unfoldable pub add_members : List (Text × Value) → PermissionLevel → Option PermissionLevel
unfolding add_member
add_members [] level = some level
add_members ((name, value) ∷ members) level =
    add_member name value level >>= λ l. add_members members l

unfoldable pub parse_permission_level : Block → Option PermissionLevel
unfolding add_members
parse_permission_level absent = some no_level
parse_permission_level malformed = none
parse_permission_level (object members) = add_members members no_level

abbrev pub policy_of : Block → Block → PermissionPolicy
policy_of global workspace =
    resolve_permission_policy (parse_permission_level global) (parse_permission_level workspace)

abbrev pub is_refused : Block → Bool
is_refused block = elim (parse_permission_level block) [ none ↦ true | some level ↦ false ]

no_level_decides : (req : PermissionRequest) → decide no_level req ≡ none
unfolding decide decide_from
no_level_decides req = refl

refused_policy :
    (global workspace : Option PermissionLevel) (root : Text) (req : PermissionRequest)
    → (elim global [ none ↦ true | some level ↦ elim workspace [ none ↦ true | some l ↦ false ] ])
      ≡ true
    → evaluate (resolve_permission_policy global workspace) root req ≡ builtin_decide root req
unfolding evaluate resolve_permission_policy decide decide_from
refused_policy none w root req h = refl
refused_policy (some g) none root req h = refl
refused_policy (some g) (some w) root req h = cc

-- A malformed block of either level discards both: every request is decided by the built-in policy
-- alone.
pub evaluate-malformed :
    (global workspace : Block) (root : Text) (req : PermissionRequest)
    → (is_refused global || is_refused workspace) ≡ true
    → evaluate (policy_of global workspace) root req ≡ builtin_decide root req
evaluate-malformed global workspace root req h =
    refused_policy (parse_permission_level global) (parse_permission_level workspace) root req
      (ground (arith, h))
