-- ===== src/Permission/Builtin.antt =====
-- harness/permission.go: the paths and the built-in rules, and the chain that decides a request.
use lightcode.Prelude.{
  ℕ, Bool, true, false, not, ◌&&◌, Option, none, some, List, [], ◌∷◌, ◌++◌, Text, same, is_empty,
  codes, ◌==◌, if◌then◌else◌,
}
use lightcode.Permission.{
  PermissionRequest, file_read, file_write, command_run, sleep, child_launch, process_own, Piece,
  compile_glob, match_string, PermissionLevel, PermissionPolicy, no_level, or_else, decide,
}

-- The names of a canonical absolute path, from the root
abbrev pub cons_rune : ℕ → List Text → List Text
cons_rune c [] = (c ∷ []) ∷ []
cons_rune c (name ∷ names) = (c ∷ name) ∷ names

unfoldable pub split_path : Text → List Text
split_path [] = [] ∷ []
split_path (c ∷ s) = let rest = split_path s in if c == 47 then [] ∷ rest else cons_rune c rest

abbrev pub named : List Text → List Text
named [] = []
named (n ∷ ns) = let rest = named ns in if is_empty n then rest else n ∷ rest

unfoldable pub path_names : Text → List Text
unfolding split_path
path_names s = named (split_path s)

-- filepath.Base of a canonical path
abbrev pub last_name : Text → List Text → Text
last_name n [] = n
last_name n (m ∷ ns) = last_name m ns

unfoldable pub base : Text → Text
unfolding path_names
base s = last_name (codes "/") (path_names s)

-- filepath.Rel between canonical paths: up from what is left of the root, then down
abbrev pub ups : List Text → List Text → List Text
ups [] target = target
ups (r ∷ root) target = codes ".." ∷ ups root target

unfoldable pub relative : List Text → List Text → List Text
relative [] target = target
relative (r ∷ root) [] = ups (r ∷ root) []
relative (r ∷ root) (t ∷ target) =
    let rest = relative root target in if same r t then rest else ups (r ∷ root) (t ∷ target)

-- `rel != ".." && !strings.HasPrefix(rel, "../")`
abbrev pub stays_inside : List Text → Bool
stays_inside [] = true
stays_inside (n ∷ ns) = not (same n (codes ".."))

unfoldable pub contains_path : Text → Text → Bool
unfolding relative
contains_path root target = stays_inside (relative (path_names root) (path_names target))

pub data Match : Type 0 where
  inside_workspace any_target fixed_target : Match
  sensitive_basename : Text → Match

pub record BuiltinRule : Type 0 where
  pub permission : Text
  pub matches : Match
  pub allow : Bool

abbrev pub glob_matches : Option (List Piece) → Text → Bool
glob_matches none s = false
glob_matches (some g) s = match_string g s

unfoldable pub builtin_matches : Match → Text → Text → Bool
builtin_matches inside_workspace root target = contains_path root target
builtin_matches any_target root target = true
builtin_matches fixed_target root target = same target (codes "*")
builtin_matches (sensitive_basename pattern) root target =
    glob_matches (compile_glob pattern) (base target)

abbrev pub sensitive_basename_patterns : List Text
sensitive_basename_patterns =
    codes ".env"
    ∷ codes ".env.*"
    ∷ codes ".netrc"
    ∷ codes ".npmrc"
    ∷ codes ".pypirc"
    ∷ codes "*.pem"
    ∷ codes "*.key"
    ∷ codes "*.p12"
    ∷ codes "*.pfx"
    ∷ codes "*.keystore"
    ∷ codes "*.jks"
    ∷ codes "id_rsa"
    ∷ codes "id_rsa.*"
    ∷ codes "id_ed25519"
    ∷ codes "id_ed25519.*"
    ∷ codes "id_ecdsa"
    ∷ codes "id_ecdsa.*"
    ∷ codes "id_dsa"
    ∷ codes "id_dsa.*"
    ∷ codes "credentials*.json"
    ∷ codes "credentials*.yaml"
    ∷ codes "credentials*.yml"
    ∷ []

abbrev pub builtin : Text → Match → Bool → BuiltinRule
builtin permission matches allow = record {
  permission = permission;
  matches = matches;
  allow = allow;
}

abbrev pub denials : List Text → List BuiltinRule
denials [] = []
denials (p ∷ ps) =
    builtin file_read (sensitive_basename p) false
    ∷ builtin file_write (sensitive_basename p) false
    ∷ denials ps

abbrev pub target_rules : List BuiltinRule
target_rules =
    builtin command_run any_target true
    ∷ builtin sleep fixed_target true
    ∷ builtin child_launch any_target true
    ∷ builtin process_own any_target true
    ∷ []

abbrev pub builtin_rules : List BuiltinRule
builtin_rules =
    builtin file_read inside_workspace true
    ∷ builtin file_write inside_workspace true
    ∷ (denials sensitive_basename_patterns ++ target_rules)

-- The loop from the last rule: the answer of the rest comes first.
abbrev pub rule_answer : BuiltinRule → Text → PermissionRequest → Option Bool
rule_answer rule root req =
    if same rule.permission req.permission && builtin_matches rule.matches root req.target
    then some rule.allow
    else none

unfoldable pub last_answer : List BuiltinRule → Text → PermissionRequest → Option Bool
unfolding builtin_matches
last_answer [] root req = none
last_answer (rule ∷ rules) root req =
    or_else (last_answer rules root req) (rule_answer rule root req)

abbrev pub or_deny : Option Bool → Bool
or_deny none = false
or_deny (some a) = a

unfoldable pub builtin_decide : Text → PermissionRequest → Bool
builtin_decide root req = or_deny (last_answer builtin_rules root req)

unfoldable pub evaluate : PermissionPolicy → Text → PermissionRequest → Bool
evaluate policy root req = elim (decide policy.workspace req) [
  | some allow ↦ allow
  | none ↦ elim (decide policy.global req) [ some allow ↦ allow | none ↦ builtin_decide root req ]
]

unfoldable pub call_allowed : PermissionPolicy → Text → List PermissionRequest → Bool
call_allowed policy root [] = true
call_allowed policy root (req ∷ requests) =
    evaluate policy root req && call_allowed policy root requests

-- Two parsed blocks; `none` is a malformed one.
unfoldable pub resolve_permission_policy :
    Option PermissionLevel → Option PermissionLevel → PermissionPolicy
resolve_permission_policy (some global) (some workspace) = record {
  global = global;
  workspace = workspace;
}
resolve_permission_policy _ _ = record { global = no_level; workspace = no_level }
