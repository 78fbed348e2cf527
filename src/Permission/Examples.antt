-- ===== src/Permission/Examples.antt =====
-- Requests to the policies of harness/permission.go, and the theorems at them.
use lightcode.Prelude.{◌≡◌, refl, true, false, not, ◌&&◌, some, [], ◌∷◌, ◌++◌, codes, if◌then◌else◌}
use lightcode.Permission.{
  PermissionRule, PermissionLevel, PermissionPolicy, stars, literal, no_level, file_read, applies,
  decide, match_string, anchored, compile_from, compile_glob, match_from, match_here, after_run,
}
use lightcode.Permission.Builtin.{contains_path, base, sensitive_basename_patterns, builtin_decide}
use lightcode.Permission.Glob.{Decides, compile_glob-Decides}
use lightcode.Permission.Policy.{decide-snoc, read_of, write_of, any_glob, builtin_decide-files}

abbrev keys : PermissionRule
keys = record {
  permission = file_read;
  glob = anchored (stars ∷ literal 47 ∷ literal 107 ∷ []);
  allow = false;
}

abbrev level : PermissionLevel
level = record { rules = []; default_allow = some true }

abbrev policy : PermissionPolicy
policy = record { global = no_level; workspace = level }

compiled :
    compile_glob (codes "a*.k")
    ≡ some (anchored (literal 97 ∷ stars ∷ literal 46 ∷ literal 107 ∷ []))
unfolding compile_glob compile_from
compiled = refl

matched : match_string (anchored (stars ∷ literal 107 ∷ [])) (10 ∷ codes "ok") ≡ true
unfolding match_string match_from match_here after_run
matched = refl

compile_glob-Decides_example : Decides (codes "*\\k?") (compile_glob (codes "*\\k?"))
compile_glob-Decides_example = compile_glob-Decides (codes "*\\k?")

decide-snoc_example :
    decide (record level { rules = level.rules ++ keys ∷ [] }) (read_of (codes "/w/k")) ≡ (
      if applies keys (read_of (codes "/w/k"))
      then some keys.allow
      else decide level (read_of (codes "/w/k")))
decide-snoc_example = decide-snoc level keys (read_of (codes "/w/k"))

builtin_decide-files_example :
    (builtin_decide (codes "/w") (read_of (codes "/w/.env")) ≡ (
      contains_path (codes "/w") (codes "/w/.env")
      && not (any_glob sensitive_basename_patterns (base (codes "/w/.env")))))
    × (builtin_decide (codes "/w") (write_of (codes "/w/.env")) ≡ (
        contains_path (codes "/w") (codes "/w/.env")
        && not (any_glob sensitive_basename_patterns (base (codes "/w/.env")))))
builtin_decide-files_example = builtin_decide-files (codes "/w") (codes "/w/.env")
