-- ===== src/Model/Examples.antt =====
-- Model identities and their text forms.
use lightcode.Prelude.{◌≡◌, refl, true, false, codes}
use lightcode.Model.{ModelRef, complete}
use lightcode.Model.Ref.{has_slash, cut, if_complete, parse_ref, print_ref, print_ref-parse_ref}

abbrev nested : ModelRef
nested = record { provider = codes "hub"; model = codes "team/small" }

print_ref-parse_ref_example :
    (print_ref nested ≡ codes "hub/team/small")
    × (complete nested ≡ true)
    × (has_slash nested.provider ≡ false)
unfolding parse_ref complete cut if_complete
print_ref-parse_ref_example = print_ref-parse_ref (codes "hub/team/small") nested refl
