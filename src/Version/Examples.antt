-- ===== src/Version/Examples.antt =====
-- Two releases of internal/version/version.go, and the theorems at them.
use lightcode.Prelude.{◌≡◌, refl, true, some, codes}
use lightcode.Version.{Tag, parse_tag, split_dots, is_component, all_digits, compare_versions}
use lightcode.Version.Tags.{is_tag, order_tags, compare_versions-order_tags}

abbrev old_tag : Tag
old_tag = record { major = codes "0"; minor = codes "9"; patch = codes "12" }

abbrev new_tag : Tag
new_tag = record { major = codes "0"; minor = codes "10"; patch = codes "3" }

old_read : parse_tag (codes "v0.9.12") ≡ some old_tag
unfolding parse_tag split_dots is_component all_digits
old_read = refl

new_read : parse_tag (codes "v0.10.3") ≡ some new_tag
unfolding parse_tag split_dots is_component all_digits
new_read = refl

old_valid : is_tag old_tag ≡ true
unfolding is_component all_digits
old_valid = refl

compare_versions-order_tags_example :
    compare_versions (codes "v0.9.12") (codes "v0.10.3") ≡ order_tags old_tag new_tag
compare_versions-order_tags_example =
    compare_versions-order_tags (codes "v0.9.12") (codes "v0.10.3") old_tag new_tag old_read
      new_read
