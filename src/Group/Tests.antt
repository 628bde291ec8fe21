-- ===== src/Group/Tests.antt =====
-- Runs of the group paths, and their theorems at prefixes of the examples.
use oashttp.Prelude.{◌≡◌, ◌≢◌, refl, ◌⊎◌, [], ◌∷◌, ◌++◌, ok, err}
use oashttp.Prelude.Text.{Text, texts, lit, has_prefix, contains, contains_any}
use oashttp.Prelude.Slashes.{ends_slash}
use oashttp.Route.{Pattern, empty_segment, parse, scan, parse_token, check_parts, check_parameter}
use oashttp.Route.Constraint.{constraint_of}
use oashttp.Group.{
  no_slash, bad_character, empty_segment as group_empty_segment, normalize_prefix, join_paths,
}
use oashttp.Group.Prefix.{IsPrefix, normalize_prefix-IsPrefix}
use oashttp.Group.Mount.{parse-join_paths}
use oashttp.Group.Nested.{root_of_root_refuses}

paths : Unit {0}
unfolding parse scan parse_token check_parts check_parameter constraint_of texts normalize_prefix
    join_paths
paths = tt

abbrev v1 : Text
v1 = lit "/api/v1"

abbrev users : Text
users = lit "/users"

abbrev by_id : Text
by_id = lit "/{id:int}"

abbrev by_id_pattern : Pattern
by_id_pattern = record {
  user_path = by_id;
  serve_mux_path = lit "/{id}";
  open_api_path = lit "/{id}";
  parameters = record { name = lit "id"; constraint = lit "int" } ∷ [];
}

path_runs :
    (normalize_prefix (lit "/api/v1/") ≡ ok v1)
    × (normalize_prefix (lit "/") ≡ ok [])
    × (normalize_prefix (lit "api") ≡ err no_slash)
    × (normalize_prefix (lit "/a/{b}") ≡ err bad_character)
    × (normalize_prefix (lit "/a//b") ≡ err group_empty_segment)
    × (join_paths v1 users ≡ lit "/api/v1/users")
    × (join_paths v1 (lit "/") ≡ v1)
    × (join_paths [] [] ≡ lit "/")
unfolding paths
path_runs = (refl, refl, refl, refl, refl, refl, refl, refl)

by_id_parses : parse by_id ≡ ok by_id_pattern
unfolding paths
by_id_parses = refl

by_id-ne-slash : by_id ≢ b'/' ∷ []
unfolding lit
by_id-ne-slash e = cc

v1-IsPrefix : IsPrefix v1
unfolding lit has_prefix contains contains_any ends_slash
v1-IsPrefix = record { rooted = refl; plain = refl; no_empty = refl; closed = refl }

users-IsPrefix : IsPrefix users
unfolding lit has_prefix contains contains_any ends_slash
users-IsPrefix = record { rooted = refl; plain = refl; no_empty = refl; closed = refl }

v1-ne-nil : v1 ≢ []
unfolding lit
v1-ne-nil e = cc

normalize_prefix-IsPrefix_example : (v1 ≡ []) ⊎ IsPrefix v1
normalize_prefix-IsPrefix_example = normalize_prefix-IsPrefix (lit "/api/v1/") v1 path_runs.0

parse-join_paths_example :
    parse (join_paths v1 by_id)
    ≡ ok (record {
      user_path = v1 ++ by_id;
      serve_mux_path = v1 ++ by_id_pattern.serve_mux_path;
      open_api_path = v1 ++ by_id_pattern.open_api_path;
      parameters = by_id_pattern.parameters;
    })
parse-join_paths_example =
    parse-join_paths v1 by_id by_id_pattern v1-IsPrefix by_id_parses by_id-ne-slash

root_of_root_refuses_example : parse (join_paths (join_paths [] []) by_id) ≡ err empty_segment
root_of_root_refuses_example = root_of_root_refuses by_id by_id_pattern by_id_parses by_id-ne-slash
