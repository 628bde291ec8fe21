-- ===== src/Route/Tests.antt =====
-- Runs of the route parser, and its theorems at a route of the examples.
use oashttp.Prelude.{◌≡◌, refl, ◌↔◌, [], ◌∷◌, map, ok, err}
use oashttp.Prelude.Text.{Text, texts, lit}
use oashttp.Route.{
  Pattern, no_slash, bad_character, empty_segment, unmatched_close, unmatched_open,
  invalid_parameter, invalid_name, unknown_constraint, repeated, parse, scan, parse_token,
  check_parts, check_parameter,
}
use oashttp.Route.Constraint.{constraint_of}
use oashttp.Route.Parsed.{IsParse, parse_iff}
use oashttp.Route.Normal.{as_string, parse-open_api_path}

router : Unit {0}
unfolding parse scan parse_token check_parts check_parameter constraint_of texts
router = tt

abbrev user_posts : Text
user_posts = lit "/users/{id:uuid}/posts/{n:int}/"

abbrev user_posts_pattern : Pattern
user_posts_pattern = record {
  user_path = user_posts;
  serve_mux_path = lit "/users/{id}/posts/{n}/{$}";
  open_api_path = lit "/users/{id}/posts/{n}/";
  parameters =
      record { name = lit "id"; constraint = lit "uuid" }
      ∷ record { name = lit "n"; constraint = lit "int" }
      ∷ [];
}

parse_runs :
    (parse user_posts ≡ ok user_posts_pattern)
    × (parse (lit "users") ≡ err no_slash)
    × (parse (lit "/a?b") ≡ err bad_character)
    × (parse (lit "/a//b") ≡ err empty_segment)
    × (parse (lit "/a}b") ≡ err unmatched_close)
    × (parse (lit "/a{b") ≡ err unmatched_open)
    × (parse (lit "/{a:b:c}") ≡ err invalid_parameter)
    × (parse (lit "/{}") ≡ err invalid_parameter)
    × (parse (lit "/{1a}") ≡ err invalid_name)
    × (parse (lit "/{a:float}") ≡ err unknown_constraint)
    × (parse (lit "/{a}/{a:int}") ≡ err repeated)
unfolding router
parse_runs = (refl, refl, refl, refl, refl, refl, refl, refl, refl, refl, refl)

parse_iff_example :
    (parse user_posts ≡ ok user_posts_pattern) ↔ IsParse user_posts user_posts_pattern
parse_iff_example = parse_iff user_posts user_posts_pattern

parse-open_api_path_example :
    parse user_posts_pattern.open_api_path
    ≡ ok (record user_posts_pattern {
      user_path = user_posts_pattern.open_api_path;
      parameters = map as_string user_posts_pattern.parameters;
    })
parse-open_api_path_example = parse-open_api_path user_posts user_posts_pattern parse_runs.0
