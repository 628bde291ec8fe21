-- ===== src/Http/Request.antt =====
-- What the program reads of an http.Request: its header, the values of the route's wildcards, the
-- query, and the body.
use oashttp.Prelude.{Bool, Option, List, [], ◌∷◌, if◌then◌else◌}
use oashttp.Prelude.Text.{Text, text_eq}
use oashttp.Http.Header.{Header}
use oashttp.Reflect.Integer.{Integer}

-- A body: the bytes that can be read, and whether reading on fails.
pub record RequestStream : Type 0 where
  pub bytes : Text
  pub broken : Bool

pub record Request : Type 0 where
  pub header : Header
  pub path_values : List (Text × Text)
  pub query : List (Text × List Text)
  pub body : Option RequestStream
  pub content_length : Integer

path_value_in : List (Text × Text) → Text → Text
path_value_in [] name = []
path_value_in ((n, v) ∷ values) name = if text_eq n name then v else path_value_in values name

-- `r.PathValue`, "" where the route has no such wildcard.
unfoldable pub path_value : Request → Text → Text
unfolding path_value_in text_eq
path_value r name = path_value_in r.path_values name
