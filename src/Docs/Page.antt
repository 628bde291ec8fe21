-- ===== src/Docs/Page.antt =====
-- internal/docs/swagger.go: NewSwaggerHandler.
use oashttp.Prelude.{
  Bool, Option, Result, [], any, err, false, if◌then◌else◌, is_nil, ltb, none, not, ok, some, true,
  ◌&&◌, ◌++◌, ◌==◌, ◌>>=◌, ◌>>◌, ◌||◌, ◌∷◌,
}
use oashttp.Prelude.Text.{Text, has_byte, has_prefix, lit, text_eq}
use oashttp.Docs.Serve.{Digests, SwaggerHandler}

-- `Config`.
pub record PageConfig : Type 0 where
  pub title : Text
  pub document_url : Text
  pub cdn_version : Text
  pub css_url : Text
  pub bundle_url : Text

-- Packages net/url, encoding/json and html/template: the scheme and the host of a URL, whether a
-- request URI is absolute and its host, a text in JSON, and the page of a title, the two assets'
-- URLs and a script.
pub record PageLibrary : Type 0 where
  pub parse_url : Text → Option (Text × Text)
  pub parse_request_uri : Text → Option (Bool × Text)
  pub json_text : Text → Option Text
  pub execute : Text → Text → Text → Text → Option Text
  pub digests : Digests

pub data PageError : Type 0 where
  not_root_relative bad_document_url not_encoded not_executed bad_asset_url : PageError

unfoldable pub or_default : Text → Text → Text
or_default s value = if is_nil s then value else s

unfoldable pub cdn : Text → Text → Text
cdn version file = lit "https://cdn.jsdelivr.net/npm/swagger-ui-dist@" ++ (version ++ file)

-- The configuration without empty fields.
unfoldable pub with_defaults : PageConfig → PageConfig
unfolding or_default cdn
with_defaults cfg =
    let version = or_default cfg.cdn_version (lit "5.32.11") in
    record {
      title = or_default cfg.title (lit "API documentation");
      document_url = or_default cfg.document_url (lit "/openapi.json");
      cdn_version = version;
      css_url = or_default cfg.css_url (cdn version (lit "/swagger-ui.css"));
      bundle_url = or_default cfg.bundle_url (cdn version (lit "/swagger-ui-bundle.js"));
    }

-- `strings.ContainsAny(raw, "\r\n\x00")`.
unfoldable pub has_control : Text → Bool
unfolding any
has_control raw = any (λ c. c == 13 || (c == 10 || c == 0)) raw

unfoldable pub validate_document_url : PageLibrary → Text → Result PageError (Unit {0})
unfolding has_control has_byte has_prefix
validate_document_url lib raw =
    if not (has_prefix raw (lit "/"))
      || (has_prefix raw (lit "//") || (has_byte 92 raw || has_control raw))
    then err not_root_relative
    else elim (lib.parse_request_uri raw) [
      | none ↦ err bad_document_url
      | some (is_absolute, host) ↦
          if is_absolute || not (is_nil host) then err bad_document_url else ok tt
    ]

-- `u.Scheme + "://" + u.Host` of an asset's URL.
unfoldable pub origin_of : PageLibrary → Text → Result PageError Text
origin_of lib raw = elim (lib.parse_url raw) [
  | none ↦ err bad_asset_url
  | some (scheme, host) ↦
      if not (text_eq scheme (lit "https")) && not (text_eq scheme (lit "http")) || is_nil host
      then err bad_asset_url
      else ok (scheme ++ (lit "://" ++ host))
]

-- Go's order of strings.
unfoldable pub text_before : Text → Text → Bool
text_before [] [] = false
text_before [] (y ∷ ys) = true
text_before (x ∷ xs) [] = false
text_before (x ∷ xs) (y ∷ ys) =
    if ltb x y then true else if ltb y x then false else text_before xs ys

-- The two origins, each once and sorted, joined by spaces.
unfoldable pub joined_origins : Text → Text → Text
unfolding text_before
joined_origins css bundle =
    if text_eq css bundle
    then css
    else if text_before bundle css
    then bundle ++ (lit " " ++ css)
    else css ++ (lit " " ++ bundle)

unfoldable pub initializer_of : Text → Text
initializer_of document =
    lit "window.onload=function(){SwaggerUIBundle({url: "
    ++ (document ++ lit ",dom_id:'#swagger-ui'});};")

unfoldable pub csp_of : PageLibrary → Text → Text → Text
csp_of lib initializer origins =
    lit "default-src 'none'; style-src 'self' "
    ++ (origins
        ++ (lit "; script-src 'self' "
            ++ (lit "'sha256-"
                ++ (lib.digests.base64_sha256 initializer
                    ++ (lit "' "
                        ++ (origins
                            ++ (lit "; img-src 'self' data:; connect-src 'self'; font-src 'self' "
                                ++ origins)))))))

abbrev or_error : {A : Type 0} → PageError → Option A → Result PageError A
or_error e none = err e
or_error e (some a) = ok a

unfoldable pub new_swagger_handler : PageLibrary → PageConfig → Result PageError SwaggerHandler
unfolding with_defaults validate_document_url initializer_of origin_of joined_origins csp_of
new_swagger_handler lib given = do
  let cfg = with_defaults given
  validate_document_url lib cfg.document_url
  document ← or_error not_encoded (lib.json_text cfg.document_url)
  let initializer = initializer_of document
  html ← or_error not_executed (lib.execute cfg.title cfg.css_url cfg.bundle_url initializer)
  css ← origin_of lib cfg.css_url
  bundle ← origin_of lib cfg.bundle_url
  ok (record { html = html; csp = csp_of lib initializer (joined_origins css bundle) })
