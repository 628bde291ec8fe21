-- ===== src/Docs/Tests.antt =====
-- The handlers of the documentation, at small documents.
use oashttp.Prelude.{[], err, false, none, ok, refl, some, ◌++◌, ◌∷◌, ◌≡◌, ◌≢◌, ◌⊎◌}
use oashttp.Prelude.Text.{lit, text_eq}
use oashttp.Http.Header.{header_get}
use oashttp.Http.Writer.{Writer, send}
use oashttp.Http.Request.{Request}
use oashttp.Http.StatusText.{status_text}
use oashttp.Reflect.Integer.{positive}
use oashttp.Docs.Serve.{JsonHandler, serve_open_api}
use oashttp.Docs.Page.{PageConfig, PageLibrary, new_swagger_handler, not_root_relative}
use oashttp.Docs.Answers.{Answers, body_unless_head, serve_open_api-cases}

abbrev document : JsonHandler
document = record { json_data = lit "{}"; etag = lit "\"1\"" }

abbrev plain_writer : Writer
plain_writer = record { header = []; calls = []; broken = false; guard = none }

abbrev plain_request : Request
plain_request = record {
  header = [];
  path_values = [];
  query = [];
  body = none;
  content_length = positive 0;
}

serve_open_api-cases_example :
    ((lit "GET" ≢ lit "GET")
      × (lit "GET" ≢ lit "HEAD")
      × Answers plain_writer
          (serve_open_api document (lit "GET") plain_request plain_writer)
          405
          (lit "Allow")
          (lit "GET, HEAD")
          (send (status_text 405 ++ 10 ∷ []) ∷ []))
    ⊎ ((((lit "GET" ≡ lit "GET") ⊎ (lit "GET" ≡ lit "HEAD"))
          × (header_get plain_request.header (lit "If-None-Match") ≡ document.etag)
          × Answers plain_writer
              (serve_open_api document (lit "GET") plain_request plain_writer)
              304
              (lit "ETag")
              document.etag
              [])
        ⊎ (((lit "GET" ≡ lit "GET") ⊎ (lit "GET" ≡ lit "HEAD"))
            × (header_get plain_request.header (lit "If-None-Match") ≢ document.etag)
            × Answers plain_writer
                (serve_open_api document (lit "GET") plain_request plain_writer)
                200
                (lit "ETag")
                document.etag
                (body_unless_head (lit "GET") document.json_data)))
serve_open_api-cases_example =
    serve_open_api-cases document (lit "GET") plain_request plain_writer refl

abbrev pages : PageLibrary
pages = record {
  parse_url = λ s. some (lit "https", lit "cdn.jsdelivr.net");
  parse_request_uri = λ s. some (false, []);
  json_text = λ s. some (b'"' ∷ s ++ b'"' ∷ []);
  execute = λ title css bundle script. some script;
  digests = record { hex_sha256 = λ s. []; base64_sha256 = λ s. lit "AA==" };
}

abbrev no_config : PageConfig
no_config = record {
  title = [];
  document_url = [];
  cdn_version = [];
  css_url = [];
  bundle_url = [];
}

swagger_runs :
    new_swagger_handler pages no_config
    ≡ ok (record {
      html =
          lit
            "window.onload=function(){SwaggerUIBundle({url: \"/openapi.json\",dom_id:'#swagger-ui'});};";
      csp =
          lit "default-src 'none'; style-src 'self' https://cdn.jsdelivr.net; script-src 'self' "
          ++ lit "'sha256-AA==' https://cdn.jsdelivr.net; img-src 'self' data:; "
          ++ lit "connect-src 'self'; font-src 'self' https://cdn.jsdelivr.net";
    })
unfolding new_swagger_handler lit text_eq
swagger_runs = refl

other_origin_refused :
    new_swagger_handler pages (record no_config { document_url = lit "//example.com" })
    ≡ err not_root_relative
unfolding new_swagger_handler lit text_eq
other_origin_refused = refl
