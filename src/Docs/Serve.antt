-- ===== src/Docs/Serve.antt =====
-- internal/docs/openapi.go, and ServeHTTP of internal/docs/swagger.go.
use oashttp.Prelude.{Bool, [], if◌then◌else◌, not, ℕ, ◌&&◌, ◌++◌, ◌∷◌}
use oashttp.Prelude.Text.{Text, lit, text_eq}
use oashttp.Http.Header.{header_get}
use oashttp.Http.Writer.{Writer, set_header, write, write_header}
use oashttp.Http.Request.{Request}
use oashttp.Http.StatusText.{status_text}

-- Packages crypto/sha256, fmt and base64: the digest of a text in hexadecimal and in base 64.
pub record Digests : Type 0 where
  pub hex_sha256 : Text → Text
  pub base64_sha256 : Text → Text

pub record JsonHandler : Type 0 where
  pub json_data : Text
  pub etag : Text

pub record SwaggerHandler : Type 0 where
  pub html : Text
  pub csp : Text

unfoldable pub new_open_api_handler : Digests → Text → JsonHandler
new_open_api_handler digests json = record {
  json_data = json;
  etag = b'"' ∷ digests.hex_sha256 json ++ b'"' ∷ [];
}

-- net/http.Error.
unfoldable pub http_error : Text → ℕ → Writer → Writer
unfolding set_header write_header write
http_error message status w =
    (write (message ++ 10 ∷ []) (
      write_header status (
        set_header (lit "X-Content-Type-Options") (lit "nosniff")
          (set_header (lit "Content-Type") (lit "text/plain; charset=utf-8") w)))).0

-- `r.Method != http.MethodGet && r.Method != http.MethodHead`.
unfoldable pub refuses : Text → Bool
refuses method = not (text_eq method (lit "GET")) && not (text_eq method (lit "HEAD"))

unfoldable pub not_allowed : Writer → Writer
unfolding http_error set_header
not_allowed w = http_error (status_text 405) 405 (set_header (lit "Allow") (lit "GET, HEAD") w)

-- `if r.Method != http.MethodHead`.
unfoldable pub write_unless_head : Text → Text → Writer → Writer
unfolding write
write_unless_head method payload w = if text_eq method (lit "HEAD") then w else (write payload w).0

unfoldable pub open_api_headers : JsonHandler → Writer → Writer
unfolding set_header
open_api_headers h w = set_header (lit "X-Content-Type-Options") (lit "nosniff") (
    set_header (lit "ETag") h.etag (
      set_header (lit "Cache-Control") (lit "public, max-age=300")
        (set_header (lit "Content-Type") (lit "application/json") w)))

-- ServeHTTP of the document, of a request with the method.
unfoldable pub serve_open_api : JsonHandler → Text → Request → Writer → Writer
unfolding refuses not_allowed open_api_headers write_header write_unless_head
serve_open_api h method r w =
    if refuses method
    then not_allowed w
    else if text_eq (header_get r.header (lit "If-None-Match")) h.etag
    then write_header 304 (open_api_headers h w)
    else write_unless_head method h.json_data (write_header 200 (open_api_headers h w))

unfoldable pub swagger_headers : SwaggerHandler → Writer → Writer
unfolding set_header
swagger_headers h w = set_header (lit "Referrer-Policy") (lit "no-referrer") (
    set_header (lit "X-Content-Type-Options") (lit "nosniff") (
      set_header (lit "Cache-Control") (lit "public, max-age=300") (
        set_header (lit "Content-Security-Policy") h.csp
          (set_header (lit "Content-Type") (lit "text/html; charset=utf-8") w))))

-- ServeHTTP of the page.
unfoldable pub serve_swagger : SwaggerHandler → Text → Writer → Writer
unfolding refuses not_allowed swagger_headers write_header write_unless_head
serve_swagger h method w =
    if refuses method
    then not_allowed w
    else write_unless_head method h.html (write_header 200 (swagger_headers h w))
