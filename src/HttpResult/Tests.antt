-- ===== src/HttpResult/Tests.antt =====
-- The theorems on results at a small application whose values are texts.
use oashttp.Prelude.{false, true, ◌≡◌, refl, none, some, [], ◌∷◌, is_nil}
use oashttp.Prelude.Text.{Text, lit}
use oashttp.Core.Status.{status_allows_body}
use oashttp.Failure.Types.{value}
use oashttp.Failure.Samples.{marshal_text, codec, fresh}
use oashttp.HttpResult.{HttpResult, write_http}
use oashttp.HttpResult.Sent.{IsSent, write_http-IsSent}

abbrev created_user : HttpResult Text
created_user = record {
  status = 201;
  headers = (lit "Location", lit "/users/1" ∷ []) ∷ [];
  body = some (value (lit "{}"));
  content_type = lit "application/json";
  failure = none;
  no_store = false;
}

write_http-IsSent_example : IsSent fresh.writer (write_http codec none [] created_user fresh).writer
write_http-IsSent_example = write_http-IsSent codec none [] created_user fresh refl

allows_created : status_allows_body 201 ≡ true
unfolding status_allows_body
allows_created = refl

typed_created : is_nil created_user.content_type ≡ false
unfolding lit
typed_created = refl

marshalled : codec.marshal (value (lit "{}")) ≡ some (lit "{}")
unfolding marshal_text
marshalled = refl
