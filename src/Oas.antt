-- ===== src/Oas.antt =====
-- internal/oas31/model.go: the OpenAPI description of an operation. S is the schemas that the
-- registry makes.
use oashttp.Prelude.{Bool, List, Option}
use oashttp.Prelude.Text.{Text}

-- `Schema`: one that the registry gave, or the primitive one of a path parameter, which has the
-- format only if it is not empty.
pub data Schema (S : Type 0) : Type 0 where
  reference : S → Schema S
  primitive : Text → Text → Schema S

pub record OasParameter (S : Type 0) : Type 0 where
  pub name : Text
  pub location : Text
  pub required : Bool
  pub schema : Schema S

-- A map of media types to their schemas.
abbrev pub Content : Type 0 → Type 0
Content S = List (Text × Option (Schema S))

pub record RequestBody (S : Type 0) : Type 0 where
  pub required : Bool
  pub content : Content S

pub record Response (S : Type 0) : Type 0 where
  pub description : Text
  pub content : Content S

-- `Operation`; the extensions are `x-feature` and `x-permission`, if there are any.
pub record OasOperation (S : Type 0) : Type 0 where
  pub operation_id : Text
  pub tags : List Text
  pub summary : Text
  pub description : Text
  pub parameters : List (OasParameter S)
  pub request_body : Option (RequestBody S)
  pub responses : List (Text × Response S)
  pub security : List Text
  pub extensions : Option (Text × Text)
