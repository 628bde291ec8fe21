-- ===== src/Binding/Tests.antt =====
-- The theorems on the binding, at a request with a path parameter and a body.
use oashttp.Prelude.{arith, false, length, refl, some, true, ◌-◌, ◌<◌, ◌≡◌, ◌≤◌, ◌⊎◌}
use oashttp.Prelude.Text.{lit, texts}
use Prim.Native.Nat.{◌^◌}
use oashttp.Reflect.GoType.{ReflectType, struct_type, tag_lookup}
use oashttp.Reflect.Integer.{negative, positive}
use oashttp.Reflect.Value.{int_value, more_values, nil_value, no_values, struct_value, text_value}
use oashttp.Route.Constraint.{constraint_of, satisfies}
use oashttp.Http.Header.{header_get}
use oashttp.Http.Request.{Request, RequestStream}
use oashttp.Binding.Compile.{compile_plan, supported_json_type}
use oashttp.Binding.Body.{decode_body, decode_data, exceeds, invalid, no_body, refused, too_large}
use oashttp.Binding.Bind.{bind}
use oashttp.Binding.Bounded.{IsAnnounced, decode_body-cases, decode_body-unread}
use oashttp.Binding.Samples.{checks, decode_name, library, put_request, structs, user_plan}

bind_runs :
    (bind structs library checks user_plan put_request).0
    ≡ struct_value (
        more_values
          (int_value (positive 7))
          (more_values (struct_value (more_values (text_value (lit "Bob")) no_values)) no_values))
unfolding bind texts compile_plan tag_lookup supported_json_type constraint_of satisfies header_get
    decode_name
bind_runs = refl

abbrev robert : RequestStream
robert = record { bytes = lit "Robert"; broken = false }

abbrev long_request : Request
long_request = record put_request { body = some robert; content_length = negative 1 }

abbrev user : ReflectType
user = struct_type (lit "User")

decode_body-cases_example :
    let out = decode_body library long_request user nil_value 4 true true in
    ((IsAnnounced 4 long_request.content_length ⊎ (4 < length robert.bytes))
      × (out ≡ (nil_value, some (refused (too_large 4)))))
    ⊎ (((¬ IsAnnounced 4 long_request.content_length)
          × (length robert.bytes ≤ 4)
          × (robert.broken ≡ false)
          × (out ≡ decode_data library long_request user nil_value 4 true true robert.bytes))
        ⊎ ((¬ IsAnnounced 4 long_request.content_length)
            × (length robert.bytes ≤ 4)
            × (robert.broken ≡ true)
            × (out ≡ (nil_value, some (invalid (lit "read JSON body: "))))))
decode_body-cases_example =
    decode_body-cases library long_request user nil_value true true robert refl 4 (omega arith)

says_no_length : exceeds long_request.content_length (2 ^ 63 - 1) ≡ false
unfolding exceeds
says_no_length = refl

decode_body-unread_example :
    decode_body library long_request user nil_value (2 ^ 63 - 1) true true
    ≡ (nil_value, no_body library true)
decode_body-unread_example =
    decode_body-unread library long_request user nil_value true true robert refl says_no_length
