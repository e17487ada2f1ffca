-- ===== src/Http/BodyShape/Tests.antt =====
-- The theorems about the request-body pass at concrete inputs: an object with a required integer and a
-- list of strings.
use go_service_template_rest.Base.{
  zero, suc, ◌≡◌, ◌≢◌, ◌↔◌, refl, Bool, true, false, List, [], ◌∷◌, none, some, Bytes, codes,
  eq_bytes, ◌==◌, length,
}
use go_service_template_rest.Http.BodyShape.{
  Token, begin_object, end_object, begin_array, end_array, text_token, number_token, null_token,
  Shape, object, array, string, integer, property, nil, spent, scan, fuel, accepts,
}
use go_service_template_rest.Http.BodyShape.Document.{
  Json, Items, no_items, item, no_members, member, num, text, arr, obj, tokens, item_tokens,
  conforms,
}
use go_service_template_rest.Http.BodyShape.Halts.{scan-ne-spent, accepts-conforms}
use go_service_template_rest.Http.BodyShape.Compile.{
  Schema, Schemas, levels, compile_body_shape, allows,
}
use go_service_template_rest.Http.BodyShape.Request.{Body, Request, admits, admits-allows}

abbrev all : Bytes → Bool
all s = true

abbrev shape : Shape
shape =
    object (property (codes "n") (integer true) (property (codes "tags") (array string) nil))
      (0 ∷ []) true

abbrev document : Json
document = obj (
    member (codes "n") (num (codes "-7"))
      (member (codes "tags") (arr (item (text (codes "a")) no_items)) no_members))

abbrev whole : List Token
whole =
    begin_object
    ∷ text_token (codes "n")
    ∷ number_token (codes "-7")
    ∷ text_token (codes "tags")
    ∷ begin_array
    ∷ text_token (codes "a")
    ∷ end_array
    ∷ end_object
    ∷ []

accepted_whole : accepts all shape whole true ≡ true
unfolding accepts eq_bytes
accepted_whole = refl

-- Without the required member, with a member that the shape does not know, and with a text that stops.
refused_missing : accepts all shape (begin_object ∷ end_object ∷ []) true ≡ false
unfolding accepts eq_bytes
refused_missing = refl

refused_unknown :
    accepts all shape (begin_object ∷ text_token (codes "x") ∷ null_token ∷ end_object ∷ []) true
    ≡ false
unfolding accepts eq_bytes
refused_unknown = refl

refused_open : accepts all shape (begin_object ∷ text_token (codes "n") ∷ []) false ≡ false
unfolding accepts eq_bytes
refused_open = refl

scan-ne-spent_example : scan all (fuel whole) shape whole ≢ spent
scan-ne-spent_example = scan-ne-spent all shape whole

whole-document : whole ≡ item_tokens (item document no_items) []
unfolding tokens
whole-document = refl

accepts-conforms_example :
    (accepts all shape whole true ≡ true)
    ↔ ((v : Json) × (true ≡ true) × (whole ≡ tokens v []) × (conforms all shape v ≡ true))
accepts-conforms_example =
    accepts-conforms all shape whole true (λ e. (item document no_items, whole-document))

-- Node 0 is the object, 1 the integer, 2 the list and 3 its strings.
abbrev node : List Bytes → Bytes → Schema
node types format = record {
  types = types;
  format = format;
  properties = [];
  required = [];
  items = 9;
  additional_schema = false;
  additional_has = none;
  other_fields = false;
}

abbrev schemas : Schemas
schemas zero = some (record (node (codes "object" ∷ []) []) {
  properties = (codes "n", 1) ∷ (codes "tags", 2) ∷ [];
  required = codes "n" ∷ [];
  additional_has = some false;
})
schemas (suc zero) = some (node (codes "integer" ∷ []) (codes "int32"))
schemas (suc (suc zero)) = some (record (node (codes "array" ∷ []) []) { items = 3 })
schemas (suc (suc (suc zero))) = some (node (codes "string" ∷ []) [])
schemas (suc (suc (suc (suc n)))) = none

compiled : compile_body_shape schemas levels 0 ≡ some shape
unfolding compile_body_shape eq_bytes
compiled = refl

-- A decoder that knows one text.
abbrev decoded_if : Bool → List Token × Bool
decoded_if true = (whole, true)
decoded_if false = ([], false)

decoded_if-reads :
    (t : Bool) → (decoded_if t).1 ≡ true → (vs : Items) × ((decoded_if t).0 ≡ item_tokens vs [])
decoded_if-reads true h = (item document no_items, whole-document)
decoded_if-reads false h = cc

abbrev decode : Bytes → List Token × Bool
decode content = decoded_if (length content == 2)

reads :
    (content : Bytes)
    → (decode content).1 ≡ true
    → (vs : Items) × ((decode content).0 ≡ item_tokens vs [])
reads content h = decoded_if-reads (length content == 2) h

abbrev request : Request
request = record {
  content_type = codes "application/json; charset=utf-8";
  content_length = 0;
  body = some (record { content = codes "{}"; fault = none });
}

admitted : (admits all decode all shape request).0 ≡ true
unfolding admits eq_bytes
admitted = refl

admits-allows_example :
    (b : Body) × (v : Json) × (s : Schema) × (request.body ≡ some b)
    × ((admits all decode all shape request).1.body ≡ some b)
    × ((decode b.content).0 ≡ tokens v [])
    × (schemas 0 ≡ some s)
    × (allows all schemas s v ≡ true)
admits-allows_example = admits-allows all decode all schemas 0 shape request reads compiled admitted
