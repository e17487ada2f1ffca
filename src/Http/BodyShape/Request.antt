-- ===== src/Http/BodyShape/Request.antt =====
-- `jsonRequestBody.admits`: the pass on a request, and what an admitted request holds. What the decoder
-- yields for a text, and whether kin-openapi finds the media type of the schema for the content type,
-- are parameters.
use go_service_template_rest.Base.{
  ℕ, ◌≡◌, refl, sym, ap, ◌∙◌, Bool, true, false, ◌||◌, ◌&&◌, not, List, [], ◌∷◌, Option, none, some,
  Bytes, codes, if◌then◌else◌, ◌==◌, ltb, length, eq_bytes, &&-true,
}
use go_service_template_rest.Base.GoError.{Err}
use go_service_template_rest.Failure.Chain.{trim_space}
use go_service_template_rest.Http.BodyShape.{Token, Shape, accepts}
use go_service_template_rest.Http.BodyShape.Document.{Json, Items, tokens, item_tokens}
use go_service_template_rest.Http.BodyShape.Halts.{accepts-conforms}
use go_service_template_rest.Http.BodyShape.Compile.{
  Schema, Schemas, levels, compile_body_shape, allows,
}
use go_service_template_rest.Http.BodyShape.Admits.{compiled-allows}

-- What a reader of the body gets: the bytes, and the error that ends them if it is not io.EOF.
pub record Body : Type 0 where
  pub content : Bytes
  pub fault : Option Err

pub record Request : Type 0 where
  pub content_type : Bytes
  pub content_length : ℕ
  pub body : Option Body

-- The part before the first ";" of strings.Cut.
unfoldable pub before_semicolon : Bytes → Bytes
before_semicolon [] = []
before_semicolon (c ∷ s) = let rest = before_semicolon s in if c == b';' then [] else c ∷ rest

-- What is left of a request whose body was read, with the error of the read.
abbrev pub replayed_at : Request → Body → Option Err → Request
replayed_at r b (some e) = record r { body = some b }
replayed_at r b none = record r { content_length = length b.content; body = some b }

abbrev pub replayed : Request → Body → Request
replayed r b = replayed_at r b b.fault

replayed_at-body :
    (r : Request) (b : Body) (fault : Option Err) → (replayed_at r b fault).body ≡ some b
replayed_at-body r b none = refl
replayed_at-body r b (some e) = refl

-- `decode` gives the tokens of a text and whether it then ends without a fault.
module _ (in_range : Bytes → Bool) (decode : Bytes → List Token × Bool)
    (media_matches : Bytes → Bool) where
  abbrev pub accepted_text : Shape → Bytes → Bool
  accepted_text shape content = accepts in_range shape (decode content).0 (decode content).1

  unfoldable pub admits_body : Shape → Body → Bool
  unfolding accepts
  admits_body shape b = elim b.fault [
    | some e ↦ false
    | none ↦ ltb 0 (length b.content) && accepted_text shape b.content
  ]

  unfoldable pub admits_with : Shape → Request → Option Body → Bool × Request
  unfolding admits_body
  admits_with shape r none = (false, r)
  admits_with shape r (some b) = (admits_body shape b, replayed r b)

  -- `admits`: the answer, and the request that the next handler sees.
  unfoldable pub admits : Shape → Request → Bool × Request
  unfolding admits_with before_semicolon trim_space eq_bytes
  admits shape r =
      if not (eq_bytes (trim_space (before_semicolon r.content_type)) (codes "application/json"))
        || not (media_matches r.content_type)
      then (false, r)
      else admits_with shape r r.body

  fault-none :
      (shape : Shape) (b : Body) (fault : Option Err)
      → elim fault [
        | some e ↦ false
        | none ↦ ltb 0 (length b.content) && accepted_text shape b.content
      ]
        ≡ true
      → (fault ≡ none) × (accepted_text shape b.content ≡ true)
  fault-none shape b none h =
      (refl, (&&-true (ltb 0 (length b.content)) (accepted_text shape b.content) h).1)
  fault-none shape b (some e) h = cc

  -- Where the answer is yes, the body was read to its end and accepted, and it reads the same again.
  body-admitted :
      (shape : Shape) (r : Request) (body : Option Body)
      → (admits_with shape r body).0 ≡ true
      → (b : Body) × (body ≡ some b)
        × (b.fault ≡ none)
        × (accepted_text shape b.content ≡ true)
        × ((admits_with shape r body).1.body ≡ some b)
  unfolding admits_with
  body-admitted shape r none h = cc
  body-admitted shape r (some b) h =
      let (whole, fits) = fault-none shape b b.fault h in
      (b, refl, whole, fits, replayed_at-body r b b.fault)

  not-skipped :
      (t : Bool) (r : Request) (o : Bool × Request)
      → (if t then (false, r) else o).0 ≡ true
      → (if t then (false, r) else o) ≡ o
  not-skipped true r o h = cc
  not-skipped false r o h = refl

  -- A request that the pass admits has one JSON document as its body, which the schema allows that the
  -- shape was compiled from, and the next handler reads the same body. The decoder is relied on to end
  -- without a fault only behind whole documents.
  pub admits-allows :
      (schemas : Schemas) (ref : ℕ) (shape : Shape) (r : Request)
      → ((content : Bytes)
          → (decode content).1 ≡ true
          → (vs : Items) × ((decode content).0 ≡ item_tokens vs []))
      → compile_body_shape schemas levels ref ≡ some shape
      → (admits shape r).0 ≡ true
      → (b : Body) × (v : Json) × (s : Schema) × (r.body ≡ some b)
        × ((admits shape r).1.body ≡ some b)
        × ((decode b.content).0 ≡ tokens v [])
        × (schemas ref ≡ some s)
        × (allows in_range schemas s v ≡ true)
  unfolding admits
  admits-allows schemas ref shape r reads compiled h =
      let t =
        not (eq_bytes (trim_space (before_semicolon r.content_type)) (codes "application/json"))
        || not (media_matches r.content_type) in
      let same = not-skipped t r (admits_with shape r r.body) h in
      let (b, has, whole, fits, kept) =
        body-admitted shape r r.body (ap (λ o. o.0) (sym same) ∙ h) in
      let (v, clean, document, conforming) =
        (accepts-conforms in_range shape (decode b.content).0 (decode b.content).1
            (reads b.content)).0
          fits in
      let (s, node, allowed) =
        compiled-allows in_range schemas levels ref shape v compiled conforming in
      (b, v, s, has, ap (λ o. o.1.body) same ∙ kept, document, node, allowed)
