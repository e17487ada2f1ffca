-- ===== src/Http/BodyShape/Admits.antt =====
-- What a compiled shape admits, the schema allows.
use go_service_template_rest.Base.{
  ||-right, ℕ, zero, suc, ◌≡◌, refl, sym, ap, ◌∙◌, subst, Bool, true, false, ◌&&◌, not, Option,
  none, some, Bytes, codes, &&-true,
}
use go_service_template_rest.Http.BodyShape.{
  Shape, Properties, object, array, string, number, boolean, integer, find_property,
}
use go_service_template_rest.Http.BodyShape.Document.{
  Json, null, bool, num, text, arr, obj, Items, no_items, item, Members, no_members, member,
  all_present, conforms, items_conform, members_conform, member_conforms,
}
use go_service_template_rest.Http.BodyShape.Compile.{
  Schema, Schemas, reject_unknown, extra_allowed, compile_properties, compile_node,
  compile_body_shape, find_ref, integer_value, fits_format, has_type, allows, items_allowed,
  members_allowed,
}
use go_service_template_rest.Http.BodyShape.Built.{Built, node-Built}
use go_service_template_rest.Http.BodyShape.Lookups.{Agree, find-Agree, required-named}
use go_service_template_rest.Http.BodyShape.Integers.{integer-fits, and-intro}

extra_allowed-not : (o : Option Bool) → extra_allowed o ≡ not (reject_unknown o)
extra_allowed-not none = refl
extra_allowed-not (some true) = refl
extra_allowed-not (some false) = refl

module _ (in_range : Bytes → Bool) (schemas : Schemas) where
  -- A node that compiled, with what is known of the documents it compiled for.
  allowed_at :
      (compile : ℕ → Option Shape) (node : Option Schema) (shape : Shape) (v : Json)
      → compile_node compile node ≡ some shape
      → ((s : Schema) → Built compile s shape → allows in_range schemas s v ≡ true)
      → elim node [ none ↦ false | some s ↦ allows in_range schemas s v ] ≡ true
  allowed_at compile node shape v h each =
      let (s, same, built) = node-Built compile node shape h in
      subst (λ o. elim o [ none ↦ false | some n ↦ allows in_range schemas n v ] ≡ true) (sym same)
        (each s built)

  ref-allowed :
      (left ref : ℕ) (shape : Shape) (v : Json)
      → compile_body_shape schemas left ref ≡ some shape
      → ((compile : ℕ → Option Shape)
          → (left' : ℕ) → (compile ≡ compile_body_shape schemas left')
          → (s : Schema) → Built compile s shape
          → allows in_range schemas s v ≡ true)
      → elim (schemas ref) [ none ↦ false | some s ↦ allows in_range schemas s v ] ≡ true
  unfolding compile_body_shape
  ref-allowed zero ref shape v h each = cc
  ref-allowed (suc left) ref shape v h each =
      allowed_at (compile_body_shape schemas left) (schemas ref) shape v h
        (each (compile_body_shape schemas left) left refl)

  member-allowed :
      (left : ℕ) (reject : Bool) (v : Json) (found : Option (ℕ × Shape)) (ref : Option ℕ)
      → Agree (compile_body_shape schemas left) found ref
      → member_conforms found reject (λ shape. conforms in_range shape v) ≡ true
      → ((left' : ℕ) (s : Schema) (shape : Shape)
          → Built (compile_body_shape schemas left') s shape
          → conforms in_range shape v ≡ true
          → allows in_range schemas s v ≡ true)
      → elim ref [
        | none ↦ not reject
        | some r ↦ elim (schemas r) [ none ↦ false | some node ↦ allows in_range schemas node v ]
      ]
        ≡ true
  member-allowed left reject v none none agree h each = h
  member-allowed left reject v none (some r) agree h each = absurd agree
  member-allowed left reject v (some found) none agree h each = absurd agree
  member-allowed left reject v (some (index, shape)) (some r) agree h each =
      ref-allowed left r shape v agree (λ compile left' same s built.
        each left' s shape (subst (λ c. Built c s shape) same built) h)

  mutual
    unfolding allows conforms

    node-allows :
        (v : Json) (left : ℕ) (s : Schema) (shape : Shape)
        → Built (compile_body_shape schemas left) s shape
        → conforms in_range shape v ≡ true
        → allows in_range schemas s v ≡ true
    node-allows (text t) left s string built h = built
    node-allows (bool b) left s boolean built h = built
    node-allows (num n) left s number built h = rw (built, h) refl
    node-allows (num n) left s (integer int32) built h =
        ||-right (has_type s (codes "number") && in_range n)
          (has_type s (codes "integer") && fits_format s.format (integer_value n))
          (and-intro _ _ built.0 (integer-fits s.format int32 n built.1 h))
    node-allows (arr xs) left s (array items) built h =
        rw (built.0, items-allow xs left s.items items built.1 h) refl
    node-allows (obj ms) left s (object properties bits reject) built h =
        let (t, props, required, rejects) = built in
        let (each, present) =
          &&-true (members_conform in_range properties reject ms) (all_present properties bits ms)
            h in
        rw
          (
            t,
            members-allow ms left s properties reject props rejects each,
            required-named properties s.required bits ms required present,
          )
          refl
    node-allows null left s string built h = cc
    node-allows _ left s _ built h = cc

    items-allow :
        (xs : Items) (left ref : ℕ) (items : Shape)
        → compile_body_shape schemas left ref ≡ some items
        → items_conform in_range items xs ≡ true
        → items_allowed in_range schemas (schemas ref) xs ≡ true
    items-allow no_items left ref items compiled h = refl
    items-allow (item x xs) left ref items compiled h =
        let (first, rest) =
          &&-true (conforms in_range items x) (items_conform in_range items xs) h in
        and-intro _ _
          (ref-allowed left ref items x compiled (λ compile left' same s built.
            node-allows x left' s items (subst (λ c. Built c s items) same built) first))
          (items-allow xs left ref items compiled rest)

    members-allow :
        (ms : Members) (left : ℕ) (s : Schema) (properties : Properties) (reject : Bool)
        → compile_properties (compile_body_shape schemas left) s.properties ≡ some properties
        → reject_unknown s.additional_has ≡ reject
        → members_conform in_range properties reject ms ≡ true
        → members_allowed in_range schemas s ms ≡ true
    members-allow no_members left s properties reject compiled rejects h = refl
    members-allow (member name v ms) left s properties reject compiled rejects h =
        let (first, rest) =
          &&-true
            (member_conforms (find_property properties name 0) reject
              (λ shape. conforms in_range shape v))
            (members_conform in_range properties reject ms) h in
        and-intro _ _
          (subst
            (λ b.
              elim (find_ref s.properties name) [
                | none ↦ b
                | some r ↦ elim (schemas r) [
                  | none ↦ false
                  | some node ↦ allows in_range schemas node v
                ]
              ]
              ≡ true)
            (sym (extra_allowed-not s.additional_has ∙ ap not rejects))
            (member-allowed left reject v (find_property properties name 0)
              (find_ref s.properties name)
              (find-Agree (compile_body_shape schemas left) s.properties properties name 0 compiled)
              first (λ left' s' shape built fits. node-allows v left' s' shape built fits)))
          (members-allow ms left s properties reject compiled rejects rest)

  -- A document that has the shape compiled from a schema is allowed by the schema, at whatever depth
  -- the compilation began and also where schemas contain themselves: the pass admits nothing that the
  -- schema's keywords forbid.
  pub compiled-allows :
      (left ref : ℕ) (shape : Shape) (v : Json)
      → compile_body_shape schemas left ref ≡ some shape
      → conforms in_range shape v ≡ true
      → (s : Schema) × (schemas ref ≡ some s) × (allows in_range schemas s v ≡ true)
  unfolding compile_body_shape
  compiled-allows zero ref shape v h fits = cc
  compiled-allows (suc left) ref shape v h fits =
      let (s, same, built) = node-Built (compile_body_shape schemas left) (schemas ref) shape h in
      (s, same, node-allows v left s shape built fits)
