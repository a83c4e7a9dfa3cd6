-- ===== src/Builder/Companion/Parse/Named.antt =====
-- The fields of a struct and their kinds.
use text.Mathlib.Text as Text
use fudge.Prelude.{
  ◌==◌, length, Bool-cases, Option-cases, inl, inr, List, [], ◌∷◌, Result, ok, err, panic,
  InnerError, ◌≡◌, ap, sym, arith, String,
}
use fudge.Builder.Companion.Parse.{
  Syn, Attribute, Field, FieldType, parachain, relaychain, other, ok_or, and_then, by_attributes,
  by_second, relaychain_field, last, companion_fields, parse_field,
}
use fudge.Builder.Companion.Parse.Helper.{as_field, kind_as_field}

and_then_some :
    {A B : Type 0} (x : Result InnerError A) (f : A → Result InnerError B) (b : B)
    → and_then x f ≡ ok b
    → (a : A) × (f a ≡ ok b)
and_then_some (ok a) f b e = (a, e)
and_then_some (err m) f b e = cc
and_then_some panic f b e = cc

module _ {y : Syn} where
  parachain_named :
      (field : Field y) (id : y.TokenStream) (k : FieldType y)
      → and_then (ok_or "Parachain field identifier not found." field.ident) (λ name.
        ok (parachain (record { name = name; id = id; builder = field.ty; vis = field.vis })))
        ≡ ok k
      → kind_as_field k ≡ as_field field
  parachain_named field id k e = elim (Option-cases field.ident) [
    | inl q ↦ absurd (ground (arith, q, e))
    | inr (name, q) ↦
        let made : parachain (record { name = name; id = id; builder = field.ty; vis = field.vis })
            ≡ k =
          ground (arith, q, e) in
        rw (q) (ap kind_as_field (sym made))
  ]

  relaychain_named :
      (field : Field y) (k : FieldType y)
      → relaychain_field field ≡ ok k
      → kind_as_field k ≡ as_field field
  relaychain_named field k e = elim (Option-cases field.ident) [
    | inl q ↦ absurd (ground (arith, q, e))
    | inr (name, q) ↦
        let made : relaychain (record { name = name; builder = field.ty; vis = field.vis }) ≡ k =
          ground (arith, q, e) in
        rw (q) (ap kind_as_field (sym made))
  ]

  by_second_named :
      (field : Field y) (tokens : y.TokenStream) (second : String) (k : FieldType y)
      → by_second field tokens second ≡ ok k
      → kind_as_field k ≡ as_field field
  by_second_named field tokens second k e = elim (Bool-cases (Text.◌==◌ second "parachain")) [
    | inl q ↦
        let (id, made) =
          and_then_some (y.parse_group tokens)
            (λ id. and_then (ok_or "Parachain field identifier not found." field.ident) λ name.
              ok (parachain (record { name = name; id = id; builder = field.ty; vis = field.vis })))
            k (ground (arith, q, e)) in
        parachain_named field id k made
    | inr q ↦ elim (Bool-cases (Text.◌==◌ second "relaychain")) [
      | inl q₁ ↦ relaychain_named field k (ground (arith, q, q₁, e))
      | inr q₁ ↦ absurd (ground (arith, q, q₁, e))
    ]
  ]

  by_attributes_named :
      (field : Field y) (attrs : List (Attribute y)) (k : FieldType y)
      → by_attributes field attrs ≡ ok k
      → kind_as_field k ≡ as_field field
  by_attributes_named field [] k e =
      let same : other field ≡ k = ground (arith, e) in ap kind_as_field (sym same)
  by_attributes_named field (attr ∷ attrs) k e = elim (Bool-cases (length attr.segments == 2)) [
    | inl q ↦
        let (second, made) =
          and_then_some (ok_or "Last path segment not found." (last attr.segments))
            (by_second field attr.tokens) k (ground (arith, q, e)) in
        by_second_named field attr.tokens second k made
    | inr q ↦ absurd (ground (arith, q, e))
  ]

  -- The kind of a field keeps its name, its type and its visibility.
  pub parse_field_named :
      (field : Field y) (k : FieldType y)
      → parse_field field ≡ ok k
      → kind_as_field k ≡ as_field field
  unfolding parse_field
  parse_field_named field k e = by_attributes_named field (companion_fields field.attrs) k e
