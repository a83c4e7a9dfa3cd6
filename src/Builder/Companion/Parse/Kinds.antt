-- ===== src/Builder/Companion/Parse/Kinds.antt =====
-- What kind a field of a companion is, by rules of its own: the first attribute of `fudge` decides.
use mathlib.Core.Path.{subst}
use text.Mathlib.Text as Text
use text.Mathlib.TextEquality.{eq_iff}
use fudge.Prelude.{
  true, false, Bool-cases, Option, none, some, inl, inr, ◌⊎◌, List, [], ◌∷◌, ◌++◌, All, ok,
  InnerError, String, ◌≡◌, ◌≢◌, refl, ap, ◌∙◌, arith,
}
use fudge.Builder.Companion.Parse.{
  Syn, Attribute, Field, FieldType, parachain, relaychain, other, ok_or, and_then, by_attribute,
  by_second, first, named_fudge, companion_fields, parse_field,
}
use fudge.Builder.Companion.Parse.Gathering.{and_then-ok, kinds}

named_fudge_cases :
    (segments : List String)
    → ((rest : List String) × (segments ≡ "fudge" ∷ rest))
      ⊎ ((rest : List String) → segments ≢ "fudge" ∷ rest)
named_fudge_cases [] = inr (λ rest e. cc)
named_fudge_cases (s ∷ segments) = elim (Bool-cases (Text.◌==◌ s "fudge")) [
  | inl q ↦ inl (segments, ap (λ s. s ∷ segments) ((eq_iff s "fudge").0 q))
  | inr q ↦
      inr (λ rest e. let same : s ≡ "fudge" = cc in let found = (eq_iff s "fudge").1 same in cc)
]

fudge_named :
    (segments rest : List String) → segments ≡ "fudge" ∷ rest → named_fudge (first segments) ≡ true
fudge_named segments rest e = rw (e) refl

foreign_named :
    (segments : List String)
    → ((rest : List String) → segments ≢ "fudge" ∷ rest)
    → named_fudge (first segments) ≡ false
foreign_named [] foreign = refl
foreign_named (s ∷ segments) foreign = elim (Bool-cases (Text.◌==◌ s "fudge")) [
  | inl q ↦ absurd (foreign segments (ap (λ s. s ∷ segments) ((eq_iff s "fudge").0 q)))
  | inr q ↦ q
]

-- The name that a builder's field needs.
named_then_ok :
    {A : Type 0} (m : InnerError) (o : Option String) (f : String → A) (a : A)
    → and_then (ok_or m o) (λ name. ok (f name)) ≡ ok a
    → (name : String) × (o ≡ some name) × (f name ≡ a)
named_then_ok m none f a e = cc
named_then_ok m (some name) f a e = (name, refl, cc)

module _ {y : Syn} where
  -- The path of the attribute does not start with `fudge`.
  abbrev pub IsForeign : Attribute y → Type 0
  IsForeign a = (rest : List String) → a.segments ≢ "fudge" ∷ rest

  -- The attribute is there, with none of `fudge` before it.
  abbrev pub IsFirst : Attribute y → List (Attribute y) → Type 0
  IsFirst a attrs =
      (before after : List (Attribute y)) × (attrs ≡ before ++ (a ∷ after)) × All IsForeign before

  -- A field without an attribute of `fudge` is no builder. Of the others the first such attribute is
  -- `fudge::parachain` with the id in a group, or `fudge::relaychain`, and the field has a name.
  pub data IsKind (field : Field y) : FieldType y → Type 0 where
    is_other : All IsForeign field.attrs → IsKind field (other field)
    is_parachain :
        (a : Attribute y) (id : y.TokenStream) (name : String)
        → IsFirst a field.attrs
        → a.segments ≡ "fudge" ∷ "parachain" ∷ []
        → y.parse_group a.tokens ≡ ok id
        → field.ident ≡ some name
        → IsKind field
            (parachain (record { name = name; id = id; builder = field.ty; vis = field.vis }))
    is_relaychain :
        (a : Attribute y) (name : String)
        → IsFirst a field.attrs
        → a.segments ≡ "fudge" ∷ "relaychain" ∷ []
        → field.ident ≡ some name
        → IsKind field (relaychain (record { name = name; builder = field.ty; vis = field.vis }))

  companion_fields-IsFirst :
      (attrs : List (Attribute y))
      → (All IsForeign attrs × (companion_fields attrs ≡ []))
        ⊎ ((a : Attribute y) × (rest : List String) × (as_ : List (Attribute y)) × IsFirst a attrs
            × (a.segments ≡ "fudge" ∷ rest)
            × (companion_fields attrs ≡ a ∷ as_))
  unfolding companion_fields
  companion_fields-IsFirst [] = inl (tt, refl)
  companion_fields-IsFirst (a ∷ attrs) = elim (named_fudge_cases a.segments) [
    | inl (rest, e) ↦ inr (
      a,
      rest,
      companion_fields attrs,
      ([], attrs, refl, tt),
      e,
      rw (fudge_named a.segments rest e) refl,
    )
    | inr foreign ↦ elim (companion_fields-IsFirst attrs) [
      | inl (all_, none_) ↦ inl ((foreign, all_), rw (foreign_named a.segments foreign) none_)
      | inr (b, rest, as_, (before, after, e, all_), segments, found) ↦ inr (
        b,
        rest,
        as_,
        (a ∷ before, after, ap (λ l. a ∷ l) e, (foreign, all_)),
        segments,
        rw (foreign_named a.segments foreign) found,
      )
    ]
  ]

  IsForeign-companion_fields :
      (attrs : List (Attribute y)) → All IsForeign attrs → companion_fields attrs ≡ []
  unfolding companion_fields
  IsForeign-companion_fields [] all_ = refl
  IsForeign-companion_fields (a ∷ attrs) all_ =
      rw (foreign_named a.segments all_.0) (IsForeign-companion_fields attrs all_.1)

  IsFirst-companion_fields :
      (a : Attribute y) (rest : List String) (before after : List (Attribute y))
      → All IsForeign before
      → a.segments ≡ "fudge" ∷ rest
      → companion_fields (before ++ (a ∷ after)) ≡ a ∷ companion_fields after
  unfolding companion_fields
  IsFirst-companion_fields a rest [] after all_ e = rw (fudge_named a.segments rest e) refl
  IsFirst-companion_fields a rest (b ∷ before) after all_ e =
      rw (foreign_named b.segments all_.0) (IsFirst-companion_fields a rest before after all_.1 e)

  by_second-IsKind :
      (field : Field y) (a : Attribute y) (second : String) (k : FieldType y)
      → IsFirst a field.attrs
      → a.segments ≡ "fudge" ∷ second ∷ []
      → by_second field a.tokens second ≡ ok k
      → IsKind field k
  by_second-IsKind field a second k is_first segments e =
      elim (Bool-cases (Text.◌==◌ second "parachain")) [
        | inl q ↦
            let (id, group, e₁) =
              and_then-ok (y.parse_group a.tokens)
                (λ id. and_then (ok_or "Parachain field identifier not found." field.ident) λ name.
                  ok (
                    parachain
                      (record { name = name; id = id; builder = field.ty; vis = field.vis })))
                k (ground (arith, q, e)) in
            let (name, ident, made) =
              named_then_ok "Parachain field identifier not found." field.ident _ k e₁ in
            subst (IsKind field) made (
              is_parachain a id name is_first
                (segments ∙ ap (λ s. "fudge" ∷ s ∷ []) ((eq_iff second "parachain").0 q)) group
                ident)
        | inr q ↦ elim (Bool-cases (Text.◌==◌ second "relaychain")) [
          | inl q₁ ↦
              let (name, ident, made) =
                named_then_ok "Relaychain field identifier not found." field.ident
                  (λ name. relaychain (record { name = name; builder = field.ty; vis = field.vis }))
                  k (ground (arith, q, q₁, e)) in
              subst (IsKind field) made (
                is_relaychain a name is_first
                  (segments ∙ ap (λ s. "fudge" ∷ s ∷ []) ((eq_iff second "relaychain").0 q₁)) ident)
          | inr q₁ ↦ absurd (ground (arith, q, q₁, e))
        ]
      ]

  by_attribute-IsKind :
      (field : Field y) (a : Attribute y) (as_ : List (Attribute y)) (rest : List String)
      (k : FieldType y)
      → IsFirst a field.attrs
      → a.segments ≡ "fudge" ∷ rest
      → by_attribute field (a ∷ as_) ≡ ok k
      → IsKind field k
  by_attribute-IsKind field a as_ [] k is_first segments e = absurd (ground (arith, segments, e))
  by_attribute-IsKind field a as_ (second ∷ []) k is_first segments e =
      by_second-IsKind field a second k is_first segments (ground (arith, segments, e))
  by_attribute-IsKind field a as_ (s₁ ∷ s₂ ∷ rest) k is_first segments e =
      absurd (ground (arith, segments, e))

  parse_field-IsKind :
      (field : Field y) (k : FieldType y) → parse_field field ≡ ok k → IsKind field k
  unfolding parse_field
  parse_field-IsKind field k e = elim (companion_fields-IsFirst field.attrs) [
    | inl (all_, none_) ↦
        let made : other field ≡ k = ground (arith, none_, e) in
        subst (IsKind field) made (is_other all_)
    | inr (a, rest, as_, is_first, segments, found) ↦
        by_attribute-IsKind field a as_ rest k is_first segments (ground (arith, found, e))
  ]

  IsKind-parse_field :
      (field : Field y) (k : FieldType y) → IsKind field k → parse_field field ≡ ok k
  unfolding parse_field
  IsKind-parse_field field _ (is_other all_) =
      let none_ = IsForeign-companion_fields field.attrs all_ in ground (arith, none_)
  IsKind-parse_field field _
        (is_parachain a id name (before, after, e, all_) segments group ident) =
      let found = IsFirst-companion_fields a _ before after all_ segments in
      let all_fields = ap companion_fields e ∙ found in
      rw (all_fields) (rw (segments) (rw (group) (rw (ident) refl)))
  IsKind-parse_field field _ (is_relaychain a name (before, after, e, all_) segments ident) =
      let found = IsFirst-companion_fields a _ before after all_ segments in
      let all_fields = ap companion_fields e ∙ found in
      rw (all_fields) (rw (segments) (rw (ident) refl))

  -- The fields have these kinds, in order.
  abbrev pub AreKinds : List (Field y) → List (FieldType y) → Type 0
  AreKinds [] [] = Unit {0}
  AreKinds [] (k ∷ ks) = ⊥
  AreKinds (f ∷ fs) [] = ⊥
  AreKinds (f ∷ fs) (k ∷ ks) = IsKind f k × AreKinds fs ks

  pub kinds-AreKinds :
      (fs : List (Field y)) (ks : List (FieldType y)) → kinds fs ≡ ok ks → AreKinds fs ks
  unfolding parse_field
  kinds-AreKinds [] [] e = tt
  kinds-AreKinds [] (k ∷ ks) e = absurd (ground (arith, e))
  kinds-AreKinds (f ∷ fs) ks e =
      let (k, of_field, e₁) =
        and_then-ok (parse_field f) (λ k. and_then (kinds fs) λ ks. ok (k ∷ ks)) ks e in
      let (ks', of_fields, e₂) = and_then-ok (kinds fs) (λ ks. ok (k ∷ ks)) ks e₁ in
      let made : k ∷ ks' ≡ ks = cc in
      subst (AreKinds (f ∷ fs)) made
        (parse_field-IsKind f k of_field, kinds-AreKinds fs ks' of_fields)

  pub AreKinds-kinds :
      (fs : List (Field y)) (ks : List (FieldType y)) → AreKinds fs ks → kinds fs ≡ ok ks
  unfolding parse_field
  AreKinds-kinds [] [] are = refl
  AreKinds-kinds [] (k ∷ ks) are = absurd are
  AreKinds-kinds (f ∷ fs) [] are = absurd are
  AreKinds-kinds (f ∷ fs) (k ∷ ks) are =
      rw (IsKind-parse_field f k are.0) (rw (AreKinds-kinds fs ks are.1) refl)
