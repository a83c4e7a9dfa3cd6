-- ===== src/Builder/Companion/Expand/Success.antt =====
-- When the companion macro succeeds.
use fudge.Prelude.{
  true, some, List, [], ◌∷◌, Option-cases, Result, ok, err, panic, InnerError, String, All, ◌≡◌,
  ◌↔◌, refl, inl, inr, Bool-cases, arith,
}
use fudge.Builder.Companion.Parse.{
  Syn, Field, named, ItemStruct, CompanionDef, and_then, parse_item, parse_companion,
}
use fudge.Builder.Companion.Parse.Gathering.{and_then-ok}
use fudge.Builder.Companion.Parse.Fields.{IsCompanion, parse_struct-IsCompanion}
use fudge.Builder.Companion.Expand.Same.{parse_companion-struct}
use fudge.Builder.Companion.Expand.{
  FoundCrate, itself, crate_, ident, Crates, CratePath, Expansion, get_crate_with_name, find_crates,
  names_of, assemble, expand, impl_companion_gen,
}

module _ (crate_name : String → Result InnerError FoundCrate) where
  -- The crate is there.
  abbrev pub IsPresent : String → Type 0
  IsPresent name = (found : FoundCrate) × (crate_name name ≡ ok found)

  get_crate_with_name-IsPresent :
      (name : String) (path : CratePath)
      → get_crate_with_name crate_name name ≡ ok path
      → IsPresent name
  unfolding get_crate_with_name
  get_crate_with_name-IsPresent name path e = present (crate_name name) refl
    where
      present : (r : Result InnerError FoundCrate) → crate_name name ≡ r → IsPresent name
      present (ok found) q = (found, q)
      present (err m) q = absurd (ground (arith, q, e))
      present panic q = absurd (ground (arith, q, e))

  IsPresent-get_crate_with_name :
      (name : String)
      → IsPresent name
      → (path : CratePath) × (get_crate_with_name crate_name name ≡ ok path)
  unfolding get_crate_with_name
  IsPresent-get_crate_with_name name (itself, e) = (crate_, ground (arith, e))
  IsPresent-get_crate_with_name name (FoundCrate.named n, e) = (ident n, ground (arith, e))

-- The crates that the written code uses.
abbrev pub used_crates : List String
used_crates =
    "fudge" ∷ "fudge-core" ∷ "sp-tracing" ∷ "parity-scale-codec" ∷ "sp-std" ∷ "thiserror" ∷ []

module _ (crate_name : String → Result InnerError FoundCrate) where
  -- One crate after another.
  find_crates-IsPresent :
      (crates : Crates)
      → find_crates crate_name ≡ ok crates
      → All (IsPresent crate_name) used_crates
  unfolding find_crates
  find_crates-IsPresent crates e =
      let (p₁, e₁, f₁) = and_then-ok (get_crate_with_name crate_name "fudge") _ crates e in
      let (p₂, e₂, f₂) = and_then-ok (get_crate_with_name crate_name "fudge-core") _ crates f₁ in
      let (p₃, e₃, f₃) = and_then-ok (get_crate_with_name crate_name "sp-tracing") _ crates f₂ in
      let (p₄, e₄, f₄) =
        and_then-ok (get_crate_with_name crate_name "parity-scale-codec") _ crates f₃ in
      let (p₅, e₅, f₅) = and_then-ok (get_crate_with_name crate_name "sp-std") _ crates f₄ in
      let (p₆, e₆, f₆) = and_then-ok (get_crate_with_name crate_name "thiserror") _ crates f₅ in
      (
        get_crate_with_name-IsPresent crate_name _ p₁ e₁,
        (
          get_crate_with_name-IsPresent crate_name _ p₂ e₂,
          (
            get_crate_with_name-IsPresent crate_name _ p₃ e₃,
            (
              get_crate_with_name-IsPresent crate_name _ p₄ e₄,
              (
                get_crate_with_name-IsPresent crate_name _ p₅ e₅,
                (get_crate_with_name-IsPresent crate_name _ p₆ e₆, tt),
              ),
            ),
          ),
        ),
      )

  IsPresent-find_crates :
      All (IsPresent crate_name) used_crates
      → (crates : Crates) × (find_crates crate_name ≡ ok crates)
  unfolding find_crates
  IsPresent-find_crates (a₁, (a₂, (a₃, (a₄, (a₅, (a₆, _)))))) =
      let (p₁, e₁) = IsPresent-get_crate_with_name crate_name "fudge" a₁ in
      let (p₂, e₂) = IsPresent-get_crate_with_name crate_name "fudge-core" a₂ in
      let (p₃, e₃) = IsPresent-get_crate_with_name crate_name "sp-tracing" a₃ in
      let (p₄, e₄) = IsPresent-get_crate_with_name crate_name "parity-scale-codec" a₄ in
      let (p₅, e₅) = IsPresent-get_crate_with_name crate_name "sp-std" a₅ in
      let (p₆, e₆) = IsPresent-get_crate_with_name crate_name "thiserror" a₆ in
      (
        record {
          fudge_crate = p₁;
          fudge_core_crate = p₂;
          tracing_crate = p₃;
          codec_crate = p₄;
          sp_std_crate = p₅;
          thiserror_crate = p₆;
        },
        rw (e₁) (rw (e₂) (rw (e₃) (rw (e₄) (rw (e₅) (rw (e₆) refl))))),
      )

module _ {y : Syn} where
  abbrev pub IsNamed : Field y → Type 0
  IsNamed field = (name : String) × (field.ident ≡ some name)

  names_of-IsNamed :
      (fields : List (Field y)) (names : List String)
      → names_of fields ≡ ok names
      → All IsNamed fields
  unfolding names_of
  names_of-IsNamed [] names e = tt
  names_of-IsNamed (field ∷ fields) names e = elim (Option-cases field.ident) [
    | inl q ↦ absurd (ground (arith, q, e))
    | inr (name, q) ↦
        let named_ : and_then (names_of fields) (λ names. ok (name ∷ names)) ≡ ok names =
          cc (q, e) in
        let (names', rest, _) = and_then-ok (names_of fields) _ names named_ in
        ((name, q), names_of-IsNamed fields names' rest)
  ]

  IsNamed-names_of :
      (fields : List (Field y))
      → All IsNamed fields
      → (names : List String) × (names_of fields ≡ ok names)
  unfolding names_of
  IsNamed-names_of [] all_ = ([], refl)
  IsNamed-names_of (field ∷ fields) ((name, q), all_) =
      let (names, e) = IsNamed-names_of fields all_ in (name ∷ names, rw (q) (rw (e) refl))

  -- What the macro stands on is a companion: the attribute is bare, and the struct has named fields that parse
  -- into the definition.
  abbrev pub StandsOn : y.TokenStream → ItemStruct y → CompanionDef y → Type 0
  StandsOn attr ds def =
      (fields : List (Field y)) × (y.is_empty attr ≡ true)
      × (ds.fields ≡ named fields)
      × IsCompanion ds.item_vis ds.item_ident fields def

  parse_companion-StandsOn :
      (attr : y.TokenStream) (ds : ItemStruct y) (def : CompanionDef y)
      → parse_companion attr (ok ds) ≡ ok def
      → StandsOn attr ds def
  unfolding parse_companion
  parse_companion-StandsOn attr ds def e = elim (Bool-cases (y.is_empty attr)) [
    | inl q ↦
        let (fields, named_, struct_) = parse_companion-struct attr ds def e in
        (
          fields,
          q,
          named_,
          (parse_struct-IsCompanion ds.item_vis ds.item_ident fields def).0 struct_,
        )
    | inr q ↦ absurd (ground (arith, q, e))
  ]

  StandsOn-parse_companion :
      (attr : y.TokenStream) (ds : ItemStruct y) (def : CompanionDef y)
      → StandsOn attr ds def
      → parse_companion attr (ok ds) ≡ ok def
  unfolding parse_companion parse_item
  StandsOn-parse_companion attr ds def (fields, q, named_, is) =
      let struct_ = (parse_struct-IsCompanion ds.item_vis ds.item_ident fields def).1 is in
      ground (arith, q, named_, struct_)

  -- The macro succeeds on a struct where, and only where, its attribute is bare, the struct's fields are named and
  -- make a companion, each field that is no builder has a name, and the six crates that the written code uses are
  -- present.
  pub impl_companion_gen-IsCompanion :
      (crate_name : String → Result InnerError FoundCrate) (attr : y.TokenStream)
      (ds : ItemStruct y)
      → ((x : Expansion y) × (impl_companion_gen crate_name attr (ok ds) ≡ ok x)) ↔ (
          (def : CompanionDef y) × StandsOn attr ds def
          × All IsNamed def.others
          × All (IsPresent crate_name) used_crates)
  unfolding impl_companion_gen expand
  impl_companion_gen-IsCompanion crate_name attr ds = (
    λ (x, e).
        let (def, parsed, e₁) =
          and_then-ok (parse_companion attr (ok ds)) (expand crate_name) x e in
        let (crates, found, e₂) =
          and_then-ok (find_crates crate_name)
            (λ crates. and_then (names_of def.others) λ names. ok (assemble def crates names)) x
            e₁ in
        let (names, of_others, _) =
          and_then-ok (names_of def.others) (λ names. ok (assemble def crates names)) x e₂ in
        (
          def,
          parse_companion-StandsOn attr ds def parsed,
          names_of-IsNamed def.others names of_others,
          find_crates-IsPresent crate_name crates found,
        ),
    λ (def, stands, named_, present).
        let (crates, found) = IsPresent-find_crates crate_name present in
        let (names, of_others) = IsNamed-names_of def.others named_ in
        (
          assemble def crates names,
          rw (StandsOn-parse_companion attr ds def stands) (rw found (rw of_others refl)),
        ),
  )
