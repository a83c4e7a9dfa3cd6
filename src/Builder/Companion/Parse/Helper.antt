-- ===== src/Builder/Companion/Parse/Helper.antt =====
-- core/src/builder/companion/src/parse/parachain.rs: the helpers that collect the parts of the parachains.
use fudge.Prelude.{Option, none, some, String, List, map}
use fudge.Builder.Companion.Parse.{
  Syn, Field, ParachainDef, RelaychainDef, FieldType, parachain, relaychain, other, CompanionDef,
}

-- A field of the struct that the macro writes: `#vis #name: #ty`
pub record StructField (y : Syn) : Type 0 where
  pub vis : y.Visibility
  pub name : String
  pub ty : y.Ty

module _ {y : Syn} where
  abbrev pub parachain_as_field : ParachainDef y → StructField y
  parachain_as_field para = record { vis = para.vis; name = para.name; ty = para.builder }

  unfoldable pub parachain_ids : CompanionDef y → List y.TokenStream
  parachain_ids def = map (λ para. para.id) def.parachains

  unfoldable pub parachain_names : CompanionDef y → List String
  parachain_names def = map (λ para. para.name) def.parachains

  unfoldable pub parachain_types : CompanionDef y → List y.Ty
  parachain_types def = map (λ para. para.builder) def.parachains

  -- `helper::parachains`
  unfoldable pub parachain_fields : CompanionDef y → List (StructField y)
  parachain_fields def = map parachain_as_field def.parachains

  abbrev pub relaychain_as_field : RelaychainDef y → StructField y
  relaychain_as_field relay = record { vis = relay.vis; name = relay.name; ty = relay.builder }

  -- A field as it stands in the source, if it has a name.
  abbrev pub as_field : Field y → Option (StructField y)
  as_field field = elim field.ident [
    | none ↦ none
    | some name ↦ some (record { vis = field.vis; name = name; ty = field.ty })
  ]

  abbrev pub kind_as_field : FieldType y → Option (StructField y)
  kind_as_field (parachain def) = some (parachain_as_field def)
  kind_as_field (relaychain def) = some (relaychain_as_field def)
  kind_as_field (other field) = as_field field
