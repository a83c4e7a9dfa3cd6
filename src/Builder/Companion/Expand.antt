-- ===== src/Builder/Companion/Expand.antt =====
-- core/src/builder/companion/src/expand/mod.rs: what `expand` puts together of a definition and of the crates at
-- hand before it writes the code of module `Generated` with it, and the macro from its attribute to there.
use Prim.Native.String as Text
use fudge.Prelude.{
  Option, none, some, String, List, [], ◌∷◌, ◌++◌, map, Result, ok, err, panic, InnerError,
}
use fudge.Builder.Companion.Parse.{Syn, Field, ItemStruct, CompanionDef, and_then, parse_companion}
use fudge.Builder.Companion.Parse.Helper.{
  StructField, parachain_ids, parachain_names, parachain_types, parachain_fields,
  relaychain_as_field,
}
pub mod Same
pub mod Success

-- `FoundCrate` of `proc_macro_crate`; a name it gives can stand as an identifier.
pub data FoundCrate : Type 0 where
  itself : FoundCrate
  named : String → FoundCrate

-- `crate`, or an identifier
pub data CratePath : Type 0 where
  crate_ : CratePath
  ident : String → CratePath

unfoldable pub get_crate_with_name :
    (String → Result InnerError FoundCrate) → String → Result InnerError CratePath
get_crate_with_name crate_name name = elim (crate_name name) [
  | ok itself ↦ ok crate_
  | ok (named n) ↦ ok (ident n)
  | err _ ↦ err (Text.◌++◌ "Crate " (Text.◌++◌ name " must be present for companion macro."))
  | panic ↦ panic
]

-- The paths of the crates that the written code uses.
pub record Crates : Type 0 where
  pub fudge_crate : CratePath
  pub fudge_core_crate : CratePath
  pub tracing_crate : CratePath
  pub codec_crate : CratePath
  pub sp_std_crate : CratePath
  pub thiserror_crate : CratePath

-- What `quote!` is given.
pub record Expansion (y : Syn) : Type 0 where
  pub crates : Crates
  pub vis : y.Visibility
  pub name : String
  pub relay_chain : StructField y
  pub parachains : List (StructField y)
  pub parachain_names : List String
  pub parachain_types : List y.Ty
  pub parachain_ids : List y.TokenStream
  pub others_names : List String
  pub others_types : List y.Ty
  pub others_vis : List y.Visibility

abbrev pub named_then :
    Option String → Result InnerError (List String) → Result InnerError (List String)
named_then none rest = panic
named_then (some name) rest = and_then rest λ names. ok (name ∷ names)

unfoldable pub find_crates : (String → Result InnerError FoundCrate) → Result InnerError Crates
unfolding get_crate_with_name
find_crates crate_name = and_then (get_crate_with_name crate_name "fudge") λ fudge_crate.
    and_then (get_crate_with_name crate_name "fudge-core") λ fudge_core_crate.
      and_then (get_crate_with_name crate_name "sp-tracing") λ tracing_crate.
        and_then (get_crate_with_name crate_name "parity-scale-codec") λ codec_crate.
          and_then (get_crate_with_name crate_name "sp-std") λ sp_std_crate.
            and_then (get_crate_with_name crate_name "thiserror") λ thiserror_crate. ok (record {
              fudge_crate = fudge_crate;
              fudge_core_crate = fudge_core_crate;
              tracing_crate = tracing_crate;
              codec_crate = codec_crate;
              sp_std_crate = sp_std_crate;
              thiserror_crate = thiserror_crate;
            })

module _ {y : Syn} where
  -- The names of the other fields: one without a name panics.
  unfoldable pub names_of : List (Field y) → Result InnerError (List String)
  names_of [] = ok []
  names_of (field ∷ fields) = named_then field.ident (names_of fields)

  -- `#(#others_vis #others_names: #others_types,)*`
  abbrev pub zip_fields : List y.Visibility → List String → List y.Ty → List (StructField y)
  zip_fields (vis ∷ viss) (name ∷ names) (ty ∷ tys) =
      record { vis = vis; name = name; ty = ty } ∷ zip_fields viss names tys
  zip_fields [] names tys = []
  zip_fields (vis ∷ viss) [] tys = []
  zip_fields (vis ∷ viss) (name ∷ names) [] = []

  -- The fields of the struct that is written.
  unfoldable pub struct_fields : Expansion y → List (StructField y)
  struct_fields x =
      x.relay_chain ∷ (x.parachains ++ zip_fields x.others_vis x.others_names x.others_types)

  abbrev pub assemble : CompanionDef y → Crates → List String → Expansion y
  unfolding parachain_fields parachain_names parachain_types parachain_ids
  assemble def crates names = record {
    crates = crates;
    vis = def.vis;
    name = def.companion_name;
    relay_chain = relaychain_as_field def.relaychain;
    parachains = parachain_fields def;
    parachain_names = parachain_names def;
    parachain_types = parachain_types def;
    parachain_ids = parachain_ids def;
    others_names = names;
    others_types = map (λ field. field.ty) def.others;
    others_vis = map (λ field. field.vis) def.others;
  }

  unfoldable pub expand :
      (String → Result InnerError FoundCrate) → CompanionDef y → Result InnerError (Expansion y)
  unfolding find_crates names_of assemble
  expand crate_name def =
      and_then (find_crates crate_name)
        λ crates. and_then (names_of def.others) λ names. ok (assemble def crates names)

  unfoldable pub impl_companion_gen :
      (String → Result InnerError FoundCrate)
      → y.TokenStream
      → Result InnerError (ItemStruct y)
      → Result InnerError (Expansion y)
  unfolding parse_companion expand
  impl_companion_gen crate_name attr item = and_then (parse_companion attr item) (expand crate_name)
