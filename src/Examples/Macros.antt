-- ===== src/Examples/Macros.antt =====
-- A struct for the companion macro, whose tokens are numbers and whose groups are all of a stream.
use text.Mathlib.Text as Text
use mathlib.Core.List.{Perm}
use fudge.Prelude.{
  All, map, Result, InnerError, if◌then◌else◌, ℕ, Bool, true, false, some, List, [], ◌∷◌, ok, ◌≡◌,
  ◌↔◌, refl, String,
}
use fudge.Builder.Companion.Parse.{
  Syn, Attribute, Field, ItemStruct, named, parse_item, CompanionDef, parse_struct, parse_field,
  companion_fields,
}
use fudge.Builder.Companion.Parse.Fields.{IsCompanion, parse_struct-IsCompanion}
use fudge.Builder.Companion.Parse.Helper.{as_field}
use fudge.Builder.Companion.Expand.{
  FoundCrate, itself, CratePath, crate_, ident, Expansion, struct_fields, impl_companion_gen,
}
use fudge.Builder.Companion.Expand.Same.{impl_companion_gen-Perm}
use fudge.Builder.Companion.Expand.Success.{
  IsNamed, IsPresent, StandsOn, used_crates, impl_companion_gen-IsCompanion,
}

abbrev is_nil : List ℕ → Bool
is_nil [] = true
is_nil (x ∷ xs) = false

abbrev syn : Syn
syn = record {
  TokenStream = List ℕ;
  is_empty = is_nil;
  parse_group = λ tokens. ok tokens;
  Ty = ℕ;
  Visibility = Bool;
}

abbrev fudge_attribute : String → List ℕ → Attribute syn
fudge_attribute name tokens = record { segments = "fudge" ∷ name ∷ []; tokens = tokens }

abbrev fields : List (Field syn)
fields =
    record {
      attrs = fudge_attribute "parachain" (2000 ∷ []) ∷ [];
      ident = some "sibling";
      ty = 1;
      vis = true;
    }
    ∷ record {
      attrs = fudge_attribute "relaychain" [] ∷ [];
      ident = some "polkadot";
      ty = 2;
      vis = false;
    }
    ∷ record { attrs = []; ident = some "clock"; ty = 3; vis = false }
    ∷ []

abbrev def : CompanionDef syn
def = record {
  vis = true;
  companion_name = "TestEnv";
  relaychain = record { name = "polkadot"; builder = 2; vis = false };
  parachains = record { name = "sibling"; id = 2000 ∷ []; builder = 1; vis = true } ∷ [];
  others = record { attrs = []; ident = some "clock"; ty = 3; vis = false } ∷ [];
}

parse_struct-IsCompanion_example :
    (parse_struct true "TestEnv" fields ≡ ok def) ↔ IsCompanion true "TestEnv" fields def
parse_struct-IsCompanion_example = parse_struct-IsCompanion true "TestEnv" fields def

parses : parse_struct true "TestEnv" fields ≡ ok def
unfolding parse_struct parse_field companion_fields
parses = refl

abbrev item : ItemStruct syn
item = record { item_vis = true; item_ident = "TestEnv"; fields = named fields }

-- All crates go by their names, but the macro's own.
abbrev crate_name : String → Result InnerError FoundCrate
crate_name name = if Text.◌==◌ name "fudge" then ok itself else ok (FoundCrate.named "dep")

abbrev dep : CratePath
dep = ident "dep"

abbrev expansion : Expansion syn
expansion = record {
  crates = record {
    fudge_crate = crate_;
    fudge_core_crate = dep;
    tracing_crate = dep;
    codec_crate = dep;
    sp_std_crate = dep;
    thiserror_crate = dep;
  };
  vis = true;
  name = "TestEnv";
  relay_chain = record { vis = false; name = "polkadot"; ty = 2 };
  parachains = record { vis = true; name = "sibling"; ty = 1 } ∷ [];
  parachain_names = "sibling" ∷ [];
  parachain_types = 1 ∷ [];
  parachain_ids = (2000 ∷ []) ∷ [];
  others_names = "clock" ∷ [];
  others_types = 3 ∷ [];
  others_vis = false ∷ [];
}

expands : impl_companion_gen crate_name [] (ok item) ≡ ok expansion
unfolding impl_companion_gen parse_struct parse_field companion_fields parse_item
expands = refl

impl_companion_gen-Perm_example :
    (fields' : List (Field syn)) × (named fields ≡ named fields')
    × (◌≡◌ {A = String} "TestEnv" "TestEnv")
    × (◌≡◌ {A = Bool} true true)
    × Perm (map some (struct_fields expansion)) (map as_field fields')
impl_companion_gen-Perm_example = impl_companion_gen-Perm crate_name [] item expansion expands

impl_companion_gen-IsCompanion_example :
    ((x : Expansion syn) × (impl_companion_gen crate_name [] (ok item) ≡ ok x)) ↔ (
      (def : CompanionDef syn) × StandsOn [] item def
      × All IsNamed def.others
      × All (IsPresent crate_name) used_crates)
impl_companion_gen-IsCompanion_example = impl_companion_gen-IsCompanion crate_name [] item
