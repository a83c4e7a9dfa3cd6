-- ===== src/Builder/Companion/Parse/Fields.antt =====
-- Which structs are companions.
use fudge.Prelude.{String, List, [], ◌∷◌, ok, ◌≡◌, ◌↔◌}
use fudge.Builder.Companion.Parse.{Syn, Field, FieldType, CompanionDef, parse_struct}
use fudge.Builder.Companion.Parse.Gathering.{relays, paras, rest, parse_struct-HasKinds}
use fudge.Builder.Companion.Parse.Kinds.{AreKinds, kinds-AreKinds, AreKinds-kinds}

module _ {y : Syn} where
  -- A struct with these fields is a companion: each field is of a kind, exactly one of them is a relay
  -- chain, and the definition lists the parachains and the other fields as they stand.
  abbrev pub IsCompanion : y.Visibility → String → List (Field y) → CompanionDef y → Type 0
  IsCompanion vis companion_name fields def =
      (ks : List (FieldType y)) × AreKinds fields ks
      × (relays ks ≡ def.relaychain ∷ [])
      × (def.parachains ≡ paras ks)
      × (def.others ≡ rest ks)
      × (def.vis ≡ vis)
      × (def.companion_name ≡ companion_name)

  -- A struct parses into a definition exactly if every field is of a kind, in the order they stand just one
  -- of them is the relay chain, and the definition has this relay chain, all the parachains and all the other
  -- fields in their order, and the struct's own name and visibility. The kinds are told by rules: a field whose
  -- attributes are none of `fudge` is no builder; of the others the first such attribute is `fudge::parachain`, whose
  -- tokens are a group that holds the id, or `fudge::relaychain`, and the field has a name.
  pub parse_struct-IsCompanion :
      (vis : y.Visibility) (companion_name : String) (fields : List (Field y))
      (def : CompanionDef y)
      → (parse_struct vis companion_name fields ≡ ok def)
        ↔ IsCompanion vis companion_name fields def
  parse_struct-IsCompanion vis companion_name fields def =
      let (to, from) = parse_struct-HasKinds vis companion_name fields def in
      (
        λ e.
            let (ks, of_kind, rs, ps, os, v, c) = to e in
            (ks, kinds-AreKinds fields ks of_kind, rs, ps, os, v, c),
        λ (ks, are, rs, ps, os, v, c). from (ks, AreKinds-kinds fields ks are, rs, ps, os, v, c),
      )
