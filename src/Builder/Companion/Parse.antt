-- ===== src/Builder/Companion/Parse.antt =====
-- core/src/builder/companion/src/lib.rs and parse: from the item that the attribute stands on to the
-- definition of a companion. Spans, which only place a message in the source, are left out.
use text.Mathlib.Text as Text
use fudge.Prelude.{
  ℕ, suc, ◌==◌, not, Bool, true, false, String, Option, none, some, List, [], ◌∷◌, ◌++◌, Result, ok,
  err, panic, InnerError, recast, length, if◌then◌else◌,
}
pub mod Gathering
pub mod Kinds
pub mod Fields
pub mod Helper
pub mod Named

-- What `syn` and `proc_macro2` give. `parse_group` parses a stream as one delimited group and gives what
-- stands inside.
pub record Syn : Type 1 where
  pub TokenStream : Type 0
  pub is_empty : TokenStream → Bool
  pub parse_group : TokenStream → Result InnerError TokenStream
  pub Ty : Type 0
  pub Visibility : Type 0

module _ (y : Syn) where
  -- `syn::Attribute`: the identifiers of its path, and the tokens behind it
  pub record Attribute : Type 0 where
    pub segments : List String
    pub tokens : y.TokenStream

  -- `syn::Field`
  pub record Field : Type 0 where
    pub attrs : List Attribute
    pub ident : Option String
    pub ty : y.Ty
    pub vis : y.Visibility

  -- `syn::Fields` and `syn::ItemStruct`
  pub data ItemFields : Type 0 where
    named : List Field → ItemFields
    unit unnamed : ItemFields

  pub record ItemStruct : Type 0 where
    pub item_vis : y.Visibility
    pub item_ident : String
    pub fields : ItemFields

  pub record ParachainDef : Type 0 where
    pub name : String
    pub id : y.TokenStream
    pub builder : y.Ty
    pub vis : y.Visibility

  pub record RelaychainDef : Type 0 where
    pub name : String
    pub builder : y.Ty
    pub vis : y.Visibility

  pub data FieldType : Type 0 where
    parachain : ParachainDef → FieldType
    relaychain : RelaychainDef → FieldType
    other : Field → FieldType

  pub record CompanionDef : Type 0 where
    pub vis : y.Visibility
    pub companion_name : String
    pub relaychain : RelaychainDef
    pub parachains : List ParachainDef
    pub others : List Field

  -- The variables of the loop of `parse_struct`.
  pub record Parsed : Type 0 where
    pub parachains : List ParachainDef
    pub others : List Field
    pub relay : Option RelaychainDef

-- A chain of results.
abbrev pub and_then :
    {A B : Type 0} → Result InnerError A → (A → Result InnerError B) → Result InnerError B
and_then (ok a) f = f a
and_then (err e) f = err e
and_then panic f = panic

abbrev pub ok_or : {A : Type 0} → InnerError → Option A → Result InnerError A
ok_or e none = err e
ok_or e (some a) = ok a

abbrev pub first : {A : Type 0} → List A → Option A
first [] = none
first (x ∷ xs) = some x

abbrev pub last : {A : Type 0} → List A → Option A
last [] = none
last (x ∷ []) = some x
last (x ∷ y ∷ ys) = last (y ∷ ys)

abbrev unsupported : InnerError
unsupported = "Only parachain or relaychain attributes supported currently."

abbrev pub named_fudge : Option String → Bool
named_fudge none = false
named_fudge (some segment) = Text.◌==◌ segment "fudge"

module _ {y : Syn} where
  -- `attrs.iter().filter(…).collect()`
  unfoldable pub companion_fields : List (Attribute y) → List (Attribute y)
  companion_fields [] = []
  companion_fields (a ∷ as_) =
      if named_fudge (first a.segments) then a ∷ companion_fields as_ else companion_fields as_

  abbrev pub parachain_field : Field y → y.TokenStream → Result InnerError (FieldType y)
  parachain_field field tokens = and_then (y.parse_group tokens) λ id.
      and_then (ok_or "Parachain field identifier not found." field.ident) λ name.
        ok (parachain (record { name = name; id = id; builder = field.ty; vis = field.vis }))

  abbrev pub relaychain_field : Field y → Result InnerError (FieldType y)
  relaychain_field field =
      and_then (ok_or "Relaychain field identifier not found." field.ident)
        λ name. ok (relaychain (record { name = name; builder = field.ty; vis = field.vis }))

  abbrev pub by_second : Field y → y.TokenStream → String → Result InnerError (FieldType y)
  by_second field tokens second =
      if Text.◌==◌ second "parachain"
      then parachain_field field tokens
      else if Text.◌==◌ second "relaychain"
      then relaychain_field field
      else err unsupported

  -- The loop over the attributes returns in its first round.
  abbrev pub by_attribute : Field y → List (Attribute y) → Result InnerError (FieldType y)
  by_attribute field [] = err unsupported
  by_attribute field (attr ∷ attrs) =
      if not (length attr.segments == 2)
      then err "Expected 2 path segments"
      else and_then (ok_or "Last path segment not found." (last attr.segments))
          (by_second field attr.tokens)

  abbrev pub by_attributes : Field y → List (Attribute y) → Result InnerError (FieldType y)
  by_attributes field [] = ok (other field)
  by_attributes field (attr ∷ attrs) = by_attribute field (attr ∷ attrs)

  unfoldable pub parse_field : Field y → Result InnerError (FieldType y)
  unfolding companion_fields
  parse_field field = by_attributes field (companion_fields field.attrs)

  abbrev pub take_field : FieldType y → Parsed y → Result InnerError (Parsed y)
  take_field (other field) p = ok (record p { others = p.others ++ (field ∷ []) })
  take_field (parachain def) p = ok (record p { parachains = p.parachains ++ (def ∷ []) })
  take_field (relaychain def) p = elim p.relay [
    | none ↦ ok (record p { relay = some def })
    | some _ ↦ err "Only one relaychain field allowed."
  ]

  unfoldable pub parse_fields : List (Field y) → Parsed y → Result InnerError (Parsed y)
  unfolding parse_field
  parse_fields [] p = ok p
  parse_fields (field ∷ fields) p =
      and_then (parse_field field) λ k. and_then (take_field k p) (parse_fields fields)

  abbrev pub no_fields : Parsed y
  no_fields = record { parachains = []; others = []; relay = none }

  -- The end of `parse_struct`, after its loop.
  abbrev pub define : y.Visibility → String → Parsed y → Result InnerError (CompanionDef y)
  define vis companion_name p = and_then (ok_or "Relay chain not found." p.relay) λ relay.
      ok (record {
        vis = vis;
        companion_name = companion_name;
        relaychain = relay;
        parachains = p.parachains;
        others = p.others;
      })

  unfoldable pub parse_struct :
      y.Visibility → String → List (Field y) → Result InnerError (CompanionDef y)
  unfolding parse_fields
  parse_struct vis companion_name fields =
      and_then (parse_fields fields no_fields) (define vis companion_name)

  -- `CompanionDef::parse`, of the item that `syn` has parsed
  unfoldable pub parse_item : ItemStruct y → Result InnerError (CompanionDef y)
  unfolding parse_struct
  parse_item ds = elim ds.fields [
    | named fields ↦ parse_struct ds.item_vis ds.item_ident fields
    | unit ↦ err "Must be a struct with named fields. Not an unit struct."
    | unnamed ↦ err "Must be a struct with named fields. Not an unnamed fields struct."
  ]

  -- `impl_companion_gen`, up to the expansion
  unfoldable pub parse_companion :
      y.TokenStream → Result InnerError (ItemStruct y) → Result InnerError (CompanionDef y)
  unfolding parse_item
  parse_companion attr item =
      if not (y.is_empty attr)
      then err
          "Invalid companion macro call: expected no attributes, e.g. macro call must be just `#[fudge::companion]` or `#[companion]`"
      else and_then item parse_item
