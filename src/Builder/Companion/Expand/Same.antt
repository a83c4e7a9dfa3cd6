-- ===== src/Builder/Companion/Expand/Same.antt =====
-- The struct that the macro writes against the one that it stands on.
use mathlib.Core.List.{Perm, perm_middle}
use mathlib.Core.List.Perm
use mathlib.Core.Path.{subst}
use fudge.Prelude.{
  Bool-cases, inl, inr, some, List, [], ◌∷◌, ◌++◌, map, Option, Option-cases, Result, ok,
  InnerError, String, ◌≡◌, ◌⊎◌, refl, ap, sym, ◌∙◌, arith,
}
use fudge.Builder.Companion.Parse.{
  Syn, Field, ItemFields, named, unit, unnamed, ItemStruct, FieldType, parachain, relaychain, other,
  ParachainDef, CompanionDef, and_then, parse_field, parse_item, parse_struct, parse_companion,
}
use fudge.Builder.Companion.Parse.Gathering.{
  and_then-ok, kinds, relays, paras, rest, HasKinds, parse_struct-HasKinds,
}
use fudge.Builder.Companion.Parse.Named.{parse_field_named}
use fudge.Builder.Companion.Parse.Helper.{
  StructField, parachain_as_field, relaychain_as_field, as_field, kind_as_field,
}
use fudge.Builder.Companion.Expand.{
  FoundCrate, Expansion, names_of, zip_fields, struct_fields, find_crates, assemble, expand,
  impl_companion_gen,
}

map-append_some :
    {A B C : Type 0} (f : B → C) (g : A → B) (xs : List A) (ys : List B)
    → map f (map g xs ++ ys) ≡ map (λ a. f (g a)) xs ++ map f ys
map-append_some f g [] ys = refl
map-append_some f g (x ∷ xs) ys = ap (λ l. f (g x) ∷ l) (map-append_some f g xs ys)

module _ {y : Syn} where
  kinds_as_fields :
      (fs : List (Field y)) (ks : List (FieldType y))
      → kinds fs ≡ ok ks
      → map kind_as_field ks ≡ map as_field fs
  unfolding parse_field
  kinds_as_fields [] [] e = refl
  kinds_as_fields [] (k ∷ ks) e = cc
  kinds_as_fields (f ∷ fs) ks e =
      let (k, of_field, e₁) =
        and_then-ok (parse_field f) (λ k. and_then (kinds fs) λ ks. ok (k ∷ ks)) ks e in
      let (ks', of_fields, e₂) = and_then-ok (kinds fs) (λ ks. ok (k ∷ ks)) ks e₁ in
      let all_ : k ∷ ks' ≡ ks = cc in
      subst (λ l. map kind_as_field l ≡ map as_field (f ∷ fs)) all_
        (cc (parse_field_named f k of_field, kinds_as_fields fs ks' of_fields))

  -- The relay chains, the parachains and the rest together are all fields.
  sorted_out : List (FieldType y) → List (Option (StructField y))
  sorted_out ks =
      map (λ d. some (relaychain_as_field d)) (relays ks)
      ++ (map (λ d. some (parachain_as_field d)) (paras ks) ++ map as_field (rest ks))

  sorted_out-Perm : (ks : List (FieldType y)) → Perm (sorted_out ks) (map kind_as_field ks)
  unfolding sorted_out
  sorted_out-Perm [] = Perm.refl []
  sorted_out-Perm (relaychain d ∷ ks) = Perm.cons _ (sorted_out-Perm ks)
  sorted_out-Perm (parachain d ∷ ks) =
      Perm.trans (perm_middle (map (λ d. some (relaychain_as_field d)) (relays ks)) _)
        (Perm.cons _ (sorted_out-Perm ks))
  sorted_out-Perm (other f ∷ ks) =
      let rs : List (Option (StructField y)) =
        map (λ d. some (relaychain_as_field d)) (relays ks) in
      let ps : List (Option (StructField y)) = map (λ d. some (parachain_as_field d)) (paras ks) in
      Perm.trans (Perm.append_left rs (perm_middle ps (map as_field (rest ks)))) (
        Perm.trans (perm_middle rs (ps ++ map as_field (rest ks)))
          (Perm.cons _ (sorted_out-Perm ks)))

  -- The three lists of the other fields, put together again.
  zip_fields-map :
      (fs : List (Field y)) (names : List String)
      → names_of fs ≡ ok names
      → map some (zip_fields (map (λ f. f.vis) fs) names (map (λ f. f.ty) fs)) ≡ map as_field fs
  unfolding names_of
  zip_fields-map [] names e = refl
  zip_fields-map (f ∷ fs) names e = elim (Option-cases f.ident) [
    | inl q ↦ absurd (ground (arith, q, e))
    | inr (name, q) ↦
        let (ns, of_fields, e₁) =
          and_then-ok (names_of fs) (λ names. ok (name ∷ names)) names (ground (arith, q, e)) in
        let all_ : name ∷ ns ≡ names = cc in
        subst
          (λ l.
            map some (zip_fields (map (λ f. f.vis) (f ∷ fs)) l (map (λ f. f.ty) (f ∷ fs)))
            ≡ map as_field (f ∷ fs))
          all_
          (rw (q) (
            ap (λ l. some (record { vis = f.vis; name = name; ty = f.ty }) ∷ l)
              (zip_fields-map fs ns of_fields)))
  ]

  ItemFields-cases :
      (F : ItemFields y)
      → ((fields : List (Field y)) × (F ≡ named fields)) ⊎ ((F ≡ unit) ⊎ (F ≡ unnamed))
  ItemFields-cases (named fields) = inl (fields, refl)
  ItemFields-cases unit = inr (inl refl)
  ItemFields-cases unnamed = inr (inr refl)

  -- A definition is that of a struct with named fields.
  pub parse_companion-struct :
      (attr : y.TokenStream) (ds : ItemStruct y) (def : CompanionDef y)
      → parse_companion attr (ok ds) ≡ ok def
      → (fields : List (Field y)) × (ds.fields ≡ named fields)
        × (parse_struct ds.item_vis ds.item_ident fields ≡ ok def)
  unfolding parse_companion parse_item
  parse_companion-struct attr ds def e = elim (Bool-cases (y.is_empty attr)) [
    | inr q ↦ absurd (ground (arith, q, e))
    | inl q ↦ elim (ItemFields-cases ds.fields) [
      | inr (inl q₁) ↦ absurd (ground (arith, q, q₁, e))
      | inr (inr q₁) ↦ absurd (ground (arith, q, q₁, e))
      | inl (fields, q₁) ↦ (fields, q₁, ground (arith, q, q₁, e))
    ]
  ]

  -- The fields of a definition are those that its struct was parsed from.
  HasKinds-Perm :
      (vis : y.Visibility) (name : String) (fields : List (Field y)) (def : CompanionDef y)
      → HasKinds vis name fields def
      → Perm
          (some (relaychain_as_field def.relaychain)
            ∷ (map (λ d. some (parachain_as_field d)) def.parachains ++ map as_field def.others))
          (map as_field fields)
  unfolding sorted_out
  HasKinds-Perm vis name fields def (ks, of_kind, rs, ps, os, _, _) =
      let P = λ (l : List (ParachainDef y)) (o : List (Field y)).
        some (relaychain_as_field def.relaychain)
        ∷ (map (λ d. some (parachain_as_field d)) l ++ map as_field o) in
      let sorted : Perm (P (paras ks) (rest ks)) (map kind_as_field ks) =
        subst
          (λ l.
            Perm
              (map (λ d. some (relaychain_as_field d)) l
                ++ (map (λ d. some (parachain_as_field d)) (paras ks) ++ map as_field (rest ks)))
              (map kind_as_field ks))
          rs (sorted_out-Perm ks) in
      let given : Perm (P def.parachains def.others) (map kind_as_field ks) =
        subst (λ l. Perm (P l def.others) (map kind_as_field ks)) (sym ps)
          (subst (λ o. Perm (P (paras ks) o) (map kind_as_field ks)) (sym os) sorted) in
      subst (λ l. Perm (P def.parachains def.others) l) (kinds_as_fields fields ks of_kind) given

  expand-fields :
      (crate_name : String → Result InnerError FoundCrate) (def : CompanionDef y) (x : Expansion y)
      → expand crate_name def ≡ ok x
      → (x.name ≡ def.companion_name)
        × (x.vis ≡ def.vis)
        × (map some (struct_fields x)
            ≡ some (relaychain_as_field def.relaychain)
              ∷ (map (λ d. some (parachain_as_field d)) def.parachains ++ map as_field def.others))
  unfolding expand struct_fields
  expand-fields crate_name def x e =
      let (crates, found, e₁) =
        and_then-ok (find_crates crate_name)
          (λ crates. and_then (names_of def.others) λ names. ok (assemble def crates names)) x e in
      let (names, of_others, e₂) =
        and_then-ok (names_of def.others) (λ names. ok (assemble def crates names)) x e₁ in
      let made : assemble def crates names ≡ x = cc in
      subst
        (λ (z : Expansion y).
          (z.name ≡ def.companion_name)
          × (z.vis ≡ def.vis)
          × (map some (struct_fields z)
              ≡ some (relaychain_as_field def.relaychain)
                ∷ (map (λ d. some (parachain_as_field d)) def.parachains
                    ++ map as_field def.others)))
        made
        (
          refl,
          refl,
          ap (λ l. some (relaychain_as_field def.relaychain) ∷ l)
              (map-append_some some parachain_as_field def.parachains _
                ∙ ap (λ l. map (λ d. some (parachain_as_field d)) def.parachains ++ l)
                    (zip_fields-map def.others names of_others)),
        )

  -- Where the macro succeeds on a struct, the struct has named fields, and the one that the macro writes has
  -- its name, its visibility and just its fields, each with its own name, type and visibility, if in another
  -- order; each of them has a name.
  pub impl_companion_gen-Perm :
      (crate_name : String → Result InnerError FoundCrate) (attr : y.TokenStream)
      (ds : ItemStruct y) (x : Expansion y)
      → impl_companion_gen crate_name attr (ok ds) ≡ ok x
      → (fields : List (Field y)) × (ds.fields ≡ named fields)
        × (x.name ≡ ds.item_ident)
        × (x.vis ≡ ds.item_vis)
        × Perm (map some (struct_fields x)) (map as_field fields)
  unfolding impl_companion_gen
  impl_companion_gen-Perm crate_name attr ds x e =
      let (def, parsed, e₁) = and_then-ok (parse_companion attr (ok ds)) (expand crate_name) x e in
      let (fields, has, of_struct) = parse_companion-struct attr ds def parsed in
      let c = (parse_struct-HasKinds ds.item_vis ds.item_ident fields def).0 of_struct in
      let (name_, vis_, fields_) = expand-fields crate_name def x e₁ in
      (
        fields,
        has,
        name_ ∙ c.6,
        vis_ ∙ c.5,
        subst (λ l. Perm l (map as_field fields)) (sym fields_)
            (HasKinds-Perm ds.item_vis ds.item_ident fields def c),
      )
