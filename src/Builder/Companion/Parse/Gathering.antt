-- ===== src/Builder/Companion/Parse/Gathering.antt =====
-- How the parser of a struct gathers its fields.
use fudge.Prelude.{
  Option, none, some, List, [], ◌∷◌, ◌++◌, append_assoc, Result, ok, err, panic, InnerError, String,
  ◌≡◌, ◌↔◌, refl, ap, sym, Option-cases, inl, inr, ◌∙◌,
}
use mathlib.Core.List.{append-nil}
use fudge.Builder.Companion.Parse.{
  Syn, Field, ParachainDef, RelaychainDef, FieldType, parachain, relaychain, other, CompanionDef,
  Parsed, and_then, take_field, no_fields, define, parse_field, parse_fields, parse_struct,
}

module _ {A B : Type 0} where
  pub and_then-ok :
      (r : Result InnerError A) (f : A → Result InnerError B) (b : B)
      → and_then r f ≡ ok b
      → (a : A) × (r ≡ ok a) × (f a ≡ ok b)
  and_then-ok (ok a) f b e = (a, refl, e)
  and_then-ok (err m) f b e = cc
  and_then-ok panic f b e = cc

module _ {y : Syn} where
  -- The kinds of all fields, in order.
  abbrev pub kinds : List (Field y) → Result InnerError (List (FieldType y))
  unfolding parse_field
  kinds [] = ok []
  kinds (f ∷ fs) = and_then (parse_field f) λ k. and_then (kinds fs) λ ks. ok (k ∷ ks)

  abbrev pub relays : List (FieldType y) → List (RelaychainDef y)
  relays [] = []
  relays (parachain def ∷ ks) = relays ks
  relays (relaychain def ∷ ks) = def ∷ relays ks
  relays (other field ∷ ks) = relays ks

  abbrev pub paras : List (FieldType y) → List (ParachainDef y)
  paras [] = []
  paras (parachain def ∷ ks) = def ∷ paras ks
  paras (relaychain def ∷ ks) = paras ks
  paras (other field ∷ ks) = paras ks

  abbrev pub rest : List (FieldType y) → List (Field y)
  rest [] = []
  rest (parachain def ∷ ks) = rest ks
  rest (relaychain def ∷ ks) = rest ks
  rest (other field ∷ ks) = field ∷ rest ks

  abbrev gather : List (FieldType y) → Parsed y → Result InnerError (Parsed y)
  gather [] p = ok p
  gather (k ∷ ks) p = and_then (take_field k p) (gather ks)

  parse_fields-gather :
      (fs : List (Field y)) (p q : Parsed y)
      → parse_fields fs p ≡ ok q
      → (ks : List (FieldType y)) × (kinds fs ≡ ok ks) × (gather ks p ≡ ok q)
  unfolding parse_fields
  parse_fields-gather [] p q e = ([], refl, e)
  parse_fields-gather (f ∷ fs) p q e =
      let (k, of_field, e2) =
        and_then-ok (parse_field f) (λ k. and_then (take_field k p) (parse_fields fs)) q e in
      let (p2, taken, e3) = and_then-ok (take_field k p) (parse_fields fs) q e2 in
      let (ks, of_fields, gathered) = parse_fields-gather fs p2 q e3 in
      (k ∷ ks, rw of_field (rw of_fields refl), rw taken gathered)

  gather-parse_fields :
      (fs : List (Field y)) (ks : List (FieldType y)) (p q : Parsed y)
      → kinds fs ≡ ok ks
      → gather ks p ≡ ok q
      → parse_fields fs p ≡ ok q
  unfolding parse_fields
  gather-parse_fields [] [] p q e g = g
  gather-parse_fields [] (k ∷ ks) p q e g = cc
  gather-parse_fields (f ∷ fs) ks p q e g =
      let (k, of_field, e2) =
        and_then-ok (parse_field f) (λ k. and_then (kinds fs) λ ks. ok (k ∷ ks)) ks e in
      let (ks2, of_fields, e3) = and_then-ok (kinds fs) (λ ks. ok (k ∷ ks)) ks e2 in
      let all_ : ks ≡ k ∷ ks2 = cc in
      let gathered : gather (k ∷ ks2) p ≡ ok q = cc in
      let (p2, taken, g2) = and_then-ok (take_field k p) (gather ks2) q gathered in
      rw of_field (rw taken (gather-parse_fields fs ks2 p2 q of_fields g2))

  abbrev relay_list : Option (RelaychainDef y) → List (RelaychainDef y)
  relay_list none = []
  relay_list (some def) = def ∷ []

  -- What a run of `gather` adds up to.
  abbrev Sums : Parsed y → List (FieldType y) → Parsed y → Type 0
  Sums p ks q =
      (q.parachains ≡ p.parachains ++ paras ks)
      × (q.others ≡ p.others ++ rest ks)
      × (relay_list q.relay ≡ relay_list p.relay ++ relays ks)

  gather-Sums : (ks : List (FieldType y)) (p q : Parsed y) → gather ks p ≡ ok q → Sums p ks q
  gather-Sums [] p q e =
      (cc (append-nil p.parachains), cc (append-nil p.others), cc (append-nil (relay_list p.relay)))
  gather-Sums (other field ∷ ks) p q e =
      let (ps, os, rs) = gather-Sums ks (record p { others = p.others ++ (field ∷ []) }) q e in
      (ps, os ∙ append_assoc p.others (field ∷ []) (rest ks), rs)
  gather-Sums (parachain def ∷ ks) p q e =
      let (ps, os, rs) =
        gather-Sums ks (record p { parachains = p.parachains ++ (def ∷ []) }) q e in
      (ps ∙ append_assoc p.parachains (def ∷ []) (paras ks), os, rs)
  gather-Sums (relaychain def ∷ ks) p q e = elim (Option-cases p.relay) [
    | inl none_ ↦
        let (ps, os, rs) = gather-Sums ks (record p { relay = some def }) q cc in (ps, os, cc)
    | inr (found, some_) ↦ cc
  ]

  relay_list-injective : (a b : Option (RelaychainDef y)) → relay_list a ≡ relay_list b → a ≡ b
  relay_list-injective none none e = refl
  relay_list-injective none (some b) e = cc
  relay_list-injective (some a) none e = cc
  relay_list-injective (some a) (some b) e = cc

  two_relays :
      {G : Type 0} (o : Option (RelaychainDef y)) (a b : RelaychainDef y)
      (ds : List (RelaychainDef y))
      → relay_list o ≡ a ∷ b ∷ ds
      → G
  two_relays none a b ds e = cc
  two_relays (some def) a b ds e = cc

  Sums-gather : (ks : List (FieldType y)) (p q : Parsed y) → Sums p ks q → gather ks p ≡ ok q
  Sums-gather [] p q (ps, os, rs) =
      let relay = relay_list-injective q.relay p.relay (rs ∙ append-nil (relay_list p.relay)) in
      λ i. ok (record {
        parachains = sym (ps ∙ append-nil p.parachains) i;
        others = sym (os ∙ append-nil p.others) i;
        relay = sym relay i;
      })
  Sums-gather (other field ∷ ks) p q (ps, os, rs) =
      Sums-gather ks (record p { others = p.others ++ (field ∷ []) }) q
        (ps, os ∙ sym (append_assoc p.others (field ∷ []) (rest ks)), rs)
  Sums-gather (parachain def ∷ ks) p q (ps, os, rs) =
      Sums-gather ks (record p { parachains = p.parachains ++ (def ∷ []) }) q
        (ps ∙ sym (append_assoc p.parachains (def ∷ []) (paras ks)), os, rs)
  Sums-gather (relaychain def ∷ ks) p q (ps, os, rs) = elim (Option-cases p.relay) [
    | inl none_ ↦ rw none_ (Sums-gather ks (record p { relay = some def }) q (ps, os, cc))
    | inr (found, some_) ↦
        two_relays q.relay found def (relays ks)
          (rs ∙ ap (λ o. relay_list o ++ (def ∷ relays ks)) some_)
  ]

  -- The definition is made of the kinds that are found of the fields.
  abbrev pub HasKinds : y.Visibility → String → List (Field y) → CompanionDef y → Type 0
  HasKinds vis companion_name fields def =
      (ks : List (FieldType y)) × (kinds fields ≡ ok ks)
      × (relays ks ≡ def.relaychain ∷ [])
      × (def.parachains ≡ paras ks)
      × (def.others ≡ rest ks)
      × (def.vis ≡ vis)
      × (def.companion_name ≡ companion_name)

  define-relay :
      (vis : y.Visibility) (companion_name : String) (p : Parsed y) (def : CompanionDef y)
      → define vis companion_name p ≡ ok def
      → (relay_list p.relay ≡ def.relaychain ∷ [])
        × (def.parachains ≡ p.parachains)
        × (def.others ≡ p.others)
        × (def.vis ≡ vis)
        × (def.companion_name ≡ companion_name)
  define-relay vis companion_name p def e = elim (Option-cases p.relay) [
    | inl none_ ↦ cc
    | inr (relay, some_) ↦
        let same : record {
          vis = vis;
          companion_name = companion_name;
          relaychain = relay;
          parachains = p.parachains;
          others = p.others;
        }
            ≡ def =
          cc in
        (
          ap relay_list some_ ∙ ap (λ d. d.relaychain ∷ []) same,
          ap (λ d. d.parachains) (sym same),
          ap (λ d. d.others) (sym same),
          ap (λ d. d.vis) (sym same),
          ap (λ d. d.companion_name) (sym same),
        )
  ]

  parse_struct-kinds :
      (vis : y.Visibility) (companion_name : String) (fields : List (Field y))
      (def : CompanionDef y)
      → parse_struct vis companion_name fields ≡ ok def
      → HasKinds vis companion_name fields def
  unfolding parse_struct
  parse_struct-kinds vis companion_name fields def e =
      let (p, of_fields, defined) =
        and_then-ok (parse_fields fields no_fields) (define vis companion_name) def e in
      let (ks, of_kind, gathered) = parse_fields-gather fields no_fields p of_fields in
      let (ps, os, rs) = gather-Sums ks no_fields p gathered in
      let (relay, paras_, others_, vis_, name_) = define-relay vis companion_name p def defined in
      (ks, of_kind, sym rs ∙ relay, paras_ ∙ ps, others_ ∙ os, vis_, name_)

  kinds-parse_struct :
      (vis : y.Visibility) (companion_name : String) (fields : List (Field y))
      (def : CompanionDef y)
      → HasKinds vis companion_name fields def
      → parse_struct vis companion_name fields ≡ ok def
  unfolding parse_struct
  kinds-parse_struct vis companion_name fields def (ks, of_kind, rs, ps, os, vis_, name_) =
      let p : Parsed y = record {
        parachains = paras ks;
        others = rest ks;
        relay = some def.relaychain;
      } in
      let gathered : gather ks no_fields ≡ ok p = Sums-gather ks no_fields p (refl, refl, sym rs) in
      rw (gather-parse_fields fields ks no_fields p of_kind gathered) (λ i. ok (record {
        vis = sym vis_ i;
        companion_name = sym name_ i;
        relaychain = def.relaychain;
        parachains = sym ps i;
        others = sym os i;
      }))

  -- What the parser gives, by the kinds that it finds.
  pub parse_struct-HasKinds :
      (vis : y.Visibility) (companion_name : String) (fields : List (Field y))
      (def : CompanionDef y)
      → (parse_struct vis companion_name fields ≡ ok def) ↔ HasKinds vis companion_name fields def
  unfolding parse_struct
  parse_struct-HasKinds vis companion_name fields def = (
    parse_struct-kinds vis companion_name fields def,
    kinds-parse_struct vis companion_name fields def,
  )
