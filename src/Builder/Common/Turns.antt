-- ===== src/Builder/Common/Turns.antt =====
-- The two places that the builders of core/src/builder/{stand_alone,relay_chain}.rs keep blocks in, `next` and
-- `imports`, and how a call moves a block on.
use mathlib.Core.List.{Sublist, sublist-append_left, append-nil}
use mathlib.Core.List.Sublist
use mathlib.Core.Path.{subst}
use fudge.Prelude.{
  Option, none, some, List, [], ◌∷◌, ◌++◌, append_assoc, ◌≡◌, refl, ap, ◌∙◌, Result, ok, err, panic,
  Action, continue,
}

module _ {B : Type 0} where
  abbrev pub to_list : Option B → List B
  to_list none = []
  to_list (some b) = b ∷ []

  -- The blocks imported, oldest first, and the one that waits.
  abbrev pub in_order : List B → Option B → List B
  in_order imports next = imports ++ to_list next

  -- How a call moves the blocks on, and what it built.
  pub data Turn (i : List B) (x : Option B) (i' : List B) (x' : Option B) (bs : List B)
      : Type 0 where
    stays : i' ≡ i → x' ≡ x → bs ≡ [] → Turn i x i' x' bs
    built : (b : B) → x ≡ none → i' ≡ i → x' ≡ some b → bs ≡ b ∷ [] → Turn i x i' x' bs
    imported : (b : B) → x ≡ some b → i' ≡ i ++ (b ∷ []) → x' ≡ none → bs ≡ [] → Turn i x i' x' bs
    lost : i' ≡ i → x' ≡ none → bs ≡ [] → Turn i x i' x' bs

  -- Blocks that were among those of a list, in its order, stay so when the list gains what is built.
  pub Turn-in_order :
      (i : List B) (x : Option B) (i' : List B) (x' : Option B) (bs log : List B)
      → Turn i x i' x' bs
      → Sublist (in_order i x) log
      → Sublist (in_order i' x') (log ++ bs)
  Turn-in_order i x i' x' bs log (stays e e' none_) h = rw (e, e', none_, append-nil log) h
  Turn-in_order i x i' x' bs log (built b waits e e' one) h =
      rw (e, e', one)
        (Sublist.append
          (subst (λ l. Sublist l log) (append-nil i)
            (subst (λ o. Sublist (i ++ to_list o) log) waits h))
          (Sublist.refl (b ∷ [])))
  Turn-in_order i x i' x' bs log (imported b waits e e' none_) h =
      rw (e, e', none_, append-nil log, append-nil (i ++ (b ∷ [])))
        (subst (λ o. Sublist (i ++ to_list o) log) waits h)
  Turn-in_order i x i' x' bs log (lost e e' none_) h =
      rw (e, e', none_, append-nil log, append-nil i)
        (Sublist.trans (sublist-append_left i (to_list x)) h)

-- A state with the two places.
module _ {S B : Type 0} (imports : S → List B) (next : S → Option B) where
  -- What a call that builds and succeeds leaves to be imported.
  abbrev pub left : {E A : Type 0} → Result E A × S → List B
  left (ok _, s) = to_list (next s)
  left (err _, s) = []
  left (panic, s) = []

  abbrev pub Turns : S → S → List B → Type 0
  Turns s u bs = Turn (imports s) (next s) (imports u) (next u) bs

  -- The end of a call that builds: the block that was proposed waits.
  pub built_turn :
      {E A : Type 0} (keep : B → S → S) (value : B → A) (s : S) (m : Result E B × S)
      → ((b : B) (u : S) → (imports (keep b u) ≡ imports u) × (next (keep b u) ≡ some b))
      → next s ≡ none
      → imports m.1 ≡ imports s
      → next m.1 ≡ next s
      → Turns s
          (continue (λ b u. (ok (value b), keep b u)) m).1
          (left (continue (λ b u. (ok (value b), keep b u)) m))
  built_turn keep value s (ok b, u) kept open_ e e' =
      built b open_ ((kept b u).0 ∙ e) (kept b u).1 (ap to_list (kept b u).1)
  built_turn keep value s (err _, u) kept open_ e e' = stays e e' refl
  built_turn keep value s (panic, u) kept open_ e e' = stays e e' refl

  -- The end of a call that imports: the block that was taken is the last of the imports, whatever follows.
  pub imported_turn :
      {E : Type 0} (keep : Unit {0} → Action S E (Unit {0})) (s : S) (b : B)
      (m : Result E (Unit {0}) × S)
      → ((u : S) → (imports (keep tt u).1 ≡ imports u ++ (b ∷ [])) × (next (keep tt u).1 ≡ next u))
      → next s ≡ some b
      → imports m.1 ≡ imports s
      → next m.1 ≡ none
      → Turns s (continue keep m).1 []
  imported_turn keep s b (ok _, u) kept waits e e' =
      imported b waits ((kept u).0 ∙ ap (λ l. l ++ (b ∷ [])) e) ((kept u).1 ∙ e') refl
  imported_turn keep s b (err _, u) kept waits e e' = lost e e' refl
  imported_turn keep s b (panic, u) kept waits e e' = lost e e' refl

-- Sequences of calls on a state.
module _ {ν} {S : Type 0} {C : Type ν} (apply : C → S → S) where
  abbrev pub run : List C → S → S
  run [] s = s
  run (c ∷ cs) s = run cs (apply c s)

  -- The blocks built in a sequence of calls, oldest first.
  abbrev pub built_in : {B : Type 0} → (C → S → List B) → List C → S → List B
  built_in built_by [] s = []
  built_in built_by (c ∷ cs) s = built_by c s ++ built_in built_by cs (apply c s)

  -- What is kept by each call.
  pub run_keeps {κ} :
      (P : S → Type κ)
      → ((c : C) (s : S) → P s → P (apply c s))
      → (cs : List C) (s : S) → P s
      → P (run cs s)
  run_keeps P keeps [] s p = p
  run_keeps P keeps (c ∷ cs) s p = run_keeps P keeps cs (apply c s) (keeps c s p)

  -- The order of the blocks, where each call moves them on.
  pub run_in_order :
      {B : Type 0} (imports : S → List B) (next : S → Option B) (built_by : C → S → List B)
      → ((c : C) (s : S)
          → Turn (imports s) (next s) (imports (apply c s)) (next (apply c s)) (built_by c s))
      → (cs : List C) (s : S) (log : List B) → Sublist (in_order (imports s) (next s)) log
      → Sublist (in_order (imports (run cs s)) (next (run cs s))) (log ++ built_in built_by cs s)
  run_in_order imports next built_by turn [] s log h = rw (append-nil log) h
  run_in_order imports next built_by turn (c ∷ cs) s log h =
      rw (← append_assoc log (built_by c s) (built_in built_by cs (apply c s))) (
        run_in_order imports next built_by turn cs (apply c s) (log ++ built_by c s)
          (Turn-in_order _ _ _ _ (built_by c s) log (turn c s) h))
