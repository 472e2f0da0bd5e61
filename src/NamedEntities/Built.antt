-- ===== src/NamedEntities/Built.antt =====
-- macros/src/named_entities.rs: which names the table of build_map has, and what it gives for them.
use html.Prelude.{
  ℕ, ◌≡◌, ◌≢◌, refl, sym, ◌∙◌, subst, ◌⊎◌, inl, inr, Option, none, some, List, [], ◌∷◌, ◌++◌, Text,
  text_eq, All, ok, bind-ok, arith, Bool-cases, append-nil, append_assoc,
}
use html.NamedEntities.{Pair, Map, lookup, insert, keys, build_map}
use html.NamedEntities.Prefixes.{
  IsAscii, Has, Has-keys, Grown, Has-Grown, CoversAll, text_eq_refl, add_missing-ok,
}
use html.NamedEntities.Entries.{IsEntry, value_of, or_else, add_entities-ok}

or_else-none : (x : Option Pair) → or_else x none ≡ x
or_else-none none = refl
or_else-none (some p) = refl

Has-cons : (e : Text × Pair) (m : Map) (q : Text) → Has m q → Has (e ∷ m) q
unfolding lookup
Has-cons e m q h = elim (Bool-cases (text_eq q e.0)) [
  | inl b ↦ (e.1, rw b refl)
  | inr b ↦ (h.0, rw b h.1)
]

-- The keys of a part of a map.
keys-Has :
    (base m : Map)
    → ((q : Text) → Has m q → Has base q)
    → All IsAscii (keys m)
    → All (λ k. Has base k × IsAscii k) (keys m)
unfolding keys lookup
keys-Has base [] within ascii = tt
keys-Has base (e ∷ m) within ascii = (
  (within e.0 (e.1, rw (text_eq_refl e.0) refl), ascii.0),
  keys-Has base m (λ q h. within q (Has-cons e m q h)) ascii.1,
)

no_value : {p : Pair} → none ≢ some p
no_value e = ground (arith, e)

some_injective : {p q : Pair} → some p ≡ some q → p ≡ q
some_injective e = cc

append-empty : (p t : Text) → (p ++ t) ≡ [] → p ≡ []
append-empty [] t e = refl
append-empty (c ∷ p) t e = absurd (ground (arith, e))

module _ {Json : Type 0} (decode : Json → Option (List ℕ)) where
  -- What the table has to be, for the entries of a file.
  pub record IsTable (es : List (Text × Json)) (m : Map) : Type 0 where
    pub given : (q : Text) (p : Pair) → q ≢ [] → value_of decode es q ≡ some p → lookup m q ≡ some p
    pub only :
        (q : Text) (p : Pair)
        → lookup m q ≡ some p
        → (value_of decode es q ≡ some p)
          ⊎ ((p ≡ (0, 0))
              × ((q ≡ []) ⊎ ((t : Text) × (v : Pair) × (value_of decode es (q ++ t) ≡ some v))))
    pub closed : (p t : Text) → Has m (p ++ t) → Has m p

  -- The table before the prefixes, as a map `named` of the entries and the empty name.
  module _ (es : List (Text × Json)) (named : Map)
      (says : (q : Text) → lookup named q ≡ or_else (value_of decode es q) none) where
    abbrev base : Map
    base = ([], (0, 0)) ∷ named

    base-some :
        (q : Text) (p : Pair) → q ≢ [] → value_of decode es q ≡ some p → lookup base q ≡ some p
    unfolding lookup
    base-some [] p ne e = absurd (ne refl)
    base-some (c ∷ q) p ne e = says (c ∷ q) ∙ or_else-none (value_of decode es (c ∷ q)) ∙ e

    base-cases :
        (q : Text) (p : Pair)
        → lookup base q ≡ some p
        → ((q ≡ []) × (p ≡ (0, 0))) ⊎ (value_of decode es q ≡ some p)
    unfolding lookup
    base-cases [] p e = inl (refl, cc)
    base-cases (c ∷ q) p e =
        inr (sym (says (c ∷ q) ∙ or_else-none (value_of decode es (c ∷ q))) ∙ e)

    base-empty : lookup base [] ≡ some (0, 0)
    unfolding lookup
    base-empty = refl

    closed-part :
        (m : Map)
        → Grown base base m
        → CoversAll base (keys base) m
        → (p u : Text) → Has base (p ++ u)
        → Has m p
    closed-part m grown covers p [] h = Has-Grown _ _ m p grown (subst (Has base) (append-nil p) h)
    closed-part m grown covers [] (c ∷ u) h = Has-Grown _ _ m [] grown ((0, 0), base-empty)
    closed-part m grown covers (d ∷ p) (c ∷ u) h =
        covers (d ∷ p ++ c ∷ u) (d ∷ p) (c ∷ u) (Has-keys _ _ h) refl (λ e. ground (arith, e))
          (λ e. ground (arith, e))

    IsTable-Grown : (m : Map) → Grown base base m → CoversAll base (keys base) m → IsTable es m
    IsTable-Grown m grown covers = record {
      given = λ q p ne e. elim (grown q) [
        | inl f ↦ f ∙ base-some q p ne e
        | inr f ↦ absurd (no_value (sym f.0 ∙ base-some q p ne e))
      ];
      only = λ q p e. elim (grown q) [
        | inl f ↦ elim (base-cases q p (sym f ∙ e)) [ inl g ↦ inr (g.1, inl g.0) | inr g ↦ inl g ]
        | inr f ↦ inr (
          some_injective (sym e ∙ f.1),
          elim (base-cases (q ++ f.2.0) f.2.1.0 f.2.1.1) [
            | inl g ↦ inl (append-empty q f.2.0 g.0)
            | inr g ↦ inr (f.2.0, f.2.1.0, g)
          ],
        )
      ];
      closed = λ p t h. elim (grown (p ++ t)) [
        | inl f ↦ closed-part m grown covers p t (h.0, sym f ∙ h.1)
        | inr f ↦
            closed-part m grown covers p (t ++ f.2.0)
              (subst (Has base) (append_assoc p t f.2.0) f.2.1)
      ];
    }

  -- For a JSON object whose keys are ASCII names behind an ampersand and whose values decode to
  -- one or two code points, build_map returns a table without a panic. A name of an entry that is
  -- not empty has the code points of the last entry with that name in their order, with a zero
  -- for a missing second one. Every other name in the table has a pair of zeros, and is empty or
  -- the start of the name of an entry. Every start of a name in the table is in the table.
  pub build_map-IsTable :
      (as_object : Json → Option (List (Text × Json))) (js : Json) (es : List (Text × Json))
      → as_object js ≡ some es
      → All (IsEntry decode) es
      → (m : Map) × (build_map decode as_object js ≡ ok (some m)) × IsTable es m
  unfolding build_map insert keys
  build_map-IsTable as_object js es e entries =
      let named = add_entities-ok decode es [] entries tt in
      let base : Map = ([], (0, 0)) ∷ named.0 in
      let all =
        add_missing-ok base (keys base) base (keys-Has base base (λ q h. h) (tt, named.2)) in
      (
        all.0,
        rw (e, build_map) (bind-ok _ named.1 (bind-ok _ all.1 refl)),
        IsTable-Grown es named.0 named.3 all.0 all.2 all.3,
      )
