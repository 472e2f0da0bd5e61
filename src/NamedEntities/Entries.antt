-- ===== src/NamedEntities/Entries.antt =====
-- macros/src/named_entities.rs: the loop of build_map over the entries of the file.
use html.Prelude.{
  ℕ, ◌≡◌, refl, sym, ◌∙◌, ap, Bool, true, false, Option, none, some, List, [], ◌∷◌, if◌then◌else◌,
  Text, text_eq, All, ok, expect, bind-ok, length, get_elem?, ◌≤◌, arith,
}
use mathlib.Core.Option
use html.Util.Utf8.{slice_from, char_at}
use html.NamedEntities.{
  Pair, Map, lookup, insert, keys, codepoint_pair, entity_name, add_entity, add_entities,
}
use html.NamedEntities.Prefixes.{IsAscii}

-- The first of two results.
abbrev pub or_else : Option Pair → Option Pair → Option Pair
or_else (some p) other = some p
or_else none other = other

if-or_else :
    (b : Bool) (p : Pair) (other : Option Pair)
    → (if b then some p else other) ≡ or_else (if b then some p else none) other
if-or_else true p other = refl
if-or_else false p other = refl

or_else_assoc : (x y z : Option Pair) → or_else x (or_else y z) ≡ or_else (or_else x y) z
or_else_assoc (some p) y z = refl
or_else_assoc none y z = refl

-- The number at a place, or 0 behind the end.
abbrev at : List ℕ → ℕ → ℕ
at cs i = elim (get_elem? cs i) [ none ↦ 0 | some c ↦ c ]

-- The pair that code points stand for: the first two, with zeros for missing ones.
abbrev pair_of : List ℕ → Pair
pair_of cs = (at cs 0, at cs 1)

codepoint_pair-eq :
    (cs : List ℕ) → 1 ≤ length cs → length cs ≤ 2 → codepoint_pair cs ≡ ok (pair_of cs)
unfolding codepoint_pair
codepoint_pair-eq [] low high = absurd (omega arith)
codepoint_pair-eq (c ∷ []) low high = refl
codepoint_pair-eq (c ∷ (d ∷ [])) low high = refl
codepoint_pair-eq (c ∷ (d ∷ (e ∷ cs))) low high = absurd (omega arith)

module _ {Json : Type 0} (decode : Json → Option (List ℕ)) where
  -- An entry of the file: an ASCII name behind an '&', for one or two code points.
  pub record IsEntry (e : Text × Json) : Type 0 where
    pub name : Text
    pub named : e.0 ≡ (38 ∷ name)
    pub ascii : IsAscii name
    pub code_points : List ℕ
    pub decoded : decode e.1 ≡ some code_points
    pub some_points : 1 ≤ length code_points
    pub few_points : length code_points ≤ 2

  -- What an entry says of a name.
  abbrev entry_value : Text × Json → Text → Option Pair
  entry_value e q = if text_eq (38 ∷ q) e.0 then Option.map pair_of (decode e.1) else none

  -- What the entries say of a name: the last entry with that name counts.
  abbrev pub value_of : List (Text × Json) → Text → Option Pair
  value_of [] q = none
  value_of (e ∷ es) q = or_else (value_of es q) (entry_value e q)

  entity_name-eq : (name : Text) → entity_name (38 ∷ name) ≡ ok name
  unfolding entity_name char_at slice_from
  entity_name-eq [] = refl
  entity_name-eq (c ∷ name) = refl

  add_entity-ok :
      (e : Text × Json) (m : Map) (is : IsEntry e)
      → add_entity decode e m ≡ ok (insert is.name (pair_of is.code_points) m)
  unfolding add_entity
  add_entity-ok e m is = bind-ok _ (ap expect is.decoded) (
      bind-ok _ (codepoint_pair-eq is.code_points is.some_points is.few_points)
        (bind-ok _ (ap entity_name is.named ∙ entity_name-eq is.name) refl))

  entry_value-eq :
      (e : Text × Json) (is : IsEntry e) (q : Text)
      → entry_value e q ≡ (if text_eq q is.name then some (pair_of is.code_points) else none)
  entry_value-eq e is q =
      ap (λ v. if text_eq (38 ∷ q) e.0 then Option.map pair_of v else none) is.decoded
      ∙ ap (λ k. if text_eq (38 ∷ q) k then some (pair_of is.code_points) else none) is.named

  lookup-insert :
      (e : Text × Json) (m : Map) (is : IsEntry e) (q : Text)
      → lookup (insert is.name (pair_of is.code_points) m) q
        ≡ or_else (entry_value e q) (lookup m q)
  unfolding lookup insert
  lookup-insert e m is q =
      if-or_else (text_eq q is.name) (pair_of is.code_points) (lookup m q)
      ∙ ap (λ v. or_else v (lookup m q)) (sym (entry_value-eq e is q))

  -- The loop over the entries returns, and adds what they say.
  pub add_entities-ok :
      (es : List (Text × Json)) (m : Map)
      → All IsEntry es
      → All IsAscii (keys m)
      → (m' : Map) × (add_entities decode es m ≡ ok m')
        × All IsAscii (keys m')
        × ((q : Text) → lookup m' q ≡ or_else (value_of es q) (lookup m q))
  unfolding add_entities keys insert
  add_entities-ok [] m h ascii = (m, refl, ascii, λ q. refl)
  add_entities-ok (e ∷ es) m h ascii =
      let is : IsEntry e = h.0 in
      let all =
        add_entities-ok es (insert is.name (pair_of is.code_points) m) h.1 (is.ascii, ascii) in
      (
        all.0,
        bind-ok _ (add_entity-ok e m is) all.1,
        all.2,
        λ q.
            all.3 q
            ∙ ap (or_else (value_of es q)) (lookup-insert e m is q)
            ∙ or_else_assoc (value_of es q) (entry_value e q) (lookup m q),
      )
