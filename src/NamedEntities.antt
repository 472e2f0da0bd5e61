-- ===== src/NamedEntities.antt =====
-- macros/src/named_entities.rs, `build_map`: the table of named character references. The type of
-- JSON values, the test for an object and the decoder of an entry come from another library. An
-- object is the list of its entries; a map is a list in which the first entry of a key counts, and
-- its order stands for the order of the hash map, which is not specified.
pub mod Prefixes
pub mod Entries
pub mod Built
use html.Prelude.{
  ℕ, zero, suc, ◌+◌, ◌-◌, Bool, true, false, Option, none, some, List, [], ◌∷◌, if◌then◌else◌, ◌==◌,
  Text, text_eq, Checked, ok, panic, ◌>>=◌, expect,
}
use html.Util.Utf8.{byte_len, slice_to, slice_from, char_at}

-- `[u32, ..2]`.
abbrev pub Pair : Type 0
Pair = ℕ × ℕ

abbrev pub Map : Type 0
Map = List (Text × Pair)

-- `HashMap::find`.
unfoldable pub lookup : Map → Text → Option Pair
lookup [] q = none
lookup (e ∷ m) q = let further = lookup m q in if text_eq q e.0 then some e.1 else further

-- `HashMap::insert`.
unfoldable pub insert : Text → Pair → Map → Map
insert k p m = (k, p) ∷ m

-- `HashMap::contains_key`.
unfoldable pub contains_key : Map → Text → Bool
unfolding lookup
contains_key m q = elim (lookup m q) [ none ↦ false | some p ↦ true ]

-- `HashMap::keys`.
unfoldable pub keys : Map → List Text
keys [] = []
keys (e ∷ m) = e.0 ∷ keys m

-- The assertion on the number of code points, and the loop that fills the pair.
unfoldable pub codepoint_pair : List ℕ → Checked Pair
codepoint_pair (c ∷ []) = ok (c, 0)
codepoint_pair (c ∷ (d ∷ [])) = ok (c, d)
codepoint_pair _ = panic

-- The key without the initial '&'.
unfoldable pub entity_name : Text → Checked Text
unfolding char_at slice_from
entity_name k = do c ← char_at k 0; if c == 38 then slice_from k 1 else panic

-- The body of the loop over the prefixes, which inserts one that is missing.
unfoldable pub add_prefix : Text → ℕ → Map → Checked Map
unfolding slice_to contains_key insert
add_prefix k n m = do pfx ← slice_to k n; ok (if contains_key m pfx then m else insert pfx (0, 0) m)

-- The loop over the prefixes, from a length and for as many lengths as a count says.
unfoldable pub add_prefixes : Text → ℕ → ℕ → Map → Checked Map
unfolding add_prefix
add_prefixes k zero n m = ok m
add_prefixes k (suc count) n m = do m' ← add_prefix k n m; add_prefixes k count (n + 1) m'

-- The loop over the keys.
unfoldable pub add_missing : List Text → Map → Checked Map
unfolding add_prefixes byte_len
add_missing [] m = ok m
add_missing (k ∷ ks) m = do m' ← add_prefixes k (byte_len k - 1) 1 m; add_missing ks m'

module _ {Json : Type 0} (decode : Json → Option (List ℕ)) where
  unfoldable pub add_entity : Text × Json → Map → Checked Map
  unfolding codepoint_pair entity_name insert
  add_entity e m = do
    codepoints ← expect (decode e.1)
    pair ← codepoint_pair codepoints
    name ← entity_name e.0
    ok (insert name pair m)

  -- The loop over the entries of the object.
  unfoldable pub add_entities : List (Text × Json) → Map → Checked Map
  unfolding add_entity
  add_entities [] m = ok m
  add_entities (e ∷ es) m = do m' ← add_entity e m; add_entities es m'

  unfoldable pub build_map : (Json → Option (List (Text × Json))) → Json → Checked (Option Map)
  unfolding add_entities insert keys add_missing
  build_map as_object js = elim (as_object js) [
    | none ↦ ok none
    | some es ↦ add_entities es [] >>= λ named.
        add_missing (keys (insert [] (0, 0) named)) (insert [] (0, 0) named) >>= λ m. ok (some m)
  ]
