-- ===== src/Tests/TableWitnesses.antt =====
-- The table of named references at a small file.
use html.Prelude.{
  ℕ, ◌≡◌, refl, none, some, Option, List, [], ◌∷◌, Text, codes, Checked, ok, ◌>>=◌, arith,
}
use html.Util.Utf8.{byte_len, slice_to, slice_from, char_at}
use html.NamedEntities.{
  Map, lookup, insert, contains_key, keys, codepoint_pair, entity_name, add_prefix, add_prefixes,
  add_missing, add_entity, add_entities, build_map,
}
use html.NamedEntities.Built.{IsTable, build_map-IsTable}

-- A file with two entries, the value of one of which is a pair.
data Sample : Type 0 where
  file lt nvlt : Sample

abbrev entries : List (Text × Sample)
entries = (codes "&lt", lt) ∷ (codes "&nvlt;", nvlt) ∷ []

abbrev as_object : Sample → Option (List (Text × Sample))
as_object file = some entries
as_object _ = none

abbrev decode : Sample → Option (List ℕ)
decode lt = some (60 ∷ [])
decode nvlt = some (60 ∷ 8402 ∷ [])
decode file = none

build_map-IsTable_example :
    (m : Map) × (build_map decode as_object file ≡ ok (some m)) × IsTable decode entries m
build_map-IsTable_example = build_map-IsTable decode as_object file entries refl (
  record {
    name = codes "lt";
    named = refl;
    ascii = ground arith;
    code_points = 60 ∷ [];
    decoded = refl;
    some_points = omega arith;
    few_points = omega arith;
  },
  (
    record {
      name = codes "nvlt;";
      named = refl;
      ascii = ground arith;
      code_points = 60 ∷ 8402 ∷ [];
      decoded = refl;
      some_points = omega arith;
      few_points = omega arith;
    },
    tt,
  ),
)

-- What a table says of a name.
abbrev ask : Text → Option Map → Checked (Option (ℕ × ℕ))
ask q none = ok none
ask q (some m) = ok (lookup m q)

sample_pair : (build_map decode as_object file >>= ask (codes "nvlt;")) ≡ ok (some (60, 8402))
unfolding build_map add_entities add_entity codepoint_pair entity_name char_at slice_from insert
    keys add_missing add_prefixes add_prefix slice_to contains_key lookup byte_len
sample_pair = refl

sample_prefix : (build_map decode as_object file >>= ask (codes "nv")) ≡ ok (some (0, 0))
unfolding build_map add_entities add_entity codepoint_pair entity_name char_at slice_from insert
    keys add_missing add_prefixes add_prefix slice_to contains_key lookup byte_len
sample_prefix = refl
