-- ===== src/Tokenizer/Safety/Feeding.antt =====
-- `feed`: the string goes behind the input.
use html.Prelude.{◌≡◌, Bool, false, ◌&&◌, not, [], ◌∷◌, ◌++◌, Text, ◌==◌, if◌then◌else◌}
use html.BufferQueue.View.{chars}
use html.Tokenizer.Interface.{Externals}
use html.Tokenizer.Machine.{Tokenizer}
use html.Tokenizer.Safety.Tokens.{Inv}

-- The string without the byte order mark that is to be discarded.
abbrev pub without_bom : Bool → Text → Text
without_bom discard [] = []
without_bom discard (c ∷ s) = if discard && c == 0xFEFF then s else c ∷ s

-- Whether the string starts with a byte order mark.
abbrev pub has_bom : Text → Bool
has_bom [] = false
has_bom (c ∷ s) = c == 0xFEFF

-- The fed string is behind what was there before.
pub record Fed (x : Externals) (P : x.Sink → Type 0) (t : Tokenizer x) (s : Text) (u : Tokenizer x)
    : Type 0 where
  pub inv : Inv x P u
  pub input : chars u.input_buffers ≡ chars t.input_buffers ++ without_bom t.discard_bom s
  pub flag : u.discard_bom ≡ (t.discard_bom && not (has_bom s))
  pub same_state : u.state ≡ t.state
  pub same_ref : u.char_ref_tokenizer ≡ t.char_ref_tokenizer
