-- ===== src/Tests/Inputs.antt =====
-- Concrete queues and tokenizers.
use html.Prelude.{refl, List, [], ◌∷◌, Text, codes, All, All-append}
use html.Util.Utf8.{SplitAt, SplitAt-start, byte_len}
use html.BufferQueue.{BufferQueue, push_back}
use html.BufferQueue.View.{Holds, push_back-Holds}
use html.Tokenizer.Interface.{Token}
use html.Tokenizer.Machine
use html.Tokenizer.Machine.{Tokenizer}
use html.Tokenizer.Safety.Tokens
use html.Tokenizer.Safety.Tokens.{IsGood, Accepts, Inv}
use html.Tests.Recorder.{recorder, default_opts}

abbrev pub empty_queue : BufferQueue
empty_queue = record { buffers = [] }

pub empty-Holds : Holds empty_queue []
empty-Holds = record { valid = tt; holds = refl }

-- A buffer of which one character has been read, and a second buffer.
abbrev pub two_buffers : BufferQueue
two_buffers = push_back (push_back empty_queue (codes "éPub") 2) (codes "lic<p") 0

pub split_behind : SplitAt (codes "éPub") 2 (codes "Pub")
split_behind = unfold byte_len in record { before = codes "é"; splits = refl; position = refl }

pub two_buffers-Holds : Holds two_buffers (codes "Public<p")
two_buffers-Holds =
    push_back-Holds (codes "lic<p") (codes "lic<p") 0
      (push_back-Holds (codes "éPub") (codes "Pub") 2 empty-Holds split_behind)
      (SplitAt-start (codes "lic<p"))

-- The recorder that has been given good tokens only.
abbrev pub AllGood : List (Token Text) → Type 0
AllGood tokens = All (IsGood recorder) tokens

pub recorder-Accepts : Accepts recorder AllGood
recorder-Accepts = record {
  takes = λ s token h g. All-append (IsGood recorder) s (token ∷ []) h (g, tt);
  asked = λ s h. h;
  answers = λ s h e. cc e;
}

-- The new tokenizer with that input.
abbrev pub reading : Tokenizer recorder
reading = record (Machine.new recorder [] default_opts) { input_buffers = two_buffers }

pub reading-Inv : Inv recorder AllGood reading
unfolding Machine.new
reading-Inv = record {
  sink_ok = tt;
  input_ok = two_buffers-Holds.valid;
  tag_name_ok = tt;
  attrs_ok = Tokens.no_attrs;
  attr_name_ok = tt;
  attr_value_ok = tt;
  comment_ok = tt;
  doctype_ok = (tt, tt, tt);
  temp_ok = tt;
}
