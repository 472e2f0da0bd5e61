-- ===== src/BufferQueue.antt =====
-- src/tokenizer/buffer_queue.rs: a queue of owned string buffers, consumed character by character.
-- A method returns its result and the new queue; a panic of the string operations is `panic`.
pub mod View
pub mod Laws
pub mod Cursor
pub mod Eat
use html.Prelude.{
  ℕ, zero, suc, ◌+◌, Bool, true, false, Option, none, some, List, [], ◌∷◌, ◌++◌, leb, ◌==◌,
  if◌then◌else◌, Text, Checked, ok, panic, ◌>>=◌, get_elem?, drop,
}
use html.Util.Utf8.{byte_len, slice, slice_from, char_at, char_range_at}
use html.Util.Str.{Ascii, to_ascii_opt, eq_ignore_case}
use html.Util.SmallCharSet.{SmallCharSet, nonmember_prefix_len}

pub record Buffer : Type 0 where
  pub pos : ℕ
  pub buf : Text

-- Result from `pop_except_from`.
pub data SetResult : Type 0 where
  from_set : ℕ → SetResult
  not_from_set : Text → SetResult

pub record BufferQueue : Type 0 where
  pub buffers : List Buffer

abbrev pub new : BufferQueue
new = record { buffers = [] }

unfoldable pub push_front : BufferQueue → Text → BufferQueue
push_front q buf =
    if byte_len buf == 0 then q else record { buffers = record { pos = 0; buf = buf } ∷ q.buffers }

unfoldable pub push_back : BufferQueue → Text → ℕ → BufferQueue
push_back q buf pos =
    if leb (byte_len buf) pos
    then q
    else record { buffers = q.buffers ++ (record { pos = pos; buf = buf } ∷ []) }

peek_front : List Buffer → Checked (Option ℕ)
peek_front [] = ok none
peek_front (b ∷ bs) = do c ← char_at b.buf b.pos; ok (some c)

unfoldable pub peek : BufferQueue → Checked (Option ℕ)
unfolding peek_front
peek q = peek_front q.buffers

-- The front buffer with its position moved, or the queue behind it if the buffer is used up.
unfoldable pub advance : Buffer → List Buffer → ℕ → BufferQueue
advance b bs next =
    if leb (byte_len b.buf) next
    then record { buffers = bs }
    else record { buffers = record b { pos = next } ∷ bs }

unfoldable pub next_front : List Buffer → Checked (Option ℕ × BufferQueue)
unfolding advance
next_front [] = ok (none, record { buffers = [] })
next_front (b ∷ bs) = do (ch, next) ← char_range_at b.buf b.pos; ok (some ch, advance b bs next)

-- `next` of the source.
unfoldable pub next_char : BufferQueue → Checked (Option ℕ × BufferQueue)
unfolding next_front
next_char q = next_front q.buffers

-- The two branches on `n > 0`.
pop_run : Buffer → List Buffer → ℕ → Checked (Option SetResult × BufferQueue)
unfolding advance
pop_run b bs zero = do
  (ch, next) ← char_range_at b.buf b.pos
  ok (some (from_set ch), advance b bs next)
pop_run b bs (suc n) = do
  let new_pos = b.pos + suc n
  out ← slice b.buf b.pos new_pos
  ok (some (not_from_set out), advance b bs new_pos)

pop_front_except : SmallCharSet → List Buffer → Checked (Option SetResult × BufferQueue)
unfolding pop_run
pop_front_except set [] = ok (none, record { buffers = [] })
pop_front_except set (b ∷ bs) = do
  rest ← slice_from b.buf b.pos
  pop_run b bs (nonmember_prefix_len set rest)

unfoldable pub pop_except_from :
    BufferQueue → SmallCharSet → Checked (Option SetResult × BufferQueue)
unfolding pop_front_except
pop_except_from q set = pop_front_except set q.buffers

-- How the loop of `eat` ends: early, with its result, or with the cursor behind the pattern.
pub data Scan : Type 0 where
  stop : Option Bool → Scan
  matched : ℕ → ℕ → Scan

ascii_match : Option Ascii → Option Ascii → Bool
unfolding eq_ignore_case
ascii_match (some c) (some d) = eq_ignore_case c d
ascii_match _ _ = false

chars_match : ℕ → ℕ → Bool
unfolding ascii_match to_ascii_opt
chars_match c d = ascii_match (to_ascii_opt c) (to_ascii_opt d)

-- The loop of `eat`: `exhausted` is `buffers_exhausted`, `consumed` is `consumed_from_last`.
pub eat_scan : List Buffer → Text → ℕ → ℕ → Checked Scan
unfolding chars_match
eat_scan bs [] exhausted consumed = ok (matched exhausted consumed)
eat_scan bs (c ∷ pat) exhausted consumed = elim (get_elem? bs exhausted) [
  | none ↦ ok (stop none)
  | some b ↦ char_at b.buf consumed >>= λ d.
      let go_on = eat_scan bs pat exhausted (consumed + 1) in
      let go_over = eat_scan bs pat (exhausted + 1) 0 in
      if chars_match c d
      then (if leb (byte_len b.buf) (consumed + 1) then go_over else go_on)
      else ok (stop (some false))
]

-- Committing a match; the assertion is that nothing is consumed of a buffer that is not there.
pub eat_commit : List Buffer → ℕ → Checked BufferQueue
eat_commit [] consumed = if consumed == 0 then ok (record { buffers = [] }) else panic
eat_commit (b ∷ bs) consumed = ok (record { buffers = record b { pos = consumed } ∷ bs })

eat_end : BufferQueue → Scan → Checked (Option Bool × BufferQueue)
unfolding eat_commit
eat_end q (stop r) = ok (r, q)
eat_end q (matched exhausted consumed) = do
  q' ← eat_commit (drop exhausted q.buffers) consumed
  ok (some true, q')

eat_from : BufferQueue → List Buffer → Text → Checked (Option Bool × BufferQueue)
unfolding eat_scan eat_end
eat_from q [] pat = ok (none, q)
eat_from q (b ∷ bs) pat = do s ← eat_scan q.buffers pat 0 b.pos; eat_end q s

unfoldable pub eat : BufferQueue → Text → Checked (Option Bool × BufferQueue)
unfolding eat_from
eat q pat = eat_from q q.buffers pat
