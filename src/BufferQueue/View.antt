-- ===== src/BufferQueue/View.antt =====
-- The abstract view of a buffer queue: the characters that are still to be read.
use html.Prelude.{
  ℕ, ◌≤◌, ◌<◌, ◌≡◌, ◌≢◌, refl, sym, ap, List, [], ◌∷◌, ◌++◌, append_assoc, append-nil, Text,
  Checked, ok, panic, All, All-append, arith, leb, ◌==◌, Bool-cases, inl, inr,
}
use html.Util.Utf8.{
  SplitAt, slice_from, byte_len, slice_from-SplitAt, byte_len-SplitAt, byte_len-eq-zero,
  SplitAt-start,
}
use html.BufferQueue.{Buffer, BufferQueue, push_front, push_back, advance}

or_empty : Checked Text → Text
or_empty (ok t) = t
or_empty panic = []

-- What is left of a buffer.
unfoldable pub rest : Buffer → Text
unfolding or_empty
rest b = or_empty (slice_from b.buf b.pos)

abbrev pub chars_of : List Buffer → Text
chars_of [] = []
chars_of (b ∷ bs) = rest b ++ chars_of bs

-- The characters that the queue holds, in the order in which they are read.
abbrev pub chars : BufferQueue → Text
chars q = chars_of q.buffers

-- The position stands between two characters, and something is left.
pub record IsBuffer (b : Buffer) : Type 0 where
  pub splits : SplitAt b.buf b.pos (rest b)
  pub left : rest b ≢ []

abbrev pub IsValid : BufferQueue → Type 0
IsValid q = All IsBuffer q.buffers

module _ {b : Buffer} {t : Text} (at : SplitAt b.buf b.pos t) where
  pub rest-eq : rest b ≡ t
  unfolding rest
  rest-eq = rw (slice_from-SplitAt at)

  pub IsBuffer-intro : t ≢ [] → IsBuffer b
  IsBuffer-intro ne = record { splits = rw rest-eq at; left = rw rest-eq ne }

pub chars_of-append : (bs cs : List Buffer) → chars_of (bs ++ cs) ≡ chars_of bs ++ chars_of cs
chars_of-append [] cs = refl
chars_of-append (b ∷ bs) cs =
    rw (chars_of-append bs cs) (sym (append_assoc (rest b) (chars_of bs) (chars_of cs)))

nil-of-end : {s t : Text} {pos : ℕ} → SplitAt s pos t → byte_len s ≤ pos → t ≡ []
nil-of-end {t = t} at h = byte_len-eq-zero t (omega (arith, byte_len-SplitAt at))

not-nil-of-rest : {s t : Text} {pos : ℕ} → SplitAt s pos t → pos < byte_len s → t ≢ []
not-nil-of-rest at h e = omega (arith, byte_len-SplitAt at, ap byte_len e, byte_len_nil)
  where
    byte_len_nil : byte_len [] ≡ 0
    byte_len_nil = unfold byte_len in refl

-- The queue `q` is valid and holds the characters `s`.
pub record Holds (q : BufferQueue) (s : Text) : Type 0 where
  pub valid : IsValid q
  pub holds : chars q ≡ s

module _ (b : Buffer) (bs : List Buffer) (t : Text) (next : ℕ) where
  -- Moving the front position keeps the queue valid; what is left is the rest from there.
  pub Holds-advance :
      SplitAt b.buf next t → All IsBuffer bs → Holds (advance b bs next) (t ++ chars_of bs)
  unfolding advance
  Holds-advance at valid = elim (Bool-cases (leb (byte_len b.buf) next)) [
    | inl done ↦ rw done (record { valid = valid; holds = rw (nil-of-end at (ground arith)) })
    | inr more ↦ rw more (record {
      valid = (IsBuffer-intro at (not-nil-of-rest at (ground arith)), valid);
      holds = rw (rest-eq {b = record b { pos = next }} at);
    })
  ]

-- A string pushed to the front of a valid queue is read before everything else, and the queue
-- stays valid.
pub push_front-Holds :
    {q : BufferQueue} {s : Text} (t : Text) → Holds q s → Holds (push_front q t) (t ++ s)
unfolding push_front
push_front-Holds t h = elim (Bool-cases (byte_len t == 0)) [
  | inl empty ↦ rw empty (rw (byte_len-eq-zero t (ground arith)) h)
  | inr full ↦ rw full (record {
    valid = (
      IsBuffer-intro (SplitAt-start t) (not-nil-of-rest (SplitAt-start t) (ground arith)),
      h.valid,
    );
    holds = cc (rest-eq (SplitAt-start t), h.holds);
  })
]

-- A string pushed to the back of a valid queue, with a position that stands between two of its
-- characters or at an end, is read from there after everything else, and the queue stays valid.
pub push_back-Holds :
    {q : BufferQueue} {s : Text} (buf t : Text) (pos : ℕ)
    → Holds q s
    → SplitAt buf pos t
    → Holds (push_back q buf pos) (s ++ t)
unfolding push_back
push_back-Holds {q} {s} buf t pos h at = elim (Bool-cases (leb (byte_len buf) pos)) [
  | inl empty ↦ rw empty (rw (nil-of-end at (ground arith), append-nil) h)
  | inr full ↦ rw full (record {
    valid =
        All-append IsBuffer q.buffers _ h.valid
          (IsBuffer-intro at (not-nil-of-rest at (ground arith)), tt);
    holds = rw chars_of-append (rw (rest-eq at, append-nil) (ap (λ u. u ++ t) h.holds));
  })
]
