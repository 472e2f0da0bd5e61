-- ===== src/BufferQueue/Laws.antt =====
-- What `peek`, `next` and `pop_except_from` do to the characters that a valid queue holds.
use html.Prelude.{
  ℕ, suc, ◌+◌, ◌-◌, ◌≡◌, ◌≢◌, refl, ap, true, false, Option, none, some, List, [], ◌∷◌, ◌++◌,
  append_assoc, Text, Checked, ok, All, head?, tail, arith, contains, Bool-cases, inl, inr,
}
use html.Util.Utf8.{
  SplitAt, SplitAt-advance, byte_len, char_at-SplitAt, char_range_at-SplitAt, slice_from-SplitAt,
  slice-SplitAt, utf8_len, utf8_len_pos,
}
use html.Util.SmallCharSet.{small_char_set}
use html.Util.SmallCharSet.Laws.{
  AllSmall, take_outside, drop_outside, outside-append, nonmember_prefix_len-eq,
}
use html.BufferQueue.{
  Buffer, BufferQueue, SetResult, from_set, not_from_set, peek, peek_front, next_char, next_front,
  pop_except_from, pop_front_except, pop_run, advance,
}
use html.BufferQueue.View.{rest, chars_of, IsBuffer, Holds, Holds-advance}

-- The first character of a buffer, and the split behind it.
pub record Front (b : Buffer) : Type 0 where
  pub first : ℕ
  pub others : Text
  pub rest_is : rest b ≡ first ∷ others
  pub at : SplitAt b.buf b.pos (first ∷ others)

front-of : (t : Text) {b : Buffer} → rest b ≡ t → t ≢ [] → SplitAt b.buf b.pos t → Front b
front-of [] e ne at = absurd (ne refl)
front-of (c ∷ t) e ne at = record { first = c; others = t; rest_is = e; at = at }

pub front : {b : Buffer} → IsBuffer b → Front b
front {b} v = front-of (rest b) refl v.left v.splits

-- The split behind the first character.
pub behind : {b : Buffer} (f : Front b) → SplitAt b.buf (b.pos + utf8_len f.first) f.others
behind {b} f =
    let e : byte_len (f.first ∷ []) ≡ utf8_len f.first = unfold byte_len in omega arith in
    rw e at (SplitAt-advance (f.first ∷ []) f.others f.at)

peek_front-eq : (bs : List Buffer) → All IsBuffer bs → peek_front bs ≡ ok (head? (chars_of bs))
unfolding peek_front
peek_front-eq [] v = refl
peek_front-eq (b ∷ bs) v = let f = front v.0 in rw (char_at-SplitAt f.first f.at) (rw f.rest_is)

-- On a valid queue peek does not panic and shows the first character that the queue holds.
pub peek-Holds : {q : BufferQueue} {s : Text} → Holds q s → peek q ≡ ok (head? s)
unfolding peek
peek-Holds {q} h = rw (peek_front-eq q.buffers h.valid) (ap (λ t. ok (head? t)) h.holds)

next_front-eq :
    (bs : List Buffer)
    → All IsBuffer bs
    → (q : BufferQueue) × (next_front bs ≡ ok (head? (chars_of bs), q))
      × Holds q (tail (chars_of bs))
unfolding next_front
next_front-eq [] v = (record { buffers = [] }, refl, record { valid = tt; holds = refl })
next_front-eq (b ∷ bs) v =
    let f = front v.0 in
    (
      advance b bs (b.pos + utf8_len f.first),
      rw (char_range_at-SplitAt f.first f.at) (rw f.rest_is),
      rw f.rest_is (Holds-advance b bs f.others _ (behind f) v.1),
    )

-- On a valid queue next does not panic, returns the first character that the queue holds and
-- leaves a valid queue of the others.
pub next_char-Holds :
    {q : BufferQueue} {s : Text}
    → Holds q s
    → (q' : BufferQueue) × (next_char q ≡ ok (head? s, q')) × Holds q' (tail s)
unfolding next_char
next_char-Holds {q} h = rw h.holds at (next_front-eq q.buffers h.valid)

-- What `pop_except_from` may return when the queue holds `s`, with `s'` left: a member of the set,
-- or a nonempty run of characters outside it.
abbrev pub Pops : List ℕ → Text → Option SetResult → Text → Type 0
Pops es s none s' = (s ≡ []) × (s' ≡ [])
Pops es s (some (from_set c)) s' = (contains es c ≡ true) × (s ≡ c ∷ s')
Pops es s (some (not_from_set run)) s' =
    (run ≢ []) × All (λ c. contains es c ≡ false) run × (s ≡ run ++ s')

-- The outcome of one call on a queue that holds `s`.
pub record Popped (es : List ℕ) (s : Text) (out : Checked (Option SetResult × BufferQueue))
    : Type 0 where
  pub result : Option SetResult
  pub queue : BufferQueue
  pub left : Text
  pub returns : out ≡ ok (result, queue)
  pub keeps : Holds queue left
  pub pops : Pops es s result left

take_outside-All : (es : List ℕ) (s : Text) → All (λ c. contains es c ≡ false) (take_outside es s)
take_outside-All es [] = tt
take_outside-All es (c ∷ s) = elim (Bool-cases (contains es c)) [
  | inl h ↦ rw h tt
  | inr h ↦ rw h (h, take_outside-All es s)
]

module _ (es : List ℕ) (small : AllSmall es) (b : Buffer) (bs : List Buffer)
    (vs : All IsBuffer bs) where
  -- The first character is a member: it is popped alone.
  pop-member :
      (f : Front b)
      → contains es f.first ≡ true
      → Popped es (rest b ++ chars_of bs) (pop_run b bs 0)
  unfolding pop_run
  pop-member f h = record {
    result = some (from_set f.first);
    queue = advance b bs (b.pos + utf8_len f.first);
    left = f.others ++ chars_of bs;
    returns = rw (char_range_at-SplitAt f.first f.at);
    keeps = Holds-advance b bs f.others _ (behind f) vs;
    pops = (h, rw f.rest_is);
  }

  -- A nonempty run is popped whole.
  pop-outside :
      (run others : Text) (n : ℕ)
      → suc n ≡ byte_len run
      → run ≢ []
      → All (λ c. contains es c ≡ false) run
      → rest b ≡ run ++ others
      → SplitAt b.buf b.pos (run ++ others)
      → Popped es (rest b ++ chars_of bs) (pop_run b bs (suc n))
  unfolding pop_run
  pop-outside run others n e ne out split at = record {
    result = some (not_from_set run);
    queue = advance b bs (b.pos + suc n);
    left = others ++ chars_of bs;
    returns = rw e (rw (slice-SplitAt run others at));
    keeps = rw e (Holds-advance b bs others _ (SplitAt-advance run others at) vs);
    pops = (ne, out, rw split (append_assoc run others (chars_of bs)));
  }

  pop_at :
      (t : Text)
      → rest b ≡ t
      → t ≢ []
      → SplitAt b.buf b.pos t
      → Popped es (rest b ++ chars_of bs) (pop_run b bs (byte_len (take_outside es t)))
  unfolding byte_len
  pop_at [] e ne at = absurd (ne refl)
  pop_at (c ∷ t) e ne at = elim (Bool-cases (contains es c)) [
    | inl h ↦ rw h (pop-member (record { first = c; others = t; rest_is = e; at = at }) h)
    | inr h ↦
        let run = c ∷ take_outside es t in
        let split = ap (◌∷◌ c) (outside-append es t) in
        let size : suc (byte_len run - 1) ≡ byte_len run = omega (arith, utf8_len_pos c) in
        rw (h, ← size)
          (pop-outside run (drop_outside es t) (byte_len run - 1) size (λ e. cc e)
            (h, take_outside-All es t) (rw split e) (rw split at))
  ]

  pop_front-Popped :
      IsBuffer b → Popped es (rest b ++ chars_of bs) (pop_front_except (small_char_set es) (b ∷ bs))
  unfolding pop_front_except
  pop_front-Popped v =
      rw (slice_from-SplitAt v.splits)
        (rw (nonmember_prefix_len-eq es (rest b) small) (pop_at (rest b) refl v.left v.splits))

-- On a valid queue, and for a set of characters below 64, pop_except_from does not panic, returns
-- nothing exactly when the queue holds nothing, else the first character if it is a member of the
-- set, else a nonempty run of characters outside it, and leaves a valid queue of what follows.
pub pop_except_from-Popped :
    (es : List ℕ) {q : BufferQueue} {s : Text}
    → AllSmall es
    → Holds q s
    → Popped es s (pop_except_from q (small_char_set es))
unfolding pop_except_from
pop_except_from-Popped es {q} small h = rw (← h.holds) (pop_all q.buffers h.valid)
  where
    pop_all :
        (bs : List Buffer)
        → All IsBuffer bs
        → Popped es (chars_of bs) (pop_front_except (small_char_set es) bs)
    pop_all [] v =
        unfold pop_front_except in
        record {
          result = none;
          queue = record { buffers = [] };
          left = [];
          returns = refl;
          keeps = record { valid = tt; holds = refl };
          pops = (refl, refl);
        }
    pop_all (b ∷ bs) v = pop_front-Popped es small b bs v.1 v.0
