-- ===== src/BufferQueue/Eat.antt =====
-- `BufferQueue::eat` against a matcher on the characters that the queue holds.
use html.Prelude.{
  ok-injective, ℕ, ◌≡◌, ◌≢◌, refl, Bool, true, Option, some, List, [], ◌∷◌, Text, Checked, ok,
  ◌>>=◌, tail, drop, arith, inl, inr,
}
use html.BufferQueue.{Buffer, BufferQueue, Scan, eat, eat_from, eat_commit, eat_end}
use html.BufferQueue.View.{Holds}
use html.BufferQueue.Cursor.{match_prefix, after_match, IsFresh, Cursor, Scanned, eat_scan-Scanned}

-- The outcome of `eat` on a queue that holds `s`.
pub record Eaten (pat s : Text) (out : Checked (Option Bool × BufferQueue)) : Type 0 where
  pub queue : BufferQueue
  pub returns : out ≡ ok (match_prefix pat s, queue)
  pub keeps : Holds queue (after_match pat s)
  pub fresh : IsFresh (tail queue.buffers)

after_match-ne : (pat s : Text) → match_prefix pat s ≢ some true → after_match pat s ≡ s
after_match-ne pat s ne = ground arith

eat_commit-IsFresh :
    (bs : List Buffer) (c : ℕ) {q : BufferQueue}
    → eat_commit bs c ≡ ok q
    → IsFresh (tail bs)
    → IsFresh (tail q.buffers)
unfolding eat_commit
eat_commit-IsFresh [] c {q} e f =
    let same : q ≡ record { buffers = [] } = ground arith in rw same tt
eat_commit-IsFresh (b ∷ bs) c e f = rw (← ok-injective e) f

eat_end-Eaten :
    (pat s : Text) (q : BufferQueue) (out : Checked Scan)
    → Holds q s
    → IsFresh (tail q.buffers)
    → Scanned q.buffers pat s out
    → Eaten pat s (out >>= λ r. eat_end q r)
unfolding eat_end
eat_end-Eaten pat s q out h f (inl (ne, e)) = record {
  queue = q;
  returns = rw e;
  keeps = rw (after_match-ne pat s ne) h;
  fresh = f;
}
eat_end-Eaten pat s q out h f (inr (e, c, o, m, cur)) = record {
  queue = cur.queue;
  returns = rw (o, m) (rw cur.commits);
  keeps = rw (m, after_match) cur.keeps;
  fresh = eat_commit-IsFresh (drop e q.buffers) c cur.commits cur.fresh;
}

eat_from-Eaten :
    (pat : Text) (bs : List Buffer) {s : Text}
    → pat ≢ []
    → Holds (record { buffers = bs }) s
    → IsFresh (tail bs)
    → Eaten pat s (eat_from (record { buffers = bs }) bs pat)
unfolding eat_from
eat_from-Eaten [] bs ne h fresh = absurd (ne refl)
eat_from-Eaten (p ∷ pat) [] ne h fresh = rw (← h.holds) (record {
  queue = record { buffers = [] };
  returns = refl;
  keeps = record { valid = tt; holds = refl };
  fresh = tt;
})
eat_from-Eaten (p ∷ pat) (b ∷ bs) {s} ne h fresh =
    let start : Cursor (b ∷ bs) 0 b.pos s = record {
      queue = record { buffers = b ∷ bs };
      commits = unfold eat_commit in refl;
      keeps = h;
      fresh = fresh;
    } in
    eat_end-Eaten (p ∷ pat) s (record { buffers = b ∷ bs }) _ h fresh
      (eat_scan-Scanned (b ∷ bs) (p ∷ pat) s 0 b.pos start)

-- On a valid queue in which no buffer but the front one has been read from, and for a pattern
-- that is not empty, eat does not panic and agrees with matching the pattern, ASCII letters up to
-- case, against the characters that the queue holds, across buffers: a match is consumed, a
-- mismatch or running out of characters consumes nothing. Still no buffer but the front one has
-- been read from.
pub eat-Eaten :
    (pat : Text) {q : BufferQueue} {s : Text}
    → pat ≢ []
    → Holds q s
    → IsFresh (tail q.buffers)
    → Eaten pat s (eat q pat)
unfolding eat eat_from
eat-Eaten pat {q} ne h fresh = eat_from-Eaten pat q.buffers ne h fresh
