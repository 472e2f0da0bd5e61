-- ===== src/Tokenizer/Safety/Runs.antt =====
-- Reading a run of characters: `pop_except_from` never panics on a valid queue.
use html.Prelude.{
  ℕ, ◌+◌, ◌≤◌, ◌≡◌, ◌≢◌, refl, ap, Bool, true, false, ◌||◌, Option, none, some, List, [], ◌∷◌, Text,
  All, length, length-append, contains, Checked, ok, ◌>>=◌, if◌then◌else◌, arith,
}
use html.Util.SmallCharSet.{small_char_set}
use html.Util.SmallCharSet.Laws.{AllSmall}
use html.BufferQueue
use html.BufferQueue.{BufferQueue, SetResult, from_set, not_from_set}
use html.BufferQueue.View.{chars, Holds}
use html.BufferQueue.Laws.{Pops, Popped, pop_except_from-Popped}
use html.Tokenizer.Interface.{Externals}
use html.Tokenizer.Machine.{Tokenizer, get_char, as_from_set, preprocess_popped, pop_except_from}
use html.Tokenizer.Safety.Tokens.{HasNoNull, Accepts, Inv}
use html.Tokenizer.Safety.Reading.{spent, ReadsTo, Got, get_char-Got, get_preprocessed_char-Got}

-- At least one character is used up by a result.
abbrev pub set_cost : Option SetResult → ℕ
set_cost none = 0
set_cost (some r) = 1

-- A run that is not in a set with U+0000 does not hold it.
abbrev pub SetOk : Option SetResult → Type 0
SetOk (some (not_from_set b)) = HasNoNull b
SetOk _ = Unit

outside-HasNoNull :
    (es : List ℕ) (run : Text)
    → contains es 0 ≡ true
    → All (λ c. contains es c ≡ false) run
    → HasNoNull run
outside-HasNoNull es [] h k = tt
outside-HasNoNull es (c ∷ run) h k =
    (λ e. cc (ap (contains es) e, h, k.0), outside-HasNoNull es run h k.1)

-- The returned call of `pop_except_from`.
pub record GotSet (x : Externals) (P : x.Sink → Type 0) (t : Tokenizer x)
    (out : Checked (Option SetResult × Tokenizer x)) : Type 0 where
  pub result : Option SetResult
  pub after : Tokenizer x
  pub returns : out ≡ ok (result, after)
  pub reads : ReadsTo x P t (set_cost result) after
  pub set_ok : SetOk result

module _ (x : Externals) (P : x.Sink → Type 0) (a : Accepts x P) where
  as_from_set-GotSet :
      (t : Tokenizer x) {out : Checked (Option ℕ × Tokenizer x)}
      → Got x P t out
      → GotSet x P t (out >>= as_from_set x)
  as_from_set-GotSet t g = rw g.returns (by_result g.result g.after g.reads)
    where
      by_result :
          (o : Option ℕ) (u : Tokenizer x)
          → ReadsTo x P t (spent o) u
          → GotSet x P t (as_from_set x (o, u))
      by_result none u r =
          unfold as_from_set in
          record { result = none; after = u; returns = refl; reads = r; set_ok = tt }
      by_result (some c) u r =
          unfold as_from_set in
          record { result = some (from_set c); after = u; returns = refl; reads = r; set_ok = tt }

  -- The queue that is left, as the tokenizer's input.
  pub popped-ReadsTo :
      (t : Tokenizer x) (q : BufferQueue) (s : Text) (cost : ℕ)
      → Inv x P t
      → Holds q s
      → cost + length s ≤ length (chars t.input_buffers)
      → ReadsTo x P t cost (record t { input_buffers = q })
  popped-ReadsTo t q s cost h k le = record {
    inv = assumption k.valid;
    same_state = refl;
    same_ref = refl;
    spends = omega (arith, ap length k.holds);
  }

  length-pos : (s : Text) → s ≢ [] → 1 ≤ length s
  length-pos [] ne = absurd (ne refl)
  length-pos (c ∷ s) ne = omega arith

  popped-GotSet :
      (t : Tokenizer x) (es : List ℕ) (o : Option SetResult) (q : BufferQueue) (s : Text)
      → contains es 0 ≡ true
      → Inv x P t
      → Holds q s
      → Pops es (chars t.input_buffers) o s
      → GotSet x P t (preprocess_popped x (record t { input_buffers = q }) o)
  popped-GotSet t es none q s z h k p =
      unfold preprocess_popped in
      record {
        result = none;
        after = record t { input_buffers = q };
        returns = refl;
        reads = popped-ReadsTo t q s 0 h k (omega (arith, ap length p.0, ap length p.1));
        set_ok = tt;
      }
  popped-GotSet t es (some (not_from_set run)) q s z h k p =
      unfold preprocess_popped in
      record {
        result = some (not_from_set run);
        after = record t { input_buffers = q };
        returns = refl;
        reads =
            popped-ReadsTo t q s 1 h k
              (omega (arith, ap length p.2, length-append run s, length-pos run p.0));
        set_ok = outside-HasNoNull es run z p.1;
      }
  popped-GotSet t es (some (from_set c)) q s z h k p =
      unfold preprocess_popped in
      as_from_set-GotSet t (
        get_preprocessed_char-Got x P a t (record t { input_buffers = q }) c
          (popped-ReadsTo t q s 1 h k (omega (arith, ap length p.1))))

  -- For a sink that keeps a predicate as long as it is given well-formed tokens: in a tokenizer
  -- that satisfies the invariant, and for a set of characters below 64 that has U+0000,
  -- pop_except_from returns without a panic, keeps the invariant and the state, uses up at least
  -- one pending character when it returns a result, and a run that it returns holds no U+0000.
  pub pop_except_from-GotSet :
      (es : List ℕ) (t : Tokenizer x)
      → AllSmall es
      → contains es 0 ≡ true
      → Inv x P t
      → GotSet x P t (pop_except_from x t (small_char_set es))
  unfolding pop_except_from
  pop_except_from-GotSet es t small z h = choose (t.opts.exact_errors || t.reconsume || t.ignore_lf)
    where
      fast :
          Popped es
            (chars t.input_buffers)
            (BufferQueue.pop_except_from t.input_buffers (small_char_set es))
          → GotSet x P t (
              BufferQueue.pop_except_from t.input_buffers (small_char_set es) >>= λ r.
              preprocess_popped x (record t { input_buffers = r.1 }) r.0)
      fast d = rw d.returns (popped-GotSet t es d.result d.queue d.left z h d.keeps d.pops)

      choose :
          (b : Bool)
          → GotSet x P t (
              if b
              then (get_char x t >>= as_from_set x)
              else (BufferQueue.pop_except_from t.input_buffers (small_char_set es) >>= λ r.
                  preprocess_popped x (record t { input_buffers = r.1 }) r.0))
      choose true = as_from_set-GotSet t (get_char-Got x P a t h)
      choose false =
          fast (pop_except_from-Popped es small (record { valid = h.input_ok; holds = refl }))
