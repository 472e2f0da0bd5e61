-- ===== src/Tokenizer/Safety/Loop.antt =====
-- The loop of a state ends.
use html.Prelude.{
  ℕ, zero, suc, ◌<◌, ◌≡◌, refl, sym, ap, ◌∙◌, Bool, Option, none, some, Checked, ok, arith,
}
use html.Tokenizer.Interface.{Externals}
use html.Tokenizer.Machine.{Tokenizer}
use html.Tokenizer.Actions.{Flow}
use html.Tokenizer.Dispatch.{Reader, by_set, by_char, by_keyword, no_reader, reader}
use html.Tokenizer.Step.{round_char, round_in, round, state_loop}
use html.Tokenizer.Safety.Tokens.{Accepts}
use html.Tokenizer.Safety.Fresh.{InputFresh}
use html.Tokenizer.Safety.Reading.{pending, get_char-Got}
use html.Tokenizer.Safety.Runs.{pop_except_from-GotSet}
use html.Tokenizer.Safety.Moves.{Ready}
use html.Tokenizer.Safety.Round.{Between, Rounded, on_char-Rounded, on_set-Rounded}
use html.Tokenizer.Safety.Keywords.{round_keyword-Rounded}
use html.Tokenizer.Safety.Readers.{ReaderOk, reader-ReaderOk, AllSmall-by_test}

module _ (x : Externals) (P : x.Sink → Type 0) (a : Accepts x P) where
  round_in-Rounded :
      (r : Reader) (t : Tokenizer x)
      → reader t.state ≡ r
      → (r ≡ by_keyword → InputFresh x t)
      → ReaderOk t.state r
      → Between x P t
      → Rounded x P t (round_in x r t.state t)
  unfolding round_in round_char
  round_in-Rounded (by_set es rule) t e f (small, null, good) h =
      on_set-Rounded x P a t rule h (λ k. cc (e, k)) good
        (pop_except_from-GotSet x P a es t (AllSmall-by_test es small) null h.inv)
  round_in-Rounded by_char t e f good h =
      on_char-Rounded x P a t h (λ k. cc (e, k)) (get_char-Got x P a t h.inv)
  round_in-Rounded by_keyword t e f good h = round_keyword-Rounded x P a t.state t refl h (f refl)
  round_in-Rounded no_reader t e f good h = cc (good, h.live)

  round-Rounded :
      (t : Tokenizer x)
      → (reader t.state ≡ by_keyword → InputFresh x t)
      → Between x P t
      → Rounded x P t (round x t.state t)
  unfolding round
  round-Rounded t f h = round_in-Rounded (reader t.state) t refl f (reader-ReaderOk t.state) h

-- The loop of a state returned.
pub record Settled (x : Externals) (P : x.Sink → Type 0)
    (out : Checked (Option (Bool × Tokenizer x))) : Type 0 where
  pub answer : Bool
  pub after : Tokenizer x
  pub returns : out ≡ ok (some (answer, after))
  pub ready : Ready x P after

module _ (x : Externals) (P : x.Sink → Type 0) (a : Accepts x P) where
  -- For a sink that keeps a predicate as long as it is given well-formed tokens and never asks
  -- for the state that is not implemented: between two rounds of an implemented state, in a
  -- tokenizer that satisfies the invariant and has no open character reference, and, if the state
  -- looks for a keyword, with no buffer but the front one read from, the loop of the state
  -- returns without a panic for every fuel above the number of pending characters. The tokenizer
  -- behind it satisfies the invariant, is in an implemented state, and has a character reference
  -- open only in a state that can take its result.
  pub state_loop-Settled :
      (fuel : ℕ) (t : Tokenizer x)
      → (reader t.state ≡ by_keyword → InputFresh x t)
      → Between x P t
      → pending x t < fuel
      → Settled x P (state_loop x fuel t.state t)
  unfolding state_loop
  state_loop-Settled zero t ne h enough = absurd (omega arith)
  state_loop-Settled (suc fuel) t ne h enough =
      let d = round-Rounded x P a t ne h in
      rw d.returns (go_on (state_loop-Settled fuel) d.flow d.after d.ready d.loops)
    where
      go_on :
          ((u : Tokenizer x)
            → (reader u.state ≡ by_keyword → InputFresh x u)
            → Between x P u
            → pending x u < fuel
            → Settled x P (state_loop x fuel u.state u))
          → (f : Flow) (u : Tokenizer x) → Ready x P u
          → (f ≡ Flow.again
              → (u.state ≡ t.state)
                × (u.char_ref_tokenizer ≡ none)
                × (pending x u < pending x t)
                × (reader t.state ≡ by_keyword → InputFresh x u))
          → Settled x P (elim f [
            | Flow.again ↦ state_loop x fuel t.state u
            | Flow.returns b ↦ ok (some (b, u))
          ])
      go_on ih Flow.again u r l =
          let (s, free, less, fresh) = l refl in
          rw (← s) (
            ih u (λ e. fresh (ap reader (sym s) ∙ e))
              (record { inv = r.inv; live = r.live; free = free }) (omega arith))
      go_on ih (Flow.returns b) u r l = record { answer = b; after = u; returns = refl; ready = r }
