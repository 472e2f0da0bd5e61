-- ===== src/Tokenizer/Safety/Round.antt =====
-- A round of the loop of a state.
use html.Prelude.{
  ℕ, ◌<◌, ◌≡◌, ◌≢◌, refl, ap, ◌∙◌, true, false, Option, none, some, codes, text_eq, Checked, ok,
  AllOk, ◌>>=◌, arith, inl,
}
use html.BufferQueue.{SetResult}
use html.Tokenizer.Interface.{Externals}
use html.Tokenizer.Machine.{Tokenizer}
use html.Tokenizer.Actions.{Go, Flow, run_go, have_appropriate_end_tag}
use html.Tokenizer.Dispatch.{by_keyword, reader, char_rule}
use html.Tokenizer.Step.{on_char, on_set}
use html.Tokenizer.Safety.Tokens.{Accepts, Inv}
use html.Tokenizer.Safety.Checks.{rule_ok, implemented, char_rule_ok-rule_ok}
use html.Tokenizer.Safety.Fresh.{InputFresh}
use html.Tokenizer.Safety.Rules.{char_rule-ok}
use html.Tokenizer.Safety.Reading.{spent, pending, ReadsTo, Got}
use html.Tokenizer.Safety.Runs.{set_cost, SetOk, GotSet}
use html.Tokenizer.Safety.Moves.{Ready, run_go-Moved}
use html.Tokenizer.Safety.Readers.{SetRuleOk}

module _ (x : Externals) (P : x.Sink → Type 0) where
  -- The tokenizer is between two rounds of a state.
  pub record Between (t : Tokenizer x) : Type 0 where
    pub inv : Inv x P t
    pub live : implemented t.state ≡ true
    pub free : t.char_ref_tokenizer ≡ none

  -- A returned round. If the state goes on, a character has been used up.
  pub record Rounded (t : Tokenizer x) (out : Checked (Flow × Tokenizer x)) : Type 0 where
    pub flow : Flow
    pub after : Tokenizer x
    pub returns : out ≡ ok (flow, after)
    pub ready : Ready x P after
    pub loops :
        flow ≡ Flow.again
        → (after.state ≡ t.state)
          × (after.char_ref_tokenizer ≡ none)
          × (pending x after < pending x t)
          × (reader t.state ≡ by_keyword → InputFresh x after)

module _ (x : Externals) (P : x.Sink → Type 0) (a : Accepts x P) where
  pending-eq :
      (t u : Tokenizer x)
      → u.input_buffers ≡ t.input_buffers
      → u.reconsume ≡ t.reconsume
      → pending x u ≡ pending x t
  pending-eq t u e f = rw (e, f)

  -- The input ran out.
  pub stuck-Rounded :
      (t u : Tokenizer x) (k : ℕ)
      → Between x P t
      → ReadsTo x P t k u
      → Rounded x P t (ok (Flow.returns false, u))
  stuck-Rounded t u k h r = record {
    flow = Flow.returns false;
    after = u;
    returns = refl;
    ready = record {
      inv = r.inv;
      live = ap implemented r.same_state ∙ h.live;
      fits = inl (r.same_ref ∙ h.free);
    };
    loops = λ e. cc e;
  }

  -- A rule that passes the checks, on what was read.
  pub rule-Rounded :
      (t u : Tokenizer x) (g : Go)
      → Between x P t
      → ReadsTo x P t 1 u
      → (reader t.state ≡ by_keyword → InputFresh x u)
      → rule_ok t.state g ≡ true
      → Rounded x P t (ok (run_go x g u))
  rule-Rounded t u g h r fresh ok_g =
      let m =
        run_go-Moved x P a g u (rw r.same_state ok_g) (ap implemented r.same_state ∙ h.live)
          (r.same_ref ∙ h.free) r.inv in
      record {
        flow = (run_go x g u).0;
        after = (run_go x g u).1;
        returns = refl;
        ready = m.ready;
        loops = λ e.
            (let (s, again, ref) = m.loops e in
              (
                s ∙ r.same_state,
                ref ∙ r.same_ref ∙ h.free,
                rw (pending-eq u (run_go x g u).1 m.input again) (omega (arith, r.spends)),
                λ k. rw m.input (fresh k),
              ));
      }

  pub on_char-Rounded :
      (t : Tokenizer x) {out : Checked (Option ℕ × Tokenizer x)}
      → Between x P t
      → (reader t.state ≡ by_keyword → AllOk (λ r. InputFresh x r.1) out)
      → Got x P t out
      → Rounded x P t (out >>= on_char x t.state)
  on_char-Rounded t h fresh g =
      rw g.returns (by_result g.result g.after g.reads (λ k. rw g.returns at (fresh k)))
    where
      by_result :
          (o : Option ℕ) (u : Tokenizer x)
          → ReadsTo x P t (spent o) u
          → (reader t.state ≡ by_keyword → InputFresh x u)
          → Rounded x P t (on_char x t.state (o, u))
      by_result none u r f = unfold on_char in stuck-Rounded t u 0 h r
      by_result (some c) u r f =
          unfold on_char in
          rule-Rounded t u _ h r f (
            char_rule_ok-rule_ok t.state
              (char_rule t.state (have_appropriate_end_tag x u)
                (text_eq u.temp_buf (codes "script")) c)
              (char_rule-ok t.state (have_appropriate_end_tag x u)
                (text_eq u.temp_buf (codes "script")) c))

  pub on_set-Rounded :
      (t : Tokenizer x) (rule : SetResult → Go) {out : Checked (Option SetResult × Tokenizer x)}
      → Between x P t
      → (reader t.state ≢ by_keyword)
      → SetRuleOk t.state rule
      → GotSet x P t out
      → Rounded x P t (out >>= on_set x rule)
  on_set-Rounded t rule h ne good g = rw g.returns (by_result g.result g.after g.reads g.set_ok)
    where
      by_result :
          (o : Option SetResult) (u : Tokenizer x)
          → ReadsTo x P t (set_cost o) u
          → SetOk o
          → Rounded x P t (on_set x rule (o, u))
      by_result none u r k = unfold on_set in stuck-Rounded t u 0 h r
      by_result (some d) u r k =
          unfold on_set in rule-Rounded t u (rule d) h r (λ e. absurd (ne e)) (good d k)
