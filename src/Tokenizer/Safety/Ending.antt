-- ===== src/Tokenizer/Safety/Ending.antt =====
-- The loop of `end`: each state is left for one that is nearer to the end.
use html.Prelude.{
  ℕ, zero, suc, ◌<◌, ◌≡◌, refl, ap, ◌∙◌, Bool, true, false, ◌&&◌, Option, some, Checked, ok, panic,
  ◌>>=◌, ltb, ◌==◌, ==_iff, arith,
}
use html.Tokenizer.States.{
  State, rcdata, rawtext, script_data, script_data_escaped, data_state, plaintext, raw_data,
  raw_less_than_sign, raw_end_tag_open, raw_end_tag_name, script_data_escape_start, escaped,
  double_escaped, script_data_double_escape_end, markup_declaration_open, cdata_section,
}
use html.Tokenizer.Interface.{Externals, eof_token}
use html.Tokenizer.Machine.{Tokenizer, process_token}
use html.Tokenizer.Actions.{Exit, to, eof, Go, go, Flow, run_go, run_cmds, run_exit}
use html.Tokenizer.Rules.End.{eof_rule}
use html.Tokenizer.Step.{eof_step, eof_loop}
use html.Tokenizer.Safety.Tokens.{Accepts, Inv}
use html.Tokenizer.Safety.Commands.{run_go-Inv}
use html.Tokenizer.Safety.Checks.{cmds_ok, implemented}
use html.Tokenizer.Safety.Steady.{run_cmds-Kept}
use html.Tokenizer.Safety.Moves.{cmds_ok-CmdOk}

-- How many rounds a state is away from the end.
abbrev pub rank : State → ℕ
rank data_state = 0
rank (raw_data (script_data_escaped _)) = 1
rank (raw_data _) = 0
rank plaintext = 0
rank (raw_less_than_sign _) = 2
rank (raw_end_tag_open _) = 2
rank (raw_end_tag_name _) = 2
rank (script_data_escape_start _) = 2
rank script_data_double_escape_end = 2
rank markup_declaration_open = 2
rank _ = 1

abbrev exit_near : State → Exit → Bool
exit_near s eof = rank s == 0
exit_near s (to s') = implemented s' && ltb (rank s') (rank s)
exit_near s _ = false

abbrev go_near : State → Checked Go → Bool
go_near s (ok (go cmds exit)) = cmds_ok cmds && exit_near s exit
go_near s panic = false

eof_rule-near : (s : State) → implemented s ≡ true → go_near s (eof_rule s) ≡ true
unfolding eof_rule
eof_rule-near (raw_data rcdata) h = refl
eof_rule-near (raw_data rawtext) h = refl
eof_rule-near (raw_data script_data) h = refl
eof_rule-near (raw_data (script_data_escaped _)) h = refl
eof_rule-near (raw_less_than_sign rcdata) h = refl
eof_rule-near (raw_less_than_sign rawtext) h = refl
eof_rule-near (raw_less_than_sign script_data) h = refl
eof_rule-near (raw_less_than_sign (script_data_escaped escaped)) h = refl
eof_rule-near (raw_less_than_sign (script_data_escaped double_escaped)) h = refl
eof_rule-near (raw_end_tag_open rcdata) h = refl
eof_rule-near (raw_end_tag_open rawtext) h = refl
eof_rule-near (raw_end_tag_open script_data) h = refl
eof_rule-near (raw_end_tag_open (script_data_escaped _)) h = refl
eof_rule-near (raw_end_tag_name rcdata) h = refl
eof_rule-near (raw_end_tag_name rawtext) h = refl
eof_rule-near (raw_end_tag_name script_data) h = refl
eof_rule-near (raw_end_tag_name (script_data_escaped _)) h = refl
eof_rule-near cdata_section h = cc
eof_rule-near _ h = refl

and-right : (b : Bool) {c : Bool} → (b && c) ≡ true → c ≡ true
and-right true e = e
and-right false e = cc

-- The loop returned.
pub record Ended (x : Externals) (P : x.Sink → Type 0) (t : Tokenizer x)
    (out : Checked (Option (Tokenizer x))) : Type 0 where
  pub after : Tokenizer x
  pub returns : out ≡ ok (some after)
  pub inv : Inv x P after
  pub at_end : rank after.state ≡ 0
  pub input : after.input_buffers ≡ t.input_buffers
  pub last_token : (s : x.Sink) × (after.sink ≡ x.process_token s eof_token)

module _ (x : Externals) (P : x.Sink → Type 0) (a : Accepts x P) where
  -- A round that left the input alone may go before.
  Ended-from :
      {t u : Tokenizer x} {out : Checked (Option (Tokenizer x))}
      → u.input_buffers ≡ t.input_buffers
      → Ended x P u out
      → Ended x P t out
  Ended-from same e = record {
    after = e.after;
    returns = e.returns;
    inv = e.inv;
    at_end = e.at_end;
    input = e.input ∙ same;
    last_token = e.last_token;
  }

  -- For a sink that keeps a predicate as long as it is given well-formed tokens, in a tokenizer
  -- that satisfies the invariant and is in an implemented state, the loop of end over eof_step
  -- returns without a panic for every fuel above the rank of the state. It stops in a state of
  -- rank 0, leaves the input alone, keeps the invariant, and the last token that the sink is
  -- given is the end of the file.
  pub eof_loop-Ended :
      (fuel : ℕ) (t : Tokenizer x)
      → rank t.state < fuel
      → implemented t.state ≡ true
      → Inv x P t
      → Ended x P t (eof_loop x fuel t)
  unfolding eof_loop eof_step run_go run_exit process_token
  eof_loop-Ended zero t enough live h = absurd (omega arith)
  eof_loop-Ended (suc fuel) t enough live h =
      by_rule (eof_loop-Ended fuel) (eof_rule t.state) (eof_rule-near t.state live)
    where
      by_rule :
          ((u : Tokenizer x)
            → rank u.state < fuel
            → implemented u.state ≡ true
            → Inv x P u
            → Ended x P u (eof_loop x fuel u))
          → (m : Checked Go) → go_near t.state m ≡ true
          → Ended x P t (
              (m >>= λ rule. ok (run_go x rule t)) >>= λ s. elim s.0 [
                | Flow.returns false ↦ ok (some s.1)
                | _ ↦ eof_loop x fuel s.1
              ])
      by_rule ih panic near = cc
      by_rule ih (ok (go cmds eof)) near =
          let k = run_cmds-Kept x cmds t in
          record {
            after = (run_go x (go cmds eof) t).1;
            returns = refl;
            inv = run_go-Inv x P a (go cmds eof) t (cmds_ok-CmdOk cmds (ground arith)) h;
            at_end = ap rank k.state ∙ (==_iff _ 0).0 (ground arith);
            input = k.input;
            last_token = ((run_cmds x cmds t).sink, refl);
          }
      by_rule ih (ok (go cmds (to s'))) near = Ended-from (run_cmds-Kept x cmds t).input (
          ih (run_go x (go cmds (to s')) t).1 (ground arith) (ground arith)
            (run_go-Inv x P a (go cmds (to s')) t (cmds_ok-CmdOk cmds (ground arith)) h))
      by_rule ih (ok (go cmds _)) near = cc (and-right (cmds_ok cmds) near)
