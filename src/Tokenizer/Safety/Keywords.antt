-- ===== src/Tokenizer/Safety/Keywords.antt =====
-- The states that look for a keyword.
use html.Prelude.{
  ℕ, zero, suc, ◌≤◌, ◌≡◌, ◌≢◌, refl, ap, ◌∙◌, Bool, true, false, Option, none, some, List, [], ◌∷◌,
  Text, codes, drop, length, Checked, ok, arith,
}
use html.BufferQueue
use html.BufferQueue.View.{chars}
use html.BufferQueue.Cursor.{match_prefix, after_match}
use html.BufferQueue.Eat.{Eaten, eat-Eaten}
use html.Tokenizer.States.{
  State, after_doctype_name, after_doctype_keyword, public, system, comment_start, doctype,
  bogus_comment,
}
use html.Tokenizer.Interface.{Externals}
use html.Tokenizer.Machine
use html.Tokenizer.Machine.{Tokenizer, at_end}
use html.Tokenizer.Actions.{Cmd, go, to, clear_comment, error, Flow, run_go, run_exit}
use html.Tokenizer.Dispatch.{reader}
use html.Tokenizer.Step.{round_char, round_keyword, eat_then}
use html.Tokenizer.Safety.Tokens.{Accepts}
use html.Tokenizer.Safety.Checks.{rule_ok, implemented}
use html.Tokenizer.Safety.Fresh.{InputFresh, get_char-ReadFresh}
use html.Tokenizer.Safety.Reading.{ReadsTo, get_char-Got}
use html.Tokenizer.Safety.Runs.{popped-ReadsTo}
use html.Tokenizer.Safety.Moves.{run_go-Moved}
use html.Tokenizer.Safety.Round.{Between, Rounded, stuck-Rounded, on_char-Rounded}

length-drop : (n : ℕ) (s : Text) → length (drop n s) ≤ length s
length-drop zero s = omega arith
length-drop (suc n) [] = omega arith
length-drop (suc n) (c ∷ s) = omega (arith, length-drop n s)

length-after_match : (pat s : Text) → length (after_match pat s) ≤ length s
length-after_match pat s = by_answer (match_prefix pat s)
  where
    by_answer :
        (o : Option Bool)
        → length (elim o as (λ o. Text) [ some true ↦ drop (length pat) s | _ ↦ s ]) ≤ length s
    by_answer none = omega arith
    by_answer (some false) = omega arith
    by_answer (some true) = length-drop (length pat) s

module _ (x : Externals) (P : x.Sink → Type 0) (a : Accepts x P) where
  -- A keyword was found: its rule leaves the state.
  leave-Rounded :
      (t u : Tokenizer x) (cmds : List Cmd) (s : State)
      → Between x P t
      → ReadsTo x P t 0 u
      → rule_ok t.state (go cmds (to s)) ≡ true
      → Rounded x P t (ok (run_go x (go cmds (to s)) u))
  unfolding run_go run_exit
  leave-Rounded t u cmds s h r ok_g =
      let m =
        run_go-Moved x P a (go cmds (to s)) u ok_g (ap implemented r.same_state ∙ h.live)
          (r.same_ref ∙ h.free) r.inv in
      record {
        flow = (run_go x (go cmds (to s)) u).0;
        after = (run_go x (go cmds (to s)) u).1;
        returns = refl;
        ready = m.ready;
        loops = λ e. cc e;
      }

  -- What came before used no input up.
  Rounded-from :
      {t u : Tokenizer x} {out : Checked (Flow × Tokenizer x)}
      → ReadsTo x P t 0 u
      → Rounded x P u out
      → Rounded x P t out
  Rounded-from r d = record {
    flow = d.flow;
    after = d.after;
    returns = d.returns;
    ready = d.ready;
    loops = λ e.
        (let (s, free, less, fresh) = d.loops e in
          (
            s ∙ r.same_state,
            free,
            omega (arith, r.spends, less),
            λ k. fresh (ap reader r.same_state ∙ k),
          ));
  }

  Between-from : {t u : Tokenizer x} → Between x P t → ReadsTo x P t 0 u → Between x P u
  Between-from h r = record {
    inv = r.inv;
    live = ap implemented r.same_state ∙ h.live;
    free = r.same_ref ∙ h.free;
  }

  -- Looking for a keyword.
  eat_then-Rounded :
      (pat : Text) (cmds : List Cmd) (s : State)
      (missing : Tokenizer x → Checked (Flow × Tokenizer x)) (t : Tokenizer x)
      → pat ≢ []
      → Between x P t
      → InputFresh x t
      → rule_ok t.state (go cmds (to s)) ≡ true
      → ((u : Tokenizer x) → ReadsTo x P t 0 u → InputFresh x u → Rounded x P t (missing u))
      → Rounded x P t (eat_then x pat (go cmds (to s)) missing t)
  unfolding eat_then Machine.eat
  eat_then-Rounded pat cmds s missing t ne h fresh ok_g k =
      let e : Eaten pat (chars t.input_buffers) (BufferQueue.eat t.input_buffers pat) =
        eat-Eaten pat ne (record { valid = h.inv.input_ok; holds = refl }) fresh in
      let u : Tokenizer x = record t { input_buffers = e.queue } in
      let r : ReadsTo x P t 0 u =
        popped-ReadsTo x P a t e.queue (after_match pat (chars t.input_buffers)) 0 h.inv e.keeps
          (omega (arith, length-after_match pat (chars t.input_buffers))) in
      rw e.returns
        (by_answer (at_end x t.at_eof (match_prefix pat (chars t.input_buffers))) u r e.fresh)
    where
      by_answer :
          (o : Option Bool) (u : Tokenizer x)
          → ReadsTo x P t 0 u
          → InputFresh x u
          → Rounded x P t (elim o [
            | none ↦ ok (Flow.returns false, u)
            | some true ↦ ok (run_go x (go cmds (to s)) u)
            | some false ↦ missing u
          ])
      by_answer none u r f = stuck-Rounded x P a t u 0 h r
      by_answer (some true) u r f = leave-Rounded t u cmds s h r ok_g
      by_answer (some false) u r f = k u r f

  pub round_keyword-Rounded :
      (s : State) (t : Tokenizer x)
      → t.state ≡ s
      → Between x P t
      → InputFresh x t
      → Rounded x P t (round_keyword x s t)
  unfolding round_keyword round_char
  round_keyword-Rounded after_doctype_name t e h f =
      eat_then-Rounded (codes "public") [] (after_doctype_keyword public) _ t (λ n. cc n) h f refl
        (λ u r f'. Rounded-from r (
          eat_then-Rounded (codes "system") [] (after_doctype_keyword system) _ u (λ n. cc n)
            (Between-from h r) f' refl
            (λ v r' f''. Rounded-from r' (
              let hv = Between-from (Between-from h r) r' in
              rw (← (r'.same_state ∙ r.same_state ∙ e)) (
                on_char-Rounded x P a v hv (λ _. get_char-ReadFresh x v f'')
                  (get_char-Got x P a v hv.inv))))))
  round_keyword-Rounded _ t e h f =
      eat_then-Rounded (codes "--") (clear_comment ∷ []) comment_start _ t (λ n. cc n) h f refl
        (λ u r f'. Rounded-from r (
          eat_then-Rounded (codes "doctype") [] doctype _ u (λ n. cc n) (Between-from h r) f' refl
            (λ v r' f''. leave-Rounded u v (error ∷ []) bogus_comment (Between-from h r) r' refl)))
