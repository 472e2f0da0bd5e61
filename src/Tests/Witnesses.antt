-- ===== src/Tests/Witnesses.antt =====
-- The theorems at concrete inputs.
use mathlib.Core.List.{map}
use html.Prelude.{
  ◌≡◌, refl, ap, length, ◌↔◌, true, false, none, some, [], ◌∷◌, codes, ok, arith, inr,
}
use html.Util.Utf8.{byte_len, bytes}
use html.Util.Str.{to_ascii_lower, eq_ignore_ascii_case, lower_ascii, lower_ascii_letter}
use html.Util.Str.Laws.{to_ascii_lower-bytes, eq_ignore_ascii_case_iff, lower_ascii_letter-eq}
use html.Util.SmallCharSet.{member, nonmember_prefix_len, small_char_set}
use html.Util.SmallCharSet.Laws.{member-small_char_set, nonmember_prefix_len-eq}
use html.BufferQueue
use html.BufferQueue.{BufferQueue, push_front, push_back, next_char}
use html.BufferQueue.View.{Holds, push_front-Holds, push_back-Holds}
use html.BufferQueue.Laws.{peek-Holds, next_char-Holds, Popped, pop_except_from-Popped}
use html.BufferQueue.Eat.{Eaten, eat-Eaten}
use html.Tokenizer.States.{after_doctype_name, attribute_name, data_state}
use html.Tokenizer.Machine
use html.Tokenizer.Machine.{Tokenizer, get_char, new_char_ref}
use html.Tokenizer.Actions.{go, emit, to, run_go}
use html.Tokenizer.CharRef.Numeric.{finish_value}
use html.Tokenizer.CharRef.Values.{
  Finished, finish_value-Finished, push_digits, push_digits-finish_value,
}
use html.Tokenizer.Dispatch.{char_rule}
use html.Tokenizer.Safety.Tokens.{Inv}
use html.Tokenizer.Safety.Checks.{char_rule_ok}
use html.Tokenizer.Safety.Rules.{char_rule-ok}
use html.Tokenizer.Safety.Commands.{run_go-Inv}
use html.Tokenizer.Safety.Reading.{Got, get_char-Got}
use html.Tokenizer.Safety.Runs.{GotSet, pop_except_from-GotSet}
use html.Tokenizer.Step.{state_loop, eof_loop}
use html.Tokenizer.Safety.Round.{Between}
use html.Tokenizer.Safety.Loop.{Settled, state_loop-Settled}
use html.Tokenizer.Safety.Ending.{Ended, eof_loop-Ended}
use html.Tokenizer.Step.{process_char_ref}
use html.Tokenizer.Safety.References.{Processed, process_char_ref-Processed}
use html.Tokenizer.Machine.{discard_char}
use html.Tokenizer.Safety.Peeking.{Discarded, discard_char-Discarded}
use html.Tests.Recorder.{recorder}
use html.Tests.Inputs.{
  empty_queue, empty-Holds, two_buffers, two_buffers-Holds, split_behind, AllGood, recorder-Accepts,
  reading, reading-Inv,
}

push_front-Holds_example : Holds (push_front two_buffers (codes "&a")) (codes "&aPublic<p")
push_front-Holds_example = push_front-Holds (codes "&a") two_buffers-Holds

push_back-Holds_example : Holds (push_back empty_queue (codes "éPub") 2) (codes "Pub")
push_back-Holds_example = push_back-Holds (codes "éPub") (codes "Pub") 2 empty-Holds split_behind

peek-Holds_example : BufferQueue.peek two_buffers ≡ ok (some b'P')
peek-Holds_example = peek-Holds two_buffers-Holds

next_char-Holds_example :
    (q : BufferQueue) × (next_char two_buffers ≡ ok (some b'P', q)) × Holds q (codes "ublic<p")
next_char-Holds_example = next_char-Holds two_buffers-Holds

pop_except_from-Popped_example :
    Popped
      (b'<' ∷ 0 ∷ [])
      (codes "Public<p")
      (BufferQueue.pop_except_from two_buffers (small_char_set (b'<' ∷ 0 ∷ [])))
pop_except_from-Popped_example =
    pop_except_from-Popped (b'<' ∷ 0 ∷ []) (omega arith, (omega arith, tt)) two_buffers-Holds

eat-Eaten_example :
    Eaten (codes "public") (codes "Public<p") (BufferQueue.eat two_buffers (codes "public"))
unfolding byte_len push_back
eat-Eaten_example = eat-Eaten (codes "public") (λ e. cc e) two_buffers-Holds (refl, tt)

member-small_char_set_example : member (small_char_set (b'&' ∷ b'<' ∷ [])) b'<' ≡ true
member-small_char_set_example =
    member-small_char_set (b'&' ∷ b'<' ∷ []) b'<' (omega arith, (omega arith, tt)) (omega arith)

nonmember_prefix_len-eq_example :
    nonmember_prefix_len (small_char_set (b'&' ∷ b'<' ∷ [])) (codes "é<") ≡ byte_len (codes "é")
nonmember_prefix_len-eq_example =
    nonmember_prefix_len-eq (b'&' ∷ b'<' ∷ []) (codes "é<") (omega arith, (omega arith, tt))

to_ascii_lower-bytes_example :
    to_ascii_lower (bytes (codes "Éa")) ≡ bytes (map lower_ascii (codes "Éa"))
to_ascii_lower-bytes_example = to_ascii_lower-bytes (codes "Éa") (omega arith, (omega arith, tt))

eq_ignore_ascii_case_iff_example :
    (eq_ignore_ascii_case (b'A' ∷ []) (b'a' ∷ []) ≡ true)
    ↔ (to_ascii_lower (b'A' ∷ []) ≡ to_ascii_lower (b'a' ∷ []))
eq_ignore_ascii_case_iff_example = eq_ignore_ascii_case_iff (b'A' ∷ []) (b'a' ∷ [])

lower_ascii_letter-eq_example : lower_ascii_letter b'Z' ≡ some b'z'
lower_ascii_letter-eq_example = lower_ascii_letter-eq b'Z'

finish_value-Finished_example : Finished (finish_value 0x81 false)
finish_value-Finished_example = finish_value-Finished 0x81 false

push_digits-finish_value_example :
    (let r = push_digits (new_char_ref none) 16 (8 ∷ 0 ∷ []) in finish_value r.num r.num_too_big)
    ≡ finish_value 0x80 false
push_digits-finish_value_example =
    push_digits-finish_value 16 (8 ∷ 0 ∷ []) none (inr refl) (omega arith, (omega arith, tt))

char_rule-ok_example :
    char_rule_ok attribute_name (char_rule attribute_name false false b'A') ≡ true
char_rule-ok_example = char_rule-ok attribute_name false false b'A'

run_go-Inv_example :
    Inv recorder AllGood (run_go recorder (go (emit b'x' ∷ []) (to data_state)) reading).1
run_go-Inv_example =
    run_go-Inv recorder AllGood recorder-Accepts (go (emit b'x' ∷ []) (to data_state)) reading
      (tt, tt) reading-Inv

get_char-Got_example : Got recorder AllGood reading (get_char recorder reading)
get_char-Got_example = get_char-Got recorder AllGood recorder-Accepts reading reading-Inv

pop_except_from-GotSet_example :
    GotSet recorder AllGood reading
      (Machine.pop_except_from recorder reading (small_char_set (b'\r' ∷ 0 ∷ b'<' ∷ [])))
pop_except_from-GotSet_example =
    pop_except_from-GotSet recorder AllGood recorder-Accepts (b'\r' ∷ 0 ∷ b'<' ∷ []) reading
      (omega arith, (omega arith, (omega arith, tt))) refl reading-Inv

-- In the state that looks for a keyword.
abbrev at_keyword : Tokenizer recorder
at_keyword = record reading { state = after_doctype_name }

at_keyword-Between : Between recorder AllGood at_keyword
unfolding Machine.new
at_keyword-Between = record { inv = assumption reading-Inv; live = refl; free = refl }

state_loop-Settled_example :
    Settled recorder AllGood (state_loop recorder 20 after_doctype_name at_keyword)
unfolding Machine.new byte_len push_back
state_loop-Settled_example =
    state_loop-Settled recorder AllGood recorder-Accepts 20 at_keyword (λ e. (refl, tt))
      at_keyword-Between (omega (arith, ap length two_buffers-Holds.holds))

eof_loop-Ended_example : Ended recorder AllGood reading (eof_loop recorder 4 reading)
unfolding Machine.new
eof_loop-Ended_example =
    eof_loop-Ended recorder AllGood recorder-Accepts 4 reading (omega arith) refl reading-Inv

process_char_ref-Processed_example :
    Processed recorder AllGood reading
      (process_char_ref recorder (record { char0 = b'<'; char1 = 0x338; num_chars = 2 }) reading)
unfolding Machine.new
process_char_ref-Processed_example =
    process_char_ref-Processed recorder AllGood recorder-Accepts
      (record { char0 = b'<'; char1 = 0x338; num_chars = 2 }) reading
      (record {
        few = omega arith;
        first = λ h e. omega (arith, e);
        second = λ h e. omega (arith, e);
      })
      refl reading-Inv

discard_char-Discarded_example : Discarded recorder AllGood reading (discard_char recorder reading)
unfolding Machine.new Machine.peek
discard_char-Discarded_example =
    discard_char-Discarded recorder AllGood recorder-Accepts reading b'P'
      (peek-Holds two_buffers-Holds) (λ e. omega (arith, e)) reading-Inv
