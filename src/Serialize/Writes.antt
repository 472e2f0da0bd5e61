-- ===== src/Serialize/Writes.antt =====
-- What a method of the serializer writes, for a writer that keeps what it has accepted.
use html.Prelude.{
  ℕ, ◌≡◌, List, [], ◌∷◌, ◌++◌, Text, Checked, ok, panic, ◌>>=◌, append_assoc, append-nil, refl,
  subst, Bool, true, false, if◌then◌else◌, sym,
}
use html.Names.{Atoms}
use html.Serialize.{
  Output, IoResult, okay, err, SerializeOpts, ElemInfo, Serializer, Method, done, and_then, ◌>>◌,
  put_str, put_char, written,
}

-- A write either puts the text behind what the writer has, or fails.
abbrev pub Wrote :
    (o : Output)
    → (o.Writer → Text → Type 0)
    → (o.Writer → o.IoError → Type 0)
    → IoResult o.IoError × o.Writer
    → Text
    → Type 0
Wrote o Has Failed (okay, w) text = Has w text
Wrote o Has Failed (err e, w) text = Failed w e

pub record IsWriter (o : Output) (Has : o.Writer → Text → Type 0)
    (Failed : o.Writer → o.IoError → Type 0) : Type 0 where
  pub str_ok :
      (w : o.Writer) (text more : Text)
      → Has w text
      → Wrote o Has Failed (o.write_str w more) (text ++ more)
  pub char_ok :
      (w : o.Writer) (text : Text) (c : ℕ)
      → Has w text
      → Wrote o Has Failed (o.write_char w c) (text ++ c ∷ [])

-- The serializer with that writer.
abbrev pub with_writer :
    {o : Output} {a : Atoms} → SerializeOpts → List (ElemInfo a.Atom) → o.Writer → Serializer o a
with_writer opts stack w = record { writer = w; opts = opts; stack = stack }

module _ (o : Output) (a : Atoms) (Has : o.Writer → Text → Type 0)
    (Failed : o.Writer → o.IoError → Type 0) where
  -- A serializer that has written a text.
  pub record At (opts : SerializeOpts) (stack : List (ElemInfo a.Atom)) (text : Text)
      (s : Serializer o a) : Type 0 where
    pub has : Has s.writer text
    pub same : s ≡ with_writer opts stack s.writer

  -- A method has returned: at that text, or with the error of the first write that failed.
  unfoldable pub Ends :
      SerializeOpts
      → List (ElemInfo a.Atom)
      → Text
      → Checked (IoResult o.IoError × Serializer o a)
      → Type 0
  Ends opts stack text (ok (okay, s)) = At opts stack text s
  Ends opts stack text (ok (err e, s)) = Failed s.writer e
  Ends opts stack text panic = ⊥

  -- A method that writes a text under these options, and changes the stack.
  pub record Steps (opts : SerializeOpts) (stack stack' : List (ElemInfo a.Atom)) (more : Text)
      (m : Method o a) : Type 0 where
    pub run :
        (text : Text) (w : o.Writer)
        → Has w text
        → Ends opts stack' (text ++ more) (m (with_writer opts stack w))

  after_step :
      (opts : SerializeOpts) (stack stack' : List (ElemInfo a.Atom)) (text text' : Text)
      (r : Checked (IoResult o.IoError × Serializer o a)) (next : Method o a)
      → Ends opts stack text r
      → ((w : o.Writer) → Has w text → Ends opts stack' text' (next (with_writer opts stack w)))
      → Ends opts stack' text' (r >>= and_then next)
  unfolding Ends
  after_step opts stack stack' text text' (ok (okay, s)) next h k =
      subst (λ x. Ends opts stack' text' (next x)) (sym h.same) (k s.writer h.has)
  after_step opts stack stack' text text' (ok (err e, s)) next h k = h
  after_step opts stack stack' text text' panic next h k = absurd h

  written_ends :
      (opts : SerializeOpts) (stack : List (ElemInfo a.Atom)) (text : Text) (w : o.Writer)
      (r : IoResult o.IoError × o.Writer)
      → Wrote o Has Failed r text
      → Ends opts stack text (ok (written (with_writer opts stack w) r))
  unfolding Ends
  written_ends opts stack text w (okay, w') h = record { has = h; same = refl }
  written_ends opts stack text w (err e, w') h = h

module _ {o : Output} {a : Atoms} {Has : o.Writer → Text → Type 0}
    {Failed : o.Writer → o.IoError → Type 0} where
  pub >>-Steps :
      {opts : SerializeOpts} {stack stack' stack'' : List (ElemInfo a.Atom)} {x y : Text}
      {m n : Method o a}
      → Steps o a Has Failed opts stack stack' x m
      → Steps o a Has Failed opts stack' stack'' y n
      → Steps o a Has Failed opts stack stack'' (x ++ y) (m >> n)
  >>-Steps {opts} {stack} {stack'} {stack''} {x} {y} {m} {n} h k = record {
    run = λ text w at.
        after_step o a Has Failed opts stack' stack'' (text ++ x) (text ++ (x ++ y))
          (m (with_writer opts stack w)) n (h.run text w at)
          (λ w' at'. rw (sym (append_assoc text x y)) (k.run (text ++ x) w' at'));
  }

  -- A method that changes the stack only.
  pub stack-Steps :
      (opts : SerializeOpts) (stack stack' : List (ElemInfo a.Atom)) (m : Method o a)
      → ((w : o.Writer) → m (with_writer opts stack w) ≡ ok (okay, with_writer opts stack' w))
      → Steps o a Has Failed opts stack stack' [] m
  unfolding Ends
  stack-Steps opts stack stack' m e = record {
    run = λ text w at. rw (append-nil text) (
        subst (Ends o a Has Failed opts stack' text) (sym (e w))
          (record { has = at; same = refl }));
  }

  pub done-Steps :
      {opts : SerializeOpts} {stack : List (ElemInfo a.Atom)}
      → Steps o a Has Failed opts stack stack [] done
  done-Steps {opts} {stack} = stack-Steps opts stack stack done (λ w. refl)

  pub if-Steps :
      {opts : SerializeOpts} {stack stack' : List (ElemInfo a.Atom)} {x y : Text} {m n : Method o a}
      (b : Bool)
      → Steps o a Has Failed opts stack stack' x m
      → Steps o a Has Failed opts stack stack' y n
      → Steps o a Has Failed opts stack stack' (if b then x else y) (if b then m else n)
  if-Steps true h k = h
  if-Steps false h k = k

  module _ (writer : IsWriter o Has Failed) where
    pub put_str-Steps :
        {opts : SerializeOpts} {stack : List (ElemInfo a.Atom)} (more : Text)
        → Steps o a Has Failed opts stack stack more (put_str o a more)
    unfolding put_str
    put_str-Steps {opts} {stack} more = record {
      run = λ text w at.
          written_ends o a Has Failed opts stack (text ++ more) w (o.write_str w more)
            (writer.str_ok w text more at);
    }

    pub put_char-Steps :
        {opts : SerializeOpts} {stack : List (ElemInfo a.Atom)} (c : ℕ)
        → Steps o a Has Failed opts stack stack (c ∷ []) (put_char o a c)
    unfolding put_char
    put_char-Steps {opts} {stack} c = record {
      run = λ text w at.
          written_ends o a Has Failed opts stack (text ++ c ∷ []) w (o.write_char w c)
            (writer.char_ok w text c at);
    }
