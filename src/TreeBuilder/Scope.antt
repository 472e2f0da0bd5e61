-- ===== src/TreeBuilder/Scope.antt =====
-- src/tree_builder/actions.rs: what the loops over the stack of open elements find and leave.
use html.Prelude.{
  ℕ, suc, ◌≡◌, refl, ap, ◌⊎◌, inl, inr, Bool, true, false, List, [], ◌∷◌, ◌++◌, Checked, ok, All,
  length, arith, Bool-cases, bind-ok, if-taken, if-skipped,
}
use html.Tokenizer.Interface.{QualName}
use html.Names.{Atoms}
use html.TreeBuilder.TagSets.{TagSet}
use html.TreeBuilder.Interface.{TreeSink}
use html.TreeBuilder.Stack.{in_scope_loop, implied_end_loop, pop_until_loop}

-- The first element of a list, if there is one.
abbrev pub first_of : {A : Type 0} → List A → List A
first_of [] = []
first_of (h ∷ rest) = h ∷ []

module _ {a : Atoms} (x : TreeSink a) (s : x.Sink) (named : x.Handle → QualName a.Atom) where
  open x use {Handle, elem_name}

  -- The sink knows the names of the elements.
  abbrev pub AreNamed : List Handle → Type 0
  AreNamed stack = All (λ h. elem_name s h ≡ ok (named h)) stack

  -- An element that passes the test, with no boundary of the scope above it.
  pub record InScope (scope : TagSet a) (test : Handle → Bool) (stack : List Handle) : Type 0 where
    pub above : List Handle
    pub target : Handle
    pub below : List Handle
    pub splits : stack ≡ above ++ target ∷ below
    pub passes : test target ≡ true
    pub open_above : All (λ h. scope (named h) ≡ false) above

  module _ (scope : TagSet a) (pred : Handle → Checked Bool) (test : Handle → Bool)
      (tests : (h : Handle) → elem_name s h ≡ ok (named h) → pred h ≡ ok (test h)) where
    scope_split :
        (h : Handle) (rest above : List Handle) (target : Handle) (below : List Handle)
        → (h ∷ rest) ≡ above ++ target ∷ below
        → test target ≡ true
        → All (λ h. scope (named h) ≡ false) above
        → (test h ≡ true) ⊎ ((scope (named h) ≡ false) × InScope scope test rest)
    scope_split h rest [] target below e passes clear = let f : h ≡ target = cc in inl (rw f passes)
    scope_split h rest (k ∷ above) target below e passes (clear, clears) =
        let f : h ≡ k = cc in
        let g : rest ≡ above ++ target ∷ below = cc in
        inr (
          rw f clear,
          record {
            above = above;
            target = target;
            below = below;
            splits = g;
            passes = passes;
            open_above = clears;
          },
        )

    InScope-step :
        (h : Handle) (rest : List Handle)
        → InScope scope test (h ∷ rest)
        → (test h ≡ true) ⊎ ((scope (named h) ≡ false) × InScope scope test rest)
    InScope-step h rest found =
        scope_split h rest found.above found.target found.below found.splits found.passes
          found.open_above

    InScope-nil : InScope scope test [] → ⊥
    InScope-nil found = nil_splits found.target found.below found.above found.splits
      where
        nil_splits : (t : Handle) (below above : List Handle) → [] ≡ above ++ t ∷ below → ⊥
        nil_splits t below [] e = absurd (ground (arith, e))
        nil_splits t below (k ∷ above) e = absurd (ground (arith, e))

    -- For a stack of open elements whose names the sink knows and a test that returns a value on
    -- every one, the loop of in_scope answers true if an element of the stack passes the test and
    -- no element above it is in the scope, and false if there is no such element.
    pub in_scope_loop-cases :
        (stack : List Handle)
        → AreNamed stack
        → ((in_scope_loop x s scope pred stack ≡ ok true) × InScope scope test stack)
          ⊎ ((in_scope_loop x s scope pred stack ≡ ok false) × (InScope scope test stack → ⊥))
    unfolding in_scope_loop
    in_scope_loop-cases [] names = inr (refl, InScope-nil)
    in_scope_loop-cases (h ∷ rest) (name, names) = elim (Bool-cases (test h)) [
      | inl e ↦ inl (
        bind-ok _ (tests h name) (if-taken (λ r. r ≡ ok true) _ e refl),
        record { above = []; target = h; below = rest; splits = refl; passes = e; open_above = tt },
      )
      | inr e ↦ elim (Bool-cases (scope (named h))) [
        | inl f ↦ inr (
          bind-ok _ (tests h name) (
              if-skipped (λ r. r ≡ ok false) _ e
                (bind-ok _ name (if-taken (λ r. r ≡ ok false) _ f refl))),
          λ found. elim (InScope-step h rest found) [
            | inl g ↦ absurd (ground (arith, e, g))
            | inr g ↦ absurd (ground (arith, f, g.0))
          ],
        )
        | inr f ↦ elim (in_scope_loop-cases rest names) [
          | inl (g, found) ↦ inl (
            bind-ok _ (tests h name) (
                if-skipped (λ r. r ≡ ok true) _ e
                  (bind-ok _ name (if-skipped (λ r. r ≡ ok true) _ f g))),
            record {
              above = h ∷ found.above;
              target = found.target;
              below = found.below;
              splits = ap (λ l. h ∷ l) found.splits;
              passes = found.passes;
              open_above = (f, found.open_above);
            },
          )
          | inr (g, lost) ↦ inr (
            bind-ok _ (tests h name) (
                if-skipped (λ r. r ≡ ok false) _ e
                  (bind-ok _ name (if-skipped (λ r. r ≡ ok false) _ f g))),
            λ found. elim (InScope-step h rest found) [
              | inl k ↦ absurd (ground (arith, e, k))
              | inr k ↦ lost k.1
            ],
          )
        ]
      ]
    ]

  -- What a loop pops that goes on while the names are in a set.
  pub record Implied (set : TagSet a) (stack rest : List Handle) : Type 0 where
    pub popped : List Handle
    pub splits : stack ≡ popped ++ rest
    pub implied : All (λ h. set (named h) ≡ true) popped

  -- For a stack of open elements whose names the sink knows, the loop of generate_implied_end
  -- returns without a panic. The names of the elements that it pops are in the set, and the name
  -- of the element on top of what it leaves is not.
  pub implied_end_loop-Implied :
      (set : TagSet a) (stack : List Handle)
      → AreNamed stack
      → (rest : List Handle) × (implied_end_loop x s set stack ≡ ok rest)
        × Implied set stack rest
        × All (λ h. set (named h) ≡ false) (first_of rest)
  unfolding implied_end_loop
  implied_end_loop-Implied set [] names =
      ([], refl, record { popped = []; splits = refl; implied = tt }, tt)
  implied_end_loop-Implied set (h ∷ stack) (name, names) = elim (Bool-cases (set (named h))) [
    | inl e ↦
        let (rest, f, popped, stops) = implied_end_loop-Implied set stack names in
        (
          rest,
          bind-ok _ name (if-taken (λ r. r ≡ ok rest) _ e f),
          record {
            popped = h ∷ popped.popped;
            splits = ap (λ l. h ∷ l) popped.splits;
            implied = (e, popped.implied);
          },
          stops,
        )
    | inr e ↦ (
      h ∷ stack,
      bind-ok _ name (if-skipped (λ r. r ≡ ok (h ∷ stack)) _ e refl),
      record { popped = []; splits = refl; implied = tt },
      (e, tt),
    )
  ]

  -- What is popped up to the first element in a set, if there is one.
  pub record PoppedTo (pred : TagSet a) (stack : List Handle) (n : ℕ) (rest : List Handle)
      : Type 0 where
    pub above : List Handle
    pub target : Handle
    pub splits : stack ≡ above ++ target ∷ rest
    pub in_set : pred (named target) ≡ true
    pub none_above : All (λ h. pred (named h) ≡ false) above
    pub counted : n ≡ suc (length above)

  pub pop_until_loop-cases :
      (pred : TagSet a) (stack : List Handle)
      → AreNamed stack
      → (n : ℕ) × (rest : List Handle) × (pop_until_loop x s pred stack ≡ ok (n, rest))
        × (PoppedTo pred stack n rest
            ⊎ ((rest ≡ []) × (n ≡ suc (length stack)) × All (λ h. pred (named h) ≡ false) stack))
  unfolding pop_until_loop
  pop_until_loop-cases pred [] names = (1, [], refl, inr (refl, refl, tt))
  pop_until_loop-cases pred (h ∷ stack) (name, names) = elim (Bool-cases (pred (named h))) [
    | inl e ↦ (
      1,
      stack,
      bind-ok _ name (if-taken (λ r. r ≡ ok (1, stack)) _ e refl),
      inl (record {
        above = [];
        target = h;
        splits = refl;
        in_set = e;
        none_above = tt;
        counted = refl;
      }),
    )
    | inr e ↦
        let (n, rest, f, found) = pop_until_loop-cases pred stack names in
        (
          suc n,
          rest,
          bind-ok _ name (if-skipped (λ r. r ≡ ok (suc n, rest)) _ e (bind-ok _ f refl)),
          elim found [
            | inl to ↦ inl (record {
              above = h ∷ to.above;
              target = to.target;
              splits = ap (λ l. h ∷ l) to.splits;
              in_set = to.in_set;
              none_above = (e, to.none_above);
              counted = ap suc to.counted;
            })
            | inr (g, k, all) ↦ inr (g, ap suc k, (e, all))
          ],
        )
  ]
