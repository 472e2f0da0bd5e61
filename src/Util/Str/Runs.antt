-- ===== src/Util/Str/Runs.antt =====
-- src/util/str.rs, `char_run`: the run is as long as it can be.
use html.Prelude.{
  ℕ, ◌+◌, ◌≡◌, ◌≢◌, refl, ap, sym, ◌∙◌, ◌⊎◌, inl, inr, Bool, true, false, not, none, some, [], ◌∷◌,
  ◌++◌, Text, All, arith, append-nil, Bool-cases,
}
use html.Util.Utf8.{utf8_len, byte_len}
use html.Util.Str.{bool_eq, change_at, char_run}

-- A text that is empty, or starts with a character for which the predicate has another value.
abbrev pub Changes : (ℕ → Bool) → Bool → Text → Type 0
Changes pred m [] = Unit
Changes pred m (c ∷ s) = pred c ≡ not m

pub record Run (pred : ℕ → Bool) (s : Text) (len : ℕ) (m : Bool) : Type 0 where
  pub run : Text
  pub rest : Text
  pub splits : s ≡ run ++ rest
  pub some_run : run ≢ []
  pub measured : len ≡ byte_len run
  pub uniform : All (λ c. pred c ≡ m) run
  pub ends : Changes pred m rest

bool_eq-true : (m b : Bool) → bool_eq m b ≡ true → b ≡ m
unfolding bool_eq
bool_eq-true true b e = e
bool_eq-true false b e = ground (arith, e)

bool_eq-false : (m b : Bool) → bool_eq m b ≡ false → b ≡ not m
unfolding bool_eq
bool_eq-false true b e = e
bool_eq-false false b e = ground (arith, e)

module _ (pred : ℕ → Bool) (m : Bool) where
  -- Where the predicate changes in a text.
  record Change (idx : ℕ) (s : Text) : Type 0 where
    pub front : Text
    pub back : Text
    pub splits : s ≡ front ++ back
    pub changes : change_at pred m idx s ≡ some (idx + byte_len front)
    pub uniform : All (λ c. pred c ≡ m) front
    pub ends : Changes pred m back

  change_at-cases :
      (idx : ℕ) (s : Text)
      → ((change_at pred m idx s ≡ none) × All (λ c. pred c ≡ m) s) ⊎ Change idx s
  unfolding change_at byte_len
  change_at-cases idx [] = inl (refl, tt)
  change_at-cases idx (c ∷ s) = elim (Bool-cases (bool_eq m (pred c))) [
    | inr e ↦ inr (record {
      front = [];
      back = c ∷ s;
      splits = refl;
      changes = rw e (ap some (omega arith));
      uniform = tt;
      ends = bool_eq-false m (pred c) e;
    })
    | inl e ↦ elim (change_at-cases (idx + utf8_len c) s) [
      | inl (f, all) ↦ inl (rw e f, (bool_eq-true m (pred c) e, all))
      | inr later ↦ inr (record {
        front = c ∷ later.front;
        back = later.back;
        splits = ap (λ l. c ∷ l) later.splits;
        changes = rw e (later.changes ∙ ap some (omega arith));
        uniform = (bool_eq-true m (pred c) e, later.uniform);
        ends = later.ends;
      })
    ]
  ]

-- For every predicate, char_run returns nothing on the empty string. On any other string it
-- returns the length in bytes of a start that is not empty, on which the predicate has one value,
-- the value, and what follows is empty or starts with a character for which the predicate has the
-- other value.
pub char_run-Run :
    (pred : ℕ → Bool) (s : Text)
    → ((s ≡ []) × (char_run pred s ≡ none))
      ⊎ ((len : ℕ) × (m : Bool) × (char_run pred s ≡ some (len, m)) × Run pred s len m)
unfolding char_run byte_len
char_run-Run pred [] = inl (refl, refl)
char_run-Run pred (c ∷ s) = elim (change_at-cases pred (pred c) 0 s) [
  | inl (e, all) ↦ inr (
    byte_len (c ∷ s),
    pred c,
    rw (e, char_run) refl,
    record {
      run = c ∷ s;
      rest = [];
      splits = sym (append-nil (c ∷ s));
      some_run = λ e. ground (arith, e);
      measured = refl;
      uniform = (refl, all);
      ends = tt;
    },
  )
  | inr at ↦ inr (
    0 + byte_len at.front + utf8_len c,
    pred c,
    rw (at.changes, char_run) refl,
    record {
      run = c ∷ at.front;
      rest = at.back;
      splits = ap (λ l. c ∷ l) at.splits;
      some_run = λ e. ground (arith, e);
      measured = omega arith;
      uniform = (refl, at.uniform);
      ends = at.ends;
    },
  )
]
