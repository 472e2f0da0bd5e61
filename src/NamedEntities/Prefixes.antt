-- ===== src/NamedEntities/Prefixes.antt =====
-- macros/src/named_entities.rs: the loops of build_map that insert the missing prefixes.
use html.Prelude.{
  ℕ, zero, suc, ◌+◌, ◌-◌, ◌<◌, ◌≤◌, ◌≡◌, ◌≢◌, refl, sym, ◌∙◌, ap, subst, ◌⊎◌, inl, inr, true, false,
  none, some, List, [], ◌∷◌, ◌++◌, if◌then◌else◌, ◌==◌, Text, text_eq, text_eq-eq, contains_text,
  All, ok, bind-ok, arith, Bool-cases, Option-cases, ltb, le→ltb, ok-injective, ◌||◌,
}
use html.Util.Utf8.{byte_len, slice_to, utf8_len, slice_to-append, byte_len-append, byte_len-pos}
use html.NamedEntities.{
  Pair, Map, lookup, insert, contains_key, keys, add_prefix, add_prefixes, add_missing,
}

abbrev pub IsAscii : Text → Type 0
IsAscii = All (λ c. c < 128)

-- A name that the table has.
abbrev pub Has : Map → Text → Type 0
Has m q = (p : Pair) × (lookup m q ≡ some p)

pub text_eq_refl : (s : Text) → text_eq s s ≡ true
text_eq_refl [] = refl
text_eq_refl (c ∷ s) = ground (arith, text_eq_refl s)

slice_to-cons :
    (c : ℕ) (s : Text) (n : ℕ) (p : Text)
    → (n == 0) ≡ false
    → utf8_len c ≤ n
    → slice_to s (n - utf8_len c) ≡ ok p
    → slice_to (c ∷ s) n ≡ ok (c ∷ p)
unfolding slice_to
slice_to-cons c s n p e le f =
    let g : ltb n (utf8_len c) ≡ false = le→ltb n (utf8_len c) le in rw (e, g, f) refl

-- Every place in an ASCII text is a boundary.
slice_to-ascii :
    (s : Text) (n : ℕ)
    → IsAscii s
    → n ≤ byte_len s
    → (p : Text) × (t : Text) × (slice_to s n ≡ ok p) × (s ≡ p ++ t)
unfolding slice_to byte_len
slice_to-ascii [] n h le = ([], [], ground arith, refl)
slice_to-ascii (c ∷ s) n h le = elim (Bool-cases (n == 0)) [
  | inl e ↦ ([], c ∷ s, rw e refl, refl)
  | inr e ↦
      let one : utf8_len c ≡ 1 = ground (arith, h.0) in
      let pos : 0 < n = ground arith in
      let r = slice_to-ascii s (n - utf8_len c) h.1 (omega arith) in
      (c ∷ r.0, r.1, slice_to-cons c s n r.0 e (omega arith) r.2, ap (λ l. c ∷ l) r.3)
]

-- A name of a map is among its keys.
pub Has-keys : (m : Map) (q : Text) → Has m q → contains_text (keys m) q ≡ true
unfolding lookup keys
Has-keys [] q h = ground (arith, h.1)
Has-keys (e ∷ m) q h = elim (Bool-cases (text_eq q e.0)) [
  | inl f ↦ rw f refl
  | inr f ↦
      rw f (Has-keys m q (h.0, subst (λ b. (if b then some e.1 else lookup m q) ≡ some h.0) f h.1))
]

contains_key-eq :
    (m : Map) (q : Text) → contains_key m q ≡ elim (lookup m q) [ none ↦ false | some p ↦ true ]
unfolding contains_key
contains_key-eq m q = refl

module _ (base : Map) where
  -- The start of a name of the map.
  abbrev pub IsPrefix : Text → Type 0
  IsPrefix q = (t : Text) × Has base (q ++ t)

  -- What a map may gain: starts of names, with a pair of zeros.
  abbrev pub Grown : Map → Map → Type 0
  Grown m m' =
      (q : Text)
      → (lookup m' q ≡ lookup m q)
        ⊎ ((lookup m q ≡ none) × (lookup m' q ≡ some (0, 0)) × IsPrefix q)

  pub Grown-refl : (m : Map) → Grown m m
  Grown-refl m q = inl refl

  pub Grown-trans : (k m n : Map) → Grown k m → Grown m n → Grown k n
  Grown-trans k m n f g q = elim (f q) [
    | inl d ↦ elim (g q) [ inl e ↦ inl (e ∙ d) | inr e ↦ inr (sym d ∙ e.0, e.1, e.2) ]
    | inr d ↦ elim (g q) [ inl e ↦ inr (d.0, e ∙ d.1, d.2) | inr e ↦ inr (d.0, e.1, d.2) ]
  ]

  pub Has-Grown : (m m' : Map) (q : Text) → Grown m m' → Has m q → Has m' q
  Has-Grown m m' q f h = elim (f q) [ inl e ↦ (h.0, e ∙ h.1) | inr e ↦ ((0, 0), e.1) ]

  add_prefix-ok :
      (k p t : Text) (n : ℕ) (m : Map)
      → slice_to k n ≡ ok p
      → k ≡ p ++ t
      → Has base k
      → (m' : Map) × (add_prefix k n m ≡ ok m') × Grown m m' × Has m' p
  unfolding add_prefix insert lookup
  add_prefix-ok k p t n m e f h = elim (Option-cases (lookup m p)) [
    | inr v ↦ (m, bind-ok _ e (rw (contains_key-eq m p, v.1) refl), Grown-refl m, (v.0, v.1))
    | inl g ↦ (
      (p, (0, 0)) ∷ m,
      bind-ok _ e (rw (contains_key-eq m p, g) refl),
      λ q. elim (Bool-cases (text_eq q p)) [
        | inl b ↦
            let same : q ≡ p = text_eq-eq q p b in
            inr (
              ap (lookup m) same ∙ g,
              rw b refl,
              (t, subst (Has base) (f ∙ ap (λ l. l ++ t) (sym same)) h),
            )
        | inr b ↦ inl (rw b refl)
      ],
      ((0, 0), rw (text_eq_refl p) refl),
    )
  ]

  -- The names that a loop over the lengths has put in.
  abbrev Covers : Text → ℕ → ℕ → Map → Type 0
  Covers k n count m = (p t : Text) → k ≡ p ++ t → n ≤ byte_len p → byte_len p < n + count → Has m p

  add_prefixes-ok :
      (k : Text) (count n : ℕ) (m : Map)
      → Has base k
      → IsAscii k
      → n + count ≤ byte_len k + 1
      → (m' : Map) × (add_prefixes k count n m ≡ ok m') × Grown m m' × Covers k n count m'
  unfolding add_prefixes
  add_prefixes-ok k zero n m h ascii le =
      (m, refl, Grown-refl m, λ p t e low high. absurd (omega arith))
  add_prefixes-ok k (suc count) n m h ascii le =
      let at = slice_to-ascii k n ascii (omega arith) in
      let one = add_prefix-ok k at.0 at.1 n m at.2 at.3 h in
      let all = add_prefixes-ok k count (n + 1) one.0 h ascii (omega arith) in
      (
        all.0,
        bind-ok _ one.1 all.1,
        Grown-trans m one.0 all.0 one.2 all.2,
        λ p t e low high. elim (Bool-cases (byte_len p == n)) [
          | inl b ↦
              let here : byte_len p ≡ n = ground arith in
              let cut : slice_to k n ≡ ok p =
                subst (λ l. slice_to l n ≡ ok p) (sym e)
                  (subst (λ i. slice_to (p ++ t) i ≡ ok p) here (slice_to-append p t)) in
              Has-Grown one.0 all.0 p all.2
                (subst (Has one.0) (ok-injective (sym at.2 ∙ cut)) one.3)
          | inr b ↦ all.3 p t e (ground arith) (omega arith)
        ],
      )

  -- The prefixes of the keys that the whole loop has put in.
  abbrev pub CoversAll : List Text → Map → Type 0
  CoversAll ks m =
      (k p t : Text) → contains_text ks k ≡ true → k ≡ p ++ t → p ≢ [] → t ≢ [] → Has m p

  pub add_missing-ok :
      (ks : List Text) (m : Map)
      → All (λ k. Has base k × IsAscii k) ks
      → (m' : Map) × (add_missing ks m ≡ ok m') × Grown m m' × CoversAll ks m'
  unfolding add_missing
  add_missing-ok [] m h = (m, refl, Grown-refl m, λ k p t e. absurd (ground (arith, e)))
  add_missing-ok (x ∷ ks) m h =
      let one = add_prefixes-ok x (byte_len x - 1) 1 m h.0.0 h.0.1 (omega arith) in
      let all = add_missing-ok ks one.0 h.1 in
      (
        all.0,
        bind-ok _ one.1 all.1,
        Grown-trans m one.0 all.0 one.2 all.2,
        λ k p t e f some_p some_t. elim (Bool-cases (text_eq k x)) [
          | inl b ↦
              let g : x ≡ p ++ t = sym (text_eq-eq k x b) ∙ f in
              let len : byte_len x ≡ byte_len p + byte_len t =
                ap byte_len g ∙ byte_len-append p t in
              Has-Grown one.0 all.0 p all.2
                (one.3 p t g (byte_len-pos p some_p) (omega (arith, byte_len-pos t some_t)))
          | inr b ↦ all.3 k p t (subst (λ c. (c || contains_text ks k) ≡ true) b e) f some_p some_t
        ],
      )
