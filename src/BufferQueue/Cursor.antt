-- ===== src/BufferQueue/Cursor.antt =====
-- The loop of `BufferQueue::eat`: its cursor, against the characters that are left.
use native.Mathlib.Numerals.{add-one}
use html.Prelude.{
  ok-injective, ℕ, zero, suc, ◌+◌, ◌≡◌, ◌≢◌, refl, sym, ◌∙◌, ap, Bool, true, false, ◌&&◌, Option,
  none, some, List, [], ◌∷◌, ◌++◌, Text, Checked, ok, All, head?, tail, length, drop, get_elem?,
  arith, ltb, leb, ◌==◌, if◌then◌else◌, Bool-cases, inl, inr, ◌⊎◌,
}
use html.Util.Utf8.{byte_len, char_at, char_at-SplitAt, utf8_len}
use html.Util.Str.{to_ascii_opt, eq_ignore_case}
use html.Util.Str.Laws.{lower, ascii_lower_map-eq-lower}
use html.BufferQueue.{
  Buffer, BufferQueue, Scan, stop, matched, eat_scan, eat_commit, chars_match, advance,
}
use html.BufferQueue.View.{chars_of, Holds, Holds-advance}
use html.BufferQueue.Laws.{Front, front, behind}

-- Two ASCII characters that are equal up to case.
abbrev pub same_letter : ℕ → ℕ → Bool
same_letter c d = ltb c 0x80 && ltb d 0x80 && lower c == lower d

-- Matching a pattern against the characters to be read: `none` if they run out first.
abbrev pub match_prefix : Text → Text → Option Bool
match_prefix [] s = some true
match_prefix (c ∷ pat) [] = none
match_prefix (c ∷ pat) (d ∷ s) = if same_letter c d then match_prefix pat s else some false

-- What is left: a match is consumed, anything else is not.
abbrev pub after_match : Text → Text → Text
after_match pat s = elim (match_prefix pat s) [ some true ↦ drop (length pat) s | _ ↦ s ]

-- No buffer but the front one has been read from.
abbrev pub IsFresh : List Buffer → Type 0
IsFresh bs = All (λ b. b.pos ≡ 0) bs

chars_match-eq : (c d : ℕ) → chars_match c d ≡ same_letter c d
unfolding chars_match to_ascii_opt eq_ignore_case
chars_match-eq c d = ground (arith, ascii_lower_map-eq-lower c, ascii_lower_map-eq-lower d)

get_elem?-drop {ℓ} : {A : Type ℓ} (xs : List A) (n : ℕ) → get_elem? xs n ≡ head? (drop n xs)
get_elem?-drop [] zero = refl
get_elem?-drop [] (suc n) = refl
get_elem?-drop (x ∷ xs) zero = refl
get_elem?-drop (x ∷ xs) (suc n) = get_elem?-drop xs n

drop-suc {ℓ} :
    {A : Type ℓ} (xs ys : List A) {x : A} (n : ℕ) → drop n xs ≡ x ∷ ys → drop (suc n) xs ≡ ys
drop-suc [] ys zero e = cc
drop-suc [] ys (suc n) e = cc
drop-suc (z ∷ xs) ys zero e = cc
drop-suc (z ∷ xs) ys (suc n) e = drop-suc xs ys n e

-- The cursor of the loop stands in front of the characters `u`: committing it gives a queue that
-- holds them.
pub record Cursor (bs : List Buffer) (exhausted consumed : ℕ) (u : Text) : Type 0 where
  pub queue : BufferQueue
  pub commits : eat_commit (drop exhausted bs) consumed ≡ ok queue
  pub keeps : Holds queue u
  pub fresh : IsFresh (tail (drop exhausted bs))

-- The next buffers, from their start.
commit_fresh : (bs : List Buffer) → IsFresh bs → eat_commit bs 0 ≡ ok (record { buffers = bs })
unfolding eat_commit
commit_fresh [] f = refl
commit_fresh (b ∷ bs) f = ap (λ p. ok (record { buffers = record b { pos = p } ∷ bs })) (sym f.0)

-- How the loop ends.
abbrev pub Scanned : List Buffer → Text → Text → Checked Scan → Type 0
Scanned bs pat u out =
    ((match_prefix pat u ≢ some true) × (out ≡ ok (stop (match_prefix pat u))))
    ⊎ ((e : ℕ) × (c : ℕ) × (out ≡ ok (matched e c))
        × (match_prefix pat u ≡ some true)
        × Cursor bs e c (drop (length pat) u))

List-cases {ℓ} : {A : Type ℓ} (xs : List A) → (xs ≡ []) ⊎ ((x : A) × (ys : List A) × (xs ≡ x ∷ ys))
List-cases [] = inl refl
List-cases (x ∷ xs) = inr (x, xs, refl)

pub IsFresh-tail : (bs : List Buffer) → IsFresh bs → IsFresh (tail bs)
IsFresh-tail [] f = f
IsFresh-tail (b ∷ bs) f = f.1

-- The cursor in front of a buffer.
module _ (bs ds : List Buffer) (b : Buffer) (e c : ℕ) (u : Text) (here : drop e bs ≡ b ∷ ds)
    (cur : Cursor bs e c u) where
  b' : Buffer
  b' = record b { pos = c }

  cursor-Holds : Holds (record { buffers = b' ∷ ds }) u
  unfolding eat_commit b'
  cursor-Holds = let q = ok-injective (rw here at cur.commits) in rw q cur.keeps

  cursor-IsFresh : IsFresh ds
  cursor-IsFresh = rw here at cur.fresh

  cursor_front : Front b'
  cursor_front = front (cursor-Holds.valid.0)

  left : Text
  left = cursor_front.others ++ chars_of ds

  cursor-chars : u ≡ cursor_front.first ∷ left
  unfolding left
  cursor-chars = sym cursor-Holds.holds ∙ ap (λ t. t ++ chars_of ds) cursor_front.rest_is

  -- Behind an ASCII character, in the same buffer or at the start of the next one.
  module _ (ascii : utf8_len cursor_front.first ≡ 1) where
    cursor-advance : Holds (advance b' ds (c + 1)) left
    unfolding left
    cursor-advance =
        unfold b' in
        Holds-advance b' ds cursor_front.others (c + 1) (rw ascii at (behind cursor_front))
          cursor-Holds.valid.1

    Cursor-over : leb (byte_len b.buf) (c + 1) ≡ true → Cursor bs (e + 1) 0 left
    Cursor-over h =
        let moved : drop (e + 1) bs ≡ ds = rw add-one (drop-suc bs ds e here) in
        record {
          queue = record { buffers = ds };
          commits = rw moved (commit_fresh ds cursor-IsFresh);
          keeps = unfold advance b' in rw h at cursor-advance;
          fresh = rw moved (IsFresh-tail ds cursor-IsFresh);
        }

    Cursor-on : leb (byte_len b.buf) (c + 1) ≡ false → Cursor bs e (c + 1) left
    Cursor-on h = record {
      queue = record { buffers = record b { pos = c + 1 } ∷ ds };
      commits = unfold eat_commit in rw here;
      keeps = unfold advance b' in rw h at cursor-advance;
      fresh = rw here cursor-IsFresh;
    }

ascii-of-match : (c d : ℕ) → same_letter c d ≡ true → utf8_len d ≡ 1
ascii-of-match c d h = ground arith

Cursor-nil : (bs : List Buffer) (e c : ℕ) (u : Text) → drop e bs ≡ [] → Cursor bs e c u → u ≡ []
unfolding eat_commit
Cursor-nil bs e c u over cur =
    let end = rw over at cur.commits in
    let q : cur.queue ≡ record { buffers = [] } = ground arith in
    sym cur.keeps.holds ∙ ap (λ (q : BufferQueue). chars_of q.buffers) q

-- One round of the loop.
module _ (bs : List Buffer) (p : ℕ) (pat : Text) (e c : ℕ) where
  scan_none : drop e bs ≡ [] → eat_scan bs (p ∷ pat) e c ≡ ok (stop none)
  unfolding eat_scan
  scan_none over = rw (get_elem?-drop bs e ∙ ap head? over, eat_scan)

  scan_some :
      (b : Buffer) (ds : List Buffer) (d : ℕ)
      → drop e bs ≡ b ∷ ds
      → char_at b.buf c ≡ ok d
      → eat_scan bs (p ∷ pat) e c ≡ (
          if same_letter p d
          then (if leb (byte_len b.buf) (c + 1)
              then eat_scan bs pat (e + 1) 0
              else eat_scan bs pat e (c + 1))
          else ok (stop (some false)))
  unfolding eat_scan
  scan_some b ds d here read =
      rw (get_elem?-drop bs e ∙ ap head? here, eat_scan) (rw read (rw (chars_match-eq p d)))

  Scanned-none :
      (u : Text) → u ≡ [] → drop e bs ≡ [] → Scanned bs (p ∷ pat) u (eat_scan bs (p ∷ pat) e c)
  Scanned-none u nil over = rw (nil, scan_none over) (inl (λ x. cc x, refl))

module _ (bs : List Buffer) where
  pub eat_scan-Scanned :
      (pat u : Text) (e c : ℕ) → Cursor bs e c u → Scanned bs pat u (eat_scan bs pat e c)
  eat_scan-Scanned [] u e c cur = unfold eat_scan in inr (e, c, refl, refl, cur)
  eat_scan-Scanned (p ∷ pat) u e c cur = elim (List-cases (drop e bs)) [
    | inl over ↦ Scanned-none bs p pat e c u (Cursor-nil bs e c u over cur) over
    | inr (b, ds, here) ↦
        let f = cursor_front bs ds b e c u here cur in
        let read : char_at b.buf c ≡ ok f.first = unfold b' in char_at-SplitAt f.first f.at in
        rw (cursor-chars bs ds b e c u here cur, scan_some bs p pat e c b ds f.first here read)
          (elim (Bool-cases (same_letter p f.first)) [
            | inl same ↦
                let ascii = ascii-of-match p f.first same in
                rw same (elim (Bool-cases (leb (byte_len b.buf) (c + 1))) [
                  | inl over ↦ rw over (
                      eat_scan-Scanned pat _ (e + 1) 0
                        (Cursor-over bs ds b e c u here cur ascii over))
                  | inr on ↦
                      rw on (
                        eat_scan-Scanned pat _ e (c + 1)
                          (Cursor-on bs ds b e c u here cur ascii on))
                ])
            | inr differs ↦ rw differs (inl (λ x. cc x, refl))
          ])
  ]
