-- ===== src/At/Lines.antt =====
-- The lines do not depend on how the serial port cuts the bytes.
-- The lines of a text, with the bytes of the line so far.
use mathlib.Core.List.{append-nil, append_assoc}
use cell_bridge.At.{cut, feed_loop, feed, clean, newline}
use cell_bridge.Base.{
  Text, List, ◌++◌, some, ℕ, ◌≡◌, ◌∷◌, arith, none, length, [], if◌then◌else◌, Bool-cases, ◌==◌,
  inl, ◌<◌, ◌≤◌, ◌∙◌, sym, inr, suc, refl, true, false, Option-cases, ◌⊎◌, zero,
}

unfoldable pub scan : Text → Text → List Text × Text
scan line [] = ([], line)
scan line (c ∷ s) =
    let ended : List Text × Text = (clean line ++ (scan [] s).0, (scan [] s).1) in
    let longer = scan (line ++ c ∷ []) s in if c == newline then ended else longer

-- The lines and the open line of two texts in a row.
pub scan-append :
    (line a b : Text)
    → scan line (a ++ b)
      ≡ ((scan line a).0 ++ (scan (scan line a).1 b).0, (scan (scan line a).1 b).1)
unfolding scan
scan-append line [] b = refl
scan-append line (c ∷ a) b = elim (Bool-cases (c == newline)) [
  | inl p ↦ rw p (
      rw (scan-append [] a b)
        (rw (append_assoc (clean line) (scan [] a).0 (scan (scan [] a).1 b).0) refl))
  | inr p ↦ rw p (scan-append (line ++ c ∷ []) a b)
]

-- The cut of a text, by its first byte.
cut_split :
    (c : ℕ) (s front rest : Text)
    → cut (c ∷ s) ≡ some (front, rest)
    → (((c == newline) ≡ true) × (front ≡ []) × (rest ≡ s))
      ⊎ ((f : Text) × ((c == newline) ≡ false) × (cut s ≡ some (f, rest)) × (front ≡ c ∷ f))
unfolding cut
cut_split c s front rest h = elim (Bool-cases (c == newline)) [
  | inl p ↦ inl (p, ground arith, ground arith)
  | inr p ↦ elim (Option-cases (cut s)) [
    | inl e ↦ absurd (ground arith)
    | inr ((f, r), e) ↦ inr (f, p, ground arith, ground arith)
  ]
]

cut_open : (c : ℕ) (s : Text) → cut (c ∷ s) ≡ none → ((c == newline) ≡ false) × (cut s ≡ none)
unfolding cut
cut_open c s h = (ground arith, ground arith)

pub scan-cut-none : (line s : Text) → cut s ≡ none → scan line s ≡ ([], line ++ s)
unfolding scan
scan-cut-none line [] h = rw (append-nil line) refl
scan-cut-none line (c ∷ s) h =
    let (p, e) = cut_open c s h in
    rw p (scan-cut-none (line ++ c ∷ []) s e ∙ rw (append_assoc line (c ∷ []) s) refl)

scan-cut-some :
    (line s front rest : Text)
    → cut s ≡ some (front, rest)
    → scan line s ≡ (clean (line ++ front) ++ (scan [] rest).0, (scan [] rest).1)
unfolding scan
scan-cut-some line [] front rest h = absurd (unfold cut in cc h)
scan-cut-some line (c ∷ s) front rest h = elim (cut_split c s front rest h) [
  | inl (p, f, r) ↦ rw p (rw f (rw r (rw (append-nil line) refl)))
  | inr (f, p, e, eq) ↦
      rw p
        (scan-cut-some (line ++ c ∷ []) s f rest e ∙ rw eq (rw (append_assoc line (c ∷ []) f) refl))
]

cut_shorter : (s front rest : Text) → cut s ≡ some (front, rest) → length rest < length s
cut_shorter [] front rest h = absurd (unfold cut in cc h)
cut_shorter (c ∷ s) front rest h = elim (cut_split c s front rest h) [
  | inl (p, f, r) ↦ rw r (omega arith)
  | inr (f, p, e, eq) ↦ omega (arith, cut_shorter s f rest e)
]

-- Fuel for every byte is enough for the loop to stop by itself.
feed_loop-scan : (fuel : ℕ) (s : Text) → length s ≤ fuel → feed_loop fuel s ≡ scan [] s
unfolding feed_loop
feed_loop-scan zero [] h = unfold scan in refl
feed_loop-scan zero (c ∷ s) h = absurd (omega arith)
feed_loop-scan (suc fuel) s h = elim (Option-cases (cut s)) [
  | inl e ↦ rw (e, feed_loop) (sym (scan-cut-none [] s e))
  | inr ((front, rest), e) ↦
      rw (e, feed_loop)
        (rw (feed_loop-scan fuel rest (omega (arith, cut_shorter s front rest e)))
          (sym (scan-cut-some [] s front rest e)))
]

pub feed-scan : (buffer chunk : Text) → feed buffer chunk ≡ scan [] (buffer ++ chunk)
unfolding feed
feed-scan buffer chunk = feed_loop-scan (length (buffer ++ chunk)) (buffer ++ chunk) (omega arith)

cut_concat :
    (line : Text) (c : ℕ) → cut line ≡ none → (c == newline) ≡ false → cut (line ++ c ∷ []) ≡ none
unfolding cut
cut_concat [] c h p = rw p refl
cut_concat (d ∷ line) c h p =
    let (q, e) = cut_open d line h in rw q (rw (cut_concat line c e p) refl)

-- The open line has no line end in it.
scan_open : (line s : Text) → cut line ≡ none → cut (scan line s).1 ≡ none
unfolding scan
scan_open line [] h = h
scan_open line (c ∷ s) h = elim (Bool-cases (c == newline)) [
  | inl p ↦ rw p (scan_open [] s (unfold cut in refl))
  | inr p ↦ rw p (scan_open (line ++ c ∷ []) s (cut_concat line c h p))
]

-- Reading a piece behind an open line goes on with that line.
scan_resume : (line s : Text) → cut line ≡ none → scan [] (line ++ s) ≡ scan line s
scan_resume line s h = scan-append [] line s ∙ rw (scan-cut-none [] line h) refl

-- Feeding two chunks one after the other gives the lines of the first and then of the second, and
-- the buffer, that feeding them in one chunk gives, from any buffer without a line end.
pub feed_chunks :
    (buffer a b : Text)
    → cut buffer ≡ none
    → feed buffer (a ++ b)
      ≡ ((feed buffer a).0 ++ (feed (feed buffer a).1 b).0, (feed (feed buffer a).1 b).1)
feed_chunks buffer a b h = rw (feed-scan buffer (a ++ b)) (
    rw (feed-scan buffer a) (
      rw (feed-scan (scan [] (buffer ++ a)).1 b) (
        rw
          (scan_resume (scan [] (buffer ++ a)).1 b
            (scan_open [] (buffer ++ a) (unfold cut in refl)))
          (rw (sym (append_assoc buffer a b)) (scan-append [] (buffer ++ a) b)))))

-- After `Feed` the buffer has no line end.
pub feed_open : (buffer chunk : Text) → cut (feed buffer chunk).1 ≡ none
feed_open buffer chunk =
    rw (feed-scan buffer chunk) (scan_open [] (buffer ++ chunk) (unfold cut in refl))
