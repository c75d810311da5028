-- ===== src/Voice/Pcm/Fifo.antt =====
-- The queue keeps the newest frames, in their order.
-- `Push` of a whole list of frames, and whether one was refused.
use cell_bridge.Ints.{ℤ}
use mathlib.Core.Path.{ap₂}
use mathlib.Core.List.{append-nil, append_assoc}
use cell_bridge.Voice.Pcm.{Queue, push, frame_samples}
use cell_bridge.Base.{
  List, ℕ, ◌≤◌, length, ◌∷◌, ◌≡◌, drop, ◌<◌, ◌++◌, [], ◌+◌, arith, ◌-◌, ◌==◌, Bool-cases, inl, inr,
  ◌^◌, All, ◌%◌, sym, ap, ◌∙◌, length-drop, length-append, drop_shorter, drop-drop,
}

unfoldable pub push_all : List (List ℤ) → Queue → Queue
push_all [] q = q
push_all (frame ∷ frames) q = push_all frames (push frame q).0

abbrev pub IsFrame : List ℤ → Type 0
IsFrame frame = length frame ≡ frame_samples

push_frames :
    (frame : List ℤ) (q : Queue)
    → IsFrame frame
    → length q.frames ≤ q.capacity
    → 0 < q.capacity
    → (push frame q).0.frames ≡ drop (length q.frames + 1 - q.capacity) (q.frames ++ frame ∷ [])
unfolding push
push_frames frame q f h p = elim (Bool-cases (length q.frames == q.capacity)) [
  | inl full ↦
      let one : length q.frames + 1 - q.capacity ≡ 1 = ground arith in
      rw one (rw (drop_shorter 1 q.frames (frame ∷ []) (ground arith)) (ground arith))
  | inr room ↦
      let nothing : length q.frames + 1 - q.capacity ≡ 0 = ground arith in rw nothing (ground arith)
]

push_dropped :
    (frame : List ℤ) (q : Queue)
    → IsFrame frame
    → length q.frames ≤ q.capacity
    → q.dropped < 2 ^ 64
    → (push frame q).0.dropped ≡ (q.dropped + (length q.frames + 1 - q.capacity)) % 2 ^ 64
unfolding push
push_dropped frame q f h d = ground arith

push_capacity : (frame : List ℤ) (q : Queue) → (push frame q).0.capacity ≡ q.capacity
unfolding push
push_capacity frame q = ground arith

pub joined :
    (k n m : ℕ) (old : List (List ℤ)) (frame : List ℤ) (frames : List (List ℤ))
    → k ≤ length old + 1
    → k + n ≡ m
    → drop n (drop k (old ++ frame ∷ []) ++ frames) ≡ drop m (old ++ frame ∷ frames)
joined k n m old frame frames h e =
    ap (drop n) (
      sym
        (drop_shorter k (old ++ frame ∷ []) frames (omega (arith, length-append old (frame ∷ [])))))
    ∙ drop-drop n k ((old ++ frame ∷ []) ++ frames)
    ∙ ap₂ drop e (append_assoc old (frame ∷ []) frames)

-- Pushing frames, all of the right size, onto a queue within its capacity keeps the newest
-- `capacity` frames of the old content and the new frames together, oldest first.
pub push_all-frames :
    (frames : List (List ℤ)) (q : Queue)
    → All IsFrame frames
    → length q.frames ≤ q.capacity
    → 0 < q.capacity
    → (push_all frames q).frames
      ≡ drop (length q.frames + length frames - q.capacity) (q.frames ++ frames)
unfolding push_all
push_all-frames [] q a h p =
    let none_over : length q.frames + 0 - q.capacity ≡ 0 = omega arith in
    rw none_over (sym (append-nil q.frames))
push_all-frames (frame ∷ frames) q a h p =
    let q' = (push frame q).0 in
    let newest = push_frames frame q a.0 h p in
    let size : length q'.frames ≡ length q.frames + 1 - (length q.frames + 1 - q.capacity) =
      ap length newest
      ∙ length-drop (length q.frames + 1 - q.capacity) (q.frames ++ frame ∷ [])
      ∙ rw (length-append q.frames (frame ∷ [])) (omega arith) in
    let cap : q'.capacity ≡ q.capacity = push_capacity frame q in
    push_all-frames frames q' a.1 (omega (arith, size, cap)) (omega (arith, cap))
    ∙ ap (λ t. drop (length q'.frames + length frames - q'.capacity) (t ++ frames)) newest
    ∙ joined (length q.frames + 1 - q.capacity) (length q'.frames + length frames - q'.capacity)
        (length q.frames + length (frame ∷ frames) - q.capacity) q.frames frame frames (omega arith)
        (omega (arith, size, cap))
