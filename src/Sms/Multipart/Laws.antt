-- ===== src/Sms/Multipart/Laws.antt =====
-- A message is complete when every part is there, and its body is in the order of the parts.
-- The parts of one message, with the number under which each is kept.
use mathlib.Core.Path.{subst}
use cell_bridge.Base.{
  ℕ, List, ◌≡◌, ◌∷◌, [], arith, some, Bool-cases, ◌==◌, ◌+◌, length, inl, suc, inr, Option-cases,
  zero, ap, none, refl, Bool, if◌then◌else◌, Option, ltb, true, sym, ◌||◌, false,
}
use cell_bridge.Dict.{delete, find, nat_key, assign, find-delete}
use cell_bridge.Sms.Multipart.{
  multipart_key_eq, MultipartKey, Pending, collect, Parts, parts_or_empty, Segment, key_of, key_beq,
  key_beq_iff, LogicalMessage, Added, add_stored, add_timed, add, bodies, complete, rejected,
  waiting, add_found,
}

abbrev pub PartsInv : MultipartKey → Parts → Type 0
PartsInv key [] = Unit
PartsInv key ((n, part) ∷ parts) = ((part.part_no ≡ n) × (key_of part ≡ key)) × PartsInv key parts

abbrev pub PendingInv : Pending → Type 0
PendingInv [] = Unit
PendingInv ((key, parts) ∷ pending) = PartsInv key parts × PendingInv pending

delete-PartsInv :
    (key : MultipartKey) (n : ℕ) (parts : Parts)
    → PartsInv key parts
    → PartsInv key (delete n parts)
unfolding delete
delete-PartsInv key n [] h = tt
delete-PartsInv key n ((m, part) ∷ parts) h = ground (arith, delete-PartsInv key n parts h.1)

find-PartsInv :
    (key : MultipartKey) (n : ℕ) (parts : Parts) (part : Segment)
    → PartsInv key parts
    → find n parts ≡ some part
    → (part.part_no ≡ n) × (key_of part ≡ key)
unfolding find
find-PartsInv key n [] part h e = absurd (cc e)
find-PartsInv key n ((m, first) ∷ parts) part h e = elim (Bool-cases (m == n)) [
  | inl p ↦ ground arith
  | inr p ↦ find-PartsInv key n parts part h.1 (ground arith)
]

delete-PendingInv :
    (key : MultipartKey) (pending : Pending) → PendingInv pending → PendingInv (delete key pending)
unfolding delete
delete-PendingInv key [] h = tt
delete-PendingInv key ((k, parts) ∷ pending) h = ground (arith, delete-PendingInv key pending h.1)

find-PendingInv :
    (key : MultipartKey) (pending : Pending)
    → PendingInv pending
    → PartsInv key (parts_or_empty (find key pending))
unfolding find
find-PendingInv key [] h = tt
find-PendingInv key ((k, parts) ∷ pending) h = elim (Bool-cases (key_beq k key)) [
  | inl p ↦ rw p (subst (λ k. PartsInv k parts) ((key_beq_iff k key).0 p) h.0)
  | inr p ↦ rw p (find-PendingInv key pending h.1)
]

-- Segments numbered from `n` on, all of one message.
abbrev pub InOrder : MultipartKey → ℕ → List Segment → Type 0
InOrder key n [] = Unit
InOrder key n (part ∷ ordered) =
    ((part.part_no ≡ n) × (key_of part ≡ key)) × InOrder key (n + 1) ordered

collect-InOrder :
    (left n : ℕ) (key : MultipartKey) (parts : Parts) (ordered : List Segment)
    → PartsInv key parts
    → collect left n parts ≡ some ordered
    → InOrder key n ordered × (length ordered ≡ left)
unfolding collect
collect-InOrder zero n key parts ordered h e =
    let empty : [] ≡ ordered = cc in
    subst (λ (o : List Segment). InOrder key n o × (length o ≡ 0)) empty (tt, refl)
collect-InOrder (suc left) n key parts ordered h e = elim (Option-cases (find n parts)) [
  | inl missing ↦ absurd (ground arith)
  | inr (part, there) ↦ elim (Option-cases (collect left (n + 1) parts)) [
    | inl missing ↦ absurd (ground arith)
    | inr (rest, later) ↦
        let front : part ∷ rest ≡ ordered = ground arith in
        let (order, size) = collect-InOrder left (n + 1) key parts rest h later in
        subst (λ (o : List Segment). InOrder key n o × (length o ≡ suc left)) front
          ((find-PartsInv key n parts part h there, order), ap suc size)
  ]
]

-- The parts with the new one among them.
stored-PartsInv :
    (segment : Segment) (parts : Parts)
    → PartsInv (key_of segment) parts
    → PartsInv (key_of segment) (assign segment.part_no segment parts)
unfolding assign
stored-PartsInv segment parts h =
    ((refl, refl), delete-PartsInv (key_of segment) segment.part_no parts h)

assign-PendingInv :
    (key : MultipartKey) (parts : Parts) (pending : Pending)
    → PartsInv key parts
    → PendingInv pending
    → PendingInv (assign key parts pending)
unfolding assign
assign-PendingInv key parts pending h v = (h, delete-PendingInv key pending v)

-- What a completed message is made of.
abbrev pub IsWhole : Segment → LogicalMessage → Type 0
IsWhole segment m =
    InOrder (key_of segment) 1 m.segments
    × (length m.segments ≡ segment.total_parts)
    × (m.body ≡ bodies m.segments)
    × (m.sender ≡ segment.sender)
    × (m.total_parts ≡ segment.total_parts)

abbrev Whole : Segment → Pending × Added → Type 0
Whole segment (pending, complete m) = IsWhole segment m × (find (key_of segment) pending ≡ none)
Whole segment (pending, rejected) = Unit
Whole segment (pending, waiting) = Unit

find-delete_self : (key : MultipartKey) (pending : Pending) → find key (delete key pending) ≡ none
find-delete_self key pending = ground (arith, find-delete key key pending, key_beq_iff key key)

add_stored-Whole :
    (segment : Segment) (parts : Parts) (pending : Pending)
    → PartsInv (key_of segment) parts
    → Whole segment (add_stored segment parts pending)
unfolding add_stored
add_stored-Whole segment parts pending h = elim (Bool-cases (length parts == segment.total_parts)) [
  | inr short ↦ rw short tt
  | inl full ↦ elim (Option-cases (collect segment.total_parts 1 parts)) [
    | inl missing ↦ rw full (rw missing tt)
    | inr (ordered, there) ↦
        let (order, size) =
          collect-InOrder segment.total_parts 1 (key_of segment) parts ordered h there in
        rw full
          (rw there ((order, size, refl, refl, refl), find-delete_self (key_of segment) pending))
  ]
]

add_found-Whole :
    (segment : Segment) (parts : Parts) (pending : Pending) (there : Option Segment)
    → PartsInv (key_of segment) parts
    → Whole segment (add_found segment parts pending there)
unfolding add_found
add_found-Whole segment parts pending (some there) h = tt
add_found-Whole segment parts pending none h =
    add_stored-Whole segment (assign segment.part_no segment parts)
      (assign (key_of segment) (assign segment.part_no segment parts) pending)
      (stored-PartsInv segment parts h)

add_timed-Whole :
    (segment : Segment) (pending : Pending)
    → PendingInv pending
    → Whole segment (add_timed segment pending)
unfolding add_timed
add_timed-Whole segment pending v =
    let parts = parts_or_empty (find (key_of segment) pending) in
    add_found-Whole segment parts pending (find segment.part_no parts)
      (find-PendingInv (key_of segment) pending v)

add_stored-PendingInv :
    (segment : Segment) (parts : Parts) (pending : Pending)
    → PendingInv pending
    → PendingInv (add_stored segment parts pending).0
unfolding add_stored
add_stored-PendingInv segment parts pending v =
    ground (arith, delete-PendingInv (key_of segment) pending v)

add_found-PendingInv :
    (segment : Segment) (parts : Parts) (pending : Pending) (there : Option Segment)
    → PartsInv (key_of segment) parts
    → PendingInv pending
    → PendingInv (add_found segment parts pending there).0
unfolding add_found
add_found-PendingInv segment parts pending (some there) h v =
    assign-PendingInv (key_of segment) parts pending h v
add_found-PendingInv segment parts pending none h v =
    add_stored-PendingInv segment (assign segment.part_no segment parts)
      (assign (key_of segment) (assign segment.part_no segment parts) pending)
      (assign-PendingInv (key_of segment) (assign segment.part_no segment parts) pending
        (stored-PartsInv segment parts h) v)

add_timed-PendingInv :
    (segment : Segment) (pending : Pending)
    → PendingInv pending
    → PendingInv (add_timed segment pending).0
unfolding add_timed
add_timed-PendingInv segment pending v =
    let parts = parts_or_empty (find (key_of segment) pending) in
    add_found-PendingInv segment parts pending (find segment.part_no parts)
      (find-PendingInv (key_of segment) pending v) v

abbrev invalid : Segment → Bool
invalid segment =
    ltb segment.part_no 1 || ltb segment.total_parts 2 || ltb segment.total_parts segment.part_no

abbrev stamped : Bool → ℕ → Segment → Segment
stamped b now segment = if b then record segment { received_at = now } else segment

unstamp :
    (b : Bool) (now : ℕ) (segment : Segment) (r : Pending × Added)
    → Whole (stamped b now segment) r
    → Whole segment r
unstamp true now segment (pending, complete m) w = w
unstamp true now segment (pending, rejected) w = w
unstamp true now segment (pending, waiting) w = w
unstamp false now segment r w = w

add-Whole :
    (now : ℕ) (segment : Segment) (pending : Pending)
    → PendingInv pending
    → Whole segment (add now segment pending)
unfolding add
add-Whole now segment pending v = elim (Bool-cases (invalid segment)) [
  | inl p ↦ rw (p, Whole) tt
  | inr p ↦
      subst
        (λ b. Whole segment (
          if b
          then (pending, rejected)
          else add_timed (stamped (segment.received_at == 0) now segment) pending))
        (sym p)
        (unstamp (segment.received_at == 0) now segment _
          (add_timed-Whole (stamped (segment.received_at == 0) now segment) pending v))
]

Whole-complete :
    (segment : Segment) (r : Pending × Added) (m : LogicalMessage)
    → Whole segment r
    → r.1 ≡ complete m
    → IsWhole segment m × (find (key_of segment) r.0 ≡ none)
Whole-complete segment (pending, complete n) m w e =
    let same : n ≡ m = cc in
    subst (λ (t : LogicalMessage). IsWhole segment t × (find (key_of segment) pending ≡ none)) same
      w
Whole-complete segment (pending, rejected) m w e = absurd (ground arith)
Whole-complete segment (pending, waiting) m w e = absurd (ground arith)

-- `Add` keeps each part under its own number and under the key of its message, whatever it returns.
pub add-PendingInv :
    (now : ℕ) (segment : Segment) (pending : Pending)
    → PendingInv pending
    → PendingInv (add now segment pending).0
unfolding add
add-PendingInv now segment pending v = elim (Bool-cases (invalid segment)) [
  | inl p ↦
      subst
        (λ b.
          PendingInv
            (if b
              then (pending, rejected)
              else add_timed (stamped (segment.received_at == 0) now segment) pending).0)
        (sym p) v
  | inr p ↦
      subst
        (λ b.
          PendingInv
            (if b
              then (pending, rejected)
              else add_timed (stamped (segment.received_at == 0) now segment) pending).0)
        (sym p) (add_timed-PendingInv (stamped (segment.received_at == 0) now segment) pending v)
]

-- When `Add` returns a message, its segments are numbered 1, 2, ... up to the number of parts, all
-- of the sender, destination, reference and count of the segment that completed it, whatever the
-- order in which they came; its body is theirs joined in that order, and nothing of the message is
-- pending any more.
pub add-complete :
    (now : ℕ) (segment : Segment) (pending : Pending) (m : LogicalMessage)
    → PendingInv pending
    → (add now segment pending).1 ≡ complete m
    → IsWhole segment m × (find (key_of segment) (add now segment pending).0 ≡ none)
add-complete now segment pending m v e =
    Whole-complete segment (add now segment pending) m (add-Whole now segment pending v) e
