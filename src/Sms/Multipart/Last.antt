-- ===== src/Sms/Multipart/Last.antt =====
-- The last part of a message completes it.
use cell_bridge.Base.{
  ℕ, ◌≤◌, ◌≢◌, ◌<◌, ◌≡◌, none, ◌+◌, List, Bool-cases, length, some, ◌==◌, suc, [], inl,
  Option-cases, arith, refl, true, inr, ◌∷◌, zero, ltb, ◌||◌, false,
}
use cell_bridge.Sms.Multipart.{
  multipart_key_eq, collect, Segment, add_found, Parts, add_stored, Pending, LogicalMessage,
  complete, message_of, add_timed, add, key_of,
}
use cell_bridge.Dict.{nat_key, assign, find, delete_absent, find-assign}

-- Every part number of the message but the one to come is there.
abbrev pub AllBut : ℕ → ℕ → Parts → Type 0
AllBut total missing parts = (i : ℕ) → 1 ≤ i → i ≤ total → i ≢ missing → find i parts ≢ none

collect-suc :
    (left n : ℕ) (parts : Parts) (part : Segment) (rest : List Segment)
    → find n parts ≡ some part
    → collect left (n + 1) parts ≡ some rest
    → collect (suc left) n parts ≡ some (part ∷ rest)
unfolding collect
collect-suc left n parts part rest e more = ground arith

collect-found :
    (left n : ℕ) (parts : Parts)
    → ((i : ℕ) → n ≤ i → i < n + left → find i parts ≢ none)
    → (ordered : List Segment) × (collect left n parts ≡ some ordered)
unfolding collect
collect-found zero n parts h = ([], refl)
collect-found (suc left) n parts h = elim (Option-cases (find n parts)) [
  | inl e ↦ absurd (h n (omega arith) (omega arith) e)
  | inr (part, e) ↦
      let (rest, more) =
        collect-found left (n + 1) parts (λ i lo hi. h i (omega arith) (omega arith)) in
      (part ∷ rest, collect-suc left n parts part rest e more)
]

stored-found :
    (segment : Segment) (total : ℕ) (parts : Parts)
    → AllBut total segment.part_no parts
    → (i : ℕ) → 1 ≤ i
    → i < 1 + total
    → find i (assign segment.part_no segment parts) ≢ none
stored-found segment total parts h i lo hi e = elim (Bool-cases (segment.part_no == i)) [
  | inl p ↦ ground (arith, find-assign segment.part_no i segment parts)
  | inr p ↦
      h i lo (omega arith) (λ q. ground arith)
        (ground (arith, find-assign segment.part_no i segment parts))
]

stored-length :
    (n : ℕ) (segment : Segment) (parts : Parts)
    → find n parts ≡ none
    → length (assign n segment parts) ≡ suc (length parts)
unfolding assign
stored-length n segment parts h = rw (delete_absent n parts h) refl

add_found-last :
    (segment : Segment) (parts : Parts) (pending : Pending)
    → find segment.part_no parts ≡ none
    → length parts + 1 ≡ segment.total_parts
    → AllBut segment.total_parts segment.part_no parts
    → (m : LogicalMessage) × ((add_found segment parts pending none).1 ≡ complete m)
unfolding add_found add_stored
add_found-last segment parts pending fresh size h =
    let full : (length (assign segment.part_no segment parts) == segment.total_parts) ≡ true =
      ground (arith, stored-length segment.part_no segment parts fresh) in
    let (ordered, e) =
      collect-found segment.total_parts 1 (assign segment.part_no segment parts)
        (stored-found segment segment.total_parts parts h) in
    (message_of segment ordered, rw full (rw e refl))

add_timed-last :
    (segment : Segment) (pending : Pending) (parts : Parts)
    → find (key_of segment) pending ≡ some parts
    → find segment.part_no parts ≡ none
    → length parts + 1 ≡ segment.total_parts
    → AllBut segment.total_parts segment.part_no parts
    → (m : LogicalMessage) × ((add_timed segment pending).1 ≡ complete m)
unfolding add_timed
add_timed-last segment pending parts there fresh size h =
    rw there (rw fresh (add_found-last segment parts pending fresh size h))

-- A valid part whose message has every other part pending, and nothing else under its key, completes
-- the message: `Add` returns it and no longer waits, whatever the order in which the parts came.
pub add_last :
    (now : ℕ) (segment : Segment) (pending : Pending) (parts : Parts)
    → 2 ≤ segment.total_parts
    → 1 ≤ segment.part_no
    → segment.part_no ≤ segment.total_parts
    → find (key_of segment) pending ≡ some parts
    → find segment.part_no parts ≡ none
    → length parts + 1 ≡ segment.total_parts
    → AllBut segment.total_parts segment.part_no parts
    → (m : LogicalMessage) × ((add now segment pending).1 ≡ complete m)
unfolding add
add_last now segment pending parts many first last there fresh size h =
    let valid : (ltb segment.part_no 1
          || ltb segment.total_parts 2
          || ltb segment.total_parts segment.part_no)
        ≡ false =
      ground arith in
    rw valid (elim (Bool-cases (segment.received_at == 0)) [
      | inl p ↦
          rw p
            (add_timed-last (record segment { received_at = now }) pending parts there fresh size h)
      | inr p ↦ rw p (add_timed-last segment pending parts there fresh size h)
    ])
