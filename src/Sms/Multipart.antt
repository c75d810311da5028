-- ===== src/Sms/Multipart.antt =====
-- gateway/internal/sms/multipart.go: the assembler of concatenated messages. A method runs under the
-- mutex, so it is a function from the pending map to the new map and the result. `time.Now()` is the
-- argument `now`; times are numbers and the zero time is 0.
pub mod Laws
pub mod Last
use cell_bridge.Sms.Split.{Encoding}
use cell_bridge.Dict.{Eq, Map, find, assign, delete, nat_key}
use cell_bridge.Base.{
  Text, Bool, ◌≡◌, ℕ, List, if◌then◌else◌, Option, text_eq, true, some, ◌∷◌, not, [], ltb, ◌&&◌,
  ◌↔◌, suc, ◌++◌, ◌==◌, length, none, ◌||◌, arith, ◌+◌, text_eq_iff, zero, ==_iff, ◌*◌,
}

pub record Segment : Type 0 where
  pub sender : Text
  pub destination : Text
  pub concat_ref : ℕ
  pub part_no : ℕ
  pub total_parts : ℕ
  pub body : Text
  pub encoding : Encoding
  pub raw_pdu : List ℕ
  pub received_at : ℕ

pub record LogicalMessage : Type 0 where
  pub sender : Text
  pub body : Text
  pub encoding : Encoding
  pub concat_ref : ℕ
  pub total_parts : ℕ
  pub segments : List Segment
  pub received_at : ℕ

-- The fields of `multipartKey`, in their order: sender, destination, reference, count.
abbrev pub MultipartKey : Type 0
MultipartKey = Text × Text × ℕ × ℕ

unfoldable pub key_beq : MultipartKey → MultipartKey → Bool
key_beq (s, d, r, t) (s', d', r', t') = text_eq s s' && text_eq d d' && r == r' && t == t'

pub key_beq_iff : (a b : MultipartKey) → (key_beq a b ≡ true) ↔ (a ≡ b)
unfolding key_beq
key_beq_iff (s, d, r, t) (s', d', r', t') =
    ground (arith, text_eq_iff s s', text_eq_iff d d', ==_iff r r', ==_iff t t')

instance abbrev pub multipart_key_eq : Eq MultipartKey
multipart_key_eq = record { beq = key_beq; beq_iff = key_beq_iff }

abbrev pub Parts : Type 0
Parts = Map ℕ Segment

abbrev pub Pending : Type 0
Pending = Map MultipartKey Parts

abbrev pub key_of : Segment → MultipartKey
key_of s = (s.sender, s.destination, s.concat_ref, s.total_parts)

-- The result of `Add`: an error, a nil message, or a message.
pub data Added : Type 0 where
  rejected : Added
  waiting : Added
  complete : LogicalMessage → Added

-- The loop over the part numbers, with `left` of them to come; `none` is a missing part.
unfoldable pub collect : ℕ → ℕ → Parts → Option (List Segment)
collect zero part_no parts = some []
collect (suc left) part_no parts = elim (find part_no parts) [
  | none ↦ none
  | some part ↦ elim (collect left (part_no + 1) parts) [
    | none ↦ none
    | some rest ↦ some (part ∷ rest)
  ]
]

-- `body.WriteString(part.Body)` over the parts in order.
abbrev pub bodies : List Segment → Text
bodies [] = []
bodies (part ∷ parts) = part.body ++ bodies parts

-- The earliest time, where 0 is no time yet.
abbrev pub earliest : ℕ → List Segment → ℕ
earliest at [] = at
earliest at (part ∷ parts) =
    earliest (if at == 0 || ltb part.received_at at then part.received_at else at) parts

abbrev pub message_of : Segment → List Segment → LogicalMessage
message_of segment ordered = record {
  sender = segment.sender;
  body = bodies ordered;
  encoding = segment.encoding;
  concat_ref = segment.concat_ref;
  total_parts = segment.total_parts;
  segments = ordered;
  received_at = earliest 0 ordered;
}

-- Behind the store of a new part.
unfoldable pub add_stored : Segment → Parts → Pending → Pending × Added
unfolding collect
add_stored segment parts pending =
    if not (length parts == segment.total_parts)
    then (pending, waiting)
    else elim (collect segment.total_parts 1 parts) [
      | none ↦ (pending, waiting)
      | some ordered ↦ (delete (key_of segment) pending, complete (message_of segment ordered))
    ]

abbrev pub parts_or_empty : Option Parts → Parts
parts_or_empty none = []
parts_or_empty (some parts) = parts

-- The test for a duplicate, with the part that is there already. `parts` is shared with the map, so
-- a store into it shows in the map.
pub add_found : Segment → Parts → Pending → Option Segment → Pending × Added
unfolding add_stored assign
add_found segment parts pending (some there) = (assign (key_of segment) parts pending, waiting)
add_found segment parts pending none =
    add_stored segment (assign segment.part_no segment parts)
      (assign (key_of segment) (assign segment.part_no segment parts) pending)

-- A part with a valid number and a time.
pub add_timed : Segment → Pending → Pending × Added
unfolding add_found find
add_timed segment pending =
    let parts = parts_or_empty (find (key_of segment) pending) in
    add_found segment parts pending (find segment.part_no parts)

-- `Add`.
unfoldable pub add : ℕ → Segment → Pending → Pending × Added
unfolding add_timed
add now segment pending =
    if ltb segment.part_no 1 || ltb segment.total_parts 2 || ltb segment.total_parts segment.part_no
    then (pending, rejected)
    else add_timed
        (if segment.received_at == 0 then record segment { received_at = now } else segment) pending

-- `MultipartRetention`, in nanoseconds.
abbrev pub multipart_retention : ℕ
multipart_retention = 24 * 60 * 60 * 1000000000

-- The time of the latest part, where 0 is no time.
unfoldable pub latest_of : ℕ → Parts → ℕ
latest_of latest [] = latest
latest_of latest ((part_no, part) ∷ parts) =
    let next = if ltb latest part.received_at then part.received_at else latest in
    latest_of next parts

-- `Prune`, less the list of segments that it returns for diagnosis.
unfoldable pub prune : ℕ → Pending → Pending
unfolding latest_of
prune now [] = []
prune now ((key, parts) ∷ pending) =
    let latest = latest_of 0 parts in
    let rest = prune now pending in
    if not (latest == 0) && ltb (latest + multipart_retention) now
    then rest
    else (key, parts) ∷ rest
