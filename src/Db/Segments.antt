-- ===== src/Db/Segments.antt =====
-- gateway/internal/db/db.go: the table of SMS segments.
use cell_bridge.Db.{Segment, Db}
use cell_bridge.Base.{
  text_eq, ℕ, Text, Bool, List, false, Option, ◌∷◌, ◌||◌, if◌then◌else◌, [], none, leb, not, ◌&&◌,
  some, ◌==◌, ltb, ◌++◌, true,
}

-- `SMSSegmentExistsByPDUHash`; the hash of a segment is never NULL, since `Ingest` always sets it.
unfoldable pub segment_exists : Text → List Segment → Bool
unfolding text_eq
segment_exists hash [] = false
segment_exists hash (segment ∷ segments) =
    text_eq segment.pdu_hash hash || segment_exists hash segments

unfoldable pub has_id : Text → List Segment → Bool
unfolding text_eq
has_id id [] = false
has_id id (segment ∷ segments) = text_eq segment.id id || has_id id segments

-- `InsertSMSSegment`: the id and the hash are unique.
unfoldable pub insert_sms_segment : Segment → Db → Option Db
unfolding segment_exists has_id
insert_sms_segment segment db =
    if has_id segment.id db.segments || segment_exists segment.pdu_hash db.segments
    then none
    else some (record db { segments = db.segments ++ segment ∷ [] })

abbrev is_linked : Segment → Bool
is_linked segment = elim segment.message_id [ none ↦ false | some id ↦ true ]

-- `ORDER BY part_no ASC`; rows of one part stay in their order.
unfoldable pub insert_by_part : Segment → List Segment → List Segment
insert_by_part segment [] = segment ∷ []
insert_by_part segment (first ∷ sorted) =
    let rest = insert_by_part segment sorted in
    if leb segment.part_no first.part_no then segment ∷ first ∷ sorted else first ∷ rest

-- `ListPendingSMSSegments`.
unfoldable pub list_pending : Text → ℕ → ℕ → List Segment → List Segment
unfolding insert_by_part text_eq
list_pending sender concat_ref total_parts [] = []
list_pending sender concat_ref total_parts (segment ∷ segments) =
    let rest = list_pending sender concat_ref total_parts segments in
    if not (is_linked segment)
      && text_eq segment.sender sender
      && segment.concat_ref == concat_ref
      && segment.total_parts == total_parts
    then insert_by_part segment rest
    else rest

-- `LinkSMSSegment`.
unfoldable pub link_segment : Text → Text → List Segment → List Segment
unfolding text_eq
link_segment hash id [] = []
link_segment hash id (segment ∷ segments) =
    (if text_eq segment.pdu_hash hash && not (is_linked segment)
      then record segment { message_id = some id }
      else segment)
    ∷ link_segment hash id segments

-- `PrunePendingSMSSegments`.
unfoldable pub prune_pending : ℕ → List Segment → List Segment
prune_pending before [] = []
prune_pending before (segment ∷ segments) =
    let rest = prune_pending before segments in
    if not (is_linked segment) && ltb segment.received_at before then rest else segment ∷ rest
