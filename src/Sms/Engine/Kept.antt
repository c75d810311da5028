-- ===== src/Sms/Engine/Kept.antt =====
-- A segment that is in the table stays there while other PDUs come in.
use cell_bridge.Sms.Hex.{hex_encode}
use cell_bridge.Sms.Decode.{DecodedMessage, decode_pdu, ok, invalid, crash, Parsed}
use cell_bridge.Dict.{find, text_key}
use cell_bridge.Sms.Engine.{Engine}
use cell_bridge.Db.{Message, Segment, Db, is_direction}
use cell_bridge.Db.Log.{append_sync_log}
use cell_bridge.Base.{
  Text, Option, List, ◌≡◌, ℕ, ◌++◌, ◌∷◌, some, [], arith, ◌∙◌, Option-cases, true, refl, inl,
  text_eq_refl, inr, ap, none, not, ◌||◌, Bool-cases, sym, ltb, false, Bool, ◌≤◌, text_eq, ◌&&◌,
  leb,
}
use cell_bridge.Db.Messages.{insert_message, message_exists_by_pdu_hash}
use cell_bridge.Sms.Engine.Ingest.{
  link_all, store_message, ingest_stored, ingest, ingest_part, ingest_row, Incoming,
  store_assembled, Assembled, assembled, assemble, row_of, unassembled, rejected_part, panicked,
}
use cell_bridge.Db.Segments.{
  segment_exists, link_segment, insert_sms_segment, has_id, list_pending, prune_pending,
}

-- A row of this hash that came in at `t` at the earliest, in milliseconds.
pub kept : ℕ → Text → List Segment → Bool
kept t hash [] = false
kept t hash (segment ∷ segments) =
    text_eq segment.pdu_hash hash && leb t segment.received_at || kept t hash segments

pub kept_exists :
    (t : ℕ) (hash : Text) (segments : List Segment)
    → kept t hash segments ≡ true
    → segment_exists hash segments ≡ true
unfolding kept segment_exists
kept_exists t hash [] h = h
kept_exists t hash (segment ∷ segments) h = ground (arith, kept_exists t hash segments)

kept-append :
    (t : ℕ) (hash : Text) (segments : List Segment) (segment : Segment)
    → kept t hash segments ≡ true
    → kept t hash (segments ++ segment ∷ []) ≡ true
unfolding kept
kept-append t hash [] segment h = absurd (cc h)
kept-append t hash (first ∷ segments) segment h =
    ground (arith, kept-append t hash segments segment)

pub kept-append_self :
    (hash : Text) (segments : List Segment) (segment : Segment)
    → segment.pdu_hash ≡ hash
    → kept segment.received_at hash (segments ++ segment ∷ []) ≡ true
unfolding kept
kept-append_self hash [] segment e = rw (e, text_eq_refl hash) (ground arith)
kept-append_self hash (first ∷ segments) segment e =
    ground (arith, kept-append_self hash segments segment e)

pub kept-prune :
    (t before : ℕ) (hash : Text) (segments : List Segment)
    → before ≤ t
    → kept t hash segments ≡ true
    → kept t hash (prune_pending before segments) ≡ true
unfolding kept prune_pending
kept-prune t before hash [] b h = h
kept-prune t before hash (segment ∷ segments) b h =
    ground (arith, kept-prune t before hash segments b)

link_segment-kept :
    (hash id : Text) (t : ℕ) (other : Text) (segments : List Segment)
    → kept t other (link_segment hash id segments) ≡ kept t other segments
unfolding kept link_segment
link_segment-kept hash id t other [] = refl
link_segment-kept hash id t other (segment ∷ segments) =
    ground (arith, link_segment-kept hash id t other segments)

link_all-kept :
    (id : Text) (t : ℕ) (other : Text) (hashes : List Text) (segments : List Segment)
    → kept t other (link_all id hashes segments) ≡ kept t other segments
unfolding link_all
link_all-kept id t other [] segments = refl
link_all-kept id t other (hash ∷ hashes) segments =
    link_all-kept id t other hashes (link_segment hash id segments)
    ∙ link_segment-kept hash id t other segments

pair_some : (p : Db × ℕ) (db : Db) (seq : ℕ) → some p ≡ some (db, seq) → p.0 ≡ db
pair_some p db seq h = cc h

insert_message-segments :
    (id : Text) (m : Message) (db db' : Db) (seq : ℕ)
    → insert_message id m db ≡ some (db', seq)
    → db'.segments ≡ db.segments
unfolding insert_message append_sync_log
insert_message-segments id m db db' seq h = elim (Option-cases (find id db.messages)) [
  | inr (there, e) ↦ absurd (cc (rw (e, insert_message) at h))
  | inl e ↦
      let refused = not (is_direction m.direction) || message_exists_by_pdu_hash m.pdu_hash db in
      elim (Bool-cases refused) [
        | inl p ↦ absurd (cc (rw p at (rw (e, insert_message) at h)))
        | inr p ↦
            ap (λ (d : Db). d.segments)
              (sym (pair_some _ db' seq (rw p at (rw (e, insert_message) at h))))
      ]
]

store_message-kept :
    (id : Option Text) (m : Message) (hashes : List Text) (t : ℕ) (other : Text) (e : Engine)
    → kept t other (store_message id m hashes e).0.db.segments ≡ kept t other e.db.segments
unfolding store_message
store_message-kept none m hashes t other e = refl
store_message-kept (some id) m hashes t other e = elim (Option-cases (insert_message id m e.db)) [
  | inl h ↦ rw (h, store_message) refl
  | inr ((db', seq), h) ↦
      rw (h, store_message)
        (link_all-kept id t other hashes db'.segments
          ∙ ap (kept t other) (insert_message-segments id m e.db db' seq h))
]

pub ingest_stored-kept :
    (hash : List ℕ → Text) (i : Incoming) (d : DecodedMessage) (t : ℕ) (other : Text) (e : Engine)
    → kept t other (ingest_stored hash i d e).0.db.segments ≡ kept t other e.db.segments
unfolding ingest_stored ingest_part store_assembled
ingest_stored-kept hash i d t other e = elim (Bool-cases (ltb 1 d.total_parts)) [
  | inr p ↦ rw (p, ingest_stored) (store_message-kept i.message_id _ _ t other e)
  | inl p ↦
      let rows = list_pending d.sender d.concat_ref d.total_parts e.db.segments in
      let (pending, result) = assemble i.now rows e.pending in
      rw (p, ingest_stored) (store_assembled-kept result (record e { pending = pending }))
]
  where
    store_assembled-kept :
        (result : Assembled) (e' : Engine)
        → kept t other (store_assembled hash i d result e').0.db.segments
          ≡ kept t other e'.db.segments
    store_assembled-kept (assembled l) e' = store_message-kept i.message_id _ _ t other e'
    store_assembled-kept unassembled e' = refl
    store_assembled-kept rejected_part e' = refl
    store_assembled-kept panicked e' = refl

-- Any PDU leaves the segments that are there.
pub ingest-kept :
    (hash : List ℕ → Text) (i : Incoming) (t : ℕ) (other : Text) (e : Engine)
    → kept t other e.db.segments ≡ true
    → kept t other (ingest hash i e).0.db.segments ≡ true
unfolding ingest ingest_row
ingest-kept hash i t other e h =
    elim (Bool-cases (segment_exists (hash i.raw.raw_pdu) e.db.segments)) [
      | inl p ↦ rw (p, ingest) h
      | inr p ↦ decoded_kept (decode_pdu (hex_encode i.raw.raw_pdu)) refl p
    ]
  where
    row_kept :
        (d : DecodedMessage) (named : Option Text)
        → kept t other (ingest_row hash i d named e).0.db.segments ≡ true
    row_kept d none = h
    row_kept d (some segment_id) =
        let row = row_of hash i segment_id d in
        elim (Bool-cases
          (has_id row.id e.db.segments || segment_exists row.pdu_hash e.db.segments)) [
            | inl p ↦
                let put : insert_sms_segment row e.db ≡ none =
                  unfold insert_sms_segment in rw p refl in
                rw (put, ingest_row) h
            | inr p ↦
                let put : insert_sms_segment row e.db
                    ≡ some (record e.db { segments = e.db.segments ++ row ∷ [] }) =
                  unfold insert_sms_segment in rw p refl in
                rw (put, ingest_row)
                  (ingest_stored-kept hash i d t other _ ∙ kept-append t other e.db.segments row h)
          ]

    decoded_kept :
        (r : Parsed DecodedMessage)
        → decode_pdu (hex_encode i.raw.raw_pdu) ≡ r
        → segment_exists (hash i.raw.raw_pdu) e.db.segments ≡ false
        → kept t other (ingest hash i e).0.db.segments ≡ true
    decoded_kept invalid q p = rw (p, q, ingest) h
    decoded_kept crash q p = rw (p, q, ingest) h
    decoded_kept (ok d) q p = rw (p, q, ingest) (row_kept d i.segment_id)
