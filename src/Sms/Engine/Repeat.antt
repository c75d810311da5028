-- ===== src/Sms/Engine/Repeat.antt =====
-- A PDU that is seen again.
use cell_bridge.Sms.Engine.Kept.{
  kept, kept_exists, ingest-kept, ingest_stored-kept, kept-prune, kept-append_self,
}
use cell_bridge.Sms.Multipart.{prune, multipart_retention}
use cell_bridge.Sms.Hex.{hex_encode}
use cell_bridge.Sms.Decode.{DecodedMessage, decode_pdu, ok}
use cell_bridge.Dict.{text_key}
use cell_bridge.Sms.Engine.{Engine, millis}
use cell_bridge.Db.{Segment, Db}
use cell_bridge.Base.{
  Text, List, ◌≡◌, ℕ, ◌++◌, ◌∷◌, some, [], arith, ◌∙◌, true, refl, ap, false, ◌≤◌, All, ◌+◌, ◌-◌,
}
use cell_bridge.Sms.Engine.Ingest.{
  ingest_stored, ingest, ingest_row, Incoming, row_of, nothing, Ingested, pruned,
}
use cell_bridge.Db.Segments.{segment_exists, insert_sms_segment, has_id, prune_pending}

insert_sms_segment-free :
    (row : Segment) (db : Db)
    → has_id row.id db.segments ≡ false
    → segment_exists row.pdu_hash db.segments ≡ false
    → insert_sms_segment row db ≡ some (record db { segments = db.segments ++ row ∷ [] })
unfolding insert_sms_segment
insert_sms_segment-free row db fresh free = rw (fresh, free) refl

-- `Ingest` of a new PDU that decodes: its segment is stored before all else.
pub ingest-eq :
    (hash : List ℕ → Text) (i : Incoming) (d : DecodedMessage) (segment_id : Text) (e : Engine)
    → decode_pdu (hex_encode i.raw.raw_pdu) ≡ ok d
    → i.segment_id ≡ some segment_id
    → has_id segment_id e.db.segments ≡ false
    → segment_exists (hash i.raw.raw_pdu) e.db.segments ≡ false
    → ingest hash i e
      ≡ ingest_stored hash i d (record e {
        db = record e.db { segments = e.db.segments ++ row_of hash i segment_id d ∷ [] };
      })
unfolding ingest ingest_row
ingest-eq hash i d segment_id e decodes named fresh free =
    let row = row_of hash i segment_id d in
    let e' : Engine = record e { db = record e.db { segments = e.db.segments ++ row ∷ [] } } in
    let put = insert_sms_segment-free row e.db fresh free in
    let row_eq : ingest_row hash i d i.segment_id e ≡ ingest_stored hash i d e' =
      ap (λ o. ingest_row hash i d o e) named ∙ rw (put, ingest_row) refl in
    rw (free, decodes, ingest) row_eq

-- What `Run` does to the tables behind a PDU: it ingests others, and prunes in front of a round, where
-- it reads the clock twice.
pub data Later : Type 0 where
  arrives : Incoming → Later
  prunes : ℕ → ℕ → Later

unfoldable pub later : (List ℕ → Text) → Later → Engine → Engine
unfolding ingest prune_pending prune
later hash (arrives i) e = (ingest hash i e).0
later hash (prunes now now') e = pruned now now' e

unfoldable pub later_all : (List ℕ → Text) → List Later → Engine → Engine
unfolding later
later_all hash [] e = e
later_all hash (l ∷ ls) e = later_all hash ls (later hash l e)

-- A prune within 24 hours, in nanoseconds.
abbrev pub WithinDay : ℕ → Later → Type 0
WithinDay t (arrives i) = Unit
WithinDay t (prunes now now') = now' ≤ t + 86400000000000

later-kept :
    (hash : List ℕ → Text) (t : ℕ) (l : Later) (other : Text) (e : Engine)
    → WithinDay t l
    → kept (millis t) other e.db.segments ≡ true
    → kept (millis t) other (later hash l e).db.segments ≡ true
unfolding later pruned
later-kept hash t (arrives i) other e w h = ingest-kept hash i (millis t) other e h
later-kept hash t (prunes now now') other e w h =
    kept-prune (millis t) (millis (now' - multipart_retention)) other e.db.segments (omega arith) h

later_all-kept :
    (hash : List ℕ → Text) (t : ℕ) (ls : List Later) (other : Text) (e : Engine)
    → All (WithinDay t) ls
    → kept (millis t) other e.db.segments ≡ true
    → kept (millis t) other (later_all hash ls e).db.segments ≡ true
unfolding later_all
later_all-kept hash t [] other e w h = h
later_all-kept hash t (l ∷ ls) other e w h =
    later_all-kept hash t ls other (later hash l e) w.1 (later-kept hash t l other e w.0 h)

-- A PDU that is taken leaves its segment behind.
ingest-leaves :
    (hash : List ℕ → Text) (i : Incoming) (d : DecodedMessage) (segment_id : Text) (e : Engine)
    → decode_pdu (hex_encode i.raw.raw_pdu) ≡ ok d
    → i.segment_id ≡ some segment_id
    → has_id segment_id e.db.segments ≡ false
    → segment_exists (hash i.raw.raw_pdu) e.db.segments ≡ false
    → kept (millis i.now) (hash i.raw.raw_pdu) (ingest hash i e).0.db.segments ≡ true
ingest-leaves hash i d segment_id e decodes named fresh free =
    ap (λ (out : Engine × Ingested). kept (millis i.now) (hash i.raw.raw_pdu) out.0.db.segments)
      (ingest-eq hash i d segment_id e decodes named fresh free)
    ∙ ingest_stored-kept hash i d (millis i.now) (hash i.raw.raw_pdu) _
    ∙ kept-append_self (hash i.raw.raw_pdu) e.db.segments (row_of hash i segment_id d) refl

-- A PDU is taken once in a day: when a new one decodes and its segment can be stored, then after any
-- other PDUs and any prunes, which come at most 24 hours behind it by the clock, in any order, an
-- `Ingest` of the same octets does nothing, whether the first brought a message, waited for other
-- parts, or failed.
pub ingest-ingest :
    (hash : List ℕ → Text) (i i' : Incoming) (ls : List Later) (d : DecodedMessage)
    (segment_id : Text) (e : Engine)
    → decode_pdu (hex_encode i.raw.raw_pdu) ≡ ok d
    → i.segment_id ≡ some segment_id
    → has_id segment_id e.db.segments ≡ false
    → segment_exists (hash i.raw.raw_pdu) e.db.segments ≡ false
    → All (WithinDay i.now) ls
    → i'.raw.raw_pdu ≡ i.raw.raw_pdu
    → let e' = later_all hash ls (ingest hash i e).0 in ingest hash i' e' ≡ (e', nothing)
unfolding ingest
ingest-ingest hash i i' ls d segment_id e decodes named fresh free within same =
    let e' = later_all hash ls (ingest hash i e).0 in
    let there : segment_exists (hash i.raw.raw_pdu) e'.db.segments ≡ true =
      kept_exists (millis i.now) (hash i.raw.raw_pdu) e'.db.segments (
        later_all-kept hash i.now ls (hash i.raw.raw_pdu) (ingest hash i e).0 within
          (ingest-leaves hash i d segment_id e decodes named fresh free)) in
    seen i' e' (ap (λ pdu. segment_exists (hash pdu) e'.db.segments) same ∙ there)
  where
    seen :
        (i'' : Incoming) (e'' : Engine)
        → segment_exists (hash i''.raw.raw_pdu) e''.db.segments ≡ true
        → ingest hash i'' e'' ≡ (e'', nothing)
    seen i'' e'' p = rw (p, ingest) refl
