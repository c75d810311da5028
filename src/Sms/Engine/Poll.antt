-- ===== src/Sms/Engine/Poll.antt =====
-- gateway/internal/sms/engine.go: a round of the poll in `Run`, and the entries it has the modem delete.
use cell_bridge.At.Inbox.{RawSms}
use cell_bridge.Sms.Engine.Repeat.{ingest-eq, ingest-ingest, later_all}
use cell_bridge.Sms.Hex.{hex_encode}
use cell_bridge.Sms.Decode.{DecodedMessage, decode_pdu, ok}
use cell_bridge.Db.Segments.{has_id, segment_exists}
use cell_bridge.Base.{
  List, Text, ℕ, [], Bool, suc, true, false, Option, ◌++◌, ◌∷◌, if◌then◌else◌, ◌≤◌, zero, ◌≡◌, none,
  some, ltb, arith, refl, ap, ◌∙◌,
}
use cell_bridge.Sms.Engine.Ingest.{
  ingest, ingest_stored, Ingested, store_message, Incoming, stored, failed, crashed, nothing,
  row_of, pruned,
}
use cell_bridge.Ints.{ℤ, pos, negsuc}
use cell_bridge.Sms.Engine.{Engine}

-- `delivered` are the ids of the messages that `onMessage` is called with, `deleted` the entries that
-- the modem is told to delete, and `panicked` says that the process has ended.
pub record Round : Type 0 where
  pub engine : Engine
  pub delivered : List Text
  pub deleted : List ℤ
  pub panicked : Bool

-- `if raw.ModemIndex > 0`.
abbrev pub delete_entry : ℤ → List ℤ → List ℤ
delete_entry (pos zero) deleted = deleted
delete_entry (pos (suc n)) deleted = deleted ++ pos (suc n) ∷ []
delete_entry (negsuc n) deleted = deleted

abbrev pub after_ingest : ℤ → Ingested → Round → Round
after_ingest index failed r = r
after_ingest index crashed r = record r { panicked = true }
after_ingest index nothing r = record r { deleted = delete_entry index r.deleted }
after_ingest index (stored id m) r = record r {
  delivered = r.delivered ++ id ∷ [];
  deleted = delete_entry index r.deleted;
}

-- One entry of the inbox.
unfoldable pub poll_entry : (List ℕ → Text) → Incoming → Round → Round
unfolding ingest
poll_entry hash i r =
    let (e, result) = ingest hash i r.engine in
    after_ingest i.raw.modem_index result (record r { engine = e })

unfoldable pub poll_entries : (List ℕ → Text) → List Incoming → Round → Round
unfolding poll_entry
poll_entries hash [] r = r
poll_entries hash (i ∷ entries) r =
    let next = poll_entries hash entries (poll_entry hash i r) in
    if (poll_entry hash i r).panicked then poll_entry hash i r else next

abbrev pub start_round : Engine → Round
start_round e = record { engine = e; delivered = []; deleted = []; panicked = false }

-- The round on what `ListSMS` returned; `none` is an error of it.
unfoldable pub poll : (List ℕ → Text) → ℕ → ℕ → Option (List Incoming) → Engine → Round
unfolding poll_entries pruned
poll hash now now' entries e = elim entries [
  | none ↦ start_round (pruned now now' e)
  | some entries ↦ poll_entries hash entries (start_round (pruned now now' e))
]

ingest_stored-unnamed :
    (hash : List ℕ → Text) (i : Incoming) (d : DecodedMessage) (e : Engine)
    → d.total_parts ≤ 1
    → i.message_id ≡ none
    → ingest_stored hash i d e ≡ (e, failed)
unfolding ingest_stored store_message
ingest_stored-unnamed hash i d e single unnamed =
    let one : ltb 1 d.total_parts ≡ false = ground arith in rw (one, unnamed, ingest_stored) refl

-- A message of one part is lost when its id cannot be made: `Ingest` fails and stores no message, but
-- leaves the segment, so that the next turn of the same entry stores none either and has the modem
-- delete it.
pub ingest-poll_entry :
    (hash : List ℕ → Text) (i i' : Incoming) (d : DecodedMessage) (segment_id : Text) (index : ℕ)
    (e : Engine)
    → decode_pdu (hex_encode i.raw.raw_pdu) ≡ ok d
    → i.segment_id ≡ some segment_id
    → has_id segment_id e.db.segments ≡ false
    → segment_exists (hash i.raw.raw_pdu) e.db.segments ≡ false
    → d.total_parts ≤ 1
    → i.message_id ≡ none
    → i'.raw ≡ i.raw
    → i.raw.modem_index ≡ pos (suc index)
    → ((ingest hash i e).1 ≡ failed)
      × ((ingest hash i e).0.db.messages ≡ e.db.messages)
      × (poll_entry hash i' (start_round (ingest hash i e).0)
          ≡ record (start_round (ingest hash i e).0) { deleted = pos (suc index) ∷ [] })
unfolding poll_entry later_all
ingest-poll_entry hash i i' d segment_id index e decodes named fresh free single unnamed same at =
    let eq = ingest-eq hash i d segment_id e decodes named fresh free in
    let again =
      ingest-ingest hash i i' [] d segment_id e decodes named fresh free tt
        (ap (λ (raw : RawSms). raw.raw_pdu) same) in
    let e' : Engine = record e {
      db = record e.db { segments = e.db.segments ++ row_of hash i segment_id d ∷ [] };
    } in
    let left = ingest_stored-unnamed hash i d e' single unnamed in
    (
      ap (λ (out : Engine × Ingested). out.1) (eq ∙ left),
      ap (λ (out : Engine × Ingested). out.0.db.messages) (eq ∙ left),
      rw (again, ap (λ (raw : RawSms). raw.modem_index) same ∙ at) refl,
    )
