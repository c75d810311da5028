-- ===== src/Sms/Engine/Delivery.antt =====
-- How `Send` ends, told from the modem's answers alone.
use cell_bridge.Db.Stored.{with_message, insert_message-eq, find-with_message}
use cell_bridge.Db.Log.{append_sync_log}
use cell_bridge.Dict.{find, text_key, find-assign_self, assign}
use cell_bridge.Db.Messages.{
  update_message_status, set_status, is_empty, message_exists_by_pdu_hash,
}
use cell_bridge.Db.{Db, Message}
use cell_bridge.Base.{
  List, Text, Bool, ◌∷◌, codes, false, [], true, ◌≡◌, some, trim_space, length, ◌+◌, ◌⊎◌, ℕ, inl,
  inr, refl, ap, ◌≢◌, none, ◌%◌, text_eq,
}
use cell_bridge.Sms.Engine.Send.{
  Answer, taken, unknown, refused, advance, Outcome, submit_parts, sent_message, finish, send,
  send_parts, outgoing,
}
use cell_bridge.Sms.Submit.{SubmitSegment, encode_submit_segments}

-- The PDUs up to the first part that is not taken.
unfoldable pub handed : (SubmitSegment → Answer) → List SubmitSegment → List Text
handed modem [] = []
handed modem (part ∷ parts) =
    let rest = handed modem parts in
    elim (modem part) [
      | taken ↦ part.pdu ∷ rest
      | unknown ↦ part.pdu ∷ []
      | refused ↦ part.pdu ∷ []
    ]

-- The answer that the parts end with: the first that is not `taken`, if there is one.
unfoldable pub last_answer : (SubmitSegment → Answer) → List SubmitSegment → Answer
last_answer modem [] = taken
last_answer modem (part ∷ parts) =
    let rest = last_answer modem parts in
    elim (modem part) [ taken ↦ rest | unknown ↦ unknown | refused ↦ refused ]

abbrev pub status_of : Answer → Text
status_of taken = codes "sent"
status_of unknown = codes "submitted"
status_of refused = codes "failed"

Answer-cases : (a : Answer) → (a ≡ taken) ⊎ ((a ≡ unknown) ⊎ (a ≡ refused))
Answer-cases taken = inl refl
Answer-cases unknown = inr (inl refl)
Answer-cases refused = inr (inr refl)

abbrev pub is_refused : Answer → Bool
is_refused taken = false
is_refused unknown = false
is_refused refused = true

-- A row with a status, under the number of the change.
abbrev pub moved : Text → ℕ → Message → Message
moved status seq m = record m { status = status; sync_seq = seq }

-- An update cannot fail while the message is there.
advance-moved :
    (id status : Text) (m row : Message) (db : Db)
    → is_empty (trim_space id) ≡ false
    → is_empty (trim_space status) ≡ false
    → find id db.messages ≡ some row
    → (db' : Db) × (seq : ℕ) × (advance id status m db ≡ (db', moved status seq m, true))
      × (find id db'.messages ≡ some (moved status seq row))
unfolding advance update_message_status set_status append_sync_log
advance-moved id status m row db named filled there =
    let seq = length db.log + 1 in
    let db' : Db = record db {
      messages = assign id (moved status seq row) db.messages;
      log = (append_sync_log (codes "message") id (codes "upsert") db.log).0;
    } in
    (
      db',
      seq,
      rw (named, filled, there, advance) refl,
      find-assign_self id (moved status seq row) db.messages,
    )

-- What the parts leave, from a message that is in the table.
abbrev pub IsDelivered :
    Text → Answer → Message → Message → List Text → Db × Outcome × List Text → Type 0
IsDelivered id answer m row pdus (db, outcome, given) =
    (seq : ℕ) × (outcome ≡ sent_message (moved (status_of answer) seq m) (is_refused answer))
    × (find id db.messages ≡ some (moved (status_of answer) seq row))
    × (given ≡ pdus)

module _ (modem : SubmitSegment → Answer) (part : SubmitSegment) (parts : List SubmitSegment) where
  -- The first part is not taken, and the message gets the status of that.
  submit_parts_stopped :
      (id : Text) (answer : Answer) (m row : Message) (db db' : Db) (seq : ℕ)
      → modem part ≡ answer
      → answer ≢ taken
      → advance id (status_of answer) m db ≡ (db', moved (status_of answer) seq m, true)
      → find id db'.messages ≡ some (moved (status_of answer) seq row)
      → IsDelivered id
          (last_answer modem (part ∷ parts))
          m
          row
          (handed modem (part ∷ parts))
          (submit_parts modem id (part ∷ parts) m db)
  unfolding submit_parts finish last_answer handed
  submit_parts_stopped id taken m row db db' seq e ne e1 f = absurd (ne refl)
  submit_parts_stopped id unknown m row db db' seq e ne e1 f =
      let last : last_answer modem (part ∷ parts) ≡ unknown = rw (e, last_answer) refl in
      let given : handed modem (part ∷ parts) ≡ part.pdu ∷ [] = rw (e, handed) refl in
      let end : submit_parts modem id (part ∷ parts) m db
          ≡ (db', sent_message (moved (codes "submitted") seq m) false, part.pdu ∷ []) =
        rw (e, submit_parts) (rw e1 refl) in
      rw (last, given, end) (seq, refl, f, refl)
  submit_parts_stopped id refused m row db db' seq e ne e1 f =
      let last : last_answer modem (part ∷ parts) ≡ refused = rw (e, last_answer) refl in
      let given : handed modem (part ∷ parts) ≡ part.pdu ∷ [] = rw (e, handed) refl in
      let end : submit_parts modem id (part ∷ parts) m db
          ≡ (db', sent_message (moved (codes "failed") seq m) true, part.pdu ∷ []) =
        rw (e, submit_parts) (rw e1 refl) in
      rw (last, given, end) (seq, refl, f, refl)

  submit_parts_taken :
      (id : Text) (m m1 row : Message) (db db1 : Db) (seq : ℕ)
      → modem part ≡ taken
      → advance id (codes "submitted") m db ≡ (db1, m1, true)
      → (last_answer modem (part ∷ parts) ≡ last_answer modem parts)
        × (handed modem (part ∷ parts) ≡ part.pdu ∷ handed modem parts)
        × (submit_parts modem id (part ∷ parts) m db ≡ (
          (submit_parts modem id parts m1 db1).0,
          (submit_parts modem id parts m1 db1).1,
          part.pdu ∷ (submit_parts modem id parts m1 db1).2,
        ))
  unfolding submit_parts last_answer handed
  submit_parts_taken id m m1 row db db1 seq e e1 =
      (rw (e, last_answer) refl, rw (e, handed) refl, rw (e, submit_parts) (rw e1 refl))

-- The parts of a message that is in the table.
submit_parts-IsDelivered :
    (modem : SubmitSegment → Answer) (id : Text) (parts : List SubmitSegment) (m row : Message)
    (db : Db)
    → is_empty (trim_space id) ≡ false
    → find id db.messages ≡ some row
    → IsDelivered id
        (last_answer modem parts)
        m
        row
        (handed modem parts)
        (submit_parts modem id parts m db)
unfolding submit_parts finish last_answer handed
submit_parts-IsDelivered modem id [] m row db named there =
    let (db', seq, e, f) = advance-moved id (codes "sent") m row db named refl there in
    rw e (seq, refl, f, refl)
submit_parts-IsDelivered modem id (part ∷ parts) m row db named there =
    elim (Answer-cases (modem part)) [
      | inl e ↦
          let (db1, seq1, e1, f1) =
            advance-moved id (codes "submitted") m row db named refl there in
          let m1 = moved (codes "submitted") seq1 m in
          let (seq, o, f, g) =
            submit_parts-IsDelivered modem id parts m1 (moved (codes "submitted") seq1 row) db1
              named f1 in
          let (last, given, end) =
            submit_parts_taken modem part parts id m m1 row db db1 seq e e1 in
          rw (last, given, end) (seq, o, f, ap (λ t. part.pdu ∷ t) g)
      | inr (inl e) ↦
          let (db', seq, e1, f) = advance-moved id (codes "submitted") m row db named refl there in
          submit_parts_stopped modem part parts id unknown m row db db' seq e (λ q. absurd (cc q))
            e1 f
      | inr (inr e) ↦
          let (db', seq, e1, f) = advance-moved id (codes "failed") m row db named refl there in
          submit_parts_stopped modem part parts id refused m row db db' seq e (λ q. absurd (cc q))
            e1 f
    ]

-- `Send` of a message that can be encoded, under a new id: the modem is given the PDUs of its parts in
-- their order up to the first that it does not take, and no further. The message that is returned and
-- its row in the table both have the status that the last answer means: sent when all parts are taken,
-- submitted when one is in doubt, and failed, the only error, when one is refused.
pub send-IsDelivered :
    (modem : SubmitSegment → Answer) (to body id : Text) (started now : ℕ) (first : SubmitSegment)
    (parts : List SubmitSegment) (db : Db)
    → encode_submit_segments to body (started % 256) ≡ some (first ∷ parts)
    → find id db.messages ≡ none
    → is_empty (trim_space id) ≡ false
    → let m = outgoing to body first.encoding now in
      IsDelivered id
        (last_answer modem (first ∷ parts))
        m
        m
        (handed modem (first ∷ parts))
        (send modem to body started now (some id) db)
unfolding send send_parts
send-IsDelivered modem to body id started now first parts db encoded absent named =
    let m = outgoing to body first.encoding now in
    let seq = length db.log + 1 in
    let db' = with_message id m db in
    let put =
      insert_message-eq id m db absent (unfold text_eq in refl)
        (unfold message_exists_by_pdu_hash in refl) in
    let there = find-with_message id m db in
    let m' = record m { sync_seq = seq } in
    let eq : send modem to body started now (some id) db
        ≡ submit_parts modem id (first ∷ parts) m' db' =
      rw (encoded, send) (rw (put, send_parts) refl) in
    rw eq (submit_parts-IsDelivered modem id (first ∷ parts) m' m' db' named there)
