-- ===== src/Db/Tests.antt =====
-- A log of two changes, a first message and a repeated request.
use cell_bridge.Db.Logged.Ops.{perform, insert_message_op, perform-IsLogged}
use cell_bridge.Db.Idempotency.{
  claim_idempotency, complete_idempotency, claim_idempotency-complete_idempotency, request_key_eq,
}
use cell_bridge.Db.Logged.{IsLogged}
use cell_bridge.Dict.{find}
use cell_bridge.Db.Sync.{read_pages, read_pages-take}
use cell_bridge.Base.{
  ℕ, List, [], Text, ◌≡◌, codes, ◌∷◌, take, none, false, ◌*◌, drop, some, arith, text_apart, refl,
  text_eq, ap,
}
use cell_bridge.Db.{Db, Message, RequestKey, Change}

abbrev empty_db : Db
empty_db = record { messages = []; segments = []; calls = []; responses = []; log = [] }

abbrev change : ℕ → Text → Change
change seq id = record {
  seq = seq;
  entity_type = codes "message";
  entity_id = id;
  operation = codes "upsert";
}

abbrev two_changes : List Change
two_changes = change 1 (codes "m1") ∷ change 2 (codes "m2") ∷ []

read_pages-take_example : read_pages 2 1 0 two_changes ≡ take (2 * 1) (drop 0 two_changes)
read_pages-take_example =
    read_pages-take 2 1 0 two_changes (refl, (refl, tt)) (omega arith) (omega arith)

empty_db-IsLogged : IsLogged empty_db
unfolding find
empty_db-IsLogged = record {
  numbered = tt;
  messages = λ id m h. absurd (cc h);
  calls = λ id c h. absurd (cc h);
}

abbrev greeting : Message
greeting = record {
  thread_key = codes "10086";
  direction = codes "inbound";
  peer = codes "10086";
  body = codes "Hi";
  encoding = codes "gsm7";
  status = codes "sent";
  created_at = 5;
  modem_storage = codes "SM";
  modem_index = none;
  pdu_hash = codes "h1";
  sync_seq = 0;
}

perform-IsLogged_example : IsLogged (perform (insert_message_op (codes "m1") greeting) empty_db)
perform-IsLogged_example =
    perform-IsLogged (insert_message_op (codes "m1") greeting) empty_db empty_db-IsLogged

abbrev call_key : RequestKey
call_key = (codes "d1", codes "dial", codes "k1")

abbrev other_key : RequestKey
other_key = (codes "d2", codes "dial", codes "k1")

claim_idempotency-complete_idempotency_example :
    let db1 = (claim_idempotency call_key empty_db).0 in
    (claim_idempotency call_key db1 ≡ (db1, false, (claim_idempotency call_key empty_db).2))
    × ((db2 : Db) × (complete_idempotency call_key 200 (1 ∷ []) db1 ≡ some db2)
        × (claim_idempotency call_key db2
            ≡ (db2, false, record { status_code = 200; body = 1 ∷ [] }))
        × (find ⦃e = request_key_eq⦄ other_key db2.responses
            ≡ find ⦃e = request_key_eq⦄ other_key (empty_db).responses))
claim_idempotency-complete_idempotency_example =
    claim_idempotency-complete_idempotency call_key other_key 200 (1 ∷ []) empty_db (λ q.
      text_apart (codes "d1") (codes "d2") (unfold text_eq in refl)
        (ap (λ (k : RequestKey). k.0) q))
