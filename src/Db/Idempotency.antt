-- ===== src/Db/Idempotency.antt =====
-- gateway/internal/db/db.go: the replies that are kept for repeated requests.
use cell_bridge.Dict.{Eq, find, assign, find-assign_self, find-assign_other}
use cell_bridge.Db.{RequestKey, Response, Db}
use cell_bridge.Base.{
  none, some, text_eq, Bool, ◌≡◌, ◌&&◌, true, ◌==◌, ℕ, ◌↔◌, [], List, arith, Option, text_eq_iff,
  ◌≢◌, false, Option-cases, inl, inr, ◌∙◌, refl,
}

unfoldable pub request_beq : RequestKey → RequestKey → Bool
unfolding text_eq
request_beq (d, o, r) (d', o', r') = text_eq d d' && text_eq o o' && text_eq r r'

pub request_beq_iff : (a b : RequestKey) → (request_beq a b ≡ true) ↔ (a ≡ b)
unfolding request_beq
request_beq_iff (d, o, r) (d', o', r') =
    ground (arith, text_eq_iff d d', text_eq_iff o o', text_eq_iff r r')

instance abbrev pub request_key_eq : Eq RequestKey
request_key_eq = record { beq = request_beq; beq_iff = request_beq_iff }

abbrev pub is_pending : Response → Bool
is_pending response = response.status_code == 102

-- `ClaimIdempotency`: the flag says that the key is claimed by this call.
unfoldable pub claim_idempotency : RequestKey → Db → Db × Bool × Response
unfolding find assign
claim_idempotency key db =
    let claimed : Response = record { status_code = 102; body = [] } in
    elim (find key db.responses) [
      | none ↦ (record db { responses = assign key claimed db.responses }, true, claimed)
      | some response ↦ (db, false, response)
    ]

-- `CompleteIdempotency`.
unfoldable pub complete_idempotency : RequestKey → ℕ → List ℕ → Db → Option Db
unfolding find assign
complete_idempotency key status_code body db = elim (find key db.responses) [
  | none ↦ none
  | some response ↦ some (record db {
    responses = assign key (record { status_code = status_code; body = body }) db.responses;
  })
]

claim_absent :
    (key : RequestKey) (db : Db)
    → find key db.responses ≡ none
    → claim_idempotency key db ≡ (
      record db { responses = assign key (record { status_code = 102; body = [] }) db.responses },
      true,
      record { status_code = 102; body = [] },
    )
unfolding claim_idempotency
claim_absent key db e = rw (e, claim_idempotency) refl

claim_present :
    (key : RequestKey) (response : Response) (db : Db)
    → find key db.responses ≡ some response
    → claim_idempotency key db ≡ (db, false, response)
unfolding claim_idempotency
claim_present key response db e = rw (e, claim_idempotency) refl

complete_present :
    (key : RequestKey) (status_code : ℕ) (body : List ℕ) (response : Response) (db : Db)
    → find key db.responses ≡ some response
    → (db2 : Db) × (complete_idempotency key status_code body db ≡ some db2)
      × (claim_idempotency key db2
          ≡ (db2, false, record { status_code = status_code; body = body }))
      × ((other : RequestKey) → key ≢ other → find other db2.responses ≡ find other db.responses)
unfolding complete_idempotency
complete_present key status_code body response db e =
    let reply : Response = record { status_code = status_code; body = body } in
    let db2 : Db = record db { responses = assign key reply db.responses } in
    (
      db2,
      rw (e, complete_idempotency) refl,
      claim_present key reply db2 (find-assign_self key reply db.responses),
      λ other ne. find-assign_other key other reply db.responses ne,
    )

-- A key is claimed once: whoever claims it, the next claim is refused and is given the same reply,
-- and once it is completed every claim is given that reply. No other key is claimed by it.
pub claim_idempotency-complete_idempotency :
    (key other : RequestKey) (status_code : ℕ) (body : List ℕ) (db : Db)
    → key ≢ other
    → let db1 = (claim_idempotency key db).0 in
      (claim_idempotency key db1 ≡ (db1, false, (claim_idempotency key db).2))
      × ((db2 : Db) × (complete_idempotency key status_code body db1 ≡ some db2)
          × (claim_idempotency key db2
              ≡ (db2, false, record { status_code = status_code; body = body }))
          × (find other db2.responses ≡ find other db.responses))
claim_idempotency-complete_idempotency key other status_code body db ne =
    let claimed : Response = record { status_code = 102; body = [] } in
    elim (Option-cases (find key db.responses)) [
      | inl e ↦
          let db1 : Db = record db { responses = assign key claimed db.responses } in
          let there = find-assign_self key claimed db.responses in
          let (db2, done, replayed, kept) =
            complete_present key status_code body claimed db1 there in
          rw (claim_absent key db e) (
            claim_present key claimed db1 there,
            (
              db2,
              done,
              replayed,
              kept other ne ∙ find-assign_other key other claimed db.responses ne,
            ),
          )
      | inr (response, e) ↦
          let (db2, done, replayed, kept) = complete_present key status_code body response db e in
          rw (claim_present key response db e)
            (claim_present key response db e, (db2, done, replayed, kept other ne))
    ]
