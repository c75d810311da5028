-- ===== src/Auth/Complete.antt =====
-- One-time pairings and the tokens they grant: `Complete` and `Authorize`.
use cell_bridge.Auth.Issue.{Issued, issue_with-Issued, pair_none, lookup_access}
use cell_bridge.Dict.{find, delete, find-delete, find-assign_self, text_key, delete_absent}
use cell_bridge.Base.{
  Text, Option, ◌≡◌, some, none, ◌<◌, ◌≢◌, false, refl, Option-cases, [], arith, true, inr, inl,
  Bool-cases, ℕ, text_eq_refl, ltb, ltb→lt, if◌then◌else◌, ◌+◌, ◌∙◌, ap,
}
use cell_bridge.Auth.Tables.{create_device, Store}
use cell_bridge.Auth.{
  complete, Crypto, complete_record, register_device, Request, Service, issue_tokens, Pairing,
  pairing_expired, issue_with, signed_message, authorize, millis, access_lifetime,
}

-- A pairing is used up by the first attempt to complete it, whatever comes of that: every later
-- attempt under its id is refused as expired and changes nothing, until a pairing is started anew.
pub complete-complete :
    (c : Crypto) (r r' : Request) (s : Service)
    → r'.pairing_id ≡ r.pairing_id
    → complete c r' (complete c r s).0 ≡ ((complete c r s).0, some pairing_expired)
unfolding complete complete_record
complete-complete c r r' s same =
    let gone : find r.pairing_id (delete r.pairing_id s.pairings) ≡ none =
      ground (arith, find-delete r.pairing_id r.pairing_id s.pairings, text_eq_refl r.pairing_id) in
    rw same (rw gone (rw (delete_absent r.pairing_id (delete r.pairing_id s.pairings) gone) refl))

-- What stands behind a completion that has gone through.
complete_record-done :
    (c : Crypto) (r : Request) (gateway_id : Text) (o : Option Pairing) (db : Store)
    → (complete_record c r gateway_id o db).1 ≡ none
    → (p : Pairing) × (o ≡ some p)
      × (r.checked_at < p.expires_at)
      × (c.verify r.public_key (signed_message r p gateway_id) r.proof ≡ true)
      × (complete_record c r gateway_id o db ≡ register_device c r r.device_id db)
unfolding complete_record
complete_record-done c r gateway_id none db h = absurd (cc h)
complete_record-done c r gateway_id (some p) db h =
    elim (Bool-cases (ltb r.checked_at p.expires_at)) [
      | inr b ↦ absurd (cc (rw b at h))
      | inl b ↦ elim (Bool-cases (c.verify r.public_key (signed_message r p gateway_id) r.proof)) [
        | inr v ↦ absurd (cc (rw (b, v) at h))
        | inl v ↦ (p, refl, ltb→lt _ _ b, v, rw b (rw v refl))
      ]
    ]

create_device-known :
    (d name key : Text) (db db' : Store)
    → create_device d name key db ≡ some db'
    → find d db'.devices ≡ some (record { name = name; public_key = key; revoked = false })
unfolding create_device
create_device-known d name key db db' h = elim (Option-cases (find d db.devices)) [
  | inr (there, e) ↦ absurd (ground (arith, e))
  | inl e ↦ ground (
    arith,
    find-assign_self d (record { name = name; public_key = key; revoked = false }) db.devices,
  )
]

register_device-known :
    (c : Crypto) (r : Request) (d access refresh : Text) (db db1 : Store)
    → r.fresh.access ≡ some access
    → r.fresh.refresh ≡ some refresh
    → create_device d r.device_name r.public_key db ≡ some db1
    → register_device c r (some d) db
      ≡ issue_with c.hash r.issued_at d (some access) (some refresh) db1
unfolding register_device issue_tokens
register_device-known c r d access refresh db db1 ea er e =
    rw (e, register_device) (rw ea (rw er refl))

register_device-Issued :
    (c : Crypto) (r : Request) (d access refresh : Text) (db : Store)
    → r.fresh.access ≡ some access
    → r.fresh.refresh ≡ some refresh
    → (register_device c r (some d) db).1 ≡ none
    → (db1 : Store) × (create_device d r.device_name r.public_key db ≡ some db1)
      × Issued c.hash r.issued_at d access refresh db1 (register_device c r (some d) db).0
register_device-Issued c r d access refresh db ea er h =
    elim (Option-cases (create_device d r.device_name r.public_key db)) [
      | inl e ↦ absurd (unfold register_device in ground (arith, e))
      | inr (db1, e) ↦
          let eq = register_device-known c r d access refresh db db1 ea er e in
          (
            db1,
            e,
            rw eq (
                issue_with-Issued c.hash r.issued_at d access refresh db1 _
                  (pair_none _ (rw eq at h))),
          )
    ]

-- A completion that goes through had an open pairing and a valid signature over its secret, and
-- grants what it should: the access token names the new device for 15 minutes from its issue and no
-- longer, and the refresh token is no access token. Equal hashes are no exception, since the table
-- would have refused them.
pub complete-authorize :
    (c : Crypto) (r : Request) (s : Service) (d access refresh : Text)
    → r.device_id ≡ some d
    → r.fresh.access ≡ some access
    → r.fresh.refresh ≡ some refresh
    → access ≢ []
    → (complete c r s).1 ≡ none
    → let db = (complete c r s).0.store in
      ((p : Pairing) × (find r.pairing_id s.pairings ≡ some p)
        × (r.checked_at < p.expires_at)
        × (c.verify r.public_key (signed_message r p s.gateway_id) r.proof ≡ true))
      × ((t : ℕ)
          → authorize c.hash t access db
            ≡ (if ltb (millis t) (millis r.issued_at + access_lifetime) then some d else none))
      × ((t : ℕ) → authorize c.hash t refresh db ≡ none)
unfolding complete
complete-authorize c r s d access refresh ed ea er ne h =
    let (p, there, open_yet, valid, eq) =
      complete_record-done c r s.gateway_id (find r.pairing_id s.pairings) s.store h in
    let eq' : complete_record c r s.gateway_id (find r.pairing_id s.pairings) s.store
        ≡ register_device c r (some d) s.store =
      eq ∙ ap (λ o. register_device c r o s.store) ed in
    let (db1, made, v) = register_device-Issued c r d access refresh s.store ea er (rw eq' at h) in
    let granted =
      lookup_access c.hash r.issued_at d access refresh db1 _ _ v
        (create_device-known d r.device_name r.public_key s.store db1 made) refl ne in
    ((p, there, open_yet, valid), rw eq' granted.0, rw eq' granted.1)
