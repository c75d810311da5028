-- ===== src/Auth.antt =====
-- gateway/internal/auth/auth.go: pairing and tokens, over the tables of Auth/Tables. Random values and
-- ids, which may fail, are arguments, as are the verdicts on an address and on a signature, and the
-- hash. A clock reading is a number of nanoseconds; the tables keep milliseconds.
pub mod Tables
pub mod Issue
pub mod Complete
pub mod Refresh
pub mod Revoke
mod Tests
use cell_bridge.Auth.Tables.{
  TokenKind, Store, store_token, Token, access_token, create_device, lookup_token, revoke_token,
  refresh_token,
}
use cell_bridge.Dict.{assign, Map, find, delete, text_key}
use cell_bridge.Base.{
  ℕ, Text, Option, ◌*◌, ◌/◌, some, Bool, ◌+◌, if◌then◌else◌, ◌++◌, true, none, false, ◌∷◌, not, ltb,
  [],
}

pub data AuthErr : Type 0 where
  local_only pairing_expired invalid_proof invalid_token no_random store_failed : AuthErr

-- `PairingLifetime`, in nanoseconds; `AccessLifetime` and `RefreshLifetime`, in milliseconds.
abbrev pub pairing_lifetime : ℕ
pairing_lifetime = 5 * 60 * 1000000000

abbrev pub access_lifetime : ℕ
access_lifetime = 15 * 60 * 1000

abbrev pub refresh_lifetime : ℕ
refresh_lifetime = 30 * 24 * 60 * 60 * 1000

pub record Pairing : Type 0 where
  pub id : Text
  pub secret : Text
  pub expires_at : ℕ

pub record Service : Type 0 where
  pub gateway_id : Text
  pub pairings : Map Text Pairing
  pub store : Store

-- `UnixMilli`.
abbrev pub millis : ℕ → ℕ
millis now = now / 1000000

-- `startPairing`; the secret is the result when there is no error.
start_with : ℕ → Option Text → Option Text → Service → Service × Option AuthErr
start_with now none secret s = (s, some no_random)
start_with now (some pairing_id) none s = (s, some no_random)
start_with now (some pairing_id) (some secret) s = (
  record s {
    pairings =
        assign pairing_id
          (record { id = pairing_id; secret = secret; expires_at = now + pairing_lifetime })
          s.pairings;
  },
  none,
)

-- `StartPairing` and `StartPairingFromTailnet`.
unfoldable pub start_pairing :
    Bool → ℕ → Option Text → Option Text → Service → Service × Option AuthErr
unfolding start_with assign
start_pairing is_local now pairing_id secret s =
    if is_local then start_with now pairing_id secret s else (s, some local_only)

-- The row of a token.
abbrev pub row : Text → TokenKind → ℕ → Token
row device_id kind expires_at = record {
  device_id = device_id;
  kind = kind;
  expires_at = expires_at;
  revoked = false;
}

-- What the service is given to issue: an access token and a refresh token.
pub record Fresh : Type 0 where
  pub access : Option Text
  pub refresh : Option Text

unfoldable pub issue_with :
    (Text → Text) → ℕ → Text → Option Text → Option Text → Store → Store × Option AuthErr
issue_with hash now device_id none refresh db = (db, some no_random)
issue_with hash now device_id (some access) none db = (db, some no_random)
issue_with hash now device_id (some access) (some refresh) db =
    elim (store_token (hash access) (row device_id access_token (millis now + access_lifetime))
      db) [
        | none ↦ (db, some store_failed)
        | some db' ↦
            elim (store_token (hash refresh)
              (row device_id refresh_token (millis now + refresh_lifetime)) db') [
                | none ↦ (db', some store_failed)
                | some db'' ↦ (db'', none)
              ]
      ]

-- `issueTokens`; the tokens are the result when there is no error.
unfoldable pub issue_tokens : (Text → Text) → ℕ → Text → Fresh → Store → Store × Option AuthErr
unfolding issue_with store_token
issue_tokens hash now device_id fresh db =
    issue_with hash now device_id fresh.access fresh.refresh db

-- What `Complete` is called with, the device id that it makes, and its two clock readings.
pub record Request : Type 0 where
  pub pairing_id : Text
  pub device_name : Text
  pub public_key : Text
  pub proof : Text
  pub device_id : Option Text
  pub checked_at : ℕ
  pub issued_at : ℕ
  pub fresh : Fresh

-- The library code that the service calls: the hash of a token, and `ed25519.Verify` of a public key,
-- a message and a proof.
pub record Crypto : Type 0 where
  pub hash : Text → Text
  pub verify : Text → Text → Text → Bool

-- The message that is signed: four parts, a line each.
abbrev pub signed_message : Request → Pairing → Text → Text
signed_message r p gateway_id =
    r.pairing_id ++ (10 ∷ (p.secret ++ (10 ∷ (gateway_id ++ (10 ∷ r.device_name)))))

register_device : Crypto → Request → Option Text → Store → Store × Option AuthErr
unfolding issue_tokens create_device
register_device c r none db = (db, some no_random)
register_device c r (some device_id) db =
    elim (create_device device_id r.device_name r.public_key db) [
      | none ↦ (db, some store_failed)
      | some db' ↦ issue_tokens c.hash r.issued_at device_id r.fresh db'
    ]

complete_record : Crypto → Request → Text → Option Pairing → Store → Store × Option AuthErr
unfolding register_device
complete_record c r gateway_id none db = (db, some pairing_expired)
complete_record c r gateway_id (some p) db =
    if not (ltb r.checked_at p.expires_at)
    then (db, some pairing_expired)
    else if not (c.verify r.public_key (signed_message r p gateway_id) r.proof)
    then (db, some invalid_proof)
    else register_device c r r.device_id db

-- `Complete`; the device id and the tokens are the result when there is no error.
unfoldable pub complete : Crypto → Request → Service → Service × Option AuthErr
unfolding complete_record find delete
complete c r s =
    let (db, err) = complete_record c r s.gateway_id (find r.pairing_id s.pairings) s.store in
    (
      record { gateway_id = s.gateway_id; pairings = delete r.pairing_id s.pairings; store = db },
      err,
    )

abbrev is_empty_token : Text → Bool
is_empty_token [] = true
is_empty_token (c ∷ s) = false

-- `Authorize`: the device id, or an error. The table never reports `ErrDeviceRevoked`, so the error
-- is always `ErrInvalidToken`.
unfoldable pub authorize : (Text → Text) → ℕ → Text → Store → Option Text
unfolding lookup_token
authorize hash now token db =
    if is_empty_token token then none else lookup_token (hash token) access_token (millis now) db

refresh_for : (Text → Text) → ℕ → Text → Fresh → Option Text → Store → Store × Option AuthErr
unfolding issue_tokens revoke_token
refresh_for hash issued_at token fresh none db = (db, some invalid_token)
refresh_for hash issued_at token fresh (some device_id) db =
    elim (revoke_token (hash token) refresh_token db) [
      | none ↦ (db, some store_failed)
      | some db' ↦ issue_tokens hash issued_at device_id fresh db'
    ]

-- `Refresh`; its clock is read for the look-up and for the new tokens.
unfoldable pub refresh : (Text → Text) → ℕ → ℕ → Text → Fresh → Store → Store × Option AuthErr
unfolding refresh_for lookup_token
refresh hash now issued_at token fresh db =
    refresh_for hash issued_at token fresh (lookup_token (hash token) refresh_token (millis now) db)
      db
