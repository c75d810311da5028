-- ===== src/Auth/Tables.antt =====
-- gateway/internal/db/db.go: the tables of devices and tokens, as gateway/internal/db/schema.sql
-- declares them, under the statements of `TokenStore`. A key that is there already is refused; the
-- database fails in no other way.
use cell_bridge.Base.{
  Bool, Text, text_eq, true, ℕ, Option, if◌then◌else◌, false, some, none, ◌&&◌, ltb, not, ◌||◌, ◌∷◌,
  [],
}
use cell_bridge.Dict.{text_key, Map, find, assign}

pub data TokenKind : Type 0 where
  access_token refresh_token : TokenKind

abbrev pub same_kind : TokenKind → TokenKind → Bool
same_kind access_token access_token = true
same_kind refresh_token refresh_token = true
same_kind access_token refresh_token = false
same_kind refresh_token access_token = false

pub record Token : Type 0 where
  pub device_id : Text
  pub kind : TokenKind
  pub expires_at : ℕ
  pub revoked : Bool

pub record Device : Type 0 where
  pub name : Text
  pub public_key : Text
  pub revoked : Bool

pub record Store : Type 0 where
  pub devices : Map Text Device
  pub tokens : Map Text Token

-- `CreateDevice`.
unfoldable pub create_device : Text → Text → Text → Store → Option Store
unfolding find assign
create_device device_id name public_key db = elim (find device_id db.devices) [
  | some there ↦ none
  | none ↦ some (record db {
    devices =
        assign device_id (record { name = name; public_key = public_key; revoked = false })
          db.devices;
  })
]

-- `StoreToken`.
unfoldable pub store_token : Text → Token → Store → Option Store
unfolding find assign
store_token token_hash token db = elim (find token_hash db.tokens) [
  | some there ↦ none
  | none ↦ some (record db { tokens = assign token_hash token db.tokens })
]

unfoldable pub lookup_row : TokenKind → ℕ → Option Token → Store → Option Text
unfolding find
lookup_row kind now none db = none
lookup_row kind now (some token) db =
    if same_kind token.kind kind && ltb now token.expires_at
    then elim (find token.device_id db.devices) [
      | none ↦ none
      | some device ↦ if token.revoked || device.revoked then none else some token.device_id
    ]
    else none

-- `LookupToken`: `none` is an error, for a row that is missing, run out or revoked.
unfoldable pub lookup_token : Text → TokenKind → ℕ → Store → Option Text
unfolding lookup_row find
lookup_token token_hash kind now db = lookup_row kind now (find token_hash db.tokens) db

revoke_row : Text → TokenKind → Option Token → Store → Option Store
unfolding assign
revoke_row token_hash kind none db = none
revoke_row token_hash kind (some token) db =
    if same_kind token.kind kind && not token.revoked
    then some (record db { tokens = assign token_hash (record token { revoked = true }) db.tokens })
    else none

-- `RevokeToken`: no row changed is an error.
unfoldable pub revoke_token : Text → TokenKind → Store → Option Store
unfolding revoke_row find
revoke_token token_hash kind db = revoke_row token_hash kind (find token_hash db.tokens) db

abbrev pub revoked_token : Text → Token → Token
revoked_token device_id token =
    if text_eq token.device_id device_id then record token { revoked = true } else token

-- `UPDATE device_tokens ... WHERE device_id = ?`.
unfoldable pub revoke_tokens_of : Text → Map Text Token → Map Text Token
unfolding text_eq
revoke_tokens_of device_id [] = []
revoke_tokens_of device_id ((token_hash, token) ∷ tokens) =
    (token_hash, revoked_token device_id token) ∷ revoke_tokens_of device_id tokens

-- `RevokeDevice`, one transaction.
unfoldable pub revoke_device : Text → Store → Option Store
unfolding revoke_tokens_of find assign
revoke_device device_id db = elim (find device_id db.devices) [
  | none ↦ none
  | some device ↦
      let after : Store = record {
        devices = assign device_id (record device { revoked = true }) db.devices;
        tokens = revoke_tokens_of device_id db.tokens;
      } in
      if device.revoked then none else some after
]
