-- ===== src/Auth/Revoke.antt =====
-- Revocation of a device: `RevokeDevice` under `Authorize`.
use cell_bridge.Auth.{authorize, is_empty_token, millis}
use mathlib.Core.Option
use cell_bridge.Auth.Tables.{
  revoke_tokens_of, Token, lookup_token, revoke_device, TokenKind, Store, Device, lookup_row,
  access_token, revoked_token,
}
use cell_bridge.Base.{
  Text, Option, some, if◌then◌else◌, ◌≡◌, text_eq, none, ℕ, Option-cases, inl, arith, inr, sym,
  Bool-cases, true, refl, ◌∷◌, [], text_eq_sym, ◌∙◌, false, ap,
}
use cell_bridge.Dict.{find, Map, text_key, assign, find-assign}

-- Revocation maps the rows in place.
find-revoke_tokens_of :
    (k d : Text) (m : Map Text Token)
    → find k (revoke_tokens_of d m) ≡ Option.map (revoked_token d) (find k m)
unfolding find revoke_tokens_of
find-revoke_tokens_of k d [] = refl
find-revoke_tokens_of k d ((j, token) ∷ m) = elim (Bool-cases (text_eq j k)) [
  | inl p ↦ rw p refl
  | inr p ↦ rw p (find-revoke_tokens_of k d m)
]

-- The device id that a look-up returned, less the revoked one.
abbrev pub without : Text → Option Text → Option Text
without d none = none
without d (some x) = if text_eq x d then none else some x

-- The tables after `RevokeDevice`.
abbrev pub revoked_store : Text → Device → Store → Store
revoked_store d device db = record {
  devices = assign d (record device { revoked = true }) db.devices;
  tokens = revoke_tokens_of d db.tokens;
}

revoke_device-eq :
    (d : Text) (device : Device) (db db' : Store)
    → find d db.devices ≡ some device
    → revoke_device d db ≡ some db'
    → revoked_store d device db ≡ db'
unfolding revoke_device
revoke_device-eq d device db db' e h = ground (arith, e)

-- A row of another device, whose own row is kept.
lookup_row-others :
    (d : Text) (token : Token) (kind : TokenKind) (now : ℕ) (db db' : Store)
    → find token.device_id db'.devices ≡ find token.device_id db.devices
    → text_eq token.device_id d ≡ false
    → lookup_row kind now (some token) db' ≡ without d (lookup_row kind now (some token) db)
unfolding lookup_row
lookup_row-others d token kind now db db' same p =
    elim (Option-cases (find token.device_id db.devices)) [
      | inl f ↦ rw (same, f) (ground arith)
      | inr (there, f) ↦ rw (same, f) (ground (arith, p))
    ]

lookup_row-revoked :
    (d : Text) (device : Device) (kind : TokenKind) (now : ℕ) (o : Option Token) (db : Store)
    → lookup_row kind now (Option.map (revoked_token d) o) (revoked_store d device db)
      ≡ without d (lookup_row kind now o db)
unfolding lookup_row
lookup_row-revoked d device kind now none db = refl
lookup_row-revoked d device kind now (some token) db =
    elim (Bool-cases (text_eq token.device_id d)) [
      | inl p ↦ elim (Option-cases (find token.device_id db.devices)) [
        | inl f ↦ rw (p, f) (ground arith)
        | inr (there, f) ↦ rw (p, f) (ground arith)
      ]
      | inr p ↦
          let kept : revoked_token d token ≡ token = rw p refl in
          let same : find token.device_id (revoked_store d device db).devices
              ≡ find token.device_id db.devices =
            find-assign d token.device_id (record device { revoked = true }) db.devices
            ∙ rw (text_eq_sym d token.device_id, p) refl in
          ap (λ t. lookup_row kind now (some t) (revoked_store d device db)) kept
          ∙ lookup_row-others d token kind now db (revoked_store d device db) same p
    ]

lookup-revoke_device :
    (k d : Text) (kind : TokenKind) (now : ℕ) (db db' : Store)
    → revoke_device d db ≡ some db'
    → lookup_token k kind now db' ≡ without d (lookup_token k kind now db)
unfolding lookup_token
lookup-revoke_device k d kind now db db' h = elim (Option-cases (find d db.devices)) [
  | inl e ↦ absurd (unfold revoke_device in ground (arith, e))
  | inr (device, e) ↦ rw (sym (revoke_device-eq d device db db' e h)) (
      rw (find-revoke_tokens_of k d db.tokens)
        (lookup_row-revoked d device kind now (find k db.tokens) db))
]

-- Revoking a device ends all its access at once and nobody else's: after `RevokeDevice`, every token
-- is answered as before, at any time, but for those that named the device, which are refused.
pub authorize-revoke_device :
    (hash : Text → Text) (now : ℕ) (token d : Text) (db db' : Store)
    → revoke_device d db ≡ some db'
    → authorize hash now token db' ≡ without d (authorize hash now token db)
unfolding authorize
authorize-revoke_device hash now token d db db' h = elim (Bool-cases (is_empty_token token)) [
  | inl e ↦ rw e refl
  | inr e ↦ rw e (lookup-revoke_device (hash token) d access_token (millis now) db db' h)
]
