-- ===== src/Auth/Refresh.antt =====
-- Rotation of the tokens: `Refresh`.
use cell_bridge.Auth.Issue.{issue_with-Issued, pair_none, lookup_access}
use cell_bridge.Dict.{find, find-assign_self, text_key}
use cell_bridge.Base.{
  Text, ℕ, ◌≡◌, some, true, ◌≢◌, none, false, arith, [], Option-cases, refl, inl, if◌then◌else◌,
  inr, ltb, ◌+◌, ap, ◌∙◌,
}
use cell_bridge.Auth.{
  refresh, refresh_for, issue_tokens, Fresh, issue_with, millis, invalid_token, authorize,
  access_lifetime,
}
use cell_bridge.Auth.Tables.{
  lookup_token, revoke_token, TokenKind, Token, Store, Device, refresh_token,
}

-- A row that is revoked is looked up in vain.
lookup_revoked :
    (k : Text) (kind : TokenKind) (now : ℕ) (token : Token) (db : Store)
    → find k db.tokens ≡ some token
    → token.revoked ≡ true
    → lookup_token k kind now db ≡ none
unfolding lookup_token
lookup_revoked k kind now token db e dead = elim (Option-cases (find token.device_id db.devices)) [
  | inl f ↦ ground (arith, e, f)
  | inr (device, f) ↦ ground (arith, e, f)
]

-- A look-up that names a device.
lookup_named :
    (k : Text) (kind : TokenKind) (now : ℕ) (d : Text) (db : Store)
    → lookup_token k kind now db ≡ some d
    → (token : Token) × (device : Device) × (find k db.tokens ≡ some token)
      × (token.device_id ≡ d)
      × (find d db.devices ≡ some device)
      × (device.revoked ≡ false)
unfolding lookup_token
lookup_named k kind now d db h = elim (Option-cases (find k db.tokens)) [
  | inl e ↦ absurd (ground (arith, e))
  | inr (token, e) ↦ elim (Option-cases (find token.device_id db.devices)) [
    | inl f ↦ absurd (ground (arith, e, f))
    | inr (device, f) ↦
        let same : token.device_id ≡ d = ground (arith, e, f) in
        (token, device, e, same, rw same at f, ground (arith, e, f))
  ]
]

revoke_token-find :
    (k : Text) (kind : TokenKind) (token : Token) (db db' : Store)
    → find k db.tokens ≡ some token
    → revoke_token k kind db ≡ some db'
    → (find k db'.tokens ≡ some (record token { revoked = true })) × (db'.devices ≡ db.devices)
unfolding revoke_token
revoke_token-find k kind token db db' e h =
    ground (arith, e, find-assign_self k (record token { revoked = true }) db.tokens)

refresh_for-eq :
    (hash : Text → Text) (issued : ℕ) (token access refresh' : Text) (fresh : Fresh) (d : Text)
    (db db1 : Store)
    → fresh.access ≡ some access
    → fresh.refresh ≡ some refresh'
    → revoke_token (hash token) refresh_token db ≡ some db1
    → refresh_for hash issued token fresh (some d) db
      ≡ issue_with hash issued d (some access) (some refresh') db1
unfolding refresh_for issue_tokens
refresh_for-eq hash issued token access refresh' fresh d db db1 ea er e =
    rw (e, refresh_for) (rw ea (rw er refl))

refresh-eq :
    (hash : Text → Text) (now issued : ℕ) (token access refresh' : Text) (fresh : Fresh) (d : Text)
    (db db1 : Store)
    → fresh.access ≡ some access
    → fresh.refresh ≡ some refresh'
    → lookup_token (hash token) refresh_token (millis now) db ≡ some d
    → revoke_token (hash token) refresh_token db ≡ some db1
    → refresh hash now issued token fresh db
      ≡ issue_with hash issued d (some access) (some refresh') db1
unfolding refresh
refresh-eq hash now issued token access refresh' fresh d db db1 ea er found e =
    rw found (refresh_for-eq hash issued token access refresh' fresh d db db1 ea er e)

-- An old token is refused.
refresh-revoked :
    (hash : Text → Text) (now issued : ℕ) (token : Text) (fresh : Fresh) (row' : Token) (db : Store)
    → find (hash token) db.tokens ≡ some row'
    → row'.revoked ≡ true
    → refresh hash now issued token fresh db ≡ (db, some invalid_token)
unfolding refresh refresh_for
refresh-revoked hash now issued token fresh row' db there dead =
    rw (lookup_revoked (hash token) refresh_token (millis now) row' db there dead) refl

-- A refresh that goes through rotates the tokens: the old refresh token named a device, its new
-- access token names that device for 15 minutes from the issue and no longer, and from then on the
-- old refresh token is refused as invalid, at any time and with any new tokens.
pub refresh-refresh :
    (hash : Text → Text) (now issued : ℕ) (token access refresh' : Text) (fresh : Fresh)
    (db : Store)
    → fresh.access ≡ some access
    → fresh.refresh ≡ some refresh'
    → access ≢ []
    → (refresh hash now issued token fresh db).1 ≡ none
    → let db' = (refresh hash now issued token fresh db).0 in
      (d : Text) × (lookup_token (hash token) refresh_token (millis now) db ≡ some d)
      × ((t : ℕ)
          → authorize hash t access db'
            ≡ (if ltb (millis t) (millis issued + access_lifetime) then some d else none))
      × ((t t' : ℕ) (fresh' : Fresh)
          → refresh hash t t' token fresh' db' ≡ (db', some invalid_token))
refresh-refresh hash now issued token access refresh' fresh db ea er ne h =
    elim (Option-cases (lookup_token (hash token) refresh_token (millis now) db)) [
      | inl e ↦ absurd (unfold refresh refresh_for in ground (arith, e))
      | inr (d, e) ↦ elim (Option-cases (revoke_token (hash token) refresh_token db)) [
        | inl f ↦ absurd (unfold refresh refresh_for in ground (arith, e, f))
        | inr (db1, f) ↦
            let eq = refresh-eq hash now issued token access refresh' fresh d db db1 ea er e f in
            let (row', device, there, same, known, alive) =
              lookup_named (hash token) refresh_token (millis now) d db e in
            let (dead, kept) = revoke_token-find (hash token) refresh_token row' db db1 there f in
            let v =
              issue_with-Issued hash issued d access refresh' db1 _ (pair_none _ (rw eq at h)) in
            let known' : find d db1.devices ≡ some device = ap (find d) kept ∙ known in
            rw eq (
              d,
              e,
              (lookup_access hash issued d access refresh' db1 _ device v known' alive ne).0,
              λ t t' fresh'.
                  refresh-revoked hash t t' token fresh' (record row' { revoked = true }) _
                    (v.others (hash token) _ dead) refl,
            )
      ]
    ]
