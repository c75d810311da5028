-- ===== src/Auth/Issue.antt =====
-- What issuing a pair of tokens leaves in the tables, and what their look-ups then return.
use cell_bridge.Dict.{Map, find, find-assign, text_key}
use cell_bridge.Auth.{
  issue_with, authorize, row, AuthErr, millis, access_lifetime, refresh_lifetime, is_empty_token,
}
use cell_bridge.Base.{
  Text, ℕ, Option, ◌≡◌, some, none, if◌then◌else◌, text_eq, false, ap, Option-cases, Bool-cases,
  ◌+◌, ◌≢◌, inr, inl, ◌&&◌, [], arith, text_eq_iff, ltb, not, text_eq_refl, sym, ◌||◌, ◌∷◌, ◌∙◌,
  refl,
}
use cell_bridge.Auth.Tables.{
  store_token, lookup_token, Store, Token, TokenKind, Device, access_token, same_kind,
  refresh_token,
}

-- A token that is stored is the row that is found under its hash, and no other row changes.
pub store_token-find :
    (k j : Text) (token : Token) (db db' : Store)
    → store_token k token db ≡ some db'
    → (find k db.tokens ≡ none)
      × (db'.devices ≡ db.devices)
      × (find j db'.tokens ≡ (if text_eq k j then some token else find j db.tokens))
unfolding store_token
store_token-find k j token db db' h = elim (Option-cases (find k db.tokens)) [
  | inr (there, e) ↦ absurd (ground (arith, e))
  | inl e ↦ ground (arith, find-assign k j token db.tokens)
]

-- Two different keys, where one is free and the other is not.
distinct :
    (k j : Text) (t : Token) (m : Map Text Token)
    → find k m ≡ none
    → find j m ≡ some t
    → text_eq k j ≡ false
distinct k j t m free held = elim (Bool-cases (text_eq k j)) [
  | inl p ↦ let same : k ≡ j = (text_eq_iff k j).0 p in absurd (cc (rw same at free))
  | inr p ↦ p
]

-- What a successful issue leaves in the tables.
pub record Issued (hash : Text → Text) (now : ℕ) (device_id access refresh : Text) (db db' : Store)
    : Type 0 where
  pub devices_kept : db'.devices ≡ db.devices
  pub access_row :
      find (hash access) db'.tokens
      ≡ some (row device_id access_token (millis now + access_lifetime))
  pub refresh_row :
      find (hash refresh) db'.tokens
      ≡ some (row device_id refresh_token (millis now + refresh_lifetime))
  pub others : (k : Text) (t : Token) → find k db.tokens ≡ some t → find k db'.tokens ≡ some t

store_token-Issued :
    (hash : Text → Text) (now : ℕ) (device_id access refresh : Text) (db db1 db2 : Store)
    → store_token (hash access) (row device_id access_token (millis now + access_lifetime)) db
      ≡ some db1
    → store_token (hash refresh) (row device_id refresh_token (millis now + refresh_lifetime)) db1
      ≡ some db2
    → Issued hash now device_id access refresh db db2
store_token-Issued hash now device_id access refresh db db1 db2 e f =
    let first = row device_id access_token (millis now + access_lifetime) in
    let second = row device_id refresh_token (millis now + refresh_lifetime) in
    let (free, kept, here) = store_token-find (hash access) (hash access) first db db1 e in
    let held : find (hash access) db1.tokens ≡ some first =
      ground (arith, text_eq_refl (hash access)) in
    let (free', kept', there) = store_token-find (hash refresh) (hash access) second db1 db2 f in
    let (_, _, last) = store_token-find (hash refresh) (hash refresh) second db1 db2 f in
    let apart = distinct (hash refresh) (hash access) first db1.tokens free' held in
    record {
      devices_kept = kept' ∙ kept;
      access_row = there ∙ rw apart held;
      refresh_row = last ∙ rw (text_eq_refl (hash refresh)) refl;
      others = λ k t h.
          let (_, _, mid) = store_token-find (hash access) k first db db1 e in
          let (_, _, end) = store_token-find (hash refresh) k second db1 db2 f in
          let held' : find k db1.tokens ≡ some t =
            mid ∙ rw (distinct (hash access) k t db.tokens free h) h in
          end ∙ rw (distinct (hash refresh) k t db1.tokens free' held') held';
    }

pub issue_with-Issued :
    (hash : Text → Text) (now : ℕ) (device_id access refresh : Text) (db db' : Store)
    → issue_with hash now device_id (some access) (some refresh) db ≡ (db', none)
    → Issued hash now device_id access refresh db db'
unfolding issue_with
issue_with-Issued hash now device_id access refresh db db' h =
    let first = row device_id access_token (millis now + access_lifetime) in
    let second = row device_id refresh_token (millis now + refresh_lifetime) in
    elim (Option-cases (store_token (hash access) first db)) [
      | inl e ↦ absurd (ground (arith, e))
      | inr (db1, e) ↦ elim (Option-cases (store_token (hash refresh) second db1)) [
        | inl f ↦ absurd (ground (arith, e, f))
        | inr (db2, f) ↦
            let same : db2 ≡ db' = ground (arith, e, f) in
            rw (sym same) (store_token-Issued hash now device_id access refresh db db1 db2 e f)
      ]
    ]

-- A token of a device that is not revoked, under its row.
pub lookup-row :
    (k : Text) (kind : TokenKind) (now : ℕ) (token : Token) (device : Device) (db : Store)
    → find k db.tokens ≡ some token
    → find token.device_id db.devices ≡ some device
    → lookup_token k kind now db ≡ (
        if same_kind token.kind kind
          && ltb now token.expires_at
          && not (token.revoked || device.revoked)
        then some token.device_id
        else none)
unfolding lookup_token
lookup-row k kind now token device db e f = rw e (rw f (ground arith))

pub lookup_access :
    (hash : Text → Text) (issued : ℕ) (d access refresh : Text) (db db' : Store) (device : Device)
    → Issued hash issued d access refresh db db'
    → find d db.devices ≡ some device
    → device.revoked ≡ false
    → access ≢ []
    → ((t : ℕ)
        → authorize hash t access db'
          ≡ (if ltb (millis t) (millis issued + access_lifetime) then some d else none))
      × ((t : ℕ) → authorize hash t refresh db' ≡ none)
unfolding authorize
lookup_access hash issued d access refresh db db' device v known alive ne =
    let known' : find d db'.devices ≡ some device = ap (find d) v.devices_kept ∙ known in
    (
      λ t. rw (not_empty access ne) (
          lookup-row (hash access) access_token (millis t)
            (row d access_token (millis issued + access_lifetime)) device db' v.access_row known'
          ∙ ground (arith, alive)),
      λ t. if_none refresh _ (
          lookup-row (hash refresh) access_token (millis t)
            (row d refresh_token (millis issued + refresh_lifetime)) device db' v.refresh_row
            known'),
    )
  where
    not_empty : (s : Text) → s ≢ [] → is_empty_token s ≡ false
    not_empty [] h = absurd (h refl)
    not_empty (c ∷ s) h = refl

    if_none :
        (s : Text) (o : Option Text) → o ≡ none → (if is_empty_token s then none else o) ≡ none
    if_none [] o h = refl
    if_none (c ∷ s) o h = h

pub pair_none : (p : Store × Option AuthErr) → p.1 ≡ none → p ≡ (p.0, none)
pair_none (db, err) q = ap (λ x. (db, x)) q
