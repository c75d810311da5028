-- ===== src/Auth/Tests.antt =====
-- A pairing, its tokens, their rotation and the end of the device.
use cell_bridge.Auth.Refresh.{refresh-refresh}
use cell_bridge.Auth.Complete.{complete-complete, complete-authorize}
use cell_bridge.Auth.Revoke.{revoked_store, without, authorize-revoke_device}
use cell_bridge.Dict.{find, assign, delete, text_key}
use cell_bridge.Base.{
  Text, text_eq, codes, ◌≡◌, some, ◌∷◌, ◌<◌, false, [], true, refl, ℕ, if◌then◌else◌, ltb, ◌+◌,
  none, text_apart,
}
use cell_bridge.Auth.Tables.{
  Store, Device, lookup_token, refresh_token, revoke_device, create_device, store_token, lookup_row,
  revoke_token,
}
use cell_bridge.Auth.{
  Crypto, Service, Request, complete, Pairing, Fresh, authorize, refresh, pairing_expired, millis,
  access_lifetime, issue_with, invalid_token,
}

abbrev crypto : Crypto
crypto = record { hash = λ t. t; verify = λ key message proof. text_eq proof (codes "signed") }

abbrev paired : Service
paired = record {
  gateway_id = codes "g1";
  pairings =
      (codes "p1", record { id = codes "p1"; secret = codes "s"; expires_at = 300000000000 }) ∷ [];
  store = record { devices = []; tokens = [] };
}

abbrev request : Request
request = record {
  pairing_id = codes "p1";
  device_name = codes "phone";
  public_key = codes "key";
  proof = codes "signed";
  device_id = some (codes "d1");
  checked_at = 1000000;
  issued_at = 2000000;
  fresh = record { access = some (codes "a1"); refresh = some (codes "r1") };
}

complete-complete_example :
    complete crypto request (complete crypto request paired).0
    ≡ ((complete crypto request paired).0, some pairing_expired)
complete-complete_example = complete-complete crypto request request paired refl

-- The tables once the device is paired.
abbrev granted : Store
granted = (complete crypto request paired).0.store

complete-authorize_example :
    ((p : Pairing) × (find (codes "p1") (paired).pairings ≡ some p)
      × (1000000 < p.expires_at)
      × (text_eq (codes "signed") (codes "signed") ≡ true))
    × ((t : ℕ)
        → authorize (λ t. t) t (codes "a1") granted
          ≡ (if ltb (millis t) (millis 2000000 + access_lifetime) then some (codes "d1") else none))
    × ((t : ℕ) → authorize (λ t. t) t (codes "r1") granted ≡ none)
complete-authorize_example =
    complete-authorize crypto request paired (codes "d1") (codes "a1") (codes "r1") refl refl refl
      (text_apart (codes "a1") [] (unfold text_eq in refl))
      (unfold complete create_device store_token issue_with find text_eq assign delete in refl)

abbrev later : Fresh
later = record { access = some (codes "a2"); refresh = some (codes "r2") }

abbrev rotated : Store
rotated = (refresh (λ t. t) 3000000 4000000 (codes "r1") later granted).0

refresh-refresh_example :
    (d : Text) × (lookup_token (codes "r1") refresh_token (millis 3000000) granted ≡ some d)
    × ((t : ℕ)
        → authorize (λ t. t) t (codes "a2") rotated
          ≡ (if ltb (millis t) (millis 4000000 + access_lifetime) then some d else none))
    × ((t t' : ℕ) (fresh : Fresh)
        → refresh (λ t. t) t t' (codes "r1") fresh rotated ≡ (rotated, some invalid_token))
refresh-refresh_example =
    refresh-refresh (λ t. t) 3000000 4000000 (codes "r1") (codes "a2") (codes "r2") later granted
      refl refl (text_apart (codes "a2") [] (unfold text_eq in refl))
      (unfold refresh lookup_token lookup_row revoke_token complete create_device store_token
          issue_with find text_eq assign delete in
        refl)

abbrev phone : Device
phone = record { name = codes "phone"; public_key = codes "key"; revoked = false }

authorize-revoke_device_example :
    authorize (λ t. t) 5000000 (codes "a1") (revoked_store (codes "d1") phone granted)
    ≡ without (codes "d1") (authorize (λ t. t) 5000000 (codes "a1") granted)
authorize-revoke_device_example =
    authorize-revoke_device (λ t. t) 5000000 (codes "a1") (codes "d1") granted
      (revoked_store (codes "d1") phone granted)
      (unfold revoke_device complete create_device store_token issue_with find text_eq assign
          delete in
        refl)
