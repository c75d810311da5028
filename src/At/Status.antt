-- ===== src/At/Status.antt =====
-- gateway/internal/modem/at/adapter.go: what the modem's answers say of the line.
-- `firstPayload` passes an error on and else takes the payload; a signal number is not so large
-- that doubling it wraps.
pub mod Laws
use cell_bridge.Ints.{ℤ, atoi, pos, sub_nat, ℤ_leb, negsuc}
use cell_bridge.Strings.{behind_last, cut_at, contains, to_lower, in_front}
use cell_bridge.Base.{
  List, Text, Option, has_prefix, ◌∷◌, if◌then◌else◌, some, trim_space, ℕ, Bool, text_eq, none,
  ◌==◌, not, [], codes, ◌*◌, ◌&&◌, ◌||◌, ◌+◌,
}
use cell_bridge.At.{is_final}

pub is_payload : Text → Bool
unfolding is_final has_prefix
is_payload line =
    not (text_eq line [])
    && not (text_eq line (codes "OK"))
    && not (is_final line)
    && not (has_prefix line (codes "AT"))

-- `payload`.
unfoldable pub payload : List Text → Text
unfolding is_payload
payload [] = []
payload (line ∷ lines) =
    let rest = payload lines in if is_payload (trim_space line) then trim_space line else rest

pub data Sim : Type 0 where
  ready locked absent unknown : Sim

-- `normalizeSIM`.
unfoldable pub normalize_sim : Text → Sim
unfolding contains
normalize_sim value =
    if contains (to_lower value) (codes "ready")
    then ready
    else if contains (to_lower value) (codes "pin") || contains (to_lower value) (codes "puk")
    then locked
    else if contains (to_lower value) (codes "not ready")
    then absent
    else unknown

pub data Registration : Type 0 where
  registered searching denied unknown_registration : Registration

abbrev registration_of : Text → Registration
registration_of value =
    if text_eq value (codes "1") || text_eq value (codes "5")
    then registered
    else if text_eq value (codes "2")
    then searching
    else if text_eq value (codes "3")
    then denied
    else unknown_registration

registration_behind : Option Text → Text → Registration
registration_behind (some rest) value = registration_of (trim_space rest)
registration_behind none value = registration_of value

-- `normalizeRegistration`.
unfoldable pub normalize_registration : Text → Registration
unfolding registration_behind behind_last
normalize_registration value =
    registration_behind (behind_last b',' (trim_space value)) (trim_space value)

-- `-113 + rssi*2`.
abbrev pub dbm : ℤ → ℤ
dbm (pos n) = sub_nat (n * 2) 113
dbm (negsuc n) = negsuc (n * 2 + 114)

rssi_of : Option ℤ → ℤ
rssi_of none = pos 0
rssi_of (some (pos n)) = if n == 99 then pos 0 else dbm (pos n)
rssi_of (some (negsuc n)) = dbm (negsuc n)

-- The text behind the colon, where there is one.
pub rssi_field : Text → Text
unfolding cut_at
rssi_field value = elim (cut_at b':' value) [ none ↦ value | some (front, rest) ↦ trim_space rest ]

-- `parseRSSI`.
unfoldable pub parse_rssi : Text → ℤ
unfolding rssi_of rssi_field atoi
parse_rssi value =
    let field = rssi_field (trim_space value) in
    rssi_of (atoi (trim_space (in_front (cut_at b',' field) field)))

-- `signalBars`.
unfoldable pub signal_bars : ℤ → ℕ
signal_bars rssi =
    if ℤ_leb (negsuc 74) rssi
    then 4
    else if ℤ_leb (negsuc 89) rssi
    then 3
    else if ℤ_leb (negsuc 104) rssi
    then 2
    else if ℤ_leb (negsuc 111) rssi
    then 1
    else 0
