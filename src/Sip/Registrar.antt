-- ===== src/Sip/Registrar.antt =====
-- gateway/internal/sip/registrar.go: the registrations of SIP users. Times are nanoseconds since the
-- year 1, Go's zero time, so that no lifetime, 292 years at most, reaches behind it from a clock of
-- today. The readings of the clock are arguments; the seconds are a Go int.
pub mod Laws
use cell_bridge.Ints.{ℤ, pos, negsuc, to_int64}
use cell_bridge.Dict.{Map, assign, delete, find, text_key}
use cell_bridge.Base.{
  ◌∷◌, Text, [], ℕ, Bool, ◌+◌, ◌==◌, if◌then◌else◌, Option, List, ◌*◌, false, some, ◌-◌, ltb, none,
}

pub record Registration : Type 0 where
  pub username : Text
  pub contact : Text
  pub expires : ℕ
  pub transport : Text
  pub last_seen : ℕ

-- `Registrar`.
abbrev pub Registrar : Type 0
Registrar = Map Text Registration

-- `NewRegistrar`.
unfoldable pub new_registrar : Registrar
new_registrar = []

-- `time.Duration(expiresSec) * time.Second`, a product of int64 that goes around.
abbrev pub lifetime : ℤ → ℤ
lifetime (pos s) = to_int64 (pos (s * 1000000000))
lifetime (negsuc s) = to_int64 (negsuc ((s + 1) * 1000000000 - 1))

-- `now.Add(d)`.
abbrev pub add_duration : ℕ → ℤ → ℕ
add_duration now (pos d) = now + d
add_duration now (negsuc d) = now - (d + 1)

-- `time.Now().Add(time.Duration(expiresSec) * time.Second)`.
abbrev pub expiry : ℕ → ℤ → ℕ
expiry now seconds = add_duration now (lifetime seconds)

abbrev pub is_zero : ℤ → Bool
is_zero (pos s) = s == 0
is_zero (negsuc s) = false

-- `Register`; `seen` and `now` are its two readings of the clock.
unfoldable pub register : Text → Text → Text → ℤ → ℕ → ℕ → Registrar → Registrar
unfolding assign delete
register username contact transport seconds seen now regs =
    if is_zero seconds
    then delete username regs
    else assign username
        (record {
          username = username;
          contact = contact;
          expires = expiry now seconds;
          transport = transport;
          last_seen = seen;
        })
        regs

get_found : ℕ → Text → Registrar → Option Registration → Registrar × Option Registration
unfolding delete
get_found now username regs none = (regs, none)
get_found now username regs (some reg) =
    if ltb reg.expires now then (delete username regs, none) else (regs, some reg)

-- `Get`.
unfoldable pub get : ℕ → Text → Registrar → Registrar × Option Registration
unfolding get_found find
get now username regs = get_found now username regs (find username regs)

-- `All`, in the order of the list.
unfoldable pub all_live : ℕ → Registrar → List Registration
all_live now [] = []
all_live now ((username, reg) ∷ regs) =
    let rest = all_live now regs in if ltb now reg.expires then reg ∷ rest else rest
