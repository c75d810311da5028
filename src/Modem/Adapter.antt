-- ===== src/Modem/Adapter.antt =====
-- gateway/internal/modem/at/adapter.go: the calls of `*Adapter`. An exchange is an argument: the
-- unsolicited lines that it hands to `HandleURC`, each with the id that `uuid` would give, and its
-- error. The id of `id.New` is an argument too.
use cell_bridge.Modem.{
  ModemEvent, ModemErr, emit, incoming, is_empty_id, ended, call_mismatch, no_id, active_call,
  invalid_digit,
}
use cell_bridge.Strings.{contains}
use cell_bridge.Base.{
  ◌∷◌, Text, List, text_eq, Option, if◌then◌else◌, trim_space, Bool, ℕ, codes, some, not, [], ◌&&◌,
  none, ◌||◌,
}

pub record Adapter : Type 0 where
  pub active : Text
  pub events : List ModemEvent

pub record Exchanged : Type 0 where
  pub lines : List (Text × Text)
  pub err : Option ModemErr

-- `NO CARRIER`, `BUSY` or `NO ANSWER` in a line.
pub ends_call : Text → Bool
unfolding contains
ends_call line =
    contains line (codes "NO CARRIER")
    || contains line (codes "BUSY")
    || contains line (codes "NO ANSWER")

abbrev ring : Text → Adapter → Adapter
ring call_id a = record {
  active = call_id;
  events = emit (record { kind = incoming; call_id = call_id; raw = [] }) a.events;
}

-- `HandleURC` on a trimmed line.
pub handle_trimmed : Text → Text → Adapter → Adapter
unfolding ends_call text_eq
handle_trimmed line fresh a =
    if text_eq line (codes "RING")
    then ring (if is_empty_id a.active then fresh else a.active) a
    else if ends_call line
    then record {
      active = [];
      events = emit (record { kind = ended; call_id = a.active; raw = line }) a.events;
    }
    else a

-- `HandleURC`.
unfoldable pub handle_urc : Text → Text → Adapter → Adapter
unfolding handle_trimmed
handle_urc line fresh a = handle_trimmed (trim_space line) fresh a

-- The lines that an exchange hands over.
unfoldable pub handle_urcs : List (Text × Text) → Adapter → Adapter
unfolding handle_urc
handle_urcs [] a = a
handle_urcs ((line, fresh) ∷ lines) a = handle_urcs lines (handle_urc line fresh a)

pub dialed : Option ModemErr → Option Text → Adapter → Adapter × Option ModemErr
dialed (some x) call_id a = (a, some x)
dialed none none a = (a, some no_id)
dialed none (some call_id) a = (record a { active = call_id }, none)

-- `Dial`; the id is the result when there is no error.
unfoldable pub dial : Exchanged → Option Text → Adapter → Adapter × Option ModemErr
unfolding handle_urcs dialed
dial x call_id a =
    if not (is_empty_id a.active)
    then (a, some active_call)
    else dialed x.err call_id (handle_urcs x.lines a)

-- `validateActive`.
unfoldable pub validate_active : Text → Adapter → Bool
unfolding text_eq
validate_active call_id a =
    not (is_empty_id a.active || (not (is_empty_id call_id) && not (text_eq a.active call_id)))

-- `finishActive`.
unfoldable pub finish_active : Text → Text → Adapter → Adapter
finish_active call_id reason a = record {
  active = if text_eq a.active call_id then [] else a.active;
  events = emit (record { kind = ended; call_id = call_id; raw = reason }) a.events;
}

-- `Answer` and the command of `SendDTMF`.
unfoldable pub command : Exchanged → Text → Adapter → Adapter × Option ModemErr
unfolding handle_urcs validate_active
command x call_id a =
    if validate_active call_id a then (handle_urcs x.lines a, x.err) else (a, some call_mismatch)

-- `SendDTMF`.
unfoldable pub send_dtmf : Exchanged → Text → ℕ → Adapter → Adapter × Option ModemErr
unfolding command validate_active
send_dtmf x call_id digit a =
    if validate_active call_id a && not (contains (codes "0123456789*#ABCD") (digit ∷ []))
    then (a, some invalid_digit)
    else command x call_id a

hung_up : Option ModemErr → Text → Adapter → Adapter × Option ModemErr
unfolding finish_active
hung_up (some x) call_id a = (a, some x)
hung_up none call_id a = (finish_active call_id (codes "local_hangup") a, none)

-- `Hangup`.
unfoldable pub hang_up : Exchanged → Text → Adapter → Adapter × Option ModemErr
unfolding handle_urcs validate_active hung_up
hang_up x call_id a =
    if validate_active call_id a
    then hung_up x.err call_id (handle_urcs x.lines a)
    else (a, some call_mismatch)
