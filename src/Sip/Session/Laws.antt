-- ===== src/Sip/Session/Laws.antt =====
-- The end of a SIP call, with the bridge and the line.
use cell_bridge.Sip.Session.{hang_up, await_bridge, SipCallSession, outbound, ended_state}
use cell_bridge.Voice.Bridge.{start, Event, run, audio_stop}
use cell_bridge.Voice.Bridge.Laws.{run-stop, is_starting}
use cell_bridge.Modem.ActiveCall.{hung_up, with_active, ActiveCall}
use cell_bridge.Base.{
  some, Text, List, Bool, ◌≡◌, true, false, refl, [], if◌then◌else◌, ◌∷◌, ap, All,
}

hung_up_line :
    (s : SipCallSession) (call_id : Text)
    → s.direction ≡ outbound
    → with_active s.line ≡ some call_id
    → (hang_up true s).0.line ≡ hung_up s.line
unfolding hang_up
hung_up_line s call_id out there = rw (out, there) refl

-- Once the session's context is cancelled `AwaitBridge` leaves it as it is.
await_bridge_cancelled :
    (wait_error answered audio_ok : Bool) (s : SipCallSession)
    → s.cancelled ≡ true
    → (await_bridge wait_error answered audio_ok s).0 ≡ s
unfolding await_bridge start
await_bridge_cancelled true answered audio_ok s h = refl
await_bridge_cancelled false false audio_ok s h = refl
await_bridge_cancelled false true true s h = rw h refl
await_bridge_cancelled false true false s h = rw h refl

-- The first hang-up of an outgoing call, which the modem accepts, ends it on all sides: the session is
-- ended, no call is left active at the modem, the audio is stopped if it was started, an
-- `AwaitBridge` that goes on behind it, whatever it is answered, changes nothing, and
-- whatever sections of the bridge other than that of `Start` are entered behind it, in any order,
-- nothing is played to the modem and the audio is not stopped again.
pub hang_up-run :
    (events : List Event) (wait_error answered audio_ok : Bool) (s : SipCallSession)
    (call_id : Text)
    → All (λ event. is_starting event ≡ false) events
    → s.direction ≡ outbound
    → with_active s.line ≡ some call_id
    → s.bridge.stopped ≡ false
    → let after = (hang_up true s).0 in
      (after.state ≡ ended_state)
      × (after.line.active ≡ [])
      × ((hang_up true s).1 ≡ (if s.bridge.started then audio_stop ∷ [] else []))
      × ((await_bridge wait_error answered audio_ok after).0 ≡ after)
      × ((run events after.bridge).1 ≡ [])
unfolding hang_up hung_up
hang_up-run events wait_error answered audio_ok s call_id others out there h =
    let (once, quiet) = run-stop events s.bridge others h in
    (
      refl,
      ap (λ (line : ActiveCall). line.active) (hung_up_line s call_id out there),
      once,
      await_bridge_cancelled wait_error answered audio_ok (hang_up true s).0 refl,
      quiet,
    )
