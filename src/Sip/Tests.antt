-- ===== src/Sip/Tests.antt =====
-- Registrations over time, and the theorem at a concrete history.
use cell_bridge.Modem.ActiveCall.{with_active}
use cell_bridge.Sip.Session.Laws.{hang_up-run}
use cell_bridge.Voice.Bridge.{new_bridge, audio_stop, run, wrote, stopping}
use cell_bridge.Sip.Session.{
  SipCallSession, hang_up, await_bridge, new_session, outbound, ended_state, active_state,
}
use cell_bridge.Sip.Media.Stream.{write_all, stream, write_all-stream}
use cell_bridge.Sip.Media.{MediaSession, new_media_session}
use cell_bridge.Ints.{pos, negsuc}
use cell_bridge.Sip.Registrar.Laws.{
  Request, on_register, serve_all, on_get, live, last_word, get-serve_all,
}
use cell_bridge.Sip.Registrar.{get, new_registrar, lifetime}
use cell_bridge.Base.{List, codes, ◌∷◌, ◌≡◌, [], none, arith, ℕ, replicate, some, refl, true, false}

-- Two users, a look-up that finds one of them run out, and a new contact.
abbrev history : List Request
history =
    on_register (codes "ann") (codes "sip:a") (codes "udp") (pos 60) 5 5
    ∷ on_register (codes "bob") (codes "sip:b") (codes "tcp") (pos 1) 6 7
    ∷ on_get 2000000000 (codes "bob")
    ∷ on_register (codes "ann") (codes "sip:c") (codes "udp") (pos 60) 8 9
    ∷ []

get-serve_all_example :
    (get 3000000000 (codes "ann") (serve_all history new_registrar)).1
    ≡ live 3000000000 (last_word (codes "ann") history none)
get-serve_all_example = get-serve_all 3000000000 (codes "ann") history (omega arith, tt)

-- The counters are about to go around.
abbrev late_media : MediaSession
late_media = record new_media_session {
  remote = some (codes "10.0.0.2:4000");
  seq = 65535;
  ts = 4294967136;
}

abbrev quiet_frame : List ℕ
quiet_frame = replicate 160 0xff

write_all-stream_example :
    write_all (quiet_frame ∷ quiet_frame ∷ []) late_media
    ≡ stream 0x12345678 0 65535 4294967136 (quiet_frame ∷ quiet_frame ∷ [])
write_all-stream_example =
    write_all-stream (quiet_frame ∷ quiet_frame ∷ []) late_media (codes "10.0.0.2:4000") 65535
      4294967136 refl (refl, (refl, tt)) (omega arith) (omega arith)

-- A call that is heard.
abbrev open_session : SipCallSession
open_session =
    record (new_session (codes "s1") outbound
      (record { active = codes "m1"; logical = codes "c1"; last_physical = []; last_logical = [] })
      none) {
        state = active_state;
        bridge = record new_bridge { started = true; call_id = codes "s1" };
      }

hang_up-run_example :
    let after = (hang_up true open_session).0 in
    (after.state ≡ ended_state)
    × (after.line.active ≡ [])
    × ((hang_up true open_session).1 ≡ audio_stop ∷ [])
    × ((await_bridge false true true after).0 ≡ after)
    × ((run (wrote [] ∷ stopping ∷ []) after.bridge).1 ≡ [])
hang_up-run_example =
    hang_up-run (wrote [] ∷ stopping ∷ []) false true true open_session (codes "m1")
      (refl, (refl, tt)) refl (unfold with_active in refl) refl

-- Ten thousand million seconds go around, to about -267 years.
long_lifetime : lifetime (pos 10000000000) ≡ negsuc 8446744073709551615
long_lifetime = refl
