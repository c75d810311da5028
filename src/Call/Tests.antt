-- ===== src/Call/Tests.antt =====
-- Runs of the controller, and the theorems at concrete inputs.
use cell_bridge.Call.Rollback.{rollback-mutate, answer_change-id}
use mathlib.Core.Option
use cell_bridge.Call.Changes.{
  cellular_change, answer_change, hangup_change, media_change, recovering_change,
}
use cell_bridge.Call.Replay.{mutate-mutate}
use cell_bridge.Dict.{find, text_key, assign}
use cell_bridge.Call.Refusal.{serve_refused}
use cell_bridge.Call.Emergency.{is_emergency_number, china_prefix}
use cell_bridge.Call.Line.{Moves, serve-Moves}
use cell_bridge.Call.Invariant.{Inv, run-Inv}
use cell_bridge.Call.Controller.{
  mark_media_ready, mutate, dial, mark_cellular_ready, incoming, answer, hang_up, mark_recovering,
  rollback,
}
use cell_bridge.Call.Recovery.{Lost, recovering_stuck}
use cell_bridge.Call.Ops.{
  run, Op, serve, on_dial, on_recovering, on_media, on_incoming, on_remote, on_cellular, on_hang_up,
  on_rollback, on_finish,
}
use cell_bridge.Call.Defs.{Controller, new_controller, hangup, line_busy, answered, Call, active}
use cell_bridge.Base.{
  Text, List, has_prefix, codes, ◌≡◌, trim_space, ◌∷◌, false, text_eq, [], refl, none, true, inl,
  some,
}

abbrev me : Text
me = codes "call-1"

abbrev up : List Op
up = on_dial 100 (codes "request-1") me (codes "10086") ∷ on_cellular 101 me ∷ on_media 102 me ∷ []

abbrev lost : List Op
lost = on_recovering me (codes "ice_failed") ∷ []

abbrev talking : Controller
talking = run up new_controller

abbrev dropped : Controller
dropped = run lost talking

talking_state : Option.map (λ (c : Call). c.state) talking.active ≡ some active
unfolding run serve new_controller dial mark_cellular_ready mark_media_ready cellular_change
    media_change assign find text_eq
talking_state = refl

dropped_Lost : Lost me dropped
unfolding run serve new_controller dial mark_cellular_ready mark_media_ready mark_recovering
    cellular_change media_change recovering_change assign find text_eq
dropped_Lost = record {
  held = _;
  holds = refl;
  same = refl;
  down = inl refl;
  seen = _;
  stored = refl;
}

recovering_stuck_example : Lost me (run (on_media 103 me ∷ on_cellular 104 me ∷ []) dropped)
recovering_stuck_example =
    recovering_stuck (on_media 103 me ∷ on_cellular 104 me ∷ []) me dropped refl dropped_Lost

run-Inv_example : Inv (run up new_controller)
run-Inv_example = run-Inv up

abbrev busy_op : Op
busy_op = on_incoming 105 (codes "call-2") (codes "10010")

talking_busy : (serve busy_op talking).1 ≡ some line_busy
unfolding run serve new_controller dial mark_cellular_ready mark_media_ready cellular_change
    media_change assign find text_eq incoming
talking_busy = refl

serve_refused_example : (serve busy_op talking).0 ≡ talking
serve_refused_example = serve_refused busy_op talking line_busy talking_busy

serve-Moves_example : Moves talking.active (serve (on_remote me (codes "bye")) talking).0.active
serve-Moves_example = serve-Moves (on_remote me (codes "bye")) talking (run-Inv up) refl

abbrev ringing : Controller
ringing = run (on_incoming 100 me (codes "+86138") ∷ []) new_controller

ringing-answer : (answer (codes "r") me ringing).1.err ≡ none
unfolding run serve new_controller incoming answer answer_change find text_eq
ringing-answer = refl

ringing_fresh : find (codes "r") ringing.requests ≡ none
unfolding run serve new_controller incoming find
ringing_fresh = refl

ringing-hang_up : (hang_up (codes "r") me (codes "no") ringing).1.err ≡ none
unfolding run serve new_controller incoming hang_up hangup_change find text_eq
ringing-hang_up = refl

ringing-mutate : (mutate (codes "r") me answered answer_change ringing).1.err ≡ none
unfolding run serve new_controller incoming mutate answer_change find text_eq
ringing-mutate = refl

-- The call ends, and another request is rolled back.
abbrev ending_requests : List Op
ending_requests =
    on_hang_up (codes "h") me (codes "done")
    ∷ on_rollback (codes "h") me
    ∷ on_remote me (codes "busy")
    ∷ on_finish 9 me
    ∷ []

mutate-mutate_example :
    let c' = run ending_requests (mutate (codes "r") me answered answer_change ringing).0 in
    mutate (codes "r") (codes "other") hangup (hangup_change []) c'
    ≡ (c', (mutate (codes "r") me answered answer_change ringing).1)
mutate-mutate_example =
    mutate-mutate (codes "r") me answered answer_change ending_requests ringing ringing-mutate
      (tt, (unfold text_eq in refl, (tt, (tt, tt)))) (codes "other") hangup (hangup_change [])

first_dial : (dial 1 (codes "d") me (codes "10086") new_controller).1.err ≡ none
unfolding dial new_controller find
first_dial = refl

no_prefix : has_prefix (trim_space (codes " 1-1-0")) china_prefix ≡ false
unfolding has_prefix trim_space
no_prefix = refl

verdicts :
    (is_emergency_number (codes "+86 110") ≡ true) × (is_emergency_number (codes "10086") ≡ false)
unfolding is_emergency_number trim_space text_eq
verdicts = (refl, refl)

rollback-mutate_example :
    rollback (codes "r") me (mutate (codes "r") me answered answer_change ringing).0
    ≡ (ringing, none)
rollback-mutate_example =
    rollback-mutate (codes "r") me answered answer_change ringing answer_change-id ringing_fresh
      ringing-mutate
