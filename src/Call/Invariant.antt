-- ===== src/Call/Invariant.antt =====
-- What holds of the controller between two requests.
use cell_bridge.Call.Controller.{
  mutate, incoming, dial, finish, rollback, answer, mark_cellular_ready, mark_media_ready,
  mark_recovering, hang_up, remote_ended,
}
use cell_bridge.Base.{
  ℕ, true, false, ◌&&◌, [], ◌∷◌, Option, none, some, Text, ◌≡◌, ◌≢◌, arith, text_eq, inl, inr,
  Bool-cases, All, List, Option-cases,
}
use cell_bridge.Dict.{find, delete, Map, text_key, assign}
use cell_bridge.Call.Mutate.{mutate-cases, replayed, changed, missing, failed}
use cell_bridge.Call.Ops.{
  Op, on_incoming, on_dial, on_answer, on_cellular, on_media, on_recovering, on_hang_up, on_remote,
  on_finish, on_rollback, serve, step, run,
}
use cell_bridge.Call.Defs.{
  Controller, new_controller, Kind, idle, incoming_ringing, outgoing_dialing, connecting, active,
  recovering, inbound, outbound, Call, Stored,
}
use cell_bridge.Call.Changes.{
  Change, answer_change, cellular_change, media_change, recovering_change, hangup_change,
  remote_change,
}

pub record CallInv (call : Call) : Type 0 where
  pub not_idle : call.state ≢ idle
  pub ringing_inbound : call.state ≡ incoming_ringing → call.direction ≡ inbound
  pub ringing_unanswered : call.state ≡ incoming_ringing → call.answered ≡ false
  pub dialing_outbound : call.state ≡ outgoing_dialing → call.direction ≡ outbound
  pub dialing_cellular : call.state ≡ outgoing_dialing → call.cellular_ready ≡ false
  pub dialing_media : call.state ≡ outgoing_dialing → call.media_ready ≡ false
  pub connecting_waits : call.state ≡ connecting → (call.cellular_ready && call.media_ready) ≡ false
  pub active_cellular : call.state ≡ active → call.cellular_ready ≡ true
  pub active_media : call.state ≡ active → call.media_ready ≡ true
  pub active_connected : call.state ≡ active → call.connected_at ≢ none
  pub recovering_media : call.state ≡ recovering → call.media_ready ≡ false
  pub ringing_cellular : call.state ≡ incoming_ringing → call.cellular_ready ≡ false
  pub ringing_media : call.state ≡ incoming_ringing → call.media_ready ≡ false
  pub not_ended : call.ended_at ≡ none

abbrev pub HeldInv : Option Call → Type 0
HeldInv none = Unit
HeldInv (some call) = CallInv call

abbrev StoredInv : Text × Stored → Type 0
StoredInv (k, s) = HeldInv s.previous

pub record Inv (c : Controller) : Type 0 where
  pub held : HeldInv c.active
  pub memo : All StoredInv c.requests

delete-All : (k : Text) (m : Map Text Stored) → All StoredInv m → All StoredInv (delete k m)
unfolding delete
delete-All k [] h = tt
delete-All k ((j, v) ∷ m) h = ground (arith, delete-All k m h.1)

find-All :
    (k : Text) (m : Map Text Stored) (s : Stored)
    → All StoredInv m
    → find k m ≡ some s
    → HeldInv s.previous
unfolding find
find-All k [] s h e = cc
find-All k ((j, v) ∷ m) s h e = elim (Bool-cases (text_eq j k)) [
  | inl p ↦ ground (arith)
  | inr p ↦ find-All k m s h.1 (ground arith)
]

abbrev Keeps : Change → Type 0
Keeps change = (call : Call) → CallInv call → CallInv (change call).0

answer_change-Keeps : Keeps answer_change
unfolding answer_change
answer_change-Keeps call h = ground arith

cellular_change-Keeps : (now : ℕ) → Keeps (cellular_change now)
unfolding cellular_change
cellular_change-Keeps now call h = ground arith

media_change-Keeps : (now : ℕ) → Keeps (media_change now)
unfolding media_change
media_change-Keeps now call h = ground arith

recovering_change-Keeps : (reason : Text) → Keeps (recovering_change reason)
unfolding recovering_change
recovering_change-Keeps reason call h = ground arith

hangup_change-Keeps : (reason : Text) → Keeps (hangup_change reason)
unfolding hangup_change
hangup_change-Keeps reason call h = ground arith

remote_change-Keeps : (reason : Text) → Keeps (remote_change reason)
unfolding remote_change
remote_change-Keeps reason call h = ground arith

assign-All :
    (k : Text) (s : Stored) (m : Map Text Stored)
    → HeldInv s.previous
    → All StoredInv m
    → All StoredInv (assign k s m)
unfolding assign
assign-All k s m h a = (h, delete-All k m a)

mutate-Inv :
    (request_id call_id : Text) (k : Kind) (change : Change) (c : Controller)
    → Keeps change
    → Inv c
    → Inv (mutate request_id call_id k change c).0
mutate-Inv request_id call_id k change c keeps v =
    elim (mutate-cases request_id call_id k change c) [
      | replayed s e r ↦ rw r v
      | changed held e a i q r ↦ rw r (record {
        held = keeps held (rw a at v.held);
        memo = assign-All request_id _ c.requests (rw a at v.held) v.memo;
      })
      | missing e r ↦ rw r v
      | failed held x e a q r ↦ rw r (record { held = keeps held (rw a at v.held); memo = v.memo })
    ]

incoming-Inv : (now : ℕ) (i p : Text) (c : Controller) → Inv c → Inv (incoming now i p c).0
unfolding incoming
incoming-Inv now i p c v = ground arith

dial-Inv : (now : ℕ) (r i p : Text) (c : Controller) → Inv c → Inv (dial now r i p c).0
unfolding dial assign
dial-Inv now r i p c v = ground (arith, delete-All r c.requests v.memo)

finish-Inv : (now : ℕ) (i : Text) (c : Controller) → Inv c → Inv (finish now i c).0
unfolding finish
finish-Inv now i c v = ground arith

rollback-Inv : (r i : Text) (c : Controller) → Inv c → Inv (rollback r i c).0
unfolding rollback
rollback-Inv r i c v = elim (Option-cases (find r c.requests)) [
  | inl e ↦ ground arith
  | inr (s, e) ↦ ground (arith, find-All r c.requests s v.memo e, delete-All r c.requests v.memo)
]

serve-Inv : (op : Op) (c : Controller) → Inv c → Inv (step op c)
unfolding serve answer mark_cellular_ready mark_media_ready mark_recovering hang_up remote_ended
serve-Inv (on_incoming now i p) c v = incoming-Inv now i p c v
serve-Inv (on_dial now r i p) c v = dial-Inv now r i p c v
serve-Inv (on_answer r i) c v = mutate-Inv r i _ _ c answer_change-Keeps v
serve-Inv (on_cellular now i) c v = mutate-Inv _ i _ _ c (cellular_change-Keeps now) v
serve-Inv (on_media now i) c v = mutate-Inv _ i _ _ c (media_change-Keeps now) v
serve-Inv (on_recovering i reason) c v = mutate-Inv _ i _ _ c (recovering_change-Keeps reason) v
serve-Inv (on_hang_up r i reason) c v = mutate-Inv r i _ _ c (hangup_change-Keeps reason) v
serve-Inv (on_remote i reason) c v = mutate-Inv _ i _ _ c (remote_change-Keeps reason) v
serve-Inv (on_finish now i) c v = finish-Inv now i c v
serve-Inv (on_rollback r i) c v = rollback-Inv r i c v

run_from-Inv : (ops : List Op) (c : Controller) → Inv c → Inv (run ops c)
unfolding run
run_from-Inv [] c v = v
run_from-Inv (op ∷ ops) c v = run_from-Inv ops (step op c) (serve-Inv op c v)

-- After any sequence of requests, rollbacks included, on a new controller, the held call and every
-- call that a rollback could restore are well formed: never idle or ended; ringing means inbound,
-- unanswered and no side ready; dialing means outbound and no side ready; connecting means that a
-- side is missing; active means that both sides are ready and the connection time is set;
-- recovering means that the media is not ready.
pub run-Inv : (ops : List Op) → Inv (run ops new_controller)
unfolding new_controller
run-Inv ops = run_from-Inv ops new_controller (record { held = tt; memo = tt })

pub held_not_idle :
    (c : Controller) (held : Call) → c.active ≡ some held → Inv c → held.state ≢ idle
held_not_idle c held a v = go (rw a at v.held)
  where
    go : CallInv held → held.state ≢ idle
    go w = w.not_idle
