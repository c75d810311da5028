-- ===== src/Call/Line.antt =====
-- How the line moves: the transition table, and the single line.
-- The table of moves, written independently of the callbacks.
use mathlib.Core.Path.{subst}
use cell_bridge.Call.Mutate.{mutate-cases, replayed, changed, missing, failed}
use cell_bridge.Call.Invariant.{Inv, held_not_idle}
use cell_bridge.Call.Ops.{
  Op, serve, on_rollback, on_incoming, on_dial, on_answer, on_cellular, on_media, on_recovering,
  on_hang_up, on_remote, on_finish,
}
use cell_bridge.Call.Controller.{
  incoming, dial, finish, answer, mark_cellular_ready, mark_media_ready, mutate, mark_recovering,
  hang_up, remote_ended,
}
use cell_bridge.Call.Changes.{
  Change, answer_change, cellular_change, media_change, recovering_change, hangup_change,
  remote_change,
}
use cell_bridge.Base.{
  Option, Text, Bool, arith, ℕ, true, some, ◌≢◌, inl, false, ◌≡◌, sym, none, ◌⊎◌, refl,
}
use cell_bridge.Call.Defs.{
  State, Call, Kind, Controller, idle, connecting, active, incoming_ringing, ending,
  outgoing_dialing, recovering,
}

abbrev pub may_move : State → State → Bool
may_move incoming_ringing connecting = true
may_move incoming_ringing ending = true
may_move outgoing_dialing connecting = true
may_move outgoing_dialing active = true
may_move outgoing_dialing recovering = true
may_move outgoing_dialing ending = true
may_move connecting connecting = true
may_move connecting active = true
may_move connecting recovering = true
may_move connecting ending = true
may_move active active = true
may_move active connecting = true
may_move active recovering = true
may_move active ending = true
may_move recovering active = true
may_move recovering connecting = true
may_move recovering ending = true
may_move ending ending = true
may_move _ _ = false

-- One request takes the line from the first holder to the second.
abbrev pub Moves : Option Call → Option Call → Type 0
Moves none none = Unit
Moves none (some b) = (b.state ≡ incoming_ringing) ⊎ (b.state ≡ outgoing_dialing)
Moves (some a) none = a.state ≡ ending
Moves (some a) (some b) =
    (a.id ≡ b.id)
    × (a.peer ≡ b.peer)
    × (a.direction ≡ b.direction)
    × (a.started_at ≡ b.started_at)
    × ((a ≡ b) ⊎ (may_move a.state b.state ≡ true))

Moves-refl : (o : Option Call) → Moves o o
Moves-refl none = tt
Moves-refl (some a) = (refl, refl, refl, refl, inl refl)

abbrev MovesCall : Change → Type 0
MovesCall change = (call : Call) → (call.state ≢ idle) → Moves (some call) (some (change call).0)

answer_moves : MovesCall answer_change
unfolding answer_change
answer_moves call i = ground arith

cellular_moves : (now : ℕ) → MovesCall (cellular_change now)
unfolding cellular_change
cellular_moves now call i = ground arith

media_moves : (now : ℕ) → MovesCall (media_change now)
unfolding media_change
media_moves now call i = ground arith

recovering_moves : (reason : Text) → MovesCall (recovering_change reason)
unfolding recovering_change
recovering_moves reason call i = ground arith

hangup_moves : (reason : Text) → MovesCall (hangup_change reason)
unfolding hangup_change
hangup_moves reason call i = ground arith

remote_moves : (reason : Text) → MovesCall (remote_change reason)
unfolding remote_change
remote_moves reason call i = ground arith

mutate-Moves :
    (request_id call_id : Text) (k : Kind) (change : Change) (c : Controller)
    → MovesCall change
    → Inv c
    → Moves c.active (mutate request_id call_id k change c).0.active
mutate-Moves request_id call_id k change c moves v =
    elim (mutate-cases request_id call_id k change c) [
      | replayed s e r ↦ rw r (Moves-refl c.active)
      | changed held e a i q r ↦ rw r (
          subst (λ o. Moves o (some (change held).0)) (sym a)
            (moves held (held_not_idle c held a v)))
      | missing e r ↦ rw r (Moves-refl c.active)
      | failed held y e a q r ↦ rw r (
          subst (λ o. Moves o (some (change held).0)) (sym a)
            (moves held (held_not_idle c held a v)))
    ]

incoming-Moves :
    (now : ℕ) (i p : Text) (c : Controller) → Moves c.active (incoming now i p c).0.active
unfolding incoming
incoming-Moves now i p c = ground arith

dial-Moves : (now : ℕ) (r i p : Text) (c : Controller) → Moves c.active (dial now r i p c).0.active
unfolding dial
dial-Moves now r i p c = ground arith

finish-Moves : (now : ℕ) (i : Text) (c : Controller) → Moves c.active (finish now i c).0.active
unfolding finish
finish-Moves now i c = ground arith

abbrev pub is_rollback : Op → Bool
is_rollback (on_rollback r i) = true
is_rollback _ = false

-- From any controller that keeps the invariant, a request other than a rollback moves the line only
-- as the table says: an empty line stays empty or takes a ringing or dialing call; a held call keeps
-- its id, peer, direction and start time and makes a move of the table or none; only an ending call
-- gives the line up, and no other call takes its place in that step.
pub serve-Moves :
    (op : Op) (c : Controller)
    → Inv c
    → is_rollback op ≡ false
    → Moves c.active (serve op c).0.active
unfolding serve answer mark_cellular_ready mark_media_ready mark_recovering hang_up remote_ended
serve-Moves (on_incoming now i p) c v h = incoming-Moves now i p c
serve-Moves (on_dial now r i p) c v h = dial-Moves now r i p c
serve-Moves (on_answer r i) c v h = mutate-Moves r i _ _ c answer_moves v
serve-Moves (on_cellular now i) c v h = mutate-Moves _ i _ _ c (cellular_moves now) v
serve-Moves (on_media now i) c v h = mutate-Moves _ i _ _ c (media_moves now) v
serve-Moves (on_recovering i why) c v h = mutate-Moves _ i _ _ c (recovering_moves why) v
serve-Moves (on_hang_up r i why) c v h = mutate-Moves r i _ _ c (hangup_moves why) v
serve-Moves (on_remote i why) c v h = mutate-Moves _ i _ _ c (remote_moves why) v
serve-Moves (on_finish now i) c v h = finish-Moves now i c
serve-Moves (on_rollback r i) c v h = absurd (cc h)
