-- ===== src/Call/Refusal.antt =====
-- A refused request changes nothing.
use cell_bridge.Call.Mutate.{mutate-cases, replayed, changed, missing, failed}
use cell_bridge.Call.Ops.{
  serve, Op, on_incoming, on_dial, on_answer, on_cellular, on_media, on_recovering, on_hang_up,
  on_remote, on_finish, on_rollback,
}
use cell_bridge.Call.Controller.{
  incoming, dial, finish, rollback, answer, mutate, mark_cellular_ready, mark_media_ready,
  mark_recovering, hang_up, remote_ended,
}
use cell_bridge.Base.{Text, arith, ℕ, ◌≡◌, some}
use cell_bridge.Call.Defs.{Controller, Call, Kind, Err}
use cell_bridge.Call.Changes.{
  Change, answer_change, cellular_change, media_change, recovering_change, hangup_change,
  remote_change,
}

abbrev LeavesOnError : Change → Type 0
LeavesOnError change = (call : Call) (x : Err) → (change call).1 ≡ some x → (change call).0 ≡ call

answer_leaves : LeavesOnError answer_change
unfolding answer_change
answer_leaves call x h = ground arith

cellular_leaves : (now : ℕ) → LeavesOnError (cellular_change now)
unfolding cellular_change
cellular_leaves now call x h = ground arith

media_leaves : (now : ℕ) → LeavesOnError (media_change now)
unfolding media_change
media_leaves now call x h = ground arith

recovering_leaves : (reason : Text) → LeavesOnError (recovering_change reason)
unfolding recovering_change
recovering_leaves reason call x h = ground arith

hangup_leaves : (reason : Text) → LeavesOnError (hangup_change reason)
unfolding hangup_change
hangup_leaves reason call x h = ground arith

remote_leaves : (reason : Text) → LeavesOnError (remote_change reason)
unfolding remote_change
remote_leaves reason call x h = ground arith

-- A controller whose call is put back unchanged is the same controller.
put_back :
    (c : Controller) (held after : Call)
    → c.active ≡ some held
    → after ≡ held
    → record c { active = some after } ≡ c
put_back c held after a e = ground arith

mutate_refused :
    (request_id call_id : Text) (k : Kind) (change : Change) (c : Controller) (x : Err)
    → LeavesOnError change
    → (mutate request_id call_id k change c).1.err ≡ some x
    → (mutate request_id call_id k change c).0 ≡ c
mutate_refused request_id call_id k change c x leaves h =
    elim (mutate-cases request_id call_id k change c) [
      | replayed s e r ↦ rw r
      | changed held e a i q r ↦ absurd (cc (rw r at h))
      | missing e r ↦ rw r
      | failed held y e a q r ↦ rw r (put_back c held (change held).0 a (leaves held y q))
    ]

incoming_refused :
    (now : ℕ) (i p : Text) (c : Controller) (x : Err)
    → (incoming now i p c).1.err ≡ some x
    → (incoming now i p c).0 ≡ c
unfolding incoming
incoming_refused now i p c x h = ground arith

dial_refused :
    (now : ℕ) (r i p : Text) (c : Controller) (x : Err)
    → (dial now r i p c).1.err ≡ some x
    → (dial now r i p c).0 ≡ c
unfolding dial
dial_refused now r i p c x h = ground arith

finish_refused :
    (now : ℕ) (i : Text) (c : Controller) (x : Err)
    → (finish now i c).1.err ≡ some x
    → (finish now i c).0 ≡ c
unfolding finish
finish_refused now i c x h = ground arith

rollback_refused :
    (r i : Text) (c : Controller) (x : Err) → (rollback r i c).1 ≡ some x → (rollback r i c).0 ≡ c
unfolding rollback
rollback_refused r i c x h = ground arith

-- A request that is answered by an error, of any kind and in any state, leaves the controller as
-- it was.
pub serve_refused :
    (op : Op) (c : Controller) (x : Err) → (serve op c).1 ≡ some x → (serve op c).0 ≡ c
unfolding serve answer mark_cellular_ready mark_media_ready mark_recovering hang_up remote_ended
serve_refused (on_incoming now i p) c x h = incoming_refused now i p c x h
serve_refused (on_dial now r i p) c x h = dial_refused now r i p c x h
serve_refused (on_answer r i) c x h = mutate_refused r i _ _ c x answer_leaves h
serve_refused (on_cellular now i) c x h = mutate_refused _ i _ _ c x (cellular_leaves now) h
serve_refused (on_media now i) c x h = mutate_refused _ i _ _ c x (media_leaves now) h
serve_refused (on_recovering i why) c x h = mutate_refused _ i _ _ c x (recovering_leaves why) h
serve_refused (on_hang_up r i why) c x h = mutate_refused r i _ _ c x (hangup_leaves why) h
serve_refused (on_remote i why) c x h = mutate_refused _ i _ _ c x (remote_leaves why) h
serve_refused (on_finish now i) c x h = finish_refused now i c x h
serve_refused (on_rollback r i) c x h = rollback_refused r i c x h
