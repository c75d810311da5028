-- ===== src/Call/Rollback.antt =====
-- `Rollback` is the inverse of an accepted change.
use cell_bridge.Call.Mutate.{
  mutated, mutate-cases, replayed, changed, mutate_reply, missing, failed,
}
use cell_bridge.Call.Controller.{mutate, rollback, answer, hang_up}
use cell_bridge.Dict.{find, find-assign_self, delete-assign_fresh, text_key}
use cell_bridge.Call.Defs.{Call, Kind, Controller}
use cell_bridge.Base.{Text, ◌≡◌, none, some, arith, text_eq_iff}
use cell_bridge.Call.Changes.{Change, answer_change, hangup_change}

abbrev KeepsId : Change → Type 0
KeepsId change = (call : Call) → (change call).0.id ≡ call.id

rollback-mutated :
    (request_id call_id : Text) (k : Kind) (change : Change) (c : Controller) (held : Call)
    → KeepsId change
    → find request_id c.requests ≡ none
    → c.active ≡ some held
    → held.id ≡ call_id
    → rollback request_id call_id (mutated request_id call_id k change c held) ≡ (c, none)
unfolding rollback
rollback-mutated request_id call_id k change c held keeps fresh a i = ground (
  arith,
  find-assign_self request_id
      (record {
        reply = mutate_reply request_id call_id k change c (change held).0;
        previous = some held;
      })
      c.requests,
  text_eq_iff (change held).0.id call_id,
  keeps held,
  delete-assign_fresh request_id
      (record {
        reply = mutate_reply request_id call_id k change c (change held).0;
        previous = some held;
      })
      c.requests fresh,
)

-- Rolling back a request that `mutate` has just accepted for a fresh request id restores the
-- controller exactly, for every callback that keeps the id of the call.
pub rollback-mutate :
    (request_id call_id : Text) (k : Kind) (change : Change) (c : Controller)
    → KeepsId change
    → find request_id c.requests ≡ none
    → (mutate request_id call_id k change c).1.err ≡ none
    → rollback request_id call_id (mutate request_id call_id k change c).0 ≡ (c, none)
rollback-mutate request_id call_id k change c keeps fresh h =
    elim (mutate-cases request_id call_id k change c) [
      | replayed s e r ↦ absurd (cc (fresh, e))
      | changed held e a i q r ↦
          rw r (rollback-mutated request_id call_id k change c held keeps fresh a i)
      | missing e r ↦ absurd (cc (rw r at h))
      | failed held y e a q r ↦ absurd (cc (rw r at h))
    ]

pub answer_change-id : KeepsId answer_change
unfolding answer_change
answer_change-id call = ground arith

hangup_change-id : (reason : Text) → KeepsId (hangup_change reason)
unfolding hangup_change
hangup_change-id reason call = ground arith

-- An answer that was accepted under a fresh request id is undone by a rollback: the controller is
-- the one from before the answer, with the call ringing again and the request id free.
pub rollback-answer :
    (request_id call_id : Text) (c : Controller)
    → find request_id c.requests ≡ none
    → (answer request_id call_id c).1.err ≡ none
    → rollback request_id call_id (answer request_id call_id c).0 ≡ (c, none)
unfolding answer
rollback-answer request_id call_id c fresh h =
    rollback-mutate request_id call_id _ answer_change c answer_change-id fresh h

-- A hang-up that was accepted under a fresh request id is undone by a rollback: the controller is
-- the one from before the hang-up, and the request id is free.
pub rollback-hang_up :
    (request_id call_id reason : Text) (c : Controller)
    → find request_id c.requests ≡ none
    → (hang_up request_id call_id reason c).1.err ≡ none
    → rollback request_id call_id (hang_up request_id call_id reason c).0 ≡ (c, none)
unfolding hang_up
rollback-hang_up request_id call_id reason c fresh h =
    rollback-mutate request_id call_id _ (hangup_change reason) c (hangup_change-id reason) fresh h
