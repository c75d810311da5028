-- ===== src/Call/Replay.antt =====
-- Request ids are idempotency keys.
-- After an accepted request the memo answers the same id by the same reply.
use cell_bridge.Call.Ops.{
  Op, serve, run, on_rollback, step, on_incoming, on_dial, on_answer, on_cellular, on_media,
  on_recovering, on_hang_up, on_remote, on_finish,
}
use cell_bridge.Call.Mutate.{mutate_stored, mutate-cases, replayed, changed, missing, failed}
use cell_bridge.Call.Changes.{Change}
use cell_bridge.Dict.{assign, find, find-assign_self, text_key, find-assign_other, find-delete}
use cell_bridge.Call.Defs.{Kind, Controller, Stored}
use cell_bridge.Call.Controller.{
  dial, mutate, incoming, finish, rollback, answer, mark_cellular_ready, mark_media_ready,
  mark_recovering, hang_up, remote_ended,
}
use cell_bridge.Base.{
  Text, ℕ, ◌≡◌, none, arith, some, text_eq_refl, refl, Option-cases, List, ◌∙◌, inr, text_eq, All,
  inl, false, ◌∷◌, [],
}

stored_after :
    (request_id call_id : Text) (k : Kind) (change : Change) (c : Controller)
    → (mutate request_id call_id k change c).1.err ≡ none
    → (s : Stored) × (find request_id (mutate request_id call_id k change c).0.requests ≡ some s)
      × (s.reply ≡ (mutate request_id call_id k change c).1)
stored_after request_id call_id k change c h = elim (mutate-cases request_id call_id k change c) [
  | replayed s e r ↦ rw r (s, e, refl)
  | changed held e a i q r ↦ rw r (_, find-assign_self request_id _ c.requests, refl)
  | missing e r ↦ absurd (cc (rw r at h))
  | failed held y e a q r ↦ absurd (cc (rw r at h))
]

-- What is stored under a request id stays, whatever request comes, unless it is rolled back.
module _ (key : Text) (s : Stored) (c : Controller) where
  mutate-keeps :
      (r call_id : Text) (k : Kind) (change : Change)
      → find key c.requests ≡ some s
      → find key (mutate r call_id k change c).0.requests ≡ some s
  mutate-keeps r call_id k change h = elim (mutate-cases r call_id k change c) [
    | replayed t e q ↦ rw q h
    | changed held e a i n q ↦
        rw q (find-assign_other r key _ c.requests (λ same. cc (e, rw (← same) at h)) ∙ h)
    | missing e q ↦ rw q h
    | failed held y e a n q ↦ rw q h
  ]

  dial-keeps :
      (now : ℕ) (r call_id peer : Text)
      → find key c.requests ≡ some s
      → find key (dial now r call_id peer c).0.requests ≡ some s
  unfolding dial
  dial-keeps now r call_id peer h = elim (Option-cases (find r c.requests)) [
    | inr (t, e) ↦ ground (arith, e, h)
    | inl e ↦ elim (Option-cases c.active) [
      | inr (held, a) ↦ ground (arith, e, a, h)
      | inl a ↦
          rw (e, a) (find-assign_other r key _ c.requests (λ same. cc (e, rw (← same) at h)) ∙ h)
    ]
  ]

  incoming-keeps :
      (now : ℕ) (call_id peer : Text) → (incoming now call_id peer c).0.requests ≡ c.requests
  unfolding incoming
  incoming-keeps now call_id peer = ground arith

  finish-keeps : (now : ℕ) (call_id : Text) → (finish now call_id c).0.requests ≡ c.requests
  unfolding finish
  finish-keeps now call_id = ground arith

  rollback-keeps :
      (r call_id : Text)
      → text_eq r key ≡ false
      → find key c.requests ≡ some s
      → find key (rollback r call_id c).0.requests ≡ some s
  unfolding rollback
  rollback-keeps r call_id ne h = ground (arith, ne, h, find-delete r key c.requests)

-- A request that does not roll back the request id.
abbrev pub KeepsRequest : Text → Op → Type 0
KeepsRequest key (on_rollback r call_id) = text_eq r key ≡ false
KeepsRequest key _ = Unit

step-keeps :
    (key : Text) (s : Stored) (op : Op) (c : Controller)
    → KeepsRequest key op
    → find key c.requests ≡ some s
    → find key (step op c).requests ≡ some s
unfolding serve answer mark_cellular_ready mark_media_ready mark_recovering hang_up remote_ended
step-keeps key s (on_incoming now i p) c o h = rw (incoming-keeps key s c now i p) h
step-keeps key s (on_dial now r i p) c o h = dial-keeps key s c now r i p h
step-keeps key s (on_answer r i) c o h = mutate-keeps key s c r i _ _ h
step-keeps key s (on_cellular now i) c o h = mutate-keeps key s c _ i _ _ h
step-keeps key s (on_media now i) c o h = mutate-keeps key s c _ i _ _ h
step-keeps key s (on_recovering i reason) c o h = mutate-keeps key s c _ i _ _ h
step-keeps key s (on_hang_up r i reason) c o h = mutate-keeps key s c r i _ _ h
step-keeps key s (on_remote i reason) c o h = mutate-keeps key s c _ i _ _ h
step-keeps key s (on_finish now i) c o h = rw (finish-keeps key s c now i) h
step-keeps key s (on_rollback r i) c o h = rollback-keeps key s c r i o h

run-keeps :
    (key : Text) (s : Stored) (ops : List Op) (c : Controller)
    → All (KeepsRequest key) ops
    → find key c.requests ≡ some s
    → find key (run ops c).requests ≡ some s
unfolding run
run-keeps key s [] c o h = h
run-keeps key s (op ∷ ops) c o h = run-keeps key s ops (step op c) o.1 (step-keeps key s op c o.0 h)

-- Once `mutate` has accepted a request, then after any further requests, as long as none of them is a
-- rollback of its request id, a `mutate` under the same request id, whatever its call id, kind and
-- callback, changes nothing and returns the first reply.
pub mutate-mutate :
    (request_id call_id : Text) (k : Kind) (change : Change) (ops : List Op) (c : Controller)
    → (mutate request_id call_id k change c).1.err ≡ none
    → All (KeepsRequest request_id) ops
    → (other_id : Text) (other_kind : Kind) (other : Change)
    → let c' = run ops (mutate request_id call_id k change c).0 in
      mutate request_id other_id other_kind other c'
      ≡ (c', (mutate request_id call_id k change c).1)
mutate-mutate request_id call_id k change ops c h others other_id other_kind other =
    let (s, e, r) = stored_after request_id call_id k change c h in
    let c' = run ops (mutate request_id call_id k change c).0 in
    rw (← r) (
      mutate_stored request_id other_id other_kind other c' s
        (run-keeps request_id s ops (mutate request_id call_id k change c).0 others e))

-- A dial that was accepted is answered again by the same reply when its request id comes back,
-- whatever number and call id come with it, and no second call is set up.
pub dial-dial :
    (now later : ℕ) (request_id call_id peer other_id other_peer : Text) (c : Controller)
    → (dial now request_id call_id peer c).1.err ≡ none
    → dial later request_id other_id other_peer (dial now request_id call_id peer c).0
      ≡ ((dial now request_id call_id peer c).0, (dial now request_id call_id peer c).1)
unfolding dial assign find
dial-dial now later request_id call_id peer other_id other_peer c h =
    ground (arith, text_eq_refl request_id)
