-- ===== src/Call/Mutate.antt =====
-- What `mutate` does, case by case, for any callback.
use cell_bridge.Base.{
  none, some, Text, ◌≡◌, arith, text_eq, text_eq_iff, Option-cases, inl, inr, Bool-cases,
}
use cell_bridge.Dict.{find, assign, text_key}
use cell_bridge.Call.Defs.{
  Call, Stored, Controller, Kind, Reply, Err, call_not_found, refused, accepted,
}
use cell_bridge.Call.Changes.{Change}
use cell_bridge.Call.Controller.{mutate, changed_event}

module _ (request_id call_id : Text) (k : Kind) (change : Change) (c : Controller) where
  -- The reply that an accepted change is answered by, and the controller that it leaves.
  abbrev pub mutate_reply : Call → Reply
  mutate_reply call = accepted call (changed_event call_id k call)

  abbrev pub mutated : Call → Controller
  mutated held = record {
    active = some (change held).0;
    requests =
        assign request_id (record { reply = mutate_reply (change held).0; previous = some held })
          c.requests;
  }

  pub mutate_stored :
      (s : Stored)
      → find request_id c.requests ≡ some s
      → mutate request_id call_id k change c ≡ (c, s.reply)
  unfolding mutate
  mutate_stored s e = ground arith

  pub mutate_accepted :
      (held : Call)
      → find request_id c.requests ≡ none
      → c.active ≡ some held
      → held.id ≡ call_id
      → (change held).1 ≡ none
      → mutate request_id call_id k change c ≡ (mutated held, mutate_reply (change held).0)
  unfolding mutate
  mutate_accepted held e a i r = ground (arith, text_eq_iff held.id call_id)

  -- The three ways in which `mutate` ends.
  pub data MutateCase : Type 0 where
    replayed :
        (s : Stored)
        → find request_id c.requests ≡ some s
        → mutate request_id call_id k change c ≡ (c, s.reply)
        → MutateCase
    changed :
        (held : Call)
        → find request_id c.requests ≡ none
        → c.active ≡ some held
        → held.id ≡ call_id
        → (change held).1 ≡ none
        → mutate request_id call_id k change c ≡ (mutated held, mutate_reply (change held).0)
        → MutateCase
    missing :
        find request_id c.requests ≡ none
        → mutate request_id call_id k change c ≡ (c, refused call_not_found)
        → MutateCase
    failed :
        (held : Call) (x : Err)
        → find request_id c.requests ≡ none
        → c.active ≡ some held
        → (change held).1 ≡ some x
        → mutate request_id call_id k change c
          ≡ (record c { active = some (change held).0 }, refused x)
        → MutateCase

  held_case : (held : Call) → find request_id c.requests ≡ none → c.active ≡ some held → MutateCase
  unfolding mutate
  held_case held e a = elim (Bool-cases (text_eq held.id call_id)) [
    | inl p ↦ elim (Option-cases (change held).1) [
      | inl q ↦
          changed held e a ((text_eq_iff held.id call_id).0 p) q
            (mutate_accepted held e a ((text_eq_iff held.id call_id).0 p) q)
      | inr (x, q) ↦ failed held x e a q (ground arith)
    ]
    | inr p ↦ missing e (ground arith)
  ]

  pub mutate-cases : MutateCase
  unfolding mutate
  mutate-cases = elim (Option-cases (find request_id c.requests)) [
    | inr (s, e) ↦ replayed s e (mutate_stored s e)
    | inl e ↦ elim (Option-cases c.active) [
      | inl a ↦ missing e (ground arith)
      | inr (held, a) ↦ held_case held e a
    ]
  ]
