-- ===== src/Call/Recovery.antt =====
-- The way back from `Recovering`, which the memo of requests blocks.
use cell_bridge.Call.Mutate.{mutate-cases, mutate_stored, replayed, changed, missing, failed}
use cell_bridge.Dict.{Map, find, text_key, assign, find-assign}
use cell_bridge.Call.Ops.{
  Op, serve, run, on_rollback, on_finish, step, on_incoming, on_dial, on_answer, on_cellular,
  on_media, on_recovering, on_hang_up, on_remote,
}
use cell_bridge.Call.Controller.{
  mark_media_ready, incoming, dial, mutate, answer, mark_cellular_ready, mark_recovering, media_key,
  hang_up, remote_ended,
}
use cell_bridge.Call.Changes.{
  Change, answer_change, cellular_change, recovering_change, hangup_change, remote_change,
  media_change,
}
use cell_bridge.Base.{
  Text, List, ◌≡◌, arith, ℕ, Option, Bool, some, text_eq_iff, true, ◌⊎◌, false, ◌∷◌, none, ◌&&◌,
  ◌∙◌, [], refl,
}
use cell_bridge.Call.Defs.{State, Call, Controller, Stored, Kind, recovering, ending}

abbrev Down : State → Type 0
Down s = (s ≡ recovering) ⊎ (s ≡ ending)

-- The call `call_id` was media-ready once, and is now recovering or ending.
pub record Lost (call_id : Text) (c : Controller) : Type 0 where
  pub held : Call
  pub holds : c.active ≡ some held
  pub same : held.id ≡ call_id
  pub down : (held.state ≡ recovering) ⊎ (held.state ≡ ending)
  pub seen : Stored
  pub stored : find (media_key call_id) c.requests ≡ some seen

abbrev StaysDown : Change → Type 0
StaysDown change =
    (call : Call) → Down call.state → ((change call).0.id ≡ call.id) × Down (change call).0.state

answer_down : StaysDown answer_change
unfolding answer_change
answer_down call d = ground arith

cellular_down : (now : ℕ) → StaysDown (cellular_change now)
unfolding cellular_change
cellular_down now call d = ground arith

recovering_down : (reason : Text) → StaysDown (recovering_change reason)
unfolding recovering_change
recovering_down reason call d = ground arith

hangup_down : (reason : Text) → StaysDown (hangup_change reason)
unfolding hangup_change
hangup_down reason call d = ground arith

remote_down : (reason : Text) → StaysDown (remote_change reason)
unfolding remote_change
remote_down reason call d = ground arith

-- A stored key outlives an assignment to a key that was free.
stored_kept :
    (k j : Text) (s new : Stored) (m : Map Text Stored)
    → find k m ≡ some s
    → find j m ≡ none
    → find k (assign j new m) ≡ some s
stored_kept k j s new m h fresh = ground (arith, find-assign j k new m, text_eq_iff j k)

some_inj : (a b : Call) (o : Option Call) → o ≡ some a → o ≡ some b → a ≡ b
some_inj a b o p q = cc

module _ (request_id call_id other_id : Text) (k : Kind) (change : Change) (c : Controller) where
  mutate-Lost :
      StaysDown change → Lost call_id c → Lost call_id (mutate request_id other_id k change c).0
  mutate-Lost stays l = elim (mutate-cases request_id other_id k change c) [
    | replayed s e r ↦ rw r l
    | changed held e a i q r ↦
        let same_call = some_inj l.held held c.active l.holds a in
        rw r (record {
          held = (change held).0;
          holds = refl;
          same = (stays held (rw same_call at l.down)).0 ∙ (rw same_call at l.same);
          down = (stays held (rw same_call at l.down)).1;
          seen = l.seen;
          stored = stored_kept (media_key call_id) request_id l.seen _ c.requests l.stored e;
        })
    | missing e r ↦ rw r l
    | failed held x e a q r ↦
        let same_call = some_inj l.held held c.active l.holds a in
        rw r (record {
          held = (change held).0;
          holds = refl;
          same = (stays held (rw same_call at l.down)).0 ∙ (rw same_call at l.same);
          down = (stays held (rw same_call at l.down)).1;
          seen = l.seen;
          stored = l.stored;
        })
  ]

-- `MarkMediaReady` finds its own key in the memo, or another call on the line.
media-Lost :
    (now : ℕ) (call_id other_id : Text) (c : Controller)
    → Lost call_id c
    → (mark_media_ready now other_id c).0 ≡ c
unfolding mark_media_ready mutate
media-Lost now call_id other_id c l =
    ground (arith, l.holds, l.same, l.stored, text_eq_iff l.held.id other_id)

incoming-Lost :
    (now : ℕ) (i p call_id : Text) (c : Controller) → Lost call_id c → (incoming now i p c).0 ≡ c
unfolding incoming
incoming-Lost now i p call_id c l = ground arith

dial-Lost :
    (now : ℕ) (r i p call_id : Text) (c : Controller) → Lost call_id c → (dial now r i p c).0 ≡ c
unfolding dial
dial-Lost now r i p call_id c l = ground arith

-- Neither a rollback nor the end of the call.
abbrev pub is_plain : Op → Bool
is_plain (on_rollback r i) = false
is_plain (on_finish now i) = false
is_plain _ = true

serve-Lost :
    (op : Op) (call_id : Text) (c : Controller)
    → is_plain op ≡ true
    → Lost call_id c
    → Lost call_id (step op c)
unfolding serve answer mark_cellular_ready mark_recovering hang_up remote_ended
serve-Lost (on_incoming now i p) call_id c h l = rw (incoming-Lost now i p call_id c l) l
serve-Lost (on_dial now r i p) call_id c h l = rw (dial-Lost now r i p call_id c l) l
serve-Lost (on_answer r i) call_id c h l = mutate-Lost r call_id i _ _ c answer_down l
serve-Lost (on_cellular now i) call_id c h l = mutate-Lost _ call_id i _ _ c (cellular_down now) l
serve-Lost (on_media now i) call_id c h l = rw (media-Lost now call_id i c l) l
serve-Lost (on_recovering i why) call_id c h l =
    mutate-Lost _ call_id i _ _ c (recovering_down why) l
serve-Lost (on_hang_up r i why) call_id c h l = mutate-Lost r call_id i _ _ c (hangup_down why) l
serve-Lost (on_remote i why) call_id c h l = mutate-Lost _ call_id i _ _ c (remote_down why) l
serve-Lost (on_finish now i) call_id c h l = absurd (cc h)
serve-Lost (on_rollback r i) call_id c h l = absurd (cc h)

abbrev pub all_plain : List Op → Bool
all_plain [] = true
all_plain (op ∷ ops) = is_plain op && all_plain ops

-- Once a call whose media-ready key is in the memo is recovering (or ending), every sequence of
-- requests without a rollback or a finish, `MarkMediaReady` for it included, leaves it recovering or
-- ending: it holds the line and never becomes active again.
pub recovering_stuck :
    (ops : List Op) (call_id : Text) (c : Controller)
    → all_plain ops ≡ true
    → Lost call_id c
    → Lost call_id (run ops c)
unfolding run
recovering_stuck [] call_id c h l = l
recovering_stuck (op ∷ ops) call_id c h l =
    recovering_stuck ops call_id (step op c) (ground arith)
      (serve-Lost op call_id c (ground arith) l)

-- When a recovering call has been media-ready before, `MarkMediaReady` for it reports the reply of
-- that first time and changes nothing.
pub media_replayed :
    (now : ℕ) (call_id : Text) (c : Controller) (l : Lost call_id c)
    → mark_media_ready now call_id c ≡ (c, l.seen.reply)
unfolding mark_media_ready
media_replayed now call_id c l =
    mutate_stored (media_key call_id) call_id Kind.media_ready (media_change now) c l.seen l.stored
