-- ===== src/Call/Ops.antt =====
-- The requests that reach the controller, as data, and a sequence of them.
use cell_bridge.Base.{ℕ, List, [], ◌∷◌, Text, Option}
use cell_bridge.Call.Defs.{Controller, Reply, Err}
use cell_bridge.Call.Controller.{
  incoming, dial, answer, mark_cellular_ready, mark_media_ready, mark_recovering, hang_up, rollback,
  remote_ended, finish,
}

pub data Op : Type 0 where
  on_incoming : ℕ → Text → Text → Op
  on_dial : ℕ → Text → Text → Text → Op
  on_answer : Text → Text → Op
  on_cellular : ℕ → Text → Op
  on_media : ℕ → Text → Op
  on_recovering : Text → Text → Op
  on_hang_up : Text → Text → Text → Op
  on_remote : Text → Text → Op
  on_finish : ℕ → Text → Op
  on_rollback : Text → Text → Op

abbrev answered_by : Controller × Reply → Controller × Option Err
answered_by (c, r) = (c, r.err)

-- The new controller, and the error of the reply.
unfoldable pub serve : Op → Controller → Controller × Option Err
serve (on_incoming now i p) c = answered_by (incoming now i p c)
serve (on_dial now r i p) c = answered_by (dial now r i p c)
serve (on_answer r i) c = answered_by (answer r i c)
serve (on_cellular now i) c = answered_by (mark_cellular_ready now i c)
serve (on_media now i) c = answered_by (mark_media_ready now i c)
serve (on_recovering i reason) c = answered_by (mark_recovering i reason c)
serve (on_hang_up r i reason) c = answered_by (hang_up r i reason c)
serve (on_remote i reason) c = answered_by (remote_ended i reason c)
serve (on_finish now i) c = answered_by (finish now i c)
serve (on_rollback r i) c = rollback r i c

abbrev pub step : Op → Controller → Controller
step op c = (serve op c).0

unfoldable pub run : List Op → Controller → Controller
run [] c = c
run (op ∷ ops) c = run ops (step op c)
