-- ===== src/Voice/Bridge.antt =====
-- gateway/internal/voice/bridge.go: the bridge between the modem's audio and the client's media. The
-- calls it makes are a list of effects; the times of its log lines are left out. Both hooks are set.
pub mod Laws
use cell_bridge.Ints.{ℤ, pos}
use cell_bridge.Voice.Pcm.{decode_pcmu, encode_pcmu, u64, magnitude, frame_samples}
use cell_bridge.Base.{
  Text, ℕ, Bool, false, List, Option, [], if◌then◌else◌, ◌∷◌, not, ◌+◌, leb, some, replicate, true,
  ◌++◌, ltb, length, none, ◌==◌, ◌%◌, drop,
}

pub data Effect : Type 0 where
  audio_start : Text → Effect
  audio_write : List ℤ → Effect
  audio_stop : Effect
  media_write : List ℕ → Effect
  client_hook cellular_hook : List ℤ → Effect

-- One direction's counters.
pub record Stats : Type 0 where
  pub frames : ℕ
  pub peak_max : ℕ
  pub non_zero : ℕ
  pub sum : ℕ

-- `stopped` is the flag of `sync.Once`.
pub record Bridge : Type 0 where
  pub stopped : Bool
  pub started : Bool
  pub call_id : Text
  pub client_seen : Bool
  pub cellular_seen : Bool
  pub client : Stats
  pub cellular : Stats
  pub client_queue : List (List ℤ)

abbrev no_stats : Stats
no_stats = record { frames = 0; peak_max = 0; non_zero = 0; sum = 0 }

-- `NewBridge`.
abbrev pub new_bridge : Bridge
new_bridge = record {
  stopped = false;
  started = false;
  call_id = [];
  client_seen = false;
  cellular_seen = false;
  client = no_stats;
  cellular = no_stats;
  client_queue = [];
}

-- `Start`: the flags say that audio and media are there, and that the audio starts. The last result
-- tells an error.
unfoldable pub start : Bool → Bool → Text → Bridge → Bridge × List Effect × Bool
start present audio_ok call_id b =
    if not present
    then (b, [], true)
    else if not audio_ok
    then (b, audio_start call_id ∷ [], true)
    else (
      record b {
        started = true;
        call_id = call_id;
        client_seen = false;
        cellular_seen = false;
        client_queue = [];
      },
      audio_start call_id ∷ [],
      false,
    )

-- `pcmPeak`.
pub peak_from : ℕ → List ℤ → ℕ
peak_from peak [] = peak
peak_from peak (sample ∷ samples) =
    let value = magnitude sample in
    let next = if ltb peak value then value else peak in peak_from next samples

abbrev pub pcm_peak : List ℤ → ℕ
pcm_peak samples = peak_from 0 samples

-- The counting of a frame, the same in both directions.
unfoldable pub count_frame : ℕ → Stats → Stats
count_frame peak s =
    let frames = u64 (s.frames + 1) in
    let peak_max = if ltb s.peak_max peak then peak else s.peak_max in
    record {
      frames = frames;
      peak_max = if frames % 50 == 0 then 0 else peak_max;
      non_zero = if ltb 0 peak then u64 (s.non_zero + 1) else s.non_zero;
      sum = u64 (s.sum + peak);
    }

-- `clientQueueSize`.
abbrev pub client_queue_size : ℕ
client_queue_size = 50

-- `enqueueClient`.
unfoldable pub enqueue_client : List ℤ → Bridge → Bridge
enqueue_client pcm b =
    let room =
      if leb client_queue_size (length b.client_queue)
      then drop 1 b.client_queue
      else b.client_queue in
    record b { client_queue = room ++ pcm ∷ [] }

-- The media callback up to its hook, under the lock; `none` is an early return.
client_counted : List ℤ → Bridge → Bridge × Option (List ℤ)
unfolding count_frame
client_counted pcm b =
    if not b.started
    then (b, none)
    else (record b { client_seen = true; client = count_frame (pcm_peak pcm) b.client }, some pcm)

unfoldable pub client_received : List ℕ → Bridge → Bridge × Option (List ℤ)
unfolding client_counted decode_pcmu
client_received frame b =
    if not (length frame == frame_samples)
    then (b, none)
    else elim (decode_pcmu frame) [ none ↦ (b, none) | some pcm ↦ client_counted pcm b ]

-- The rest of the callback.
client_enqueued : Bridge × Option (List ℤ) → Bridge × List Effect
unfolding enqueue_client
client_enqueued (b, none) = (b, [])
client_enqueued (b, some pcm) = (enqueue_client pcm b, client_hook pcm ∷ [])

-- The media callback.
unfoldable pub on_client_frame : List ℕ → Bridge → Bridge × List Effect
unfolding client_enqueued client_received
on_client_frame frame b = client_enqueued (client_received frame b)

abbrev pub silence : List ℤ
silence = replicate frame_samples (pos 0)

-- What a round of `clientPlaybackLoop` takes under the lock; `none` ends the loop.
unfoldable pub take_queued : Bridge → List (List ℤ) → Bridge × List ℤ
take_queued b [] = (b, silence)
take_queued b (frame ∷ frames) = (record b { client_queue = frames }, frame)

unfoldable pub take_client : Bridge → Option (Bridge × List ℤ)
unfolding take_queued
take_client b = if not b.started then none else some (take_queued b b.client_queue)

-- `writePCM`.
unfoldable pub write_pcm : List ℤ → Bridge → List Effect
write_pcm pcm b = if not b.started then [] else audio_write pcm ∷ []

-- A round of `clientPlaybackLoop`.
unfoldable pub playback_round : Bridge → Bridge × List Effect
unfolding take_client write_pcm
playback_round b = elim (take_client b) [ none ↦ (b, []) | some (b', pcm) ↦ (b', write_pcm pcm b') ]

-- The counting in `readLoop`.
unfoldable pub cellular_counted : List ℤ → Bridge → Bridge
unfolding count_frame
cellular_counted pcm b = record b {
  cellular_seen = true;
  cellular = count_frame (pcm_peak pcm) b.cellular;
}

-- A round of `readLoop` on what `ReadPCM` returned, and whether the loop goes on.
unfoldable pub read_round : Option ℕ → List ℤ → Bool → Bridge → Bridge × List Effect × Bool
unfolding cellular_counted encode_pcmu
read_round none pcm written b = (b, [], false)
read_round (some count) pcm written b =
    if not b.started
    then (b, [], false)
    else if not (count == frame_samples)
    then (b, [], true)
    else elim (encode_pcmu pcm) [
      | none ↦ (cellular_counted pcm b, cellular_hook pcm ∷ [], false)
      | some frame ↦ (cellular_counted pcm b, cellular_hook pcm ∷ media_write frame ∷ [], written)
    ]

-- `Stop`.
unfoldable pub stop : Bridge → Bridge × List Effect
stop b = if b.stopped then (b, []) else (
  record b { stopped = true; started = false; call_id = [] },
  if b.started then audio_stop ∷ [] else [],
)

-- The sections that hold the lock, in whatever order the goroutines enter them: of the media
-- callback, of its enqueueing, of the playback loop and its writes, of the reading loop, of `Stop`,
-- and of `Start` behind the start of the audio. A section that is entered with a frame or an id in
-- hand is entered with any.
pub data Event : Type 0 where
  starting : Text → Event
  received : List ℕ → Event
  enqueued : List ℤ → Event
  took : Event
  wrote : List ℤ → Event
  counted : List ℤ → Event
  stopping : Event

unfoldable pub step : Event → Bridge → Bridge × List Effect
unfolding start client_received enqueue_client take_client write_pcm cellular_counted stop
step (starting call_id) b = ((start true true call_id b).0, [])
step (received frame) b = ((client_received frame b).0, [])
step (enqueued pcm) b = (enqueue_client pcm b, [])
step took b = elim (take_client b) [ none ↦ (b, []) | some (b', pcm) ↦ (b', []) ]
step (wrote pcm) b = (b, write_pcm pcm b)
step (counted pcm) b = (cellular_counted pcm b, [])
step stopping b = stop b

unfoldable pub run : List Event → Bridge → Bridge × List Effect
unfolding step
run [] b = (b, [])
run (event ∷ events) b =
    let (b', effects) = step event b in let (b'', more) = run events b' in (b'', effects ++ more)
