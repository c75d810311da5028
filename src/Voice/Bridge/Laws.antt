-- ===== src/Voice/Bridge/Laws.antt =====
-- The queue of the bridge, what is played from it, and the silence after `Stop`.
use cell_bridge.Voice.Pcm.Fifo.{joined}
use mathlib.Core.List.{append-nil}
use cell_bridge.Ints.{ℤ}
use cell_bridge.Base.{
  List, ℕ, ◌∷◌, length, ◌≡◌, [], ◌≤◌, true, drop, refl, suc, map, false, ◌+◌, ◌++◌, ◌-◌, zero, take,
  Bool-cases, arith, replicate, leb, sym, inl, ◌∙◌, drop_shorter, ap, inr, length-drop,
  length-append, List-cases, take-padded, if◌then◌else◌, Bool, All,
}
use cell_bridge.Voice.Bridge.{
  enqueue_client, playback_round, step, Bridge, take_client, Event, Effect, write_pcm, audio_write,
  silence, received, enqueued, wrote, counted, took, stopping, client_received, run, stop,
  client_counted, audio_stop, take_queued, starting, start,
}

-- Frames that arrive one behind the other.
unfoldable pub enqueue_all : List (List ℤ) → Bridge → Bridge
unfolding enqueue_client
enqueue_all [] b = b
enqueue_all (pcm ∷ frames) b = enqueue_all frames (enqueue_client pcm b)

enqueue_client-queue :
    (pcm : List ℤ) (b : Bridge)
    → length b.client_queue ≤ 50
    → (enqueue_client pcm b).client_queue
      ≡ drop (length b.client_queue + 1 - 50) (b.client_queue ++ pcm ∷ [])
unfolding enqueue_client
enqueue_client-queue pcm b h = elim (Bool-cases (leb 50 (length b.client_queue))) [
  | inl full ↦
      let one : length b.client_queue + 1 - 50 ≡ 1 = ground arith in
      rw (full, one) (sym (drop_shorter 1 b.client_queue (pcm ∷ []) (ground arith)))
  | inr room ↦
      let nothing : length b.client_queue + 1 - 50 ≡ 0 = ground arith in rw (room, nothing) refl
]

-- The queue after frames have arrived: the newest 50, in their order.
enqueue_all-queue :
    (frames : List (List ℤ)) (b : Bridge)
    → length b.client_queue ≤ 50
    → (enqueue_all frames b).client_queue
      ≡ drop (length b.client_queue + length frames - 50) (b.client_queue ++ frames)
unfolding enqueue_all
enqueue_all-queue [] b h =
    let none_over : length b.client_queue + 0 - 50 ≡ 0 = omega arith in
    rw none_over (sym (append-nil b.client_queue))
enqueue_all-queue (pcm ∷ frames) b h =
    let q = b.client_queue in
    let q' = (enqueue_client pcm b).client_queue in
    let newest = enqueue_client-queue pcm b h in
    let size : length q' ≡ length q + 1 - (length q + 1 - 50) =
      ap length newest
      ∙ length-drop (length q + 1 - 50) (q ++ pcm ∷ [])
      ∙ rw (length-append q (pcm ∷ [])) (omega arith) in
    enqueue_all-queue frames (enqueue_client pcm b) (omega (arith, size))
    ∙ ap (λ t. drop (length q' + length frames - 50) (t ++ frames)) newest
    ∙ joined (length q + 1 - 50) (length q' + length frames - 50)
        (length q + length (pcm ∷ frames) - 50) q pcm frames (omega arith) (omega (arith, size))

enqueue_all-started :
    (frames : List (List ℤ)) (b : Bridge) → (enqueue_all frames b).started ≡ b.started
unfolding enqueue_all enqueue_client
enqueue_all-started [] b = refl
enqueue_all-started (pcm ∷ frames) b = enqueue_all-started frames (enqueue_client pcm b)

-- Rounds of the playback loop.
unfoldable pub playback : ℕ → Bridge → List Effect
unfolding playback_round
playback zero b = []
playback (suc n) b = let (b', effects) = playback_round b in effects ++ playback n b'

playback-queue :
    (n : ℕ) (b : Bridge)
    → b.started ≡ true
    → playback n b ≡ map audio_write (take n (b.client_queue ++ replicate n silence))
unfolding playback playback_round take_client take_queued write_pcm
playback-queue zero b h = refl
playback-queue (suc n) b h = elim (List-cases b.client_queue) [
  | inl e ↦
      rw (h, e)
        (ap (λ t. audio_write silence ∷ t)
          (playback-queue n (record b { started = true; client_queue = [] }) refl))
  | inr (pcm, rest, e) ↦
      rw (h, e)
        (ap (λ t. audio_write pcm ∷ t)
          (playback-queue n (record b { started = true; client_queue = rest }) refl
            ∙ ap (map audio_write) (sym (take-padded n n silence rest (omega arith)))))
]

-- In a started bridge whose queue is empty, the frames of the client are played in their order, one
-- each round, the newest 50 of those that arrived in between, and silence from where they end.
pub playback-enqueue_all :
    (n : ℕ) (frames : List (List ℤ)) (b : Bridge)
    → b.started ≡ true
    → b.client_queue ≡ []
    → playback n (enqueue_all frames b)
      ≡ map audio_write (take n (drop (length frames - 50) frames ++ replicate n silence))
playback-enqueue_all n frames b h e =
    playback-queue n (enqueue_all frames b) (enqueue_all-started frames b ∙ h)
    ∙ ap (λ q. map audio_write (take n (q ++ replicate n silence)))
        (enqueue_all-queue frames b (rw e (omega arith))
          ∙ rw e (ap (λ k. drop k frames) (omega arith)))

client_received-queue :
    (frame : List ℕ) (b : Bridge) → (client_received frame b).0.client_queue ≡ b.client_queue
unfolding client_received client_counted
client_received-queue frame b = ground arith

enqueue_client-Bounded :
    (pcm : List ℤ) (b : Bridge)
    → length b.client_queue ≤ 50
    → length (enqueue_client pcm b).client_queue ≤ 50
enqueue_client-Bounded pcm b h =
    let q = b.client_queue in
    omega (
      arith,
      ap length (enqueue_client-queue pcm b h) ∙ length-drop (length q + 1 - 50) (q ++ pcm ∷ []),
      length-append q (pcm ∷ []),
    )

step-Bounded :
    (event : Event) (b : Bridge)
    → length b.client_queue ≤ 50
    → length (step event b).0.client_queue ≤ 50
unfolding step
step-Bounded (starting call_id) b h = unfold start in omega arith
step-Bounded (received frame) b h = rw (client_received-queue frame b) h
step-Bounded (enqueued pcm) b h = enqueue_client-Bounded pcm b h
step-Bounded took b h = ground arith
step-Bounded (wrote pcm) b h = h
step-Bounded (counted pcm) b h = h
step-Bounded stopping b h = ground arith

-- The section of `Start`.
abbrev pub is_starting : Event → Bool
is_starting (starting call_id) = true
is_starting _ = false

step-stopped :
    (event : Event) (b : Bridge)
    → is_starting event ≡ false
    → b.stopped ≡ true
    → b.started ≡ false
    → ((step event b).0.stopped ≡ true)
      × ((step event b).0.started ≡ false)
      × ((step event b).1 ≡ [])
unfolding step
step-stopped (starting call_id) b s h k = absurd (cc s)
step-stopped (received frame) b s h k = ground (arith, k)
step-stopped (enqueued pcm) b s h k = ground (arith, k)
step-stopped took b s h k = ground (arith, k)
step-stopped (wrote pcm) b s h k = ground (arith, k)
step-stopped (counted pcm) b s h k = ground (arith, k)
step-stopped stopping b s h k = ground (arith, k)

-- In whatever order the goroutines enter their sections, at most 50 frames wait for the modem.
pub run-Bounded :
    (events : List Event) (b : Bridge)
    → length b.client_queue ≤ 50
    → length (run events b).0.client_queue ≤ 50
unfolding run
run-Bounded [] b h = h
run-Bounded (event ∷ events) b h = run-Bounded events (step event b).0 (step-Bounded event b h)

run-stopped :
    (events : List Event) (b : Bridge)
    → All (λ event. is_starting event ≡ false) events
    → b.stopped ≡ true
    → b.started ≡ false
    → (run events b).1 ≡ []
unfolding run
run-stopped [] b s h k = refl
run-stopped (event ∷ events) b s h k =
    let (h', k', quiet) = step-stopped event b s.0 h k in
    rw quiet (run-stopped events (step event b).0 s.1 h' k')

-- The first `Stop` of a bridge stops the audio if it was started, and as long as `Start` does not
-- enter its section behind it, no later section, in whatever order they are entered, plays to the
-- modem or stops it again.
pub run-stop :
    (events : List Event) (b : Bridge)
    → All (λ event. is_starting event ≡ false) events
    → b.stopped ≡ false
    → ((stop b).1 ≡ (if b.started then audio_stop ∷ [] else [])) × ((run events (stop b).0).1 ≡ [])
unfolding stop
run-stop events b s h = rw h (refl, run-stopped events _ s refl refl)
