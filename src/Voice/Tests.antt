-- ===== src/Voice/Tests.antt =====
-- Codes, samples and a full queue, and the theorems at concrete inputs.
use cell_bridge.Voice.Bridge.Laws.{playback, enqueue_all, playback-enqueue_all}
use cell_bridge.Voice.Bridge.{Bridge, new_bridge, audio_write, silence}
use cell_bridge.Ints.{negsuc, ℤ, pos}
use cell_bridge.Voice.Pcm.Codec.{decode-encode_sample}
use cell_bridge.Base.{
  ℕ, List, ◌∷◌, ◌≡◌, [], refl, replicate, drop, ◌==◌, length, ◌*◌, ◌+◌, arith, ◌≤◌, ◌-◌, ◌++◌, true,
  map, codes, take,
}
use cell_bridge.Voice.Pcm.{encode_sample, Queue, decode_sample, signed, sign_of, magnitude}

-- The negative zero.
negative_zero : encode_sample (decode_sample 0x7f) ≡ 0xff
unfolding encode_sample decode_sample
negative_zero = refl

decode-encode_sample_example :
    (r : ℕ) × (decode_sample (encode_sample (negsuc 999)) ≡ signed (sign_of (negsuc 999) == 0x80) r)
    × (32 * r ≤ 32 * magnitude (negsuc 999) + (magnitude (negsuc 999) + 132))
    × (32 * magnitude (negsuc 999) ≤ 32 * r + (magnitude (negsuc 999) + 132))
decode-encode_sample_example = decode-encode_sample (negsuc 999) (omega arith)

abbrev frame_of : ℕ → List ℤ
frame_of n = replicate 160 (pos n)

-- A queue of two frames that is full.
abbrev full_queue : Queue
full_queue = record { capacity = 2; frames = frame_of 1 ∷ frame_of 2 ∷ []; dropped = 0 }

abbrev live_bridge : Bridge
live_bridge = record new_bridge { started = true; call_id = codes "c1" }

abbrev tone : List ℤ
tone = pos 100 ∷ pos 200 ∷ []

playback-enqueue_all_example :
    playback 2 (enqueue_all (tone ∷ []) live_bridge)
    ≡ map audio_write (take 2 (drop (length (tone ∷ []) - 50) (tone ∷ []) ++ replicate 2 silence))
playback-enqueue_all_example = playback-enqueue_all 2 (tone ∷ []) live_bridge refl refl
