-- ===== src/Voice/Pcm.antt =====
-- gateway/internal/voice/pcm.go: G.711 samples and the frame queue. A 16-bit sample is an integer.
pub mod Codec
pub mod Fifo
use cell_bridge.Ints.{ℤ, pos, negsuc}
use Prim.Native.Nat.{bit_and, bit_or}
use cell_bridge.Base.{
  ℕ, List, Bool, Option, ◌*◌, ◌∷◌, ◌+◌, suc, if◌then◌else◌, ◌-◌, ◌%◌, none, ◌/◌, [], leb, ltb,
  false, length, ◌^◌, not, some, get_or, true, ◌==◌, zero, map, drop, ◌++◌,
}

-- `FrameSamples`.
abbrev pub frame_samples : ℕ
frame_samples = 8000 * 20 / 1000

abbrev pub pcmu_segment_endpoints : List ℕ
pcmu_segment_endpoints = 0 ∷ 256 ∷ 512 ∷ 1024 ∷ 2048 ∷ 4096 ∷ 8192 ∷ 16384 ∷ []

-- The sign bit and the magnitude of a sample.
abbrev pub sign_of : ℤ → ℕ
sign_of (pos n) = 0
sign_of (negsuc n) = 0x80

abbrev pub magnitude : ℤ → ℕ
magnitude (pos n) = n
magnitude (negsuc n) = n + 1

-- The loop that looks for the segment: `left` rounds from `segment`, one for each end point above.
unfoldable pub segment_from : ℕ → ℕ → ℕ → ℕ
segment_from zero segment value = segment
segment_from (suc left) segment value =
    let next = segment_from left (segment + 1) value in
    if leb (get_or pcmu_segment_endpoints (segment + 1) 0) value then next else segment

abbrev pub biased : ℕ → ℕ
biased value = (if ltb 32635 value then 32635 else value) + 132

-- `encodeSample`; `^x` of a byte is 255 - x.
unfoldable pub encode_sample : ℤ → ℕ
unfolding segment_from
encode_sample sample =
    let value = biased (magnitude sample) in
    let segment = segment_from 7 0 value in
    let mantissa = bit_and (value / 2 ^ (segment + 3)) 0x0f in
    255 - bit_or (bit_or (sign_of sample) (segment * 2 ^ 4 % 256)) mantissa

-- `int16(132 - sample)` and `int16(sample - 132)`: `sample` is between 132 and 32256.
abbrev pub signed : Bool → ℕ → ℤ
signed false n = pos n
signed true zero = pos 0
signed true (suc n) = negsuc n

-- `decodeSample`.
unfoldable pub decode_sample : ℕ → ℤ
decode_sample code =
    let value = 255 - code in
    let segment = bit_and (value / 16) 0x07 in
    let mantissa = bit_and value 0x0f in
    let sample = (mantissa * 2 ^ 3 + 132) * 2 ^ segment in
    signed (not (bit_and value 0x80 == 0)) (sample - 132)

-- `ValidateFrame`, `EncodePCMU` and `DecodePCMU`: `none` is an error.
unfoldable pub encode_pcmu : List ℤ → Option (List ℕ)
encode_pcmu frame = if length frame == frame_samples then some (map encode_sample frame) else none

unfoldable pub decode_pcmu : List ℕ → Option (List ℤ)
decode_pcmu codes = if length codes == frame_samples then some (map decode_sample codes) else none

-- The queue of frames.
pub record Queue : Type 0 where
  pub capacity : ℕ
  pub frames : List (List ℤ)
  pub dropped : ℕ

-- `NewQueue`.
unfoldable pub new_queue : ℕ → Option Queue
new_queue capacity =
    if ltb capacity 1 then none else some (record { capacity = capacity; frames = []; dropped = 0 })

abbrev pub u64 : ℕ → ℕ
u64 n = n % 2 ^ 64

-- `Push`: the flag tells an error.
unfoldable pub push : List ℤ → Queue → Queue × Bool
push frame q =
    if not (length frame == frame_samples)
    then (q, true)
    else if length q.frames == q.capacity
    then (record q { frames = drop 1 q.frames ++ frame ∷ []; dropped = u64 (q.dropped + 1) }, false)
    else (record q { frames = q.frames ++ frame ∷ [] }, false)

pub pop_from : Queue → List (List ℤ) → Queue × Option (List ℤ)
pop_from q [] = (q, none)
pop_from q (frame ∷ rest) = (record q { frames = rest }, some frame)

-- `Pop`.
unfoldable pub pop : Queue → Queue × Option (List ℤ)
unfolding pop_from
pop q = pop_from q q.frames
