-- ===== src/Sip/Media/Stream.antt =====
-- The packets of a call, one behind the other.
use cell_bridge.Base.{
  none, ℕ, List, ◌∷◌, Text, true, ◌+◌, ◌≡◌, ◌%◌, some, [], length, All, refl, arith, sym, ◌∙◌, ap,
  Option,
}
use cell_bridge.Sip.Media.{write_pcmu, MediaSession, Packet}

unfoldable pub write_all : List (List ℕ) → MediaSession → List Packet
unfolding write_pcmu
write_all [] m = []
write_all (frame ∷ frames) m =
    let (m', packet) = write_pcmu true frame m in
    let rest = write_all frames m' in elim packet [ none ↦ rest | some p ↦ p ∷ rest ]

-- The stream that a receiver expects: numbers that go up by one and times by the frame's samples,
-- around their widths.
unfoldable pub stream : ℕ → ℕ → ℕ → ℕ → List (List ℕ) → List Packet
stream ssrc payload_type seq ts [] = []
stream ssrc payload_type seq ts (frame ∷ frames) =
    record {
      version = 2;
      payload_type = payload_type;
      sequence_number = (seq + 1) % 65536;
      timestamp = (ts + 160) % 4294967296;
      ssrc = ssrc;
      payload = frame;
    }
    ∷ stream ssrc payload_type (seq + 1) (ts + 160) frames

-- The session and the packet behind a frame, for numbers that are given.
abbrev next_session : ℕ → ℕ → MediaSession → MediaSession
next_session seq ts m = record m { seq = seq; ts = ts; tx = m.tx + 1 }

abbrev next_packet : ℕ → ℕ → List ℕ → MediaSession → Packet
next_packet seq ts frame m = record {
  version = 2;
  payload_type = m.payload_type;
  sequence_number = seq;
  timestamp = ts;
  ssrc = m.ssrc;
  payload = frame;
}

write_pcmu-next :
    (frame : List ℕ) (m : MediaSession) (addr : Text) (seq ts : ℕ)
    → m.remote ≡ some addr
    → length frame ≡ 160
    → (m.seq + 1) % 65536 ≡ seq
    → (m.ts + 160) % 4294967296 ≡ ts
    → write_pcmu true frame m ≡ (next_session seq ts m, some (next_packet seq ts frame m))
unfolding write_pcmu
write_pcmu-next frame m addr seq ts there size es et =
    rw (sym es, sym et) (ground (arith, there, size))

write_all-cons :
    (frame : List ℕ) (frames : List (List ℕ)) (m m' : MediaSession) (p : Packet)
    → write_pcmu true frame m ≡ (m', some p)
    → write_all (frame ∷ frames) m ≡ p ∷ write_all frames m'
unfolding write_all
write_all-cons frame frames m m' p e =
    let sent : (write_pcmu true frame m).1 ≡ some p =
      ap (λ (r : MediaSession × Option Packet). r.1) e in
    let then_state : (write_pcmu true frame m).0 ≡ m' =
      ap (λ (r : MediaSession × Option Packet). r.0) e in
    rw (sent, write_all) (ap (λ x. p ∷ write_all frames x) then_state)

-- Once the remote side is known, frames of 160 samples are sent as one stream without a gap: each
-- packet has the next sequence number and a time 160 further on, around 16 and 32 bits, the same
-- source and its own frame, and no frame is left out.
pub write_all-stream :
    (frames : List (List ℕ)) (m : MediaSession) (addr : Text) (s t : ℕ)
    → m.remote ≡ some addr
    → All (λ frame. length frame ≡ 160) frames
    → m.seq ≡ s % 65536
    → m.ts ≡ t % 4294967296
    → write_all frames m ≡ stream m.ssrc m.payload_type s t frames
unfolding write_all stream
write_all-stream [] m addr s t there sizes es et = refl
write_all-stream (frame ∷ frames) m addr s t there (size, sizes) es et =
    let seq = (s + 1) % 65536 in
    let ts = (t + 160) % 4294967296 in
    let number : (m.seq + 1) % 65536 ≡ seq = rw es (omega arith) in
    let time : (m.ts + 160) % 4294967296 ≡ ts = rw et (omega arith) in
    write_all-cons frame frames m (next_session seq ts m) (next_packet seq ts frame m)
      (write_pcmu-next frame m addr seq ts there size number time)
    ∙ ap (λ rest. next_packet seq ts frame m ∷ rest)
        (write_all-stream frames (next_session seq ts m) addr (s + 1) (t + 160) there sizes refl
          refl)
