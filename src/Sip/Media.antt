-- ===== src/Sip/Media.antt =====
-- gateway/internal/sip/media.go: the RTP of a call. A packet is its header and its payload; the socket's
-- errors are arguments.
pub mod Stream
use cell_bridge.Base.{
  ℕ, Option, none, Bool, List, Text, false, ◌+◌, if◌then◌else◌, some, ◌%◌, length, ◌^◌, ◌==◌, not,
}

pub record Packet : Type 0 where
  pub version : ℕ
  pub payload_type : ℕ
  pub sequence_number : ℕ
  pub timestamp : ℕ
  pub ssrc : ℕ
  pub payload : List ℕ

pub record MediaSession : Type 0 where
  pub remote : Option Text
  pub ssrc : ℕ
  pub payload_type : ℕ
  pub closed : Bool
  pub seq : ℕ
  pub ts : ℕ
  pub rx : ℕ
  pub tx : ℕ

-- `NewMediaSession`, on a socket.
abbrev pub new_media_session : MediaSession
new_media_session = record {
  remote = none;
  ssrc = 0x12345678;
  payload_type = 0;
  closed = false;
  seq = 0;
  ts = 0;
  rx = 0;
  tx = 0;
}

-- `SetRemote`: `none` is an address that is not resolved, and an error.
abbrev pub set_remote : Option Text → MediaSession → MediaSession
set_remote none m = m
set_remote (some addr) m = record m { remote = some addr }

-- `WritePCMU`: the packet that is sent, if any, and whether the socket takes it. `uint32(len(frame))`.
unfoldable pub write_pcmu : Bool → List ℕ → MediaSession → MediaSession × Option Packet
write_pcmu taken frame m =
    let seq = (m.seq + 1) % 2 ^ 16 in
    let ts = (m.ts + length frame % 2 ^ 32) % 2 ^ 32 in
    let packet : Packet = record {
      version = 2;
      payload_type = m.payload_type;
      sequence_number = seq;
      timestamp = ts;
      ssrc = m.ssrc;
      payload = frame;
    } in
    elim m.remote [
      | none ↦ (record m { seq = seq; ts = ts }, none)
      | some addr ↦
          (record m { seq = seq; ts = ts; tx = if taken then m.tx + 1 else m.tx }, some packet)
    ]

-- A packet that the receiver has read and parsed, and the frame for the callback.
unfoldable pub receive : List ℕ → MediaSession → MediaSession × Option (List ℕ)
receive payload m =
    if length payload == 0
    then (m, none)
    else if not (length payload == 160)
    then (m, none)
    else (record m { rx = m.rx + 1 }, some payload)
