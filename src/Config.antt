-- ===== src/Config.antt =====
-- gateway/internal/config/config.go: the configuration, its defaults and its validation, over what the
-- package net says of addresses.
pub mod Laws
mod Tests
use cell_bridge.Strings.{to_lower, contains}
use cell_bridge.Ints.{ℤ, pos, negsuc}
use cell_bridge.Base.{
  Text, Bool, true, codes, text_eq, List, ℕ, false, [], ◌∷◌, leb, ◌||◌, not, ◌&&◌, Option, ◌*◌,
  length, ◌==◌, trim_space, none, drop, ◌+◌, ◌++◌, ◌-◌, if◌then◌else◌, some,
}

pub record Network : Type 0 where
  pub mode : Text
  pub transport : Text
  pub tailnet_hostname : Text
  pub public_fallback : Bool

pub record Server : Type 0 where
  pub listen : Text
  pub public_base_url : Text

pub record Modem : Type 0 where
  pub adapter : Text
  pub tty : Text
  pub baud : ℤ
  pub allow_usb_identity_changes : Bool

pub record Voice : Type 0 where
  pub enabled : Bool
  pub backend : Text
  pub codec : Text
  pub sample_rate : ℤ
  pub rx_path : Text
  pub tx_path : Text
  pub runtime_dir : Text
  pub bootstrap : Bool

pub record PrivateTurn : Type 0 where
  pub enabled : Bool
  pub host : Text
  pub port : ℤ
  pub bind_ip : Text

pub record WebRtc : Type 0 where
  pub remote_ice_policy : Text
  pub local_ice_policy : Text
  pub media_network_policy : Text
  pub turn_credential_ttl : Text
  pub private_turn : PrivateTurn

pub record Recording : Type 0 where
  pub enabled : Bool
  pub retention_days : ℤ
  pub minimum_free_bytes : ℤ
  pub auto_mode : Text

pub record Security : Type 0 where
  pub pairing_local_only : Bool
  pub admin_local_only : Bool
  pub redact_logs : Bool

pub record Push : Type 0 where
  pub mode : Text
  pub broker_url : Text

pub record Sip : Type 0 where
  pub enabled : Bool
  pub listen : Text
  pub realm : Text
  pub push_token : Text
  pub users : List (Text × Text)

pub record Config : Type 0 where
  pub network : Network
  pub server : Server
  pub data_dir : Text
  pub modem : Modem
  pub voice : Voice
  pub webrtc : WebRtc
  pub push : Push
  pub recording : Recording
  pub security : Security
  pub sip : Sip

abbrev pub default_voice : Voice
default_voice = record {
  enabled = true;
  backend = codes "auto";
  codec = codes "pcmu";
  sample_rate = pos 8000;
  rx_path = [];
  tx_path = [];
  runtime_dir = [];
  bootstrap = false;
}

abbrev pub default_webrtc : WebRtc
default_webrtc = record {
  remote_ice_policy = codes "relay";
  local_ice_policy = codes "all";
  media_network_policy = codes "tailnet-turn";
  turn_credential_ttl = codes "10m";
  private_turn = record { enabled = false; host = []; port = pos 3478; bind_ip = [] };
}

-- `Default`.
abbrev pub default_config : Config
default_config = record {
  network = record {
    mode = codes "tailnet";
    transport = codes "tailnet";
    tailnet_hostname = [];
    public_fallback = false;
  };
  server = record { listen = codes "127.0.0.1:8787"; public_base_url = [] };
  data_dir = codes "/var/lib/cellbridge";
  modem = record {
    adapter = codes "auto";
    tty = codes "auto";
    baud = pos 9600;
    allow_usb_identity_changes = false;
  };
  voice = default_voice;
  webrtc = default_webrtc;
  push = record { mode = codes "broker"; broker_url = [] };
  recording = record {
    enabled = true;
    retention_days = pos 90;
    minimum_free_bytes = pos (500 * 1024 * 1024);
    auto_mode = codes "off";
  };
  security = record { pairing_local_only = true; admin_local_only = true; redact_logs = true };
  sip = record {
    enabled = false;
    listen = codes "127.0.0.1:5060";
    realm = codes "cellbridge";
    push_token = [];
    users = [];
  };
}

-- `net.SplitHostPort` less the port, `net.ParseIP` and `IP.IsLoopback`. An error, and a nil address,
-- is `none`.
pub record Net : Type 0 where
  pub split_host_port : Text → Option Text
  pub parse_ip : Text → Option (List ℕ)
  pub is_loopback : List ℕ → Bool

host_is_loopback : Net → Text → Bool
host_is_loopback net host = elim (net.parse_ip host) [ none ↦ false | some ip ↦ net.is_loopback ip ]

-- `isLoopbackAddress`.
unfoldable pub is_loopback_address : Net → Text → Bool
unfolding host_is_loopback
is_loopback_address net address = elim (net.split_host_port address) [
  | none ↦ false
  | some host ↦ host_is_loopback net host
]

abbrev pub empty_text : Text → Bool
empty_text [] = true
empty_text (c ∷ s) = false

abbrev pub one_of : Text → List Text → Bool
one_of s [] = false
one_of s (t ∷ ts) = text_eq s t || one_of s ts

-- `strings.HasSuffix`.
unfoldable pub has_suffix : Text → Text → Bool
unfolding text_eq
has_suffix s suffix =
    leb (length suffix) (length s) && text_eq (drop (length s - length suffix) s) suffix

abbrev pub int_eq : ℤ → ℕ → Bool
int_eq (pos n) m = n == m
int_eq (negsuc n) m = false

abbrev pub is_negative : ℤ → Bool
is_negative (pos n) = false
is_negative (negsuc n) = true

-- `port < 1 || port > 65535`, negated.
abbrev pub is_port : ℤ → Bool
is_port (pos n) = leb 1 n && leb n 65535
is_port (negsuc n) = false

abbrev pub is_tailnet : Config → Bool
is_tailnet c = text_eq c.network.mode (codes "tailnet")

-- The conditions of `Validate` that refuse, in their order, up to the tailnet's own.
abbrev pub network_refusals : Config → List Bool
network_refusals c =
    (empty_text c.server.listen || empty_text c.data_dir)
    ∷ not (one_of c.network.mode (codes "tailnet" ∷ codes "pocket" ∷ []))
    ∷ (is_tailnet c && not (one_of c.network.transport ([] ∷ codes "tailnet" ∷ [])))
    ∷ (text_eq c.network.mode (codes "pocket")
        && not (one_of c.network.transport ([] ∷ codes "pocketUSB" ∷ codes "pocketWiFi" ∷ [])))
    ∷ c.network.public_fallback
    ∷ []

-- A host name of the tailnet, trimmed.
abbrev pub is_bad_hostname : Text → Bool
is_bad_hostname hostname =
    not (empty_text hostname)
    && (contains hostname (codes "://") || not (has_suffix (to_lower hostname) (codes ".ts.net")))

abbrev pub tailnet_refusals : Net → Config → List Bool
tailnet_refusals net c =
    (is_tailnet c && not (is_loopback_address net c.server.listen))
    ∷ (is_tailnet c && not (empty_text (trim_space c.server.public_base_url)))
    ∷ (is_tailnet c && is_bad_hostname (trim_space c.network.tailnet_hostname))
    ∷ []

abbrev pub voice_refusals : Config → List Bool
voice_refusals c =
    let v = c.voice in
    not (int_eq c.modem.baud 9600 || int_eq c.modem.baud 115200)
    ∷ (v.enabled && (not (text_eq v.codec (codes "pcmu")) || not (int_eq v.sample_rate 8000)))
    ∷ not (one_of v.backend (codes "auto" ∷ codes "raw-pcm" ∷ codes "alsa" ∷ codes "qdc507" ∷ []))
    ∷ (v.enabled
        && one_of v.backend (codes "raw-pcm" ∷ codes "alsa" ∷ [])
        && (empty_text v.rx_path || empty_text v.tx_path))
    ∷ (v.enabled
        && text_eq v.backend (codes "qdc507")
        && (empty_text v.rx_path || empty_text v.tx_path || empty_text v.runtime_dir))
    ∷ []

abbrev pub media_refusals : Config → List Bool
media_refusals c =
    let w = c.webrtc in
    let turn = w.private_turn in
    is_negative c.recording.retention_days
    ∷ is_negative c.recording.minimum_free_bytes
    ∷ not (
        one_of c.recording.auto_mode
          (codes "off" ∷ codes "all" ∷ codes "incoming" ∷ codes "outgoing" ∷ []))
    ∷ not (text_eq w.remote_ice_policy (codes "relay"))
    ∷ not (one_of w.local_ice_policy (codes "all" ∷ codes "relay" ∷ []))
    ∷ not (one_of w.media_network_policy (codes "tailnet-turn" ∷ codes "tailnet-direct" ∷ []))
    ∷ (turn.enabled && (empty_text (trim_space turn.host) || not (is_port turn.port)))
    ∷ (turn.enabled && is_tailnet c && contains turn.host (codes "://"))
    ∷ not c.security.pairing_local_only
    ∷ []

-- The number of the first condition that holds, from `n` on.
unfoldable pub first_refusal : ℕ → List Bool → Option ℕ
first_refusal n [] = none
first_refusal n (refused ∷ refusals) =
    let rest = first_refusal (n + 1) refusals in if refused then some n else rest

-- `Validate`: the number of the error that it returns, or `none`.
unfoldable pub validate : Net → Config → Option ℕ
unfolding first_refusal has_suffix contains text_eq trim_space is_loopback_address
validate net c =
    first_refusal 0
      (network_refusals c ++ tailnet_refusals net c ++ voice_refusals c ++ media_refusals c)
