-- ===== src/Config/Tests.antt =====
-- A gateway in a tailnet.
use cell_bridge.Config.Laws.{IsTailnetOnly, validate-Private}
use cell_bridge.Strings.{cut_at}
use cell_bridge.Config.{Net, Config, validate, default_config}
use mathlib.Core.Option
use cell_bridge.Base.{
  none, some, ◌≡◌, false, codes, refl, true, [], ◌⊎◌, Text, if◌then◌else◌, text_eq, ◌∷◌, get_or,
  ◌==◌, has_prefix,
}

-- Host and port in front of and behind the only `:`, and two addresses.
abbrev small_net : Net
small_net = record {
  split_host_port = λ s. Option.map (λ (p : Text × Text). p.0) (cut_at b':' s);
  parse_ip = λ host.
      if text_eq host (codes "127.0.0.1")
      then some (127 ∷ 0 ∷ 0 ∷ 1 ∷ [])
      else if text_eq host (codes "0.0.0.0")
      then some (0 ∷ 0 ∷ 0 ∷ 0 ∷ [])
      else none;
  is_loopback = λ ip. get_or ip 0 0 == 127;
}

abbrev home : Config
home = record default_config {
  network = record {
    mode = codes "tailnet";
    transport = codes "tailnet";
    tailnet_hostname = codes " Cell.Home.TS.net ";
    public_fallback = false;
  };
}

-- A listener on every address is refused.
open_home_refused :
    validate small_net
      (record home { server = record { listen = codes "0.0.0.0:8787"; public_base_url = [] } })
    ≡ some 5
unfolding validate cut_at
open_home_refused = refl

home_accepted : validate small_net home ≡ none
unfolding validate cut_at has_prefix
home_accepted = refl

validate-Private_example :
    (home.network.public_fallback ≡ false)
    × (home.security.pairing_local_only ≡ true)
    × (home.webrtc.remote_ice_policy ≡ codes "relay")
    × ((home.network.mode ≡ codes "pocket") ⊎ IsTailnetOnly small_net home)
validate-Private_example = validate-Private small_net home home_accepted
