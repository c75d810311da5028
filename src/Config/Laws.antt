-- ===== src/Config/Laws.antt =====
-- What a configuration that is accepted guarantees.
use cell_bridge.Strings.{to_lower}
use cell_bridge.Strings.{contains, to_lower}
use cell_bridge.Base.{
  ℕ, Text, List, Bool, ◌≡◌, none, All, false, ◌∷◌, true, Bool-cases, codes, inl, trim_space, inr,
  [], ◌+◌, refl, ◌++◌, arith, text_eq_iff, All-front, All-back, take, has_prefix, ◌⊎◌, drop, length,
  ==_iff, some, Option-cases, ◌≢◌, suc, ◌-◌, ap, sym, zero, ◌∙◌,
}
use cell_bridge.Config.{
  first_refusal, validate, Config, is_bad_hostname, empty_text, network_refusals, tailnet_refusals,
  voice_refusals, media_refusals, has_suffix, Net, is_loopback_address, is_tailnet,
}

accepted :
    (n : ℕ) (refusals : List Bool)
    → first_refusal n refusals ≡ none
    → All (λ refused. refused ≡ false) refusals
unfolding first_refusal
accepted n [] h = tt
accepted n (refused ∷ refusals) h = elim (Bool-cases refused) [
  | inl p ↦ absurd (cc (rw p at h))
  | inr p ↦ (p, accepted (n + 1) refusals (rw p at h))
]

empty_text-nil : (s : Text) → empty_text s ≡ true → s ≡ []
empty_text-nil [] h = refl
empty_text-nil (c ∷ s) h = absurd (cc h)

take-drop : (n : ℕ) (s : Text) → take n s ++ drop n s ≡ s
take-drop zero s = refl
take-drop (suc n) [] = refl
take-drop (suc n) (c ∷ s) = ap (◌∷◌ c) (take-drop n s)

-- What `strings.HasSuffix` finds.
has_suffix-front :
    (s suffix : Text) → has_suffix s suffix ≡ true → (front : Text) × (s ≡ front ++ suffix)
unfolding has_suffix
has_suffix-front s suffix h =
    let n = length s - length suffix in
    let tail : drop n s ≡ suffix = (text_eq_iff (drop n s) suffix).0 (ground (arith, h)) in
    (take n s, sym (take-drop n s) ∙ ap (λ t. take n s ++ t) tail)

has_prefix_front : (s t : Text) → has_prefix (s ++ t) s ≡ true
unfolding has_prefix
has_prefix_front [] t = refl
has_prefix_front (c ∷ s) t = ground (arith, has_prefix_front s t, ==_iff c c)

contains_here : (s part : Text) → has_prefix s part ≡ true → contains s part ≡ true
unfolding contains
contains_here [] part h = h
contains_here (c ∷ s) part h = ground (arith, h)

-- What `strings.Contains` finds.
contains_inside : (x part y : Text) → contains (x ++ part ++ y) part ≡ true
unfolding contains
contains_inside [] part y = contains_here (part ++ y) part (has_prefix_front part y)
contains_inside (c ∷ x) part y = ground (arith, contains_inside x part y)

-- The listener is bound to a loopback address.
abbrev pub IsLoopbackListener : Net → Text → Type 0
IsLoopbackListener net address =
    (host : Text) × (ip : List ℕ) × (net.split_host_port address ≡ some host)
    × (net.parse_ip host ≡ some ip)
    × (net.is_loopback ip ≡ true)

loopback_listener :
    (net : Net) (address : Text)
    → is_loopback_address net address ≡ true
    → IsLoopbackListener net address
unfolding is_loopback_address
loopback_listener net address h = elim (Option-cases (net.split_host_port address)) [
  | inl e ↦ absurd (ground (arith, e, h))
  | inr (host, e) ↦ elim (Option-cases (net.parse_ip host)) [
    | inl p ↦ absurd (ground (arith, e, p, h))
    | inr (ip, p) ↦ (host, ip, e, p, ground (arith, e, p, h))
  ]
]

-- No host name, or one in `.ts.net`, in any case of its letters, with no `://` in it.
abbrev pub IsTailnetName : Text → Type 0
IsTailnetName hostname =
    (hostname ≡ [])
    ⊎ (((front : Text) × (to_lower hostname ≡ front ++ codes ".ts.net"))
        × ((x y : Text) → hostname ≢ x ++ codes "://" ++ y))

tailnet_name : (hostname : Text) → is_bad_hostname hostname ≡ false → IsTailnetName hostname
tailnet_name [] h = inl refl
tailnet_name (c ∷ s) h = inr (
  has_suffix-front (to_lower (c ∷ s)) (codes ".ts.net") (ground (arith, h)),
  λ x y e. absurd (
      let found = contains_inside x (codes "://") y in
      let there : contains (c ∷ s) (codes "://") ≡ true = rw e found in ground (arith, h, there)),
)

-- What tailnet mode guarantees.
abbrev pub IsTailnetOnly : Net → Config → Type 0
IsTailnetOnly net c =
    (c.network.mode ≡ codes "tailnet")
    × IsLoopbackListener net c.server.listen
    × (trim_space c.server.public_base_url ≡ [])
    × IsTailnetName (trim_space c.network.tailnet_hostname)

-- A configuration that is accepted keeps the gateway private: there is no public fallback, pairing is
-- local and media is relayed; and the mode is pocket, or it is tailnet, the server listens on a host
-- that is a loopback address, there is no public URL, and the host name of the tailnet, spaces around
-- it left aside, is empty or ends in .ts.net, whatever the case of its letters, with no :// in it.
pub validate-Private :
    (net : Net) (c : Config)
    → validate net c ≡ none
    → (c.network.public_fallback ≡ false)
      × (c.security.pairing_local_only ≡ true)
      × (c.webrtc.remote_ice_policy ≡ codes "relay")
      × ((c.network.mode ≡ codes "pocket") ⊎ IsTailnetOnly net c)
unfolding validate
validate-Private net c h =
    let refusals : List Bool =
      network_refusals c ++ tailnet_refusals net c ++ voice_refusals c ++ media_refusals c in
    let no : Bool → Type 0 = λ refused. refused ≡ false in
    let all : All no refusals = accepted 0 refusals h in
    let voice_on = voice_refusals c ++ media_refusals c in
    let front = All-front no (network_refusals c) (tailnet_refusals net c ++ voice_on) all in
    let behind = All-back no (network_refusals c) (tailnet_refusals net c ++ voice_on) all in
    let tail = All-front no (tailnet_refusals net c) voice_on behind in
    let media =
      All-back no (voice_refusals c) (media_refusals c)
        (All-back no (tailnet_refusals net c) voice_on behind) in
    let mode_known = front.1.0 in
    let fallback = front.1.1.1.1.0 in
    let loop = tail.0 in
    let url = tail.1.0 in
    let hostname = tail.1.1.0 in
    let relay = media.1.1.1.0 in
    let pairing = media.1.1.1.1.1.1.1.1.0 in
    (
      fallback,
      ground (arith, pairing),
      (text_eq_iff c.webrtc.remote_ice_policy (codes "relay")).0 (ground (arith, relay)),
      elim (Bool-cases (is_tailnet c)) [
        | inl p ↦ inr (
          (text_eq_iff c.network.mode (codes "tailnet")).0 p,
          loopback_listener net c.server.listen (ground (arith, loop, p)),
          empty_text-nil (trim_space c.server.public_base_url) (ground (arith, url, p)),
          tailnet_name (trim_space c.network.tailnet_hostname) (ground (arith, hostname, p)),
        )
        | inr p ↦
            inl ((text_eq_iff c.network.mode (codes "pocket")).0 (ground (arith, mode_known, p)))
      ],
    )
