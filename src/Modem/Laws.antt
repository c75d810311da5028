-- ===== src/Modem/Laws.antt =====
-- Hang-ups and the modem's own events, in either order.
use cell_bridge.Modem.{ModemEvent, ended, is_empty_id}
use cell_bridge.Base.{
  Text, ◌≢◌, [], ◌≡◌, text_eq, sym, false, text_eq_refl, ◌∷◌, arith, refl, text_eq_iff, none,
}
use cell_bridge.Modem.ActiveCall.{dialed, hung_up, forward, set_logical, ActiveCall, with_active}

abbrev pub end_of : Text → Text → ModemEvent
end_of call_id raw = record { kind = ended; call_id = call_id; raw = raw }

not_empty : (s : Text) → s ≢ [] → is_empty_id s ≡ false
not_empty [] h = absurd (h refl)
not_empty (c ∷ s) h = refl

text_ne : (s t : Text) → s ≢ t → text_eq s t ≡ false
text_ne s t h = ground (arith, text_eq_iff s t)

-- Where the end of the active call and its hang-up meet, for a call with a logical id whose own id is
-- not also that of the last one. If the event comes first it is passed on under the logical id and
-- leaves no call active and no logical id, so that a hang-up behind it is refused. If the hang-up
-- comes first the event is still passed on under the logical id, and no call is active behind it. If
-- a new call, with an id of its own, has been dialed before the late event arrives, the event keeps
-- its own id and the new call stays active under its logical id.
pub ended_any_order :
    (raw next next_logical : Text) (a : ActiveCall)
    → a.active ≢ []
    → a.logical ≢ []
    → a.active ≢ a.last_physical
    → next ≢ []
    → next ≢ a.active
    → let event = end_of a.active raw in
      ((forward event a).1.call_id ≡ a.logical)
      × ((forward event a).0.active ≡ [])
      × ((forward event a).0.logical ≡ [])
      × (with_active (forward event a).0 ≡ none)
      × ((forward event (hung_up a)).1.call_id ≡ a.logical)
      × ((forward event (hung_up a)).0.active ≡ [])
      × ((forward event (dialed next (set_logical next_logical (hung_up a)))).1 ≡ event)
      × ((forward event (dialed next (set_logical next_logical (hung_up a)))).0.active ≡ next)
      × ((forward event (dialed next (set_logical next_logical (hung_up a)))).0.logical
          ≡ next_logical)
unfolding forward hung_up dialed set_logical with_active
ended_any_order raw next next_logical a p l fresh n ne =
    let active_id = not_empty a.active p in
    let logical_id = not_empty a.logical l in
    let next_id = not_empty next n in
    let other = text_ne a.active next (λ e. ne (sym e)) in
    let gone = text_ne a.active [] p in
    let old = text_ne a.active a.last_physical fresh in
    let itself = text_eq_refl a.active in
    (
      ground (arith, active_id, logical_id, old, itself),
      ground (arith, active_id, logical_id, old, itself),
      ground (arith, active_id, logical_id, old, itself),
      ground (arith, active_id, logical_id, old, itself),
      ground (arith, active_id, logical_id, itself),
      ground (arith, active_id, logical_id, itself),
      ground (arith, active_id, next_id, other, gone),
      ground (arith, active_id, next_id, other, gone),
      ground (arith, active_id, next_id, other, gone),
    )
