-- ===== src/Modem/Tests.antt =====
-- An incoming call that ends while it is hung up.
use cell_bridge.Modem.Laws.{ended_any_order, end_of}
use cell_bridge.Base.{codes, ◌≡◌, [], text_apart, text_eq, refl, none}
use cell_bridge.Modem.{ModemEvent}
use cell_bridge.Modem.ActiveCall.{ActiveCall, forward, hung_up, dialed, set_logical, with_active}

abbrev talking : ActiveCall
talking = record {
  active = codes "m1";
  logical = codes "c1";
  last_physical = [];
  last_logical = [];
}

abbrev late : ModemEvent
late = end_of (codes "m1") (codes "NO CARRIER")

ended_any_order_example :
    ((forward late talking).1.call_id ≡ codes "c1")
    × ((forward late talking).0.active ≡ [])
    × ((forward late talking).0.logical ≡ [])
    × (with_active (forward late talking).0 ≡ none)
    × ((forward late (hung_up talking)).1.call_id ≡ codes "c1")
    × ((forward late (hung_up talking)).0.active ≡ [])
    × ((forward late (dialed (codes "m2") (set_logical (codes "c2") (hung_up talking)))).1 ≡ late)
    × ((forward late (dialed (codes "m2") (set_logical (codes "c2") (hung_up talking)))).0.active
        ≡ codes "m2")
    × ((forward late (dialed (codes "m2") (set_logical (codes "c2") (hung_up talking)))).0.logical
        ≡ codes "c2")
ended_any_order_example =
    ended_any_order (codes "NO CARRIER") (codes "m2") (codes "c2") talking
      (text_apart (codes "m1") [] (unfold text_eq in refl))
      (text_apart (codes "c1") [] (unfold text_eq in refl))
      (text_apart (codes "m1") [] (unfold text_eq in refl))
      (text_apart (codes "m2") [] (unfold text_eq in refl))
      (text_apart (codes "m2") (codes "m1") (unfold text_eq in refl))
