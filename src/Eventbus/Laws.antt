-- ===== src/Eventbus/Laws.antt =====
-- What a subscriber finds in its channel.
use mathlib.Core.List.{append_assoc, append-nil}
use cell_bridge.Eventbus.{Event, Bus, send_all, send, publish, channel_size}
use cell_bridge.Base.{
  Option, List, ℕ, Text, ◌∷◌, some, [], ◌++◌, ◌≡◌, none, Bool-cases, take, ◌==◌, inl, ◌-◌, ap,
  length, inr, ltb, ◌∙◌, suc, sym, arith, length-append, refl, zero, Option-cases,
}
use cell_bridge.Dict.{nat_key, find, Map}

-- What the callers publish, with the id of each.
pub record Notice : Type 0 where
  pub id : Option Text
  pub seq : ℕ
  pub event_type : Text
  pub now : ℕ
  pub data_text : Text

unfoldable pub publish_all : List Notice → Bus → Bus
publish_all [] b = b
publish_all (n ∷ notices) b =
    publish_all notices (publish n.id n.seq n.event_type n.now n.data_text b)

-- The events of the notices that get an id.
pub events_with : Option Text → Notice → List Event → List Event
events_with none n rest = rest
events_with (some event_id) n rest =
    record {
      id = event_id;
      seq = n.seq;
      event_type = n.event_type;
      created_at = n.now;
      data_text = n.data_text;
    }
    ∷ rest

unfoldable pub events_of : List Notice → List Event
unfolding events_with
events_of [] = []
events_of (n ∷ notices) = events_with n.id n (events_of notices)

find-send_all :
    (key : ℕ) (event : Event) (subscribers : Map ℕ (List Event)) (waiting : List Event)
    → find key subscribers ≡ some waiting
    → find key (send_all event subscribers) ≡ some (send event waiting)
unfolding find send_all
find-send_all key event [] waiting h = absurd (cc h)
find-send_all key event ((k, w) ∷ subscribers) waiting h = elim (Bool-cases (k == key)) [
  | inl p ↦ rw p (ap (λ o. some (send event (from_some o))) (rw p at h))
  | inr p ↦ rw p (find-send_all key event subscribers waiting (rw p at h))
]
  where
    from_some : Option (List Event) → List Event
    from_some none = []
    from_some (some w) = w

take_nil : (n : ℕ) → ◌≡◌ {A = List Event} (take n []) []
take_nil zero = refl
take_nil (suc n) = refl

send-take :
    (event : Event) (waiting events : List Event)
    → send event waiting ++ take (channel_size - length (send event waiting)) events
      ≡ waiting ++ take (channel_size - length waiting) (event ∷ events)
send-take event waiting events = elim (Bool-cases (ltb (length waiting) channel_size)) [
  | inl p ↦
      let room : channel_size - length waiting
          ≡ suc (channel_size - length (waiting ++ event ∷ [])) =
        ground (arith, length-append waiting (event ∷ [])) in
      rw p (rw room (append_assoc waiting (event ∷ []) _))
  | inr p ↦ let full : channel_size - length waiting ≡ 0 = ground arith in rw p (rw full refl)
]

-- A subscriber that reads nothing while notices are published finds behind the events that waited
-- already the first of the new events, in their order and without a gap, up to the capacity of its
-- channel; notices without an id leave no trace, and a full channel loses only the newest.
pub find-publish_all :
    (key : ℕ) (notices : List Notice) (b : Bus) (waiting : List Event)
    → find key b.subscribers ≡ some waiting
    → find key (publish_all notices b).subscribers
      ≡ some (waiting ++ take (channel_size - length waiting) (events_of notices))
unfolding publish_all events_of publish events_with
find-publish_all key [] b waiting h =
    h
    ∙ ap some (
        sym
          (ap (λ t. waiting ++ t) (take_nil (channel_size - length waiting)) ∙ append-nil waiting))
find-publish_all key (n ∷ notices) b waiting h = elim (Option-cases n.id) [
  | inl e ↦ rw e (find-publish_all key notices b waiting h)
  | inr (i, e) ↦
      let event : Event = record {
        id = i;
        seq = n.seq;
        event_type = n.event_type;
        created_at = n.now;
        data_text = n.data_text;
      } in
      rw e (
        find-publish_all key notices (publish (some i) n.seq n.event_type n.now n.data_text b)
          (send event waiting) (find-send_all key event b.subscribers waiting h)
        ∙ ap some (send-take event waiting (events_of notices)))
]
