-- ===== src/Eventbus/Tests.antt =====
-- A slow subscriber, and the theorem at a concrete run.
use cell_bridge.Eventbus.Laws.{Notice, publish_all, events_of, find-publish_all}
use cell_bridge.Eventbus.{Bus, subscribe, new_bus, channel_size, Event}
use cell_bridge.Base.{ℕ, some, ◌≡◌, ◌∷◌, codes, [], ◌+◌, refl, ◌++◌, take, ◌-◌, length}
use cell_bridge.Dict.{nat_key, find}

abbrev notice : ℕ → Notice
notice n = record {
  id = some (codes "evt");
  seq = n;
  event_type = codes "call.updated";
  now = 100 + n;
  data_text = [];
}

abbrev subscribed : Bus
subscribed = (subscribe new_bus).0

channel_empty : find 1 subscribed.subscribers ≡ some []
unfolding subscribe new_bus find
channel_empty = refl

find-publish_all_example :
    find 1 (publish_all (notice 1 ∷ notice 2 ∷ []) subscribed).subscribers
    ≡ some
        ([] ++ take (channel_size - length {A = Event} []) (events_of (notice 1 ∷ notice 2 ∷ [])))
find-publish_all_example = find-publish_all 1 (notice 1 ∷ notice 2 ∷ []) subscribed [] channel_empty
