-- ===== src/Eventbus.antt =====
-- gateway/internal/eventbus/bus.go: events for the subscribers of the gateway. `id.New` may fail, so
-- its result is an argument of `publish`. A channel is the list of the events that wait in it.
pub mod Laws
mod Tests
use cell_bridge.Dict.{Map, assign, delete, nat_key}
use cell_bridge.Base.{
  ◌∷◌, Text, [], ℕ, List, Option, if◌then◌else◌, some, ◌+◌, ltb, none, length, ◌++◌,
}

pub record Event : Type 0 where
  pub id : Text
  pub seq : ℕ
  pub event_type : Text
  pub created_at : ℕ
  pub data_text : Text

pub record Bus : Type 0 where
  pub subscribers : Map ℕ (List Event)
  pub next_id : ℕ

-- `New`.
unfoldable pub new_bus : Bus
new_bus = record { subscribers = []; next_id = 0 }

-- The capacity of a channel.
abbrev pub channel_size : ℕ
channel_size = 32

-- The send that does not wait.
abbrev pub send : Event → List Event → List Event
send event waiting = if ltb (length waiting) channel_size then waiting ++ event ∷ [] else waiting

-- The loop over the subscribers.
unfoldable pub send_all : Event → Map ℕ (List Event) → Map ℕ (List Event)
send_all event [] = []
send_all event ((key, waiting) ∷ subscribers) =
    (key, send event waiting) ∷ send_all event subscribers

-- `Publish`.
unfoldable pub publish : Option Text → ℕ → Text → ℕ → Text → Bus → Bus
unfolding send_all
publish none seq event_type now data_text b = b
publish (some event_id) seq event_type now data_text b = record b {
  subscribers =
      send_all
        (record {
          id = event_id;
          seq = seq;
          event_type = event_type;
          created_at = now;
          data_text = data_text;
        })
        b.subscribers;
}

-- `Subscribe`: the key stands for the channel and its cancel function.
unfoldable pub subscribe : Bus → Bus × ℕ
unfolding assign
subscribe b = (
  record { subscribers = assign (b.next_id + 1) [] b.subscribers; next_id = b.next_id + 1 },
  b.next_id + 1,
)

-- The cancel function; run again it finds nothing to delete.
unfoldable pub cancel : ℕ → Bus → Bus
unfolding delete
cancel key b = record b { subscribers = delete key b.subscribers }
