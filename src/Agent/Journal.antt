-- ===== src/Agent/Journal.antt =====
-- module-agent/internal/events/journal.go: a bounded journal of numbered events. A method runs under
-- the mutex. The numbers of events do not reach the limit of `int64`; `limit` is positive after
-- `NewJournal`.
-- Payloads are texts, and a listener is a channel of capacity 16 with the events that wait in it.
pub mod Laws
use cell_bridge.Ints.{ℤ, pos, negsuc}
use cell_bridge.Base.{
  ℕ, List, Text, ◌++◌, [], if◌then◌else◌, ◌+◌, ◌∷◌, Bool, ltb, map, true, length, ◌-◌, drop, false,
}

pub record Event : Type 0 where
  pub seq : ℕ
  pub kind : Text
  pub time : ℕ
  pub payload : Text

pub record Journal : Type 0 where
  pub seq : ℕ
  pub entries : List Event
  pub limit : ℕ
  pub listeners : List (List Event)

-- `NewJournal`.
unfoldable pub new_journal : ℕ → Journal
new_journal limit = record {
  seq = 0;
  entries = [];
  limit = if ltb limit 1 then 128 else limit;
  listeners = [];
}

-- The send that does not wait: a full channel misses the event.
abbrev pub offer : Event → List Event → List Event
offer event waiting = if ltb (length waiting) 16 then waiting ++ event ∷ [] else waiting

-- `j.entries[len(j.entries)-j.limit:]` once there are more than the limit.
abbrev pub trim : ℕ → List Event → List Event
trim limit entries =
    if ltb limit (length entries) then drop (length entries - limit) entries else entries

-- `Append`.
unfoldable pub append : Text → Text → ℕ → Journal → Journal × Event
append kind payload unix j =
    let event : Event = record { seq = j.seq + 1; kind = kind; time = unix; payload = payload } in
    (
      record {
        seq = j.seq + 1;
        entries = trim j.limit (j.entries ++ event ∷ []);
        limit = j.limit;
        listeners = map (offer event) j.listeners;
      },
      event,
    )

-- The events behind a number.
unfoldable pub after : ℕ → List Event → List Event
after seq [] = []
after seq (event ∷ events) =
    let rest = after seq events in if ltb seq event.seq then event ∷ rest else rest

pub since_from : ℕ → List Event → List Event × Bool
unfolding after
since_from seq [] = ([], true)
since_from seq (event ∷ events) =
    if ltb seq (event.seq - 1) then ([], false) else (after seq (event ∷ events), true)

-- A negative number stands below every `entries[0].Seq - 1`.
pub since_negative : List Event → List Event × Bool
since_negative [] = ([], true)
since_negative (event ∷ events) = ([], false)

-- `Since`: the events behind `seq`, and whether none of them is lost. The number comes from a header
-- of a client and may be negative; that of the first event is 1 at least, so that the subtraction
-- in `since_from` is exact.
unfoldable pub since : ℤ → Journal → List Event × Bool
unfolding since_from since_negative
since (pos seq) j = since_from seq j.entries
since (negsuc n) j = since_negative j.entries

-- `Subscribe`.
unfoldable pub subscribe : Journal → Journal
subscribe j = record j { listeners = j.listeners ++ [] ∷ [] }
