-- ===== src/Agent/Journal/Laws.antt =====
-- The journal against the whole history of events.
-- Numbers that follow one another, up to `last`.
use cell_bridge.Ints.{ℤ, pos, negsuc}
use cell_bridge.Agent.Journal.{
  new_journal, Event, Journal, trim, append, after, since_from, since, since_negative,
}
use cell_bridge.Base.{
  ℕ, List, [], ◌∷◌, arith, ◌≡◌, ◌+◌, length, ◌<◌, ◌++◌, drop, ◌-◌, refl, drop_nil, ap, suc,
  Bool-cases, sym, Text, zero, true, ltb, drop_shorter, length-append, inl, ◌∙◌, inr, drop-drop,
  length-drop, if◌then◌else◌, ◌≢◌, false, Bool, List-cases,
}

abbrev pub Numbered : ℕ → List Event → Type 0
Numbered next [] = Unit
Numbered next (event ∷ events) = (event.seq ≡ next) × Numbered (next + 1) events

-- The journal holds the newest events of a history that was numbered from 1 on.
pub record Keeps (history : List Event) (j : Journal) : Type 0 where
  pub numbered : Numbered 1 history
  pub counted : j.seq ≡ length history
  pub positive : 0 < j.limit
  pub newest : j.entries ≡ drop (length history - j.limit) history

pub new_journal-Keeps : (limit : ℕ) → Keeps [] (new_journal limit)
unfolding new_journal
new_journal-Keeps limit = record {
  numbered = tt;
  counted = refl;
  positive = ground arith;
  newest = drop_nil 0 (0 - (new_journal limit).limit);
}

Numbered-append :
    (next : ℕ) (history : List Event) (event : Event)
    → Numbered next history
    → event.seq ≡ next + length history
    → Numbered next (history ++ event ∷ [])
Numbered-append next [] event h e = (omega arith, tt)
Numbered-append next (x ∷ history) event h e =
    (h.0, Numbered-append (next + 1) history event h.1 (omega arith))

trim-drop :
    (limit : ℕ) (entries : List Event) → trim limit entries ≡ drop (length entries - limit) entries
trim-drop limit entries = elim (Bool-cases (ltb limit (length entries))) [
  | inl over ↦ rw over refl
  | inr fits ↦
      let none_over : length entries - limit ≡ 0 = ground arith in rw fits (rw none_over refl)
]

window :
    (limit : ℕ) (history : List Event) (event : Event)
    → let held = drop (length history - limit) history ++ event ∷ [] in
      drop (length held - limit) held
      ≡ drop (length (history ++ event ∷ []) - limit) (history ++ event ∷ [])
window limit history event =
    let k = length history - limit in
    let held = drop k history ++ event ∷ [] in
    ap (drop (length held - limit)) (sym (drop_shorter k history (event ∷ []) (omega arith)))
    ∙ drop-drop (length held - limit) k (history ++ event ∷ [])
    ∙ ap (λ n. drop n (history ++ event ∷ []))
        (omega (
          arith,
          length-append (drop k history) (event ∷ []),
          length-drop k history,
          length-append history (event ∷ []),
        ))

-- `Append` numbers the new event by its place in the history, and the journal holds the newest
-- `limit` events of the history with the new one behind it.
pub append-Keeps :
    (kind payload : Text) (unix : ℕ) (history : List Event) (j : Journal)
    → Keeps history j
    → Keeps (history ++ (append kind payload unix j).1 ∷ []) (append kind payload unix j).0
unfolding append
append-Keeps kind payload unix history j v =
    let event = (append kind payload unix j).1 in
    record {
      numbered = Numbered-append 1 history event v.numbered (omega (arith, v.counted));
      counted = omega (arith, v.counted, length-append history (event ∷ []));
      positive = v.positive;
      newest =
          trim-drop j.limit (j.entries ++ event ∷ [])
          ∙ ap (λ t. drop (length (t ++ event ∷ []) - j.limit) (t ++ event ∷ [])) v.newest
          ∙ window j.limit history event;
    }

-- The history behind a number is a tail of it.
after-drop :
    (seq next : ℕ) (history : List Event)
    → Numbered next history
    → after seq history ≡ drop (seq + 1 - next) history
unfolding after
after-drop seq next [] h = drop_nil 0 (seq + 1 - next)
after-drop seq next (event ∷ history) h = elim (Bool-cases (ltb seq event.seq)) [
  | inl later ↦
      let nothing : seq + 1 - next ≡ 0 = ground arith in
      let next_nothing : seq + 1 - (next + 1) ≡ 0 = ground arith in
      rw later
        (rw nothing (ap (◌∷◌ event) (after-drop seq (next + 1) history h.1 ∙ rw next_nothing refl)))
  | inr earlier ↦
      let more : seq + 1 - next ≡ suc (seq + 1 - (next + 1)) = ground arith in
      rw earlier (rw more (after-drop seq (next + 1) history h.1))
]

Numbered-drop :
    (n next : ℕ) (history : List Event)
    → Numbered next history
    → Numbered (next + n) (drop n history)
Numbered-drop zero next history h = let same : next + 0 ≡ next = omega arith in rw same h
Numbered-drop (suc n) next [] h = tt
Numbered-drop (suc n) next (event ∷ history) h =
    let same : next + suc n ≡ next + 1 + n = omega arith in
    rw same (Numbered-drop n (next + 1) history h.1)

since-Numbered :
    (seq k : ℕ) (entries : List Event)
    → Numbered (k + 1) entries
    → (entries ≡ [] → k ≡ 0)
    → since_from seq entries
      ≡ (if ltb seq k then ([], false) else (drop (seq + 1 - (k + 1)) entries, true))
unfolding since_from
since-Numbered seq k [] h e =
    let first : ltb seq k ≡ false = ground (arith, e refl) in
    rw first (ap (λ (t : List Event). (t, true)) (drop_nil 0 (seq + 1 - (k + 1))))
since-Numbered seq k (event ∷ entries) h e =
    let number : event.seq - 1 ≡ k = omega arith in
    rw number (
      ap (λ t. if ltb seq k then ([], false) else (t, true))
        (after-drop seq (k + 1) (event ∷ entries) h))

drop_empty : (k : ℕ) (history : List Event) → k < length history → drop k history ≢ []
drop_empty k [] h e = absurd (omega arith)
drop_empty zero (x ∷ history) h e = cc e
drop_empty (suc k) (x ∷ history) h e = drop_empty k history (omega arith) e

-- The two ways to write what is found.
found_tail :
    (b : Bool) (seq k : ℕ) (history : List Event)
    → ltb seq k ≡ b
    → ◌≡◌ {A = List Event × Bool}
        (if b then ([], false) else (drop (seq + 1 - (k + 1)) (drop k history), true))
        (if b then ([], false) else (drop seq history, true))
found_tail true seq k history e = refl
found_tail false seq k history e =
    let sum : k + (seq + 1 - (k + 1)) ≡ seq = ground arith in
    ap (λ (t : List Event). (t, true))
      (drop-drop (seq + 1 - (k + 1)) k history ∙ ap (λ n. drop n history) sum)

from_history :
    (seq : ℕ) (history : List Event) (j : Journal)
    → Keeps history j
    → since_from seq j.entries
      ≡ (if ltb seq (length history - j.limit) then ([], false) else (drop seq history, true))
from_history seq history j v =
    let k = length history - j.limit in
    let held : Numbered (k + 1) (drop k history) =
      (let same : 1 + k ≡ k + 1 = omega arith in
        rw same at (Numbered-drop k 1 history v.numbered)) in
    rw v.newest (
      since-Numbered seq k (drop k history) held (λ e. no_loss history j v e)
      ∙ found_tail (ltb seq k) seq k history refl)
  where
    no_loss :
        (history : List Event) (j : Journal)
        → Keeps history j
        → drop (length history - j.limit) history ≡ []
        → length history - j.limit ≡ 0
    no_loss [] j v e = omega arith
    no_loss (x ∷ history) j v e =
        absurd
          (drop_empty (length (x ∷ history) - j.limit) (x ∷ history) (omega (arith, v.positive)) e)

-- What a client that knows the events up to `seq` is told, when `dropped` events are gone.
abbrev pub told : ℤ → ℕ → List Event → List Event × Bool
told (pos seq) dropped history = if ltb seq dropped then ([], false) else (drop seq history, true)
told (negsuc n) dropped [] = ([], true)
told (negsuc n) dropped (event ∷ history) = ([], false)

-- `Since` against the whole history, in a journal that holds its newest events: for a number that is
-- not negative, if an event with a greater number has been dropped it returns nothing and says so,
-- and else it returns exactly the events of the history behind that number; for a negative number
-- it returns nothing, and says that events are lost as soon as there has been any, dropped or not.
pub since_history :
    (seq : ℤ) (history : List Event) (j : Journal)
    → Keeps history j
    → since seq j ≡ told seq (length history - j.limit) history
unfolding since since_negative
since_history (pos seq) history j v = from_history seq history j v
since_history (negsuc n) [] j v =
    let empty : j.entries ≡ [] = v.newest ∙ drop_nil (0 - j.limit) 0 in rw empty refl
since_history (negsuc n) (event ∷ history) j v = elim (List-cases j.entries) [
  | inl e ↦ absurd (
      drop_empty (length (event ∷ history) - j.limit) (event ∷ history) (omega (arith, v.positive))
        (sym v.newest ∙ e))
  | inr (first, rest, e) ↦ rw e refl
]
