-- ===== src/Db/Sync.antt =====
-- Clients catch up: `Sync` page by page.
use cell_bridge.Db.{Change}
use cell_bridge.Db.Log.{changes_after, sync, last_seq}
use cell_bridge.Base.{
  none, some, ℕ, List, ◌∷◌, ◌≡◌, [], ◌+◌, drop, suc, length, ◌-◌, ◌++◌, drop_nil, arith, Bool-cases,
  ap, ltb, ◌∙◌, inl, inr, refl, zero, take, ◌≤◌, ◌*◌, sym, drop-drop, take-take,
}

-- The changes of a log have their places for numbers, counted from `start`.
abbrev pub Numbered : ℕ → List Change → Type 0
Numbered start [] = Unit
Numbered start (change ∷ log) = (change.seq ≡ start + 1) × Numbered (start + 1) log

pub append_sync_log-Numbered :
    (start : ℕ) (log : List Change) (change : Change)
    → Numbered start log
    → change.seq ≡ start + length log + 1
    → Numbered start (log ++ change ∷ [])
append_sync_log-Numbered start [] change h e = (omega (arith, e), tt)
append_sync_log-Numbered start (first ∷ log) change (e', h) e =
    (e', append_sync_log-Numbered (start + 1) log change h (omega (arith, e)))

changes_after-drop :
    (start after : ℕ) (log : List Change)
    → Numbered start log
    → changes_after after log ≡ drop (after - start) log
unfolding changes_after
changes_after-drop start after [] h = drop_nil 0 (after - start)
changes_after-drop start after (change ∷ log) (e, h) =
    let rest = changes_after-drop (start + 1) after log h in
    elim (Bool-cases (ltb after change.seq)) [
      | inl p ↦
          let all : after - start ≡ 0 = ground (arith, e) in
          let all' : after - (start + 1) ≡ 0 = omega (arith, all) in rw (p, all, rest, all') refl
      | inr p ↦
          let one : after - start ≡ suc (after - (start + 1)) = ground (arith, e) in
          rw (p, one, rest) refl
    ]

last_seq-length :
    (start : ℕ) (log : List Change) → Numbered start log → last_seq start log ≡ start + length log
last_seq-length start [] h = omega arith
last_seq-length start (change ∷ log) (e, h) =
    ap (λ k. last_seq k log) e ∙ last_seq-length (start + 1) log h ∙ omega arith

-- A client that reads page behind page.
unfoldable pub read_pages : ℕ → ℕ → ℕ → List Change → List Change
unfolding sync
read_pages zero limit after log = []
read_pages (suc n) limit after log = elim (sync after limit log) [
  | none ↦ []
  | some page ↦ page ++ read_pages n limit (last_seq after page) log
]

drop-Numbered :
    (start n k : ℕ) (log : List Change)
    → start + n ≡ k
    → Numbered start log
    → Numbered k (drop n log)
drop-Numbered start zero k log e h = let same : k ≡ start = omega (arith, e) in rw same h
drop-Numbered start (suc n) k [] e h = tt
drop-Numbered start (suc n) k (change ∷ log) e (f, h) =
    drop-Numbered (start + 1) n k log (omega (arith, e)) h

take-Numbered : (start n : ℕ) (log : List Change) → Numbered start log → Numbered start (take n log)
take-Numbered start zero log h = tt
take-Numbered start (suc n) [] h = tt
take-Numbered start (suc n) (change ∷ log) (e, h) = (e, take-Numbered (start + 1) n log h)

sync-Numbered :
    (after limit : ℕ) (log : List Change)
    → Numbered 0 log
    → 1 ≤ limit
    → limit ≤ 500
    → sync after limit log ≡ some (take limit (drop after log))
unfolding sync
sync-Numbered after limit log h p q = ground (arith, changes_after-drop 0 after log h)

-- Reading page behind page, each from the last number of the page in front, with a limit between 1
-- and 500, gives the changes behind the first number in their order, none left out and none twice: as
-- many as the pages have room for.
pub read_pages-take :
    (n limit after : ℕ) (log : List Change)
    → Numbered 0 log
    → 1 ≤ limit
    → limit ≤ 500
    → read_pages n limit after log ≡ take (n * limit) (drop after log)
unfolding read_pages
read_pages-take zero limit after log h p q =
    let nothing : 0 * limit ≡ 0 = omega arith in rw nothing refl
read_pages-take (suc n) limit after log h p q =
    let page = take limit (drop after log) in
    let numbered =
      take-Numbered after limit (drop after log)
        (drop-Numbered 0 after after log (omega arith) h) in
    let next : last_seq after page ≡ after + length page = last_seq-length after page numbered in
    rw (sync-Numbered after limit log h p q, read_pages)
      (ap (λ t. page ++ t)
          (read_pages-take n limit (last_seq after page) log h p q
            ∙ ap (λ k. take (n * limit) (drop k log)) next
            ∙ ap (take (n * limit)) (sym (drop-drop (length page) after log)))
        ∙ take-take limit (n * limit) (drop after log)
        ∙ ap (λ k. take k (drop after log)) (omega arith))
