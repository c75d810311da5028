-- ===== src/At/Status/Laws.antt =====
-- What the answers of a modem are read as.
use cell_bridge.Strings.{to_lower, contains-append, cut_at-append, cut_at}
use cell_bridge.Ints.{
  itoa, IsDigit, itoa-cons, digit_no_space, itoa-All, max_int, pos, sub_nat, atoi-itoa,
}
use cell_bridge.Base.{
  ℕ, Text, ◌<◌, trim_space, ◌⊎◌, All, ◌≡◌, ◌++◌, codes, ◌==◌, ◌∷◌, true, false, is_space, arith, [],
  trim_space_no_space, trim_space_mark, refl, ◌≤◌, ◌^◌, trim_space_space, if◌then◌else◌, ◌||◌, leb,
  ◌*◌, inl,
}
use cell_bridge.At.Status.{normalize_sim, contains, ready, rssi_field, parse_rssi, signal_bars}

-- A modem that answers "NOT READY", in whatever case and with whatever around it, is reported as
-- ready: the test for "ready" comes first, so `absent` is never the answer to it.
pub normalize_sim_not_ready :
    (value : Text)
    → contains (to_lower value) (codes "not ready") ≡ true
    → normalize_sim value ≡ ready
unfolding normalize_sim
normalize_sim_not_ready value h =
    rw (contains-append (to_lower value) (codes "not ") (codes "ready") h) refl

-- The digits of a number are neither separators nor space.
pub itoa-no : (c n : ℕ) → (c < b'0') ⊎ (b'9' < c) → All (λ x. (x == c) ≡ false) (itoa n)
itoa-no c n h = not_among (itoa n) (itoa-All n)
  where
    not_among : (s : Text) → All IsDigit s → All (λ x. (x == c) ≡ false) s
    not_among [] d = tt
    not_among (x ∷ s) d = (ground arith, not_among s d.1)

pub trim_space-itoa : (n : ℕ) → trim_space (itoa n) ≡ itoa n
trim_space-itoa n = trim_space_no_space (itoa n) (printing (itoa n) (itoa-All n))
  where
    printing : (s : Text) → All IsDigit s → All (λ x. is_space x ≡ false) s
    printing [] d = tt
    printing (x ∷ s) d = (digit_no_space x d.0, printing s d.1)

-- A number and a comma in front, trimmed.
pub trim_space-itoa_comma :
    (n : ℕ) (rest : Text) → (t : Text) × (trim_space (itoa n ++ b',' ∷ rest) ≡ itoa n ++ b',' ∷ t)
trim_space-itoa_comma n rest =
    let (c, s, e) = itoa-cons n in
    let digits : All IsDigit (c ∷ s) = rw e at (itoa-All n) in
    let (t, eq) =
      trim_space_mark c s b',' rest (digit_no_space c digits.0) (unfold is_space in refl) in
    (t, rw e eq)

abbrev csq : ℕ → Text → Text
csq n rest = codes "+CSQ: " ++ (itoa n ++ b',' ∷ rest)

rssi_field-csq : (u : Text) → rssi_field (codes "+CSQ: " ++ u) ≡ trim_space u
unfolding rssi_field cut_at
rssi_field-csq u = trim_space_space u

trim_space-csq : (n : ℕ) (rest : Text) → (t : Text) × (trim_space (csq n rest) ≡ csq n t)
trim_space-csq n rest =
    let (t, e) =
      trim_space_mark b'+' (codes "CSQ: " ++ itoa n) b',' rest (unfold is_space in refl)
        (unfold is_space in refl) in
    (t, e)

parse_rssi-csq :
    (n : ℕ) (rest : Text)
    → n ≤ max_int
    → parse_rssi (csq n rest) ≡ (if n == 99 then pos 0 else sub_nat (n * 2) 113)
unfolding parse_rssi
parse_rssi-csq n rest m =
    let (t, e) = trim_space-csq n rest in
    let (u, f) = trim_space-itoa_comma n t in
    rw e (
      rw (rssi_field-csq (itoa n ++ b',' ∷ t)) (
        rw f (
          rw (cut_at-append b',' (itoa n) u (itoa-no b',' n (inl (omega arith))))
            (rw (trim_space-itoa n) (rw (atoi-itoa n m) refl)))))

-- The bars shown for an answer `+CSQ: n,...` to `AT+CSQ`: four from 19 on, three from 12, two from 4,
-- one from 1, none for 0; and four for 99, which is the modem's word for "not known".
pub signal_bars-parse_rssi :
    (n : ℕ) (rest : Text)
    → n < 2 ^ 62
    → signal_bars (parse_rssi (codes "+CSQ: " ++ (itoa n ++ b',' ∷ rest))) ≡ (
        if n == 99 || leb 19 n
        then 4
        else if leb 12 n
        then 3
        else if leb 4 n
        then 2
        else if leb 1 n
        then 1
        else 0)
unfolding signal_bars
signal_bars-parse_rssi n rest h = rw (parse_rssi-csq n rest (omega arith)) (ground arith)
