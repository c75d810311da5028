-- ===== src/At.antt =====
-- gateway/internal/modem/at/parser.go: AT lines and command exchanges. A line is the list of its
-- bytes; modem lines are ASCII, where bytes and runes agree.
pub mod Lines
mod Tests
pub mod Status
pub mod Inbox
pub mod Submission
use cell_bridge.Strings.{lower_char, contains}
use cell_bridge.Base.{
  ℕ, Text, List, [], Bool, Option, ◌∷◌, trim_space, suc, length, text_eq, has_prefix, if◌then◌else◌,
  ◌++◌, some, false, none, ◌==◌, codes, ◌||◌, map, ◌&&◌, zero,
}
use mathlib.Core.Option

abbrev pub newline : ℕ
newline = 10

-- `bytes.IndexByte(p.buffer, '\n')` with the cut that follows: the bytes in front, and behind.
unfoldable pub cut : Text → Option (Text × Text)
cut [] = none
cut (c ∷ buffer) =
    let rest = Option.map (λ (p : Text × Text). (c ∷ p.0, p.1)) (cut buffer) in
    if c == newline then some ([], buffer) else rest

-- `strings.TrimSuffix(line, "\r")`.
unfoldable pub trim_return : Text → Text
trim_return [] = []
trim_return (c ∷ []) = if c == 13 then [] else c ∷ []
trim_return (c ∷ d ∷ s) = c ∷ trim_return (d ∷ s)

-- A line that is not blank is appended.
abbrev pub keep_line : Text → List Text
keep_line [] = []
keep_line (c ∷ s) = (c ∷ s) ∷ []

abbrev pub clean : Text → List Text
clean line = keep_line (trim_space (trim_return line))

-- The loop of `Feed`, on fuel: a round takes a byte of the buffer at least.
unfoldable pub feed_loop : ℕ → Text → List Text × Text
feed_loop zero buffer = ([], buffer)
feed_loop (suc fuel) buffer = elim (cut buffer) [
  | none ↦ ([], buffer)
  | some (line, rest) ↦ (clean line ++ (feed_loop fuel rest).0, (feed_loop fuel rest).1)
]

-- `Feed`: the lines, and the buffer that is left.
unfoldable pub feed : Text → Text → List Text × Text
unfolding feed_loop cut
feed buffer chunk = feed_loop (length (buffer ++ chunk)) (buffer ++ chunk)

-- `IsFinal`.
unfoldable pub is_final : Text → Bool
is_final line =
    text_eq line (codes "OK")
    || text_eq line (codes "ERROR")
    || has_prefix line (codes "+CME ERROR")
    || has_prefix line (codes "+CMS ERROR")

-- `isUnsolicited`.
unfoldable pub is_unsolicited : Text → Bool
is_unsolicited line =
    let trimmed = trim_space line in
    text_eq trimmed (codes "RING")
    || contains trimmed (codes "NO CARRIER")
    || contains trimmed (codes "BUSY")
    || contains trimmed (codes "NO ANSWER")

-- `strings.EqualFold` on ASCII.
unfoldable pub equal_fold : Text → Text → Bool
equal_fold s t = text_eq (map lower_char s) (map lower_char t)

pub data Err : Type 0 where
  command_failed deadline_exceeded read_failed : Err

-- What the loops collect: the response and the unsolicited lines.
pub record Log : Type 0 where
  pub response : List Text
  pub unsolicited : List Text

-- `return response, unsolicited, err`.
pub record Exchange : Type 0 where
  pub response : List Text
  pub unsolicited : List Text
  pub err : Option Err

pub data Progress : Type 0 where
  reading : Log → Progress
  finished : Exchange → Progress

-- The response to a final line.
abbrev final_of : Text → Log → Exchange
final_of line log = record {
  response = log.response;
  unsolicited = log.unsolicited;
  err = if text_eq line (codes "OK") then none else some command_failed;
}

abbrev respond : Text → Log → Progress
respond line log =
    let answered = record log { response = log.response ++ line ∷ [] } in
    if is_final line then finished (final_of line answered) else reading answered

-- The loop over the lines of a chunk; `skips` are the lines passed over, the echo of the command.
unfoldable pub take_lines : (Text → Bool) → List Text → Log → Progress
unfolding is_final is_unsolicited
take_lines skips [] log = reading log
take_lines skips (line ∷ lines) log =
    let skipped = take_lines skips lines log in
    let aside =
      take_lines skips lines (record log { unsolicited = log.unsolicited ++ line ∷ [] }) in
    if skips line then skipped else if is_unsolicited line then aside else elim (respond line log) [
      | finished x ↦ finished x
      | reading answered ↦ take_lines skips lines answered
    ]

-- What the port does, read by read: bytes, or an error.
pub data Read : Type 0 where
  bytes : Text → Read
  fault : Err → Read

abbrev pub failed_exchange : Log → Err → Exchange
failed_exchange log x = record { response = []; unsolicited = log.unsolicited; err = some x }

-- The read loop of `exchangeLocked`, over the reads of the port; the deadline comes after the last.
unfoldable pub exchange_loop : (Text → Bool) → Text → Log → List Read → Exchange
unfolding take_lines feed
exchange_loop skips buffer log [] = failed_exchange log deadline_exceeded
exchange_loop skips buffer log (fault x ∷ reads) = failed_exchange log x
exchange_loop skips buffer log (bytes chunk ∷ reads) =
    let (lines, rest) = feed buffer chunk in
    elim (take_lines skips lines log) [
      | finished x ↦ x
      | reading more ↦ exchange_loop skips rest more reads
    ]

abbrev pub empty_log : Log
empty_log = record { response = []; unsolicited = [] }

-- `exchangeLocked`, behind the write of the command.
unfoldable pub exchange : Text → List Read → Exchange
unfolding exchange_loop
exchange command reads = exchange_loop (λ line. equal_fold line command) [] empty_log reads

abbrev no_echo : Text → Bool
no_echo line = false

-- The read loop of `readUntil`; the flag asks for the prompt of `AT+CMGS`.
unfoldable pub read_until_loop : Bool → Text → Log → List Read → Exchange
unfolding take_lines feed contains
read_until_loop prompt buffer log [] = failed_exchange log deadline_exceeded
read_until_loop prompt buffer log (fault x ∷ reads) = failed_exchange log x
read_until_loop prompt buffer log (bytes chunk ∷ reads) =
    let (lines, rest) = feed buffer chunk in
    let next : Exchange = elim (take_lines no_echo lines log) [
      | finished x ↦ x
      | reading more ↦ read_until_loop prompt rest more reads
    ] in
    if prompt && contains chunk (codes ">")
    then record { response = log.response; unsolicited = log.unsolicited; err = none }
    else next

unfoldable pub read_until : Bool → List Read → Exchange
unfolding read_until_loop
read_until prompt reads = read_until_loop prompt [] empty_log reads
