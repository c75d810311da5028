-- ===== src/At/Inbox.antt =====
-- gateway/internal/modem/at/adapter.go: `ListSMS`, behind its three commands. The lines are those of
-- the answer to `AT+CMGL=4`.
pub mod Laws
use cell_bridge.Sms.Hex.{hex_decode}
use cell_bridge.At.{is_final}
use cell_bridge.Strings.{split_on}
use cell_bridge.Ints.{ℤ, pos, atoi, itoa, negsuc}
use cell_bridge.Base.{
  Text, List, Option, has_prefix, ℕ, codes, ◌∷◌, some, if◌then◌else◌, none, [], trim_space, ◌++◌,
  not, drop, ◌&&◌, ◌+◌, length,
}

-- `RawSMS`, less the sender and the service time, which `ListSMS` does not set.
pub record RawSms : Type 0 where
  pub modem_storage : Text
  pub modem_index : ℤ
  pub raw_pdu : List ℕ

abbrev pub listing_prefix : Text
listing_prefix = codes "+CMGL:"

-- `strconv.Itoa` of an index.
abbrev pub index_text : ℤ → Text
index_text (pos n) = itoa n
index_text (negsuc n) = b'-' ∷ itoa (n + 1)

-- `fields[0]` of what follows the prefix, which is there.
abbrev pub first_field : List Text → Text
first_field [] = []
first_field (field ∷ fields) = field

pub index_of : Text → Option ℤ
unfolding split_on atoi
index_of line =
    atoi (trim_space (first_field (split_on b',' (trim_space (drop (length listing_prefix) line)))))

-- What a line does to the entry that is open, the last index and the result.
pub record Listing : Type 0 where
  pub open_entry : Option ℤ
  pub last_index : Text
  pub result : List RawSms

pub open_line : Option ℤ → Listing → Listing
open_line none l = l
open_line (some index) l = record l { open_entry = some index; last_index = index_text index }

pub close_line : ℤ → Option (List ℕ) → Listing → Listing
close_line index none l = record l { open_entry = none }
close_line index (some pdu) l = record l {
  open_entry = none;
  result =
      l.result ++ record { modem_storage = codes "SM"; modem_index = index; raw_pdu = pdu } ∷ [];
}

-- A line that is no header.
pub body_line : Text → Option ℤ → Listing → Listing
unfolding close_line is_final has_prefix hex_decode
body_line line none l = l
body_line line (some index) l =
    if not (is_final line) && not (has_prefix line (codes "+"))
    then close_line index (hex_decode (trim_space line)) l
    else l

pub take_line : Text → Listing → Listing
unfolding open_line index_of body_line has_prefix
take_line line l =
    if has_prefix line listing_prefix
    then open_line (index_of line) l
    else body_line line l.open_entry l

-- The loop over the lines.
unfoldable pub take_listing : List Text → Listing → Listing
unfolding take_line
take_listing [] l = l
take_listing (line ∷ lines) l = take_listing lines (take_line line l)

-- `ListSMS`: the messages, and the new cursor.
unfoldable pub list_sms : Text → List Text → List RawSms × Text
unfolding take_listing
list_sms cursor lines =
    let l =
      take_listing lines
        (record { open_entry = none; last_index = trim_space cursor; result = [] }) in
    (l.result, l.last_index)
