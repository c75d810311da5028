-- ===== src/At/Inbox/Laws.antt =====
-- A listing is read back to the messages that the modem printed.
use mathlib.Core.List.{append_assoc, append-nil}
use cell_bridge.Strings.{split_on-append}
use cell_bridge.At.Status.Laws.{trim_space-itoa_comma, itoa-no, trim_space-itoa}
use cell_bridge.Sms.Pack.Bits.{IsByte}
use cell_bridge.At.{is_final}
use cell_bridge.Ints.{max_int, pos, itoa, atoi-itoa, ℤ}
use cell_bridge.Sms.Hex.{upper_hex, hex_decode, upper_hex_no_space, hex_decode-upper_hex}
use cell_bridge.At.Inbox.{
  RawSms, index_of, take_line, open_line, Listing, listing_prefix, body_line, take_listing,
  list_sms, close_line,
}
use cell_bridge.Base.{
  ℕ, List, Text, ◌≤◌, codes, ◌∷◌, has_prefix, ◌++◌, All, [], ◌≡◌, text_eq, ◌≢◌, some, refl,
  trim_space_space, false, inl, arith, none, map, ◌∙◌, trim_space, ap, trim_space_no_space,
}

-- A stored message: its index, what the header says behind it, and its unit.
pub record Entry : Type 0 where
  pub index : ℕ
  pub header : Text
  pub pdu : List ℕ

-- The two lines of an entry, as the modem prints them.
abbrev pub entry_lines : Entry → List Text
entry_lines x = (codes "+CMGL: " ++ (itoa x.index ++ b',' ∷ x.header)) ∷ upper_hex x.pdu ∷ []

abbrev pub listing : List Entry → List Text
listing [] = codes "OK" ∷ []
listing (x ∷ entries) = entry_lines x ++ listing entries

abbrev pub sms_of : Entry → RawSms
sms_of x = record { modem_storage = codes "SM"; modem_index = pos x.index; raw_pdu = x.pdu }

-- The index of the last entry, or the cursor.
abbrev pub last_of : Text → List Entry → Text
last_of cursor [] = cursor
last_of cursor (x ∷ entries) = last_of (itoa x.index) entries

-- An index that fits, and a unit that is not empty.
abbrev pub IsEntry : Entry → Type 0
IsEntry x = (x.index ≤ max_int) × (All IsByte x.pdu) × (x.pdu ≢ [])

index_of-entry :
    (n : ℕ) (rest : Text)
    → n ≤ max_int
    → index_of (codes "+CMGL: " ++ (itoa n ++ b',' ∷ rest)) ≡ some (pos n)
unfolding index_of
index_of-entry n rest m =
    let (t, e) = trim_space-itoa_comma n rest in
    rw (trim_space_space (itoa n ++ b',' ∷ rest)) (
      rw e (
        rw (split_on-append b',' (itoa n) t (itoa-no b',' n (inl (omega arith))))
          (rw (trim_space-itoa n) (atoi-itoa n m))))

-- A line that begins with two upper-case hexadecimal digits is no header and no final line.
plain_line :
    (c d : ℕ) (s : Text)
    → (b'0' ≤ c) × (c ≤ b'F')
    → (b'0' ≤ d) × (d ≤ b'F')
    → (has_prefix (c ∷ d ∷ s) listing_prefix ≡ false)
      × (has_prefix (c ∷ d ∷ s) (codes "+") ≡ false)
      × (is_final (c ∷ d ∷ s) ≡ false)
unfolding has_prefix is_final text_eq
plain_line c d s hc hd = (ground arith, ground arith, ground arith)

upper_hex-cons :
    (octets : List ℕ)
    → All IsByte octets
    → octets ≢ []
    → (c d : ℕ) × (s : Text) × (upper_hex octets ≡ c ∷ d ∷ s)
      × ((b'0' ≤ c) × (c ≤ b'F'))
      × ((b'0' ≤ d) × (d ≤ b'F'))
unfolding upper_hex
upper_hex-cons [] h ne = absurd (ne refl)
upper_hex-cons (x ∷ octets) h ne =
    (_, _, _, refl, (ground arith, ground arith), (ground arith, ground arith))

take_line-header :
    (n : ℕ) (rest : Text) (l : Listing)
    → n ≤ max_int
    → take_line (codes "+CMGL: " ++ (itoa n ++ b',' ∷ rest)) l
      ≡ record l { open_entry = some (pos n); last_index = itoa n }
unfolding take_line open_line
take_line-header n rest l m = rw (index_of-entry n rest m) refl

take_line-pdu :
    (index : ℤ) (last : Text) (result : List RawSms) (octets : List ℕ)
    → All IsByte octets
    → octets ≢ []
    → take_line
        (upper_hex octets)
        (record { open_entry = some index; last_index = last; result = result })
      ≡ record {
        open_entry = none;
        last_index = last;
        result =
            result
            ++ record { modem_storage = codes "SM"; modem_index = index; raw_pdu = octets } ∷ [];
      }
unfolding take_line body_line close_line
take_line-pdu index last result octets h ne =
    let (c, d, s, e, hc, hd) = upper_hex-cons octets h ne in
    let (header, plus, final) = plain_line c d s hc hd in
    let decoded : hex_decode (trim_space (upper_hex octets)) ≡ some octets =
      rw (trim_space_no_space (upper_hex octets) (upper_hex_no_space octets h))
        (hex_decode-upper_hex octets h) in
    rw (ap (λ t. has_prefix t listing_prefix) e ∙ header) (
      rw (ap is_final e ∙ final)
        (rw (ap (λ t. has_prefix t (codes "+")) e ∙ plus) (rw decoded refl)))

take_listing-listing :
    (entries : List Entry) (last : Text) (result : List RawSms)
    → All IsEntry entries
    → take_listing
        (listing entries)
        (record { open_entry = none; last_index = last; result = result })
      ≡ record {
        open_entry = none;
        last_index = last_of last entries;
        result = result ++ map sms_of entries;
      }
unfolding take_listing
take_listing-listing [] last result h = rw (append-nil result) refl
take_listing-listing (x ∷ entries) last result h =
    rw
      (take_line-header x.index x.header
        (record { open_entry = none; last_index = last; result = result }) h.0.0)
      (rw (take_line-pdu (pos x.index) (itoa x.index) result x.pdu h.0.1 h.0.2) (
        take_listing-listing entries (itoa x.index) (result ++ sms_of x ∷ []) h.1
        ∙ ap
            (λ r. record {
              open_entry = none;
              last_index = last_of (itoa x.index) entries;
              result = r;
            })
            (append_assoc result (sms_of x ∷ []) (map sms_of entries))))

-- A listing that the modem prints, each message as a header with its index and a line of upper-case
-- hexadecimal digits and `OK` at the end, is read back whole: every message with its index and its
-- octets, in order, and the cursor is the index of the last one. The indices fit an int, and no
-- unit is empty.
pub list_sms-listing :
    (cursor : Text) (entries : List Entry)
    → All IsEntry entries
    → list_sms cursor (listing entries) ≡ (map sms_of entries, last_of (trim_space cursor) entries)
unfolding list_sms
list_sms-listing cursor entries h = rw (take_listing-listing entries (trim_space cursor) [] h) refl
