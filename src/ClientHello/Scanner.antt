-- ===== src/ClientHello/Scanner.antt =====
-- src/client_hello.rs: `scan` and `handshake_message`, on the client's byte stream.
pub mod Stable
use basta.Prelude.{
  ℕ, zero, suc, ◌+◌, ◌*◌, Bool, true, false, not, ◌||◌, Option, none, some, [], ◌∷◌, ◌++◌, arith,
  Bytes, be16, ltb, ◌==◌, if◌then◌else◌, length, is_empty, take, drop,
}
use basta.ClientHello.Body.{try_parse}

abbrev pub max_peek : ℕ
max_peek = 64 * 1024

abbrev pub max_records : ℕ
max_records = 32

abbrev pub rec_handshake : ℕ
rec_handshake = 0x16

abbrev pub hs_client_hello : ℕ
hs_client_hello = 0x01

pub data Scan : Type 0 where
  incomplete : Scan
  done : Option Bytes → Scan
  invalid : Scan

pub data HsMsg : Type 0 where
  incomplete : HsMsg
  invalid : HsMsg
  client_hello : Bytes → HsMsg

unfoldable pub handshake_message : Bytes → HsMsg
handshake_message (t ∷ a ∷ b ∷ c ∷ rest) =
    if not (t == hs_client_hello)
    then HsMsg.invalid
    else (let len = (a * 256 + b) * 256 + c in
        let total = 4 + len in
        if ltb max_peek total
        then HsMsg.invalid
        else if ltb (length (t ∷ a ∷ b ∷ c ∷ rest)) total
        then HsMsg.incomplete
        else if ltb total (length (t ∷ a ∷ b ∷ c ∷ rest))
        then HsMsg.invalid
        else HsMsg.client_hello (take len rest))
handshake_message _ = HsMsg.incomplete

-- `match try_parse(body)`.
abbrev pub verdict : Option (Option Bytes) → Scan
verdict (some sni) = done sni
verdict none = Scan.invalid

-- `match handshake_message(&hs)`: the flag is `off != buf.len()`. `none` is `continue`.
unfoldable pub judge : HsMsg → Bool → Option Scan
judge HsMsg.incomplete trailing = none
judge HsMsg.invalid trailing = some Scan.invalid
judge (client_hello body) trailing =
    some (if trailing then Scan.invalid else verdict (try_parse body))

-- One round of the loop on `rest = &buf[off..]`: the verdict, or the new `rest`, `hs` and `records`.
pub data Round : Type 0 where
  stop : Scan → Round
  again : Bytes → Bytes → ℕ → Round

abbrev pub or_again : Option Scan → Bytes → Bytes → ℕ → Round
or_again (some s) rest hs records = stop s
or_again none rest hs records = again rest hs records

-- After the record's body has been moved from `rest` to `hs`.
unfoldable pub after_record : Bytes → Bytes → ℕ → Round
after_record rest hs records =
    if ltb max_records records || ltb max_peek (length hs)
    then stop Scan.invalid
    else or_again (judge (handshake_message hs) (not (is_empty rest))) rest hs records

unfoldable pub round : Bytes → Bytes → ℕ → Round
unfolding after_record
round (t ∷ v1 ∷ v2 ∷ hi ∷ lo ∷ payload) hs records =
    if not (t == rec_handshake)
    then stop Scan.invalid
    else (let rec_len = be16 hi lo in
        if rec_len == 0 || ltb 16384 rec_len
        then stop Scan.invalid
        else if ltb (length payload) rec_len
        then stop Scan.incomplete
        else after_record (drop rec_len payload) (hs ++ take rec_len payload) (records + 1))
round _ hs records = stop Scan.incomplete

-- The loop: `fuel + records` is `max_records + 1`, and the last round stops by the cap on records.
unfoldable pub scan_loop : ℕ → Bytes → Bytes → ℕ → Scan
scan_loop zero rest hs records = Scan.invalid
scan_loop (suc fuel) rest hs records = elim (round rest hs records) [
  | stop s ↦ s
  | again rest' hs' records' ↦ scan_loop fuel rest' hs' records'
]

unfoldable pub scan : Bytes → Scan
unfolding scan_loop
scan buf = if ltb max_peek (length buf) then Scan.invalid else scan_loop (max_records + 1) buf [] 0
