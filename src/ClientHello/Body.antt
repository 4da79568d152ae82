-- ===== src/ClientHello/Body.antt =====
-- src/client_hello.rs: `try_parse` and `parse_sni`, on the ClientHello body.
pub mod Grammar
pub mod Accepted
pub mod Extensions
pub mod Encoded
pub mod Exact
use basta.Prelude.{
  ℕ, zero, suc, ◌%◌, Bool, true, false, not, ◌||◌, Option, none, some, arith, Bytes, ltb, ◌==◌,
  if◌then◌else◌, length, is_empty,
}
use basta.ClientHello.Cursor.{
  Cur, ◌>>=◌, ◌>>◌, pure, reject, take_bytes, u8, u16, vec8, vec16, at_end,
}
use basta.ClientHello.DnsName.{sni_string}

abbrev pub ext_server_name : ℕ
ext_server_name = 0x0000

abbrev pub ext_ech : ℕ
ext_ech = 0xfe0d

abbrev pub sni_type_host : ℕ
sni_type_host = 0x00

-- `parse_sni` on the cursor over the list: one entry, and nothing after it.
unfoldable pub sni_entry : Cur Bytes
sni_entry = do
  name_type ← u8
  name ← vec16
  λ l.
      if not (name_type == sni_type_host) || not (at_end l) then (none, l) else (sni_string name, l)

sni_list : Cur Bytes
sni_list = do list ← vec16; λ c. if not (at_end c) then (none, c) else ((sni_entry list).0, c)

unfoldable pub parse_sni : Bytes → Option Bytes
unfolding sni_list sni_entry
parse_sni ext = (sni_list ext).0

-- The two reads of a round of the loop over the extensions.
unfoldable pub read_extension : Cur (ℕ × Bytes)
read_extension = do ext_type ← u16; ext_body ← vec16; pure (ext_type, ext_body)

-- The tests of a round: `sni_seen` and `sni_host` after it, or `return None`.
unfoldable pub accept_extension : Bool → Option Bytes → ℕ → Bytes → Option (Bool × Option Bytes)
accept_extension sni_seen sni_host ext_type ext_body =
    if ext_type == ext_ech
    then none
    else if ext_type == ext_server_name
    then (if sni_seen
        then none
        else (elim (parse_sni ext_body) [ none ↦ none | some host ↦ some (true, some host) ]))
    else some (sni_seen, sni_host)

-- The loop. A round reads four bytes or more, so the number of bytes is fuel enough.
unfoldable pub walk : ℕ → Bool → Option Bytes → Bytes → Option (Option Bytes)
walk zero sni_seen sni_host e = if at_end e then some sni_host else none
walk (suc fuel) sni_seen sni_host e =
    let (read, e') = read_extension e in
    let next : Option (Option Bytes) = elim read [
      | none ↦ none
      | some (ext_type, ext_body) ↦ elim (accept_extension sni_seen sni_host ext_type ext_body) [
        | none ↦ none
        | some (seen, host) ↦ walk fuel seen host e'
      ]
    ] in
    if at_end e then some sni_host else next

-- From `let exts = match c.vec16()` on. After a failed read the cursor stands where the read left it.
unfoldable pub extensions_block : Cur (Option Bytes)
extensions_block c =
    let (exts, c') = vec16 c in
    elim exts [
      | some e ↦ if not (at_end c') then (none, c') else (walk (length e) false none e, c')
      | none ↦ if at_end c' then (some none, c') else (none, c')
    ]

unfoldable pub hello_body : Cur (Option Bytes)
hello_body = do
  take_bytes 2
  take_bytes 32
  session_id ← vec8
  reject (ltb 32 (length session_id))
  cipher_suites ← vec16
  reject (is_empty cipher_suites || not (length cipher_suites % 2 == 0))
  compression ← vec8
  reject (is_empty compression)
  extensions_block

unfoldable pub try_parse : Bytes → Option (Option Bytes)
unfolding hello_body
try_parse body = (hello_body body).0
