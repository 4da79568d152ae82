-- ===== src/ClientHello/Body/Grammar.antt =====
-- What src/client_hello.rs accepts, stated apart from how it reads: RFC 8446 section 4.1.2 and RFC
-- 6066 section 3, with the limits that the parser adds.
use basta.Prelude.{
  ℕ, ◌/◌, ◌%◌, ◌≤◌, ◌<◌, ◌≡◌, ◌≢◌, Option, none, some, List, [], ◌∷◌, ◌++◌, length, All, Bytes,
  be16,
}
use basta.ClientHello.Cursor.Frames.{frame8, frame16}
use basta.ClientHello.DnsName.{sni_string}
use basta.ClientHello.Body.{ext_server_name, ext_ech, sni_type_host}

-- An extension: its type and its body.
abbrev pub Extension : Type 0
Extension = ℕ × Bytes

abbrev pub encode_extension : Extension → Bytes
encode_extension (t, b) = t / 256 ∷ t % 256 ∷ frame16 b

abbrev pub encode_extensions : List Extension → Bytes
encode_extensions [] = []
encode_extensions (x ∷ xs) = encode_extension x ++ encode_extensions xs

-- A server_name extension that names one host, which reads as `host` in lower case.
pub record NamesHost (x : Extension) (host : Bytes) : Type 0 where
  pub type_is : x.0 ≡ ext_server_name
  pub raw : Bytes
  pub body_is : x.1 ≡ frame16 (sni_type_host ∷ frame16 raw)
  pub host_is : sni_string raw ≡ some host

abbrev pub IsPlain : Extension → Type 0
IsPlain x = (x.0 ≢ ext_server_name) × (x.0 ≢ ext_ech)

-- No encrypted ClientHello; no server_name extension, or one that names a host.
pub data Names : List Extension → Option Bytes → Type 0 where
  unnamed : {xs : List Extension} → All IsPlain xs → Names xs none
  named :
      (before after : List Extension) {x : Extension} {host : Bytes}
      → All IsPlain before
      → NamesHost x host
      → All IsPlain after
      → Names (before ++ x ∷ after) (some host)

-- What follows the compression methods. The last form is two bytes that announce an extensions
-- block with nothing behind them.
pub data Tail : Type 0 where
  absent : Tail
  block : List Extension → Tail
  announced : ℕ → ℕ → Tail

abbrev pub encode_tail : Tail → Bytes
encode_tail absent = []
encode_tail (block xs) = frame16 (encode_extensions xs)
encode_tail (announced hi lo) = hi ∷ lo ∷ []

abbrev pub TailNames : Tail → Option Bytes → Type 0
TailNames absent sni = sni ≡ none
TailNames (block xs) sni = Names xs sni
TailNames (announced hi lo) sni = (0 < be16 hi lo) × (sni ≡ none)

pub record Hello : Type 0 where
  pub version : Bytes
  pub random : Bytes
  pub session_id : Bytes
  pub cipher_suites : Bytes
  pub compression : Bytes
  pub tail : Tail

abbrev pub encode : Hello → Bytes
encode h =
    h.version
    ++ (h.random
        ++ (frame8 h.session_id
            ++ (frame16 h.cipher_suites ++ (frame8 h.compression ++ encode_tail h.tail))))

pub record IsValid (h : Hello) : Type 0 where
  pub version_length : length h.version ≡ 2
  pub random_length : length h.random ≡ 32
  pub session_id_length : length h.session_id ≤ 32
  pub cipher_suites_even : length h.cipher_suites % 2 ≡ 0
  pub cipher_suites_some : 0 < length h.cipher_suites
  pub compression_some : 0 < length h.compression

-- The body is the encoding of a valid hello that names `sni`.
abbrev pub Describes : Bytes → Option Bytes → Type 0
Describes body sni = (h : Hello) × (encode h ≡ body) × IsValid h × TailNames h.tail sni
