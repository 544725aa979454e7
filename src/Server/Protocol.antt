-- ===== src/Server/Protocol.antt =====
-- pkg/server/protocol.go: the packets of the TCP protocol.
pub mod RoundTrip
pub mod Checks
mod Runs
use test_db.Prelude.{
  ℕ, zero, suc, ◌+◌, ◌-◌, ◌/◌, ◌%◌, ◌^◌, ◌*◌, Bool, true, false, not, Option, none, some, List, [],
  ◌∷◌, ◌++◌, length, get_elem?, take, drop, ltb, ◌==◌, if◌then◌else◌, Bytes,
}

abbrev pub magic_number : ℕ
magic_number = 1464419394

abbrev pub protocol_version : ℕ
protocol_version = 1

abbrev header_size : ℕ
header_size = 11

abbrev pub max_packet_size : ℕ
max_packet_size = 16777216

pub record Packet : Type 0 where
  pub magic : ℕ
  pub version : ℕ
  pub typ : ℕ
  pub size : ℕ
  pub payload : Bytes

pub data Error : Type 0 where
  header_not_read payload_not_read : Error
  invalid_magic unsupported_version payload_too_large : ℕ → Error

pub data Result {ℓ} (A : Type ℓ) : Type ℓ where
  ok : A → Result A
  err : Error → Result A

-- binary.BigEndian
unfoldable pub put_uint32 : ℕ → Bytes
put_uint32 n = n / 2 ^ 24 % 256 ∷ n / 2 ^ 16 % 256 ∷ n / 2 ^ 8 % 256 ∷ n % 256 ∷ []

unfoldable pub put_uint16 : ℕ → Bytes
put_uint16 n = n / 2 ^ 8 % 256 ∷ n % 256 ∷ []

-- The number that some bytes stand for, the highest first.
unfoldable pub from_big_endian : ℕ → Bytes → ℕ
from_big_endian acc [] = acc
from_big_endian acc (b ∷ bs) = from_big_endian (acc * 256 + b) bs

-- The bytes i .. j of a header.
abbrev pub slice : ℕ → ℕ → Bytes → Bytes
slice i j bs = take (j - i) (drop i bs)

unfoldable pub encode : Packet → Bytes
unfolding put_uint32 put_uint16
encode p =
    put_uint32 p.magic ++ (put_uint16 p.version ++ (p.typ % 256 ∷ (put_uint32 p.size ++ p.payload)))

abbrev read_number : ℕ → ℕ → Bytes → ℕ
read_number i j bs = from_big_endian 0 (slice i j bs)

unfoldable pub header_of : Bytes → Packet
unfolding from_big_endian
header_of bs = record {
  magic = read_number 0 4 bs;
  version = read_number 4 6 bs;
  typ = read_number 6 7 bs;
  size = read_number 7 11 bs;
  payload = [];
}

-- io.ReadFull of the payload.
unfoldable pub read_payload : Packet → Bytes → Result (Packet × Bytes)
read_payload p bs =
    if p.size == 0
    then ok (p, bs)
    else if ltb (length bs) p.size
    then err payload_not_read
    else ok (record p { payload = take p.size bs }, drop p.size bs)

-- The checks of a header that was read, and the payload behind it.
unfoldable pub decode_behind : Packet → Bytes → Result (Packet × Bytes)
unfolding read_payload
decode_behind p bs =
    if not (p.magic == magic_number)
    then err (invalid_magic p.magic)
    else if not (p.version == protocol_version)
    then err (unsupported_version p.version)
    else if ltb max_packet_size p.size
    then err (payload_too_large p.size)
    else read_payload p bs

-- The packet and what is left of the stream.
unfoldable pub decode_packet : Bytes → Result (Packet × Bytes)
unfolding header_of decode_behind
decode_packet bs =
    if ltb (length bs) header_size
    then err header_not_read
    else decode_behind (header_of bs) (drop header_size bs)

unfoldable pub new_packet : ℕ → Bytes → Packet
new_packet typ payload = record {
  magic = magic_number;
  version = protocol_version;
  typ = typ;
  size = length payload % 2 ^ 32;
  payload = payload;
}
