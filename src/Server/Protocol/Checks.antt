-- ===== src/Server/Protocol/Checks.antt =====
-- What a packet that was read is known to be.
use test_db.Prelude.{
  ℕ, zero, suc, ◌≡◌, ◌≤◌, refl, false, [], ◌∷◌, arith, length, take, drop, Bool-cases, inl, inr,
  ltb, ◌==◌, Bytes,
}
use test_db.Server.Protocol.{
  Packet, Result, ok, err, max_packet_size, magic_number, protocol_version, header_of, read_payload,
  decode_behind, decode_packet,
}

-- A refusal, or a packet with the magic number, the version and no more payload than allowed, which
-- is as long as the header says.
abbrev pub IsAccepted : Result (Packet × Bytes) → Type 0
IsAccepted (err e) = Unit
IsAccepted (ok (p, rest)) =
    (p.magic ≡ magic_number)
    × (p.version ≡ protocol_version)
    × (p.size ≤ max_packet_size)
    × (length p.payload ≡ p.size)

length-take_fits : (n : ℕ) (bs : Bytes) → ltb (length bs) n ≡ false → length (take n bs) ≡ n
length-take_fits zero bs h = refl
length-take_fits (suc n) [] h = ground (arith, h)
length-take_fits (suc n) (b ∷ bs) h = ground (arith, length-take_fits n bs (ground (arith, h)))

payload-IsAccepted :
    (p : Packet) (bs : Bytes)
    → p.magic ≡ magic_number
    → p.version ≡ protocol_version
    → p.size ≤ max_packet_size
    → length p.payload ≡ 0
    → IsAccepted (read_payload p bs)
unfolding read_payload
payload-IsAccepted p bs m v s z = elim (Bool-cases (p.size == 0)) [
  | inl none_to_read ↦ rw (none_to_read) (m, v, s, ground (arith, none_to_read, z))
  | inr some_to_read ↦ elim (Bool-cases (ltb (length bs) p.size)) [
    | inl short ↦ rw (some_to_read) (rw (short) tt)
    | inr enough ↦ rw (some_to_read) (rw (enough) (m, v, s, length-take_fits p.size bs enough))
  ]
]

behind-IsAccepted :
    (p : Packet) (bs : Bytes) → length p.payload ≡ 0 → IsAccepted (decode_behind p bs)
unfolding decode_behind
behind-IsAccepted p bs z = elim (Bool-cases (p.magic == magic_number)) [
  | inr other_magic ↦ rw (other_magic) tt
  | inl magic_here ↦ elim (Bool-cases (p.version == protocol_version)) [
    | inr other_version ↦ rw (magic_here) (rw (other_version) tt)
    | inl version_here ↦ elim (Bool-cases (ltb max_packet_size p.size)) [
      | inl large ↦ rw (magic_here) (rw (version_here) (rw (large) tt))
      | inr fits ↦ rw (magic_here) (
          rw (version_here) (
            rw (fits) (
              payload-IsAccepted p bs (ground (arith, magic_here)) (ground (arith, version_here))
                (ground (arith, fits)) z)))
    ]
  ]
]

-- Whatever bytes a client sends, a packet that is read has the magic number, the protocol's version
-- and a payload of at most MaxPacketSize bytes, exactly as many as its header says.
pub decode_packet-IsAccepted : (bs : Bytes) → IsAccepted (decode_packet bs)
unfolding decode_packet
decode_packet-IsAccepted bs = elim (Bool-cases (ltb (length bs) 11)) [
  | inl short ↦ rw (short) tt
  | inr enough ↦
      rw (enough) (behind-IsAccepted (header_of bs) (drop 11 bs) (unfold header_of in refl))
]
