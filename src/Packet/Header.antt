-- ===== src/Packet/Header.antt =====
-- minecraft/protocol/packet/packet.go: the header of a packet, one varuint32 that holds the packet
-- ID in its low ten bits and two sub client IDs of two bits each above them.
mod Runs
use gophertunnel.Prelude.{
  ℕ, ◌+◌, ◌-◌, ◌*◌, ◌/◌, ◌%◌, ◌^◌, ◌<◌, bit_and, bit_or, List, ◌++◌, ◌≡◌, sym, arith,
}
use gophertunnel.Prelude.Results.{Result, ok, err, ◌>>=◌, >>=-ok}
use gophertunnel.Bits.{bit_and_mask, bit_or_shifted}
use gophertunnel.Errors.{Error}
use gophertunnel.Varint.{write_varuint32, varuint32}
use gophertunnel.Varint.RoundTrip.{varuint32-write_varuint32}

pub record Header : Type 0 where
  pub packet_id : ℕ
  pub sender_sub_client : ℕ
  pub target_sub_client : ℕ

-- The value that `Write` packs.
unfoldable pub pack : Header → ℕ
pack h =
    bit_or (bit_or h.packet_id (h.sender_sub_client * 2 ^ 10 % 2 ^ 32))
      (h.target_sub_client * 2 ^ 12 % 2 ^ 32)

unfoldable pub write : Header → List ℕ
unfolding pack
write h = write_varuint32 (pack h)

-- The fields that `Read` takes from the value.
unfoldable pub unpack : ℕ → Header
unpack value = record {
  packet_id = bit_and value 0x3ff;
  sender_sub_client = bit_and (value / 2 ^ 10) 0x3 % 256;
  target_sub_client = bit_and (value / 2 ^ 12) 0x3 % 256;
}

unfoldable pub read : List ℕ → Result Error (Header × List ℕ)
unfolding unpack
read src = do (value, rest) ← varuint32 src; ok (unpack value, rest)

-- What the ten and the two bits have room for.
pub record IsHeader (h : Header) : Type 0 where
  pub packet_id : h.packet_id < 2 ^ 10
  pub sender_sub_client : h.sender_sub_client < 4
  pub target_sub_client : h.target_sub_client < 4

pack_lem :
    (h : Header)
    → IsHeader h
    → pack h ≡ h.packet_id + h.sender_sub_client * 2 ^ 10 + h.target_sub_client * 2 ^ 12
unfolding pack
pack_lem h w = ground (
  arith,
  w.packet_id,
  w.sender_sub_client,
  w.target_sub_client,
  bit_or_shifted 10 h.packet_id h.sender_sub_client w.packet_id,
  bit_or_shifted 12 (h.packet_id + h.sender_sub_client * 2 ^ 10) h.target_sub_client
      (omega (arith, w.packet_id, w.sender_sub_client)),
)

unpack-pack : (h : Header) → IsHeader h → unpack (pack h) ≡ h
unfolding unpack
unpack-pack h w =
    let value : ℕ = h.packet_id + h.sender_sub_client * 2 ^ 10 + h.target_sub_client * 2 ^ 12 in
    let id : bit_and value 0x3ff ≡ h.packet_id =
      omega (arith, bit_and_mask 10 value, w.packet_id) in
    let sender : bit_and (value / 2 ^ 10) 0x3 % 256 ≡ h.sender_sub_client =
      omega (arith, bit_and_mask 2 (value / 2 ^ 10), w.packet_id, w.sender_sub_client) in
    let target : bit_and (value / 2 ^ 12) 0x3 % 256 ≡ h.target_sub_client = omega (
      arith,
      bit_and_mask 2 (value / 2 ^ 12),
      w.packet_id,
      w.sender_sub_client,
      w.target_sub_client,
    ) in
    rw (pack_lem h w, id, sender, target)

-- A header with an ID below 1024 and sub client IDs below 4 is read back as it was written, and
-- what follows it is left.
pub read-write : (h : Header) (rest : List ℕ) → IsHeader h → read (write h ++ rest) ≡ ok (h, rest)
unfolding read write
read-write h rest w = rw (
  varuint32-write_varuint32 (pack h) rest
      (omega (arith, pack_lem h w, w.packet_id, w.sender_sub_client, w.target_sub_client)),
  unpack-pack h w,
)

unpack-IsHeader : (value : ℕ) → IsHeader (unpack value)
unfolding unpack
unpack-IsHeader value = record {
  packet_id = omega (arith, bit_and_mask 10 value);
  sender_sub_client = omega (arith, bit_and_mask 2 (value / 2 ^ 10));
  target_sub_client = omega (arith, bit_and_mask 2 (value / 2 ^ 12));
}

-- Every header that Read accepts, whatever the bytes, has an ID below 1024 and sub client IDs
-- below 4.
pub read-IsHeader :
    (src : List ℕ) {h : Header} {rest : List ℕ} → read src ≡ ok (h, rest) → IsHeader h
unfolding read
read-IsHeader src {h} e =
    let ((value, left), _, e') = >>=-ok _ (varuint32 src) e in
    let fields : unpack value ≡ h = cc in rw (sym fields) (unpack-IsHeader value)
