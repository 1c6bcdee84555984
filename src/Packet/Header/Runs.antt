-- ===== src/Packet/Header/Runs.antt =====
-- Concrete packet headers, and the theorems at concrete inputs.
use gophertunnel.Prelude.{[], ◌∷◌, ◌++◌, ◌≡◌, refl, arith}
use gophertunnel.Prelude.Results.{ok}
use gophertunnel.Varint.{write_loop, write_varuint32, read_loop, varuint32}
use gophertunnel.Packet.Header.{
  Header, IsHeader, pack, unpack, write, read, read-write, read-IsHeader,
}

abbrev transfer_header : Header
transfer_header = record { packet_id = 85; sender_sub_client = 1; target_sub_client = 2 }

transfer_header-IsHeader : IsHeader transfer_header
transfer_header-IsHeader = record {
  packet_id = omega arith;
  sender_sub_client = omega arith;
  target_sub_client = omega arith;
}

write-transfer_header : write transfer_header ≡ 0xd5 ∷ 0x48 ∷ []
unfolding write pack write_varuint32 write_loop
write-transfer_header = refl

read-transfer_header : read (0xd5 ∷ 0x48 ∷ 7 ∷ []) ≡ ok (transfer_header, 7 ∷ [])
unfolding read unpack varuint32 read_loop
read-transfer_header = refl

read-write_example : read (write transfer_header ++ 7 ∷ []) ≡ ok (transfer_header, 7 ∷ [])
read-write_example = read-write transfer_header (7 ∷ []) transfer_header-IsHeader

read-IsHeader_example : IsHeader transfer_header
read-IsHeader_example = read-IsHeader (0xd5 ∷ 0x48 ∷ 7 ∷ []) read-transfer_header
