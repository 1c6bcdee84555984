-- ===== src/Batch/Walk.antt =====
-- minecraft/protocol/packet/decoder.go and encoder.go: the payload of a batch, where each packet
-- stands behind its length.
pub mod RoundTrip
pub mod Limits
use gophertunnel.Prelude.{
  ℕ, zero, suc, ◌+◌, ◌*◌, ◌%◌, ◌^◌, bit_and, bit_or, Bool, ◌&&◌, List, [], ◌∷◌, ◌++◌, ltb, leb,
  ◌==◌, if◌then◌else◌, length, take, drop,
}
use gophertunnel.Prelude.Results.{Result, ok, err, ◌>>=◌}
use gophertunnel.Errors.{
  Error, unexpected_eof, varint_overflow, empty_packet, exceeds_remaining, too_many_packets,
}
use gophertunnel.Varint.{write_loop}

-- The loop of `readPacketLength` from the round `i` on, with what follows the bytes it read.
unfoldable pub packet_length_loop : (rounds i v : ℕ) → List ℕ → Result Error (ℕ × List ℕ)
packet_length_loop zero i v src = err varint_overflow
packet_length_loop (suc rounds) i v [] = err unexpected_eof
packet_length_loop (suc rounds) i v (b ∷ rest) =
    let v' = bit_or v (bit_and b 0x7f * 2 ^ i % 2 ^ 32) in
    let more = packet_length_loop rounds (i + 7) v' rest in
    if bit_and b 0x80 == 0 then ok (v', rest) else more

unfoldable pub read_packet_length : List ℕ → Result Error (ℕ × List ℕ)
unfolding packet_length_loop
read_packet_length src = packet_length_loop 5 0 0 src

abbrev pub maximum_in_batch : ℕ
maximum_in_batch = 812

-- The three checks on a packet's length, which is compared with that of the rest as a uint32.
unfoldable pub check_packet : Bool → (count len : ℕ) → List ℕ → Result Error (Unit {0})
check_packet check_packet_limit count len rest =
    if len == 0
    then err empty_packet
    else if ltb (length rest % 2 ^ 32) len
    then err exceeds_remaining
    else if leb maximum_in_batch count && check_packet_limit
    then err too_many_packets
    else ok tt

-- The loop of `walkBatch` with its callback as a function on a state. A round reads at least one
-- byte, so that as many rounds as there are bytes are enough.
unfoldable pub walk_loop {ℓ} :
    {A : Type ℓ}
    → Bool
    → (List ℕ → A → Result Error A)
    → (rounds count : ℕ) → List ℕ
    → A
    → Result Error A
unfolding read_packet_length check_packet
walk_loop check f rounds count [] a = ok a
walk_loop check f zero count (b ∷ src) a = err unexpected_eof
walk_loop check f (suc rounds) count (b ∷ src) a = do
  (len, rest) ← read_packet_length (b ∷ src)
  tt ← check_packet check count len rest
  a' ← f (take len rest) a
  walk_loop check f rounds (count + 1) (drop len rest) a'

unfoldable pub walk_batch {ℓ} :
    {A : Type ℓ} → Bool → (List ℕ → A → Result Error A) → List ℕ → A → Result Error A
unfolding walk_loop
walk_batch check f src a = walk_loop check f (length src) 0 src a

-- The callback of `Decode`: `packets = append(packets, packet)`.
abbrev pub collect : List ℕ → List (List ℕ) → Result Error (List (List ℕ))
collect packet packets = ok (packets ++ packet ∷ [])

-- `putVaruint32`
unfoldable pub put_varuint32 : ℕ → List ℕ
unfolding write_loop
put_varuint32 x = write_loop x x

-- The loop of `Encode` that fills the batch.
unfoldable pub put_packets : List (List ℕ) → List ℕ
unfolding put_varuint32
put_packets [] = []
put_packets (packet ∷ packets) =
    put_varuint32 (length packet % 2 ^ 32) ++ (packet ++ put_packets packets)

-- No callback: `walkBatch(data, nil)`.
abbrev pub validate : List ℕ → Unit {0} → Result Error (Unit {0})
validate packet a = ok a
