-- ===== src/Batch/Walk/RoundTrip.antt =====
-- A batch's payload is taken apart into the packets that it was made of.
use gophertunnel.Prelude.{
  ℕ, zero, suc, ◌+◌, ◌*◌, ◌%◌, ◌^◌, ◌≤◌, ◌<◌, Bool, false, List, [], ◌∷◌, ◌++◌, length, ◌≡◌, refl,
  ◌∙◌, arith, All, append-nil, append_assoc, length-append, take-append, drop-append, ◌⊎◌, take,
  drop, bit_and, bit_or,
}
use gophertunnel.Prelude.Results.{Result, ok}
use gophertunnel.Varint.{read_loop}
use gophertunnel.Varint.RoundTrip.{read_loop-write_loop}
use gophertunnel.Varint.Write.{length-write_loop}
use gophertunnel.Batch.Walk.{
  packet_length_loop, read_packet_length, check_packet, walk_loop, walk_batch, collect,
  put_varuint32, put_packets, maximum_in_batch,
}
use gophertunnel.Errors.{Error}

-- Wherever Varuint32 reads a value, readPacketLength reads the same value and leaves the same
-- rest.
pub packet_length_loop-read_loop :
    (rounds i v : ℕ) (src : List ℕ) (x : ℕ) (rest : List ℕ)
    → read_loop 32 rounds i v src ≡ ok (x, rest)
    → packet_length_loop rounds i v src ≡ ok (x, rest)
unfolding read_loop packet_length_loop
packet_length_loop-read_loop zero i v src x rest h = cc
packet_length_loop-read_loop (suc rounds) i v [] x rest h = cc
packet_length_loop-read_loop (suc rounds) i v (b ∷ src) x rest h = ground (
  arith,
  packet_length_loop-read_loop rounds (i + 7) (bit_or v (bit_and b 0x7f * 2 ^ i % 2 ^ 32)) src x
      rest,
)

read_packet_length-put_varuint32 :
    (x : ℕ) (rest : List ℕ)
    → x < 2 ^ 32
    → read_packet_length (put_varuint32 x ++ rest) ≡ ok (x, rest)
unfolding read_packet_length put_varuint32
read_packet_length-put_varuint32 x rest h =
    packet_length_loop-read_loop 5 0 0 (put_varuint32 x ++ rest) x rest
      (ground (arith, read_loop-write_loop 4 32 0 0 x rest))

-- A packet that can stand in a batch.
abbrev pub IsEntry : List ℕ → Type 0
IsEntry packet = (1 ≤ length packet) × (length packet < 2 ^ 32)

check_packet_lem :
    (check : Bool) (count : ℕ) (packet rest : List ℕ)
    → IsEntry packet
    → length packet + length rest < 2 ^ 32
    → (count < maximum_in_batch) ⊎ (check ≡ false)
    → check_packet check count (length packet) (packet ++ rest) ≡ ok tt
unfolding check_packet
check_packet_lem check count packet rest h narrow few =
    let whole : length (packet ++ rest) % 2 ^ 32 ≡ length packet + length rest =
      omega (arith, length-append packet rest) in
    rw whole (ground (arith, h.0, few))

length-put_varuint32 :
    (x : ℕ) → x < 2 ^ 32 → (1 ≤ length (put_varuint32 x)) × (length (put_varuint32 x) ≤ 5)
unfolding put_varuint32
length-put_varuint32 x h = length-write_loop 4 x (omega arith)

module _ {A : Type 0} (check : Bool) (f : List ℕ → A → Result Error A) where
  pub walk_loop_end : (rounds count : ℕ) (a : A) → walk_loop check f rounds count [] a ≡ ok a
  unfolding walk_loop
  walk_loop_end zero count a = refl
  walk_loop_end (suc rounds) count a = refl

  -- One round of the loop that goes well.
  pub walk_loop_round :
      (rounds count : ℕ) (src : List ℕ) (a : A) {len : ℕ} {rest : List ℕ} {a' : A}
      → (1 ≤ length src)
      → (read_packet_length src ≡ ok (len, rest))
      → (check_packet check count len rest ≡ ok tt)
      → (f (take len rest) a ≡ ok a')
      → walk_loop check f (suc rounds) count src a
        ≡ walk_loop check f rounds (count + 1) (drop len rest) a'
  unfolding walk_loop
  walk_loop_round rounds count [] a some_left hr hc hf = absurd (omega arith)
  walk_loop_round rounds count (b ∷ src) a some_left hr hc hf = rw (hr, hc, hf)

put_packets_cons :
    (packet : List ℕ) (packets : List (List ℕ))
    → put_packets (packet ∷ packets)
      ≡ put_varuint32 (length packet % 2 ^ 32) ++ (packet ++ put_packets packets)
unfolding put_packets
put_packets_cons packet packets = refl

-- The first packet takes a length of at least a byte, and its bytes.
length-put_packets :
    (packet : List ℕ) (packets : List (List ℕ))
    → 1 + (length packet + length (put_packets packets)) ≤ length (put_packets (packet ∷ packets))
unfolding put_packets
length-put_packets packet packets =
    let prefix = put_varuint32 (length packet % 2 ^ 32) in
    rw
      (
        put_packets_cons packet packets,
        length-append prefix (packet ++ put_packets packets),
        length-append packet (put_packets packets),
      )
      (omega (arith, (length-put_varuint32 (length packet % 2 ^ 32) (omega arith)).0))

walk_loop-put_packets :
    (check : Bool) (packets : List (List ℕ)) (rounds count : ℕ) (found : List (List ℕ))
    → All IsEntry packets
    → length (put_packets packets) ≤ rounds
    → length (put_packets packets) < 2 ^ 32
    → (count + length packets ≤ maximum_in_batch) ⊎ (check ≡ false)
    → walk_loop check collect rounds count (put_packets packets) found ≡ ok (found ++ packets)
unfolding put_packets
walk_loop-put_packets check [] rounds count found h enough narrow few =
    walk_loop_end check collect rounds count found ∙ rw (append-nil found)
walk_loop-put_packets check (packet ∷ packets) zero count found (entry, h) enough narrow few =
    absurd (omega (arith, enough, length-put_packets packet packets))
walk_loop-put_packets check (packet ∷ packets) (suc rounds) count found (entry, h) enough narrow
      few =
    let len = length packet in
    let prefix = put_varuint32 (len % 2 ^ 32) in
    let more = packet ++ put_packets packets in
    let small : len % 2 ^ 32 ≡ len = omega (arith, entry.1) in
    let size = (length-put_varuint32 (len % 2 ^ 32) (omega arith)).0 in
    let parts = length-append prefix more in
    let whole = length-put_packets packet packets in
    let round =
      walk_loop_round check collect rounds count (prefix ++ more) found (omega (arith, size, parts))
        (rw small (read_packet_length-put_varuint32 len more entry.1))
        (check_packet_lem check count packet (put_packets packets) entry
          (omega (arith, whole, narrow)) (ground (arith, few)))
        refl in
    let rest =
      walk_loop-put_packets check packets rounds (count + 1) (found ++ packet ∷ []) h
        (omega (arith, whole, enough)) (omega (arith, whole, narrow)) (ground (arith, few)) in
    let last : walk_loop check collect rounds (count + 1) (drop len more)
          (found ++ take len more ∷ [])
        ≡ ok (found ++ packet ∷ packets) =
      rw (
        take-append len packet (put_packets packets) refl,
        drop-append len packet (put_packets packets) refl,
        rest,
        append_assoc,
      ) in
    rw (put_packets_cons packet packets) (round ∙ last)

-- Non-empty packets, at most 812 of them where that is checked, are found again, all and in order,
-- in the payload that Encode's loop makes of them, if that is shorter than 2^32 bytes.
pub walk_batch-put_packets :
    (check : Bool) (packets : List (List ℕ))
    → All IsEntry packets
    → length (put_packets packets) < 2 ^ 32
    → (length packets ≤ maximum_in_batch) ⊎ (check ≡ false)
    → walk_batch check collect (put_packets packets) [] ≡ ok packets
unfolding walk_batch
walk_batch-put_packets check packets h narrow few =
    walk_loop-put_packets check packets (length (put_packets packets)) 0 [] h (omega arith) narrow
      (ground (arith, few))
