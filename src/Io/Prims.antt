-- ===== src/Io/Prims.antt =====
-- Each method of the interface: the Reader's takes back what the Writer's wrote, whatever stood at
-- the Reader's pointer before.
use gophertunnel.Prelude.{
  ℕ, zero, suc, ◌/◌, ◌^◌, ◌≤◌, ◌<◌, List, [], ◌∷◌, ◌++◌, ◌≡◌, refl, ap, ◌∙◌, arith, length,
  append_assoc, length-append, Bool, reverse, drop, take-append, drop-append, length-reverse,
  if◌then◌else◌,
}
use gophertunnel.Prelude.Results.{Result, ok}
use gophertunnel.Errors.{Error}
use gophertunnel.Io.{◌>>=◌, pure, Vec3, Vec2, BlockPos, ChunkPos, SubChunkPos}
use gophertunnel.Io.Sim.{Sim, step, done}
use gophertunnel.Io.Reader
use gophertunnel.Io.Reader.{le_get, read_fixed, read_full, read_byte, on_bytes}
use gophertunnel.Io.Writer
use gophertunnel.Io.Writer.{le_put, emit}
use gophertunnel.Varint
use gophertunnel.Varint.RoundTrip
use gophertunnel.Varint.Write
use mathlib.Core.List.{reverse-reverse}
use native.Mathlib.Nat.{pow-suc, mod-eq_of_lt}

pub length-le_put : (n x : ℕ) → length (le_put n x) ≡ n
unfolding le_put
length-le_put zero x = refl
length-le_put (suc n) x = ap suc (length-le_put n (x / 256))

pub le_get-le_put : (n x : ℕ) → x < 256 ^ n → le_get (le_put n x) ≡ x
unfolding le_put le_get
le_get-le_put zero x h = omega arith
le_get-le_put (suc n) x h = omega (arith, le_get-le_put n (x / 256) (omega (arith, pow-suc 256 n)))

read_fixed_front :
    (n : ℕ) (bs rest buf : List ℕ)
    → length bs ≡ suc n
    → (buf' : List ℕ) × (read_fixed (suc n) (record { bytes = bs ++ rest; buf = buf })
        ≡ ok (bs, record { bytes = rest; buf = buf' }))
unfolding read_fixed
read_fixed_front n bs rest buf h = (
  bs ++ drop (length bs) buf,
  rw (take-append (suc n) bs rest h, drop-append (suc n) bs rest h)
      (ground (arith, length-append bs rest, take-append (suc n) bs (drop (length bs) buf) h)),
)

pub read_full_front :
    (n : ℕ) (bs rest buf : List ℕ)
    → length bs ≡ n
    → read_full n (record { bytes = bs ++ rest; buf = buf })
      ≡ ok (bs, record { bytes = rest; buf = buf })
unfolding read_full
read_full_front n bs rest buf h =
    ground (arith, take-append n bs rest h, drop-append n bs rest h, length-append bs rest)

-- A number of `n` bytes, in either byte order.
fixed-Sim :
    (n x : ℕ)
    → x < 256 ^ suc n
    → Sim 1 (emit (le_put (suc n) x) x) (read_fixed (suc n) >>= λ b. pure (le_get b)) x
fixed-Sim n x h = record {
  emitted = le_put (suc n) x;
  enough = omega (arith, length-le_put (suc n) x);
  writes = λ s. refl;
  reads = λ rest buf.
      let (buf', e) = read_fixed_front n (le_put (suc n) x) rest buf (length-le_put (suc n) x) in
      (buf', rw (◌>>=◌, e, le_get-le_put (suc n) x h));
}

pub uint16-Sim : (x x' : ℕ) → x < 2 ^ 16 → Sim 1 (Writer.uint16 x) (Reader.uint16 x') x
unfolding Writer.uint16 Reader.uint16
uint16-Sim x x' h = fixed-Sim 1 x h

pub uint32-Sim : (x x' : ℕ) → x < 2 ^ 32 → Sim 1 (Writer.uint32 x) (Reader.uint32 x') x
unfolding Writer.uint32 Reader.uint32
uint32-Sim x x' h = fixed-Sim 3 x h

pub uint64-Sim : (x x' : ℕ) → x < 2 ^ 64 → Sim 1 (Writer.uint64 x) (Reader.uint64 x') x
unfolding Writer.uint64 Reader.uint64
uint64-Sim x x' h = fixed-Sim 7 x h

pub int16-Sim : (x x' : ℕ) → x < 2 ^ 16 → Sim 1 (Writer.int16 x) (Reader.int16 x') x
unfolding Writer.int16 Reader.int16
int16-Sim x x' h = uint16-Sim x x' h

pub int32-Sim : (x x' : ℕ) → x < 2 ^ 32 → Sim 1 (Writer.int32 x) (Reader.int32 x') x
unfolding Writer.int32 Reader.int32
int32-Sim x x' h = uint32-Sim x x' h

pub int64-Sim : (x x' : ℕ) → x < 2 ^ 64 → Sim 1 (Writer.int64 x) (Reader.int64 x') x
unfolding Writer.int64 Reader.int64
int64-Sim x x' h = uint64-Sim x x' h

pub float32-Sim : (x x' : ℕ) → x < 2 ^ 32 → Sim 1 (Writer.float32 x) (Reader.float32 x') x
unfolding Writer.float32 Reader.float32
float32-Sim x x' h = uint32-Sim x x' h

pub float64-Sim : (x x' : ℕ) → x < 2 ^ 64 → Sim 1 (Writer.float64 x) (Reader.float64 x') x
unfolding Writer.float64 Reader.float64
float64-Sim x x' h = uint64-Sim x x' h

pub be_int32-Sim : (x x' : ℕ) → x < 2 ^ 32 → Sim 1 (Writer.be_int32 x) (Reader.be_int32 x') x
unfolding Writer.be_int32 Reader.be_int32
be_int32-Sim x x' h = record {
  emitted = reverse (le_put 4 x);
  enough = omega (arith, length-be);
  writes = λ s. refl;
  reads = λ rest buf.
      let (buf', e) = read_fixed_front 3 (reverse (le_put 4 x)) rest buf length-be in
      (buf', rw (◌>>=◌, e, reverse-reverse (le_put 4 x), le_get-le_put 4 x h));
}
  where
    length-be : length (reverse (le_put 4 x)) ≡ 4
    length-be = length-reverse (le_put 4 x) ∙ length-le_put 4 x

pub uint8-Sim : (x x' : ℕ) → Sim 1 (Writer.uint8 x) (Reader.uint8 x') x
unfolding Writer.uint8 Reader.uint8 read_byte
uint8-Sim x x' = record {
  emitted = x ∷ [];
  enough = omega arith;
  writes = λ s. refl;
  reads = λ rest buf. (buf, refl);
}

pub int8-Sim : (x x' : ℕ) → Sim 1 (Writer.int8 x) (Reader.int8 x') x
unfolding Writer.int8 Reader.int8
int8-Sim x x' = uint8-Sim x x'

pub bool-Sim : (x x' : Bool) → Sim 1 (Writer.bool x) (Reader.bool x') x
unfolding Writer.bool Reader.bool read_byte
bool-Sim x x' = record {
  emitted = (if x then 1 else 0) ∷ [];
  enough = omega arith;
  writes = λ s. refl;
  reads = λ rest buf. (buf, ground arith);
}

-- A value written as `bs` and read by a function over the bytes that are left.
on_bytes-Sim :
    {A : Type 0} (bs : List ℕ) (a : A) (f : List ℕ → Result Error (A × List ℕ))
    → 1 ≤ length bs
    → ((rest : List ℕ) → f (bs ++ rest) ≡ ok (a, rest))
    → Sim 1 (emit bs a) (on_bytes f) a
on_bytes-Sim bs a f h e = record {
  emitted = bs;
  enough = h;
  writes = λ s. refl;
  reads = λ rest buf. (buf, rw (on_bytes, e rest));
}

pub varuint32-Sim : (x x' : ℕ) → x < 2 ^ 32 → Sim 1 (Writer.varuint32 x) (Reader.varuint32 x') x
unfolding Writer.varuint32 Reader.varuint32
varuint32-Sim x x' h =
    on_bytes-Sim (Varint.write_varuint32 x) x Varint.varuint32 (Write.write_varuint32_shape x h).0
      (λ rest. RoundTrip.varuint32-write_varuint32 x rest h)

pub varuint64-Sim : (x x' : ℕ) → x < 2 ^ 64 → Sim 1 (Writer.varuint64 x) (Reader.varuint64 x') x
unfolding Writer.varuint64 Reader.varuint64
varuint64-Sim x x' h =
    on_bytes-Sim (Varint.write_varuint64 x) x Varint.varuint64 (Write.write_varuint64_shape x h).0
      (λ rest. RoundTrip.varuint64-write_varuint64 x rest h)

pub varint32-Sim : (x x' : ℕ) → x < 2 ^ 32 → Sim 1 (Writer.varint32 x) (Reader.varint32 x') x
unfolding Writer.varint32 Reader.varint32
varint32-Sim x x' h =
    on_bytes-Sim (Varint.write_varint32 x) x Varint.varint32
      (unfold Varint.write_varint32 in (Write.write_varuint32_shape _ (RoundTrip.zigzag32-lt x)).0)
      (λ rest. RoundTrip.varint32-write_varint32 x rest h)

pub varint64-Sim : (x x' : ℕ) → x < 2 ^ 64 → Sim 1 (Writer.varint64 x) (Reader.varint64 x') x
unfolding Writer.varint64 Reader.varint64
varint64-Sim x x' h =
    on_bytes-Sim (Varint.write_varint64 x) x Varint.varint64
      (unfold Varint.write_varint64 in (Write.write_varuint64_shape _ (RoundTrip.zigzag64-lt x)).0)
      (λ rest. RoundTrip.varint64-write_varint64 x rest h)

varuint32_front :
    (x x' : ℕ) (rest buf : List ℕ)
    → x < 2 ^ 32
    → Reader.varuint32 x' (record { bytes = Varint.write_varuint32 x ++ rest; buf = buf })
      ≡ ok (x, record { bytes = rest; buf = buf })
unfolding Reader.varuint32
varuint32_front x x' rest buf h = rw (on_bytes, RoundTrip.varuint32-write_varuint32 x rest h)

-- A length and the bytes themselves.
string_reads :
    (x x' rest buf : List ℕ)
    → length x < 2 ^ 31
    → Reader.string x'
        (record { bytes = Varint.write_varuint32 (length x) ++ (x ++ rest); buf = buf })
      ≡ ok (x, record { bytes = rest; buf = buf })
unfolding Reader.string Reader.check_remaining
string_reads x x' rest buf h =
    rw (◌>>=◌, varuint32_front (length x) 0 (x ++ rest) buf (omega arith))
      (ground (arith, length-append x rest, read_full_front (length x) x rest buf refl))

-- A string shorter than 2^31 bytes is read back as it was written, taking exactly the bytes
-- written.
pub string-Sim : (x x' : List ℕ) → length x < 2 ^ 31 → Sim 1 (Writer.string x) (Reader.string x') x
unfolding Writer.string Writer.varuint32
string-Sim x x' h =
    let small : length x < 2 ^ 32 = omega arith in
    record {
      emitted = Varint.write_varuint32 (length x) ++ x;
      enough = omega (
        arith,
        length-append (Varint.write_varuint32 (length x)) x,
        (Write.write_varuint32_shape (length x) small).0,
      );
      writes = λ s. rw (mod-eq_of_lt small, append_assoc);
      reads = λ rest buf. (buf, rw append_assoc (string_reads x x' rest buf h));
    }

pub byte_slice-Sim :
    (x x' : List ℕ) → length x < 2 ^ 31 → Sim 1 (Writer.byte_slice x) (Reader.byte_slice x') x
unfolding Writer.byte_slice Reader.byte_slice Writer.string
byte_slice-Sim x x' h = string-Sim x x' h

pub vec3-Sim :
    (v v' : Vec3)
    → (v.x < 2 ^ 32) × (v.y < 2 ^ 32) × (v.z < 2 ^ 32)
    → Sim 1 (Writer.vec3 v) (Reader.vec3 v') v
unfolding Writer.vec3 Reader.vec3
vec3-Sim v v' (hx, hy, hz) =
    step _ _ (float32-Sim _ _ hx)
      (step _ _ (float32-Sim _ _ hy) (step _ _ (float32-Sim _ _ hz) done))

pub vec2-Sim :
    (v v' : Vec2) → (v.x < 2 ^ 32) × (v.y < 2 ^ 32) → Sim 1 (Writer.vec2 v) (Reader.vec2 v') v
unfolding Writer.vec2 Reader.vec2
vec2-Sim v v' (hx, hy) = step _ _ (float32-Sim _ _ hx) (step _ _ (float32-Sim _ _ hy) done)

pub block_pos-Sim :
    (p p' : BlockPos)
    → (p.x < 2 ^ 32) × (p.y < 2 ^ 32) × (p.z < 2 ^ 32)
    → Sim 1 (Writer.block_pos p) (Reader.block_pos p') p
unfolding Writer.block_pos Reader.block_pos
block_pos-Sim p p' (hx, hy, hz) =
    step _ _ (varint32-Sim _ _ hx)
      (step _ _ (varint32-Sim _ _ hy) (step _ _ (varint32-Sim _ _ hz) done))

pub chunk_pos-Sim :
    (p p' : ChunkPos)
    → (p.x < 2 ^ 32) × (p.z < 2 ^ 32)
    → Sim 1 (Writer.chunk_pos p) (Reader.chunk_pos p') p
unfolding Writer.chunk_pos Reader.chunk_pos
chunk_pos-Sim p p' (hx, hz) = step _ _ (varint32-Sim _ _ hx) (step _ _ (varint32-Sim _ _ hz) done)

pub sub_chunk_pos-Sim :
    (p p' : SubChunkPos)
    → (p.x < 2 ^ 32) × (p.y < 2 ^ 32) × (p.z < 2 ^ 32)
    → Sim 1 (Writer.sub_chunk_pos p) (Reader.sub_chunk_pos p') p
unfolding Writer.sub_chunk_pos Reader.sub_chunk_pos
sub_chunk_pos-Sim p p' (hx, hy, hz) =
    step _ _ (int32-Sim _ _ hx) (step _ _ (int32-Sim _ _ hy) (step _ _ (int32-Sim _ _ hz) done))
