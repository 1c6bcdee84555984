-- ===== src/Io/ShortReads.antt =====
-- minecraft/protocol/reader_little_endian.go: the fixed-width integers at the end of the source.
use gophertunnel.Prelude.{
  ℕ, ◌≤◌, ◌<◌, [], ◌++◌, length, take, drop, take_all, drop_all, ◌≡◌, refl, arith, ◌==◌, false,
}
use gophertunnel.Prelude.Results.{ok}
use gophertunnel.Io.{Stream, ◌>>=◌}
use gophertunnel.Io.Reader.{le_get, read_fixed, uint32}

read_fixed_short :
    (n : ℕ) (s : Stream)
    → 1 ≤ length s.bytes
    → length s.bytes ≤ n
    → let buf = s.bytes ++ drop (length s.bytes) s.buf in
      read_fixed n s ≡ ok (take n buf, record { bytes = []; buf = buf })
unfolding read_fixed
read_fixed_short n s some_left short =
    let not_empty : (length s.bytes == 0) ≡ false = ground arith in
    rw (read_fixed, take_all n s.bytes short, drop_all n s.bytes short, not_empty) refl

-- A source that ends 1 to 3 bytes into a uint32 is not an error: the Reader takes what is left and
-- fills up the number with bytes of an earlier read.
pub uint32-short :
    (x : ℕ) (s : Stream)
    → 1 ≤ length s.bytes
    → length s.bytes < 4
    → let buf = s.bytes ++ drop (length s.bytes) s.buf in
      uint32 x s ≡ ok (le_get (take 4 buf), record { bytes = []; buf = buf })
unfolding uint32
uint32-short x s some_left short = rw (◌>>=◌, read_fixed_short 4 s some_left (omega arith)) refl
