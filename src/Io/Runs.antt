-- ===== src/Io/Runs.antt =====
-- The theorems about the Reader and the Writer at concrete inputs.
use gophertunnel.Prelude.{ℕ, List, [], ◌∷◌, true, false, ◌≡◌, refl, arith}
use gophertunnel.Prelude.Results.{ok}
use gophertunnel.Io.{Stream, Optional, Rgba, func_slice, func_slice_uint32_length, optional_func}
use gophertunnel.Io.Sim.{Sim}
use gophertunnel.Io.Reader
use gophertunnel.Io.Reader.{reader, le_get}
use gophertunnel.Io.Writer
use gophertunnel.Io.Writer.{writer}
use gophertunnel.Io.Prims.{string-Sim, uint16-Sim}
use gophertunnel.Io.Values.{
  IsU16, func_slice-Sim, func_slice_uint32_length-Sim, optional_func-Sim, rgba-Sim, be_argb-Sim,
  uuid-Sim,
}
use gophertunnel.Io.ShortReads.{uint32-short}

abbrev ports : List ℕ
ports = 19132 ∷ 19133 ∷ []

string-Sim_example : Sim 1 (Writer.string ports) (Reader.string []) ports
string-Sim_example = string-Sim ports [] (omega arith)

func_slice-Sim_example :
    Sim 1
      (func_slice writer 0 ports Writer.uint16)
      (func_slice (reader true) 0 [] Reader.uint16)
      ports
func_slice-Sim_example =
    func_slice-Sim IsU16 0 Writer.uint16 Reader.uint16 (λ v h. uint16-Sim v 0 h) true ports []
      (omega arith, (omega arith, (omega arith, tt)))

func_slice_uint32_length-Sim_example :
    Sim 1
      (func_slice_uint32_length writer 0 ports Writer.uint16)
      (func_slice_uint32_length (reader true) 0 [] Reader.uint16)
      ports
func_slice_uint32_length-Sim_example =
    func_slice_uint32_length-Sim IsU16 0 Writer.uint16 Reader.uint16 (λ v h. uint16-Sim v 0 h) true
      ports [] (omega arith, (omega arith, (omega arith, tt)))

abbrev port : Optional ℕ
port = record { set = true; val = 19132 }

optional_func-Sim_example :
    Sim 1
      (optional_func writer port Writer.uint16)
      (optional_func (reader true) (record { set = false; val = 0 }) Reader.uint16)
      port
optional_func-Sim_example =
    optional_func-Sim IsU16 0 Writer.uint16 Reader.uint16 (λ v h. uint16-Sim v 0 h) true port false
      (omega arith)

abbrev colour : Rgba
colour = record { r = 1; g = 2; b = 255; a = 128 }

abbrev black : Rgba
black = record { r = 0; g = 0; b = 0; a = 0 }

rgba-Sim_example : Sim 1 (Writer.rgba colour) (Reader.rgba black) colour
rgba-Sim_example = rgba-Sim colour black (omega arith, omega arith, omega arith, omega arith)

be_argb-Sim_example : Sim 1 (Writer.be_argb colour) (Reader.be_argb black) colour
be_argb-Sim_example = be_argb-Sim colour black (omega arith, omega arith, omega arith, omega arith)

abbrev identity : List ℕ
identity = 1 ∷ 2 ∷ 3 ∷ 4 ∷ 5 ∷ 6 ∷ 7 ∷ 8 ∷ 9 ∷ 10 ∷ 11 ∷ 12 ∷ 13 ∷ 14 ∷ 15 ∷ 16 ∷ []

uuid-Sim_example : Sim 1 (Writer.uuid identity) (Reader.uuid []) identity
uuid-Sim_example = uuid-Sim identity [] refl

-- One byte is left, and three of an earlier read fill up the number.
abbrev cut : Stream
cut = record { bytes = 1 ∷ []; buf = 9 ∷ 9 ∷ 9 ∷ 9 ∷ 0 ∷ 0 ∷ 0 ∷ 0 ∷ [] }

uint32-short_example :
    Reader.uint32 0 cut
    ≡ ok (
      le_get (1 ∷ 9 ∷ 9 ∷ 9 ∷ []),
      record { bytes = []; buf = 1 ∷ 9 ∷ 9 ∷ 9 ∷ 0 ∷ 0 ∷ 0 ∷ 0 ∷ [] },
    )
uint32-short_example = uint32-short 0 cut (omega arith) (omega arith)
