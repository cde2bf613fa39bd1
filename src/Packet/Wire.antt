-- ===== src/Packet/Wire.antt =====
-- The format of a packet on the wire: what the sender is to produce and the receiver to accept,
-- written without reference to either.
use p2purr.Base.{ℕ, ◌+◌, ◌-◌, ◌^◌, ◌<◌, ◌≡◌, List, ◌∷◌, ◌++◌, arith, length, length-append}
use p2purr.Serializer.Bytes.{IsByte, be_bytes}

-- A packet's description and payload.
pub record Message : Type 0 where
  pub type : ℕ
  pub charset : ℕ
  pub encoding : ℕ
  pub encryption : ℕ
  pub compression : ℕ
  pub body : List ℕ

-- The start symbol, the length 9 of what follows it in the header, five bytes, and the length of the
-- payload in four.
abbrev pub wire_header : Message → List ℕ
wire_header m =
    0xFF
    ∷ 0
    ∷ 9
    ∷ m.type
    ∷ m.charset
    ∷ m.encoding
    ∷ m.encryption
    ∷ m.compression
    ∷ be_bytes 4 (length m.body)

abbrev pub wire : Message → List ℕ
wire m = wire_header m ++ m.body

-- The fields are bytes, and header and payload together are at most as long as the program can
-- allocate with a terminator.
pub record IsMessage (m : Message) : Type 0 where
  pub type_byte : IsByte m.type
  pub charset_byte : IsByte m.charset
  pub encoding_byte : IsByte m.encoding
  pub encryption_byte : IsByte m.encryption
  pub compression_byte : IsByte m.compression
  pub fits : 12 + length m.body < 2 ^ 31 - 1

pub length-wire : (m : Message) → length (wire m) ≡ 12 + length m.body
length-wire m = omega (arith, length-append (wire_header m) m.body)
