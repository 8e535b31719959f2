-- ===== src/Wire/Dpb.antt =====
-- internal/wire/dpb.go: the builder of database parameter buffers, and `buildConnectDPB` of
-- internal/wire/handshake.go. A Go string is the list of its bytes.
pub mod Decode
pub mod Connect
use go_firebird_driver.Prelude.{◌/◌, ◌^◌, ℕ, List, [], ◌∷◌, ◌++◌, length, take}
use go_firebird_driver.Prelude.Bytes.{Bytes, byte}
use go_firebird_driver.Wire.Protocol.{isc_dpb_version2}

-- `DPBBuilder`
pub record DpbBuilder : Type 0 where
  pub buf : Bytes

-- `NewDPBBuilder`
pub new_dpb_builder : DpbBuilder
new_dpb_builder = record { buf = isc_dpb_version2 ∷ [] }

-- `Reset`: `b.buf = b.buf[:1]; b.buf[0] = IscDpbVersion2`
pub reset : DpbBuilder → DpbBuilder
reset b = record { buf = set_first (take 1 b.buf) }
  where
    set_first : Bytes → Bytes
    set_first [] = []
    set_first (x ∷ xs) = isc_dpb_version2 ∷ xs

-- `tag, byte(n), byte(n>>8), byte(n>>16), byte(n>>24)`
abbrev pub tag_and_length : ℕ → ℕ → Bytes
tag_and_length tag n = tag ∷ byte n ∷ byte (n / 2 ^ 8) ∷ byte (n / 2 ^ 16) ∷ byte (n / 2 ^ 24) ∷ []

-- `WriteString`
pub write_string : DpbBuilder → ℕ → Bytes → DpbBuilder
write_string b tag value = record { buf = (b.buf ++ tag_and_length tag (length value)) ++ value }

-- `WriteMarker`
pub write_marker : DpbBuilder → ℕ → DpbBuilder
write_marker b tag = record { buf = b.buf ++ (tag ∷ 0 ∷ 0 ∷ 0 ∷ 0 ∷ []) }

-- `WriteByteTag`
pub write_byte_tag : DpbBuilder → ℕ → ℕ → DpbBuilder
write_byte_tag b tag value = record { buf = b.buf ++ (tag ∷ 1 ∷ 0 ∷ 0 ∷ 0 ∷ value ∷ []) }

-- `WriteBytes`
pub write_bytes : DpbBuilder → ℕ → Bytes → DpbBuilder
write_bytes b tag value = record { buf = (b.buf ++ tag_and_length tag (length value)) ++ value }

-- `Bytes`
pub bytes : DpbBuilder → Bytes
bytes b = b.buf

-- The calls that a client makes on a builder, one after the other.
pub data Call : Type 0 where
  string : ℕ → Bytes → Call
  marker : ℕ → Call
  byte_tag : ℕ → ℕ → Call
  raw : ℕ → Bytes → Call

abbrev pub call : Call → DpbBuilder → DpbBuilder
call (string tag value) b = write_string b tag value
call (marker tag) b = write_marker b tag
call (byte_tag tag value) b = write_byte_tag b tag value
call (raw tag value) b = write_bytes b tag value

pub calls : List Call → DpbBuilder → DpbBuilder
calls [] b = b
calls (c ∷ cs) b = calls cs (call c b)
