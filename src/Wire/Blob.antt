-- ===== src/Wire/Blob.antt =====
-- internal/wire/blob.go: the packed segments of a blob.
pub mod Segments
use go_firebird_driver.Prelude.{
  ℕ, zero, suc, List, [], ◌∷◌, ◌++◌, Option, none, some, length, take, drop, ltb, if◌then◌else◌,
}
use go_firebird_driver.Prelude.Bytes.{Bytes, uint16_le}

-- The loop of `unpackSegments`, on the bytes from `off` on, with fuel.
unfoldable pub unpack_loop : ℕ → Bytes → Bytes → Option Bytes
unpack_loop zero dst packed = if ltb (length packed) 2 then some dst else none
unpack_loop (suc fuel) dst packed =
    let seg_len = uint16_le packed in
    let body = drop 2 packed in
    let later = unpack_loop fuel (dst ++ take seg_len body) (drop seg_len body) in
    if ltb (length packed) 2
    then some dst
    else if ltb (length body) seg_len
    then some dst
    else later

-- `unpackSegments`: each round takes two bytes at least.
unfoldable pub unpack_segments : Bytes → Bytes → Option Bytes
unpack_segments dst packed = unpack_loop (length packed) dst packed
