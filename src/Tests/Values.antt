-- ===== src/Tests/Values.antt =====
-- Scaled integers, times, segments and the description cache on concrete values.
use go_firebird_driver.Prelude.{
  ◌≡◌, refl, arith, List, [], ◌∷◌, ◌++◌, none, some, length, length-replicate, take, ◌==◌, ◌&&◌,
  if◌then◌else◌,
}
use go_firebird_driver.Prelude.Int.{negsuc}
use go_firebird_driver.Prelude.Bytes.{Bytes, codes, equal, le16}
use go_firebird_driver.Wire.DateTime.{Clock, time_to_ticks, ticks_to_time}
use go_firebird_driver.Wire.DateTime.Ticks.{to_tick, ticks_to_time-time_to_ticks}
use go_firebird_driver.Wire.Numeric.{scale_integral_int64}
use go_firebird_driver.Wire.Numeric.Scale.{in_int64, scaled, scale_integral_int64-scaled}
use go_firebird_driver.Wire.Blob.{unpack_segments}
use go_firebird_driver.Wire.Blob.Segments.{packed, joined, unpack_segments-packed}
use go_firebird_driver.Driver.DescCache.{
  Description, blank_entry, new_desc_cache, desc_cache_slots, desc_cache_index, desc_cache_lookup,
  desc_cache_store, desc_cache_lookup-store,
}

abbrev afternoon : Clock
afternoon = record { hour = 15; minute = 4; second = 5; nanosecond = 123456789 }

ticks_to_time-time_to_ticks_example : ticks_to_time (time_to_ticks afternoon) ≡ to_tick afternoon
ticks_to_time-time_to_ticks_example = ticks_to_time-time_to_ticks afternoon (record {
  hours = omega arith;
  minutes = omega arith;
  seconds = omega arith;
  nanoseconds = omega arith;
})

-- -123 with two decimal places
scale_integral_int64-scaled_example :
    scale_integral_int64 (negsuc 122) (negsuc 1)
    ≡ (if in_int64 (scaled 2 (negsuc 122)) then some (scaled 2 (negsuc 122)) else none)
scale_integral_int64-scaled_example = scale_integral_int64-scaled (negsuc 122) (negsuc 1) refl

abbrev segments : List Bytes
segments = codes "ab" ∷ [] ∷ codes "c" ∷ []

unpack_segments-packed_example :
    unpack_segments (codes "x") (packed segments ++ take 3 (le16 2 ++ codes "de"))
    ≡ some (codes "x" ++ joined segments)
unpack_segments-packed_example =
    unpack_segments-packed (codes "x") segments 3 (codes "de")
      (omega arith, (omega arith, (omega arith, tt))) (omega arith) (omega arith)

abbrev described : Description
described = record { stmt_type = 1; outputs = []; inputs = [] }

new_desc_cache-length : length new_desc_cache ≡ desc_cache_slots
new_desc_cache-length = length-replicate desc_cache_slots blank_entry

desc_cache_lookup-store_example :
    desc_cache_lookup
      (desc_cache_store new_desc_cache (codes "select 1") (7 ∷ []) described)
      (codes "select 2")
      (7 ∷ [])
    ≡ (if desc_cache_index (codes "select 1") == desc_cache_index (codes "select 2")
        then (if equal (codes "select 1") (codes "select 2") && equal (7 ∷ []) (7 ∷ [])
            then some described
            else none)
        else desc_cache_lookup new_desc_cache (codes "select 2") (7 ∷ []))
desc_cache_lookup-store_example =
    desc_cache_lookup-store new_desc_cache (codes "select 1") (7 ∷ []) (codes "select 2") (7 ∷ [])
      described new_desc_cache-length
