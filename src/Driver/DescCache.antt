-- ===== src/Driver/DescCache.antt =====
-- connection.go: the cache of parsed statement descriptions, one entry a slot.
use go_firebird_driver.Prelude.{
  ℕ, ◌*◌, ◌%◌, ◌^◌, ◌<◌, ◌≡◌, ◌≢◌, refl, ◌&&◌, List, [], ◌∷◌, Option, none, some, bit_xor, arith,
  length, get_or, set, get_or-set, get_or-set_other, replicate, ◌==◌, if◌then◌else◌, Bool-cases,
  inl, inr,
}
use go_firebird_driver.Prelude.Bytes.{Bytes, equal}
use go_firebird_driver.Wire.Info.{ColumnDescriptor}

abbrev pub desc_cache_slots : ℕ
desc_cache_slots = 32

-- What a description is parsed into: the statement type, the outputs and the inputs.
pub record Description : Type 0 where
  pub stmt_type : ℕ
  pub outputs : List ColumnDescriptor
  pub inputs : List ColumnDescriptor

-- `descCacheEntry`
pub record DescCacheEntry : Type 0 where
  pub query : Bytes
  pub info : Bytes
  pub parsed : Description

-- `descCacheEntry{}`
abbrev pub blank_entry : DescCacheEntry
blank_entry = record {
  query = [];
  info = [];
  parsed = record { stmt_type = 0; outputs = []; inputs = [] };
}

-- The field `descCache` of a new connection.
abbrev pub new_desc_cache : List DescCacheEntry
new_desc_cache = replicate desc_cache_slots blank_entry

-- The loop of `descCacheIndex`, FNV-1a in 32 bits.
unfoldable pub fnv_loop : Bytes → ℕ → ℕ
fnv_loop [] h = h
fnv_loop (b ∷ bs) h = fnv_loop bs (bit_xor h b * 16777619 % 2 ^ 32)

-- `descCacheIndex`: the mask takes the low five bits.
unfoldable pub desc_cache_index : Bytes → ℕ
desc_cache_index query = fnv_loop query 2166136261 % desc_cache_slots

-- `descCacheLookup`
unfoldable pub desc_cache_lookup : List DescCacheEntry → Bytes → Bytes → Option Description
desc_cache_lookup cache query info =
    let e = get_or cache (desc_cache_index query) blank_entry in
    if equal e.query query && equal e.info info then some e.parsed else none

-- `descCacheStore`
unfoldable pub desc_cache_store :
    List DescCacheEntry → Bytes → Bytes → Description → List DescCacheEntry
desc_cache_store cache query info parsed =
    set cache (desc_cache_index query) (record { query = query; info = info; parsed = parsed })

desc_cache_index-bound : (query : Bytes) → desc_cache_index query < desc_cache_slots
unfolding desc_cache_index
desc_cache_index-bound query = omega arith

slot_after_store :
    (cache : List DescCacheEntry) (q i : Bytes) (p : Description)
    → length cache ≡ desc_cache_slots
    → get_or (desc_cache_store cache q i p) (desc_cache_index q) blank_entry
      ≡ record { query = q; info = i; parsed = p }
unfolding desc_cache_store
slot_after_store cache q i p l =
    get_or-set cache (desc_cache_index q) (record { query = q; info = i; parsed = p }) blank_entry
      (omega (arith, desc_cache_index-bound q))

other_slot_after_store :
    (cache : List DescCacheEntry) (q i q' : Bytes) (p : Description)
    → desc_cache_index q ≢ desc_cache_index q'
    → get_or (desc_cache_store cache q i p) (desc_cache_index q') blank_entry
      ≡ get_or cache (desc_cache_index q') blank_entry
unfolding desc_cache_store
other_slot_after_store cache q i q' p other =
    get_or-set_other cache (desc_cache_index q) (desc_cache_index q')
      (record { query = q; info = i; parsed = p }) blank_entry other

-- Looking up any query after a store, in a cache with all its slots: the stored description is
-- found under its own query and describe bytes and under nothing else of its slot, and every
-- other slot answers as before.
pub desc_cache_lookup-store :
    (cache : List DescCacheEntry) (q i q' i' : Bytes) (p : Description)
    → length cache ≡ desc_cache_slots
    → desc_cache_lookup (desc_cache_store cache q i p) q' i' ≡ (
        if desc_cache_index q == desc_cache_index q'
        then (if equal q q' && equal i i' then some p else none)
        else desc_cache_lookup cache q' i')
unfolding desc_cache_lookup
desc_cache_lookup-store cache q i q' i' p l =
    elim (Bool-cases (desc_cache_index q == desc_cache_index q')) [
      | inl y ↦
          let same : desc_cache_index q ≡ desc_cache_index q' = ground (arith, y) in
          rw y (rw (← same) (rw (slot_after_store cache q i p l) refl))
      | inr n ↦
          let other : desc_cache_index q ≢ desc_cache_index q' = ground (arith, n) in
          rw n (rw (other_slot_after_store cache q i q' p other) refl)
    ]
