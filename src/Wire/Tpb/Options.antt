-- ===== src/Wire/Tpb/Options.antt =====
-- What a transaction parameter buffer asks for, and that `buildTPB` asks for what its options say.
use go_firebird_driver.Prelude.{
  ℕ, ◌≡◌, arith, Bool, true, false, List, [], ◌∷◌, Option, none, some, ◌==◌, ◌||◌, if◌then◌else◌,
  ◌⊎◌, inl, inr,
}
use go_firebird_driver.Prelude.Bytes.{Bytes}
use go_firebird_driver.Wire.Protocol.{
  isc_tpb_version3, isc_tpb_read_committed, isc_tpb_rec_version, isc_tpb_wait, isc_tpb_write,
  isc_tpb_read, isc_tpb_concurrency, isc_tpb_consistency,
}
use go_firebird_driver.Wire.Tpb.{TxOptions, TpbError, build_tpb}

-- The isolation levels of the server.
pub data Isolation : Type 0 where
  committed snapshot table_stability : Isolation

-- What a buffer asks for.
pub record Asked : Type 0 where
  pub isolation : Isolation
  pub rec_version : Bool
  pub read_only : Bool

-- The server's reading of one more tag. The last one of its kind counts; waiting is the default.
unfoldable pub ask_tag : ℕ → Asked → Option Asked
ask_tag tag a =
    if tag == isc_tpb_read_committed
    then some (record a { isolation = committed })
    else if tag == isc_tpb_concurrency
    then some (record a { isolation = snapshot })
    else if tag == isc_tpb_consistency
    then some (record a { isolation = table_stability })
    else if tag == isc_tpb_rec_version
    then some (record a { rec_version = true })
    else if tag == isc_tpb_read
    then some (record a { read_only = true })
    else if tag == isc_tpb_write
    then some (record a { read_only = false })
    else if tag == isc_tpb_wait
    then some a
    else none

unfoldable pub ask_tags : List ℕ → Asked → Option Asked
ask_tags [] a = some a
ask_tags (t ∷ ts) a = elim (ask_tag t a) [ none ↦ none | some b ↦ ask_tags ts b ]

-- A whole buffer of version 3; a snapshot that may write is the server's default.
unfoldable pub asked : Bytes → Option Asked
asked [] = none
asked (v ∷ ts) =
    if v == isc_tpb_version3
    then ask_tags ts (record { isolation = snapshot; rec_version = false; read_only = false })
    else none

-- The server's level for a level of database/sql, where it has one that is not weaker.
unfoldable pub level_of : ℕ → Option Isolation
level_of level =
    if level == 0 || level == 2
    then some committed
    else if level == 4 || level == 5
    then some snapshot
    else if level == 6
    then some table_stability
    else none

abbrev pub is_committed : Isolation → Bool
is_committed committed = true
is_committed _ = false

-- What comes of options: an error, a buffer that the server cannot read, or one that it reads.
pub data Meaning : Type 0 where
  refused unreadable : Meaning
  asks : Asked → Meaning

abbrev pub meaning : TpbError ⊎ Bytes → Meaning
meaning (inl e) = refused
meaning (inr tpb) = elim (asked tpb) [ none ↦ unreadable | some a ↦ asks a ]

-- For the default level, read committed, repeatable read, snapshot and serializable there is a
-- buffer that the server can read, which asks for its level that is not weaker, with record
-- versions for read committed alone, and for read-only access exactly where the options say so;
-- every other level is an error, and no buffer.
pub build_tpb-asked :
    (opts : TxOptions)
    → meaning (build_tpb opts) ≡ (elim (level_of opts.isolation) [
      | none ↦ refused
      | some l ↦
          asks (record { isolation = l; rec_version = is_committed l; read_only = opts.read_only })
    ])
unfolding build_tpb asked ask_tags ask_tag level_of
build_tpb-asked opts = ground arith
