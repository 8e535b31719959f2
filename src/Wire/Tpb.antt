-- ===== src/Wire/Tpb.antt =====
-- `buildTPB` of transaction.go: transaction parameter buffers.
pub mod Options
use go_firebird_driver.Prelude.{
  ℕ, Bool, true, false, List, [], ◌∷◌, ◌++◌, ◌==◌, ◌||◌, if◌then◌else◌, ◌⊎◌, inl, inr,
}
use go_firebird_driver.Prelude.Bytes.{Bytes}
use go_firebird_driver.Wire.Protocol.{
  isc_tpb_version3, isc_tpb_read_committed, isc_tpb_rec_version, isc_tpb_wait, isc_tpb_write,
  isc_tpb_read, isc_tpb_concurrency, isc_tpb_consistency,
}

-- `cachedDefaultTPB`, of the automatic transactions.
abbrev pub cached_default_tpb : Bytes
cached_default_tpb =
    isc_tpb_version3 ∷ isc_tpb_read_committed ∷ isc_tpb_rec_version ∷ isc_tpb_write ∷ isc_tpb_wait
    ∷ []

abbrev pub tpb_default_write : Bytes
tpb_default_write =
    isc_tpb_version3 ∷ isc_tpb_read_committed ∷ isc_tpb_rec_version ∷ isc_tpb_wait ∷ isc_tpb_write
    ∷ []

abbrev pub tpb_default_read : Bytes
tpb_default_read =
    isc_tpb_version3 ∷ isc_tpb_read_committed ∷ isc_tpb_rec_version ∷ isc_tpb_wait ∷ isc_tpb_read
    ∷ []

abbrev pub tpb_read_committed_write : Bytes
tpb_read_committed_write =
    isc_tpb_version3 ∷ isc_tpb_read_committed ∷ isc_tpb_rec_version ∷ isc_tpb_write ∷ []

abbrev pub tpb_read_committed_read : Bytes
tpb_read_committed_read =
    isc_tpb_version3 ∷ isc_tpb_read_committed ∷ isc_tpb_rec_version ∷ isc_tpb_read ∷ []

abbrev pub tpb_snapshot_write : Bytes
tpb_snapshot_write = isc_tpb_version3 ∷ isc_tpb_concurrency ∷ isc_tpb_write ∷ []

abbrev pub tpb_snapshot_read : Bytes
tpb_snapshot_read = isc_tpb_version3 ∷ isc_tpb_concurrency ∷ isc_tpb_read ∷ []

abbrev pub tpb_serializable_write : Bytes
tpb_serializable_write = isc_tpb_version3 ∷ isc_tpb_consistency ∷ isc_tpb_write ∷ []

abbrev pub tpb_serializable_read : Bytes
tpb_serializable_read = isc_tpb_version3 ∷ isc_tpb_consistency ∷ isc_tpb_read ∷ []

-- `driver.TxOptions`; the levels are numbered as in database/sql.
pub record TxOptions : Type 0 where
  pub isolation : ℕ
  pub read_only : Bool

-- The errors of `buildTPB`.
pub data TpbError : Type 0 where
  read_uncommitted write_committed linearizable : TpbError
  unknown_level : ℕ → TpbError

-- `buildTPB`
unfoldable pub build_tpb : TxOptions → TpbError ⊎ Bytes
build_tpb opts =
    let level = opts.isolation in
    if level == 0
    then inr (if opts.read_only then tpb_default_read else tpb_default_write)
    else if level == 2
    then inr (if opts.read_only then tpb_read_committed_read else tpb_read_committed_write)
    else if level == 4 || level == 5
    then inr (if opts.read_only then tpb_snapshot_read else tpb_snapshot_write)
    else if level == 6
    then inr (if opts.read_only then tpb_serializable_read else tpb_serializable_write)
    else if level == 1
    then inl read_uncommitted
    else if level == 3
    then inl write_committed
    else if level == 7
    then inl linearizable
    else inl (unknown_level level)
