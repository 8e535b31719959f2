-- ===== src/Tests/Streams.antt =====
-- Readers over concrete bytes, and connections over them.
use go_firebird_driver.Prelude.{
  ℕ, ◌<◌, refl, arith, true, List, [], ◌∷◌, none, length, replicate, append-nil,
}
use go_firebird_driver.Prelude.Bytes.{Bytes}
use go_firebird_driver.Wire.Writer.{new_writer}
use go_firebird_driver.Wire.Writer.Contents.{new_writer-IsValid}
use go_firebird_driver.Wire.Reader.{Reader}
use go_firebird_driver.Wire.Reader.Filling.{Holds}
use go_firebird_driver.Wire.Connection.{WireConnection}
use go_firebird_driver.Wire.Connection.Steps.{IsFlushed}

-- A small window, and one answer with all the bytes.
abbrev pub reader_of : Bytes → Reader
reader_of bs = record {
  rd = record { sent = bs; failure = none } ∷ [];
  err = none;
  buf = replicate 8 0;
  start = 0;
  end = 0;
}

pub reader_of-Holds : (bs : Bytes) → 0 < length bs → Holds (reader_of bs) bs
reader_of-Holds bs h = record {
  valid = record { ordered = omega arith; within = omega arith };
  clear = refl;
  healthy = ((h, refl), tt);
  left = append-nil bs;
}

-- A connection with lazy send, `n` responses due and these pooled handles.
abbrev pub connection_of : Bytes → ℕ → List ℕ → WireConnection
connection_of bs n handles = record {
  reader = reader_of bs;
  writer = new_writer;
  write_results = [];
  sent = [];
  db_handle = 0;
  lazy_send = true;
  deferred_count = n;
  free_handles = handles;
}

pub connection_of-IsFlushed :
    (bs : Bytes) (n : ℕ) (handles : List ℕ) → IsFlushed (connection_of bs n handles)
connection_of-IsFlushed bs n handles = record {
  valid = new_writer-IsValid.0;
  empty = new_writer-IsValid.1;
  healthy = tt;
}
