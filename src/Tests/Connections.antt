-- ===== src/Tests/Connections.antt =====
-- Operations of a connection on concrete streams.
use go_firebird_driver.Prelude.{
  Bool, ◌+◌, ◌≤◌, ◌≡◌, refl, arith, true, false, List, [], ◌∷◌, ◌++◌, none, inl, length,
}
use go_firebird_driver.Prelude.Bytes.{Bytes, codes}
use go_firebird_driver.Wire.Protocol.{op_commit}
use go_firebird_driver.Wire.Writer.Contents.{int32, encoded_all}
use go_firebird_driver.Wire.Status.{text}
use go_firebird_driver.Wire.Status.Entries.{Entry, entry_args}
use go_firebird_driver.Wire.Reader.Decode.{dummies}
use go_firebird_driver.Wire.Response.Message.{Message, message_then, IsMessage, is_refusal}
use go_firebird_driver.Wire.Connection.{
  WireConnection, commit, request, response_failed, allocate_fresh, allocate_and_prepare_with_items,
  recycle_statement, drain_statement_pool, max_free_handles,
}
use go_firebird_driver.Wire.Connection.Steps.{
  messages_then, IsDue, IsFlushed, first_refusal, still_due, refused_by,
}
use go_firebird_driver.Wire.Connection.Prepares.{allocate_bytes}
use go_firebird_driver.Wire.Connection.Requests.{result_of, request_in_step, allocate_fresh-granted}
use go_firebird_driver.Wire.Connection.Refused.{request_after_refusal}
use go_firebird_driver.Wire.Connection.Pool.{
  Reused, recycle-prepare, recycle_statement-bound, drop_requests, drain_statement_pool-lazy,
}
use go_firebird_driver.Wire.Connection.{OpError, rollback}
use go_firebird_driver.Wire.Tpb.{TxOptions}
use go_firebird_driver.Driver.Conn.{Conn, begin_tx, statement_tx, rollback_tx, finish}
use go_firebird_driver.Driver.Conn.Lifecycle.{IsValid, Step, Steps, Steps-IsValid, finish-again}
use go_firebird_driver.Tests.Streams.{connection_of, connection_of-IsFlushed, reader_of-Holds}

-- A success with a handle and data, and a refusal.
abbrev granted : Message
granted = record { keep_alives = 0; handle = 5; blob_id = 0; payload = 21 ∷ 4 ∷ []; entries = [] }

abbrev failure : Entry
failure = record {
  is_warning = false;
  code = 335544665;
  params = text (codes "INTEG_1") ∷ [];
  state = codes "23000";
}

abbrev refusing : Message
refusing = record { keep_alives = 1; handle = 0; blob_id = 0; payload = []; entries = failure ∷ [] }

granted-IsMessage : IsMessage granted
granted-IsMessage = (omega arith, omega arith, omega arith, tt)

refusing-IsMessage : IsMessage refusing
unfolding entry_args
refusing-IsMessage = (
  omega arith,
  omega arith,
  omega arith,
  ((λ e. absurd (omega arith), (omega arith, ((inl refl, omega arith), (omega arith, tt)))), tt),
)

-- Of three deferred responses the second is a refusal: the commit fails with it, and two stay due.
abbrev deferred : List Message
deferred = granted ∷ refusing ∷ granted ∷ []

abbrev waiting : WireConnection
waiting = connection_of (messages_then deferred (message_then granted [])) 3 []

request_in_step_example :
    ((commit 7 waiting).0 ≡ result_of (first_refusal deferred) granted (λ r. tt))
    × ((commit 7 waiting).1.sent ≡ [] ++ encoded_all (int32 op_commit ∷ int32 7 ∷ []))
    × IsFlushed (commit 7 waiting).1
    × IsDue (commit 7 waiting).1 (still_due deferred granted) []
unfolding messages_then message_then dummies
request_in_step_example =
    request_in_step op_commit (int32 7 ∷ []) (λ r. tt) waiting deferred granted [] (tt, tt)
      (connection_of-IsFlushed (messages_then deferred (message_then granted [])) 3 [])
      granted-IsMessage
      (record {
        holds = reader_of-Holds (messages_then deferred (message_then granted [])) (omega arith);
        due = refl;
        sendable = (granted-IsMessage, (refusing-IsMessage, (granted-IsMessage, tt)));
      })

-- One deferred response, then those of an allocation and of its preparation.
abbrev allocating : WireConnection
allocating =
    connection_of (messages_then (granted ∷ []) (message_then granted (message_then refusing []))) 1
      []

abbrev select_one : Bytes
select_one = codes "select 1 from rdb$database"

-- Two writes that the transport takes.
abbrev counting : WireConnection
counting = record allocating { write_results = none ∷ none ∷ [] }

counting-IsFlushed : IsFlushed counting
counting-IsFlushed =
    let f =
      connection_of-IsFlushed
        (messages_then (granted ∷ []) (message_then granted (message_then refusing []))) 1 [] in
    record { valid = f.valid; empty = f.empty; healthy = (refl, (refl, tt)) }

allocate_fresh-granted_example :
    ((allocate_fresh 7 select_one 100 [] counting).0
      ≡ (5, result_of none refusing (λ r. r.payload)))
    × ((allocate_fresh 7 select_one 100 [] counting).1.sent
        ≡ [] ++ allocate_bytes 0 7 select_one [] 100)
    × ((allocate_fresh 7 select_one 100 [] counting).1.write_results ≡ none ∷ [])
    × IsDue (allocate_fresh 7 select_one 100 [] counting).1 [] []
unfolding messages_then message_then first_refusal is_refusal dummies
allocate_fresh-granted_example =
    allocate_fresh-granted 7 100 select_one [] counting (granted ∷ []) granted refusing []
      counting-IsFlushed granted-IsMessage refusing-IsMessage refl refl
      (record {
        holds =
            reader_of-Holds
              (messages_then (granted ∷ []) (message_then granted (message_then refusing [])))
              (omega arith);
        due = refl;
        sendable = (granted-IsMessage, tt);
      })

-- A refused allocation, and a commit behind it that the server grants.
abbrev refused : WireConnection
refused =
    connection_of (message_then refusing (message_then refusing (message_then granted []))) 0 []

request_after_refusal_example :
    ((allocate_fresh 7 select_one 100 [] refused).0
      ≡ (0, inl (response_failed (refused_by refusing))))
    × ((request {A = Unit {0}}
          (int32 op_commit ∷ int32 7 ∷ [])
          (λ r. tt)
          (allocate_fresh 7 select_one 100 [] refused).1).0
        ≡ result_of none refusing (λ r. tt))
unfolding messages_then message_then is_refusal dummies
request_after_refusal_example =
    request_after_refusal 7 100 select_one [] refused refusing refusing (message_then granted [])
      op_commit (int32 7 ∷ []) (λ r. tt)
      (connection_of-IsFlushed
        (message_then refusing (message_then refusing (message_then granted []))) 0 [])
      refusing-IsMessage refusing-IsMessage refl (tt, tt)
      (record {
        holds =
            reader_of-Holds
              (message_then refusing (message_then refusing (message_then granted [])))
              (omega arith);
        due = refl;
        sendable = tt;
      })

abbrev pooled : WireConnection
pooled = connection_of (message_then granted []) 0 (8 ∷ 9 ∷ [])

recycle-prepare_example :
    ((recycle_statement 4 false pooled).0 ≡ none)
    × ((recycle_statement 4 false pooled).1.sent ≡ [])
    × Reused 7 4 100 select_one [] pooled [] granted []
        (allocate_and_prepare_with_items 7 select_one 100 [] (recycle_statement 4 false pooled).1)
unfolding messages_then message_then dummies
recycle-prepare_example =
    recycle-prepare 4 7 100 select_one [] pooled [] granted [] (omega arith)
      (connection_of-IsFlushed (message_then granted []) 0 (8 ∷ 9 ∷ [])) granted-IsMessage
      (record {
        holds = reader_of-Holds (message_then granted []) (omega arith);
        due = refl;
        sendable = tt;
      })

recycle_statement-bound_example :
    length (recycle_statement 4 true pooled).1.free_handles ≤ max_free_handles
recycle_statement-bound_example = recycle_statement-bound 4 true pooled (omega arith)

drain_statement_pool-lazy_example :
    ((drain_statement_pool pooled).free_handles ≡ [])
    × ((drain_statement_pool pooled).deferred_count ≡ 0 + 2)
    × ((drain_statement_pool pooled).sent ≡ [] ++ drop_requests (8 ∷ 9 ∷ []))
drain_statement_pool-lazy_example =
    drain_statement_pool-lazy pooled
      (connection_of-IsFlushed (message_then granted []) 0 (8 ∷ 9 ∷ [])) refl

-- A refused commit of the automatic transaction ends a start, and the error is the transport's.
abbrev is_any : OpError → Bool
is_any e = true

abbrev at_work : Conn
at_work = record {
  wc = waiting;
  closed = false;
  bad = false;
  active_tx = 0;
  auto_tx = 7;
  dirty_auto_tx = false;
}

abbrev level_default : TxOptions
level_default = record { isolation = 0; read_only = false }

abbrev after_start : Conn
after_start = (begin_tx is_any none level_default at_work).1

abbrev after_rollback : Conn
after_rollback = (rollback_tx is_any (record { handle = 9; done = false }) after_start).0.1

Steps-IsValid_example : IsValid (statement_tx is_any none after_rollback).1
Steps-IsValid_example =
    Steps-IsValid is_any at_work (statement_tx is_any none after_rollback).1
      (Steps.go_on at_work after_start (statement_tx is_any none after_rollback).1
        (Step.begins none level_default at_work)
        (Steps.go_on after_start after_rollback (statement_tx is_any none after_rollback).1
          (Step.rolls_back (record { handle = 9; done = false }) after_start)
          (Steps.go_on after_rollback (statement_tx is_any none after_rollback).1
            (statement_tx is_any none after_rollback).1 (Step.takes none after_rollback)
            (Steps.stop (statement_tx is_any none after_rollback).1))))
      refl

finish-again_example :
    finish is_any rollback
      (finish is_any commit (record { handle = 7; done = false }) at_work).1
      at_work
    ≡ ((none, at_work), (finish is_any commit (record { handle = 7; done = false }) at_work).1)
finish-again_example =
    finish-again is_any commit rollback (record { handle = 7; done = false }) at_work at_work
