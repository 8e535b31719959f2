-- ===== src/Driver/Conn.antt =====
-- connection.go and transaction.go: explicit and automatic transactions of one connection, and what an
-- error does to it. Which errors are the transport's is a parameter, for isTransportError looks into
-- errors of other packages. Closing the socket, the lock and the watch on the context are left out.
pub mod Lifecycle
use go_firebird_driver.Prelude.{
  ℕ, Bool, true, false, not, ◌||◌, Option, none, some, ◌⊎◌, inl, inr, ◌==◌, if◌then◌else◌,
}
use go_firebird_driver.Prelude.Bytes.{Bytes}
use go_firebird_driver.Wire.Tpb.{TxOptions, TpbError, build_tpb, cached_default_tpb}
use go_firebird_driver.Wire.Connection.{WireConnection, OpError, transaction, commit, rollback}

-- `conn`, with the fields that its transactions use.
pub record Conn : Type 0 where
  pub wc : WireConnection
  pub closed : Bool
  pub bad : Bool
  pub active_tx : ℕ
  pub auto_tx : ℕ
  pub dirty_auto_tx : Bool

-- The errors: driver.ErrBadConn, an operation's error as it is and wrapped for a retry, the context's,
-- and an isolation level that is not supported.
pub data ConnError : Type 0 where
  bad_conn : ConnError
  failed retryable : OpError → ConnError
  cancelled : ℕ → ConnError
  unsupported : TpbError → ConnError

-- `markBadLocked`
unfoldable pub mark_bad : Conn → Conn
mark_bad c =
    if c.bad then c else record c { bad = true; active_tx = 0; auto_tx = 0; dirty_auto_tx = false }

-- `handleErrorLocked` on an error; `handleRetryableErrorLocked` and `handleFatalErrorLocked` fix the flag.
unfoldable pub handle_error : (OpError → Bool) → Bool → OpError → Conn → ConnError × Conn
handle_error is_transport retry e c =
    if not (is_transport e)
    then (failed e, c)
    else if retry
    then (retryable e, mark_bad c)
    else (failed e, mark_bad c)

-- `invalidateAutoTx`
unfoldable pub invalidate_auto_tx : Conn → Conn
invalidate_auto_tx c = record c { auto_tx = 0; dirty_auto_tx = false }

-- The end of `getAutoTx` and of `BeginTx`, where a transaction is started.
abbrev pub started {ℓ} :
    {A : Type ℓ}
    → (OpError → Bool)
    → (ℕ → A)
    → (ℕ → Conn → Conn)
    → Conn
    → (OpError ⊎ ℕ) × WireConnection
    → (ConnError ⊎ A) × Conn
started is_transport f keep c (inl e, wc) =
    let (x, c') = handle_error is_transport true e (record c { wc = wc }) in (inl x, c')
started is_transport f keep c (inr tx, wc) = (inr (f tx), keep tx (record c { wc = wc }))

-- `getAutoTx`
unfoldable pub get_auto_tx : (OpError → Bool) → Conn → (ConnError ⊎ ℕ) × Conn
get_auto_tx is_transport c =
    if not (c.auto_tx == 0)
    then (inr c.auto_tx, c)
    else started is_transport (λ tx. tx) (λ tx c'. record c' { auto_tx = tx }) c
        (transaction cached_default_tpb c.wc)

-- How `PrepareContext`, `ExecContext` and `QueryContext` come to the transaction of a statement, on the result of
-- `ctx.Err()`. The error of `getAutoTx` is handled a second time there: its transport errors are wrapped
-- again, and stay what they are here.
unfoldable pub statement_tx : (OpError → Bool) → Option ℕ → Conn → (ConnError ⊎ ℕ) × Conn
statement_tx is_transport ctx_err c =
    let taken = get_auto_tx is_transport c in
    if c.closed || c.bad then (inl bad_conn, c) else elim ctx_err [
      | some e ↦ (inl (cancelled e), c)
      | none ↦ if not (c.active_tx == 0) then (inr c.active_tx, c) else taken
    ]

-- `transaction`: the connection that it points to is passed along.
pub record Transaction : Type 0 where
  pub handle : ℕ
  pub done : Bool

abbrev pub new_transaction : ℕ → Transaction
new_transaction tx = record { handle = tx; done = false }

-- The last steps of `BeginTx`, behind the commit of the automatic transaction.
abbrev pub begin_on :
    (OpError → Bool) → Conn → (OpError ⊎ ℕ) × WireConnection → (ConnError ⊎ Transaction) × Conn
begin_on is_transport = started is_transport new_transaction (λ tx c. record c { active_tx = tx })

-- The commit of the automatic transaction, and what follows it.
abbrev pub behind_commit {ℓ} :
    {A : Type ℓ}
    → (OpError → Bool)
    → (Conn → (ConnError ⊎ A) × Conn)
    → Conn
    → (OpError ⊎ Unit {0}) × WireConnection
    → (ConnError ⊎ A) × Conn
behind_commit is_transport next c (inl e, wc) =
    let (x, c') =
      handle_error is_transport false e
        (record c { wc = wc; auto_tx = 0; dirty_auto_tx = false }) in
    (inl x, c')
behind_commit is_transport next c (inr u, wc) =
    next (record c { wc = wc; auto_tx = 0; dirty_auto_tx = false })

-- `BeginTx` from its buffer on.
abbrev pub begin_with :
    (OpError → Bool) → Conn → TpbError ⊎ Bytes → (ConnError ⊎ Transaction) × Conn
begin_with is_transport c (inl e) = (inl (unsupported e), c)
begin_with is_transport c (inr tpb) =
    let next = λ (c' : Conn). begin_on is_transport c' (transaction tpb c'.wc) in
    if not (c.auto_tx == 0)
    then behind_commit is_transport next c (commit c.auto_tx c.wc)
    else next c

-- `BeginTx`, on the result of `ctx.Err()`.
unfoldable pub begin_tx :
    (OpError → Bool) → Option ℕ → TxOptions → Conn → (ConnError ⊎ Transaction) × Conn
begin_tx is_transport ctx_err opts c =
    if c.closed || c.bad then (inl bad_conn, c) else elim ctx_err [
      | some e ↦ (inl (cancelled e), c)
      | none ↦ begin_with is_transport c (build_tpb opts)
    ]

-- The error of a commit or a rollback, handled.
abbrev pub finished :
    (OpError → Bool) → Conn → (OpError ⊎ Unit {0}) × WireConnection → Option ConnError × Conn
finished is_transport c (inl e, wc) =
    let (x, c') = handle_error is_transport false e (record c { wc = wc }) in (some x, c')
finished is_transport c (inr u, wc) = (none, record c { wc = wc })

-- `Commit` and `Rollback` of a transaction, on their wire operation.
unfoldable pub finish :
    (OpError → Bool)
    → (ℕ → WireConnection → (OpError ⊎ Unit {0}) × WireConnection)
    → Transaction
    → Conn
    → (Option ConnError × Conn) × Transaction
finish is_transport op tx c =
    let c' = record c { active_tx = 0 } in
    let tx' = record tx { done = true } in
    let sent = finished is_transport c' (op tx.handle c.wc) in
    if tx.done
    then ((none, c), tx)
    else if c.closed || c.bad
    then ((some bad_conn, c'), tx')
    else (sent, tx')

abbrev pub commit_tx :
    (OpError → Bool) → Transaction → Conn → (Option ConnError × Conn) × Transaction
commit_tx is_transport = finish is_transport commit

abbrev pub rollback_tx :
    (OpError → Bool) → Transaction → Conn → (Option ConnError × Conn) × Transaction
rollback_tx is_transport = finish is_transport rollback
