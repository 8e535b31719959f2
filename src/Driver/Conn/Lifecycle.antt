-- ===== src/Driver/Conn/Lifecycle.antt =====
-- Steps of a connection, and what holds through any number of them.
use go_firebird_driver.Prelude.{
  ℕ, ◌≡◌, arith, Bool, true, false, not, ◌&&◌, ◌||◌, Option, none, some, ◌⊎◌, inl, inr, ◌==◌,
  Bool-cases,
}
use go_firebird_driver.Prelude.Bytes.{Bytes}
use go_firebird_driver.Wire.Tpb.{TxOptions, TpbError, build_tpb, cached_default_tpb}
use go_firebird_driver.Wire.Connection.{WireConnection, OpError, transaction, commit, rollback}
use go_firebird_driver.Driver.Conn.{
  Conn, mark_bad, handle_error, invalidate_auto_tx, started, get_auto_tx, statement_tx, Transaction,
  begin_on, behind_commit, begin_with, begin_tx, finished, finish, commit_tx, rollback_tx,
}

-- A bad connection has no transaction, and the flag for uncommitted work is down.
abbrev pub is_valid : Conn → Bool
is_valid c = not (c.bad && (not (c.active_tx == 0) || not (c.auto_tx == 0))) && not c.dirty_auto_tx

abbrev pub IsValid : Conn → Type 0
IsValid c = is_valid c ≡ true

mark_bad-IsValid : (c : Conn) → IsValid c → IsValid (mark_bad c)
unfolding mark_bad
mark_bad-IsValid c v = ground arith

handle_error-IsValid :
    (t : OpError → Bool) (retry : Bool) (e : OpError) (c : Conn)
    → IsValid c
    → IsValid (handle_error t retry e c).1
unfolding handle_error
handle_error-IsValid t retry e c v = let m = mark_bad-IsValid c v in ground (arith, m)

started-IsValid :
    (t : OpError → Bool) (c : Conn) (x : (OpError ⊎ ℕ) × WireConnection)
    → (c.auto_tx == 0) ≡ true
    → c.bad ≡ false
    → IsValid c
    → IsValid (started t (λ tx. tx) (λ tx c'. record c' { auto_tx = tx }) c x).1
started-IsValid t c (inl e, wc) y b v = handle_error-IsValid t true e (record c { wc = wc }) v
started-IsValid t c (inr tx, wc) y b v = ground arith

get_auto_tx-IsValid :
    (t : OpError → Bool) (c : Conn) → c.bad ≡ false → IsValid c → IsValid (get_auto_tx t c).1
unfolding get_auto_tx
get_auto_tx-IsValid t c b v = elim (Bool-cases (c.auto_tx == 0)) [
  | inr y ↦ rw y v
  | inl y ↦ rw y (started-IsValid t c (transaction cached_default_tpb c.wc) y b v)
]

statement_tx-IsValid :
    (t : OpError → Bool) (ctx_err : Option ℕ) (c : Conn)
    → IsValid c
    → IsValid (statement_tx t ctx_err c).1
unfolding statement_tx
statement_tx-IsValid t (some e) c v = elim (Bool-cases (c.closed || c.bad)) [
  | inl y ↦ rw y v
  | inr y ↦ rw y v
]
statement_tx-IsValid t none c v = elim (Bool-cases (c.closed || c.bad)) [
  | inl y ↦ rw y v
  | inr y ↦
      let w = get_auto_tx-IsValid t c (ground (arith, y)) v in
      rw y (elim (Bool-cases (c.active_tx == 0)) [ inl z ↦ rw z w | inr z ↦ rw z v ])
]

begin_on-IsValid :
    (t : OpError → Bool) (c : Conn) (x : (OpError ⊎ ℕ) × WireConnection)
    → c.bad ≡ false
    → IsValid c
    → IsValid (begin_on t c x).1
begin_on-IsValid t c (inl e, wc) b v = handle_error-IsValid t true e (record c { wc = wc }) v
begin_on-IsValid t c (inr tx, wc) b v = ground arith

-- The connection after the commit of its automatic transaction, however that ended.
cleared-IsValid :
    (c : Conn) (wc : WireConnection)
    → IsValid c
    → IsValid (record c { wc = wc; auto_tx = 0; dirty_auto_tx = false })
cleared-IsValid c wc v = ground arith

begin_behind-IsValid :
    (t : OpError → Bool) (tpb : Bytes) (c : Conn) (x : (OpError ⊎ Unit {0}) × WireConnection)
    → c.bad ≡ false
    → IsValid c
    → IsValid (behind_commit t (λ c'. begin_on t c' (transaction tpb c'.wc)) c x).1
begin_behind-IsValid t tpb c (inl e, wc) b v =
    handle_error-IsValid t false e (record c { wc = wc; auto_tx = 0; dirty_auto_tx = false })
      (cleared-IsValid c wc v)
begin_behind-IsValid t tpb c (inr u, wc) b v =
    begin_on-IsValid t (record c { wc = wc; auto_tx = 0; dirty_auto_tx = false })
      (transaction tpb wc) b (cleared-IsValid c wc v)

begin_with-IsValid :
    (t : OpError → Bool) (c : Conn) (x : TpbError ⊎ Bytes)
    → c.bad ≡ false
    → IsValid c
    → IsValid (begin_with t c x).1
begin_with-IsValid t c (inl e) b v = v
begin_with-IsValid t c (inr tpb) b v = elim (Bool-cases (c.auto_tx == 0)) [
  | inr y ↦ rw y (begin_behind-IsValid t tpb c (commit c.auto_tx c.wc) b v)
  | inl y ↦ rw y (begin_on-IsValid t c (transaction tpb c.wc) b v)
]

begin_tx-IsValid :
    (t : OpError → Bool) (ctx_err : Option ℕ) (opts : TxOptions) (c : Conn)
    → IsValid c
    → IsValid (begin_tx t ctx_err opts c).1
unfolding begin_tx
begin_tx-IsValid t (some e) opts c v = elim (Bool-cases (c.closed || c.bad)) [
  | inl y ↦ rw y v
  | inr y ↦ rw y v
]
begin_tx-IsValid t none opts c v = elim (Bool-cases (c.closed || c.bad)) [
  | inl y ↦ rw y v
  | inr y ↦ rw y (begin_with-IsValid t c (build_tpb opts) (ground (arith, y)) v)
]

finished-IsValid :
    (t : OpError → Bool) (c : Conn) (x : (OpError ⊎ Unit {0}) × WireConnection)
    → IsValid c
    → IsValid (finished t c x).1
finished-IsValid t c (inl e, wc) v = handle_error-IsValid t false e (record c { wc = wc }) v
finished-IsValid t c (inr u, wc) v = v

finish-IsValid :
    (t : OpError → Bool) (op : ℕ → WireConnection → (OpError ⊎ Unit {0}) × WireConnection)
    (tx : Transaction) (c : Conn)
    → IsValid c
    → IsValid (finish t op tx c).0.1
unfolding finish
finish-IsValid t op tx c v =
    let v' : IsValid (record c { active_tx = 0 }) = ground arith in
    let f = finished-IsValid t (record c { active_tx = 0 }) (op tx.handle c.wc) v' in
    ground (arith, f, v')

-- What can happen to a connection: a start, a commit or a rollback of a transaction, a statement that comes to
-- its transaction, and the loss of the automatic one behind an error.
pub data Step (t : OpError → Bool) : Conn → Conn → Type 0 where
  begins : (e : Option ℕ) (o : TxOptions) (c : Conn) → Step t c (begin_tx t e o c).1
  commits : (tx : Transaction) (c : Conn) → Step t c (commit_tx t tx c).0.1
  rolls_back : (tx : Transaction) (c : Conn) → Step t c (rollback_tx t tx c).0.1
  takes : (e : Option ℕ) (c : Conn) → Step t c (statement_tx t e c).1
  invalidates : (c : Conn) → Step t c (invalidate_auto_tx c)

pub data Steps (t : OpError → Bool) : Conn → Conn → Type 0 where
  stop : (c : Conn) → Steps t c c
  go_on : (c d e : Conn) → Step t c d → Steps t d e → Steps t c e

Step-IsValid : (t : OpError → Bool) (c d : Conn) → Step t c d → IsValid c → IsValid d
unfolding invalidate_auto_tx
Step-IsValid t _ _ (Step.begins e o c) v = begin_tx-IsValid t e o c v
Step-IsValid t _ _ (Step.commits tx c) v = finish-IsValid t commit tx c v
Step-IsValid t _ _ (Step.rolls_back tx c) v = finish-IsValid t rollback tx c v
Step-IsValid t _ _ (Step.takes e c) v = statement_tx-IsValid t e c v
Step-IsValid t _ _ (Step.invalidates c) v = cleared-IsValid c c.wc v

-- Through any sequence of starts, commits and rollbacks of explicit transactions, of statements
-- that come to their transaction, explicit or automatic, and of losses of the automatic one,
-- whatever the server answers and whatever errors are the transport's: a bad connection keeps no
-- transaction, and the flag for uncommitted work is never set, if it is so at the start.
pub Steps-IsValid : (t : OpError → Bool) (c d : Conn) → Steps t c d → IsValid c → IsValid d
Steps-IsValid t _ _ (Steps.stop c) v = v
Steps-IsValid t _ _ (Steps.go_on c d e s ss) v = Steps-IsValid t d e ss (Step-IsValid t c d s v)

-- A transaction that was committed or rolled back is over: whatever comes after it on the same
-- handle succeeds, sends nothing and leaves the connection, whatever it is by then, and the
-- transaction as they are.
pub finish-again :
    (t : OpError → Bool) (op op' : ℕ → WireConnection → (OpError ⊎ Unit {0}) × WireConnection)
    (tx : Transaction) (c d : Conn)
    → finish t op' (finish t op tx c).1 d ≡ ((none, d), (finish t op tx c).1)
unfolding finish
finish-again t op op' tx c d = ground arith
