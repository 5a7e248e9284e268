-- ===== src/Transaction.antt =====
-- pg/pg.go: WithTX, Rollback, SafeRollback and IsConstraintError. A transaction works on a copy of
-- the database, which COMMIT makes the database; how each request ends is an argument.
pub mod Atomic
mod Tests
use elephantine.Prelude.{
  ℕ, String, Bool, true, false, not, ◌&&◌, Option, none, some, if◌then◌else◌, List, [], ◌∷◌,
}
use elephantine.Fault
use elephantine.Fault.{Fault, errors_join}
use elephantine.JobLock.Lock.{Fate, done, undone, unknown}

-- What the function given to WithTX does: it returns an error or nil, or it panics. It leaves the
-- transaction's copy as `work`.
pub data Body (S : Type 0) : Type 0 where
  returns : Option Fault → (work : S) → Body S
  panics : (work : S) → Body S

pub data TxResult (S : Type 0) : Type 0 where
  returned : Option Fault → (database : S) → TxResult S
  panicked : (database : S) → TxResult S

-- The result of tx.Rollback: pgx.ErrTxClosed after a COMMIT, else what the request returns.
unfoldable pub tx_rollback : (closed : Bool) → Option Fault → Option Fault
tx_rollback true e = some (Fault.sentinel Fault.Sentinel.tx_closed)
tx_rollback false e = e

-- Rollback(tx, &outErr)
unfoldable pub rollback : Option Fault → Option Fault → Option Fault
rollback result out_err = elim result [
  | none ↦ out_err
  | some e ↦
      if Fault.is e Fault.Sentinel.tx_closed
      then out_err
      else errors_join out_err (some (Fault.wrap "roll back transaction" e))
]

-- SafeRollback: the errors that it logs.
unfoldable pub safe_rollback : Option Fault → List Fault
safe_rollback none = []
safe_rollback (some e) = if Fault.is e Fault.Sentinel.tx_closed then [] else e ∷ []

-- How the requests of one call end. After a COMMIT that returns an error the transaction may be
-- closed or not.
pub record TxEnv : Type 0 where
  pub begin_error : Option Fault
  pub commit : Fate
  pub closed_after_error : Bool
  pub rollback_error : Option Fault

module _ {S : Type 0} where
  -- COMMIT, and the deferred rollback behind it.
  unfoldable pub finish_tx : TxEnv → Fate → (work before : S) → TxResult S
  unfolding tx_rollback rollback
  finish_tx env done work before =
      returned (rollback (tx_rollback true env.rollback_error) none) work
  finish_tx env (undone e) work before =
      returned
        (rollback (tx_rollback env.closed_after_error env.rollback_error)
          (some (Fault.wrap "failed to commit" e)))
        before
  finish_tx env (unknown e) work before =
      returned
        (rollback (tx_rollback env.closed_after_error env.rollback_error)
          (some (Fault.wrap "failed to commit" e)))
        work

  -- WithTX from the call of the function on.
  unfoldable pub run_body : TxEnv → Body S → S → TxResult S
  unfolding finish_tx
  run_body env (panics work) db = panicked db
  run_body env (returns (some e) work) db =
      returned (rollback (tx_rollback false env.rollback_error) (some e)) db
  run_body env (returns none work) db = finish_tx env env.commit work db

  unfoldable pub with_tx : TxEnv → (S → Body S) → S → TxResult S
  unfolding run_body
  with_tx env fn db = elim env.begin_error [
    | some e ↦ returned (some (Fault.wrap "failed to begin transaction" e)) db
    | none ↦ run_body env (fn db) db
  ]
