-- ===== src/Transaction/Tests.antt =====
-- A transaction whose COMMIT succeeds.
use Prim.Native.Nat.{ℕ}
use elephantine.Prelude.{◌≡◌, none, refl, false}
use elephantine.JobLock.Lock.{done}
use elephantine.Transaction.{
  Body, returns, returned, TxEnv, with_tx, run_body, finish_tx, tx_rollback, rollback,
}
use elephantine.Transaction.Atomic.{Effect, with_tx-Effect}
use elephantine.Fault

abbrev calm : TxEnv
calm = record {
  begin_error = none;
  commit = done;
  closed_after_error = false;
  rollback_error = none;
}

abbrev replace : ℕ → Body ℕ
replace db = returns none 7

with_tx-Effect_example : Effect calm (returns none 7) 3 (with_tx calm replace 3)
with_tx-Effect_example = with_tx-Effect calm replace 3 refl

commits : with_tx calm replace 3 ≡ returned none 7
unfolding with_tx run_body finish_tx tx_rollback rollback Fault.is Fault.find
commits = refl
