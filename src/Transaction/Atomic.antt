-- ===== src/Transaction/Atomic.antt =====
-- WithTX is all or nothing, and reports what went wrong.
use elephantine.Prelude.{
  ◌≡◌, ◌≢◌, ◌⊎◌, ◌↔◌, refl, inl, inr, false, Option, none, some, arith, Bool-cases,
}
use elephantine.Fault
use elephantine.Fault.{Fault}
use elephantine.JobLock.Lock.{Fate, done, undone, unknown}
use elephantine.Transaction.{
  Body, returns, panics, TxResult, returned, panicked, TxEnv, with_tx, rollback, tx_rollback,
  run_body, finish_tx,
}

-- An error that is `e`, or `e` joined with another.
abbrev pub Reports : Fault → Option Fault → Type 0
Reports e none = ⊥
Reports e (some (Fault.join a b)) = (Fault.join a b ≡ e) ⊎ (a ≡ e)
Reports e (some f) = f ≡ e

Reports-self : (e : Fault) → Reports e (some e)
Reports-self (Fault.join a b) = inl refl
Reports-self (Fault.text s) = refl
Reports-self _ = refl

failed-Reports :
    (result : Option Fault) (e : Fault) → Reports e (rollback (tx_rollback false result) (some e))
unfolding rollback tx_rollback
failed-Reports none e = Reports-self e
failed-Reports (some r) e = elim (Bool-cases (Fault.is r Fault.Sentinel.tx_closed)) [
  | inl shut ↦ rw (shut, rollback) (Reports-self e)
  | inr loud ↦ rw (loud, rollback) (inr refl)
]

rollback-some : (result : Option Fault) (e : Fault) → rollback result (some e) ≢ none
unfolding rollback
rollback-some none e h = cc
rollback-some (some r) e h = ground arith

unreported :
    (env : TxEnv) (f : Fault)
    → rollback
        (tx_rollback env.closed_after_error env.rollback_error)
        (some (Fault.wrap "failed to commit" f))
      ≢ none
unreported env f =
    rollback-some (tx_rollback env.closed_after_error env.rollback_error)
      (Fault.wrap "failed to commit" f)

module _ {S : Type 0} where
  abbrev pub database : TxResult S → S
  database (returned e db) = db
  database (panicked db) = db

  -- What WithTX may do, by what the function given to it did.
  abbrev pub Effect : TxEnv → Body S → S → TxResult S → Type 0
  Effect env body before (panicked db) = elim body as (λ b. Type 0) [
    | panics work ↦ db ≡ before
    | returns e work ↦ ⊥
  ]
  Effect env body before (returned out db) = elim body as (λ b. Type 0) [
    | panics work ↦ ⊥
    | returns (some e) work ↦ (db ≡ before) × Reports e out
    | returns none work ↦
        ((out ≡ none) ↔ (env.commit ≡ done))
        × (out ≡ none → db ≡ work)
        × ((db ≡ work) ⊎ (db ≡ before))
  ]

  commit-Effect :
      (env : TxEnv) (fate : Fate)
      → env.commit ≡ fate
      → (work before : S) → Effect env (returns none work) before (finish_tx env fate work before)
  unfolding finish_tx Fault.is
  commit-Effect env done e work before = ((λ h. e, λ h. refl), (λ h. refl), inl refl)
  commit-Effect env (undone f) e work before =
      ((λ h. absurd (unreported env f h), λ h. cc), (λ h. absurd (unreported env f h)), inr refl)
  commit-Effect env (unknown f) e work before =
      ((λ h. absurd (unreported env f h), λ h. cc), (λ h. absurd (unreported env f h)), inl refl)

  body-Effect : (env : TxEnv) (b : Body S) (db : S) → Effect env b db (run_body env b db)
  unfolding run_body Fault.is
  body-Effect env (panics work) db = refl
  body-Effect env (returns (some f) work) db = (refl, failed-Reports env.rollback_error f)
  body-Effect env (returns none work) db = commit-Effect env env.commit refl work db

  -- With a transaction that begins: a function that panics panics on with the database unchanged; one
  -- that returns an error leaves the database unchanged too, and its error is returned, alone or
  -- joined with the rollback's; and one that returns nil gets nil exactly if COMMIT succeeds, with
  -- its work in the database, which otherwise holds all of its work or none of it.
  pub with_tx-Effect :
      (env : TxEnv) (fn : S → Body S) (db : S)
      → env.begin_error ≡ none
      → Effect env (fn db) db (with_tx env fn db)
  unfolding with_tx
  with_tx-Effect env fn db begun = rw (begun, with_tx) (body-Effect env (fn db) db)
