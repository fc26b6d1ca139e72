-- ===== src/Postgres.antt =====
-- platform/postgres/tx.go: statements inside and outside a transaction.
--
-- The database is a committed state of type `S`. A context that carries a transaction is a store
-- whose `tx` is the transaction's own copy; nobody else sees it before the commit. Other sessions
-- are not modelled: between two statements of a call the committed state stays as it was.
pub mod Laws
use delivery_backend.Base.{Bool, true, false, Option, none, some, if◌then◌else◌}
use delivery_backend.Errors.{Err, nil, Result, success, failure}
use delivery_backend.AppErr.Pg

pub record Store {ℓ} (S : Type ℓ) : Type ℓ where
  pub committed : S
  pub tx : Option S

-- What Commit of pgx does: it succeeds, or it fails with an error, and the transaction has then
-- been applied or not (a lost connection does not tell).
pub data Commit : Type 0 where
  done : Commit
  failed : (err : Err) → (applied : Bool) → Commit

module _ {ℓ} {S : Type ℓ} where
  -- A statement through the executor of `DB`: the transaction of the context, or the pool.
  unfoldable pub exec : (S → Result S) → Store S → Err × Store S
  exec run st = elim st.tx [
    | some s ↦ elim (run s) [
      | success s' ↦ (nil, record st { tx = some s' })
      | failure err ↦ (err, st)
    ]
    | none ↦ elim (run st.committed) [
      | success s' ↦ (nil, record st { committed = s' })
      | failure err ↦ (err, st)
    ]
  ]

  abbrev rollback : Store S → Store S
  rollback st = record st { tx = none }

  -- The transaction's copy takes the place of the committed state.
  abbrev apply : Store S → Store S
  apply st = elim st.tx [ some s ↦ record { committed = s; tx = none } | none ↦ st ]

  unfoldable pub finish : Commit → Store S → Err × Store S
  finish done st = (nil, apply st)
  finish (failed err applied) st = (Pg.map err, if applied then apply st else rollback st)

  abbrev pub proceed : (Store S → Err × Store S) → Err × Store S → Err × Store S
  proceed b (nil, st) = b st
  proceed b (err, st) = (err, st)

  -- `if err := a(ctx); err != nil { return err }; return b(ctx)`
  unfoldable pub and_then :
      (Store S → Err × Store S) → (Store S → Err × Store S) → Store S → Err × Store S
  and_then a b st = proceed b (a st)

  -- WithinTx after a successful Begin: a failure of `fn` rolls back, else the commit decides.
  unfoldable pub settle : Commit → Err × Store S → Err × Store S
  settle commit (nil, st) = finish commit st
  settle commit (err, st) = (err, rollback st)

  unfoldable pub begin_tx : Err → Commit → (Store S → Err × Store S) → Store S → Err × Store S
  begin_tx nil commit fn st = settle commit (fn (record st { tx = some st.committed }))
  begin_tx err commit fn st = (Pg.map err, st)

  -- WithinTx. `begin` is the error of Begin, nil where it succeeds. A context with a transaction
  -- joins it.
  unfoldable pub within_tx : Err → Commit → (Store S → Err × Store S) → Store S → Err × Store S
  within_tx begin commit fn st = elim st.tx [ some s ↦ fn st | none ↦ begin_tx begin commit fn st ]
