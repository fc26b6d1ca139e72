-- ===== src/Postgres/Laws.antt =====
-- platform/postgres/tx.go: a transaction is applied whole or not at all.
use delivery_backend.Base.{true, false, ◌≡◌, ◌≢◌, refl, ap, ◌⊎◌, inl, inr, none, some, arith}
use delivery_backend.Errors.{Err, nil, sentinel, Result, success, failure}
use delivery_backend.AppErr.Pg.Laws.{map-ne-nil}
use delivery_backend.Postgres.{
  Store, Commit, done, failed, exec, proceed, and_then, settle, finish, begin_tx, within_tx,
}

-- Commit fails with an error that is not nil.
abbrev pub IsCommit : Commit → Type 0
IsCommit done = Unit
IsCommit (failed err applied) = err ≢ nil

module _ {ℓ} {S : Type ℓ} where
  -- A store with no transaction, and one in a transaction.
  abbrev pub idle : S → Store S
  idle c = record { committed = c; tx = none }

  abbrev pub opened : S → S → Store S
  opened c s = record { committed = c; tx = some s }

  abbrev pub outcome : Result S → S → Err × S
  outcome (success s') s = (nil, s')
  outcome (failure err) s = (err, s)

  -- What a statement does to the state that it runs on.
  abbrev pub statement : (S → Result S) → S → Err × S
  statement run s = outcome (run s) s

  abbrev pub next_step : (S → Err × S) → Err × S → Err × S
  next_step b (nil, s) = b s
  next_step b (err, s) = (err, s)

  abbrev pub sequence : (S → Err × S) → (S → Err × S) → S → Err × S
  sequence a b s = next_step b (a s)

  pub next_step-nil :
      (b : S → Err × S) (r : Err × S) (x : S)
      → (next_step b r).0 ≡ nil
      → (r.0 ≡ nil → r.1 ≡ x)
      → next_step b r ≡ b x
  next_step-nil b (nil, s) x h k = ap b (k refl)
  next_step-nil b (sentinel t, s) x h k = absurd (cc h)
  next_step-nil b (err, s) x h k = absurd (cc h)

  -- In a transaction `fn` does what `body` says to the transaction's copy, and touches nothing else.
  pub record RunsAs (fn : Store S → Err × Store S) (body : S → Err × S) : Type ℓ where
    pub at : (c s : S) → fn (opened c s) ≡ ((body s).0, opened c (body s).1)

  pub exec-RunsAs : (run : S → Result S) → RunsAs (exec run) (statement run)
  unfolding exec
  exec-RunsAs run = record { at = λ c s. ground arith }

  and_then_step :
      {b : Store S → Err × Store S} (b' : S → Err × S)
      → RunsAs b b'
      → (c : S) (r : Err × S)
      → proceed b (r.0, opened c r.1) ≡ ((next_step b' r).0, opened c (next_step b' r).1)
  and_then_step b' rb c (nil, s) = rb.at c s
  and_then_step b' rb c (sentinel t, s) = refl
  and_then_step b' rb c (err, s) = refl

  pub and_then-RunsAs :
      {a b : Store S → Err × Store S} (a' b' : S → Err × S)
      → RunsAs a a'
      → RunsAs b b'
      → RunsAs (and_then a b) (sequence a' b')
  unfolding and_then
  and_then-RunsAs a' b' ra rb = record {
    at = λ c s. rw (ra.at c s, and_then) (and_then_step b' rb c (a' s));
  }

  settle_whole :
      (commit : Commit) (c s : S) (e : Err)
      → let r = settle commit (e, opened c s) in (r.1 ≡ idle c) ⊎ ((e ≡ nil) × (r.1 ≡ idle s))
  unfolding settle finish
  settle_whole done c s nil = inr (refl, refl)
  settle_whole (failed err true) c s nil = inr (refl, refl)
  settle_whole (failed err false) c s nil = inl refl
  settle_whole commit c s (sentinel t) = inl refl
  settle_whole commit c s _ = inl refl

  settle_nil :
      (commit : Commit) (c s : S) (e : Err)
      → IsCommit commit
      → let r = settle commit (e, opened c s) in r.0 ≡ nil → (e ≡ nil) × (r.1 ≡ idle s)
  unfolding settle finish
  settle_nil done c s nil k h = (refl, refl)
  settle_nil (failed err applied) c s nil k h = absurd (map-ne-nil err k h)
  settle_nil commit c s (sentinel t) k h = absurd (cc)
  settle_nil commit c s _ k h = absurd (cc)

  settle_failure :
      (commit : Commit) (c s : S) (e : Err) → e ≢ nil → settle commit (e, opened c s) ≡ (e, idle c)
  unfolding settle
  settle_failure commit c s nil n = absurd (n refl)
  settle_failure commit c s (sentinel t) n = refl
  settle_failure commit c s _ n = refl

  module _ (commit : Commit) {fn : Store S → Err × Store S} {body : S → Err × S}
      (runs : RunsAs fn body) (c : S) where
    begin_whole :
        (begin : Err)
        → let r = begin_tx begin commit fn (idle c) in
          (r.1 ≡ idle c) ⊎ (((body c).0 ≡ nil) × (r.1 ≡ idle (body c).1))
    unfolding begin_tx
    begin_whole nil = rw (runs.at c c) (settle_whole commit c (body c).1 (body c).0)
    begin_whole (sentinel t) = inl refl
    begin_whole _ = inl refl

    begin_nil :
        (begin : Err)
        → IsCommit commit
        → let r = begin_tx begin commit fn (idle c) in
          r.0 ≡ nil → ((body c).0 ≡ nil) × (r.1 ≡ idle (body c).1)
    unfolding begin_tx
    begin_nil nil k = rw (runs.at c c) (settle_nil commit c (body c).1 (body c).0 k)
    begin_nil (sentinel t) k = λ h. absurd (map-ne-nil (sentinel t) (λ e. cc) h)
    begin_nil err k = λ h. absurd (map-ne-nil err (λ e. cc) h)

  -- Whatever fails, the committed state after WithinTx is the one before, or the one that the whole
  -- body leaves if all its statements succeed; and no transaction stays open.
  pub within_tx_atomic :
      (begin : Err) (commit : Commit) {fn : Store S → Err × Store S} (body : S → Err × S)
      → RunsAs fn body
      → (c : S)
      → let r = within_tx begin commit fn (idle c) in
        (r.1 ≡ idle c) ⊎ (((body c).0 ≡ nil) × (r.1 ≡ idle (body c).1))
  unfolding within_tx
  within_tx_atomic begin commit body runs c = begin_whole commit runs c begin

  -- If WithinTx returns nil, every statement of the body succeeded and all of it is committed.
  pub within_tx-nil :
      (begin : Err) (commit : Commit) {fn : Store S → Err × Store S} (body : S → Err × S)
      → RunsAs fn body
      → IsCommit commit
      → (c : S) → (within_tx begin commit fn (idle c)).0 ≡ nil
      → ((body c).0 ≡ nil) × ((within_tx begin commit fn (idle c)).1 ≡ idle (body c).1)
  unfolding within_tx
  within_tx-nil begin commit body runs k c h = begin_nil commit runs c begin k h

  -- If a statement of the body fails, WithinTx returns its error and leaves the state as it was.
  pub within_tx_failure :
      (commit : Commit) {fn : Store S → Err × Store S} (body : S → Err × S)
      → RunsAs fn body
      → (c : S) → (body c).0 ≢ nil
      → within_tx nil commit fn (idle c) ≡ ((body c).0, idle c)
  unfolding within_tx begin_tx
  within_tx_failure commit body runs c n =
      rw (runs.at c c) (settle_failure commit c (body c).1 (body c).0 n)
