-- ===== src/Kafka/Consumer/Commits.antt =====
-- platform/kafka/kafkaconsumer/kafkaconsumer.go: the records that a run of `Run` commits.
use delivery_backend.Base.{
  ℕ, String, ◌≡◌, refl, ap, ◌∙◌, ◌⊎◌, Bool, true, false, List, [], ◌∷◌, ◌++◌, append_assoc,
  Bool-cases, inl, inr,
}
use delivery_backend.Errors.{Err, nil}
use delivery_backend.Kafka.Message.{Record, Message}
use delivery_backend.Kafka.Consumer.{
  Call, poll, allow_rebalance, wait, commit_records, set_offsets, on_error, Rewind, Progress,
  commit_calls, rewind_calls, rewound, Round, Trace, go_on, round,
}

-- The records given to CommitRecords, in the order of the calls.
abbrev pub committed : List Call → List Record
committed [] = []
committed (commit_records rs ∷ cs) = rs ++ committed cs
committed (poll ∷ cs) = committed cs
committed (allow_rebalance ∷ cs) = committed cs
committed (wait ∷ cs) = committed cs
committed (set_offsets ws ∷ cs) = committed cs
committed (on_error e ∷ cs) = committed cs

committed-commit :
    (e : Err) (rs : List Record) (cs : List Call)
    → committed (commit_calls e rs ++ cs) ≡ rs ++ committed cs
committed-commit e [] cs = refl
committed-commit nil (r ∷ rs) cs = refl
committed-commit e (r ∷ rs) cs = refl

committed-rewind :
    (ws : List Rewind) (cs : List Call) → committed (rewind_calls ws ++ cs) ≡ committed cs
committed-rewind [] cs = refl
committed-rewind (w ∷ ws) cs = refl

module _ {ℓ} {H : Type ℓ} (label : String → ℕ → String) (handle : H → Message → Err × H) where
  -- A round whose fetch has no error commits what it processed.
  pub committed-round :
      (r : Round) (s : H) (done : Progress H) (failed next : Trace H)
      → committed (round label handle r s done failed next nil).calls
        ≡ done.processed
          ++ committed (go_on label handle (rewound done.rewind) r done.state next).calls
  committed-round r s done failed next =
      let on : Trace H = go_on label handle (rewound done.rewind) r done.state next in
      let mine : List Call = commit_calls r.commit_error done.processed in
      let back : List Call = rewind_calls done.rewind in
      ap committed (
        append_assoc (mine ++ back) (allow_rebalance ∷ []) on.calls
        ∙ append_assoc mine back (allow_rebalance ∷ on.calls))
      ∙ committed-commit r.commit_error done.processed (back ++ (allow_rebalance ∷ on.calls))
      ∙ ap (λ l. done.processed ++ l) (committed-rewind done.rewind (allow_rebalance ∷ on.calls))

  -- After a round the run goes on, or it returns with nothing committed any more.
  pub go_on-cases :
      (due : Bool) (r : Round) (s : H) (next : Trace H)
      → let t = go_on label handle due r s next in
        ((t.state ≡ next.state) × (committed t.calls ≡ committed next.calls))
        ⊎ ((t.state ≡ s) × (committed t.calls ≡ []))
  go_on-cases false r s next = inl (refl, refl)
  go_on-cases true r s next = elim (Bool-cases r.waited) [
    | inl w ↦ rw w (inl (refl, refl))
    | inr w ↦ rw w (inr (refl, refl))
  ]
