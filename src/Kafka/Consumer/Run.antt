-- ===== src/Kafka/Consumer/Run.antt =====
-- platform/kafka/kafkaconsumer/kafkaconsumer.go: the order of the calls of `Run`.
use delivery_backend.Base.{
  ℕ, String, ◌≡◌, refl, ap, ◌∙◌, Bool, true, false, ◌||◌, Option, none, some, List, [], ◌∷◌, ◌++◌,
  append_assoc, Bool-cases, inl, inr,
}
use delivery_backend.Errors.{Err, nil}
use delivery_backend.Kafka.Message.{Record, Message}
use delivery_backend.Kafka.Consumer.{
  Call, poll, allow_rebalance, wait, commit_records, set_offsets, on_error, Rewind, Progress, start,
  process_partitions, commit_calls, rewind_calls, rewound, fetch_error, Round, Trace, before, go_on,
  round, run,
}

-- Whether rebalances are blocked after the calls, from whether they are before them; `none` where
-- a poll comes while they are blocked, a wait while they are blocked, or a commit or a change of
-- offsets while they are not.
abbrev pub blocked_after : Bool → List Call → Option Bool
blocked_after b [] = some b
blocked_after true (poll ∷ cs) = none
blocked_after false (poll ∷ cs) = blocked_after true cs
blocked_after b (allow_rebalance ∷ cs) = blocked_after false cs
blocked_after true (wait ∷ cs) = none
blocked_after false (wait ∷ cs) = blocked_after false cs
blocked_after true (commit_records rs ∷ cs) = blocked_after true cs
blocked_after false (commit_records rs ∷ cs) = none
blocked_after true (set_offsets ws ∷ cs) = blocked_after true cs
blocked_after false (set_offsets ws ∷ cs) = none
blocked_after b (on_error e ∷ cs) = blocked_after b cs

after_commit :
    (e : Err) (rs : List Record) (cs : List Call)
    → blocked_after true (commit_calls e rs ++ cs) ≡ blocked_after true cs
after_commit e [] cs = refl
after_commit nil (r ∷ rs) cs = refl
after_commit e (r ∷ rs) cs = refl

after_rewind :
    (ws : List Rewind) (cs : List Call)
    → blocked_after true (rewind_calls ws ++ cs) ≡ blocked_after true cs
after_rewind [] cs = refl
after_rewind (w ∷ ws) cs = refl

shape :
    (a b c : List Call) → (a ++ b ++ allow_rebalance ∷ []) ++ c ≡ a ++ (b ++ (allow_rebalance ∷ c))
shape a b c =
    append_assoc (a ++ b) (allow_rebalance ∷ []) c ∙ append_assoc a b (allow_rebalance ∷ c)

module _ {ℓ} {H : Type ℓ} (label : String → ℕ → String) (handle : H → Message → Err × H) where
  abbrev IsFree : Trace H → Type 0
  IsFree t = blocked_after false t.calls ≡ some false

  go_on-IsFree :
      (due : Bool) (r : Round) (s : H) (t : Trace H)
      → IsFree t
      → IsFree (go_on label handle due r s t)
  go_on-IsFree false r s t h = h
  go_on-IsFree true r s t h = elim (Bool-cases r.waited) [ inl w ↦ rw w h | inr w ↦ rw w refl ]

  polled :
      (e : Err) (done : List Record) (ws : List Rewind) (t : Trace H)
      → IsFree t
      → IsFree (
          before label handle
            (poll ∷ commit_calls e done ++ rewind_calls ws ++ allow_rebalance ∷ [])
            t)
  polled e done ws t h =
      ap (λ l. blocked_after true l) (shape (commit_calls e done) (rewind_calls ws) t.calls)
      ∙ after_commit e done (rewind_calls ws ++ (allow_rebalance ∷ t.calls))
      ∙ after_rewind ws (allow_rebalance ∷ t.calls)
      ∙ h

  round-IsFree :
      (r : Round) (s : H) (done : Progress H) (failed next : Trace H) (e : Err)
      → IsFree failed
      → IsFree next
      → IsFree (round label handle r s done failed next e)
  round-IsFree r s done failed next nil hf hn =
      polled r.commit_error done.processed done.rewind
        (go_on label handle (rewound done.rewind) r done.state next)
        (go_on-IsFree (rewound done.rewind) r done.state next hn)
  round-IsFree r s done failed next e hf hn = go_on-IsFree true r s failed hf

  -- Every poll of Run comes when rebalances are allowed, every commit and every change of offsets
  -- between a poll and the next AllowRebalance, and every backoff after it; and rebalances are
  -- allowed at the end, whether Run has returned or is about to poll again.
  pub run_allows_rebalance :
      (s : H) (rounds : List Round)
      → blocked_after false (run label handle s rounds).calls ≡ some false
  unfolding run
  run_allows_rebalance s [] = refl
  run_allows_rebalance s (r ∷ rs) =
      let done = process_partitions handle (start s) r.fetches in
      elim (Bool-cases (r.cancelled || r.closed)) [
        | inl over ↦ rw over refl
        | inr on ↦ rw on (
            round-IsFree r s done (run label handle s rs) (run label handle done.state rs)
              (fetch_error label r.fetches) (run_allows_rebalance s rs)
              (run_allows_rebalance done.state rs))
      ]
