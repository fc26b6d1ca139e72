-- ===== src/Kafka/Consumer/Returns.antt =====
-- platform/kafka/kafkaconsumer/kafkaconsumer.go: that `Run` returns.
use delivery_backend.Base.{
  ℕ, String, ◌≡◌, refl, sym, ap, ◌∙◌, Bool, true, false, ◌||◌, List, [], ◌∷◌, Bool-cases, inl, inr,
}
use delivery_backend.Errors.{Err, nil}
use delivery_backend.Kafka.Message.{Message}
use delivery_backend.Kafka.Consumer.{
  Progress, start, process_partitions, rewound, fetch_error, Round, Trace, go_on, round, run,
}

-- Whether the context is cancelled or the client closed in one of the rounds.
abbrev pub is_stopped : List Round → Bool
is_stopped [] = false
is_stopped (r ∷ rs) = (r.cancelled || r.closed) || is_stopped rs

module _ {ℓ} {H : Type ℓ} (label : String → ℕ → String) (handle : H → Message → Err × H) where
  abbrev Returns : Trace H → Type 0
  Returns t = t.returned ≡ true

  go_on-Returns :
      (due : Bool) (r : Round) (s : H) (next : Trace H)
      → Returns next
      → Returns (go_on label handle due r s next)
  go_on-Returns false r s next h = h
  go_on-Returns true r s next h = elim (Bool-cases r.waited) [ inl w ↦ rw w h | inr w ↦ rw w refl ]

  round-Returns :
      (r : Round) (s : H) (done : Progress H) (failed next : Trace H) (e : Err)
      → Returns failed
      → Returns next
      → Returns (round label handle r s done failed next e)
  round-Returns r s done failed next nil hf hn =
      go_on-Returns (rewound done.rewind) r done.state next hn
  round-Returns r s done failed next e hf hn = go_on-Returns true r s failed hf

  -- Whatever is fetched and whatever fails, Run has returned once the context is cancelled or the
  -- client closed in one of its rounds.
  pub run_returns :
      (s : H) (rounds : List Round)
      → is_stopped rounds ≡ true
      → (run label handle s rounds).returned ≡ true
  unfolding run
  run_returns s [] h = absurd (cc h)
  run_returns s (r ∷ rs) h =
      let done = process_partitions handle (start s) r.fetches in
      elim (Bool-cases (r.cancelled || r.closed)) [
        | inl over ↦ rw over refl
        | inr on ↦
            let later : is_stopped rs ≡ true = ap (λ b. b || is_stopped rs) (sym on) ∙ h in
            rw on (
              round-Returns r s done (run label handle s rs) (run label handle done.state rs)
                (fetch_error label r.fetches) (run_returns s rs later)
                (run_returns done.state rs later))
      ]
