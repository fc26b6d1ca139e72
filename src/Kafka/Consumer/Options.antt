-- ===== src/Kafka/Consumer/Options.antt =====
-- platform/kafka/kafkaconsumer (New of kafkaconsumer.go and options.go): the settings of a consumer
-- and the options of its client; and processRecord.
--
-- kgo.NewClient is the parameter `new_client`; error handlers are named by a value of type `E`.
-- Durations are numbers of nanoseconds. The tracer and the hooks are left out of the settings.
use delivery_backend.Base.{
  ℕ, String, ◌≡◌, ◌≢◌, refl, sym, ap, ◌∙◌, Option, none, some, List, [], ◌∷◌, ◌++◌, append_assoc,
  append-nil,
}
use delivery_backend.Errors.{Err, nil, wrapped, Result, success, failure, success_injective}
use delivery_backend.Kafka.Message.{Record, Message, to_message}

-- kgo.Opt: the ones that New gives, and any other.
pub data ClientOption : Type 0 where
  with_hooks consume_reset_offset_at_start disable_auto_commit block_rebalance_on_poll :
      ClientOption
  seed_brokers consume_topics : List String → ClientOption
  consumer_group other : String → ClientOption

module _ {ℓ} (E : Type ℓ) where
  -- The fields of Consumer that options set.
  pub record Settings : Type ℓ where
    pub error_handler : Option E
    pub max_poll_records : ℕ
    pub retry_backoff : ℕ
    pub client_options : List ClientOption

  pub data ConsumerOption : Type ℓ where
    with_client_options : List ClientOption → ConsumerOption
    with_error_handler : E → ConsumerOption
    with_max_poll_records with_retry_backoff : ℕ → ConsumerOption

abbrev pub default_retry_backoff : ℕ
default_retry_backoff = 1000000000

-- The options that New adds after the caller's.
abbrev pub own_options : List String → String → List String → List ClientOption
own_options brokers group topics =
    with_hooks
    ∷ seed_brokers brokers
    ∷ consumer_group group
    ∷ consume_topics topics
    ∷ consume_reset_offset_at_start
    ∷ disable_auto_commit
    ∷ block_rebalance_on_poll
    ∷ []

module _ {ℓ} {E : Type ℓ} where
  -- No handler at first: the one of New does nothing.
  abbrev pub defaults : Settings E
  defaults = record {
    error_handler = none;
    max_poll_records = 100;
    retry_backoff = default_retry_backoff;
    client_options = [];
  }

  unfoldable pub apply : ConsumerOption E → Settings E → Settings E
  apply (with_client_options os) s = record s { client_options = s.client_options ++ os }
  apply (with_error_handler h) s = record s { error_handler = some h }
  apply (with_max_poll_records n) s = record s { max_poll_records = n }
  apply (with_retry_backoff d) s = record s { retry_backoff = d }

  unfoldable pub apply_all : List (ConsumerOption E) → Settings E → Settings E
  apply_all [] s = s
  apply_all (o ∷ os) s = apply_all os (apply o s)

  module _ {κ} {C : Type κ} (new_client : List ClientOption → Result C) where
    abbrev pub with_client : Settings E → Result C → Result (Settings E × C)
    with_client s (success client) = success (s, client)
    with_client s (failure err) = failure (wrapped "kafkaconsumer: client: " err "")

    unfoldable pub new :
        List String → String → List String → List (ConsumerOption E) → Result (Settings E × C)
    new brokers group topics os =
        let s : Settings E = apply_all os defaults in
        with_client s (new_client (s.client_options ++ own_options brokers group topics))

  -- The client options of the caller, and the last of the numbers that it gives.
  abbrev pub client_options_of : List (ConsumerOption E) → List ClientOption
  client_options_of [] = []
  client_options_of (with_client_options cs ∷ os) = cs ++ client_options_of os
  client_options_of (with_error_handler h ∷ os) = client_options_of os
  client_options_of (with_max_poll_records n ∷ os) = client_options_of os
  client_options_of (with_retry_backoff d ∷ os) = client_options_of os

  apply_all-client_options :
      (os : List (ConsumerOption E)) (s : Settings E)
      → (apply_all os s).client_options ≡ s.client_options ++ client_options_of os
  unfolding apply_all apply
  apply_all-client_options [] s = sym (append-nil s.client_options)
  apply_all-client_options (with_client_options cs ∷ os) s =
      apply_all-client_options os (record s { client_options = s.client_options ++ cs })
      ∙ append_assoc s.client_options cs (client_options_of os)
  apply_all-client_options (with_error_handler h ∷ os) s =
      apply_all-client_options os (record s { error_handler = some h })
  apply_all-client_options (with_max_poll_records n ∷ os) s =
      apply_all-client_options os (record s { max_poll_records = n })
  apply_all-client_options (with_retry_backoff d ∷ os) s =
      apply_all-client_options os (record s { retry_backoff = d })

  module _ {κ} {C : Type κ} (new_client : List ClientOption → Result C) where
    with_client-success :
        (s t : Settings E) (client : C) (r : Result C)
        → with_client new_client s r ≡ success (t, client)
        → (t ≡ s) × (r ≡ success client)
    with_client-success s t client (success c) h =
        let both = success_injective h in
        (sym (ap (λ (p : Settings E × C). p.0) both), ap (λ (p : Settings E × C). success p.1) both)
    with_client-success s t client (failure err) h = absurd (cc h)

    -- If New returns a consumer, its settings are what the options make of the defaults, in their
    -- order, and the client was made with all client options of the caller, and then those of the
    -- group and the topics, without automatic commits and with rebalances blocked by a poll.
    pub new-success :
        (brokers : List String) (group : String) (topics : List String)
        (os : List (ConsumerOption E)) (s : Settings E) (client : C)
        → new new_client brokers group topics os ≡ success (s, client)
        → (s ≡ apply_all os defaults)
          × (new_client (client_options_of os ++ own_options brokers group topics) ≡ success client)
    unfolding new
    new-success brokers group topics os s client h =
        let both = with_client-success (apply_all os defaults) s client _ h in
        (
          both.0,
          ap (λ cs. new_client (cs ++ own_options brokers group topics))
                (sym (apply_all-client_options os defaults))
              ∙ both.1,
        )

-- The span of processRecord: the error's type and the description of the status, if it failed.
pub record Span : Type 0 where
  pub error_type : Option String
  pub description : Option String

abbrev pub handler_failed : String
handler_failed = "handler failed"

-- `type_name` is the verb %T.
module _ (type_name : Err → String) where
  abbrev pub span_of : Err → Span
  span_of nil = record { error_type = none; description = none }
  span_of err = record { error_type = some (type_name err); description = some handler_failed }

  unfoldable pub process_record {ℓ} :
      {H : Type ℓ} → (H → Message → Err × H) → H → Record → (Err × H) × Span
  process_record handle s r = let x = handle s (to_message r) in (x, span_of x.0)

  abbrev failed_span : String → Span
  failed_span type = record { error_type = some type; description = some handler_failed }

  span_of-failed : (e : Err) → e ≢ nil → span_of e ≡ failed_span (type_name e)
  span_of-failed nil bad = absurd (bad refl)
  span_of-failed e bad = refl

  -- The span of a failure shows the type of the error: nothing else of the error is in it.
  span_of_type :
      (e e' : Err) → e ≢ nil → e' ≢ nil → type_name e ≡ type_name e' → span_of e ≡ span_of e'
  span_of_type e e' bad bad' same =
      span_of-failed e bad ∙ ap failed_span same ∙ sym (span_of-failed e' bad')
