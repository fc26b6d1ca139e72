-- ===== src/Telemetry/Laws.antt =====
-- platform/telemetry/telemetry.go: what New leaves behind.
use delivery_backend.Base.{
  ◌≡◌, refl, sym, ap, Bool, true, false, List, [], ◌∷◌, ◌++◌, map, String, Option, none, some,
  Bool-cases, inl, inr, if◌then◌else◌,
}
use delivery_backend.Errors.{Err, nil, sentinel, Result, success, failure, success_injective}
use delivery_backend.Telemetry.Build.{
  Config, Url, tracer, meter, logger, Event, started, stopped, Providers, Telemetry, shutdown,
  rollback, with_logger, with_runtime, with_meter, with_tracer, with_resource, with_config,
  validate, build, registrations, logger_provider,
}

abbrev pub all_providers : Telemetry
all_providers = tracer ∷ meter ∷ logger ∷ []

-- What is set up for these providers: nothing is registered if there are none.
abbrev pub set_up : Telemetry → List Event
set_up [] = []
set_up (p ∷ ps) = map started (p ∷ ps) ++ registrations

abbrev two : Telemetry
two = tracer ∷ meter ∷ []

module _ (w : Providers) where
  record IsBuilt (p : Result Telemetry × List Event) : Type 0 where
    pub on_failure :
        (err : Err) → p.0 ≡ failure err → (t : Telemetry) × (p.1 ≡ map started t ++ map stopped t)
    pub on_success : (t : Telemetry) → p.0 ≡ success t → (t ≡ all_providers) × (p.1 ≡ set_up t)

  rollback-IsBuilt :
      (t : Telemetry) (log : List Event) (cause : Err)
      → log ≡ map started t
      → IsBuilt (rollback w t log cause)
  unfolding shutdown
  rollback-IsBuilt t log cause so_far = record {
    on_failure = λ err h. (t, ap (λ l. l ++ map stopped t) so_far);
    on_success = λ t' h. absurd (cc h);
  }

  failure-IsBuilt : (err : Err) → IsBuilt (failure err, [])
  failure-IsBuilt err = record {
    on_failure = λ e h. ([], refl);
    on_success = λ t' h. absurd (cc h);
  }

  with_logger-IsBuilt : (e : Err) → IsBuilt (with_logger w two (map started two) e)
  with_logger-IsBuilt nil = record {
    on_failure = λ err h. absurd (cc h);
    on_success = λ t h. (sym (success_injective h), ap set_up (success_injective h));
  }
  with_logger-IsBuilt (sentinel s) = rollback-IsBuilt two _ _ refl
  with_logger-IsBuilt e = rollback-IsBuilt two _ _ refl

  with_runtime-IsBuilt : (e : Err) → IsBuilt (with_runtime w two (map started two) e)
  with_runtime-IsBuilt nil = with_logger-IsBuilt (w.start_error logger)
  with_runtime-IsBuilt (sentinel s) = rollback-IsBuilt two _ _ refl
  with_runtime-IsBuilt e = rollback-IsBuilt two _ _ refl

  with_meter-IsBuilt : (e : Err) → IsBuilt (with_meter w (tracer ∷ []) (started tracer ∷ []) e)
  with_meter-IsBuilt nil = with_runtime-IsBuilt w.runtime_error
  with_meter-IsBuilt (sentinel s) = rollback-IsBuilt (tracer ∷ []) _ _ refl
  with_meter-IsBuilt e = rollback-IsBuilt (tracer ∷ []) _ _ refl

  with_tracer-IsBuilt : (e : Err) → IsBuilt (with_tracer w [] [] e)
  with_tracer-IsBuilt nil = with_meter-IsBuilt (w.start_error meter)
  with_tracer-IsBuilt (sentinel s) = failure-IsBuilt _
  with_tracer-IsBuilt e = failure-IsBuilt _

  with_resource-IsBuilt : (e : Err) → IsBuilt (with_resource w e)
  with_resource-IsBuilt nil = with_tracer-IsBuilt (w.start_error tracer)
  with_resource-IsBuilt (sentinel s) = failure-IsBuilt _
  with_resource-IsBuilt e = failure-IsBuilt _

  with_config_failure :
      (b : Bool) (e err : Err)
      → (with_config w b e).0 ≡ failure err
      → (t : Telemetry) × ((with_config w b e).1 ≡ map started t ++ map stopped t)
  with_config_failure false nil err h = absurd (cc h)
  with_config_failure true nil err h = (with_resource-IsBuilt w.resource_error).on_failure err h
  with_config_failure b (sentinel s) err h = ([], refl)
  with_config_failure b e err h = ([], refl)

  with_config-success :
      (b : Bool) (e : Err) (t : Telemetry)
      → (with_config w b e).0 ≡ success t
      → (e ≡ nil) × (t ≡ (if b then all_providers else [])) × ((with_config w b e).1 ≡ set_up t)
  with_config-success false nil t h =
      (refl, sym (success_injective h), ap set_up (success_injective h))
  with_config-success true nil t h =
      let made = (with_resource-IsBuilt w.resource_error).on_success t h in (refl, made.0, made.1)
  with_config-success b (sentinel s) t h = absurd (cc h)
  with_config-success b e t h = absurd (cc h)

  module _ (parse : String → Option Url) (c : Config) where
    -- If setting up telemetry fails, every provider that was started has been shut down, and nothing
    -- has been registered globally.
    pub build_failure :
        (err : Err)
        → (build w parse c).0 ≡ failure err
        → (t : Telemetry) × ((build w parse c).1 ≡ map started t ++ map stopped t)
    unfolding build
    build_failure err h = with_config_failure c.enabled (validate parse c) err h

    -- If setting up telemetry succeeds, the configuration is valid, and all three providers have
    -- been started and registered, or none if telemetry is not enabled; Shutdown then stops exactly
    -- these.
    pub build-success :
        (t : Telemetry)
        → (build w parse c).0 ≡ success t
        → (validate parse c ≡ nil)
          × (t ≡ (if c.enabled then all_providers else []))
          × ((build w parse c).1 ≡ set_up t)
          × ((shutdown w t).1 ≡ map stopped t)
    unfolding build shutdown
    build-success t h =
        let made = with_config-success c.enabled (validate parse c) t h in
        (made.0, made.1, made.2, refl)

    -- The logs of a service go to the provider that was started, and nowhere if there is none.
    build-logger_provider :
        (t : Telemetry)
        → (build w parse c).0 ≡ success t
        → logger_provider t ≡ (if c.enabled then some logger else none)
    unfolding logger_provider
    build-logger_provider t h =
        rw (build-success t h).1
          (elim (Bool-cases c.enabled) [ inl on ↦ rw on refl | inr off ↦ rw off refl ])
