-- ===== src/Lifecycle/Wiring.antt =====
-- newTelemetry, newLogger and initDebugServer of services/*/internal/app/app.go: what a service's
-- configuration becomes in the packages that it sets up.
use delivery_backend.Base.{
  String, ◌≡◌, ◌≢◌, refl, ◌⊎◌, inl, inr, true, false, Bool-cases, Option, none, some, [], ◌∷◌, ◌==◌,
  eq_iff, if◌then◌else◌,
}
use delivery_backend.Errors.{nil, join, Result, success}
use delivery_backend.Config.{App, Log, Telemetry, Debug, Rules, new_config}
use delivery_backend.Config.Services.{
  Service, order_service, user_service, product_service, notification_service, gateway, Config,
  validate,
}
use delivery_backend.Config.Sections.{IsValidLog, IsValidTelemetry, IsValidDebug}
use delivery_backend.Config.Laws.{IsValid, new_config-IsValid}
use delivery_backend.Telemetry.Build as telemetry
use delivery_backend.Telemetry.Build.{Url, name_error, endpoint_error, is_endpoint_url}
use delivery_backend.Logger.Options as logger
use delivery_backend.DebugServer.Options as debug
use delivery_backend.DebugServer.Options.{
  with_mutex_profile_fraction, with_block_profile_rate, apply,
}

-- The sections that every service has.
pub record Sections : Type 0 where
  pub app : App
  pub log : Log
  pub telemetry : Telemetry
  pub debug : Debug

abbrev pub sections : (s : Service) → Config s → Sections
sections order_service c = record {
  app = c.app;
  log = c.log;
  telemetry = c.telemetry;
  debug = c.debug;
}
sections user_service c = record {
  app = c.app;
  log = c.log;
  telemetry = c.telemetry;
  debug = c.debug;
}
sections product_service c = record {
  app = c.app;
  log = c.log;
  telemetry = c.telemetry;
  debug = c.debug;
}
sections notification_service c = record {
  app = c.app;
  log = c.log;
  telemetry = c.telemetry;
  debug = c.debug;
}
sections gateway c = record { app = c.app; log = c.log; telemetry = c.telemetry; debug = c.debug }

-- newTelemetry
unfoldable pub telemetry_config : Sections → telemetry.Config
telemetry_config c = record {
  enabled = c.telemetry.enabled;
  service_name = c.app.name;
  endpoint = c.telemetry.endpoint;
}

-- newLogger: the settings, and the attribute that every line has.
unfoldable pub new_logger : (String → String) → Sections → logger.Settings × (String × String)
new_logger to_lower c = (logger.settings to_lower c.log, ("app_name", c.app.name))

-- initDebugServer: no server without an address; its listener is a step of Lifecycle.Services.
unfoldable pub init_debug_server : Sections → Option debug.Settings
init_debug_server c =
    if c.debug.addr == ""
    then none
    else some (
        debug.new (
          with_mutex_profile_fraction c.debug.mutex_fraction
          ∷ with_block_profile_rate c.debug.block_rate
          ∷ []))

-- What New of a configuration guarantees of these sections.
pub record IsValidSections (c : Sections) : Type 0 where
  pub app : c.app.name ≢ ""
  pub log : IsValidLog c.log
  pub telemetry : IsValidTelemetry c.telemetry
  pub debug : IsValidDebug c.debug

sections-IsValidSections :
    (s : Service) (c : Config s) → IsValid s c → IsValidSections (sections s c)
sections-IsValidSections order_service c v = record {
  app = v.app;
  log = v.log;
  telemetry = v.telemetry;
  debug = v.debug;
}
sections-IsValidSections user_service c v = record {
  app = v.app;
  log = v.log;
  telemetry = v.telemetry;
  debug = v.debug;
}
sections-IsValidSections product_service c v = record {
  app = v.app;
  log = v.log;
  telemetry = v.telemetry;
  debug = v.debug;
}
sections-IsValidSections notification_service c v = record {
  app = v.app;
  log = v.log;
  telemetry = v.telemetry;
  debug = v.debug;
}
sections-IsValidSections gateway c v = record {
  app = v.app;
  log = v.log;
  telemetry = v.telemetry;
  debug = v.debug;
}

not_empty : (s : String) → s ≢ "" → (s == "") ≡ false
not_empty s ne = elim (Bool-cases (s == "")) [
  | inl same ↦ absurd (ne ((eq_iff s "").0 same))
  | inr other ↦ other
]

module _ (parse : String → Option Url) where
  endpoint_error-nil :
      (e : String) → e ≢ "" → is_endpoint_url parse e ≡ true → endpoint_error parse e ≡ nil
  endpoint_error-nil e ne url = rw (not_empty e ne, url) refl

  sections_accepted :
      (c : Sections)
      → IsValidSections c
      → (telemetry.validate parse (telemetry_config c) ≡ nil)
        ⊎ ((c.telemetry.enabled ≡ true) × (is_endpoint_url parse c.telemetry.endpoint ≡ false))
  unfolding telemetry.validate telemetry_config join
  sections_accepted c v = elim (Bool-cases c.telemetry.enabled) [
    | inr off ↦ inl (rw off refl)
    | inl on ↦ elim (Bool-cases (is_endpoint_url parse c.telemetry.endpoint)) [
      | inr bad ↦ inr (on, bad)
      | inl url ↦
          let endpoint = endpoint_error-nil c.telemetry.endpoint (v.telemetry.endpoint on) url in
          inl (rw (on, not_empty c.app.name v.app, endpoint) refl)
    ]
  ]

  -- With a configuration that New returned, telemetry.New finds no fault with what it is given,
  -- unless telemetry is enabled with an endpoint that is no URL of http or https; so for all five
  -- services.
  pub telemetry_accepted :
      (r : Rules) (s : Service) (parsed : Result (Config s)) (c : Config s)
      → new_config (validate r s) parsed ≡ success c
      → (telemetry.validate parse (telemetry_config (sections s c)) ≡ nil)
        ⊎ (((sections s c).telemetry.enabled ≡ true)
            × (is_endpoint_url parse (sections s c).telemetry.endpoint ≡ false))
  telemetry_accepted r s parsed c h =
      sections_accepted (sections s c)
        (sections-IsValidSections s c (new_config-IsValid r s parsed c h))
