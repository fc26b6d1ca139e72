-- ===== src/Logger/Options.antt =====
-- platform/logger/options.go and logger.go: the level and the format that New takes.
--
-- strings.ToLower is the parameter `to_lower`. The handlers of slog that New sets up are known by
-- the format; `exports` says whether there is a provider.
use delivery_backend.Base.{All, String, ◌≡◌, refl, Bool, true, false, ◌==◌, if◌then◌else◌}
use delivery_backend.AppErr.Code.{Level, debug, info, warn, error}
use delivery_backend.AppErr.Code.Laws.{elem, elem_induction}
use delivery_backend.Config.{Log, levels, formats}
use delivery_backend.Config.Sections.{IsValidLog}

pub data Format : Type 0 where
  text json : Format

pub record Settings : Type 0 where
  pub level : Level
  pub format : Format
  pub exports : Bool

module _ (to_lower : String → String) where
  unfoldable pub level_of : String → Level
  level_of s =
      let l = to_lower s in
      if l == "debug"
      then debug
      else if l == "warn"
      then warn
      else if l == "error"
      then error
      else info

  unfoldable pub format_of : String → Format
  format_of s = if to_lower s == "json" then json else text

  abbrev pub with_level : String → Settings → Settings
  with_level s c = record c { level = level_of s }

  abbrev pub with_format : String → Settings → Settings
  with_format s c = record c { format = format_of s }

  abbrev pub with_logger_provider : Bool → Settings → Settings
  with_logger_provider p c = record c { exports = p }

  abbrev pub defaults : Settings
  defaults = record { level = info; format = text; exports = false }

  -- The options of a service's newLogger, in their order; its provider is never nil.
  unfoldable pub settings : Log → Settings
  settings l = with_logger_provider true (with_format l.format (with_level l.level defaults))

-- The names of a level and of a format in the configuration.
abbrev pub level_name : Level → String
level_name debug = "debug"
level_name info = "info"
level_name warn = "warn"
level_name error = "error"

abbrev pub format_name : Format → String
format_name text = "text"
format_name json = "json"

module _ (to_lower : String → String) where
  level_named :
      (s : String) → elem s levels ≡ true → to_lower s ≡ s → level_name (level_of to_lower s) ≡ s
  unfolding level_of
  level_named =
      elem_induction (λ s. to_lower s ≡ s → level_name (level_of to_lower s) ≡ s) levels
        (λ h. rw h refl, (λ h. rw h refl, (λ h. rw h refl, (λ h. rw h refl, tt))))

  format_named :
      (s : String) → elem s formats ≡ true → to_lower s ≡ s → format_name (format_of to_lower s) ≡ s
  unfolding format_of
  format_named =
      elem_induction (λ s. to_lower s ≡ s → format_name (format_of to_lower s) ≡ s) formats
        (λ h. rw h refl, (λ h. rw h refl, tt))

  -- With a valid configuration of logs a service logs at the level and in the format that it names,
  -- and to OpenTelemetry; strings.ToLower is assumed to leave the listed names as they are.
  pub settings_named :
      (l : Log)
      → IsValidLog l
      → All (λ s. to_lower s ≡ s) levels
      → All (λ s. to_lower s ≡ s) formats
      → (level_name (settings to_lower l).level ≡ l.level)
        × (format_name (settings to_lower l).format ≡ l.format)
        × ((settings to_lower l).exports ≡ true)
  unfolding settings
  settings_named l v hl hf = (
    level_named l.level v.level (elem_induction (λ s. to_lower s ≡ s) levels hl l.level v.level),
    format_named l.format v.format
        (elem_induction (λ s. to_lower s ≡ s) formats hf l.format v.format),
    refl,
  )
