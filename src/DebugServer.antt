-- ===== src/DebugServer.antt =====
-- platform/debugserver/handlers.go: the endpoints of pprof.
--
-- strconv.Atoi is the parameter `atoi`: the number, and whether there is no error; a float64 of seconds is taken as
-- the exact number. The profiles of the runtime, the symbols and the texts of errors are parameters. A
-- response is its status, the two headers that matter, its body, and how long it took.
pub mod Laws
pub mod Rates
pub mod Options
pub mod Routes
use Prim.Native.String.{◌++◌ as concat}
use delivery_backend.Base.{
  ℕ, zero, suc, ◌*◌, leb, String, Bool, true, false, not, ◌&&◌, Option, none, some, ◌⊎◌, inl, inr,
  List, [], ◌∷◌, ◌==◌, if◌then◌else◌,
}
use delivery_backend.Base.Int.{ℤ, pos, negsuc}

pub record Response : Type 0 where
  pub status : ℕ
  pub content_type : String
  pub disposition : String
  pub body : String
  -- nanoseconds
  pub sleeps : ℕ

-- http.Error and http.NotFound, which set the type of a text themselves.
abbrev pub plain : String
plain = "text/plain; charset=utf-8"

abbrev pub http_error : ℕ → String → Response
http_error status message = record {
  status = status;
  content_type = plain;
  disposition = "";
  body = concat message "\n";
  sleeps = 0;
}

abbrev pub not_found : Response
not_found = http_error 404 "404 page not found"

abbrev pub octets : String
octets = "application/octet-stream"

abbrev pub second : ℕ
second = 1000000000

-- The form values that the handlers read.
pub record Form : Type 0 where
  pub seconds : String
  pub debug : String
  pub gc : String

module _ (atoi : String → ℤ × Bool) where
  -- secondsParam
  abbrev pub positive_or : ℕ → ℤ × Bool → ℕ
  positive_or def (pos (suc n), true) = suc n
  positive_or def (pos (suc n), false) = def
  positive_or def (pos zero, b) = def
  positive_or def (negsuc n, b) = def

  unfoldable pub seconds_param : Form → ℕ → ℕ
  seconds_param f def = positive_or def (atoi f.seconds)

  -- exceedsWriteTimeout; `none` where the context has no server.
  unfoldable pub exceeds_write_timeout : Option ℕ → ℕ → Bool
  exceeds_write_timeout none seconds = false
  exceeds_write_timeout (some zero) seconds = false
  exceeds_write_timeout (some (suc t)) seconds = leb (suc t) (seconds * second)

  -- handleCPUProfile and handleTrace, with the error of starting.
  abbrev pub started : String → ℕ → String → Option String → Response
  started name seconds what none = record {
    status = 200;
    content_type = octets;
    disposition = concat "attachment; filename=\"" (concat name "\"");
    body = "";
    sleeps = seconds * second;
  }
  started name seconds what (some err) = http_error 500 (concat what err)

  unfoldable pub handle_cpu_profile : Option ℕ → Form → Option String → Response
  handle_cpu_profile timeout f start_error =
      let seconds = seconds_param f 30 in
      if exceeds_write_timeout timeout seconds
      then http_error 400 "profile duration exceeds server's WriteTimeout"
      else started "profile" seconds "could not enable CPU profiling: " start_error

  unfoldable pub handle_trace : Option ℕ → Form → Option String → Response
  handle_trace timeout f start_error =
      let seconds = seconds_param f 1 in
      if exceeds_write_timeout timeout seconds
      then http_error 400 "trace duration exceeds server's WriteTimeout"
      else started "trace" seconds "could not enable tracing: " start_error

  -- parseDebug
  abbrev pub nonnegative : ℤ × Bool → Option ℕ
  nonnegative (pos n, true) = some n
  nonnegative (pos n, false) = none
  nonnegative (negsuc n, b) = none

  unfoldable pub parse_debug : Form → Option ℕ
  parse_debug f = if f.debug == "" then some 0 else nonnegative (atoi f.debug)

  -- handleNamedProfile: `lookup` is pprof.Lookup, the text of a profile at a debug level, and
  -- `quote` the verb %q. The result has whether the collector is run.
  abbrev pub is_positive : ℤ → Bool
  is_positive (negsuc n) = false
  is_positive (pos zero) = false
  is_positive (pos (suc n)) = true

  abbrev pub profile : String → (ℕ → String) → ℕ → Response
  profile name write zero = record {
    status = 200;
    content_type = octets;
    disposition = concat "attachment; filename=\"" (concat name "\"");
    body = write 0;
    sleeps = 0;
  }
  profile name write (suc d) = record {
    status = 200;
    content_type = plain;
    disposition = "";
    body = write (suc d);
    sleeps = 0;
  }

  abbrev pub with_debug :
      (String → String) → Form → String → (ℕ → String) → Option ℕ → Bool × Response
  with_debug quote f name write none =
      (false, http_error 400 (concat "invalid debug: " (quote f.debug)))
  with_debug quote f name write (some d) =
      (is_positive (atoi f.gc).0 && (name == "heap"), profile name write d)

  unfoldable pub handle_named_profile :
      (String → String) → (String → Option (ℕ → String)) → Form → String → Bool × Response
  handle_named_profile quote lookup f name = elim (lookup name) [
    | none ↦ (false, not_found)
    | some write ↦ with_debug quote f name write (parse_debug f)
  ]

-- handleSymbol: the addresses of the body, of which those that are no numbers or have no function
-- are left out. `parse` is strconv.ParseUint after strings.TrimSpace, `function` names the function at an address,
-- and `line` formats them.
module _ (parse : String → Option ℕ) (function : ℕ → Option String)
    (line : ℕ → String → String) where
  abbrev pub symbol_line : Option ℕ → String
  symbol_line none = ""
  symbol_line (some pc) = elim (function pc) [ none ↦ "" | some name ↦ line pc name ]

  unfoldable pub symbols : List String → String
  symbols [] = ""
  symbols (f ∷ fs) = concat (symbol_line (parse f)) (symbols fs)

  abbrev pub text_response : String → Response
  text_response body = record {
    status = 200;
    content_type = plain;
    disposition = "";
    body = body;
    sleeps = 0;
  }

  -- `body` is the body split at `+`, or the error of reading it.
  abbrev pub symbols_of : List String ⊎ String → Response
  symbols_of (inl fields) = text_response (symbols fields)
  symbols_of (inr err) = http_error 400 (concat "read body: " err)

  unfoldable pub handle_symbol : String → List String ⊎ String → Response
  handle_symbol method body =
      if method == "GET" then text_response "num_symbols: 1\n" else symbols_of body
