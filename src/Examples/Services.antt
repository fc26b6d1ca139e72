-- ===== src/Examples/Services.antt =====
-- The theorems on configuration and on the life of a service, run on the order service and on a
-- failing notification service.
use delivery_backend.Base.{
  zero, suc, arith, String, ◌≡◌, ◌↔◌, ◌≢◌, refl, ◌⊎◌, inl, inr, Bool, true, false, not, Bool-cases,
  ◌||◌, Option, some, List, [], ◌∷◌, All, ◌==◌, eq_iff,
}
use delivery_backend.Base.Int.{ℤ, pos, negsuc, ◌≤ℤ◌, leb_ℤ}
use delivery_backend.Errors.{Err, nil, sentinel, foreign, wrapped, success, failure, joined, join}
use delivery_backend.AppErr.Code.Laws.{elem}
use delivery_backend.Config.{
  Rules, new_config, validate_app, validate_log, validate_pg, validate_grpc_server, validate_peer,
  validate_telemetry, validate_debug,
}
use delivery_backend.Config.Services.{order_service, OrderConfig, validate, validate_order}
use delivery_backend.Closer.{close, close_all}
use delivery_backend.Lifecycle.{World, Init, empty, new_pool, open_one, do_step, run_steps, new_app}
use delivery_backend.Lifecycle.Services.{order_steps, debug_steps, new_service}
use delivery_backend.Lifecycle.Main.{Serving, run, main}
use delivery_backend.Lifecycle.Laws.{Leaves}
use delivery_backend.Lifecycle.NoLeak.{main-Leaves}
use delivery_backend.Telemetry.Build as telemetry
use delivery_backend.Telemetry.Build.{Url, is_endpoint_url}
use delivery_backend.Lifecycle.Wiring.{sections, telemetry_config, telemetry_accepted}
use delivery_backend.Lifecycle.ExitCode.{IsClean, main-0}

abbrev blank : Err
blank = foreign "cannot be blank"

abbrev refuse_unless : Bool → Err
refuse_unless true = nil
refuse_unless false = blank

unless-nil : (b : Bool) → refuse_unless b ≡ nil → b ≡ true
unless-nil true h = refl
unless-nil false h = absurd (cc h)

abbrev is_empty : List String → Bool
is_empty [] = true
is_empty (x ∷ xs) = false

abbrev min_ok : ℤ → ℤ → Bool
min_ok n (pos zero) = true
min_ok n v = leb_ℤ n v

min_ok_at_least : (n v : ℤ) → min_ok n v ≡ true → (v ≡ pos 0) ⊎ (n ≤ℤ v)
min_ok_at_least n (pos zero) h = inl refl
min_ok_at_least n (pos (suc k)) h = inr (ground arith)
min_ok_at_least n (negsuc k) h = inr (ground arith)

abbrev all_nil : List (String × Err) → Err
all_nil [] = nil
all_nil ((k, e) ∷ es) = join e (all_nil es)

join-nil : (a b : Err) → join a b ≡ nil → (a ≡ nil) × (b ≡ nil)
unfolding join
join-nil nil b h = (refl, h)
join-nil (sentinel t) b h = absurd (cc h)
join-nil a b h = absurd (cc h)

all_nil-nil : (es : List (String × Err)) → all_nil es ≡ nil → All (λ e. e.1 ≡ nil) es
all_nil-nil [] h = tt
all_nil-nil ((k, e) ∷ es) h =
    let both = join-nil e (all_nil es) h in (both.0, all_nil-nil es both.1)

not_blank : (s : String) → refuse_unless (not (s == "")) ≡ nil → s ≢ ""
not_blank s h e = absurd (cc (unless-nil _ h, e))

not_empty_list : (l : List String) → refuse_unless (not (is_empty l)) ≡ nil → l ≢ []
not_empty_list [] h e = absurd (cc h)
not_empty_list (x ∷ xs) h e = absurd (cc e)

one_of_listed :
    (ks : List String) (s : String)
    → refuse_unless (s == "" || elem s ks) ≡ nil
    → (s ≡ "") ⊎ (elem s ks ≡ true)
one_of_listed ks s h = elim (Bool-cases (s == "")) [
  | inl e ↦ inl ((eq_iff s "").0 e)
  | inr e ↦ inr (rw e at (unless-nil _ h))
]

-- Rules that refuse what the names say.
abbrev rules : Rules
rules = record {
  required = λ s. refuse_unless (not (s == ""));
  required_list = λ l. refuse_unless (not (is_empty l));
  one_of = λ ks s. refuse_unless (s == "" || elem s ks);
  min = λ n v. refuse_unless (min_ok n v);
  struct_errors = all_nil;
  required-nil = not_blank;
  required_list-nil = not_empty_list;
  one_of-nil = one_of_listed;
  min-nil = λ n v h. min_ok_at_least n v (unless-nil _ h);
  struct_errors-nil = all_nil-nil;
}

abbrev settings : OrderConfig
settings = record {
  app = record { name = "order" };
  log = record { level = "info"; format = "json" };
  pg = record { dsn = "postgres://db"; max_conns = pos 0 };
  grpc_server = record { addr = ":50051"; reflection = false };
  user_service = record { addr = "user:50051" };
  product_service = record { addr = "product:50051" };
  telemetry = record { enabled = false; endpoint = "" };
  debug = record { addr = ""; mutex_fraction = pos 0; block_rate = pos 0 };
}

abbrev exporting : OrderConfig
exporting = record settings {
  telemetry = record { enabled = true; endpoint = "http://collector:4317" };
}

exporting_accepted :
    new_config (validate rules order_service) (success exporting) ≡ success exporting
unfolding new_config validate_order validate_app validate_log validate_pg validate_grpc_server
    validate_peer validate_telemetry validate_debug join
exporting_accepted = refl

abbrev parse : String → Option Url
parse s = some ("http", "collector")

telemetry_accepted_example :
    (telemetry.validate parse (telemetry_config (sections order_service exporting)) ≡ nil)
    ⊎ ((true ≡ true) × (is_endpoint_url parse "http://collector:4317" ≡ false))
telemetry_accepted_example =
    telemetry_accepted parse rules order_service (success exporting) exporting exporting_accepted

-- Everything works.
abbrev calm : World
calm = record {
  open_error = λ r. nil;
  close_error = λ r. nil;
  parse_error = nil;
  ping_error = nil;
  stats_error = nil;
  validator_error = nil;
}

-- The database does not answer.
abbrev stormy : World
stormy = record calm { ping_error = foreign "db is down" }

fails :
    (new_app stormy order_steps (success settings)).0
    ≡ failure (joined (wrapped "postgres: ping: " (foreign "db is down") "") nil)
unfolding new_app run_steps do_step open_one new_pool close close_all join
fails = refl

abbrev serving : Serving
serving = record { main_error = nil; has_debug = false; debug_error = nil; debug_first = false }

main-Leaves_example : Leaves [] (main stormy order_service serving order_steps (success settings)).1
main-Leaves_example = main-Leaves stormy order_service serving order_steps (success settings)

abbrev ready : Init
ready = (run_steps calm (order_steps settings) (empty calm)).1

starts : (new_service rules calm order_service (success settings)).0 ≡ success ready
unfolding new_app run_steps do_step open_one new_pool debug_steps new_config validate_order
    validate_app validate_log validate_pg validate_grpc_server validate_peer validate_telemetry
    validate_debug join
starts = refl

main-0_example :
    ((main calm order_service serving order_steps (success settings)).0 ≡ 0)
    ↔ IsClean (run order_service serving) (new_app calm order_steps (success settings))
main-0_example = main-0 calm order_service serving order_steps (success settings)
