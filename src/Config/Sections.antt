-- ===== src/Config/Sections.antt =====
-- services/*/internal/config/config.go: what a valid section of a configuration satisfies.
use delivery_backend.Base.{
  String, Bool, true, false, ◌≡◌, ◌≢◌, refl, subst, ◌⊎◌, inl, inr, List, [], if◌then◌else◌,
}
use delivery_backend.Base.Int.{ℤ, pos, ◌≤ℤ◌}
use delivery_backend.Errors.{Err, nil, sentinel, Result, success, failure, success_injective}
use delivery_backend.AppErr.Code.Laws.{elem}
use delivery_backend.Config.{
  Rules, then_rule, App, Log, Pg, GrpcServer, Peer, Http, FakeAuth, Kafka, Telemetry, Debug, levels,
  formats, validate_app, validate_log, validate_pg, validate_grpc_server, validate_peer,
  validate_http, validate_fake_auth, validate_kafka, validate_telemetry, validate_debug, new_config,
  valid,
}

then_rule-nil : (a b : Err) → then_rule a b ≡ nil → (a ≡ nil) × (b ≡ nil)
then_rule-nil nil b h = (refl, h)
then_rule-nil (sentinel t) b h = absurd (cc h)
then_rule-nil a b h = absurd (cc h)

one_of_nonempty :
    (s : String) (ks : List String) → (s ≡ "") ⊎ (elem s ks ≡ true) → s ≢ "" → elem s ks ≡ true
one_of_nonempty s ks (inl e) n = absurd (n e)
one_of_nonempty s ks (inr e) n = e

-- A number that is not set, or at least the least one allowed.
abbrev pub IsAtLeast : ℤ → ℤ → Type 0
IsAtLeast n v = (v ≡ pos 0) ⊎ (n ≤ℤ v)

pub record IsValidLog (l : Log) : Type 0 where
  pub level : elem l.level levels ≡ true
  pub format : elem l.format formats ≡ true

pub record IsValidPg (p : Pg) : Type 0 where
  pub dsn : p.dsn ≢ ""
  pub max_conns : IsAtLeast (pos 1) p.max_conns

pub record IsValidTelemetry (t : Telemetry) : Type 0 where
  pub endpoint : t.enabled ≡ true → t.endpoint ≢ ""

pub record IsValidDebug (d : Debug) : Type 0 where
  pub mutex_fraction : IsAtLeast (pos 0) d.mutex_fraction
  pub block_rate : IsAtLeast (pos 0) d.block_rate

pub record IsValidKafka (k : Kafka) : Type 0 where
  pub brokers : k.brokers ≢ []
  pub consumer_group : k.consumer_group ≢ ""
  pub topics : k.topics ≢ []

module _ (r : Rules) where
  pub app_valid : (a : App) → validate_app r a ≡ nil → a.name ≢ ""
  unfolding validate_app
  app_valid a h = r.required-nil a.name (r.struct_errors-nil _ h).0

  pub log_valid : (l : Log) → validate_log r l ≡ nil → IsValidLog l
  unfolding validate_log
  log_valid l h =
      let es = r.struct_errors-nil _ h in
      let level = then_rule-nil _ _ es.0 in
      let format = then_rule-nil _ _ es.1.0 in
      record {
        level =
            one_of_nonempty l.level levels (r.one_of-nil levels l.level level.1)
              (r.required-nil l.level level.0);
        format =
            one_of_nonempty l.format formats (r.one_of-nil formats l.format format.1)
              (r.required-nil l.format format.0);
      }

  pub pg_valid : (p : Pg) → validate_pg r p ≡ nil → IsValidPg p
  unfolding validate_pg
  pg_valid p h =
      let es = r.struct_errors-nil _ h in
      record { dsn = r.required-nil p.dsn es.0; max_conns = r.min-nil (pos 1) p.max_conns es.1.0 }

  pub grpc_valid : (g : GrpcServer) → validate_grpc_server r g ≡ nil → g.addr ≢ ""
  unfolding validate_grpc_server
  grpc_valid g h = r.required-nil g.addr (r.struct_errors-nil _ h).0

  pub peer_valid : (p : Peer) → validate_peer r p ≡ nil → p.addr ≢ ""
  unfolding validate_peer
  peer_valid p h = r.required-nil p.addr (r.struct_errors-nil _ h).0

  pub http_valid : (x : Http) → validate_http r x ≡ nil → x.addr ≢ ""
  unfolding validate_http
  http_valid x h = r.required-nil x.addr (r.struct_errors-nil _ h).0

  pub fake_auth_valid : (f : FakeAuth) → validate_fake_auth r f ≡ nil → f.user_id ≢ ""
  unfolding validate_fake_auth
  fake_auth_valid f h = r.required-nil f.user_id (r.struct_errors-nil _ h).0

  pub kafka_valid : (k : Kafka) → validate_kafka r k ≡ nil → IsValidKafka k
  unfolding validate_kafka
  kafka_valid k h =
      let es = r.struct_errors-nil _ h in
      record {
        brokers = r.required_list-nil k.brokers es.0;
        consumer_group = r.required-nil k.consumer_group es.1.0;
        topics = r.required_list-nil k.topics es.1.1.0;
      }

  required_if :
      (b : Bool) (s : String) → (if b then r.required s else nil) ≡ nil → b ≡ true → s ≢ ""
  required_if true s h e = r.required-nil s h
  required_if false s h e = absurd (cc)

  pub telemetry_valid : (t : Telemetry) → validate_telemetry r t ≡ nil → IsValidTelemetry t
  unfolding validate_telemetry
  telemetry_valid t h = record {
    endpoint = required_if t.enabled t.endpoint (r.struct_errors-nil _ h).0;
  }

  pub debug_valid : (d : Debug) → validate_debug r d ≡ nil → IsValidDebug d
  unfolding validate_debug
  debug_valid d h =
      let es = r.struct_errors-nil _ h in
      record {
        mutex_fraction = r.min-nil (pos 0) d.mutex_fraction es.0;
        block_rate = r.min-nil (pos 0) d.block_rate es.1.0;
      }

module _ {ℓ} {C : Type ℓ} (validate : C → Err) where
  valid-success : (c d : C) (e : Err) → valid validate c e ≡ success d → (e ≡ nil) × (c ≡ d)
  valid-success c d nil h = (refl, success_injective h)
  valid-success c d (sentinel t) h = absurd (cc h)
  valid-success c d e h = absurd (cc h)

  pub new_config-success :
      (parsed : Result C) (c : C) → new_config validate parsed ≡ success c → validate c ≡ nil
  unfolding new_config
  new_config-success (failure err) c h = absurd (cc h)
  new_config-success (success d) c h =
      let both = valid-success d c (validate d) h in subst (λ x. validate x ≡ nil) both.1 both.0
