-- ===== src/DebugServer/Options.antt =====
-- platform/debugserver (New of server.go and options.go): the settings of the debug server.
--
-- Timeouts are numbers of nanoseconds, and one that is negative is taken as zero, which the source
-- treats alike; the rates are integers; loggers are left out.
use delivery_backend.Base.{ℕ, zero, suc, ◌*◌, ◌<◌, arith, List, [], ◌∷◌}
use delivery_backend.Base.Int.{ℤ, pos}

pub record Timeouts : Type 0 where
  pub read_header : ℕ
  pub write : ℕ
  pub idle : ℕ
  pub shutdown : ℕ

pub record Settings : Type 0 where
  pub timeouts : Timeouts
  pub mutex_fraction : ℤ
  pub block_rate : ℤ

abbrev pub second : ℕ
second = 1000000000

abbrev pub defaults : Settings
defaults = record {
  timeouts = record {
    read_header = 5 * second;
    write = 65 * second;
    idle = 60 * second;
    shutdown = 10 * second;
  };
  mutex_fraction = pos 0;
  block_rate = pos 0;
}

pub data Option : Type 0 where
  with_mutex_profile_fraction with_block_profile_rate : ℤ → Option
  with_timeouts : Timeouts → Option

-- A field that is zero leaves what is there.
abbrev pub or_kept : ℕ → ℕ → ℕ
or_kept zero kept = kept
or_kept (suc n) kept = suc n

abbrev pub apply_timeouts : Timeouts → Timeouts → Timeouts
apply_timeouts t s = record {
  read_header = or_kept t.read_header s.read_header;
  write = or_kept t.write s.write;
  idle = or_kept t.idle s.idle;
  shutdown = or_kept t.shutdown s.shutdown;
}

unfoldable pub apply : Option → Settings → Settings
apply (with_mutex_profile_fraction n) s = record s { mutex_fraction = n }
apply (with_block_profile_rate n) s = record s { block_rate = n }
apply (with_timeouts t) s = record s { timeouts = apply_timeouts t s.timeouts }

abbrev pub apply_all : List Option → Settings → Settings
apply_all [] s = s
apply_all (o ∷ os) s = apply_all os (apply o s)

-- New
unfoldable pub new : List Option → Settings
new os = apply_all os defaults

-- No timeout of a server is zero, which would mean none.
pub record IsLimited (t : Timeouts) : Type 0 where
  pub read_header : 0 < t.read_header
  pub write : 0 < t.write
  pub idle : 0 < t.idle
  pub shutdown : 0 < t.shutdown

or_kept-positive : (n kept : ℕ) → 0 < kept → 0 < or_kept n kept
or_kept-positive zero kept h = h
or_kept-positive (suc n) kept h = omega arith

apply-IsLimited :
    (o : Option) (s : Settings) → IsLimited s.timeouts → IsLimited (apply o s).timeouts
unfolding apply
apply-IsLimited (with_mutex_profile_fraction n) s i = i
apply-IsLimited (with_block_profile_rate n) s i = i
apply-IsLimited (with_timeouts t) s i = record {
  read_header = or_kept-positive t.read_header s.timeouts.read_header i.read_header;
  write = or_kept-positive t.write s.timeouts.write i.write;
  idle = or_kept-positive t.idle s.timeouts.idle i.idle;
  shutdown = or_kept-positive t.shutdown s.timeouts.shutdown i.shutdown;
}

apply_all-IsLimited :
    (os : List Option) (s : Settings) → IsLimited s.timeouts → IsLimited (apply_all os s).timeouts
apply_all-IsLimited [] s i = i
apply_all-IsLimited (o ∷ os) s i = apply_all-IsLimited os (apply o s) (apply-IsLimited o s i)

-- Whatever the options, no timeout of a new debug server is switched off.
pub new-IsLimited : (os : List Option) → IsLimited (new os).timeouts
unfolding new
new-IsLimited os = apply_all-IsLimited os defaults (record {
  read_header = omega arith;
  write = omega arith;
  idle = omega arith;
  shutdown = omega arith;
})
