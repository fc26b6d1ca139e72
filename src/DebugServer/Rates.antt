-- ===== src/DebugServer/Rates.antt =====
-- platform/debugserver/server.go: the profiling rates around Serve.
use delivery_backend.Base.{ℕ, zero, suc, ◌≡◌, refl, Bool, true, false, if◌then◌else◌}
use delivery_backend.Base.Int.{ℤ, pos, negsuc}

-- applyProfileRates and what it returns, on the rates of the runtime. Setting the fraction gives the
-- one before; a negative one would only read it.
pub record Profiling : Type 0 where
  pub mutex : ℕ
  pub block : ℕ

abbrev pub set_mutex : ℤ → Profiling → Profiling
set_mutex (negsuc n) s = s
set_mutex (pos n) s = record s { mutex = n }

-- The state after applying, and `prevMutex`.
abbrev pub apply_mutex : ℤ → Profiling → Profiling × ℤ
apply_mutex (pos (suc n)) s = (set_mutex (pos (suc n)) s, pos s.mutex)
apply_mutex fraction s = (s, negsuc 0)

abbrev pub apply_block : ℤ → Profiling → Profiling
apply_block (pos (suc n)) s = record s { block = suc n }
apply_block rate s = s

abbrev pub reset_mutex : ℤ → Profiling → Profiling
reset_mutex (pos n) s = record s { mutex = n }
reset_mutex (negsuc n) s = s

abbrev pub reset_block : ℤ → Profiling → Profiling
reset_block (pos (suc n)) s = record s { block = 0 }
reset_block rate s = s

-- Serve with the rates around it; `run` is what happens to them in between.
unfoldable pub with_rates : ℤ → ℤ → (Profiling → Profiling) → Profiling → Profiling
with_rates fraction rate run s =
    let (s', prev) = apply_mutex fraction s in
    reset_block rate (reset_mutex prev (run (apply_block rate s')))

abbrev pub is_set : ℤ → Bool
is_set (pos (suc n)) = true
is_set (pos zero) = false
is_set (negsuc n) = false

-- When Serve has returned, the mutex fraction is what it was before, if Serve has set one, and the
-- block rate is 0, if Serve has set one, whatever was done to them in between; a rate that is not
-- positive leaves what was done.
pub with_rates_restores :
    (fraction rate : ℤ) (run : Profiling → Profiling) (s : Profiling)
    → let ran = run (apply_block rate (apply_mutex fraction s).0) in
      ((with_rates fraction rate run s).mutex ≡ (if is_set fraction then s.mutex else ran.mutex))
      × ((with_rates fraction rate run s).block ≡ (if is_set rate then 0 else ran.block))
unfolding with_rates
with_rates_restores (pos (suc n)) (pos (suc m)) run s = (refl, refl)
with_rates_restores (pos (suc n)) (pos zero) run s = (refl, refl)
with_rates_restores (pos (suc n)) (negsuc m) run s = (refl, refl)
with_rates_restores (pos zero) (pos (suc m)) run s = (refl, refl)
with_rates_restores (pos zero) (pos zero) run s = (refl, refl)
with_rates_restores (pos zero) (negsuc m) run s = (refl, refl)
with_rates_restores (negsuc n) (pos (suc m)) run s = (refl, refl)
with_rates_restores (negsuc n) (pos zero) run s = (refl, refl)
with_rates_restores (negsuc n) (negsuc m) run s = (refl, refl)
