-- ===== src/DebugServer/Laws.antt =====
-- platform/debugserver/handlers.go: how long a profile may take.
use delivery_backend.Base.{
  Bool, ℕ, zero, suc, ◌*◌, ◌<◌, leb, arith, String, ◌≡◌, inl, inr, false, Bool-cases, Option, none,
  some, if◌then◌else◌,
}
use delivery_backend.Base.Int.{ℤ}
use delivery_backend.DebugServer.{
  http_error, second, Form, seconds_param, exceeds_write_timeout, started, handle_cpu_profile,
  handle_trace,
}

not_above : (t n : ℕ) → leb t n ≡ false → n < t
not_above t n h = ground arith

module _ (atoi : String → ℤ × Bool) where
  within_timeout :
      (timeout seconds : ℕ)
      → 0 < timeout
      → exceeds_write_timeout atoi (some timeout) seconds ≡ false
      → seconds * second < timeout
  unfolding exceeds_write_timeout
  within_timeout zero seconds h e = absurd (omega (arith, h))
  within_timeout (suc t) seconds h e = not_above (suc t) (seconds * second) e

  started-sleeps :
      (name what : String) (seconds timeout : ℕ) (start_error : Option String)
      → 0 < timeout
      → seconds * second < timeout
      → (started atoi name seconds what start_error).sleeps < timeout
  started-sleeps name what seconds timeout none h e = e
  started-sleeps name what seconds timeout (some err) h e = h

  guarded :
      (name what refusal : String) (seconds timeout : ℕ) (start_error : Option String)
      → 0 < timeout
      → (if exceeds_write_timeout atoi (some timeout) seconds
          then http_error 400 refusal
          else started atoi name seconds what start_error).sleeps
        < timeout
  guarded name what refusal seconds timeout start_error h =
      elim (Bool-cases (exceeds_write_timeout atoi (some timeout) seconds)) [
        | inl e ↦ rw e h
        | inr e ↦ rw e (
            started-sleeps name what seconds timeout start_error h
              (within_timeout timeout seconds h e))
      ]

  -- Whatever a request asks for, neither the CPU profile nor the trace waits as long as the server's
  -- write timeout, if it has one.
  pub profiles_bounded :
      (timeout : ℕ) (f : Form) (start_error : Option String)
      → 0 < timeout
      → ((handle_cpu_profile atoi (some timeout) f start_error).sleeps < timeout)
        × ((handle_trace atoi (some timeout) f start_error).sleeps < timeout)
  unfolding handle_cpu_profile handle_trace
  profiles_bounded timeout f start_error h = (
    guarded "profile" "could not enable CPU profiling: "
        "profile duration exceeds server's WriteTimeout" (seconds_param atoi f 30) timeout
        start_error h,
    guarded "trace" "could not enable tracing: " "trace duration exceeds server's WriteTimeout"
        (seconds_param atoi f 1) timeout start_error h,
  )
