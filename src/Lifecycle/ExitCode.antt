-- ===== src/Lifecycle/ExitCode.antt =====
-- services/*/cmd/main.go: when the exit code is 0.
use delivery_backend.Base.{◌≡◌, ◌↔◌, refl, sym, List, ℕ, arith, subst}
use delivery_backend.Errors.{Err, nil, sentinel, Result, success, failure, success_injective}
use delivery_backend.Closer.{close}
use delivery_backend.Config.Services.{Service}
use delivery_backend.Lifecycle.{World, Event, Init, Step, new_app}
use delivery_backend.Lifecycle.Main.{Serving, run, code_of, run_and_close, finish, main}

-- New succeeded with `st` and the log `p.1`, and Run and Close succeeded.
pub record IsClean (run_err : Err) (p : Result Init × List Event) : Type 0 where
  pub made : Init
  pub made-success : p.0 ≡ success made
  pub run-nil : run_err ≡ nil
  pub close-nil : (close made.closer p.1).0.0 ≡ nil

code_of-0 : (err : Err) (code : ℕ) → code_of err code ≡ 0 → (err ≡ nil) × (code ≡ 0)
code_of-0 nil code h = (refl, h)
code_of-0 (sentinel t) code h = absurd (omega (arith, h))
code_of-0 err code h = absurd (omega (arith, h))

finish-0 :
    (run_err : Err) (p : Result Init × List Event) → (finish run_err p).0 ≡ 0 → IsClean run_err p
unfolding run_and_close
finish-0 run_err (failure err, log) h = absurd (omega (arith, h))
finish-0 run_err (success st, log) h =
    let outer = code_of-0 (close st.closer log).0.0 (code_of run_err 0) h in
    record {
      made = st;
      made-success = refl;
      run-nil = (code_of-0 run_err 0 outer.1).0;
      close-nil = outer.0;
    }

clean-0 :
    (run_err : Err) (p : Result Init × List Event) → IsClean run_err p → (finish run_err p).0 ≡ 0
unfolding run_and_close
clean-0 run_err (failure err, log) i = absurd (cc i.made-success)
clean-0 run_err (success st, log) i =
    let closes =
      subst (λ x. (close x.closer log).0.0 ≡ nil) (sym (success_injective i.made-success))
        i.close-nil in
    rw (closes, i.run-nil) refl

module _ {ℓ} {C : Type ℓ} (w : World) (s : Service) (v : Serving) (plan : C → List Step)
    (parsed : Result C) where
  -- The exit code is 0 exactly if New, Run and closing all succeed.
  pub main-0 : ((main w s v plan parsed).0 ≡ 0) ↔ IsClean (run s v) (new_app w plan parsed)
  unfolding main
  main-0 = (
    (λ h. finish-0 (run s v) (new_app w plan parsed) h),
    (λ i. clean-0 (run s v) (new_app w plan parsed) i),
  )
