-- ===== src/Lifecycle/NoLeak.antt =====
-- services/*/internal/app/app.go and services/*/cmd/main.go: what is still open at the end.
use delivery_backend.Base.{◌≡◌, refl, sym, subst, List, []}
use delivery_backend.Errors.{Err, nil, sentinel, Result, success, failure, success_injective}
use delivery_backend.Closer.{close}
use delivery_backend.Config.Services.{Service}
use delivery_backend.Lifecycle.{
  World, Resource, Event, Init, Step, run_steps, deferred, empty, new_app,
}
use delivery_backend.Lifecycle.Laws.{
  Leaves, start, onto, IsReady, IsRun, run_steps-IsRun, close-Leaves,
}
use delivery_backend.Lifecycle.Main.{Serving, run, run_and_close, finish, main}

module _ (w : World) where
  empty-IsReady : IsReady w [] (empty w)
  empty-IsReady = record { leaves = start; funcs = refl }

  -- What a New that returns with `p` has left open, given what its steps have.
  record IsNew (ss : List Step) (p : Result Init × List Event) : Type 0 where
    pub on_failure : (err : Err) → p.0 ≡ failure err → Leaves [] p.1
    pub on_success : (st : Init) → p.0 ≡ success st → IsReady w (onto ss []) st × (p.1 ≡ st.log)

  failed-IsNew :
      (ss : List Step) (rs : List Resource) (st : Init) (err : Err)
      → IsReady w rs st
      → IsNew ss (failure err, (close st.closer st.log).0.1)
  failed-IsNew ss rs st err i = record {
    on_failure = λ e h. close-Leaves w rs st i;
    on_success = λ st' h. absurd (cc h);
  }

  made-IsNew :
      (ss : List Step) (st : Init) → IsReady w (onto ss []) st → IsNew ss (success st, st.log)
  made-IsNew ss st i = record {
    on_failure = λ e h. absurd (cc h);
    on_success = λ st' h.
        subst (λ x. IsReady w (onto ss []) x × (st.log ≡ x.log)) (success_injective h) (i, refl);
  }

  deferred-IsNew : (ss : List Step) (p : Err × Init) → IsRun w ss [] p → IsNew ss (deferred w p)
  deferred-IsNew ss (nil, st) i =
      made-IsNew ss st (subst (λ rs. IsReady w rs st) (i.complete refl) i.ready)
  deferred-IsNew ss (sentinel t, st) i = failed-IsNew ss i.resources st _ i.ready
  deferred-IsNew ss (err, st) i = failed-IsNew ss i.resources st _ i.ready

  empty-IsRun : (err : Err) → IsRun w [] [] (err, empty w)
  empty-IsRun err = record { resources = []; ready = empty-IsReady; complete = λ h. refl }

  new_app-IsNew {ℓ} :
      {C : Type ℓ} (plan : C → List Step) (c : C) → IsNew (plan c) (new_app w plan (success c))
  unfolding new_app
  new_app-IsNew plan c =
      deferred-IsNew (plan c) (run_steps w (plan c) (empty w))
        (run_steps-IsRun w (plan c) (empty w) empty-IsReady)

  -- Whatever it was that failed, a New that returns an error has closed everything that it had
  -- opened, the last resource first.
  pub new_app_failure {ℓ} :
      {C : Type ℓ} (plan : C → List Step) (parsed : Result C) (err : Err)
      → (new_app w plan parsed).0 ≡ failure err
      → Leaves [] (new_app w plan parsed).1
  unfolding new_app
  new_app_failure plan (failure e) err h =
      (deferred-IsNew [] (e, empty w) (empty-IsRun e)).on_failure err h
  new_app_failure plan (success c) err h = (new_app-IsNew plan c).on_failure err h

  run_and_close-Leaves :
      (run_err : Err) (rs : List Resource) (st : Init) (log : List Event)
      → IsReady w rs st
      → log ≡ st.log
      → Leaves [] (run_and_close run_err st log).1
  unfolding run_and_close
  run_and_close-Leaves run_err rs st log i e =
      subst (λ l. Leaves [] (close st.closer l).0.1) (sym e) (close-Leaves w rs st i)

  finish-Leaves :
      (run_err : Err) (ss : List Step) (p : Result Init × List Event)
      → IsNew ss p
      → Leaves [] (finish run_err p).1
  finish-Leaves run_err ss (failure err, log) i = i.on_failure err refl
  finish-Leaves run_err ss (success st, log) i =
      let made = i.on_success st refl in
      run_and_close-Leaves run_err (onto ss []) st log made.0 made.1

  -- When main returns, everything that New opened is closed again, the last resource first:
  -- whatever failed in New, in Run or in closing.
  pub main-Leaves {ℓ} :
      {C : Type ℓ} (s : Service) (v : Serving) (plan : C → List Step) (parsed : Result C)
      → Leaves [] (main w s v plan parsed).1
  unfolding main new_app
  main-Leaves s v plan (failure err) =
      finish-Leaves (run s v) [] _ (deferred-IsNew [] (err, empty w) (empty-IsRun err))
  main-Leaves s v plan (success c) = finish-Leaves (run s v) (plan c) _ (new_app-IsNew plan c)
