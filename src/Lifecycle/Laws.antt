-- ===== src/Lifecycle/Laws.antt =====
-- services/*/internal/app/app.go: what New of an app opens and closes.
use delivery_backend.Base.{
  ◌≡◌, refl, sym, subst, ap, ◌∙◌, List, [], ◌∷◌, ◌++◌, map, reverse, append_assoc,
}
use mathlib.Core.List.{reverse-append}
use delivery_backend.Errors.{Err, nil, sentinel}
use delivery_backend.Closer.{close, close_all}
use delivery_backend.Lifecycle.{
  Resource, telemetry, pool, consumer, connection, listening, Event, opened, closed, World, Init,
  Step, obtain, make_validator, release, check_stats, check_ping, check_pool, check_dsn, new_pool,
  note, open_one, keep, do_step, continue, run_steps,
}

-- `Leaves rs log`: after the events of the log the resources `rs` are open, the last one first, and
-- what was closed was always the last one open.
pub data Leaves : List Resource → List Event → Type 0 where
  start : Leaves [] []
  obtained :
      {rs : List Resource} {log : List Event} (r : Resource)
      → Leaves rs log
      → Leaves (r ∷ rs) (log ++ opened r ∷ [])
  released :
      {rs : List Resource} {log : List Event} (r : Resource)
      → Leaves (r ∷ rs) log
      → Leaves rs (log ++ closed r ∷ [])

-- What is open after a call that opens `r`, or after a step, and returns the error.
abbrev pub after : Err → Resource → List Resource → List Resource
after nil r rs = r ∷ rs
after err r rs = rs

abbrev pub after_step : Err → Step → List Resource → List Resource
after_step err (obtain r) rs = after err r rs
after_step err make_validator rs = rs

-- What is open after all of the steps.
abbrev pub onto : List Step → List Resource → List Resource
onto [] rs = rs
onto (s ∷ ss) rs = onto ss (after_step nil s rs)

module _ (w : World) where
  open_then_close :
      (r : Resource) {rs : List Resource} {log : List Event}
      → Leaves rs log
      → Leaves rs (log ++ (opened r ∷ closed r ∷ []))
  open_then_close r {rs} {log} l =
      subst (Leaves rs) (append_assoc log (opened r ∷ []) (closed r ∷ []))
        (released r (obtained r l))

  note-Leaves :
      (r : Resource) (err : Err) {rs : List Resource} {log : List Event}
      → Leaves rs log
      → Leaves (after (note w r log err).0 r rs) (note w r log err).1
  note-Leaves r nil l = obtained r l
  note-Leaves telemetry (sentinel t) l = l
  note-Leaves telemetry err l = l
  note-Leaves pool err l = l
  note-Leaves consumer err l = l
  note-Leaves (connection a) err l = l
  note-Leaves (listening a) err l = l

  -- postgres.New in two steps of a failing call leaves no pool.
  check_stats-Leaves :
      (err : Err) {rs : List Resource} {log : List Event}
      → Leaves rs log
      → Leaves (after (check_stats w log err).0 pool rs) (check_stats w log err).1
  check_stats-Leaves nil l = obtained pool l
  check_stats-Leaves (sentinel t) l = open_then_close pool l
  check_stats-Leaves err l = open_then_close pool l

  check_ping-Leaves :
      (err : Err) {rs : List Resource} {log : List Event}
      → Leaves rs log
      → Leaves (after (check_ping w log err).0 pool rs) (check_ping w log err).1
  check_ping-Leaves nil l = check_stats-Leaves w.stats_error l
  check_ping-Leaves (sentinel t) l = open_then_close pool l
  check_ping-Leaves err l = open_then_close pool l

  check_pool-Leaves :
      (err : Err) {rs : List Resource} {log : List Event}
      → Leaves rs log
      → Leaves (after (check_pool w log err).0 pool rs) (check_pool w log err).1
  check_pool-Leaves nil l = check_ping-Leaves w.ping_error l
  check_pool-Leaves (sentinel t) l = l
  check_pool-Leaves err l = l

  check_dsn-Leaves :
      (err : Err) {rs : List Resource} {log : List Event}
      → Leaves rs log
      → Leaves (after (check_dsn w log err).0 pool rs) (check_dsn w log err).1
  check_dsn-Leaves nil l = check_pool-Leaves (w.open_error pool) l
  check_dsn-Leaves (sentinel t) l = l
  check_dsn-Leaves err l = l

  open_one-Leaves :
      (r : Resource) {rs : List Resource} {log : List Event}
      → Leaves rs log
      → Leaves (after (open_one w r log).0 r rs) (open_one w r log).1
  unfolding open_one new_pool
  open_one-Leaves pool l = check_dsn-Leaves w.parse_error l
  open_one-Leaves telemetry l = note-Leaves telemetry (w.open_error telemetry) l
  open_one-Leaves consumer l = note-Leaves consumer (w.open_error consumer) l
  open_one-Leaves (connection a) l = note-Leaves (connection a) (w.open_error (connection a)) l
  open_one-Leaves (listening a) l = note-Leaves (listening a) (w.open_error (listening a)) l

  -- The resources that are open are the ones that the closer will close, in that order.
  pub record IsReady (rs : List Resource) (st : Init) : Type 0 where
    pub leaves : Leaves rs st.log
    pub funcs : reverse st.closer.funcs ≡ map (release w) rs

  keep-IsReady :
      (r : Resource) (st : Init) (p : Err × List Event) {rs : List Resource}
      → IsReady rs st
      → Leaves (after p.0 r rs) p.1
      → IsReady (after (keep w r st p).0 r rs) (keep w r st p).1
  keep-IsReady r st (nil, log) i l = record {
    leaves = l;
    funcs = reverse-append st.closer.funcs (release w r ∷ []) ∙ ap (λ fs. release w r ∷ fs) i.funcs;
  }
  keep-IsReady r st (sentinel t, log) i l = record { leaves = l; funcs = i.funcs }
  keep-IsReady r st (err, log) i l = record { leaves = l; funcs = i.funcs }

  do_step-IsReady :
      (s : Step) (st : Init) {rs : List Resource}
      → IsReady rs st
      → IsReady (after_step (do_step w s st).0 s rs) (do_step w s st).1
  unfolding do_step
  do_step-IsReady (obtain r) st i =
      keep-IsReady r st (open_one w r st.log) i (open_one-Leaves r i.leaves)
  do_step-IsReady make_validator st i = i

  -- What a run of steps ends with: if no step failed, all of them are done.
  pub record IsRun (ss : List Step) (rs : List Resource) (p : Err × Init) : Type 0 where
    pub resources : List Resource
    pub ready : IsReady resources p.1
    pub complete : p.0 ≡ nil → resources ≡ onto ss rs

  continue-IsRun :
      (s : Step) (ss : List Step) (p : Err × Init) {rs : List Resource}
      → ((st : Init) (rs : List Resource) → IsReady rs st → IsRun ss rs (run_steps w ss st))
      → IsReady (after_step p.0 s rs) p.1
      → IsRun (s ∷ ss) rs (continue w (run_steps w ss) p)
  continue-IsRun s ss (nil, st) next i =
      let rest = next st _ i in
      record { resources = rest.resources; ready = rest.ready; complete = rest.complete }
  continue-IsRun s ss (sentinel t, st) next i = record {
    resources = _;
    ready = i;
    complete = λ h. absurd (cc h);
  }
  continue-IsRun s ss (err, st) next i = record {
    resources = _;
    ready = i;
    complete = λ h. absurd (cc h);
  }

  pub run_steps-IsRun :
      (ss : List Step) (st : Init) {rs : List Resource}
      → IsReady rs st
      → IsRun ss rs (run_steps w ss st)
  unfolding run_steps
  run_steps-IsRun [] st {rs} i = record { resources = rs; ready = i; complete = λ h. refl }
  run_steps-IsRun (s ∷ ss) st i =
      continue-IsRun s ss (do_step w s st) (λ st' rs'. run_steps-IsRun ss st' {rs = rs'})
        (do_step-IsReady s st i)

  release-Leaves :
      (rs : List Resource) (log : List Event)
      → Leaves rs log
      → Leaves [] (close_all (map (release w) rs) log).1
  unfolding close_all
  release-Leaves [] log l = l
  release-Leaves (r ∷ rs) log l = release-Leaves rs (log ++ closed r ∷ []) (released r l)

  -- Close, after a New that has got as far as `st`, leaves nothing open.
  pub close-Leaves :
      (rs : List Resource) (st : Init) → IsReady rs st → Leaves [] (close st.closer st.log).0.1
  unfolding close
  close-Leaves rs st i =
      subst (λ fs. Leaves [] (close_all fs st.log).1) (sym i.funcs)
        (release-Leaves rs st.log i.leaves)
