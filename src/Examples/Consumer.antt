-- ===== src/Examples/Consumer.antt =====
-- The theorems on rounds of the consumer, run on a partition with a record that is refused once.
use delivery_backend.Base.{
  ℕ, ◌+◌, ◌<◌, ◌≡◌, refl, true, false, List, [], ◌∷◌, ◌++◌, arith, eqb, ltb, if◌then◌else◌, All,
}
use delivery_backend.Errors.{Err, nil, foreign, join}
use delivery_backend.Kafka.Message.{Record, Message}
use delivery_backend.Kafka.Consumer.{
  FetchPartition, Round, process_records, process_partitions, fetch_errors, fetch_error, run,
}
use delivery_backend.Kafka.Consumer.Process.{of_partition}
use delivery_backend.Kafka.Consumer.Commits.{committed}
use delivery_backend.Kafka.Consumer.Durable.{IsDurable, run_commits_done}
use delivery_backend.Kafka.Consumer.Returns.{run_returns}
use delivery_backend.Kafka.Consumer.Feed.{Feed, run_consumes}
use delivery_backend.Kafka.Consumer.Advance.{IsTiring}
use delivery_backend.Kafka.Consumer.Drains.{Supply, run_drains}
use delivery_backend.Examples.Messages.{record_at, label}

-- A handler that refuses its second message, and counts its messages.
abbrev handler : ℕ → Message → Err × ℕ
handler n m = (if eqb n 1 then foreign "refused" else nil, n + 1)

abbrev fetch : List Record → FetchPartition
fetch rs = record { topic = "orders"; partition = 3; records = rs; err = nil }

abbrev pub round_of : List FetchPartition → Round
round_of ps = record {
  fetches = ps;
  cancelled = false;
  closed = false;
  commit_error = nil;
  waited = true;
}

abbrev log : List Record
log = record_at 7 "a" ∷ record_at 8 "b" ∷ record_at 9 "c" ∷ []

-- The record at 8 is refused, and comes again with the one after it; then the context is cancelled.
abbrev rounds : List Round
rounds =
    round_of (fetch log ∷ [])
    ∷ round_of (fetch (record_at 8 "b" ∷ record_at 9 "c" ∷ []) ∷ [])
    ∷ record (round_of []) { cancelled = true }
    ∷ []

feed : Feed label handler "orders" 3 log 0 rounds
unfolding process_records process_partitions fetch_errors fetch_error
feed = Feed.fetched [] (fetch log) [] [] refl refl refl tt tt refl (
    Feed.fetched [] (fetch (record_at 8 "b" ∷ record_at 9 "c" ∷ [])) [] [] refl refl refl tt tt refl
      (Feed.stopped refl))

run_consumes_example :
    (rest : List Record) × (of_partition "orders" 3 (committed (run label handler 0 rounds).calls)
        ++ rest
      ≡ log)
run_consumes_example =
    run_consumes label handler "orders" 3 {log = log} {s = 0} {rounds = rounds}
      (
        (refl, (refl, (refl, tt))),
        ((omega arith, (omega arith, tt)), ((omega arith, tt), (tt, tt))),
      )
      feed

all_committed : committed (run label handler 0 rounds).calls ≡ log
unfolding run process_records process_partitions fetch_errors fetch_error
all_committed = refl

run_returns_example : (run label handler 0 rounds).returned ≡ true
run_returns_example = run_returns label handler 0 rounds refl

-- What the handler does for a message here: it counts.
handler-IsDurable : IsDurable handler (λ s. Unit {0}) (λ m s. 0 < s)
handler-IsDurable = record {
  keeps = λ s m i. tt;
  does = λ s m i h. omega arith;
  stays = λ s m n i h. omega (arith, h);
}

run_commits_done_example :
    let t = run label handler 0 rounds in Unit {0} × All (λ r. 0 < t.state) (committed t.calls)
run_commits_done_example = run_commits_done handler handler-IsDurable label 0 rounds tt

-- A fetch with an error for one partition and the record 7 of another, and then the record 8.
abbrev broken : FetchPartition
broken = record { topic = "orders"; partition = 4; records = []; err = foreign "not the leader" }

abbrev accepts : ℕ → Message → Err × ℕ
accepts n m = (nil, n + 1)

-- The record 8 is committed, and the record 7 was never handled.
skipped :
    let t = run label accepts 0 (
      round_of (broken ∷ fetch (record_at 7 "a" ∷ []) ∷ [])
      ∷ round_of (fetch (record_at 8 "b" ∷ []) ∷ [])
      ∷ []) in
    (committed t.calls ≡ record_at 8 "b" ∷ []) × (t.state ≡ 1)
unfolding run process_records process_partitions fetch_errors fetch_error join
skipped = (refl, refl)

-- The failures that the handler has left.
abbrev failures_left : ℕ → ℕ
failures_left n = if ltb n 2 then 1 else 0

handler-IsTiring : IsTiring handler failures_left
handler-IsTiring = record { fails = λ s m bad. ground (arith, bad); keeps = λ s m. ground arith }

abbrev busy_rounds : List Round
busy_rounds =
    round_of (fetch log ∷ [])
    ∷ round_of (fetch (record_at 8 "b" ∷ record_at 9 "c" ∷ []) ∷ [])
    ∷ round_of []
    ∷ round_of []
    ∷ []

supply : Supply label handler "orders" 3 log 0 busy_rounds
unfolding process_records process_partitions fetch_errors fetch_error
supply =
    Supply.fetched [] (fetch log) [] (record_at 7 "a") (record_at 8 "b" ∷ record_at 9 "c" ∷ []) []
      refl refl refl refl tt tt refl refl
      (Supply.fetched [] (fetch (record_at 8 "b" ∷ record_at 9 "c" ∷ [])) [] (record_at 8 "b")
        (record_at 9 "c" ∷ []) [] refl refl refl refl tt tt refl refl
        (Supply.idle refl refl refl tt (Supply.idle refl refl refl tt Supply.ended)))

run_drains_example :
    of_partition "orders" 3 (committed (run label handler 0 busy_rounds).calls) ≡ log
run_drains_example =
    run_drains label handler "orders" 3 failures_left handler-IsTiring {log = log} {s = 0}
      {rounds = busy_rounds}
      (
        (refl, (refl, (refl, tt))),
        ((omega arith, (omega arith, tt)), ((omega arith, tt), (tt, tt))),
      )
      supply (omega arith)
