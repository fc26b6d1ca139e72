-- ===== src/Kafka/Consumer.antt =====
-- platform/kafka/kafkaconsumer/kafkaconsumer.go: polling, handling, committing and rewinding.
--
-- The client of franz-go is seen through the calls that it gets, in order, and through what each
-- poll returns. A handler is a function on a state of its own: it may change what it works on,
-- also where it fails.
pub mod Process
pub mod Run
pub mod Commits
pub mod Durable
pub mod Returns
pub mod Options
pub mod Position
pub mod Feed
pub mod Advance
pub mod Drains
use delivery_backend.Base.{
  ℕ, String, Bool, true, false, not, ◌||◌, ◌&&◌, Option, none, some, List, [], ◌∷◌, ◌++◌, ◌==◌, eqb,
  if◌then◌else◌,
}
use delivery_backend.Errors.{Err, nil, wrapped, join}
use delivery_backend.Kafka.Message.{Record, Message, to_message}

-- kgo.FetchTopicPartition
pub record FetchPartition : Type 0 where
  pub topic : String
  pub partition : ℕ
  pub records : List Record
  pub err : Err

-- An entry of the map given to SetOffsets. Of entries with one key the first counts.
pub record Rewind : Type 0 where
  pub topic : String
  pub partition : ℕ
  pub epoch : ℕ
  pub offset : ℕ

abbrev pub rewind_to : Record → Rewind
rewind_to r = record {
  topic = r.topic;
  partition = r.partition;
  epoch = r.leader_epoch;
  offset = r.offset;
}

-- What the consumer calls: the client, the error handler of its options, and the backoff.
pub data Call : Type 0 where
  poll allow_rebalance wait : Call
  commit_records : List Record → Call
  set_offsets : List Rewind → Call
  on_error : Err → Call

-- The variables of `process`, and the handler's state.
pub record Progress {ℓ} (H : Type ℓ) : Type ℓ where
  pub state : H
  pub processed : List Record
  pub rewind : List Rewind

module _ {ℓ} {H : Type ℓ} where
  abbrev pub start : H → Progress H
  start s = record { state = s; processed = []; rewind = [] }

  module _ (handle : H → Message → Err × H) where
    abbrev pub after_record : Progress H → Record → Err × H → Bool × Progress H
    after_record acc r (nil, s) =
        (true, record acc { state = s; processed = acc.processed ++ r ∷ [] })
    after_record acc r (err, s) =
        (false, record acc { state = s; rewind = rewind_to r ∷ acc.rewind })

    -- The loop over the records of a partition: an error ends it.
    unfoldable pub process_records : Progress H → List Record → Progress H
    process_records acc [] = acc
    process_records acc (r ∷ rs) =
        let (good, acc') = after_record acc r (handle acc.state (to_message r)) in
        let rest : Progress H = process_records acc' rs in if good then rest else acc'

    unfoldable pub process_partitions : Progress H → List FetchPartition → Progress H
    process_partitions acc [] = acc
    process_partitions acc (p ∷ ps) = process_partitions (process_records acc p.records) ps

-- The error of a commit goes to the error handler.
abbrev pub commit_report : Err → List Call
commit_report nil = []
commit_report err = on_error (wrapped "kafkaconsumer: commit: " err "") ∷ []

abbrev pub commit_calls : Err → List Record → List Call
commit_calls err [] = []
commit_calls err (r ∷ rs) = commit_records (r ∷ rs) ∷ commit_report err

abbrev pub rewind_calls : List Rewind → List Call
rewind_calls [] = []
rewind_calls (w ∷ ws) = set_offsets (w ∷ ws) ∷ []

abbrev pub rewound : List Rewind → Bool
rewound [] = false
rewound (w ∷ ws) = true

-- fetchError. `label topic partition` is the text that the source formats before an error.
module _ (label : String → ℕ → String) where
  unfoldable pub fetch_errors : List FetchPartition → Err
  fetch_errors [] = nil
  fetch_errors (p ∷ ps) =
      let rest : Err = fetch_errors ps in
      elim p.err [ nil ↦ rest | err ↦ join (wrapped (label p.topic p.partition) err "") rest ]

  abbrev pub wrap_fetch : Err → Err
  wrap_fetch nil = nil
  wrap_fetch err = wrapped "kafkaconsumer: fetch: " err ""

  unfoldable pub fetch_error : List FetchPartition → Err
  fetch_error fetches = wrap_fetch (fetch_errors fetches)

-- What one round of the loop meets: the poll's result, whether the context is cancelled or the
-- client closed after it, the error of the commit, and whether the backoff ends by its time.
pub record Round : Type 0 where
  pub fetches : List FetchPartition
  pub cancelled : Bool
  pub closed : Bool
  pub commit_error : Err
  pub waited : Bool

-- What a run did: the calls, the handler's state, and whether it returned.
pub record Trace {ℓ} (H : Type ℓ) : Type ℓ where
  pub calls : List Call
  pub state : H
  pub returned : Bool

module _ {ℓ} {H : Type ℓ} (label : String → ℕ → String) (handle : H → Message → Err × H) where
  abbrev pub before : List Call → Trace H → Trace H
  before cs t = record t { calls = cs ++ t.calls }

  -- A return, with the deferred AllowRebalance.
  abbrev pub return : H → Trace H
  return s = record { calls = allow_rebalance ∷ []; state = s; returned = true }

  -- After AllowRebalance: the backoff, if it is due, and the next round.
  abbrev pub go_on : Bool → Round → H → Trace H → Trace H
  go_on due r s next =
      if due then before (wait ∷ []) (if r.waited then next else return s) else next

  -- The body of the loop after the checks of the context and the client, with the error of the
  -- fetch: what follows is another round with the state as it was, or as the handlers left it.
  abbrev pub round : Round → H → Progress H → Trace H → Trace H → Err → Trace H
  round r s done failed next nil =
      before
        (poll ∷ commit_calls r.commit_error done.processed
          ++ rewind_calls done.rewind
          ++ allow_rebalance ∷ [])
        (go_on (rewound done.rewind) r done.state next)
  round r s done failed next err =
      before (poll ∷ on_error err ∷ allow_rebalance ∷ []) (go_on true r s failed)

  -- Run, over the rounds that the environment gives; with no round left it is still polling.
  unfoldable pub run : H → List Round → Trace H
  run s [] = record { calls = []; state = s; returned = false }
  run s (r ∷ rs) =
      let done : Progress H = process_partitions handle (start s) r.fetches in
      let failed : Trace H = run s rs in
      let next : Trace H = run done.state rs in
      if r.cancelled || r.closed
      then before (poll ∷ []) (return s)
      else round r s done failed next (fetch_error label r.fetches)
