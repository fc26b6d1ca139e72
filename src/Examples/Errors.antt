-- ===== src/Examples/Errors.antt =====
-- The theorems on errors, gRPC calls and transactions, run on concrete values.
use delivery_backend.Base.{
  ℕ, suc, String, ◌≡◌, refl, ◌⊎◌, true, ◌==◌, some, List, [], ◌∷◌, if◌then◌else◌,
}
use delivery_backend.Errors.{
  foreign, Err, AppError, Violation, as_proto_invalid, nil, wrapped, pg_error, proto_invalid,
  to_err, as_app, Result, success, failure, Status,
}
use delivery_backend.AppErr.Code.{level}
use delivery_backend.AppErr.Value.{from, validation_failed}
use delivery_backend.AppErr.Value.Laws.{chosen}
use delivery_backend.AppErr.Grpc.{map_error}
use delivery_backend.Rpc
use delivery_backend.Rpc.{validation, chain, details, plain_status, status_of}
use delivery_backend.Rpc.Wire.{received, sent_error, error_received}
use delivery_backend.Rpc.Chain.{chain-failure, invalid_refused}
use delivery_backend.Postgres.{exec, done, within_tx, failed, settle, finish, begin_tx}
use delivery_backend.Postgres.Laws.{idle, statement, exec-RunsAs, within_tx_atomic}
use delivery_backend.Closer.{Closer}
use delivery_backend.Examples.{grpc_library, missing_order}

-- A unique violation that a repository met and described.
abbrev duplicate : Err
duplicate = wrapped "insert: " (pg_error "23505") ""

-- The order service fails with this error, and a cause that the client must not see.
abbrev lost : Err
lost = wrapped "get order: " (to_err missing_order) ""

from_lost : from lost ≡ some missing_order
unfolding from as_app
from_lost = refl

abbrev lost_status : Status
lost_status = record (plain_status missing_order) { details = details missing_order }

attached :
    grpc_library.with_details (plain_status missing_order) (details missing_order)
    ≡ some lost_status
unfolding plain_status
attached = refl

error_received_example :
    (Rpc.error grpc_library {A = String} (failure lost)
      ≡ failure (sent_error grpc_library missing_order))
    × (map_error grpc_library (sent_error grpc_library missing_order)
        ≡ to_err (received missing_order (sent_error grpc_library missing_order)))
error_received_example =
    error_received grpc_library lost missing_order lost_status from_lost attached

-- A service whose requests are texts, and whose handler counts them: `x` is invalid, and `y` is not
-- found.
abbrev blank : List Violation
blank = record { field = "f"; message = "m" } ∷ []

abbrev check_text : String → Err
check_text s = if s == "x" then proto_invalid blank else nil

abbrev echo : String → ℕ → Result String × ℕ
echo s n = (if s == "y" then failure lost else success s, suc n)

echoed : validation some check_text echo "hello" 0 ≡ (success "hello", 1)
unfolding validation
echoed = refl

not_found : validation some check_text echo "y" 0 ≡ (failure lost, 1)
unfolding validation
not_found = refl

chain-failure_example : chain some check_text echo grpc_library "y" 0 ≡ (
  (
    failure (sent_error grpc_library (chosen lost)),
    record {
      severity = level (chosen lost).code;
      text = "grpc request failed";
      code = (status_of grpc_library (chosen lost)).code;
    }
        ∷ [],
  ),
  1,
)
chain-failure_example =
    chain-failure some check_text echo grpc_library "y" 0 1 lost not_found (λ e. cc e)

read_blank : as_proto_invalid (check_text "x") ≡ some blank
unfolding as_proto_invalid
read_blank = refl

refused_status :
    grpc_library.with_details
      (plain_status (validation_failed blank))
      (details (validation_failed blank))
    ≡ some (record (plain_status (validation_failed blank)) {
      details = details (validation_failed blank);
    })
unfolding plain_status
refused_status = refl

invalid_refused_example :
    ((chain some check_text echo grpc_library "x" 0).1 ≡ 0)
    × ((err : Err) × (e : AppError) × ((chain some check_text echo grpc_library "x" 0).0.0
          ≡ failure err)
        × (map_error grpc_library err ≡ to_err e)
        × (e.code ≡ "INVALID_ARGUMENT")
        × (e.reason ≡ "VALIDATION_FAILED")
        × (e.violations ≡ blank))
invalid_refused_example =
    invalid_refused some check_text echo grpc_library "x" "x" blank _ 0 refl (λ e. cc e) read_blank
      refused_status

-- A statement that counts, and one that fails.
abbrev count : ℕ → Result ℕ
count n = success (suc n)

abbrev refuse : ℕ → Result ℕ
refuse n = failure duplicate

within_tx_atomic_example :
    ((within_tx nil (failed duplicate true) (exec count) (idle 4)).1 ≡ idle 4)
    ⊎ ((nil ≡ nil) × ((within_tx nil (failed duplicate true) (exec count) (idle 4)).1 ≡ idle 5))
within_tx_atomic_example =
    within_tx_atomic nil (failed duplicate true) (statement count) (exec-RunsAs count) 4

counted : (within_tx nil done (exec count) (idle 4)).0 ≡ nil
unfolding within_tx begin_tx settle finish exec
counted = refl

-- Closing fails after it has counted.
abbrev close_badly : ℕ → Err × ℕ
close_badly n = (foreign "close", suc n)

abbrev closer : Closer ℕ
closer = record { funcs = close_badly ∷ [] }
