-- ===== src/Events/Examples.antt =====
-- A client with one handler, whose payloads are not encoded, and the theorems about clients on it.
use switchboard_sdk.Prelude.Words.{bytes_eq, Bytes}
use switchboard_sdk.Events.{
  Effect, handled, strip_prefix, dispatch_all, stopped, after_failure, slept, exhausted, round_end,
  dispatch, round, start_pubsub, Connection, failed, connected, initial_backoff, program_data,
  dispatch_line,
}
use switchboard_sdk.Prelude.{refl, true, [], Option, some, List, arith, ◌≡◌, ◌∷◌, ◌++◌, replicate}
use switchboard_sdk.Prelude.Int.{pos}
use switchboard_sdk.Events.Dispatch.{Delivered}
use switchboard_sdk.Events.Retries.{delays, start_pubsub-gives_up}
use switchboard_sdk.Events.Delivery.{after, start_pubsub-delivers}

abbrev plain : Bytes → Option Bytes
plain bytes = some bytes

abbrev one_handler : List Bytes
one_handler = replicate 8 1 ∷ []

abbrev event_line : Bytes
event_line = program_data ++ (replicate 8 1 ++ 7 ∷ [])

abbrev example_connections : List Connection
example_connections = failed ∷ connected ((event_line ∷ []) ∷ []) ∷ failed ∷ failed ∷ []

client_runs :
    start_pubsub plain one_handler true (some (pos 2)) initial_backoff example_connections
    ≡ (slept 500 ∷ handled (replicate 8 1) (7 ∷ []) ∷ slept 500 ∷ slept 1000 ∷ [], stopped)
unfolding start_pubsub round round_end exhausted initial_backoff after_failure dispatch_all dispatch
    dispatch_line strip_prefix bytes_eq
client_runs = refl

start_pubsub-gives_up_example :
    start_pubsub plain one_handler true
      (some (pos 3))
      initial_backoff
      (failed ∷ failed ∷ failed ∷ failed ∷ [])
    ≡ (slept 500 ∷ slept 1000 ∷ slept 2000 ∷ [], stopped)
start_pubsub-gives_up_example = start_pubsub-gives_up plain one_handler true 2 (failed ∷ [])

start_pubsub-delivers_example :
    (delivered : List Effect) × Delivered plain one_handler (event_line ∷ []) delivered
    × (start_pubsub plain one_handler true
          (some (pos 2))
          initial_backoff
          (failed ∷ connected ((event_line ∷ []) ∷ []) ∷ failed ∷ failed ∷ [])
        ≡ after plain one_handler true (delays 500 1 ++ delivered) (
            start_pubsub plain one_handler true
              (some (pos 2))
              initial_backoff
              (failed ∷ failed ∷ [])))
start_pubsub-delivers_example =
    start_pubsub-delivers plain one_handler true (some (pos 2)) 1 ((event_line ∷ []) ∷ [])
      (failed ∷ failed ∷ []) (omega arith)
