-- ===== src/Events.antt =====
-- client/event_client.rs of the on-demand crate: the loop that keeps a subscription to the logs of a
-- program, with its backoff, and the dispatch of log lines to the handlers. The websocket, the sleep
-- and the base64 decoder are parameters: a run is over the results of the connections, in order.
pub mod Delays
pub mod Retries
pub mod Delivery
pub mod Dispatch
mod Examples
use switchboard_sdk.Prelude.{
  ◌==◌, ◌&&◌, ◌%◌, ◌^◌, ◌-◌, ℕ, suc, ◌+◌, ◌*◌, min, Bool, true, false, Option, none, some, List, [],
  ◌∷◌, ◌++◌, if◌then◌else◌, ltb, leb, length, take, drop, find,
}
use switchboard_sdk.Prelude.Int.{ℤ, pos, leb_ℤ}
use switchboard_sdk.Prelude.Words.{Bytes, bytes_eq}

-- What a round of the loop meets: no client, a failed subscription, or a stream of events, each a
-- list of log lines, that closes in the end.
pub data Connection : Type 0 where
  no_client failed : Connection
  connected : List (List Bytes) → Connection

-- The two variables of the loop; `delay` is in milliseconds. `retry_count` is an i32, here as the number
-- that its 32 bits stand for without a sign.
pub record Backoff : Type 0 where
  pub retry_count : ℕ
  pub delay : ℕ

unfoldable pub initial_backoff : Backoff
initial_backoff = record { retry_count = 0; delay = 500 }

unfoldable pub after_failure : Backoff → Backoff
after_failure s = record { retry_count = s.retry_count + 1; delay = min (s.delay * 2) 5000 }

-- Without a maximum the i32 may overflow: a build with overflow checks panics, and another wraps. With a
-- maximum, an i32 too, the count grows only while it is below the maximum.
unfoldable pub overflows : Bool → Backoff → Bool
overflows checks s = checks && (s.retry_count == 2 ^ 31 - 1)

unfoldable pub wrapped : Backoff → Backoff
wrapped s = record s { retry_count = s.retry_count % 2 ^ 32 }

-- `retry_count >= max_retries`, where there is a maximum.
unfoldable pub exhausted : Option ℤ → Backoff → Bool
exhausted none s = false
exhausted (some max_retries) s = leb_ℤ max_retries (pos s.retry_count)

-- What the loop does to the outside: it sleeps, and it calls the handler of a discriminator.
pub data Effect : Type 0 where
  slept : ℕ → Effect
  handled : Bytes → Bytes → Effect

-- What one round does, before it loops, breaks or panics.
pub data Round : Type 0 where
  retried : List Effect → Backoff → Round
  aborted panicked : List Effect → Round

-- The last test of the body of the loop.
unfoldable pub round_end : Option ℤ → List Effect → Backoff → Round
round_end max_retries effects s =
    if exhausted max_retries s then aborted effects else retried effects s

-- How a run over the connections ends.
pub data End : Type 0 where
  looping : Backoff → End
  stopped crashed : End

-- `strip_prefix`
unfoldable pub strip_prefix : Bytes → Bytes → Option Bytes
strip_prefix [] line = some line
strip_prefix (p ∷ ps) [] = none
strip_prefix (p ∷ ps) (c ∷ line) = if p == c then strip_prefix ps line else none

-- "Program data: "
abbrev pub program_data : Bytes
program_data = 80 ∷ 114 ∷ 111 ∷ 103 ∷ 114 ∷ 97 ∷ 109 ∷ 32 ∷ 100 ∷ 97 ∷ 116 ∷ 97 ∷ 58 ∷ 32 ∷ []

module _ (decode : Bytes → Option Bytes) (handlers : List Bytes) where
  -- One log line: the discriminator of the handler that is called, and the data of the event.
  unfoldable pub dispatch_line : Bytes → Option Effect
  dispatch_line line = elim (strip_prefix program_data line) [
    | none ↦ none
    | some encoded_data ↦ elim (decode encoded_data) [
      | none ↦ none
      | some decoded_data ↦
          if leb (length decoded_data) 8
          then none
          else elim (find (λ h. bytes_eq h (take 8 decoded_data)) handlers) [
            | none ↦ none
            | some disc ↦ some (handled disc (drop 8 decoded_data))
          ]
    ]
  ]

  -- The lines of an event, in order; what a handler answers is dropped.
  unfoldable pub dispatch : List Bytes → List Effect
  dispatch [] = []
  dispatch (line ∷ lines) =
      let rest = dispatch lines in elim (dispatch_line line) [ none ↦ rest | some e ↦ e ∷ rest ]

  -- The events of a stream, in order.
  unfoldable pub dispatch_all : List (List Bytes) → List Effect
  dispatch_all [] = []
  dispatch_all (lines ∷ events) = dispatch lines ++ dispatch_all events

  -- `checks` says whether the build has overflow checks.
  module _ (checks : Bool) where
    unfoldable pub round : Option ℤ → Backoff → Connection → Round
    round max_retries s no_client = panicked []
    round max_retries s (connected events) =
        round_end max_retries (dispatch_all events) initial_backoff
    round none s failed =
        if overflows checks s
        then panicked (slept s.delay ∷ [])
        else retried (slept s.delay ∷ []) (wrapped (after_failure s))
    round (some max_retries) s failed =
        if exhausted (some max_retries) s
        then aborted []
        else round_end (some max_retries) (slept s.delay ∷ []) (after_failure s)

    -- `start_pubsub`: what is done, in order, and how the run over these connections ends.
    unfoldable pub start_pubsub : Option ℤ → Backoff → List Connection → List Effect × End
    start_pubsub max_retries s [] = ([], looping s)
    start_pubsub max_retries s (c ∷ connections) = elim (round max_retries s c) [
      | panicked effects ↦ (effects, crashed)
      | aborted effects ↦ (effects, stopped)
      | retried effects next ↦
          let (more, end) = start_pubsub max_retries next connections in (effects ++ more, end)
    ]
