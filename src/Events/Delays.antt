-- ===== src/Events/Delays.antt =====
-- The delays of the loop.
use switchboard_sdk.Prelude.{
  Option-cases, ℕ, ◌≤◌, Option, some, none, List, [], ◌∷◌, ◌++◌, All, arith, Bool-cases, inl, inr,
  take, find, Bool, length, leb,
}
use switchboard_sdk.Prelude.Int.{ℤ}
use switchboard_sdk.Prelude.Words.{Bytes, bytes_eq}
use switchboard_sdk.Events.{
  failed, crashed, panicked, stopped, program_data, aborted, no_client, strip_prefix, retried, End,
  Round, connected, Backoff, Effect, Connection, slept, handled, after_failure, initial_backoff,
  start_pubsub, round, round_end, exhausted, dispatch, dispatch_all, dispatch_line, overflows,
  wrapped,
}

-- A delay between half a second and five.
abbrev pub IsDelay : ℕ → Type 0
IsDelay ms = (500 ≤ ms) × (ms ≤ 5000)

abbrev pub SleepsWithin : Effect → Type 0
SleepsWithin (slept ms) = IsDelay ms
SleepsWithin (handled disc input) = Unit {0}

IsDelay-after_failure : (s : Backoff) → IsDelay s.delay → IsDelay (after_failure s).delay
unfolding after_failure
IsDelay-after_failure s d = (grind arith, grind arith)

All-append : (P : Effect → Type 0) (xs ys : List Effect) → All P xs → All P ys → All P (xs ++ ys)
All-append P [] ys h k = k
All-append P (x ∷ xs) ys h k = (h.0, All-append P xs ys h.1 k)

abbrev OptionWithin : Option Effect → Type 0
OptionWithin none = Unit {0}
OptionWithin (some e) = SleepsWithin e

prepend_within :
    (o : Option Effect) (rest : List Effect)
    → OptionWithin o
    → All SleepsWithin rest
    → All SleepsWithin (elim o [ none ↦ rest | some e ↦ e ∷ rest ])
prepend_within none rest w h = h
prepend_within (some e) rest w h = (w, h)

module _ (decode : Bytes → Option Bytes) (handlers : List Bytes) where
  -- Dispatching never sleeps.
  dispatch_line-SleepsWithin : (line : Bytes) → OptionWithin (dispatch_line decode handlers line)
  unfolding dispatch_line strip_prefix
  dispatch_line-SleepsWithin line = elim (Option-cases (strip_prefix program_data line)) [
    | inl e ↦ rw e tt
    | inr (encoded_data, e) ↦ elim (Option-cases (decode encoded_data)) [
      | inl d ↦ rw (e, d) tt
      | inr (decoded_data, d) ↦ elim (Bool-cases (leb (length decoded_data) 8)) [
        | inl short ↦ rw (e, d, short) tt
        | inr long ↦ elim (Option-cases (find (λ h. bytes_eq h (take 8 decoded_data)) handlers)) [
          | inl f ↦ rw (e, d, long, f) tt
          | inr (disc, f) ↦ rw (e, d, long, f) tt
        ]
      ]
    ]
  ]

  dispatch-SleepsWithin : (lines : List Bytes) → All SleepsWithin (dispatch decode handlers lines)
  unfolding dispatch
  dispatch-SleepsWithin [] = tt
  dispatch-SleepsWithin (line ∷ lines) =
      prepend_within (dispatch_line decode handlers line) (dispatch decode handlers lines)
        (dispatch_line-SleepsWithin line) (dispatch-SleepsWithin lines)

  dispatch_all-SleepsWithin :
      (events : List (List Bytes)) → All SleepsWithin (dispatch_all decode handlers events)
  unfolding dispatch_all
  dispatch_all-SleepsWithin [] = tt
  dispatch_all-SleepsWithin (lines ∷ events) =
      All-append SleepsWithin (dispatch decode handlers lines) (dispatch_all decode handlers events)
        (dispatch-SleepsWithin lines) (dispatch_all-SleepsWithin events)

  module _ (checks : Bool) where
    abbrev RoundWithin : Round → Type 0
    RoundWithin (retried effects next) = All SleepsWithin effects × IsDelay next.delay
    RoundWithin (aborted effects) = All SleepsWithin effects
    RoundWithin (panicked effects) = All SleepsWithin effects

    round_end-RoundWithin :
        (max_retries : Option ℤ) (effects : List Effect) (s : Backoff)
        → All SleepsWithin effects
        → IsDelay s.delay
        → RoundWithin (round_end max_retries effects s)
    unfolding round_end
    round_end-RoundWithin max_retries effects s a d = elim (Bool-cases (exhausted max_retries s)) [
      | inl over ↦ rw over a
      | inr more ↦ rw more (a, d)
    ]

    round-RoundWithin :
        (max_retries : Option ℤ) (s : Backoff) (c : Connection)
        → IsDelay s.delay
        → RoundWithin (round decode handlers checks max_retries s c)
    unfolding round
    round-RoundWithin none s no_client d = tt
    round-RoundWithin (some m) s no_client d = tt
    round-RoundWithin none s (connected events) d =
        round_end-RoundWithin none (dispatch_all decode handlers events) initial_backoff
          (dispatch_all-SleepsWithin events) (unfold initial_backoff in (omega arith, omega arith))
    round-RoundWithin (some m) s (connected events) d =
        round_end-RoundWithin (some m) (dispatch_all decode handlers events) initial_backoff
          (dispatch_all-SleepsWithin events) (unfold initial_backoff in (omega arith, omega arith))
    round-RoundWithin none s failed d = elim (Bool-cases (overflows checks s)) [
      | inl over ↦ rw over (d, tt)
      | inr more ↦ rw more ((d, tt), unfold wrapped in IsDelay-after_failure s d)
    ]
    round-RoundWithin (some m) s failed d = elim (Bool-cases (exhausted (some m) s)) [
      | inl over ↦ rw over tt
      | inr more ↦ rw more (
          round_end-RoundWithin (some m) (slept s.delay ∷ []) (after_failure s) (d, tt)
            (IsDelay-after_failure s d))
    ]

    -- The run behind a round.
    abbrev continue_with : Option ℤ → List Connection → Round → List Effect × End
    continue_with max_retries connections (retried effects next) =
        let (more, end) = start_pubsub decode handlers checks max_retries next connections in
        (effects ++ more, end)
    continue_with max_retries connections (aborted effects) = (effects, stopped)
    continue_with max_retries connections (panicked effects) = (effects, crashed)

    continue_within :
        (max_retries : Option ℤ) (connections : List Connection) (r : Round)
        → RoundWithin r
        → ((s : Backoff)
            → IsDelay s.delay
            → All SleepsWithin (start_pubsub decode handlers checks max_retries s connections).0)
        → All SleepsWithin (continue_with max_retries connections r).0
    continue_within max_retries connections (retried effects next) w ih =
        All-append SleepsWithin effects
          (start_pubsub decode handlers checks max_retries next connections).0 w.0 (ih next w.1)
    continue_within max_retries connections (aborted effects) w ih = w
    continue_within max_retries connections (panicked effects) w ih = w

    -- Whatever the connections do, from the first state or any with a delay in the bounds, every sleep of
    -- the loop lasts at least half a second and at most five.
    pub start_pubsub-SleepsWithin :
        (max_retries : Option ℤ) (s : Backoff) (connections : List Connection)
        → IsDelay s.delay
        → All SleepsWithin (start_pubsub decode handlers checks max_retries s connections).0
    unfolding start_pubsub
    start_pubsub-SleepsWithin max_retries s [] d = tt
    start_pubsub-SleepsWithin max_retries s (c ∷ connections) d =
        continue_within max_retries connections (round decode handlers checks max_retries s c)
          (round-RoundWithin max_retries s c d)
          (λ next. start_pubsub-SleepsWithin max_retries next connections)
