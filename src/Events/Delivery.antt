-- ===== src/Events/Delivery.antt =====
-- What a stream that opens after failures delivers.
use switchboard_sdk.Prelude.{
  ◌∙◌, zero, suc, ℕ, ◌+◌, ◌*◌, ◌≡◌, ◌≤◌, ◌<◌, min, refl, Option, some, none, List, [], ◌∷◌, ◌++◌,
  arith, replicate, true, false, ap, Bool, ◌&&◌, ◌==◌, ◌^◌, ◌-◌,
}
use switchboard_sdk.Prelude.Int.{ℤ, pos, negsuc}
use switchboard_sdk.Prelude.Words.{Bytes}
use switchboard_sdk.Events.{
  Backoff, Effect, Connection, failed, connected, slept, after_failure, initial_backoff,
  dispatch_all, start_pubsub, round, round_end, exhausted, End, overflows, wrapped,
}
use switchboard_sdk.Events.Dispatch.{Delivered, all_lines, dispatch_all-Delivered}
use switchboard_sdk.Events.Retries.{delays, failed_before, exhausted-not}

module _ (decode : Bytes → Option Bytes) (handlers : List Bytes) (checks : Bool) where
  -- So many failures in a row do not end the loop.
  abbrev pub Allows : Option ℤ → ℕ → Type 0
  Allows none n = elim checks [ true ↦ n < 2 ^ 31 | false ↦ Unit {0} ]
  Allows (some (pos m)) n = n < m
  Allows (some (negsuc m)) n = ⊥

  Allows-le :
      (max_retries : Option ℤ) (n k : ℕ) → Allows max_retries n → k ≤ n → Allows max_retries k
  Allows-le none n k a l =
      elim checks
          as (λ c.
            elim c as (λ _. Type 0) [ true ↦ n < 2 ^ 31 | false ↦ Unit {0} ]
            → elim c as (λ _. Type 0) [ true ↦ k < 2 ^ 31 | false ↦ Unit {0} ]) [
              | true ↦ λ m. omega arith
              | false ↦ λ m. tt
            ]
        a
  Allows-le (some (pos m)) n k a l = omega arith
  Allows-le (some (negsuc m)) n k a l = absurd a

  -- The state after a failure that does not end the loop.
  abbrev next : Option ℤ → Backoff → Backoff
  next none s = wrapped (after_failure s)
  next (some m) s = after_failure s

  next-count :
      (max_retries : Option ℤ) (s : Backoff) (n : ℕ)
      → (next max_retries s).retry_count + n ≤ s.retry_count + suc n
  unfolding after_failure wrapped
  next-count none s n = omega arith
  next-count (some m) s n = omega arith

  next-delay :
      (max_retries : Option ℤ) (s : Backoff) → (next max_retries s).delay ≡ min (s.delay * 2) 5000
  unfolding after_failure wrapped
  next-delay none s = refl
  next-delay (some m) s = refl

  overflows-not : (s : Backoff) → Allows none (s.retry_count + 1) → overflows checks s ≡ false
  unfolding overflows
  overflows-not s a =
      elim checks
          as (λ c.
            elim c as (λ _. Type 0) [ true ↦ s.retry_count + 1 < 2 ^ 31 | false ↦ Unit {0} ]
            → (c && (s.retry_count == 2 ^ 31 - 1)) ≡ false) [
              | true ↦ λ m. ground arith
              | false ↦ λ m. refl
            ]
        a

  -- What a run does after the effects that are known.
  abbrev pub after : List Effect → List Effect × End → List Effect × End
  after effects rest = (effects ++ rest.0, rest.1)

  failed-after :
      (max_retries : Option ℤ) (s : Backoff) (connections : List Connection)
      → Allows max_retries (s.retry_count + 1)
      → start_pubsub decode handlers checks max_retries s (failed ∷ connections)
        ≡ after
            (slept s.delay ∷ [])
            (start_pubsub decode handlers checks max_retries (next max_retries s) connections)
  unfolding start_pubsub round wrapped
  failed-after none s connections a = rw (start_pubsub, round, overflows-not s a) refl
  failed-after (some (pos m)) s connections a =
      failed_before decode handlers checks m s connections a
  failed-after (some (negsuc m)) s connections a = absurd a

  connected-after :
      (max_retries : Option ℤ) (s : Backoff) (events : List (List Bytes))
      (connections : List Connection)
      → Allows max_retries 0
      → start_pubsub decode handlers checks max_retries s (connected events ∷ connections)
        ≡ after
            (dispatch_all decode handlers events)
            (start_pubsub decode handlers checks max_retries initial_backoff connections)
  unfolding start_pubsub round round_end
  connected-after none s events connections a = unfold exhausted in refl
  connected-after (some (pos m)) s events connections a =
      rw
        (
          dispatch_all,
          start_pubsub,
          round,
          round_end,
          exhausted-not m initial_backoff (unfold initial_backoff in a),
        )
        refl
  connected-after (some (negsuc m)) s events connections a = absurd a

  failures-after :
      (max_retries : Option ℤ) (s : Backoff) (n : ℕ) (events : List (List Bytes))
      (connections : List Connection)
      → Allows max_retries (s.retry_count + n)
      → start_pubsub decode handlers checks max_retries s
          (replicate n failed ++ connected events ∷ connections)
        ≡ after
            (delays s.delay n ++ dispatch_all decode handlers events)
            (start_pubsub decode handlers checks max_retries initial_backoff connections)
  failures-after max_retries s zero events connections a =
      connected-after max_retries s events connections (Allows-le max_retries _ 0 a (omega arith))
  failures-after max_retries s (suc n) events connections a =
      let before =
        Allows-le max_retries (s.retry_count + suc n) (s.retry_count + 1) a (omega arith) in
      let s₁ : Backoff = next max_retries s in
      let ih = failures-after max_retries s₁ n events connections (
        Allows-le max_retries (s.retry_count + suc n) (s₁.retry_count + n) a
          (next-count max_retries s n)) in
      failed-after max_retries s (replicate n failed ++ connected events ∷ connections) before
      ∙ ap (after (slept s.delay ∷ [])) ih
      ∙ ap
          (λ ms.
            after (slept s.delay ∷ (delays ms n ++ dispatch_all decode handlers events))
              (start_pubsub decode handlers checks max_retries initial_backoff connections))
          (next-delay max_retries s)

  -- A stream that opens after fewer failures in a row than the maximum, or where there is no maximum after
  -- any number, below 2^31 in a build with overflow checks, has its log lines dispatched, all of them and
  -- in order: a line calls a handler exactly when it is a line of program data that decodes to more than
  -- eight bytes, of which the first eight are the handler's discriminator, and the handler gets the rest.
  -- This holds whatever comes after the stream; the failures cost their delays alone, and the loop then goes
  -- on as it started.
  pub start_pubsub-delivers :
      (max_retries : Option ℤ) (n : ℕ) (events : List (List Bytes)) (connections : List Connection)
      → Allows max_retries n
      → (delivered : List Effect) × Delivered decode handlers
          (all_lines decode handlers events)
          delivered
        × (start_pubsub decode handlers checks max_retries initial_backoff
              (replicate n failed ++ connected events ∷ connections)
            ≡ after
                (delays 500 n ++ delivered)
                (start_pubsub decode handlers checks max_retries initial_backoff connections))
  unfolding initial_backoff
  start_pubsub-delivers max_retries n events connections a = (
    dispatch_all decode handlers events,
    dispatch_all-Delivered decode handlers events,
    failures-after max_retries initial_backoff n events connections
        (Allows-le max_retries n (0 + n) a (omega arith)),
  )
