-- ===== src/Events/Retries.antt =====
-- How often the loop tries to connect.
use switchboard_sdk.Prelude.{
  ◌∙◌, zero, suc, ℕ, ◌+◌, ◌*◌, ◌≡◌, ◌≤◌, ◌<◌, min, refl, Option, some, none, List, [], ◌∷◌, ◌++◌,
  arith, replicate, true, false, ap, Bool,
}
use switchboard_sdk.Prelude.Int.{pos}
use switchboard_sdk.Prelude.Words.{Bytes}
use switchboard_sdk.Events.{
  Backoff, Effect, Connection, failed, connected, no_client, slept, after_failure, initial_backoff,
  start_pubsub, round, round_end, exhausted, stopped, looping, End, overflows, wrapped,
}

-- The delays before the next `n` tries.
abbrev pub delays : ℕ → ℕ → List Effect
delays ms zero = []
delays ms (suc n) = slept ms ∷ delays (min (ms * 2) 5000) n

pub exhausted-not : (m : ℕ) (s : Backoff) → s.retry_count < m → exhausted (some (pos m)) s ≡ false
unfolding exhausted
exhausted-not m s l = ground arith

exhausted-reached : (m : ℕ) (s : Backoff) → m ≤ s.retry_count → exhausted (some (pos m)) s ≡ true
unfolding exhausted
exhausted-reached m s l = ground arith

module _ (decode : Bytes → Option Bytes) (handlers : List Bytes) (checks : Bool) where
  -- A failure short of the maximum, and the failure that reaches it.
  pub failed_before :
      (m : ℕ) (s : Backoff) (connections : List Connection)
      → s.retry_count + 1 < m
      → start_pubsub decode handlers checks (some (pos m)) s (failed ∷ connections) ≡ (
        slept s.delay
            ∷ (start_pubsub decode handlers checks (some (pos m)) (after_failure s) connections).0,
        (start_pubsub decode handlers checks (some (pos m)) (after_failure s) connections).1,
      )
  unfolding start_pubsub round round_end
  failed_before m s connections l =
      rw
        (
          start_pubsub,
          round,
          exhausted-not m s (omega arith),
          round_end,
          exhausted-not m (after_failure s) (unfold after_failure in l),
        )
        refl

  failed_last :
      (m : ℕ) (s : Backoff) (connections : List Connection)
      → s.retry_count + 1 ≡ m
      → start_pubsub decode handlers checks (some (pos m)) s (failed ∷ connections)
        ≡ (slept s.delay ∷ [], stopped)
  unfolding start_pubsub round round_end
  failed_last m s connections l =
      rw
        (
          start_pubsub,
          round,
          exhausted-not m s (omega arith),
          round_end,
          exhausted-reached m (after_failure s) (unfold after_failure in omega arith),
        )
        refl

  failed_all :
      (m : ℕ) (s : Backoff) (n : ℕ) (connections : List Connection)
      → s.retry_count + suc n ≡ m
      → start_pubsub decode handlers checks
          (some (pos m))
          s
          (replicate (suc n) failed ++ connections)
        ≡ (delays s.delay (suc n), stopped)
  failed_all m s zero connections l = failed_last m s connections (omega arith)
  failed_all m s (suc n) connections l =
      let tail : List Connection = replicate (suc n) failed ++ connections in
      let ih = failed_all m (after_failure s) n connections (unfold after_failure in omega arith) in
      failed_before m s tail (omega arith)
      ∙ ap (λ (r : List Effect × End). (slept s.delay ∷ r.0, r.1)) ih
      ∙ (unfold after_failure in refl)

  -- With a maximum of `suc n`, the loop stops after the connection has failed `suc n` times in a row,
  -- whatever would follow: it tries `suc n` times in all, and sleeps after each, the last one
  -- included, from half a second on and for twice as long each time, up to five seconds.
  pub start_pubsub-gives_up :
      (n : ℕ) (connections : List Connection)
      → start_pubsub decode handlers checks
          (some (pos (suc n)))
          initial_backoff
          (replicate (suc n) failed ++ connections)
        ≡ (delays 500 (suc n), stopped)
  unfolding initial_backoff
  start_pubsub-gives_up n connections =
      failed_all (suc n) initial_backoff n connections (omega arith)

module _ (decode : Bytes → Option Bytes) (handlers : List Bytes) where
  abbrev pub MeetsClients : List Connection → Type 0
  MeetsClients [] = Unit {0}
  MeetsClients (no_client ∷ connections) = ⊥
  MeetsClients (failed ∷ connections) = MeetsClients connections
  MeetsClients (connected events ∷ connections) = MeetsClients connections

  -- Without a maximum, and without overflow checks, the loop goes on through any failures and any streams
  -- that close, as long as the client can be made.
  pub start_pubsub-goes_on :
      (s : Backoff) (connections : List Connection)
      → MeetsClients connections
      → (next : Backoff) × ((start_pubsub decode handlers false none s connections).1
          ≡ looping next)
  unfolding start_pubsub round round_end exhausted overflows
  start_pubsub-goes_on s [] h = (s, refl)
  start_pubsub-goes_on s (no_client ∷ connections) h = absurd h
  start_pubsub-goes_on s (failed ∷ connections) h =
      start_pubsub-goes_on (wrapped (after_failure s)) connections h
  start_pubsub-goes_on s (connected events ∷ connections) h =
      start_pubsub-goes_on initial_backoff connections h
