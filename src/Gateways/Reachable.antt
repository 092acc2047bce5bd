-- ===== src/Gateways/Reachable.antt =====
-- The gateways that `fetch_gateways` returns, next to the filter of the list of gateways.
use mathlib.Core.List.{append_assoc}
use switchboard_sdk.Prelude.{
  length-append, ◌+◌, ℕ, ◌≡◌, refl, Bool, Option, some, List, [], ◌∷◌, ◌++◌, map, keep, get_elem?,
  length, ok, inl, inr, Bool-cases,
}
use switchboard_sdk.Prelude.Words.{Bytes}
use switchboard_sdk.Gateways.{
  ClientOracle, ClientQueue, Gateway, fetch_oracle_accounts, fetch_gateways, gateways_of, good_from,
  test_gateway,
}

-- The place behind the tested gateways is that of the next one.
get_elem?-behind :
    (done : List Gateway) (g : Gateway) (gs : List Gateway)
    → get_elem? (done ++ g ∷ gs) (length done) ≡ some g
get_elem?-behind [] g gs = refl
get_elem?-behind (d ∷ done) g gs = get_elem?-behind done g gs

good_from-keep :
    (test : Gateway → Bool) (done gs : List Gateway)
    → good_from (length done) (done ++ gs) (map test gs) ≡ ok (keep test gs)
unfolding good_from
good_from-keep test done [] = refl
good_from-keep test done (g ∷ gs) =
    let next : good_from (length done + 1) (done ++ g ∷ gs) (map test gs) ≡ ok (keep test gs) =
      rw (length-append done (g ∷ []), append_assoc done (g ∷ []) gs) at
        (good_from-keep test (done ++ g ∷ []) gs) in
    elim (Bool-cases (test g)) [
      | inl good ↦ rw (good, get_elem?-behind done g gs, next) refl
      | inr bad ↦ rw (bad, next) refl
    ]

module _ (size : ℕ) (cast : Bytes → Option ClientOracle) (lossy : Bytes → Bytes)
    (get : Bytes → Option (Option Bytes)) where
  -- When the oracles are fetched, `fetch_gateways` returns, in their order, exactly the gateways of
  -- those oracles that have a URI and whose gateway answers the test, and it does not panic.
  pub fetch_gateways-keep :
      (queue : ClientQueue) (answer : List Bytes → Option (List (Option Bytes)))
      (pairs : List (Bytes × ClientOracle))
      → fetch_oracle_accounts size cast queue answer ≡ ok pairs
      → fetch_gateways size cast lossy get queue answer
        ≡ ok (keep (test_gateway get) (gateways_of lossy pairs))
  unfolding fetch_gateways
  fetch_gateways-keep queue answer pairs h =
      rw h (good_from-keep (test_gateway get) [] (gateways_of lossy pairs))
