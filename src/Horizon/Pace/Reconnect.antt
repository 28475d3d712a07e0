-- ===== src/Horizon/Pace/Reconnect.antt =====
-- src/horizon.rs, `run_stream_listener`: the waits of the listener in closed form.
use native.Mathlib.Nat.{pow-succ'}
use stellar_gate.Prelude.{
  ℕ, suc, ◌*◌, ◌^◌, ◌≡◌, refl, ap, Bool, true, false, List, [], ◌∷◌, arith, min, map,
}
use stellar_gate.Horizon.Pace.{
  listener_waits, next_backoff, stream_backoff_base, stream_backoff_max,
}

-- How often the wait behind a connection has doubled, and behind the next ones.
abbrev pub doublings : ℕ → List Bool → List ℕ
doublings n [] = []
doublings n (true ∷ connections) = 0 ∷ doublings 1 connections
doublings n (false ∷ connections) = n ∷ doublings (suc n) connections

-- One second, doubled so often, and at most half a minute.
abbrev pub capped : ℕ → ℕ
capped n = min (stream_backoff_base * 2 ^ n) stream_backoff_max

next_backoff-capped : (n : ℕ) → next_backoff (capped n) ≡ capped (suc n)
next_backoff-capped n = omega (arith, pow-succ' 2 n)

-- From a backoff of one second that has doubled `n` times, every wait of the listener is one second
-- doubled once for each connection since the last one that moved the cursor, up to half a minute.
pub listener_waits-doublings :
    (n : ℕ) (connections : List Bool)
    → listener_waits (capped n) connections ≡ map capped (doublings n connections)
unfolding listener_waits
listener_waits-doublings n [] = refl
listener_waits-doublings n (true ∷ connections) =
    ap (λ ws. 1000 ∷ ws) (listener_waits-doublings 1 connections)
listener_waits-doublings n (false ∷ connections) =
    rw (next_backoff-capped n)
      (ap (λ ws. capped n ∷ ws) (listener_waits-doublings (suc n) connections))
