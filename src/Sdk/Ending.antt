-- ===== src/Sdk/Ending.antt =====
-- The waiting of sdk/client.py ends.
use flash_connector.Prelude.{
  refl, false, ap, ℕ, zero, suc, ◌+◌, ◌-◌, ◌*◌, ◌≤◌, ◌<◌, String, true, some, ◌≡◌, leb, Result, ok,
  err, arith, Bool-cases, inl, inr, Result-cases,
}
use flash_connector.Sdk.Errors.{SdkError}
use flash_connector.Sdk.Waiting.{Detail, Awaited, timeout_error, is_terminal, wait_from, wait_for}

-- A waiting of `n` requests, from the world before the first to the one after the last, and its result:
-- each state but the last is not terminal and comes before the limit, and a sleep follows it; the last
-- request raises, or its state is terminal, or comes when the limit is reached.
pub data Waited {World : Type 0} (clock : World → ℕ) (sleep : World → World)
    (fetch : World → World × Result SdkError Detail) (a : Awaited) (id : String) (limit started : ℕ)
    : ℕ → World → World → Result SdkError Detail → Type 0 where
  raised :
      (w w' : World) (e : SdkError)
      → fetch w ≡ (w', err e)
      → Waited clock sleep fetch a id limit started 1 w w' (err e)
  done :
      (w w' : World) (d : Detail)
      → fetch w ≡ (w', ok d)
      → is_terminal d ≡ true
      → Waited clock sleep fetch a id limit started 1 w w' (ok d)
  late :
      (w w' : World) (d : Detail)
      → fetch w ≡ (w', ok d)
      → is_terminal d ≡ false
      → limit ≤ clock w' - started
      → Waited clock sleep fetch a id limit started 1 w w' (err (timeout_error a id d))
  again :
      (n : ℕ) (w w' last : World) (d : Detail) (r : Result SdkError Detail)
      → fetch w ≡ (w', ok d)
      → is_terminal d ≡ false
      → clock w' - started < limit
      → Waited clock sleep fetch a id limit started n (sleep w') last r
      → Waited clock sleep fetch a id limit started (suc n) w last r

with_second : {A B : Type 0} (p : A × B) {v : B} → p.1 ≡ v → p ≡ (p.0, v)
with_second p e = ap (λ u. (p.0, u)) e

module _ {World : Type 0} (clock : World → ℕ) (sleep : World → World)
    (fetch : World → World × Result SdkError Detail) (a : Awaited) (id : String) (step : ℕ)
    (m : (x : World) → clock x ≤ clock (fetch x).0)
    (s : (x : World) → clock x + step ≤ clock (sleep x)) where
  -- What the loop gives, after no more requests than its fuel.
  abbrev Ends : ℕ → ℕ → ℕ → World → Type 0
  Ends limit started fuel w =
      (k : ℕ) × (last : World) × (r : Result SdkError Detail) × (k ≤ fuel)
      × (wait_from clock sleep fetch a id (some limit) started fuel w ≡ (last, some r))
      × Waited clock sleep fetch a id limit started k w last r

  -- A round ends the waiting, or leaves it to the next before the limit.
  round-Ends :
      (limit started fuel : ℕ) (w : World)
      → (clock (fetch w).0 - started < limit → Ends limit started fuel (sleep (fetch w).0))
      → Ends limit started (suc fuel) w
  unfolding wait_from
  round-Ends limit started fuel w next =
      let w' = (fetch w).0 in
      elim (Result-cases (fetch w).1) [
        | inr (e, f) ↦ (
          1,
          w',
          err e,
          omega arith,
          rw (f, wait_from) refl,
          raised w w' e (with_second (fetch w) f),
        )
        | inl (d, f) ↦ elim (Bool-cases (is_terminal d)) [
          | inl t ↦ (
            1,
            w',
            ok d,
            omega arith,
            rw (f, t, wait_from) refl,
            done w w' d (with_second (fetch w) f) t,
          )
          | inr t ↦ elim (Bool-cases (leb limit (clock w' - started))) [
            | inl l ↦ (
              1,
              w',
              err (timeout_error a id d),
              omega arith,
              rw (f, t, l, wait_from) refl,
              late w w' d (with_second (fetch w) f) t (ground (arith, l)),
            )
            | inr l ↦
                let before : clock w' - started < limit = ground (arith, l) in
                let (k, last, r, b, e, trace) = next before in
                (
                  suc k,
                  last,
                  r,
                  omega (arith, b),
                  rw (f, t, l, wait_from) e,
                  again k w w' last d r (with_second (fetch w) f) t before trace,
                )
          ]
        ]
      ]

  wait_from-Ends :
      (limit started n : ℕ) (w : World)
      → started ≤ clock w
      → limit ≤ (clock w - started) + n * step
      → Ends limit started (suc n) w
  wait_from-Ends limit started zero w b h =
      round-Ends limit started zero w (λ l. absurd (omega (arith, m w)))
  wait_from-Ends limit started (suc n) w b h = round-Ends limit started (suc n) w (λ l.
      wait_from-Ends limit started n (sleep (fetch w).0) (omega (arith, m w, s (fetch w).0))
        (omega (arith, m w, s (fetch w).0)))

-- A waiting with a time limit ends, where no request sets the clock back and each sleep takes a step of
-- it at least, after at most one request more than the steps that the limit is covered by: with the first
-- state that is terminal, with the exception of a request, or with the timeout, which is raised at the
-- first state that is not terminal and comes when the limit is reached, and not before.
pub wait_for-Ended :
    {World : Type 0} (clock : World → ℕ) (sleep : World → World)
    (fetch : World → World × Result SdkError Detail) (a : Awaited) (id : String) (step limit n : ℕ)
    (w : World)
    → ((x : World) → clock x ≤ clock (fetch x).0)
    → ((x : World) → clock x + step ≤ clock (sleep x))
    → limit ≤ n * step
    → (k : ℕ) × (last : World) × (r : Result SdkError Detail) × (k ≤ suc n)
      × (wait_for clock sleep fetch a id (suc n) (some limit) w ≡ (last, some r))
      × Waited clock sleep fetch a id limit (clock w) k w last r
unfolding wait_for
wait_for-Ended clock sleep fetch a id step limit n w m s h =
    wait_from-Ends clock sleep fetch a id step m s limit (clock w) n w (omega arith) (omega arith)
