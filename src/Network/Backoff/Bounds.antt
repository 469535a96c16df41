-- ===== src/Network/Backoff/Bounds.antt =====
-- The delays of crates/common/src/network/backoff.rs stay between their bounds.
use ctp_system.Prelude.{
  ℕ, ◌+◌, ◌≤◌, ◌≡◌, refl, subst, Bool, false, List, [], ◌∷◌, ok, arith, nat_eq, All,
}
use native.Mathlib.Omega.{mod_fact}
use ctp_system.Model.Types.{F64}
use ctp_system.Network.Backoff.{ExponentialBackoff, from_millis, new, jitter, next_duration, reset}

pub record IsBounded (b : ExponentialBackoff) : Type 0 where
  pub positive : 1 ≤ b.delay_initial
  pub above : b.delay_initial ≤ b.delay_current
  pub below : b.delay_current ≤ b.delay_max

new-IsBounded :
    (in_range : F64 → Bool) (initial maximum : ℕ) (factor : F64) (jitter_ms : ℕ) (first : Bool)
    (b : ExponentialBackoff)
    → new in_range initial maximum factor jitter_ms first ≡ ok b
    → IsBounded b
unfolding new
new-IsBounded in_range initial maximum factor jitter_ms first b h = record {
  positive = ground (arith, h);
  above = ground (arith, h);
  below = ground (arith, h);
}

jitter_le : (jitter_ms nanos : ℕ) → jitter jitter_ms nanos ≤ jitter_ms
unfolding jitter
jitter_le jitter_ms nanos = ground (arith, mod_fact nanos jitter_ms)

module _ (grow : ℕ → F64 → ℕ) where
  next_duration-IsBounded :
      (nanos : ℕ) (b : ExponentialBackoff) → IsBounded b → IsBounded (next_duration grow nanos b).1
  unfolding next_duration
  next_duration-IsBounded nanos b h = record {
    positive = ground (arith, h.positive);
    above = ground (arith, h.above);
    below = ground (arith, h.above, h.below);
  }

  -- The delays of one reconnect attempt after the other, each with the clock at that moment.
  pub delays : List ℕ → ExponentialBackoff → List ℕ
  delays [] b = []
  delays (nanos ∷ clocks) b =
      let (delay, b') = next_duration grow nanos b in delay ∷ delays clocks b'

  -- The delay is at most the longest one and the whole jitter, and at least the first one where no
  -- immediate attempt is allowed.
  abbrev Within : ℕ → ℕ → ℕ → ℕ → Type 0
  Within low high jitter_ms delay = (low ≤ delay) × (delay ≤ high + from_millis jitter_ms)

  delay-Within :
      (nanos : ℕ) (b : ExponentialBackoff)
      → IsBounded b
      → b.immediate_reconnect ≡ false
      → Within b.delay_initial b.delay_max b.jitter_ms (next_duration grow nanos b).0
  unfolding next_duration from_millis
  delay-Within nanos b h k =
      let j = jitter_le b.jitter_ms nanos in
      (ground (arith, h.above, k), ground (arith, h.below, k, j))

  -- What no attempt changes.
  abbrev Settings : ℕ → ℕ → ℕ → ExponentialBackoff → Type 0
  Settings low high jitter_ms b =
      IsBounded b × (b.delay_initial ≡ low) × (b.delay_max ≡ high) × (b.jitter_ms ≡ jitter_ms)

  new-Settings :
      (in_range : F64 → Bool) (initial maximum : ℕ) (factor : F64) (jitter_ms : ℕ) (first : Bool)
      (b : ExponentialBackoff)
      → new in_range initial maximum factor jitter_ms first ≡ ok b
      → Settings initial maximum jitter_ms b
  unfolding new
  new-Settings in_range initial maximum factor jitter_ms first b h = (
    new-IsBounded in_range initial maximum factor jitter_ms first b h,
    ground (arith, h),
    ground (arith, h),
    ground (arith, h),
  )

  next_duration-Settings :
      (nanos low high jitter_ms : ℕ) (b : ExponentialBackoff)
      → Settings low high jitter_ms b
      → Settings low high jitter_ms (next_duration grow nanos b).1
  unfolding next_duration
  next_duration-Settings nanos low high jitter_ms b (h, p, q, r) =
      (next_duration-IsBounded nanos b h, ground (arith, p), ground (arith, q), ground (arith, r))

  next_duration_immediate :
      (nanos : ℕ) (b : ExponentialBackoff)
      → b.immediate_reconnect ≡ false
      → (next_duration grow nanos b).1.immediate_reconnect ≡ false
  unfolding next_duration
  next_duration_immediate nanos b k = ground (arith, k)

  delays-Within :
      (clocks : List ℕ) (low high jitter_ms : ℕ) (b : ExponentialBackoff)
      → Settings low high jitter_ms b
      → b.immediate_reconnect ≡ false
      → All (Within low high jitter_ms) (delays clocks b)
  unfolding delays
  delays-Within [] low high jitter_ms b h k = tt
  delays-Within (nanos ∷ clocks) low high jitter_ms b (h, p, q, r) k =
      let now = delay-Within nanos b h k in
      let delay = (next_duration grow nanos b).0 in
      (
        subst (λ j. Within low high j delay) r
            (subst (λ m. Within low m b.jitter_ms delay) q
              (subst (λ i. Within i b.delay_max b.jitter_ms delay) p now)),
        delays-Within clocks low high jitter_ms (next_duration grow nanos b).1
            (next_duration-Settings nanos low high jitter_ms b (h, p, q, r))
            (next_duration_immediate nanos b k),
      )

  -- The backoff after so many attempts.
  pub attempts : List ℕ → ExponentialBackoff → ExponentialBackoff
  attempts [] b = b
  attempts (nanos ∷ clocks) b = attempts clocks (next_duration grow nanos b).1

  attempts-Settings :
      (clocks : List ℕ) (low high jitter_ms : ℕ) (b : ExponentialBackoff)
      → Settings low high jitter_ms b
      → Settings low high jitter_ms (attempts clocks b)
  unfolding attempts
  attempts-Settings [] low high jitter_ms b h = h
  attempts-Settings (nanos ∷ clocks) low high jitter_ms b h =
      attempts-Settings clocks low high jitter_ms (next_duration grow nanos b).1
        (next_duration-Settings nanos low high jitter_ms b h)

  reset-Settings :
      (low high jitter_ms : ℕ) (b : ExponentialBackoff)
      → Settings low high jitter_ms b
      → Settings low high jitter_ms (reset b)
  unfolding reset
  reset-Settings low high jitter_ms b (h, p, q, r) = (
    record {
      positive = h.positive;
      above = ground arith;
      below = ground (arith, h.above, h.below);
    },
    p,
    q,
    r,
  )

  -- Where a backoff can be made, then after any attempts and a reset every later delay, whatever the
  -- clock shows and however a delay grows, is at least the initial one and at most the longest one
  -- and the whole jitter.
  pub delays_lem :
      (in_range : F64 → Bool) (initial maximum : ℕ) (factor : F64) (jitter_ms : ℕ) (first : Bool)
      (b : ExponentialBackoff) (earlier clocks : List ℕ)
      → new in_range initial maximum factor jitter_ms first ≡ ok b
      → All
          (λ delay. (initial ≤ delay) × (delay ≤ maximum + from_millis jitter_ms))
          (delays clocks (reset (attempts earlier b)))
  unfolding reset
  delays_lem in_range initial maximum factor jitter_ms first b earlier clocks h =
      delays-Within clocks initial maximum jitter_ms (reset (attempts earlier b))
        (reset-Settings initial maximum jitter_ms (attempts earlier b) (
          attempts-Settings earlier initial maximum jitter_ms b
            (new-Settings in_range initial maximum factor jitter_ms first b h)))
        refl
