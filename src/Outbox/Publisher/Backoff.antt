-- ===== src/Outbox/Publisher/Backoff.antt =====
-- `retryBackoff` of internal/outbox/publisher.go: the doubling backoff and its cap.
use native.Mathlib.Nat.{pow-suc}
use proto_radar.Prelude.{
  ℕ, zero, suc, ◌*◌, ◌^◌, ◌≤◌, ◌<◌, ◌≡◌, false, min, if◌then◌else◌, arith, ◌||◌,
}
use proto_radar.Prelude.Int.{ℤ, pos, nonpos, ltb_ℤ, to_ℕ}
use proto_radar.Outbox.Publisher.{PublisherOptions, Float64, doublings, retry_backoff}
use proto_radar.Outbox.Publisher.Options.{IsUsable}

clamp : ℤ → ℤ → ℤ
clamp longest backoff = if nonpos backoff || ltb_ℤ longest backoff then longest else backoff

clamp_bounds :
    (longest backoff : ℤ)
    → nonpos longest ≡ false
    → (nonpos (clamp longest backoff) ≡ false) × (ltb_ℤ longest (clamp longest backoff) ≡ false)
unfolding clamp
clamp_bounds longest backoff h = ground arith

clamp_pos : (longest p : ℕ) → 0 < p → clamp (pos longest) (pos p) ≡ pos (min p longest)
unfolding clamp
clamp_pos longest p h = ground arith

two_pow_pos : (n : ℕ) → 0 < 2 ^ n
two_pow_pos zero = omega arith
two_pow_pos (suc n) = rw pow-suc (omega (arith, two_pow_pos n))

-- With usable options, whatever the float conversion answers, the backoff is positive and not above the
-- longest one.
pub retry_backoff_bounds :
    (float : Float64) (options : PublisherOptions) (attempts : ℕ)
    → IsUsable options
    → (nonpos (retry_backoff float options attempts) ≡ false)
      × (ltb_ℤ options.max_retry_backoff (retry_backoff float options attempts) ≡ false)
unfolding retry_backoff clamp
retry_backoff_bounds float options attempts u =
    clamp_bounds options.max_retry_backoff
      (float.scale (to_ℕ options.initial_retry_backoff) (doublings attempts)) u.longest_backoff

-- If the first backoff is positive and at most 2^53, and its doubling n - 1 times is below 2^63, then
-- the backoff of attempt n is that product, capped at the longest.
pub retry_backoff_exact :
    (float : Float64) (options : PublisherOptions) (first longest attempts : ℕ)
    → options.initial_retry_backoff ≡ pos first
    → options.max_retry_backoff ≡ pos longest
    → 0 < first
    → first ≤ 2 ^ 53
    → first * 2 ^ doublings attempts < 2 ^ 63
    → retry_backoff float options attempts ≡ pos (min (first * 2 ^ doublings attempts) longest)
unfolding retry_backoff clamp
retry_backoff_exact float options first longest attempts e f positive small fits =
    rw (e, f)
      (rw (float.scale_exact first (doublings attempts) small fits)
        (clamp_pos longest _ (grind (arith, two_pow_pos))))
