-- ===== src/Transport/Reconnect.antt =====
-- src/transport.rs: the reconnect policy.
use cultnet_rs.Base.{
  ℕ, zero, suc, ◌+◌, ◌-◌, ◌*◌, ◌^◌, ◌≤◌, ◌<◌, ◌≡◌, min, max, refl, arith, List, ltb,
}
use cultnet_rs.Base.{false, Option, none, if◌then◌else◌, inl, inr, Bool-cases}
use cultnet_rs.Base.Outcome.{Outcome, ok, panic}
use cultnet_rs.Base.Text.{codes, trim_is_empty}

pub record CultNetReconnectPolicy : Type 0 where
  pub schema_version : List ℕ
  pub policy_id : List ℕ
  pub base_delay_ms : ℕ
  pub max_delay_ms : ℕ
  pub max_jitter_ms : ℕ
  pub max_attempts : Option ℕ

pub record CultNetReconnectPolicyOptions : Type 0 where
  pub policy_id : List ℕ
  pub base_delay_ms : ℕ
  pub max_delay_ms : ℕ
  pub max_jitter_ms : ℕ
  pub max_attempts : Option ℕ

abbrev pub default_options : CultNetReconnectPolicyOptions
default_options = record {
  policy_id = codes "default";
  base_delay_ms = 1000;
  max_delay_ms = 30000;
  max_jitter_ms = 250;
  max_attempts = none;
}

unfoldable pub create_reconnect_policy : CultNetReconnectPolicyOptions → CultNetReconnectPolicy
create_reconnect_policy options = record {
  schema_version = codes "cultnet.reconnect_policy.v0";
  policy_id = if trim_is_empty options.policy_id then codes "default" else options.policy_id;
  base_delay_ms = options.base_delay_ms;
  max_delay_ms = options.max_delay_ms;
  max_jitter_ms = options.max_jitter_ms;
  max_attempts = options.max_attempts;
}

abbrev pub u64_max : ℕ
u64_max = 0xffff_ffff_ffff_ffff

-- `2_u64.saturating_pow(n)`.
unfoldable pub saturating_pow2 : ℕ → ℕ
saturating_pow2 n = min (2 ^ n) u64_max

unfoldable pub saturating_mul : ℕ → ℕ → ℕ
saturating_mul a b = min (a * b) u64_max

-- The sum at the end is a plain `+` on `u64`.
unfoldable pub compute_reconnect_delay_ms : CultNetReconnectPolicy → ℕ → ℕ → Outcome ⊥ ℕ
compute_reconnect_delay_ms policy attempt jitter_ms =
    let normalized_attempt = max attempt 1 in
    let multiplier = saturating_pow2 (normalized_attempt - 1) in
    let capped_base_delay =
      min (saturating_mul policy.base_delay_ms multiplier) policy.max_delay_ms in
    let delay = capped_base_delay + min jitter_ms policy.max_jitter_ms in
    if ltb u64_max delay then panic else ok delay

-- `n + 1` times as much is at least as much.
le-mul : (n m : ℕ) → m ≤ suc n * m
le-mul n m = omega arith

saturation :
    (base power limit : ℕ)
    → limit ≤ u64_max
    → min (min (base * min power u64_max) u64_max) limit ≡ min (base * power) limit
saturation zero power limit h = omega arith
saturation (suc n) power limit h = elim (Bool-cases (ltb u64_max power)) [
  | inr small ↦ let e : min power u64_max ≡ power = ground arith in rw e (omega arith)
  | inl big ↦
      let above : u64_max < power = ground arith in
      let e : min power u64_max ≡ u64_max = omega arith in
      rw e (omega (arith, le-mul n power, le-mul n u64_max))
]

-- If the policy's longest delay and longest jitter together are a `u64`: the delay before an
-- attempt is the base delay, doubled for each attempt after the first and cut at the longest
-- delay, plus the jitter, cut at the longest jitter; no saturation on the way changes it, and
-- the sum does not overflow.
pub compute_reconnect_delay_ms_lem :
    (policy : CultNetReconnectPolicy) (attempt jitter_ms : ℕ)
    → policy.max_delay_ms + policy.max_jitter_ms ≤ u64_max
    → compute_reconnect_delay_ms policy attempt jitter_ms
      ≡ ok (
          min (policy.base_delay_ms * 2 ^ (max attempt 1 - 1)) policy.max_delay_ms
          + min jitter_ms policy.max_jitter_ms)
unfolding compute_reconnect_delay_ms saturating_mul saturating_pow2
compute_reconnect_delay_ms_lem policy attempt jitter_ms h =
    let power = 2 ^ (max attempt 1 - 1) in
    let within : policy.max_delay_ms ≤ u64_max = omega arith in
    let delay =
      min (policy.base_delay_ms * power) policy.max_delay_ms + min jitter_ms policy.max_jitter_ms in
    let fits : ltb u64_max delay ≡ false = ground arith in
    rw (saturation policy.base_delay_ms power policy.max_delay_ms within, fits) refl
