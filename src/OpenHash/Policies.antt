-- ===== src/OpenHash/Policies.antt =====
-- The three policies of include/openhash.hpp side by side.
use de_si_gnar.Prelude.{ℕ, ◌%◌, ◌^◌, ◌<◌, ◌≤◌, ◌≡◌}
use de_si_gnar.OpenHash.{linear_probe, quadratic_probe, double_probe}
use de_si_gnar.OpenHash.Probe.{pow2, linear-IsProbing}
use de_si_gnar.OpenHash.DoubleHashing.{double-IsProbing}
use de_si_gnar.OpenHash.QuadraticProbing.{quadratic-IsProbing}

-- One of the first `pow2 k` probes is at the slot `s`.
abbrev pub Visits : (ℕ → ℕ → ℕ → ℕ → ℕ) → ℕ → ℕ → ℕ → ℕ → Type 0
Visits probe k h1 h2 s = (i : ℕ) × (i < pow2 k) × (probe h1 h2 i (pow2 k) ≡ s)

-- In a table of a power of two of slots, up to 2 ^ 63, each of the three policies visits each slot
-- within as many probes as there are slots, from any slot and with any odd second hash.
pub policies_visit :
    (k h1 h2 s : ℕ)
    → pow2 k ≤ 2 ^ 63
    → h1 < pow2 k
    → h2 % 2 ≡ 1
    → s < pow2 k
    → Visits linear_probe k h1 h2 s
      × Visits quadratic_probe k h1 h2 s
      × Visits double_probe k h1 h2 s
policies_visit k h1 h2 s fits first odd within = (
  linear-IsProbing.covers k h1 h2 s fits first odd within,
  quadratic-IsProbing.covers k h1 h2 s fits first odd within,
  double-IsProbing.covers k h1 h2 s fits first odd within,
)
