-- ===== src/Sort.antt =====
-- The searches of include/sort.hpp on an array, which is a list here. An interval from `l` to `r` is
-- written with its end `r + 1`, since `r` may be -1; `none` is the exception `std::out_of_range` of
-- `at`, or fuel that ran out.
pub mod Search
pub mod NodeLists
use de_si_gnar.Prelude.{
  ℕ, zero, suc, ◌+◌, ◌-◌, ◌/◌, leb, Bool, true, false, Option, none, some, ◌>>=◌, List, get_elem?,
}
use de_si_gnar.Compare.{Compare}

module _ {ℓ} {K : Type ℓ} ⦃o : Compare K⦄ where
  -- The recursive calls of `binary_search` for the two halves are `lower` and `upper`.
  abbrev pub halve : Option ℕ → Option ℕ → K → ℕ → K → Option ℕ
  halve lower upper k m x = elim (o.cmp k x) [
    | true ↦ lower
    | false ↦ elim (o.cmp x k) [ true ↦ upper | false ↦ some m ]
  ]

  unfoldable pub binary_search : ℕ → List K → K → ℕ → ℕ → Option ℕ
  binary_search zero a k l end = none
  binary_search (suc fuel) a k l end =
      let m = (l + end - 1) / 2 in
      let lower = binary_search fuel a k l m in
      let upper = binary_search fuel a k (m + 1) end in
      elim (leb end l) [ true ↦ some l | false ↦ do x ← get_elem? a m; halve lower upper k m x ]
