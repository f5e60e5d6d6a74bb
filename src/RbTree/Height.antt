-- ===== src/RbTree/Height.antt =====
-- The height of an `RbTree` (include/rbtree.hpp) against the number of its keys.
use de_si_gnar.Prelude.{
  ℕ, zero, suc, ◌+◌, ◌*◌, ◌/◌, ◌^◌, ◌≤◌, ◌<◌, subst, if◌then◌else◌, arith, length, length-append,
  max, ◌∷◌,
}
use native.Mathlib.Nat.{pow-suc, pow-le-pow_right}
use de_si_gnar.Nodes.{null, node, inorder}
use de_si_gnar.RbTree.{red, black, RbNode, is_red}
use de_si_gnar.RbTree.Shape.{IsRb}
use de_si_gnar.RbTree.Container.Laws.{IsBlack}

module _ {ℓ} {K : Type ℓ} where
  -- The nodes on the longest path.
  abbrev pub levels : RbNode K → ℕ
  levels null = 0
  levels (node c l x r) = suc (max (levels l) (levels r))

  -- A subtree with `n` black nodes on each path holds at least `2 ^ n - 1` keys.
  full-length : (t : RbNode K) (n : ℕ) → IsRb t n → 2 ^ n ≤ length (inorder t) + 1
  full-length null n h = rw h (omega arith)
  full-length (node red l x r) n h =
      omega (arith, full-length l n h.2, length-append (inorder l) (x ∷ inorder r))
  full-length (node black l x r) zero h = cc
  full-length (node black l x r) (suc n) h = rw (pow-suc) (
      omega (
        arith,
        full-length l n h.1,
        full-length r n h.2,
        length-append (inorder l) (x ∷ inorder r),
      ))

  -- Red nodes do no more than double a path.
  levels-twice : (t : RbNode K) (n : ℕ) → IsRb t n → levels t ≤ 2 * n + (if is_red t then 1 else 0)
  levels-twice null n h = omega arith
  levels-twice (node red l x r) n h =
      let left : levels l ≤ 2 * n + 0 =
        subst (λ b. levels l ≤ 2 * n + (if b then 1 else 0)) (h.0) (levels-twice l n h.2) in
      let right : levels r ≤ 2 * n + 0 =
        subst (λ b. levels r ≤ 2 * n + (if b then 1 else 0)) (h.1) (levels-twice r n h.3) in
      omega (arith, left, right)
  levels-twice (node black l x r) zero h = cc
  levels-twice (node black l x r) (suc n) h =
      ground (arith, levels-twice l n h.1, levels-twice r n h.2)

  -- A tree of `h` levels with the red-black invariant and a black root holds at least
  -- `2 ^ (h / 2) - 1` keys.
  pub levels-keys : (t : RbNode K) → IsBlack t → 2 ^ (levels t / 2) ≤ length (inorder t) + 1
  levels-keys t (n, g, b) =
      let low : levels t ≤ 2 * n + 0 =
        subst (λ b. levels t ≤ 2 * n + (if b then 1 else 0)) b (levels-twice t n g) in
      let half : levels t / 2 ≤ n = omega (arith, low) in
      let two : 0 < 2 = omega arith in omega (arith, full-length t n g, pow-le-pow_right two half)
