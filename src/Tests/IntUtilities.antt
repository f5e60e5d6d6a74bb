-- ===== src/Tests/IntUtilities.antt =====
-- include/intutilities.hpp at numbers.
use de_si_gnar.Prelude.{◌-◌, ◌≡◌, ◌^◌, ◌%◌, ltb, refl, some, none, arith, if◌then◌else◌}
use de_si_gnar.IntUtilities.{
  count_permutations, count_combinations, backward_prod, forward_prod, backward_loop, forward_loop,
  factorial,
}
use de_si_gnar.IntUtilities.Product.{product, pascal}
use de_si_gnar.IntUtilities.Count.{count_permutations-product, count_combinations-pascal}

ran : count_combinations 52 3 ≡ some 22100
unfolding count_combinations backward_prod forward_prod backward_loop forward_loop factorial
ran = refl

-- The product 16 * … * 30 is past 2 ^ 64, so the result is not 155117520.
wrapped : count_combinations 30 15 ≡ some 14052247
unfolding count_combinations backward_prod forward_prod backward_loop forward_loop factorial
wrapped = refl

-- 70 factorial wraps around to 0.
divides_by_zero : count_combinations 100 70 ≡ none
unfolding count_combinations backward_prod forward_prod backward_loop forward_loop factorial
divides_by_zero = refl

count_permutations-product_example :
    count_permutations 10 5 ≡ (if ltb 10 5 then none else some (product (10 - 5) 5 % 2 ^ 64))
count_permutations-product_example = count_permutations-product 10 5 (omega arith)

count_combinations-pascal_example : count_combinations 10 7 ≡ some (pascal (10 - 7) 7)
count_combinations-pascal_example =
    count_combinations-pascal 10 7 (omega arith) (omega arith) (omega arith)
