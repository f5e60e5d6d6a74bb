-- ===== src/StringAlgorithms/Script.antt =====
-- Edit scripts: what an edit distance is a distance of, and the recursive distance, which is least.
use de_si_gnar.Prelude.{
  ℕ, suc, ◌+◌, ◌≤◌, min, ◌≡◌, refl, sym, subst, ◌==◌, ==_iff, Bool-cases, inl, inr, if◌then◌else◌,
  List, [], ◌∷◌, ◌++◌, append-nil, length, arith,
}
use native.Mathlib.Omega.{min_cases}
use mathlib.Core.List.{reverse, reverse-cons}

-- A way to turn the first list into the second by a number of insertions, deletions and
-- substitutions of single symbols.
pub data Script : List ℕ → List ℕ → ℕ → Type 0 where
  done : Script [] [] 0
  keep : {a b : List ℕ} {n : ℕ} (x : ℕ) → Script a b n → Script (x ∷ a) (x ∷ b) n
  insertion : {a b : List ℕ} {n : ℕ} (y : ℕ) → Script a b n → Script a (y ∷ b) (suc n)
  deletion : {a b : List ℕ} {n : ℕ} (x : ℕ) → Script a b n → Script (x ∷ a) b (suc n)
  substitution : {a b : List ℕ} {n : ℕ} (x y : ℕ) → Script a b n → Script (x ∷ a) (y ∷ b) (suc n)

-- The recursive distance.
unfoldable pub distance : List ℕ → List ℕ → ℕ
distance [] b = length b
distance (x ∷ a) [] = suc (length a)
distance (x ∷ a) (y ∷ b) =
    if x == y
    then distance a b
    else 1 + min (min (distance a b) (distance a (y ∷ b))) (distance (x ∷ a) b)

distance-nil : (a : List ℕ) → distance a [] ≡ length a
unfolding distance
distance-nil [] = refl
distance-nil (x ∷ a) = refl

-- One symbol more on either side changes the distance by one at most.
record IsNear (a b : List ℕ) : Type 0 where
  more_right : (y : ℕ) → distance a (y ∷ b) ≤ 1 + distance a b
  less_right : (y : ℕ) → distance a b ≤ 1 + distance a (y ∷ b)
  more_left : (x : ℕ) → distance (x ∷ a) b ≤ 1 + distance a b
  less_left : (x : ℕ) → distance a b ≤ 1 + distance (x ∷ a) b

near : (a b : List ℕ) → IsNear a b
unfolding distance
near [] [] = record {
  more_right = λ y. omega arith;
  less_right = λ y. omega arith;
  more_left = λ x. omega arith;
  less_left = λ x. omega arith;
}
near [] (y ∷ b) =
    let h = near [] b in
    record {
      more_right = λ z. omega arith;
      less_right = λ z. omega arith;
      more_left = λ x. ground (arith, h.more_left x);
      less_left = λ x. ground (arith, h.less_left x);
    }
near (x ∷ a) [] =
    let h = near a [] in
    record {
      more_right = λ y. ground (arith, h.more_right y, distance-nil a);
      less_right = λ y. ground (arith, h.less_right y, distance-nil a);
      more_left = λ z. omega arith;
      less_left = λ z. omega arith;
    }
near (x ∷ a) (y ∷ b) =
    let h = near a (y ∷ b) in
    let k = near (x ∷ a) b in
    record {
      more_right = λ z. ground (arith, h.less_left x);
      less_right = λ z. ground (arith, h.more_left x, h.less_right z);
      more_left = λ z. ground (arith, k.less_right y);
      less_left = λ z. ground (arith, k.more_right y, k.less_left z);
    }

renumber : {a b : List ℕ} {m n : ℕ} → m ≡ n → Script a b m → Script a b n
renumber {a} {b} e s = subst (Script a b) e s

counted : {a b : List ℕ} {n : ℕ} → Script a b (suc n) → Script a b (1 + n)
counted s = renumber (omega arith) s

-- No script is shorter than the distance.
pub distance-least : {a b : List ℕ} {n : ℕ} → Script a b n → distance a b ≤ n
unfolding distance
distance-least done = omega arith
distance-least (keep {a} {b} x s) = ground (arith, distance-least s)
distance-least (insertion {a} {b} {n} y s) =
    omega (arith, (near a b).more_right y, distance-least s)
distance-least (deletion {a} {b} x s) = omega (arith, (near a b).more_left x, distance-least s)
distance-least (substitution {a} {b} x y s) = ground (arith, distance-least s)

insert_all : (b : List ℕ) → Script [] b (length b)
insert_all [] = done
insert_all (y ∷ b) = insertion y (insert_all b)

delete_all : (a : List ℕ) → Script a [] (length a)
delete_all [] = done
delete_all (x ∷ a) = deletion x (delete_all a)

min_either : (P : ℕ → Type 0) (i j : ℕ) → P i → P j → P (min i j)
min_either P i j p q =
    min_cases i j (P (min i j)) (λ _ e. subst P (sym e) p) (λ _ e. subst P (sym e) q)

-- There is a script of the distance's length.
pub distance-script : (a b : List ℕ) → Script a b (distance a b)
unfolding distance
distance-script [] b = insert_all b
distance-script (x ∷ a) [] = delete_all (x ∷ a)
distance-script (x ∷ a) (y ∷ b) =
    let via = distance-script a b in
    let left = distance-script a (y ∷ b) in
    let right = distance-script (x ∷ a) b in
    elim (Bool-cases (x == y)) [
      | inl same ↦
          let e = (==_iff x y).0 same in
          rw (same, distance) (subst (λ z. Script (x ∷ a) (z ∷ b) (distance a b)) e (keep x via))
      | inr other ↦
          rw (other, distance)
            (min_either (λ n. Script (x ∷ a) (y ∷ b) (1 + n))
              (min (distance a b) (distance a (y ∷ b))) (distance (x ∷ a) b)
              (min_either (λ n. Script (x ∷ a) (y ∷ b) (1 + n)) (distance a b) (distance a (y ∷ b))
                (counted (substitution x y via)) (counted (deletion x left)))
              (counted (insertion y right)))
    ]

join : {a b c d : List ℕ} {m n : ℕ} → Script a b m → Script c d n → Script (a ++ c) (b ++ d) (m + n)
join {n = n} done t = renumber (omega arith) t
join (keep x s) t = keep x (join s t)
join {n = n} (insertion {n = m} y s) t = renumber (omega arith) (insertion y (join s t))
join {n = n} (deletion {n = m} x s) t = renumber (omega arith) (deletion x (join s t))
join {n = n} (substitution {n = m} x y s) t = renumber (omega arith) (substitution x y (join s t))

-- A script can be read backwards.
pub Script-reverse : {a b : List ℕ} {n : ℕ} → Script a b n → Script (reverse a) (reverse b) n
Script-reverse done = done
Script-reverse (keep {a} {b} x s) =
    rw (reverse-cons x a, reverse-cons x b)
      (renumber (omega arith) (join (Script-reverse s) (keep x done)))
Script-reverse (insertion {a} {b} {n} y s) = rw (reverse-cons y b) (
    subst (λ l. Script l (reverse b ++ y ∷ []) (suc n)) (append-nil (reverse a))
      (renumber (omega arith) (join (Script-reverse s) (insertion y done))))
Script-reverse (deletion {a} {b} {n} x s) = rw (reverse-cons x a) (
    subst (λ l. Script (reverse a ++ x ∷ []) l (suc n)) (append-nil (reverse b))
      (renumber (omega arith) (join (Script-reverse s) (deletion x done))))
Script-reverse (substitution {a} {b} x y s) =
    rw (reverse-cons x a, reverse-cons y b)
      (renumber (omega arith) (join (Script-reverse s) (substitution x y done)))
