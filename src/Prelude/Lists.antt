-- ===== src/Prelude/Lists.antt =====
-- Lists measured by native numbers, and predicates on all members of a list.
use Prim.Native.Nat.{ℕ, zero, suc, ◌+◌, ◌-◌, ◌<◌, ◌≤◌}
use mathlib.Core.Path.{◌≡◌, refl, ap, ◌∙◌}
use mathlib.Core.Option.{Option, none, some}
use mathlib.Core.List.{List, [], ◌∷◌, ◌++◌}
use native.Mathlib.Omega.{arith}

module _ {ℓ} {A : Type ℓ} where
  abbrev pub length : List A → ℕ
  length [] = 0
  length (x ∷ xs) = suc (length xs)

  abbrev pub get_elem? : List A → ℕ → Option A
  get_elem? [] i = none
  get_elem? (x ∷ xs) zero = some x
  get_elem? (x ∷ xs) (suc i) = get_elem? xs i

  pub length-append : (xs ys : List A) → length (xs ++ ys) ≡ length xs + length ys
  length-append [] ys = omega arith
  length-append (x ∷ xs) ys = omega (arith, length-append xs ys)

  -- Every member satisfies `P`.
  abbrev pub All {κ} : (A → Type κ) → List A → Type κ
  All P [] = Unit
  All P (x ∷ xs) = P x × All P xs

  pub All-append {κ} : (P : A → Type κ) (xs ys : List A) → All P xs → All P ys → All P (xs ++ ys)
  All-append P [] ys h k = k
  All-append P (x ∷ xs) ys h k = (h.0, All-append P xs ys h.1 k)

  pub All-of_append {κ} : (P : A → Type κ) (xs ys : List A) → All P (xs ++ ys) → All P xs × All P ys
  All-of_append P [] ys h = (tt, h)
  All-of_append P (x ∷ xs) ys h =
      let (left, right) = All-of_append P xs ys h.1 in ((h.0, left), right)

  pub All-imp {κ μ} :
      {P : A → Type κ} {Q : A → Type μ}
      → ((a : A) → P a → Q a)
      → (xs : List A) → All P xs
      → All Q xs
  All-imp f [] h = tt
  All-imp f (x ∷ xs) h = (f x h.0, All-imp f xs h.1)

module _ {ℓ} {A : Type ℓ} where
  abbrev pub first : List A → Option A
  first [] = none
  first (x ∷ xs) = some x

  abbrev pub last : List A → Option A
  last [] = none
  last (x ∷ []) = some x
  last (x ∷ y ∷ ys) = last (y ∷ ys)

  pub first-append :
      (xs : List A) (x : A) (ys zs : List A) → first ((xs ++ x ∷ ys) ++ zs) ≡ first (xs ++ x ∷ ys)
  first-append [] x ys zs = refl
  first-append (a ∷ xs) x ys zs = refl

  pub last-append : (xs : List A) (y : A) (ys : List A) → last (xs ++ y ∷ ys) ≡ last (y ∷ ys)
  last-append [] y ys = refl
  last-append (a ∷ []) y ys = refl
  last-append (a ∷ b ∷ xs) y ys = last-append (b ∷ xs) y ys

  pub last-skip :
      (xs : List A) (x : A) (a : List A) (y : A) (b : List A)
      → last (xs ++ x ∷ (a ++ y ∷ b)) ≡ last (a ++ y ∷ b)
  last-skip xs x [] y b = last-append xs x (y ∷ b)
  last-skip xs x (c ∷ a) y b = last-append xs x (c ∷ a ++ y ∷ b)

  pub get_elem?-append_left :
      (xs ys : List A) (i : ℕ) → i < length xs → get_elem? (xs ++ ys) i ≡ get_elem? xs i
  get_elem?-append_left [] ys i h = absurd (omega arith)
  get_elem?-append_left (x ∷ xs) ys zero h = refl
  get_elem?-append_left (x ∷ xs) ys (suc i) h = get_elem?-append_left xs ys i (omega arith)

  pub get_elem?-append_right :
      (xs ys : List A) (i : ℕ)
      → length xs ≤ i
      → get_elem? (xs ++ ys) i ≡ get_elem? ys (i - length xs)
  get_elem?-append_right [] ys i h = ap (get_elem? ys) (omega arith)
  get_elem?-append_right (x ∷ xs) ys zero h = absurd (omega arith)
  get_elem?-append_right (x ∷ xs) ys (suc i) h =
      get_elem?-append_right xs ys i (omega arith) ∙ ap (get_elem? ys) (omega arith)

  pub get_elem?-append_at :
      (xs : List A) (x : A) (ys : List A) (i : ℕ)
      → length xs ≡ i
      → get_elem? (xs ++ x ∷ ys) i ≡ some x
  get_elem?-append_at [] x ys zero h = refl
  get_elem?-append_at [] x ys (suc i) h = absurd (omega arith)
  get_elem?-append_at (y ∷ xs) x ys zero h = absurd (omega arith)
  get_elem?-append_at (y ∷ xs) x ys (suc i) h = get_elem?-append_at xs x ys i (omega arith)

  pub get_elem?-append_past :
      (xs : List A) (x : A) (ys : List A) (i : ℕ)
      → length xs < i
      → get_elem? (xs ++ x ∷ ys) i ≡ get_elem? ys (i - length xs - 1)
  get_elem?-append_past [] x ys zero h = absurd (omega arith)
  get_elem?-append_past [] x ys (suc i) h = ap (get_elem? ys) (omega arith)
  get_elem?-append_past (y ∷ xs) x ys zero h = absurd (omega arith)
  get_elem?-append_past (y ∷ xs) x ys (suc i) h =
      get_elem?-append_past xs x ys i (omega arith) ∙ ap (get_elem? ys) (omega arith)

  pub in_range : (xs : List A) (i : ℕ) (x : A) → get_elem? xs i ≡ some x → i < length xs
  in_range [] i x h = cc
  in_range (a ∷ xs) zero x h = omega arith
  in_range (a ∷ xs) (suc i) x h = omega (arith, in_range xs i x h)

  pub get_in_range : (xs : List A) (i : ℕ) → i < length xs → (x : A) × (get_elem? xs i ≡ some x)
  get_in_range [] i h = absurd (omega arith)
  get_in_range (a ∷ xs) zero h = (a, refl)
  get_in_range (a ∷ xs) (suc i) h = get_in_range xs i (omega arith)

  pub nil_of_length : (xs : List A) → length xs ≤ 0 → [] ≡ xs
  nil_of_length [] h = refl
  nil_of_length (x ∷ xs) h = absurd (omega arith)

module _ {ℓ} {A : Type ℓ} where
  abbrev pub take : ℕ → List A → List A
  take zero xs = []
  take (suc n) [] = []
  take (suc n) (x ∷ xs) = x ∷ take n xs

  abbrev pub drop : ℕ → List A → List A
  drop zero xs = xs
  drop (suc n) [] = []
  drop (suc n) (x ∷ xs) = drop n xs

  -- The list with the member at an index left out.
  abbrev pub remove_at : List A → ℕ → List A
  remove_at [] i = []
  remove_at (x ∷ xs) zero = xs
  remove_at (x ∷ xs) (suc i) = x ∷ remove_at xs i

  pub take-append_at : (xs ys : List A) (i : ℕ) → i ≡ length xs → take i (xs ++ ys) ≡ xs
  take-append_at [] ys zero h = refl
  take-append_at [] ys (suc i) h = absurd (omega arith)
  take-append_at (x ∷ xs) ys zero h = absurd (omega arith)
  take-append_at (x ∷ xs) ys (suc i) h = ap (◌∷◌ x) (take-append_at xs ys i (omega arith))

  pub take-append_left : (xs ys : List A) (i : ℕ) → i ≤ length xs → take i (xs ++ ys) ≡ take i xs
  take-append_left xs ys zero h = refl
  take-append_left [] ys (suc i) h = absurd (omega arith)
  take-append_left (x ∷ xs) ys (suc i) h = ap (◌∷◌ x) (take-append_left xs ys i (omega arith))

  pub take-append_past :
      (xs : List A) (x : A) (ys : List A) (i : ℕ)
      → length xs < i
      → take i (xs ++ x ∷ ys) ≡ xs ++ x ∷ take (i - length xs - 1) ys
  take-append_past xs x ys zero h = absurd (omega arith)
  take-append_past [] x ys (suc i) h = ap (λ n. x ∷ take n ys) (omega arith)
  take-append_past (y ∷ xs) x ys (suc i) h =
      ap (◌∷◌ y)
        (take-append_past xs x ys i (omega arith) ∙ ap (λ n. xs ++ x ∷ take n ys) (omega arith))

  pub drop-append_at : (xs ys : List A) (i : ℕ) → i ≡ length xs → drop i (xs ++ ys) ≡ ys
  drop-append_at [] ys zero h = refl
  drop-append_at [] ys (suc i) h = absurd (omega arith)
  drop-append_at (x ∷ xs) ys zero h = absurd (omega arith)
  drop-append_at (x ∷ xs) ys (suc i) h = drop-append_at xs ys i (omega arith)

  pub drop-append_left :
      (xs ys : List A) (i : ℕ) → i ≤ length xs → drop i (xs ++ ys) ≡ drop i xs ++ ys
  drop-append_left xs ys zero h = refl
  drop-append_left [] ys (suc i) h = absurd (omega arith)
  drop-append_left (x ∷ xs) ys (suc i) h = drop-append_left xs ys i (omega arith)

  pub drop-append_past :
      (xs : List A) (x : A) (ys : List A) (i : ℕ)
      → length xs < i
      → drop i (xs ++ x ∷ ys) ≡ drop (i - length xs - 1) ys
  drop-append_past xs x ys zero h = absurd (omega arith)
  drop-append_past [] x ys (suc i) h = ap (λ n. drop n ys) (omega arith)
  drop-append_past (y ∷ xs) x ys (suc i) h =
      drop-append_past xs x ys i (omega arith) ∙ ap (λ n. drop n ys) (omega arith)

  pub remove_at-append_at :
      (xs : List A) (x : A) (ys : List A) (i : ℕ)
      → length xs ≡ i
      → remove_at (xs ++ x ∷ ys) i ≡ xs ++ ys
  remove_at-append_at [] x ys zero h = refl
  remove_at-append_at [] x ys (suc i) h = absurd (omega arith)
  remove_at-append_at (y ∷ xs) x ys zero h = absurd (omega arith)
  remove_at-append_at (y ∷ xs) x ys (suc i) h =
      ap (◌∷◌ y) (remove_at-append_at xs x ys i (omega arith))

  pub remove_at-append_left :
      (xs ys : List A) (i : ℕ) → i < length xs → remove_at (xs ++ ys) i ≡ remove_at xs i ++ ys
  remove_at-append_left [] ys i h = absurd (omega arith)
  remove_at-append_left (x ∷ xs) ys zero h = refl
  remove_at-append_left (x ∷ xs) ys (suc i) h =
      ap (◌∷◌ x) (remove_at-append_left xs ys i (omega arith))

  pub remove_at-append_past :
      (xs : List A) (x : A) (ys : List A) (i : ℕ)
      → length xs < i
      → remove_at (xs ++ x ∷ ys) i ≡ xs ++ x ∷ remove_at ys (i - length xs - 1)
  remove_at-append_past [] x ys zero h = absurd (omega arith)
  remove_at-append_past [] x ys (suc i) h = ap (λ n. x ∷ remove_at ys n) (omega arith)
  remove_at-append_past (y ∷ xs) x ys zero h = absurd (omega arith)
  remove_at-append_past (y ∷ xs) x ys (suc i) h = ap (◌∷◌ y) (
      remove_at-append_past xs x ys i (omega arith)
      ∙ ap (λ n. xs ++ x ∷ remove_at ys n) (omega arith))
