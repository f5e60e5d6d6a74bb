-- ===== src/RbTree/Insert.antt =====
-- The red-black invariant at the insertions of include/rbtree.hpp.
use de_si_gnar.Prelude.{
  ℕ, zero, suc, ◌≡◌, refl, ap, false, ◌&&◌, Option, none, some, Bool-cases, inl, inr,
}
use de_si_gnar.Compare.{Compare}
use de_si_gnar.Nodes.{null, node, left}
use de_si_gnar.RbTree.{
  RbColor, red, black, RbNode, is_red, balance, rebuilt, insert, insert_dup, search_or_insert,
}
use de_si_gnar.RbTree.Shape.{
  IsRb, IsLoose, IsRb-IsLoose, balance_same, balance_lean, balance_lift, balance_black,
}

module _ {ℓ} {K : Type ℓ} where
  -- What an insertion into `t` promises of its result `t'`: only under a red root may it leave two
  -- red nodes in a row.
  pub record IsGrown (t t' : RbNode K) (n : ℕ) : Type 0 where
    pub loose : IsLoose t' n
    pub strict : is_red t ≡ false → IsRb t' n

  same_IsGrown : (t : RbNode K) (n : ℕ) → IsRb t n → IsGrown t t n
  same_IsGrown t n h = record { loose = IsRb-IsLoose t n h; strict = λ _. h }

  pub IsGrown-strict : (t t' : RbNode K) (n : ℕ) → IsRb t' n → IsGrown t t' n
  IsGrown-strict t t' n h = record { loose = IsRb-IsLoose t' n h; strict = λ _. h }

  loose_black :
      (l : RbNode K) (x : K) (r : RbNode K) (n : ℕ)
      → IsLoose l n
      → is_red r ≡ false
      → IsRb r n
      → IsRb (balance (node black l x r)) (suc n)
  loose_black null x r n hl red_r hr = (balance_black null x r n hl hr).0
  loose_black (node black a y b) x r n hl red_r hr =
      (balance_black (node black a y b) x r n hl hr).0
  loose_black (node red null y b) x r n hl red_r hr =
      (balance_black (node red null y b) x r n (refl, hl.0, hl.1, hl.2) hr).0
  loose_black (node red (node black a z d) y b) x r n hl red_r hr =
      (balance_black (node red (node black a z d) y b) x r n (refl, hl.0, hl.1, hl.2) hr).0
  loose_black (node red (node red a z d) y b) x r n hl red_r hr =
      rw (balance_lift black x a z d y b r red_r)
        (refl, refl, (hl.1.1, hl.1.2, hl.1.3), (red_r, hl.2, hr))

  left_same : (l : RbNode K) (n : ℕ) → IsRb l n → (is_red l && is_red (left l)) ≡ false
  left_same null n h = refl
  left_same (node red a y b) n h = h.0
  left_same (node black a y b) n h = refl

  IsLoose-red :
      (l : RbNode K) (x : K) (r : RbNode K) (n : ℕ)
      → is_red l ≡ false
      → IsRb l n
      → IsRb r n
      → IsLoose (balance (node red l x r)) n
  IsLoose-red l x null n red_l hl hr =
      rw (balance_same red x l null refl (left_same l n hl)) (refl, hl, hr)
  IsLoose-red l x (node black a y b) n red_l hl hr =
      rw (balance_same red x l (node black a y b) refl (left_same l n hl)) (refl, hl, hr)
  IsLoose-red l x (node red a y b) n red_l hl hr =
      rw (balance_lean red x l a y b red_l hr.1) (hr.1, (red_l, hr.0, hl, hr.2), hr.3)

  pub IsGrown-left :
      (c : RbColor) (l l' : RbNode K) (x : K) (r : RbNode K) (n : ℕ)
      → IsRb (node c l x r) n
      → ((m : ℕ) → IsRb l m → IsGrown l l' m)
      → IsGrown (node c l x r) (balance (node c l' x r)) n
  IsGrown-left red l l' x r n h g =
      let hl = (g n h.2).strict h.0 in
      record {
        loose = rw (balance_same red x l' r h.1 (left_same l' n hl)) (h.1, hl, h.3);
        strict = λ e. cc;
      }
  IsGrown-left black l l' x r zero h g = cc
  IsGrown-left black l l' x r (suc n) h g =
      IsGrown-strict (node black l x r) _ (suc n) (loose_black l' x r n (g n h.1).loose h.0 h.2)

  pub IsGrown-right :
      (c : RbColor) (l : RbNode K) (x : K) (r r' : RbNode K) (n : ℕ)
      → IsRb (node c l x r) n
      → ((m : ℕ) → IsRb r m → IsGrown r r' m)
      → IsGrown (node c l x r) (balance (node c l x r')) n
  IsGrown-right red l x r r' n h g = record {
    loose = IsLoose-red l x r' n h.0 h.2 ((g n h.3).strict h.1);
    strict = λ e. cc;
  }
  IsGrown-right black l x r r' zero h g = cc
  IsGrown-right black l x r r' (suc n) h g =
      IsGrown-strict (node black l x r) _ (suc n)
        (balance_black l x r' n h.1 ((g n h.2).strict h.0)).0

module _ {ℓ} {K : Type ℓ} ⦃o : Compare K⦄ where
  rebuilt_unchanged :
      (f : RbNode K → RbNode K) (l : RbNode K) (below : RbNode K × Option K)
      → (below.1 ≡ none → below.0 ≡ l)
      → (rebuilt f below).1 ≡ none
      → (rebuilt f below).0 ≡ f l
  rebuilt_unchanged f l (t, none) same e = ap f (same refl)
  rebuilt_unchanged f l (t, some k) same e = cc

  -- To show something of a tree that `rebuilt` returns: show it of the old tree and of the balanced.
  rebuilt-elim :
      (P : RbNode K → Type 0) (f : RbNode K → RbNode K) (l : RbNode K) (below : RbNode K × Option K)
      → (below.1 ≡ none → below.0 ≡ l)
      → P (f l)
      → P (balance (f below.0))
      → P (rebuilt f below).0
  rebuilt-elim P f l (t, none) same old new = rw (same refl) old
  rebuilt-elim P f l (t, some k) same old new = new

  pub insert-none : (t : RbNode K) (k : K) → (insert t k).1 ≡ none → (insert t k).0 ≡ t
  unfolding insert
  insert-none null k = λ e. cc
  insert-none (node c l x r) k = elim (Bool-cases (o.cmp k x)) [
    | inl less ↦
        rw (less, insert) (rebuilt_unchanged (λ t. node c t x r) l (insert l k) (insert-none l k))
    | inr not_less ↦ elim (Bool-cases (o.cmp x k)) [
      | inl more ↦
          rw (not_less, more, insert)
            (rebuilt_unchanged (λ t. node c l x t) r (insert r k) (insert-none r k))
      | inr here ↦ rw (not_less, here, insert) (λ e. refl)
    ]
  ]

  pub insert-IsGrown : (t : RbNode K) (k : K) (n : ℕ) → IsRb t n → IsGrown t (insert t k).0 n
  unfolding insert
  insert-IsGrown null k n h = IsGrown-strict null (node red null k null) n (refl, refl, h, h)
  insert-IsGrown (node c l x r) k n h =
      let whole = node c l x r in
      elim (Bool-cases (o.cmp k x)) [
        | inl less ↦
            rw (less, insert)
              (rebuilt-elim (λ t. IsGrown whole t n) (λ t. node c t x r) l (insert l k)
                (insert-none l k) (same_IsGrown whole n h)
                (IsGrown-left c l _ x r n h (insert-IsGrown l k)))
        | inr not_less ↦ elim (Bool-cases (o.cmp x k)) [
          | inl more ↦
              rw (not_less, more, insert)
                (rebuilt-elim (λ t. IsGrown whole t n) (λ t. node c l x t) r (insert r k)
                  (insert-none r k) (same_IsGrown whole n h)
                  (IsGrown-right c l x r _ n h (insert-IsGrown r k)))
          | inr here ↦ rw (not_less, here, insert) (same_IsGrown whole n h)
        ]
      ]

  pub insert_dup-IsGrown : (t : RbNode K) (k : K) (n : ℕ) → IsRb t n → IsGrown t (insert_dup t k) n
  unfolding insert_dup
  insert_dup-IsGrown null k n h = IsGrown-strict null (node red null k null) n (refl, refl, h, h)
  insert_dup-IsGrown (node c l x r) k n h = elim (Bool-cases (o.cmp k x)) [
    | inl less ↦ rw (less, insert_dup) (IsGrown-left c l _ x r n h (insert_dup-IsGrown l k))
    | inr more ↦ rw (more, insert_dup) (IsGrown-right c l x r _ n h (insert_dup-IsGrown r k))
  ]

  pub search_or_insert-IsGrown :
      (t : RbNode K) (k : K) (n : ℕ) → IsRb t n → IsGrown t (search_or_insert t k).0 n
  unfolding search_or_insert
  search_or_insert-IsGrown null k n h =
      IsGrown-strict null (node red null k null) n (refl, refl, h, h)
  search_or_insert-IsGrown (node c l x r) k n h = elim (Bool-cases (o.cmp k x)) [
    | inl less ↦
        rw (less, search_or_insert) (IsGrown-left c l _ x r n h (search_or_insert-IsGrown l k))
    | inr not_less ↦ elim (Bool-cases (o.cmp x k)) [
      | inl more ↦
          rw (not_less, more, search_or_insert)
            (IsGrown-right c l x r _ n h (search_or_insert-IsGrown r k))
      | inr here ↦ rw (not_less, here, search_or_insert) (same_IsGrown (node c l x r) n h)
    ]
  ]
