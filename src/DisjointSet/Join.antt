-- ===== src/DisjointSet/Join.antt =====
-- `attach`, the end of `union_sets` in include/unionfind.hpp: what linking two roots makes of the
-- partition.
use de_si_gnar.Prelude.{
  in_range, get_in_range, ℕ, ◌<◌, ◌≤◌, ◌+◌, ◌==◌, ==_iff, ==_ne, ltb, ltb→lt, ltb_false→le, ◌≡◌,
  ◌∙◌, refl, sym, subst, Bool, Bool-cases, true, false, Option, some, ◌⊎◌, ◌↔◌, inl, inr, get_elem?,
  length, arith, if◌then◌else◌,
}
use de_si_gnar.Prelude.Updates.{set, length-set}
use de_si_gnar.DisjointSet.{DisjointSet, attach, link}
use de_si_gnar.DisjointSet.Forest.{IsRoot, IsRoot-unique, rank_of, rank_of-get}
use de_si_gnar.DisjointSet.Halving.{eq_or_not, differ}
use de_si_gnar.DisjointSet.Link.{IsRoot-linked, IsForest-linked, rank_of-set, rank_of-set_other}
use de_si_gnar.DisjointSet.Laws.{IsValid, Together, rooted, rooted_range}

module _ {ℓ} {K : Type ℓ} where
  -- The partition once the roots `ra` and `rb` are joined.
  abbrev pub Joined : DisjointSet K → ℕ → ℕ → ℕ → ℕ → Type 0
  Joined s ra rb x y =
      Together s x y
      ⊎ (IsRoot s.parent x ra × IsRoot s.parent y rb)
      ⊎ (IsRoot s.parent x rb × IsRoot s.parent y ra)

  module _ (s : DisjointSet K) (v : IsValid s) (ra rb rank_a rank_b : ℕ)
      (at_a : get_elem? s.parent ra ≡ some ra) (at_b : get_elem? s.parent rb ≡ some rb)
      (n : ¬ (ra ≡ rb)) (has_a : get_elem? s.rnk ra ≡ some rank_a)
      (has_b : get_elem? s.rnk rb ≡ some rank_b) (order : rank_b ≤ rank_a) where
    raise_up : (j : ℕ) → rank_of s.rnk j ≤ rank_of (attach s ra rb rank_a rank_b).rnk j
    unfolding attach
    raise_up j = elim (Bool-cases (rank_a == rank_b)) [
      | inr e ↦ rw e (omega arith)
      | inl e ↦ elim (eq_or_not j ra) [
        | inl q ↦
            rw (e, q)
              (omega (
                arith,
                rank_of-set s.rnk ra rank_a (rank_a + 1) has_a,
                rank_of-get s.rnk ra rank_a has_a,
              ))
        | inr m ↦ rw e (omega (arith, rank_of-set_other s.rnk ra j (rank_a + 1) m))
      ]
    ]

    raise_same :
        (j : ℕ) → ¬ (j ≡ ra) → rank_of (attach s ra rb rank_a rank_b).rnk j ≡ rank_of s.rnk j
    unfolding attach
    raise_same j m = elim (Bool-cases (rank_a == rank_b)) [
      | inl e ↦ rw e (rank_of-set_other s.rnk ra j (rank_a + 1) m)
      | inr e ↦ rw e refl
    ]

    raise_over : rank_of s.rnk rb < rank_of (attach s ra rb rank_a rank_b).rnk ra
    unfolding attach
    raise_over =
        let low_a = rank_of-get s.rnk ra rank_a has_a in
        let low_b = rank_of-get s.rnk rb rank_b has_b in
        elim (Bool-cases (rank_a == rank_b)) [
          | inl e ↦
              let same : rank_a ≡ rank_b = (==_iff rank_a rank_b).0 e in
              rw e (omega (arith, same, low_b, rank_of-set s.rnk ra rank_a (rank_a + 1) has_a))
          | inr e ↦
              let apart : ¬ (rank_a ≡ rank_b) = ==_ne rank_a rank_b e in
              rw e (omega (arith, low_a, low_b, order, apart))
        ]

    same_length :
        (b : Bool) → length (if b then set s.rnk ra (rank_a + 1) else s.rnk) ≡ length s.rnk
    same_length true = length-set s.rnk ra (rank_a + 1)
    same_length false = refl

    pub attach-IsValid : IsValid (attach s ra rb rank_a rank_b)
    unfolding attach
    attach-IsValid = record {
      forest =
          IsForest-linked s.parent ra rb at_a at_b n (rank_of s.rnk)
            (rank_of (attach s ra rb rank_a rank_b).rnk) v.forest raise_up raise_same raise_over;
      ranks = same_length (rank_a == rank_b) ∙ v.ranks ∙ sym (length-set s.parent rb ra);
      names = v.names ∙ sym (length-set s.parent rb ra);
      indices = v.indices;
    }

    moved : (r : ℕ) → r ≡ rb → (if r == rb then ra else r) ≡ ra
    moved r e = rw ((==_iff r rb).1 e) refl

    stays : (r : ℕ) → ¬ (r ≡ rb) → (if r == rb then ra else r) ≡ r
    stays r m = rw (differ r rb m) refl

    linked :
        (x r : ℕ) → IsRoot s.parent x r → IsRoot (set s.parent rb ra) x (if r == rb then ra else r)
    linked = IsRoot-linked s.parent ra rb at_a at_b n

    -- Two roots that fall together.
    decide :
        (x y rx ry : ℕ)
        → IsRoot s.parent x rx
        → IsRoot s.parent y ry
        → (if rx == rb then ra else rx) ≡ (if ry == rb then ra else ry)
        → Joined s ra rb x y
    decide x y rx ry gx gy e = elim (eq_or_not rx rb) [
      | inl bx ↦ elim (eq_or_not ry rb) [
        | inl by ↦ inl (rb, subst (IsRoot s.parent x) bx gx, subst (IsRoot s.parent y) by gy)
        | inr oy ↦
            let to_a = sym e ∙ moved rx bx in
            inr (
              inr (
                subst (IsRoot s.parent x) bx gx,
                subst (IsRoot s.parent y) (sym (stays ry oy) ∙ to_a) gy,
              ))
      ]
      | inr ox ↦ elim (eq_or_not ry rb) [
        | inl by ↦ inr (
            inl (
              subst (IsRoot s.parent x) (sym (stays rx ox) ∙ e ∙ moved ry by) gx,
              subst (IsRoot s.parent y) by gy,
            ))
        | inr oy ↦ inl (ry, subst (IsRoot s.parent x) (sym (stays rx ox) ∙ e ∙ stays ry oy) gx, gy)
      ]
    ]

    -- Linking joins two sets, and changes no other.
    pub attach-Joined : (x y : ℕ) → Together (attach s ra rb rank_a rank_b) x y ↔ Joined s ra rb x y
    unfolding attach
    attach-Joined x y = (forth, back)
      where
        forth : Together (attach s ra rb rank_a rank_b) x y → Joined s ra rb x y
        forth (r, px, py) =
            let size = length-set s.parent rb ra in
            let below_x = rooted_range (set s.parent rb ra) x r px in
            let below_y = rooted_range (set s.parent rb ra) y r py in
            let (rx, gx) = rooted s x v (subst (λ m. x < m) size below_x) in
            let (ry, gy) = rooted s y v (subst (λ m. y < m) size below_y) in
            decide x y rx ry gx gy (
              IsRoot-unique (set s.parent rb ra) x _ r (linked x rx gx) px
              ∙ IsRoot-unique (set s.parent rb ra) y r _ py (linked y ry gy))

        back : Joined s ra rb x y → Together (attach s ra rb rank_a rank_b) x y
        back (inl (r, gx, gy)) = ((if r == rb then ra else r), linked x r gx, linked y r gy)
        back (inr (inl (gx, gy))) = (
          ra,
          subst (IsRoot (set s.parent rb ra) x) (stays ra n) (linked x ra gx),
          subst (IsRoot (set s.parent rb ra) y) (moved rb refl) (linked y rb gy),
        )
        back (inr (inr (gx, gy))) = (
          ra,
          subst (IsRoot (set s.parent rb ra) x) (moved rb refl) (linked x rb gx),
          subst (IsRoot (set s.parent rb ra) y) (stays ra n) (linked y ra gy),
        )

  -- What joining the sets of two roots promises.
  pub record IsLinked (s : DisjointSet K) (ra rb : ℕ) (res : Option (DisjointSet K)) : Type ℓ where
    pub after : DisjointSet K
    pub result : res ≡ some after
    pub valid : IsValid after
    pub same_keys : after.index_of ≡ s.index_of
    pub joined : (x y : ℕ) → Together after x y ↔ Joined s ra rb x y

  swapped : (s : DisjointSet K) (ra rb x y : ℕ) → Joined s ra rb x y → Joined s rb ra x y
  swapped s ra rb x y (inl g) = inl g
  swapped s ra rb x y (inr (inl g)) = inr (inr g)
  swapped s ra rb x y (inr (inr g)) = inr (inl g)

  pub link-IsLinked :
      (s : DisjointSet K) (ra rb : ℕ)
      → IsValid s
      → get_elem? s.parent ra ≡ some ra
      → get_elem? s.parent rb ≡ some rb
      → ¬ (ra ≡ rb)
      → IsLinked s ra rb (link s ra rb)
  unfolding link
  link-IsLinked s ra rb v at_a at_b n =
      let range = subst (λ m. ra < m) (sym v.ranks) (in_range s.parent ra ra at_a) in
      let range' = subst (λ m. rb < m) (sym v.ranks) (in_range s.parent rb rb at_b) in
      let (rank_a, has_a) = get_in_range s.rnk ra range in
      let (rank_b, has_b) = get_in_range s.rnk rb range' in
      elim (Bool-cases (ltb rank_a rank_b)) [
        | inl low ↦
            let order : rank_a ≤ rank_b = omega (arith, ltb→lt rank_a rank_b low) in
            let m : ¬ (rb ≡ ra) = λ e. n (sym e) in
            record {
              after = attach s rb ra rank_b rank_a;
              result = rw (has_a, has_b, low) refl;
              valid = attach-IsValid s v rb ra rank_b rank_a at_b at_a m has_b has_a order;
              same_keys = unfold attach in refl;
              joined = λ x y.
                  let j = attach-Joined s v rb ra rank_b rank_a at_b at_a m has_b has_a order x y in
                  (λ g. swapped s rb ra x y (j.0 g), λ g. j.1 (swapped s ra rb x y g));
            }
        | inr high ↦
            let order = ltb_false→le rank_a rank_b high in
            record {
              after = attach s ra rb rank_a rank_b;
              result = rw (has_a, has_b, high) refl;
              valid = attach-IsValid s v ra rb rank_a rank_b at_a at_b n has_a has_b order;
              same_keys = unfold attach in refl;
              joined = attach-Joined s v ra rb rank_a rank_b at_a at_b n has_a has_b order;
            }
      ]
