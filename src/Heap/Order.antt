-- ===== src/Heap/Order.antt =====
-- The heap order: no child is less than its parent. `ok` names the elements on which `less` is a
-- linear order; for float64 keys, those that are not NaN.
use riemann_go.Base.{
  ℕ, ◌+◌, ◌*◌, ◌≤◌, ◌<◌, ◌≡◌, ◌≢◌, ◌⊎◌, Bool, true, false, ◌&&◌, List, arith, ltb, ◌==◌, length,
  get_or, Bool-cases, inl, inr, lt→ltb,
}
use riemann_go.Heap.{parent, swap, less_at, child}
use riemann_go.Heap.Items.{length-swap, get_or-swap}

pub record IsOrder {ℓ} {A : Type ℓ} (less : A → A → Bool) (ok : A → Type 0) : Type ℓ where
  pub irrefl : (x : A) → less x x ≡ false
  pub asym : (x y : A) → less x y ≡ true → less y x ≡ false
  pub trans : (x y z : A) → ok y → less y x ≡ false → less z y ≡ false → less z x ≡ false

and_right : (a b : Bool) → (a && b) ≡ true → b ≡ true
and_right a b h = ground arith

and_second : (a b : Bool) → (a && b) ≡ false → a ≡ true → b ≡ false
and_second a b h e = ground arith

module _ {ℓ} {A : Type ℓ} (less : A → A → Bool) (d : A) (ok : A → Type 0) where
  -- The first `n` elements are in heap order.
  abbrev pub IsHeap : List A → ℕ → Type 0
  IsHeap a n = (c : ℕ) → 0 < c → c < n → less_at less d a c (parent c) ≡ false

  abbrev pub AllOk : List A → ℕ → Type 0
  AllOk a n = (i : ℕ) → i < n → ok (get_or a i d)

  -- Only the edge above `j` may be out of order, and those around `j` are in order without it.
  pub record UpInv (a : List A) (j : ℕ) : Type 0 where
    pub inside : j < length a
    pub oks : AllOk a (length a)
    pub edges : (c : ℕ) → 0 < c → c < length a → c ≢ j → less_at less d a c (parent c) ≡ false
    pub bridged :
        (c : ℕ)
        → 0 < c
        → c < length a
        → parent c ≡ j
        → 0 < j
        → less_at less d a c (parent j) ≡ false

  -- Only the edges below `i` may be out of order.
  pub record DownInv (a : List A) (i n : ℕ) : Type 0 where
    pub size : n ≤ length a
    pub oks : AllOk a n
    pub edges : (c : ℕ) → 0 < c → c < n → parent c ≢ i → less_at less d a c (parent c) ≡ false
    pub bridged :
        (c : ℕ) → 0 < c → c < n → parent c ≡ i → 0 < i → less_at less d a c (parent i) ≡ false

  pub AllOk-swap :
      (a : List A) (i j n : ℕ) → i < n → j < n → n ≤ length a → AllOk a n → AllOk (swap d a i j) n
  AllOk-swap a i j n hi hj hn oks c hc =
      let at = get_or-swap d a i j (omega arith) (omega arith) c in
      elim (Bool-cases (j == c)) [
        | inl e ↦ rw (at, e) (oks i hi)
        | inr e ↦ elim (Bool-cases (i == c)) [
          | inl f ↦ rw (at, e, f) (oks j hj)
          | inr f ↦ rw (at, e, f) (oks c hc)
        ]
      ]

  module _ (o : IsOrder less ok) where
    up-edge :
        (a : List A) (j c : ℕ)
        → UpInv a j
        → (parent j == j) ≡ false
        → less_at less d a j (parent j) ≡ true
        → 0 < c
        → c < length a
        → c ≢ parent j
        → less_at less d (swap d a (parent j) j) c (parent c) ≡ false
    up-edge a j c v moved below pos hc off =
        let p : parent j < length a = omega (arith, v.inside) in
        let at = get_or-swap d a (parent j) j p v.inside in
        let jpos : 0 < j = ground arith in
        ground (
          arith,
          at c,
          at (parent c),
          v.edges c,
          v.bridged c,
          o.asym (get_or a j d) (get_or a (parent j) d),
          o.trans (get_or a j d) (get_or a (parent j) d) (get_or a c d) (v.oks (parent j) p),
        )

    up-bridge :
        (a : List A) (j c : ℕ)
        → UpInv a j
        → (parent j == j) ≡ false
        → less_at less d a j (parent j) ≡ true
        → 0 < c
        → c < length a
        → parent c ≡ parent j
        → 0 < parent j
        → less_at less d (swap d a (parent j) j) c (parent (parent j)) ≡ false
    up-bridge a j c v moved below pos hc e gpos =
        let p : parent j < length a = omega (arith, v.inside) in
        let at = get_or-swap d a (parent j) j p v.inside in
        let jpos : 0 < j = ground arith in
        ground (
          arith,
          at c,
          at (parent (parent j)),
          v.edges c,
          v.edges (parent j),
          o.trans (get_or a (parent (parent j)) d) (get_or a (parent j) d) (get_or a c d)
              (v.oks (parent j) p),
        )

    pub up-UpInv :
        (a : List A) (j : ℕ)
        → UpInv a j
        → (parent j == j) ≡ false
        → less_at less d a j (parent j) ≡ true
        → UpInv (swap d a (parent j) j) (parent j)
    up-UpInv a j v moved below =
        let p : parent j < length a = omega (arith, v.inside) in
        let size = length-swap d a (parent j) j in
        record {
          inside = omega arith;
          oks = λ i hi.
              AllOk-swap a (parent j) j (length a) p v.inside (omega arith) v.oks i (omega arith);
          edges = λ c pos hc off. up-edge a j c v moved below pos (omega arith) off;
          bridged = λ c pos hc e gpos. up-bridge a j c v moved below pos (omega arith) e gpos;
        }

    -- The child that down picks is not greater than the other child.
    pub child-least :
        (a : List A) (i n c : ℕ)
        → 2 * i + 1 < n
        → 0 < c
        → c < n
        → parent c ≡ i
        → less_at less d a c (child less d a i n) ≡ false
    child-least a i n c h pos hc e =
        elim (Bool-cases (ltb (2 * i + 2) n && less_at less d a (2 * i + 2) (2 * i + 1))) [
          | inl t ↦ rw t (two c t (omega arith))
          | inr t ↦ rw t (one c t hc (omega arith))
        ]
      where
        two :
            (k : ℕ)
            → (ltb (2 * i + 2) n && less_at less d a (2 * i + 2) (2 * i + 1)) ≡ true
            → (k ≡ 2 * i + 1) ⊎ (k ≡ 2 * i + 2)
            → less_at less d a k (2 * i + 2) ≡ false
        two k t (inl q) = rw q (o.asym _ _ (and_right _ _ t))
        two k t (inr q) = rw q (o.irrefl _)

        one :
            (k : ℕ)
            → (ltb (2 * i + 2) n && less_at less d a (2 * i + 2) (2 * i + 1)) ≡ false
            → k < n
            → (k ≡ 2 * i + 1) ⊎ (k ≡ 2 * i + 2)
            → less_at less d a k (2 * i + 1) ≡ false
        one k t hk (inl q) = rw q (o.irrefl _)
        one k t hk (inr q) = rw q (and_second _ _ t (lt→ltb (2 * i + 2) n (omega arith)))

    pub down-edge :
        (a : List A) (i n m c : ℕ)
        → DownInv a i n
        → i < n
        → i < m
        → m < n
        → parent m ≡ i
        → ((k : ℕ) → 0 < k → k < n → parent k ≡ i → less_at less d a k m ≡ false)
        → less_at less d a m i ≡ true
        → 0 < c
        → c < n
        → parent c ≢ m
        → less_at less d (swap d a i m) c (parent c) ≡ false
    down-edge a i n m c v hi him hm hp least below pos hc off =
        let at = get_or-swap d a i m (omega (arith, v.size)) (omega (arith, v.size)) in
        ground (
          arith,
          at c,
          at (parent c),
          v.edges c,
          v.bridged c,
          v.bridged m,
          least c,
          o.asym (get_or a m d) (get_or a i d),
        )

    pub down-bridge :
        (a : List A) (i n m c : ℕ)
        → DownInv a i n
        → i < n
        → i < m
        → m < n
        → parent m ≡ i
        → 0 < c
        → c < n
        → parent c ≡ m
        → less_at less d (swap d a i m) c (parent m) ≡ false
    down-bridge a i n m c v hi him hm hp pos hc e =
        let at = get_or-swap d a i m (omega (arith, v.size)) (omega (arith, v.size)) in
        ground (arith, at c, at (parent m), v.edges c)
