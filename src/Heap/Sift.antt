-- ===== src/Heap/Sift.antt =====
-- The two loops and the heap order.
use riemann_go.Base.{
  ℕ, zero, suc, ◌+◌, ◌-◌, ◌*◌, ◌<◌, ◌≡◌, ◌⊎◌, Bool, true, false, ◌||◌, not, List, arith, leb, ◌==◌,
  length, get_or, Bool-cases, inl, inr,
}
use riemann_go.Heap.{parent, swap, less_at, up, child, down}
use riemann_go.Heap.Items.{length-swap, up-step, down-step, child-lt, below}
use riemann_go.Heap.Order.{
  IsOrder, IsHeap, AllOk, UpInv, DownInv, AllOk-swap, up-UpInv, child-least, down-edge, down-bridge,
}

-- A test `a || not b` that fails, and what it says when it holds.
or_not-false : (a b : Bool) → (a || not b) ≡ false → (a ≡ false) × (b ≡ true)
or_not-false a b h = ground arith

or_not-true : (a b : Bool) → (a || not b) ≡ true → (a ≡ true) ⊎ (b ≡ false)
or_not-true a b h = ground arith

module _ {ℓ} {A : Type ℓ} (less : A → A → Bool) (d : A) (ok : A → Type 0)
    (o : IsOrder less ok) where
  -- The first `n` elements of `a` are in order, and all of them are ordered by `less`.
  pub record Ordered (a : List A) (n : ℕ) : Type 0 where
    pub order : IsHeap less d ok a n
    pub oks : AllOk less d ok a n

  up-stop :
      (a : List A) (j : ℕ)
      → UpInv less d ok a j
      → (parent j == j || not (less_at less d a j (parent j))) ≡ true
      → Ordered a (length a)
  up-stop a j v e = record { order = λ c pos hc. go (or_not-true _ _ e) c pos hc; oks = v.oks }
    where
      go :
          ((parent j == j) ≡ true) ⊎ (less_at less d a j (parent j) ≡ false)
          → IsHeap less d ok a (length a)
      go (inl root) c pos hc = v.edges c pos hc (ground arith)
      go (inr fine) c pos hc = elim (Bool-cases (c == j)) [
        | inl t ↦ let q : c ≡ j = ground arith in rw q fine
        | inr t ↦ v.edges c pos hc (ground arith)
      ]

  pub up-Ordered :
      (fuel : ℕ) (a : List A) (j : ℕ)
      → j < fuel
      → UpInv less d ok a j
      → Ordered (up less d fuel a j) (length a)
  up-Ordered zero a j h v = absurd (omega arith)
  up-Ordered (suc fuel) a j h v =
      elim (Bool-cases (parent j == j || not (less_at less d a j (parent j)))) [
        | inl e ↦ rw (up-step, e) (up-stop a j v e)
        | inr e ↦
            let t = or_not-false _ _ e in
            rw (up-step, e)
              (rw (length-swap d a (parent j) j) at (
                up-Ordered fuel (swap d a (parent j) j) (parent j) (ground arith)
                  (up-UpInv less d ok o a j v t.0 t.1)))
      ]

  down-DownInv :
      (a : List A) (i n : ℕ)
      → DownInv less d ok a i n
      → 2 * i + 1 < n
      → less_at less d a (child less d a i n) i ≡ true
      → DownInv less d ok (swap d a i (child less d a i n)) (child less d a i n) n
  down-DownInv a i n v more under =
      let m = child less d a i n in
      let c = child-lt less d a i n more in
      let p : parent m ≡ i = child-parent a i n in
      let hi : i < n = omega arith in
      let size = v.size in
      record {
        size = omega (arith, length-swap d a i m);
        oks = AllOk-swap less d ok a i m n hi c.1 size v.oks;
        edges = λ k pos hk off.
            down-edge less d ok o a i n m k v hi c.0 c.1 p
              (λ k' q r s. child-least less d ok o a i n k' more q r s) under pos hk off;
        bridged = λ k pos hk e mpos. down-bridge less d ok o a i n m k v hi c.0 c.1 p pos hk e;
      }
    where
      child-parent : (a : List A) (i n : ℕ) → parent (child less d a i n) ≡ i
      child-parent a i n = ground arith

  down-stop :
      (a : List A) (i n : ℕ)
      → DownInv less d ok a i n
      → (leb n (2 * i + 1) || not (less_at less d a (child less d a i n) i)) ≡ true
      → Ordered a n
  down-stop a i n v e = record { order = λ c pos hc. go (or_not-true _ _ e) c pos hc; oks = v.oks }
    where
      go :
          (leb n (2 * i + 1) ≡ true) ⊎ (less_at less d a (child less d a i n) i ≡ false)
          → IsHeap less d ok a n
      go (inl leaf) c pos hc = v.edges c pos hc (ground arith)
      go (inr fine) c pos hc = elim (Bool-cases (parent c == i)) [
        | inl t ↦
            let q : parent c ≡ i = ground arith in
            let more : 2 * i + 1 < n = omega arith in
            let m = child less d a i n in
            rw q (
              o.trans (get_or a i d) (get_or a m d) (get_or a c d)
                (v.oks m (child-lt less d a i n more).1) fine
                (child-least less d ok o a i n c more pos hc q))
        | inr t ↦ v.edges c pos hc (ground arith)
      ]

  pub down-Ordered :
      (fuel : ℕ) (a : List A) (i n : ℕ)
      → n - i < fuel
      → DownInv less d ok a i n
      → Ordered (down less d fuel a i n) n
  down-Ordered zero a i n h v = absurd (omega arith)
  down-Ordered (suc fuel) a i n h v =
      elim (Bool-cases (leb n (2 * i + 1) || not (less_at less d a (child less d a i n) i))) [
        | inl e ↦ rw (down-step, e) (down-stop a i n v e)
        | inr e ↦
            let t = or_not-false _ _ e in
            let more : 2 * i + 1 < n = below n (2 * i + 1) _ e in
            let c = child-lt less d a i n more in
            rw (down-step, e)
              (down-Ordered fuel (swap d a i (child less d a i n)) (child less d a i n) n
                (omega (arith, c)) (down-DownInv a i n v more t.1))
      ]
