-- ===== src/Heap/Queue.antt =====
-- Push and Pop on a heap in order.
use riemann_go.Base.{
  ℕ, zero, suc, ◌+◌, ◌*◌, ◌≤◌, ◌<◌, ◌≡◌, refl, sym, ◌∙◌, subst, Bool, false, ◌||◌, not, List, [],
  ◌∷◌, ◌++◌, arith, leb, ◌==◌, length, length-append, get_or, take, Bool-cases, inl, inr, ==_refl,
}
use riemann_go.Heap.{parent, swap, less_at, child, down, push, pop}
use riemann_go.Heap.Items.{
  length-swap, get_or-swap, down-step, child-lt, below, push-items, pop-items, last,
}
use riemann_go.Heap.Order.{IsOrder, UpInv, DownInv, AllOk-swap}
use riemann_go.Heap.Sift.{Ordered, up-Ordered, down-Ordered}

module _ {ℓ} {A : Type ℓ} (d : A) where
  get_or-append : (a b : List A) (i : ℕ) → i < length a → get_or (a ++ b) i d ≡ get_or a i d
  get_or-append [] b i h = absurd (omega arith)
  get_or-append (x ∷ a) b zero h = refl
  get_or-append (x ∷ a) b (suc i) h = get_or-append a b i (omega arith)

  get_or-append_end : (a : List A) (x : A) → get_or (a ++ x ∷ []) (length a) d ≡ x
  get_or-append_end [] x = refl
  get_or-append_end (y ∷ a) x = get_or-append_end a x

  pub get_or-take : (n : ℕ) (a : List A) (i : ℕ) → i < n → get_or (take n a) i d ≡ get_or a i d
  get_or-take zero a i h = absurd (omega arith)
  get_or-take (suc n) [] i h = refl
  get_or-take (suc n) (x ∷ a) zero h = refl
  get_or-take (suc n) (x ∷ a) (suc i) h = get_or-take n a i (omega arith)

module _ {ℓ} {A : Type ℓ} (less : A → A → Bool) (d : A) (ok : A → Type 0)
    (o : IsOrder less ok) where
  -- A heap: a slice in heap order.
  abbrev pub Heaped : List A → Type 0
  Heaped a = Ordered less d ok o a (length a)

  pub nil-Heaped : Heaped []
  nil-Heaped = record { order = λ c p h. absurd (omega arith); oks = λ i h. absurd (omega arith) }

  push-UpInv : (x : A) (a : List A) → Heaped a → ok x → UpInv less d ok (a ++ x ∷ []) (length a)
  push-UpInv x a v okx =
      let size : length (a ++ x ∷ []) ≡ length a + 1 = length-append a (x ∷ []) in
      record {
        inside = omega arith;
        oks = λ i hi. elim (Bool-cases (i == length a)) [
          | inl e ↦ let q : i ≡ length a = ground arith in rw (q, get_or-append_end d a x) okx
          | inr e ↦
              let small : i < length a = ground arith in
              rw (get_or-append d a (x ∷ []) i small) (v.oks i small)
        ];
        edges = λ c pos hc off.
            let small : c < length a = omega arith in
            rw
              (
                get_or-append d a (x ∷ []) c small,
                get_or-append d a (x ∷ []) (parent c) (omega arith),
              )
              (v.order c pos small);
        bridged = λ c pos hc e jpos. absurd (omega arith);
      }

  -- A push of an element that `less` orders keeps a heap a heap.
  pub push-Heaped : (x : A) (a : List A) → Heaped a → ok x → Heaped (push less d x a)
  push-Heaped x a v okx =
      let size = (push-items less d x a).0 in
      subst (Ordered less d ok o (push less d x a)) (length-append a (x ∷ []) ∙ sym size) (
        unfold push in
        up-Ordered less d ok o (suc (length a)) (a ++ x ∷ []) (length a) (omega arith)
          (push-UpInv x a v okx))

  -- The loop of down leaves what lies past its range.
  down-keeps :
      (fuel : ℕ) (a : List A) (i n k : ℕ)
      → n ≤ length a
      → n ≤ k
      → get_or (down less d fuel a i n) k d ≡ get_or a k d
  down-keeps zero a i n k hn hk = unfold down in refl
  down-keeps (suc fuel) a i n k hn hk =
      elim (Bool-cases (leb n (2 * i + 1) || not (less_at less d a (child less d a i n) i))) [
        | inl e ↦ rw (down-step, e)
        | inr e ↦
            let more : 2 * i + 1 < n = below n (2 * i + 1) _ e in
            let m = child less d a i n in
            let c = child-lt less d a i n more in
            rw (down-step, e)
              (down-keeps fuel (swap d a i m) m n k (omega (arith, length-swap d a i m)) hk
                ∙ outside a i m k (omega arith) (omega arith) (omega arith) (omega arith))
      ]
    where
      outside :
          (a : List A) (i m k : ℕ)
          → i < length a
          → m < length a
          → i < k
          → m < k
          → get_or (swap d a i m) k d ≡ get_or a k d
      outside a i m k hi hm hik hmk =
          let e : (m == k) ≡ false = ground arith in
          let f : (i == k) ≡ false = ground arith in get_or-swap d a i m hi hm k ∙ rw (e, f)

  -- No element of a heap is less than its root.
  root_least :
      (fuel : ℕ) (a : List A) (i : ℕ)
      → Heaped a
      → i < fuel
      → i < length a
      → less_at less d a i 0 ≡ false
  root_least zero a i v f h = absurd (omega arith)
  root_least (suc fuel) a zero v f h = o.irrefl (get_or a 0 d)
  root_least (suc fuel) a (suc i) v f h =
      o.trans (get_or a 0 d) (get_or a (parent (suc i)) d) (get_or a (suc i) d)
        (v.oks (parent (suc i)) (omega arith))
        (root_least fuel a (parent (suc i)) v (omega arith) (omega arith))
        (v.order (suc i) (omega arith) h)

  module _ (a : List A) (v : Heaped a) (h : 0 < length a) where
    pop-DownInv : DownInv less d ok (swap d a 0 (last a)) 0 (last a)
    pop-DownInv =
        let n = last a in
        let at = get_or-swap d a 0 n h (omega arith) in
        record {
          size = omega (arith, length-swap d a 0 n);
          oks = λ i hi.
              AllOk-swap less d ok a 0 n (length a) h (omega arith) (omega arith) v.oks i
                (omega arith);
          edges = λ c pos hc off. ground (arith, at c, at (parent c), v.order c);
          bridged = λ c pos hc e root. absurd (omega arith);
        }

    after :
        Ordered less d ok o (down less d (suc (last a)) (swap d a 0 (last a)) 0 (last a)) (last a)
    after =
        down-Ordered less d ok o (suc (last a)) (swap d a 0 (last a)) 0 (last a) (omega arith)
          pop-DownInv

    -- What is left after a pop is a heap.
    pub pop-Heaped : Heaped (pop less d a).1
    unfolding pop
    pop-Heaped =
        let done = down less d (suc (last a)) (swap d a 0 (last a)) 0 (last a) in
        let size = (pop-items less d a h).0 in
        record {
          order = λ c pos hc. rw (get_or-take d (last a) done c (omega arith)) (
              rw (get_or-take d (last a) done (parent c) (omega arith))
                (after.order c pos (omega arith)));
          oks =
              λ i hi. rw (get_or-take d (last a) done i (omega arith)) (after.oks i (omega arith));
        }

    -- Pop returns the root of the heap,
    pub pop-root : (pop less d a).0 ≡ get_or a 0 d
    unfolding pop
    pop-root =
        let n = last a in
        down-keeps (suc n) (swap d a 0 n) 0 n n (omega (arith, length-swap d a 0 n)) (omega arith)
        ∙ get_or-swap d a 0 n h (omega arith) n
        ∙ rw (==_refl n)

    -- and no element of the heap is less than it.
    pub pop-least : (i : ℕ) → i < length a → less (get_or a i d) (pop less d a).0 ≡ false
    pop-least i hi = rw pop-root (root_least (suc i) a i v (omega arith) hi)
