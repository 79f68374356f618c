-- ===== src/Heap.antt =====
-- The binary heap of Go's container/heap, as engine/timers.go and index/index.go use it: Push and Pop
-- over a slice, with the order `less` of the client. `d` is the zero value of the slice's type; it is
-- read only at an index out of range, which does not occur.
pub mod Items
pub mod Order
pub mod Sift
pub mod Queue
use riemann_go.Base.{
  ℕ, zero, suc, ◌+◌, ◌-◌, ◌*◌, ◌/◌, Bool, ◌&&◌, ◌||◌, not, List, [], ◌∷◌, ◌++◌, ltb, leb, ◌==◌,
  if◌then◌else◌, length, get_or, set, take,
}

abbrev pub parent : ℕ → ℕ
parent j = (j - 1) / 2

module _ {ℓ} {A : Type ℓ} (d : A) where
  unfoldable pub swap : List A → ℕ → ℕ → List A
  swap a i j = set (set a i (get_or a j d)) j (get_or a i d)

module _ {ℓ} {A : Type ℓ} (less : A → A → Bool) (d : A) where
  abbrev pub less_at : List A → ℕ → ℕ → Bool
  less_at a i j = less (get_or a i d) (get_or a j d)

  unfoldable pub up : ℕ → List A → ℕ → List A
  up zero a j = a
  up (suc fuel) a j =
      let rest = up fuel (swap d a (parent j) j) (parent j) in
      if parent j == j || not (less_at a j (parent j)) then a else rest

  -- The child of `i` that down compares with it.
  abbrev pub child : List A → ℕ → ℕ → ℕ
  child a i n =
      if ltb (2 * i + 2) n && less_at a (2 * i + 2) (2 * i + 1) then 2 * i + 2 else 2 * i + 1

  unfoldable pub down : ℕ → List A → ℕ → ℕ → List A
  down zero a i n = a
  down (suc fuel) a i n =
      let rest = down fuel (swap d a i (child a i n)) (child a i n) n in
      if leb n (2 * i + 1) || not (less_at a (child a i n) i) then a else rest

  -- An index falls to its parent's, and rises to a child's: these rounds are enough.
  unfoldable pub push : A → List A → List A
  unfolding up
  push x a = up (suc (length a)) (a ++ x ∷ []) (length a)

  -- Pop of a slice that is not empty: the element, which Swap has put last, and the rest.
  unfoldable pub pop : List A → A × List A
  unfolding swap down
  pop a =
      let n = length a - 1 in
      let sifted = down (suc n) (swap d a 0 n) 0 n in (get_or sifted n d, take n sifted)
