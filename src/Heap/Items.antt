-- ===== src/Heap/Items.antt =====
-- The elements of a heap before and after sifting, by how many of them have a property.
use riemann_go.Base.{
  ℕ, zero, suc, ◌+◌, ◌-◌, ◌*◌, ◌≤◌, ◌<◌, ◌≡◌, refl, ap, sym, ◌∙◌, Bool, true, false, ◌||◌, not,
  List, [], ◌∷◌, ◌++◌, arith, ltb, leb, ◌==◌, if◌then◌else◌, length, get_or, set, take, length-set,
  length-append, Bool-cases, inl, inr, get_or-set, ltb→lt, ◌&&◌, length-take_of_le,
}
use riemann_go.Heap.{parent, swap, less_at, up, child, down, push, pop}

abbrev pub one_if : Bool → ℕ
one_if true = 1
one_if false = 0

module _ {ℓ} {A : Type ℓ} where
  abbrev pub last : List A → ℕ
  last a = length a - 1

  abbrev pub count : (A → Bool) → List A → ℕ
  count p [] = 0
  count p (x ∷ xs) = one_if (p x) + count p xs

  pub count-append : (p : A → Bool) (xs ys : List A) → count p (xs ++ ys) ≡ count p xs + count p ys
  count-append p [] ys = omega arith
  count-append p (x ∷ xs) ys = omega (arith, count-append p xs ys)

  pub count-set :
      (p : A → Bool) (a : List A) (i : ℕ) (v d : A)
      → i < length a
      → count p (set a i v) + one_if (p (get_or a i d)) ≡ count p a + one_if (p v)
  count-set p [] i v d h = absurd (omega arith)
  count-set p (x ∷ a) zero v d h = omega arith
  count-set p (x ∷ a) (suc i) v d h = omega (arith, count-set p a i v d)

  pub count-split_last :
      (p : A → Bool) (a : List A) (n : ℕ) (d : A)
      → length a ≡ suc n
      → count p a ≡ count p (take n a) + one_if (p (get_or a n d))
  count-split_last p [] n d h = absurd (omega arith)
  count-split_last p (x ∷ []) zero d h = omega arith
  count-split_last p (x ∷ y ∷ a) zero d h = absurd (omega arith)
  count-split_last p (x ∷ a) (suc n) d h = omega (arith, count-split_last p a n d)

  -- An element that satisfies `p` is counted.
  pub count-pos :
      (p : A → Bool) (a : List A) (i : ℕ) (d : A)
      → i < length a
      → p (get_or a i d) ≡ true
      → 0 < count p a
  count-pos p [] i d h e = absurd (omega arith)
  count-pos p (x ∷ a) zero d h e = omega (arith, ap one_if e)
  count-pos p (x ∷ a) (suc i) d h e = omega (arith, count-pos p a i d)

  pub count-find :
      (p : A → Bool) (a : List A) (d : A)
      → 0 < count p a
      → (i : ℕ) × (i < length a) × (p (get_or a i d) ≡ true)
  count-find p [] d h = absurd (omega arith)
  count-find p (x ∷ a) d h = elim (Bool-cases (p x)) [
    | inl e ↦ (0, omega arith, e)
    | inr e ↦
        let found = count-find p a d (omega (arith, ap one_if e)) in
        (suc found.0, omega (arith, found.1), found.2)
  ]

module _ {ℓ} {A : Type ℓ} (d : A) where
  pub length-swap : (a : List A) (i j : ℕ) → length (swap d a i j) ≡ length a
  unfolding swap
  length-swap a i j = simp length-set

  module _ (a : List A) (i j : ℕ) (hi : i < length a) (hj : j < length a) where
    pub get_or-swap :
        (c : ℕ)
        → get_or (swap d a i j) c d
          ≡ (if j == c then get_or a i d else if i == c then get_or a j d else get_or a c d)
    unfolding swap
    get_or-swap c = rw (
      get_or-set (set a i (get_or a j d)) j c (get_or a i d) d (rw length-set hj),
      get_or-set a i c (get_or a j d) d hi,
    )

    pub count-swap : (p : A → Bool) → count p (swap d a i j) ≡ count p a
    unfolding swap
    count-swap p =
        let v = get_or a j d in
        let kept : get_or (set a i v) j d ≡ v = get_or-set a i j v d hi ∙ same_if (i == j) v in
        omega (
          arith,
          count-set p a i v d hi,
          count-set p (set a i v) j (get_or a i d) d (rw length-set hj),
          ap (λ x. one_if (p x)) kept,
        )
      where
        same_if : (b : Bool) (x : A) → (if b then x else x) ≡ x
        same_if true x = refl
        same_if false x = refl

and_left : (a b : Bool) → (a && b) ≡ true → a ≡ true
and_left a b h = ground arith

-- The loop of down goes on only where the left child lies in the slice.
pub below : (n c : ℕ) (b : Bool) → (leb n c || b) ≡ false → c < n
below n c b h = ground arith

module _ {ℓ} {A : Type ℓ} (less : A → A → Bool) (d : A) where
  pub child-lt :
      (a : List A) (i n : ℕ) → 2 * i + 1 < n → (i < child less d a i n) × (child less d a i n < n)
  child-lt a i n h =
      elim (Bool-cases (ltb (2 * i + 2) n && less_at less d a (2 * i + 2) (2 * i + 1))) [
        | inl e ↦ rw e (omega arith, ltb→lt _ _ (and_left _ _ e))
        | inr e ↦ rw e (omega arith, omega arith)
      ]

  pub up-step :
      (fuel : ℕ) (a : List A) (j : ℕ)
      → up less d (suc fuel) a j ≡ (
          if parent j == j || not (less_at less d a j (parent j))
          then a
          else up less d fuel (swap d a (parent j) j) (parent j))
  unfolding up
  up-step fuel a j = refl

  pub down-step :
      (fuel : ℕ) (a : List A) (i n : ℕ)
      → down less d (suc fuel) a i n ≡ (
          if leb n (2 * i + 1) || not (less_at less d a (child less d a i n) i)
          then a
          else down less d fuel (swap d a i (child less d a i n)) (child less d a i n) n)
  unfolding down
  down-step fuel a i n = refl

  pub record IsRearranged (a b : List A) : Type ℓ where
    pub same_length : length b ≡ length a
    pub same_count : (p : A → Bool) → count p b ≡ count p a

  pub IsRearranged-refl : (a : List A) → IsRearranged a a
  IsRearranged-refl a = record { same_length = refl; same_count = λ p. refl }

  pub IsRearranged-swap :
      (a b : List A) (i j : ℕ)
      → i < length a
      → j < length a
      → IsRearranged (swap d a i j) b
      → IsRearranged a b
  IsRearranged-swap a b i j hi hj r = record {
    same_length = r.same_length ∙ length-swap d a i j;
    same_count = λ p. r.same_count p ∙ count-swap d a i j hi hj p;
  }

  pub up-IsRearranged :
      (fuel : ℕ) (a : List A) (j : ℕ) → j < length a → IsRearranged a (up less d fuel a j)
  up-IsRearranged zero a j h = unfold up in IsRearranged-refl a
  up-IsRearranged (suc fuel) a j h =
      elim (Bool-cases (parent j == j || not (less_at less d a j (parent j)))) [
        | inl e ↦ rw (up-step, e) (IsRearranged-refl a)
        | inr e ↦
            rw (up-step, e)
              (IsRearranged-swap a _ (parent j) j (omega arith) h (
                up-IsRearranged fuel (swap d a (parent j) j) (parent j)
                  (omega (arith, length-swap d a (parent j) j))))
      ]

  pub down-IsRearranged :
      (fuel : ℕ) (a : List A) (i n : ℕ) → n ≤ length a → IsRearranged a (down less d fuel a i n)
  down-IsRearranged zero a i n h = unfold down in IsRearranged-refl a
  down-IsRearranged (suc fuel) a i n h =
      elim (Bool-cases (leb n (2 * i + 1) || not (less_at less d a (child less d a i n) i))) [
        | inl e ↦ rw (down-step, e) (IsRearranged-refl a)
        | inr e ↦
            let more : 2 * i + 1 < n = below n (2 * i + 1) _ e in
            let c = child-lt a i n more in
            rw (down-step, e)
              (IsRearranged-swap a _ i (child less d a i n) (omega (arith, c)) (omega (arith, c)) (
                down-IsRearranged fuel (swap d a i (child less d a i n)) (child less d a i n) n
                  (omega (arith, length-swap d a i (child less d a i n)))))
      ]

  module _ (x : A) (a : List A) where
    pushed : IsRearranged (a ++ x ∷ []) (push less d x a)
    unfolding push
    pushed =
        up-IsRearranged (suc (length a)) (a ++ x ∷ []) (length a)
          (omega (arith, length-append a (x ∷ [])))

    -- A push adds the element, and nothing else changes.
    pub push-items :
        (length (push less d x a) ≡ length a + 1)
        × ((p : A → Bool) → count p (push less d x a) ≡ count p a + one_if (p x))
    push-items = (
      pushed.same_length ∙ length-append a (x ∷ []),
      λ p. omega (arith, pushed.same_count p, count-append p a (x ∷ [])),
    )

  module _ (a : List A) (h : 0 < length a) where
    pub sifted : IsRearranged a (down less d (suc (last a)) (swap d a 0 (last a)) 0 (last a))
    sifted = IsRearranged-swap a _ 0 (last a) h (omega arith) (
        down-IsRearranged (suc (last a)) (swap d a 0 (last a)) 0 (last a)
          (omega (arith, length-swap d a 0 (last a))))

    -- A pop takes out the element that it returns, and nothing else changes.
    pub pop-items :
        (length (pop less d a).1 ≡ length a - 1)
        × ((p : A → Bool) → count p a ≡ count p (pop less d a).1 + one_if (p (pop less d a).0))
    unfolding pop
    pop-items =
        let after = down less d (suc (last a)) (swap d a 0 (last a)) 0 (last a) in
        let size : length after ≡ suc (last a) = omega (arith, sifted.same_length) in
        (
          length-take_of_le (last a) after (omega arith),
          λ p. sym (sifted.same_count p) ∙ count-split_last p after (last a) d size,
        )
