-- ===== src/Base/Circular.antt =====
-- A circular buffer: `n` slots of a Go slice from the head on, going round at its capacity.
use native.Mathlib.Nat.{add-zero, mod-eq_of_lt, mod-eq-sub-mod}
use riemann_go.Base.{
  ℕ, zero, suc, ◌+◌, ◌-◌, ◌%◌, ◌≤◌, ◌<◌, ◌≡◌, ◌≢◌, ◌⊎◌, refl, ap, subst, ◌∙◌, List, [], ◌∷◌, ◌++◌,
  arith, ltb, ◌==◌, if◌then◌else◌, length, get_or, set, get_or-set, inl, inr, Bool-cases, ==_ne,
  ==_refl,
}

-- One step past the end comes back to the start.
pub wrap_lem :
    (bound h j : ℕ)
    → h < bound
    → j ≤ bound
    → (h + j) % bound ≡ (if ltb (h + j) bound then h + j else h + j - bound)
wrap_lem bound h j hh hj = elim (Bool-cases (ltb (h + j) bound)) [
  | inl e ↦ rw e (mod-eq_of_lt (ground arith))
  | inr e ↦ rw e (
      mod-eq-sub-mod {n = h + j} {m = bound} (ground arith)
      ∙ mod-eq_of_lt {n = h + j - bound} {m = bound} (ground arith))
]

pub wrap-lt : (bound h j : ℕ) → h < bound → j ≤ bound → (h + j) % bound < bound
wrap-lt bound h j hh hj = ground (arith, wrap_lem bound h j)

pub wrap-ne : (bound h i j : ℕ) → h < bound → i < j → j < bound → (h + i) % bound ≢ (h + j) % bound
wrap-ne bound h i j hh hi hj = ground (arith, wrap_lem bound h i, wrap_lem bound h j)

pub wrap-step :
    (bound h i : ℕ)
    → h < bound
    → suc i ≤ bound
    → ((h + 1) % bound + i) % bound ≡ (h + suc i) % bound
wrap-step bound h i hh hi =
    ground (arith, wrap_lem bound h 1, wrap_lem bound h (suc i), wrap_lem bound ((h + 1) % bound) i)

pub wrap-== :
    (bound h i j : ℕ)
    → h < bound
    → i < bound
    → j < bound
    → ((h + j) % bound == (h + i) % bound) ≡ (j == i)
wrap-== bound h i j hh hi hj = ground (arith, wrap_lem bound h i, wrap_lem bound h j)

module _ {ℓ} {A : Type ℓ} (d : A) (bound : ℕ) where
  abbrev pub slot : List A → ℕ → ℕ → A
  slot buf h i = get_or buf ((h + i) % bound) d

  -- the slots at the offsets i, i + 1, … from the head
  abbrev pub window : List A → ℕ → ℕ → ℕ → List A
  window buf h i zero = []
  window buf h i (suc n) = slot buf h i ∷ window buf h (suc i) n

  pub length-window : (buf : List A) (h i n : ℕ) → length (window buf h i n) ≡ n
  length-window buf h i zero = refl
  length-window buf h i (suc n) = ap suc (length-window buf h (suc i) n)

  pub window-add :
      (buf : List A) (h i m n : ℕ)
      → window buf h i (m + n) ≡ window buf h i m ++ window buf h (i + m) n
  window-add buf h i zero n =
      let e : i + 0 ≡ i = omega arith in let z : 0 + n ≡ n = omega arith in rw (e, z)
  window-add buf h i (suc m) n =
      let s : suc m + n ≡ suc (m + n) = omega arith in
      let t : i + suc m ≡ suc i + m = omega arith in
      rw (s, t) (ap (◌∷◌ (slot buf h i)) (window-add buf h (suc i) m n))

  pub slot-set :
      (buf : List A) (h i j : ℕ) (v : A)
      → length buf ≡ bound
      → h < bound
      → i < bound
      → j < bound
      → slot (set buf ((h + j) % bound) v) h i ≡ (if j == i then v else slot buf h i)
  slot-set buf h i j v hl hh hi hj =
      get_or-set buf ((h + j) % bound) ((h + i) % bound) v d
        (omega (arith, wrap-lt bound h j hh (omega arith)))
      ∙ rw (wrap-== bound h i j hh hi hj)

  -- A write at an offset outside the window leaves it.
  pub window-set :
      (buf : List A) (h i n j : ℕ) (v : A)
      → length buf ≡ bound
      → h < bound
      → i + n ≤ bound
      → j < bound
      → (i + n ≤ j) ⊎ (j < i)
      → window (set buf ((h + j) % bound) v) h i n ≡ window buf h i n
  window-set buf h i zero j v hl hh hn hj o = refl
  window-set buf h i (suc n) j v hl hh hn hj o =
      let here : slot (set buf ((h + j) % bound) v) h i ≡ slot buf h i =
        slot-set buf h i j v hl hh (omega arith) hj ∙ rw (==_ne j i (omega arith)) in
      cc (here, window-set buf h (suc i) n j v hl hh (omega arith) hj (omega arith))

  pub window-step :
      (buf : List A) (h i n : ℕ)
      → h < bound
      → i + n < bound
      → window buf ((h + 1) % bound) i n ≡ window buf h (suc i) n
  window-step buf h i zero hh hc = refl
  window-step buf h i (suc n) hh hc =
      cc (wrap-step bound h i hh (omega arith), window-step buf h (suc i) n hh (omega arith))

  -- A write just past a window extends it.
  pub window-push :
      (buf : List A) (h n : ℕ) (v : A)
      → length buf ≡ bound
      → h < bound
      → n < bound
      → window (set buf ((h + n) % bound) v) h 0 (n + 1) ≡ window buf h 0 n ++ v ∷ []
  window-push buf h n v hl hh hn =
      let after = set buf ((h + n) % bound) v in
      let z : 0 + n ≡ n = omega arith in
      let written : slot after h (0 + n) ≡ v =
        rw z (slot-set buf h n n v hl hh hn hn ∙ rw (==_refl n)) in
      window-add after h 0 n 1
      ∙ rw written (rw (window-set buf h 0 n n v hl hh (omega arith) hn (inl (omega arith))))

  pub first-slot : (h : ℕ) (buf : List A) → h < bound → slot buf h 0 ≡ get_or buf h d
  first-slot h buf hh = let e : (h + 0) % bound ≡ h = rw add-zero (mod-eq_of_lt hh) in rw e

  -- Emptying the first slot and moving the head on leaves the later slots.
  pub window-clear :
      (h i m : ℕ) (buf : List A)
      → length buf ≡ bound
      → h < bound
      → suc i + m ≤ bound
      → window (set buf h d) ((h + 1) % bound) i m ≡ window buf h (suc i) m
  window-clear h i m buf hl hh hm =
      let e : (h + 0) % bound ≡ h = rw add-zero (mod-eq_of_lt hh) in
      window-step (set buf h d) h i m hh (omega arith)
      ∙ subst (λ j. window (set buf j d) h (suc i) m ≡ window buf h (suc i) m) e
          (window-set buf h (suc i) m 0 d hl hh hm (omega arith) (omega arith))

  pub window-uncons :
      (buf : List A) (h n : ℕ)
      → 0 < n
      → h < bound
      → window buf h 0 n ≡ get_or buf h d ∷ window buf h 1 (n - 1)
  window-uncons buf h zero hn hh = absurd (omega arith)
  window-uncons buf h (suc n) hn hh =
      let e : suc n - 1 ≡ n = omega arith in
      rw e (ap (λ x. x ∷ window buf h 1 n) (first-slot h buf hh))
