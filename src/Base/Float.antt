-- ===== src/Base/Float.antt =====
-- Go's float64 as a parameter: the operations that the program uses, and what IEEE 754 says of the
-- order. A NaN is below nothing and above nothing; on all other values `<` is a linear order.
use riemann_go.Base.{ℕ, ◌≡◌, ◌⊎◌, inl, inr, Bool, true, false, String, Bool-cases}

-- Go's integers, where they turn into a float64; `negsuc n` is -(n + 1).
pub data ℤ : Type 0 where
  pos : ℕ → ℤ
  negsuc : ℕ → ℤ

pub record Float (F : Type 0) : Type 0 where
  pub flt : F → F → Bool
  pub fle : F → F → Bool
  pub feq : F → F → Bool
  pub fadd : F → F → F
  pub fsub : F → F → F
  pub fdiv : F → F → F
  pub is_nan : F → Bool
  -- neither NaN nor an infinity
  pub is_finite : F → Bool
  -- float64(n)
  pub of_ℤ : ℤ → F
  -- strconv.FormatFloat(x, 'g', -1, 64)
  pub format_g : F → String
  pub finite_nan : (a : F) → is_finite a ≡ true → is_nan a ≡ false
  pub flt_nan : (a b : F) → flt a b ≡ true → (is_nan a ≡ false) × (is_nan b ≡ false)
  pub flt_irrefl : (a : F) → flt a a ≡ false
  pub flt_trans : (a b c : F) → flt a b ≡ true → flt b c ≡ true → flt a c ≡ true
  pub flt_split :
      (a b c : F) → is_nan b ≡ false → flt a c ≡ true → (flt a b ≡ true) ⊎ (flt b c ≡ true)
  pub fle_of : (a b : F) → is_nan a ≡ false → is_nan b ≡ false → flt b a ≡ false → fle a b ≡ true
  pub fle_flt :
      (a b : F) → fle a b ≡ true → (flt b a ≡ false) × (is_nan a ≡ false) × (is_nan b ≡ false)
  pub feq_of :
      (a b : F)
      → is_nan a ≡ false
      → is_nan b ≡ false
      → flt a b ≡ false
      → flt b a ≡ false
      → feq a b ≡ true
  pub feq_flt :
      (a b : F)
      → feq a b ≡ true
      → (flt a b ≡ false) × (flt b a ≡ false) × (is_nan a ≡ false) × (is_nan b ≡ false)
  pub zero_lt_one : flt (of_ℤ (pos 0)) (of_ℤ (pos 1)) ≡ true

module _ {F : Type 0} ⦃fl : Float F⦄ where
  -- The order by `not b < a` is transitive through any value that is not NaN.
  pub not_flt_trans :
      (a b c : F)
      → fl.is_nan b ≡ false
      → fl.flt b a ≡ false
      → fl.flt c b ≡ false
      → fl.flt c a ≡ false
  not_flt_trans a b c nb h k = elim (Bool-cases (fl.flt c a)) [
    | inr e ↦ e
    | inl e ↦ elim (fl.flt_split c b a nb e) [ inl f ↦ cc | inr f ↦ cc ]
  ]

  pub flt_asym : (a b : F) → fl.flt a b ≡ true → fl.flt b a ≡ false
  flt_asym a b h = elim (Bool-cases (fl.flt b a)) [
    | inr e ↦ e
    | inl e ↦ cc (fl.flt_trans a b a h e, fl.flt_irrefl a)
  ]
