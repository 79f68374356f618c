-- ===== src/Base/Text.antt =====
-- The order of texts, by their bytes.
use Prim.Native.String.compare
use Prim.Native.String.{[] as nothing, ◌∷◌ as ◌∷ₜ◌}
use text.Mathlib.Text.{is_lt}
use riemann_go.Base.{
  String, compare_str, str_eq, ◌≡◌, Bool, true, false, arith, Bool-cases, inl, inr,
}

abbrev pub lt_str : String → String → Bool
lt_str s t = is_lt (compare_str s t)

pub lt_str_trans : (s t u : String) → lt_str s t ≡ true → lt_str t u ≡ true → lt_str s u ≡ true
lt_str_trans nothing nothing u p q = ground (arith, compare.nil-nil, p)
lt_str_trans nothing (d ∷ₜ t) nothing p q = ground (arith, compare.cons-nil d t)
lt_str_trans nothing (d ∷ₜ t) (e ∷ₜ u) p q = ground (arith, compare.nil-cons e u)
lt_str_trans (c ∷ₜ s) nothing u p q = ground (arith, compare.cons-nil c s)
lt_str_trans (c ∷ₜ s) (d ∷ₜ t) nothing p q = ground (arith, compare.cons-nil d t)
lt_str_trans (c ∷ₜ s) (d ∷ₜ t) (e ∷ₜ u) p q = ground (
  arith,
  compare.cons-cons c d s t,
  compare.cons-cons d e t u,
  compare.cons-cons c e s u,
  lt_str_trans s t u,
)

pub lt_str_irrefl : (s : String) → lt_str s s ≡ false
lt_str_irrefl nothing = ground (arith, compare.nil-nil)
lt_str_irrefl (c ∷ₜ s) = ground (arith, compare.cons-cons c c s s, lt_str_irrefl s)

-- A text that is neither before another nor equal to it stands after it.
pub lt_str_split : (s t : String) → lt_str s t ≡ false → str_eq s t ≡ false → lt_str t s ≡ true
lt_str_split nothing nothing p q = ground (arith, compare.nil-nil)
lt_str_split nothing (d ∷ₜ t) p q = ground (arith, compare.nil-cons d t)
lt_str_split (c ∷ₜ s) nothing p q = ground (arith, compare.nil-cons c s)
lt_str_split (c ∷ₜ s) (d ∷ₜ t) p q =
    ground (arith, compare.cons-cons c d s t, compare.cons-cons d c t s, lt_str_split s t)

pub lt_str_asym : (s t : String) → lt_str s t ≡ true → lt_str t s ≡ false
lt_str_asym s t h = elim (Bool-cases (lt_str t s)) [
  | inr e ↦ e
  | inl e ↦ absurd (ground (arith, lt_str_trans s t s h e, lt_str_irrefl s))
]
