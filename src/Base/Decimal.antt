-- ===== src/Base/Decimal.antt =====
-- strconv.Itoa of a number that is not negative, and strconv.FormatInt in base 10 of an int64.
use Prim.Native.Nat.{ℕ, zero, suc, ◌-◌, ◌/◌, ◌%◌}
use Prim.Native.String.{String, [] as no_text, ◌∷◌ as ◌∷ₜ◌}
use Prim.Native.Char.{Char}
use riemann_go.Base.Tests.{ltb, ◌==◌, if◌then◌else◌}
use riemann_go.Base.Words.{word, half_word}

digit : ℕ → Char
digit n =
    if n == 0
    then "0"
    else if n == 1
    then "1"
    else if n == 2
    then "2"
    else if n == 3
    then "3"
    else if n == 4
    then "4"
    else if n == 5
    then "5"
    else if n == 6
    then "6"
    else if n == 7
    then "7"
    else if n == 8
    then "8"
    else "9"

-- The digits of `n`, before `s`; each round takes the last of them, so that n + 1 rounds are enough.
unfoldable pub digits : ℕ → ℕ → String → String
unfolding digit
digits zero n s = s
digits (suc fuel) n s =
    let s' : String = digit (n % 10) ∷ₜ s in
    let rest = digits fuel (n / 10) s' in if ltb n 10 then s' else rest

unfoldable pub itoa : ℕ → String
unfolding digits
itoa n = digits (suc n) n no_text

-- of an int64, from its 64 bits
unfoldable pub format_int : ℕ → String
format_int n = if ltb n half_word then itoa n else "-" ∷ₜ itoa (word - n)
