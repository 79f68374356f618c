-- ===== src/Engine/Routing.antt =====
-- internal/engine/engine.go: shardFor. FNV-1a of 32 bits over the bytes of a text.
use Prim.Native.Char.{Char, code}
use Prim.Native.String.{[] as no_text, ◌∷◌ as ◌∷ₜ◌}
use riemann_go.Base.{ℕ, ◌+◌, ◌*◌, ◌/◌, ◌%◌, ◌^◌, bit_xor, List, [], ◌∷◌, String, ltb, if◌then◌else◌}

-- The bytes of a character's UTF-8.
unfoldable pub utf8 : Char → List ℕ
utf8 c =
    let n = code c in
    let one = n ∷ [] in
    let two = (192 + n / 64) ∷ (128 + n % 64) ∷ [] in
    let three = (224 + n / 4096) ∷ (128 + n / 64 % 64) ∷ (128 + n % 64) ∷ [] in
    let four =
      (240 + n / 262144) ∷ (128 + n / 4096 % 64) ∷ (128 + n / 64 % 64) ∷ (128 + n % 64) ∷ [] in
    if ltb n 128 then one else if ltb n 2048 then two else if ltb n 65536 then three else four

-- One byte of hash/fnv's 32-bit FNV-1a.
abbrev fnv_byte : ℕ → ℕ → ℕ
fnv_byte h b = bit_xor h b * 16777619 % 2 ^ 32

fnv_bytes : ℕ → List ℕ → ℕ
fnv_bytes h [] = h
fnv_bytes h (b ∷ bs) = fnv_bytes (fnv_byte h b) bs

fnv_from : ℕ → String → ℕ
unfolding fnv_bytes utf8
fnv_from h no_text = h
fnv_from h (c ∷ₜ s) = fnv_from (fnv_bytes h (utf8 c)) s

unfoldable pub fnv32a : String → ℕ
unfolding fnv_from
fnv32a s = fnv_from 2166136261 s

-- shardFor, of a number of shards
unfoldable pub shard_for : ℕ → String → ℕ
unfolding fnv32a
shard_for shards host = fnv32a host % shards
