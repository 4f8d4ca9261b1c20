-- ===== src/Hash.antt =====
-- bf-ko/base/hash_function.h: the hash over a buffer of bytes, in 32-bit unsigned arithmetic.
-- `char` is signed and words are little-endian, as on the x86 machines that the code is for.
use bf.Base.{
  ℕ, zero, suc, ◌+◌, ◌-◌, ◌*◌, ◌/◌, ◌%◌, ◌^◌, bit_xor, List, get_or, drop, ltb, if◌then◌else◌, ◌==◌,
}

abbrev add32 : ℕ → ℕ → ℕ
add32 a b = (a + b) % 2 ^ 32

abbrev shl32 : ℕ → ℕ → ℕ
shl32 a k = a * 2 ^ k % 2 ^ 32

abbrev shr : ℕ → ℕ → ℕ
shr a k = a / 2 ^ k

-- The macro get16bits; a read past the buffer, which no call with its right length makes, gives 0.
unfoldable pub get16bits : List ℕ → ℕ
get16bits d = get_or d 0 0 + 256 * get_or d 1 0

-- A `char` as it is widened to 32 bits.
unfoldable pub sign_extend : ℕ → ℕ
sign_extend c = if ltb c 128 then c else c + (2 ^ 32 - 256)

-- The main loop: `rounds` blocks of four bytes.
unfoldable pub hash_blocks : ℕ → List ℕ → ℕ → ℕ × List ℕ
unfolding get16bits
hash_blocks zero bytes hash = (hash, bytes)
hash_blocks (suc rounds) bytes hash =
    let h1 = add32 hash (get16bits bytes) in
    let tmp = bit_xor (get16bits (drop 2 bytes) * 2 ^ 11) h1 in
    let h2 = bit_xor (shl32 h1 16) tmp in hash_blocks rounds (drop 4 bytes) (add32 h2 (shr h2 11))

-- The switch over the one to three bytes that are left.
unfoldable pub hash_rest : ℕ → List ℕ → ℕ → ℕ
unfolding get16bits sign_extend
hash_rest rem bytes hash =
    if rem == 3
    then (let h1 = add32 hash (get16bits bytes) in
        let h2 = bit_xor h1 (shl32 h1 16) in
        let h3 = bit_xor h2 (shl32 (sign_extend (get_or bytes 2 0)) 18) in add32 h3 (shr h3 11))
    else if rem == 2
    then (let h1 = add32 hash (get16bits bytes) in
        let h2 = bit_xor h1 (shl32 h1 11) in add32 h2 (shr h2 17))
    else if rem == 1
    then (let h1 = add32 hash (sign_extend (get_or bytes 0 0)) in
        let h2 = bit_xor h1 (shl32 h1 10) in add32 h2 (shr h2 1))
    else hash

-- The final avalanche.
unfoldable pub avalanche : ℕ → ℕ
avalanche h =
    let h1 = bit_xor h (shl32 h 3) in
    let h2 = add32 h1 (shr h1 5) in
    let h3 = bit_xor h2 (shl32 h2 2) in let h4 = add32 h3 (shr h3 15) in bit_xor h4 (shl32 h4 10)

-- `__hash(data, len)` of a buffer that is not NULL
unfoldable pub hash : List ℕ → ℕ → ℕ
unfolding hash_blocks hash_rest avalanche
hash bytes len =
    if len == 0
    then 0
    else (let r = hash_blocks (len / 4) bytes 0 in avalanche (hash_rest (len % 4) r.1 r.0))
