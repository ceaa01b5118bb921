-- ===== src/Base58.antt =====
-- pkg/mapping/base58.go: numbers as base58 text and back. A byte is a number below 256, a uint64
-- or an int is its 64-bit pattern, and sums and products keep their wrap-around.
pub mod Reverse
pub mod Digits
pub mod Decode
pub mod Encode
pub mod RoundTrip
pub mod Numerals
use Prim.Native.Char.{code}
use Prim.Native.String
use mathlib.Core.Logic.{dite}
use mathlib.Core.WellFounded.{Acc}
use turl.Base.{
  ℕ, zero, suc, ◌+◌, ◌-◌, ◌*◌, ◌/◌, ◌%◌, ◌^◌, ◌<◌, String, Bool, true, false, List, [], ◌∷◌, ◌++◌,
  arith, dec_lt, lt_wf, ltb, leb, ◌==◌, if◌then◌else◌, length, get_or, set, replicate,
}
use turl.Base.Int.{ℤ, pos, negsuc, to_word64}
use turl.Errors.{Result, ok, err, base58_overflow, invalid_character}

abbrev pub Bytes : Type 0
Bytes = List ℕ

-- The bytes of an ASCII text.
abbrev pub codes : String → Bytes
codes String.[] = []
codes (String.◌∷◌ c s) = code c ∷ codes s

abbrev pub carry : ℕ
carry = 58

abbrev pub max_bytes : ℕ
max_bytes = 8

unfoldable pub chars : Bytes
chars = codes "123456789ABCDEFGHJKLMNPQRSTUVWXYZabcdefghijkmnopqrstuvwxyz"

-- The second loop of `init`: indices[char] = i.
fill_indices : Bytes → ℕ → List ℤ → List ℤ
fill_indices [] i table = table
fill_indices (c ∷ cs) i table = fill_indices cs (i + 1) (set table c (pos i))

-- -1 for every byte that is not in the alphabet.
unfoldable pub indices : List ℤ
unfolding fill_indices chars
indices = fill_indices chars 0 (replicate 256 (negsuc 0))

half_lt : {n : ℕ} → 0 < n → n / 2 < n
half_lt h = omega arith

pred_lt : {n : ℕ} → 0 < n → n - 1 < n
pred_lt h = omega arith

pow_acc : (x n : ℕ) → Acc ◌<◌ n → ℕ
pow_acc x n (Acc.intro _ smaller) =
    dite (dec_lt 0 n)
      (λ h. elim (n % 2 == 0) [
        | true ↦ pow_acc ((x * x) % 2 ^ 64) (n / 2) (smaller (n / 2) (half_lt h))
        | false ↦ (x * pow_acc x (n - 1) (smaller (n - 1) (pred_lt h))) % 2 ^ 64
      ])
      (λ _. 1)

unfoldable pub pow : ℕ → ℕ → ℕ
unfolding pow_acc lt_wf dec_lt half_lt pred_lt
pow x n = pow_acc x n (lt_wf.apply n)

-- The third loop of `init`: pow58[i] = pow(carry, i), from `i` on, for the entries that are left.
fill_pow58 : ℕ → ℕ → List ℕ
fill_pow58 zero i = []
fill_pow58 (suc left) i = pow carry i ∷ fill_pow58 left (i + 1)

unfoldable pub pow58 : List ℕ
unfolding fill_pow58 pow
pow58 = fill_pow58 9 0

-- for left < right { swap; left++; right-- }. The distance falls by two in each round, so the
-- length of the array is enough fuel. At an empty array `right` is -1 in the source and 0 here:
-- both are not above `left`.
reverse_loop : ℕ → ℕ → ℕ → Bytes → Bytes
reverse_loop zero left right a = a
reverse_loop (suc rounds) left right a =
    let swapped = set (set a left (get_or a right 0)) right (get_or a left 0) in
    let rest = reverse_loop rounds (left + 1) (right - 1) swapped in
    if ltb left right then rest else a

unfoldable pub reverse : Bytes → Bytes
unfolding reverse_loop
reverse a = reverse_loop (length a) 0 (length a - 1) a

quotient_lt : {n : ℕ} → 0 < n → n / 58 < n
quotient_lt h = omega arith

-- for ; num > 0; num /= carry { b = append(b, chars[num%carry]) }
encode_acc : (num : ℕ) → Acc ◌<◌ num → Bytes → Bytes
encode_acc num (Acc.intro _ smaller) b =
    dite (dec_lt 0 num)
      (λ h.
        encode_acc (num / carry) (smaller (num / carry) (quotient_lt h))
          (b ++ get_or chars (num % carry) 0 ∷ []))
      (λ _. b)

unfoldable pub encode_loop : ℕ → Bytes → Bytes
unfolding encode_acc lt_wf dec_lt quotient_lt
encode_loop num b = encode_acc num (lt_wf.apply num) b

-- Base58Encode
unfoldable pub encode : ℕ → Bytes
encode num = reverse (encode_loop num [])

abbrev is_minus_one : ℤ → Bool
is_minus_one (pos k) = false
is_minus_one (negsuc k) = k == 0

-- The loop of Base58Decode over the bytes from `i` on, of `n` bytes.
unfoldable pub decode_loop : ℕ → ℕ → Bytes → ℕ → Result ℕ
unfolding indices pow58
decode_loop n i [] num = ok num
decode_loop n i (c ∷ cs) num =
    let index = get_or indices c (negsuc 0) in
    let term = (get_or pow58 (n - i - 1) 0 * to_word64 index) % 2 ^ 64 in
    let rest = decode_loop n (i + 1) cs ((num + term) % 2 ^ 64) in
    if is_minus_one index then err invalid_character else rest

-- Base58Decode
unfoldable pub decode : Bytes → Result ℕ
unfolding decode_loop
decode b = if ltb max_bytes (length b) then err base58_overflow else decode_loop (length b) 0 b 0
