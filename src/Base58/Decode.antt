-- ===== src/Base58/Decode.antt =====
-- `Base58Decode` of pkg/mapping/base58.go against the value of a numeral in base 58.
use native.Mathlib.Nat.{pow-suc, mul-le-mul_left, pow-le-pow_right}
use turl.Base.{
  ℕ, ◌+◌, ◌-◌, ◌*◌, ◌%◌, ◌^◌, ◌≤◌, ◌<◌, ◌≡◌, refl, sym, ◌∙◌, ap, arith, Option, none, some, length,
  get_or, [], ◌∷◌, All, Option-cases, inl, inr,
}
use turl.Base.Int.{to_word64}
use turl.Errors.{Result, ok, err, base58_overflow, invalid_character}
use turl.Base58.{Bytes, decode_loop, decode, pow58}
use turl.Base58.Digits.{digit, digit_sound, indices-digit, pow58_at}

-- A numeral read from the left, as a polynomial in 58; none if a byte is no digit.
pub value : ℕ → Bytes → Option ℕ
value acc [] = some acc
value acc (c ∷ cs) = elim (digit c) [ none ↦ none | some d ↦ value (acc * 58 + d) cs ]

abbrev pub or_invalid : Option ℕ → Result ℕ
or_invalid none = err invalid_character
or_invalid (some n) = ok n

abbrev pub IsBytes : Bytes → Type 0
IsBytes = All (λ c. c < 256)

-- A round at a digit adds the digit times its power; nothing wraps around.
round_fits :
    (acc d p : ℕ)
    → d < 58
    → (acc + 1) * (p * 58) ≤ 58 ^ 8
    → ((acc * (p * 58) + (p * d) % 2 ^ 64) % 2 ^ 64 ≡ (acc * 58 + d) * p)
      × ((acc * 58 + d + 1) * p ≤ 58 ^ 8)
round_fits acc d p h fits =
    let small : p * d ≤ p * 57 = mul-le-mul_left p (omega arith) in omega (arith, small)

pub value-none : (acc c : ℕ) (cs : Bytes) → digit c ≡ none → value acc (c ∷ cs) ≡ none
unfolding value
value-none acc c cs e = ground arith

pub value-some :
    (acc c : ℕ) (cs : Bytes) (d : ℕ)
    → digit c ≡ some d
    → value acc (c ∷ cs) ≡ value (acc * 58 + d) cs
unfolding value
value-some acc c cs d e = ground arith

pub value_nil : (acc : ℕ) → value acc [] ≡ some acc
unfolding value
value_nil acc = refl

pub value_nil_inj : (acc n : ℕ) → value acc [] ≡ some n → acc ≡ n
unfolding value
value_nil_inj acc n e = ground arith

-- A numeral with a value begins with a digit.
pub value_cons :
    (acc c : ℕ) (cs : Bytes) (n : ℕ)
    → value acc (c ∷ cs) ≡ some n
    → (d : ℕ) × (digit c ≡ some d) × (d < 58) × (value (acc * 58 + d) cs ≡ some n)
value_cons acc c cs n e = elim (Option-cases (digit c)) [
  | inl bad ↦ cc (value-none acc c cs bad)
  | inr (d, good) ↦ (d, good, (digit_sound c d good).0, sym (value-some acc c cs d good) ∙ e)
]

module _ (n i c : ℕ) (cs : Bytes) (num : ℕ) (byte : c < 256) where
  decode_loop_bad : digit c ≡ none → decode_loop n i (c ∷ cs) num ≡ err invalid_character
  unfolding decode_loop
  decode_loop_bad e = rw (indices-digit c byte, e)

  decode_loop_good :
      (d : ℕ)
      → digit c ≡ some d
      → decode_loop n i (c ∷ cs) num
        ≡ decode_loop n (i + 1) cs ((num + (get_or pow58 (n - i - 1) 0 * d) % 2 ^ 64) % 2 ^ 64)
  unfolding decode_loop to_word64
  decode_loop_good d e =
      let small : d % 2 ^ 64 ≡ d = omega (arith, (digit_sound c d e).0) in
      rw (indices-digit c byte, e, small)

decode_loop_lem :
    (n i : ℕ) (cs : Bytes) (acc : ℕ)
    → IsBytes cs
    → i + length cs ≡ n
    → n ≤ 8
    → (acc + 1) * 58 ^ length cs ≤ 58 ^ 8
    → decode_loop n i cs (acc * 58 ^ length cs) ≡ or_invalid (value acc cs)
decode_loop_lem n i [] acc b e small fits = unfold decode_loop value in ap ok (omega arith)
decode_loop_lem n i (c ∷ cs) acc b e small fits = elim (Option-cases (digit c)) [
  | inl bad ↦ rw (decode_loop_bad n i c cs _ b.0 bad, value-none acc c cs bad)
  | inr (d, good) ↦
      let k : n - i - 1 ≡ length cs = omega arith in
      let fits' = round_fits acc d (58 ^ length cs) (digit_sound c d good).0 (rw pow-suc at fits) in
      rw
        (
          decode_loop_good n i c cs _ b.0 d good,
          value-some acc c cs d good,
          k,
          pow58_at (length cs) (omega arith),
          pow-suc,
          fits'.0,
        )
        (decode_loop_lem n (i + 1) cs (acc * 58 + d) b.1 (omega arith) small fits'.1)
]

-- For at most eight bytes the decoder computes the value of the numeral, or reports an invalid
-- character where a byte is no digit.
pub decode-value : (b : Bytes) → IsBytes b → length b ≤ 8 → decode b ≡ or_invalid (value 0 b)
unfolding decode
decode-value b bytes small =
    let power : 58 ^ length b ≤ 58 ^ 8 = pow-le-pow_right (omega arith) small in
    let start : 0 * 58 ^ length b ≡ 0 = omega arith in
    let whole : decode_loop (length b) 0 b 0 ≡ or_invalid (value 0 b) =
      rw start at (decode_loop_lem (length b) 0 b 0 bytes (omega arith) small (omega arith)) in
    ground arith

-- More than eight bytes are refused before any is read, whatever they are.
pub decode_long : (b : Bytes) → 8 < length b → decode b ≡ err base58_overflow
unfolding decode
decode_long b h = ground arith
