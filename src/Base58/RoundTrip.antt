-- ===== src/Base58/RoundTrip.antt =====
-- `Base58Encode` and `Base58Decode` of pkg/mapping/base58.go undo each other.
use mathlib.Core.WellFounded
use native.Mathlib.Nat.{pow-suc, pow-le-pow_right, mul-le-mul_right}
use mathlib.Core.Path.{ap₂, ◌≡⟨◌⟩◌, ◌∎}
use turl.Base.{
  ℕ, zero, suc, ◌+◌, ◌*◌, ◌/◌, ◌%◌, ◌^◌, ◌≤◌, ◌<◌, ◌≡◌, sym, ◌∙◌, ap, arith, dec_lt, lt_wf, length,
  length-append, [], ◌∷◌, ◌++◌, append-nil, append_assoc, some, none, Option, replicate,
}
use turl.Errors.{ok, err, base58_overflow}
use turl.Base58.{Bytes, encode, decode}
use turl.Base58.Digits.{digit, digit-chars, digit_sound, chars_zero}
use turl.Base58.Decode.{
  IsBytes, value, value_nil, value_nil_inj, value_cons, value-some, or_invalid, decode-value,
  decode_long,
}
use turl.Base58.Encode.{last_char, encode_step, encode_zero, encode-IsBytes, length-encode}

value-append :
    (xs : Bytes) (acc v c d : ℕ)
    → value acc xs ≡ some v
    → digit c ≡ some d
    → value acc (xs ++ c ∷ []) ≡ some (v * 58 + d)
value-append [] acc v c d e f =
    value-some acc c [] d f ∙ (value_nil (acc * 58 + d) ∙ cc (value_nil acc))
value-append (x ∷ xs) acc v c d e f =
    let (k, good, small, rest) = value_cons acc x xs v e in
    value-some acc x (xs ++ c ∷ []) k good ∙ value-append xs (acc * 58 + k) v c d rest f

or_invalid_ok : (o : Option ℕ) (n : ℕ) → or_invalid o ≡ ok n → o ≡ some n
or_invalid_ok none n e = cc
or_invalid_ok (some m) n e = cc

pub value-encode : (n : ℕ) → value 0 (encode n) ≡ some n
value-encode n = WellFounded.induction lt_wf {C = λ m. value 0 (encode m) ≡ some m} n λ m ih.
    elim (dec_lt 0 m) [
      | yes h ↦
          let e : m / 58 * 58 + m % 58 ≡ m = omega arith in
          rw (encode_step m h) (
            value-append (encode (m / 58)) 0 (m / 58) (last_char m) (m % 58)
              (ih (m / 58) (omega arith)) (digit-chars (m % 58) (omega arith)).0
            ∙ ap some e)
      | no h ↦ let e : m ≡ 0 = omega arith in rw (e, encode_zero) (value_nil 0)
    ]

-- A number below 58 ^ k is written with at most k characters.
pub length-encode_le : (k n : ℕ) → n < 58 ^ k → length (encode n) ≤ k
length-encode_le zero n h = let e : n ≡ 0 = omega arith in rw (e, encode_zero) (omega arith)
length-encode_le (suc k) n h = elim (dec_lt n (58 ^ k)) [
  | yes p ↦ omega (arith, length-encode_le k n p)
  | no p ↦ omega (arith, length-encode k n (omega arith) h)
]

-- A number from 58 ^ k on is written with more than k characters.
pub length-encode_gt : (k n : ℕ) → 58 ^ k ≤ n → k < length (encode n)
length-encode_gt zero n h =
    rw (encode_step n (omega arith))
      (omega (arith, length-append (encode (n / 58)) (last_char n ∷ [])))
length-encode_gt (suc k) n h =
    let h' : 58 ^ k * 58 ≤ n = rw pow-suc at h in
    let one : 1 ≤ 58 ^ k = pow-le-pow_right {n = 58} (omega arith) {i = 0} (omega arith) in
    rw (encode_step n (omega arith)) (
      omega (
        arith,
        length-append (encode (n / 58)) (last_char n ∷ []),
        length-encode_gt k (n / 58) (omega arith),
      ))

-- Decoding the text of a number below 58 ^ 8 gives the number back.
pub decode-encode : (n : ℕ) → n < 58 ^ 8 → decode (encode n) ≡ ok n
decode-encode n h =
    decode-value (encode n) (encode-IsBytes n) (length-encode_le 8 n h)
    ∙ ap or_invalid (value-encode n)

-- The text of a number from 58 ^ 8 on is refused by the decoder as too long.
pub decode-encode_large : (n : ℕ) → 58 ^ 8 ≤ n → decode (encode n) ≡ err base58_overflow
decode-encode_large n h = decode_long (encode n) (length-encode_gt 8 n h)

-- Reading more digits behind a positive number extends its text.
encode-value :
    (cs : Bytes) (acc n : ℕ) → 0 < acc → value acc cs ≡ some n → encode acc ++ cs ≡ encode n
encode-value [] acc n h e = append-nil (encode acc) ∙ ap encode (value_nil_inj acc n e)
encode-value (c ∷ cs) acc n h e =
    let (d, good, small, rest) = value_cons acc c cs n e in
    let m : ℕ = acc * 58 + d in
    let quotient : m / 58 ≡ acc = omega arith in
    let remainder : m % 58 ≡ d = omega arith in
    let written : encode m ≡ encode acc ++ c ∷ [] =
      encode_step m (omega arith) ∙ cc (quotient, remainder, (digit_sound c d good).1) in
    encode acc ++ c ∷ cs
    ≡⟨ sym (append_assoc (encode acc) (c ∷ []) cs) ⟩ (encode acc ++ c ∷ []) ++ cs
    ≡⟨ ap (λ l. l ++ cs) (sym written) ⟩ encode m ++ cs
    ≡⟨ encode-value cs m n (omega arith) rest ⟩ encode n ∎

encode-digit : (c d : ℕ) → digit c ≡ some d → 0 < d → encode d ≡ c ∷ []
encode-digit c d good h =
    let (small, char) = digit_sound c d good in
    let quotient : d / 58 ≡ 0 = omega arith in
    let remainder : d % 58 ≡ d = omega arith in
    encode_step d h ∙ cc (quotient, remainder, char, encode_zero)

digit_zero : (c : ℕ) → digit c ≡ some 0 → c ≡ b'1'
digit_zero c h = sym (digit_sound c 0 h).1 ∙ chars_zero

-- The text of a value, up to leading characters of the digit zero.
pub encode-value_zero :
    (cs : Bytes) (n : ℕ) → value 0 cs ≡ some n → (k : ℕ) × (cs ≡ replicate k b'1' ++ encode n)
encode-value_zero [] n e =
    let zero_value : 0 ≡ n = value_nil_inj 0 n e in (0, sym encode_zero ∙ ap encode zero_value)
encode-value_zero (c ∷ cs) n e = go (value_cons 0 c cs n e) (encode-value_zero cs n)
  where
    go :
        (d : ℕ) × (digit c ≡ some d) × (d < 58) × (value (0 * 58 + d) cs ≡ some n)
        → (value 0 cs ≡ some n → (k : ℕ) × (cs ≡ replicate k b'1' ++ encode n))
        → (k : ℕ) × (c ∷ cs ≡ replicate k b'1' ++ encode n)
    go (zero, good, small, rest) ih = let (k, e) = ih rest in (suc k, ap₂ ◌∷◌ (digit_zero c good) e)
    go (suc d, good, small, rest) ih =
        let start : 0 * 58 + suc d ≡ suc d = omega arith in
        (
          0,
          ap (λ l. l ++ cs) (sym (encode-digit c (suc d) good (omega arith)))
              ∙ encode-value cs (suc d) n (omega arith) (rw start at rest),
        )

pub value-lt : (cs : Bytes) (acc n : ℕ) → value acc cs ≡ some n → n < (acc + 1) * 58 ^ length cs
value-lt [] acc n e = omega (arith, value_nil_inj acc n e)
value-lt (c ∷ cs) acc n e =
    let (d, good, small, rest) = value_cons acc c cs n e in
    let ih = value-lt cs (acc * 58 + d) n rest in
    let p : ℕ = 58 ^ length cs in
    let scaled : (acc * 58 + d + 1) * p ≤ (acc * 58 + 58) * p = mul-le-mul_right p (omega arith) in
    rw pow-suc (omega arith)

-- For any bytes: what decodes to a number is that number's text behind any count of the
-- character of the digit zero, it has at most eight bytes, and the number is below 58 ^ 8.
pub encode-decode :
    (b : Bytes) (n : ℕ)
    → IsBytes b
    → decode b ≡ ok n
    → (n < 58 ^ 8) × (length b ≤ 8) × ((k : ℕ) × (b ≡ replicate k b'1' ++ encode n))
encode-decode b n bytes e = elim (dec_lt 8 (length b)) [
  | yes long ↦ cc (decode_long b long)
  | no short ↦
      let read : value 0 b ≡ some n =
        or_invalid_ok (value 0 b) n (sym (decode-value b bytes (omega arith)) ∙ e) in
      let power : 58 ^ length b ≤ 58 ^ 8 = pow-le-pow_right (omega arith) {j = 8} (omega arith) in
      (omega (arith, value-lt b 0 n read), omega arith, encode-value_zero b n read)
]
