-- ===== src/Base58/Numerals.antt =====
-- `Base58Encode` of pkg/mapping/base58.go as an equivalence of types, between the sequence numbers and their
-- texts.
use mathlib.Core.Equiv.{IsEquiv, iso_to_equiv}
use mathlib.Core.HLevel.{×_prop, Σ_prop_path}
use mathlib.Core.Bool.{Bool-set}
use mathlib.Core.WellFounded
use native.Mathlib.Bridge.{le_prop}
use native.Mathlib.Nat.{pow-le-pow_right}
use mathlib.Core.Option.{some_inj}
use turl.Base.{
  ℕ, zero, suc, ◌+◌, ◌*◌, ◌/◌, ◌%◌, ◌^◌, ◌≤◌, ◌<◌, ◌≡◌, refl, sym, ◌∙◌, ap, arith, dec_lt, lt_wf,
  length, length-append, get_or, ◌≢◌, Bool, true, false, not, ◌&&◌, ◌==◌, Option, some, none,
  Option-cases, inl, inr, [], ◌∷◌, ◌++◌, replicate,
}
use turl.Base58.{Bytes, chars, encode}
use turl.Base58.Digits.{digit, digit-chars, chars_zero}
use turl.Base58.Decode.{value, value_nil, value_cons, value-some}
use turl.Base58.Encode.{last_char, encode_step, encode_zero}
use turl.Base58.RoundTrip.{value-encode, length-encode_le, encode-value_zero, value-lt}

is_digit : Option ℕ → Bool
is_digit none = false
is_digit (some d) = true

-- Every byte is a character of the alphabet.
pub all_digits : Bytes → Bool
unfolding is_digit
all_digits [] = true
all_digits (c ∷ cs) = is_digit (digit c) && all_digits cs

-- The text does not begin with the character of the digit zero.
pub unpadded : Bytes → Bool
unpadded [] = true
unpadded (c ∷ cs) = not (c == b'1')

abbrev pub IsNumeral : Bytes → Type 0
IsNumeral b = (all_digits b ≡ true) × ((unpadded b ≡ true) × (length b ≤ 8))

abbrev pub Number : Type 0
Number = (n : ℕ) × (n < 58 ^ 8)

abbrev pub Numeral : Type 0
Numeral = (b : Bytes) × IsNumeral b

IsNumeral-prop : (b : Bytes) → IsProp (IsNumeral b)
IsNumeral-prop b =
    ×_prop (Bool-set (all_digits b) true)
      (×_prop (Bool-set (unpadded b) true) (le_prop {n = length b} {m = 8}))

all_digits_value : (b : Bytes) (acc n : ℕ) → value acc b ≡ some n → all_digits b ≡ true
unfolding all_digits is_digit
all_digits_value [] acc n e = refl
all_digits_value (c ∷ cs) acc n e =
    let (d, good, small, rest) = value_cons acc c cs n e in
    rw good (all_digits_value cs (acc * 58 + d) n rest)

value_all_digits : (b : Bytes) (acc : ℕ) → all_digits b ≡ true → (n : ℕ) × (value acc b ≡ some n)
unfolding all_digits is_digit
value_all_digits [] acc h = (acc, value_nil acc)
value_all_digits (c ∷ cs) acc h = elim (Option-cases (digit c)) [
  | inl bad ↦ absurd (let wrong : false ≡ true = rw bad at h in cc)
  | inr (d, good) ↦
      let (n, is) = value_all_digits cs (acc * 58 + d) (rw good at h) in
      (n, value-some acc c cs d good ∙ is)
]

empty_unpadded : unpadded [] ≡ true
unfolding unpadded
empty_unpadded = refl

unpadded_zeros : (k : ℕ) (b : Bytes) → unpadded (replicate k b'1' ++ b) ≡ true → k ≡ 0
unfolding unpadded
unpadded_zeros zero b h = refl
unpadded_zeros (suc k) b h = absurd cc

unpadded_digit : (d : ℕ) → 0 < d → d < 58 → unpadded (get_or chars d 0 ∷ []) ≡ true
unfolding unpadded
unpadded_digit d h small =
    let other : get_or chars d 0 ≢ b'1' = λ same.
      let zero_digit : some d ≡ some 0 =
        sym (digit-chars d small).0
        ∙ ap digit (same ∙ sym chars_zero)
        ∙ (digit-chars 0 (omega arith)).0 in
      omega (arith, some_inj.0 zero_digit) in
    ground (arith, other)

unpadded-append :
    (b : Bytes) (c : ℕ) → 0 < length b → unpadded b ≡ true → unpadded (b ++ c ∷ []) ≡ true
unfolding unpadded
unpadded-append [] c long h = absurd (omega arith)
unpadded-append (x ∷ b) c long h = h

unpadded-encode : (n : ℕ) → 0 < n → (0 < length (encode n)) × (unpadded (encode n) ≡ true)
unpadded-encode n pos =
    WellFounded.induction lt_wf
      {C = λ m. 0 < m → (0 < length (encode m)) × (unpadded (encode m) ≡ true)} n
      (λ m ih h. elim (dec_lt 0 (m / 58)) [
        | yes more ↦
            let (long, fine) = ih (m / 58) (omega arith) more in
            rw (encode_step m h) (
              omega (arith, length-append (encode (m / 58)) (last_char m ∷ [])),
              unpadded-append (encode (m / 58)) (last_char m) long fine,
            )
        | no one ↦
            let q : m / 58 ≡ 0 = omega arith in
            rw (encode_step m h, q, encode_zero)
              (omega arith, unpadded_digit (m % 58) (omega arith) (omega arith))
      ])
      pos

encode-IsNumeral : (n : ℕ) → n < 58 ^ 8 → IsNumeral (encode n)
encode-IsNumeral n h = (
  all_digits_value (encode n) 0 n (value-encode n),
  (
    elim (dec_lt 0 n) [
      | yes pos ↦ (unpadded-encode n pos).1
      | no zero_number ↦ let e : n ≡ 0 = omega arith in rw (e, encode_zero) empty_unpadded
    ],
    length-encode_le 8 n h,
  ),
)

pub numeral : Number → Numeral
numeral (n, h) = (encode n, encode-IsNumeral n h)

number : Numeral → Number
number (b, (digits, (unpad, short))) =
    let (n, is) = value_all_digits b 0 digits in
    (n, omega (arith, value-lt b 0 n is, pow-le-pow_right {n = 58} (omega arith) short))

number-numeral : (a : Number) → number (numeral a) ≡ a
unfolding number numeral
number-numeral (n, h) =
    let (m, is) = value_all_digits (encode n) 0 (encode-IsNumeral n h).0 in
    Σ_prop_path (λ k. le_prop) (some_inj.0 (sym is ∙ value-encode n))

numeral-number : (c : Numeral) → numeral (number c) ≡ c
unfolding number numeral
numeral-number (b, (digits, (unpad, short))) =
    let (n, is) = value_all_digits b 0 digits in
    let (k, padded) = encode-value_zero b n is in
    let none_left : k ≡ 0 = unpadded_zeros k (encode n) (ap unpadded (sym padded) ∙ unpad) in
    let same : b ≡ encode n = padded ∙ ap (λ z. replicate z b'1' ++ encode n) none_left in
    Σ_prop_path IsNumeral-prop (sym same)

-- Encoding is an equivalence of types between the numbers below 58 ^ 8 and the texts of at most eight
-- characters of the alphabet that do not begin with the character of the digit zero: each such text is
-- the text of one number and of no other.
pub numeral-IsEquiv : IsEquiv numeral
numeral-IsEquiv =
    (iso_to_equiv
      (record { fun = numeral; inv = number; rinv = numeral-number; linv = number-numeral })).1
