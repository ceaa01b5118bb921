-- ===== src/Base58/Encode.antt =====
-- `Base58Encode` of pkg/mapping/base58.go: the digits that it writes and how many there are.
use mathlib.Core.List.{reverse-append}
use mathlib.Core.Logic.{ite, if_pos, dite}
use mathlib.Core.WellFounded
use mathlib.Core.WellFounded.{Acc, Acc-prop}
use native.Mathlib.Nat.{pow-suc, pow-le-pow_right}
use turl.Base.{
  ℕ, zero, suc, ◌*◌, ◌/◌, ◌%◌, ◌^◌, ◌≤◌, ◌<◌, ◌≡◌, refl, sym, ◌∙◌, ap, arith, dec_lt, lt_wf, length,
  length-append, get_or, [], ◌∷◌, ◌++◌, All-snoc, append-nil, append_assoc,
}
use turl.Base58
use turl.Base58.{Bytes, chars, encode_acc, encode_loop, encode, quotient_lt}
use turl.Base58.Reverse.{reverse_lem}
use turl.Base58.Digits.{digit-chars}
use turl.Base58.Decode.{IsBytes}

-- The character of the last digit of a number.
abbrev pub last_char : ℕ → ℕ
last_char n = get_or chars (n % 58) 0

encode_acc_step :
    (n : ℕ) (w : Acc ◌<◌ n) (w' : Acc ◌<◌ (n / 58)) (b : Bytes)
    → encode_acc n w b ≡ ite (dec_lt 0 n) (encode_acc (n / 58) w' (b ++ last_char n ∷ [])) b
unfolding encode_acc
encode_acc_step n (Acc.intro _ smaller) w' b = λ i.
    dite (dec_lt 0 n)
      (λ h.
        encode_acc (n / 58) (Acc-prop (smaller (n / 58) (quotient_lt h)) w' i)
          (b ++ last_char n ∷ []))
      (λ _. b)

encode_loop_step :
    (n : ℕ) (b : Bytes)
    → encode_loop n b ≡ ite (dec_lt 0 n) (encode_loop (n / 58) (b ++ last_char n ∷ [])) b
unfolding encode_loop
encode_loop_step n b = encode_acc_step n (lt_wf.apply n) (lt_wf.apply (n / 58)) b

encode_loop_pos :
    (n : ℕ) (b : Bytes) → 0 < n → encode_loop n b ≡ encode_loop (n / 58) (b ++ last_char n ∷ [])
encode_loop_pos n b h = encode_loop_step n b ∙ if_pos (dec_lt 0 n) h _ b

encode_loop_zero : (b : Bytes) → encode_loop 0 b ≡ b
unfolding encode_loop
encode_loop_zero b = refl

-- The buffer of the loop stays in front of what the loop appends.
encode_loop-append : (n : ℕ) (b : Bytes) → encode_loop n b ≡ b ++ encode_loop n []
encode_loop-append n =
    WellFounded.induction lt_wf {C = λ m. (b : Bytes) → encode_loop m b ≡ b ++ encode_loop m []} n
      λ m ih b. elim (dec_lt 0 m) [
        | yes h ↦
            rw (encode_loop_pos m b h, encode_loop_pos m [] h)
              (ih (m / 58) (omega arith) (b ++ last_char m ∷ [])
                ∙ (append_assoc b _ _
                    ∙ ap (λ l. b ++ l) (sym (ih (m / 58) (omega arith) (last_char m ∷ [])))))
        | no h ↦
            let e : m ≡ 0 = omega arith in
            rw (e, encode_loop_zero b, encode_loop_zero []) (sym (append-nil b))
      ]

-- A positive number is written as its quotient by 58 followed by the character of its remainder.
pub encode_step : (n : ℕ) → 0 < n → encode n ≡ encode (n / 58) ++ last_char n ∷ []
unfolding encode
encode_step n h =
    rw
      (
        encode_loop_pos n [] h,
        encode_loop-append (n / 58) (last_char n ∷ []),
        reverse_lem,
        reverse_lem,
      )
      (reverse-append (last_char n ∷ []) (encode_loop (n / 58) []))

pub encode_zero : encode 0 ≡ []
unfolding encode Base58.reverse encode_loop
encode_zero = refl

pub encode-IsBytes : (n : ℕ) → IsBytes (encode n)
encode-IsBytes n = WellFounded.induction lt_wf {C = λ m. IsBytes (encode m)} n λ m ih.
    elim (dec_lt 0 m) [
      | yes h ↦ rw (encode_step m h) (
          All-snoc (λ c. c < 256) (encode (m / 58)) (last_char m) (ih (m / 58) (omega arith))
            (digit-chars (m % 58) (omega arith)).1)
      | no h ↦ let e : m ≡ 0 = omega arith in rw (e, encode_zero) tt
    ]

-- A number from 58 ^ k to below 58 ^ (k + 1) is written with k + 1 characters.
pub length-encode : (k n : ℕ) → 58 ^ k ≤ n → n < 58 ^ suc k → length (encode n) ≡ suc k
length-encode zero n lo hi =
    let q : n / 58 ≡ 0 = omega arith in rw (encode_step n (omega arith), q, encode_zero)
length-encode (suc k) n lo hi =
    let lo' : 58 ^ k * 58 ≤ n = rw pow-suc at lo in
    let hi' : n < 58 ^ suc k * 58 = rw pow-suc at hi in
    let some_digit : 1 ≤ 58 ^ k = pow-le-pow_right {n = 58} (omega arith) {i = 0} (omega arith) in
    let ih = length-encode k (n / 58) (omega arith) (omega arith) in
    rw (encode_step n (omega arith))
      (omega (arith, length-append (encode (n / 58)) (last_char n ∷ []), ih))
