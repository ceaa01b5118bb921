-- ===== src/Base58/Digits.antt =====
-- The three tables of pkg/mapping/base58.go that `init` fills, and `pow`.
use native.Mathlib.Nat.{sub-zero}
use turl.Base.{
  ℕ, ◌+◌, ◌-◌, ◌^◌, ◌≤◌, ◌<◌, ◌≡◌, refl, sym, ◌∙◌, Bool, true, false, ◌&&◌, arith, ltb, ◌==◌,
  ==_iff, if◌then◌else◌, Option, none, some, length, get_or, each_below, each_below-true, [], ◌∷◌,
}
use turl.Base.Int.{ℤ, pos, negsuc}
use turl.Base58.{Bytes, chars, indices, pow58}

-- The place of a byte in a list, from `i` on: what `indices` is a table of.
place : Bytes → ℕ → ℕ → Option ℕ
place [] c i = none
place (d ∷ ds) c i = if d == c then some i else place ds c (i + 1)

-- The value of a base58 digit; none for a byte that is not in the alphabet.
unfoldable pub digit : ℕ → Option ℕ
unfolding place chars
digit c = place chars c 0

-- An entry of `indices` as an option.
abbrev pub as_index : Option ℕ → ℤ
as_index none = negsuc 0
as_index (some d) = pos d

abbrev same_index : ℤ → ℤ → Bool
same_index (pos a) (pos b) = a == b
same_index (negsuc a) (negsuc b) = a == b
same_index _ _ = false

same_index_sound : (a b : ℤ) → same_index a b ≡ true → a ≡ b
same_index_sound (pos a) (pos b) h = ground arith
same_index_sound (negsuc a) (negsuc b) h = ground arith
same_index_sound (pos a) (negsuc b) h = ground arith
same_index_sound (negsuc a) (pos b) h = ground arith

indices_table :
    each_below (λ c. same_index (get_or indices c (negsuc 0)) (as_index (digit c))) 256 ≡ true
unfolding each_below indices digit
indices_table = refl

-- The table that `init` builds holds the digit of every byte, and -1 where there is none.
pub indices-digit : (c : ℕ) → c < 256 → get_or indices c (negsuc 0) ≡ as_index (digit c)
indices-digit c h = same_index_sound _ _ (
    each_below-true (λ c. same_index (get_or indices c (negsuc 0)) (as_index (digit c))) 256 c h
      indices_table)

abbrev is_digit_of : Option ℕ → ℕ → Bool
is_digit_of none d = false
is_digit_of (some e) d = e == d

chars_table :
    each_below (λ d. is_digit_of (digit (get_or chars d 0)) d && ltb (get_or chars d 0) 256) 58
    ≡ true
unfolding each_below digit chars
chars_table = refl

-- The character of a digit has that digit.
pub digit-chars : (d : ℕ) → d < 58 → (digit (get_or chars d 0) ≡ some d) × (get_or chars d 0 < 256)
digit-chars d h = ground (
  arith,
  each_below-true (λ d. is_digit_of (digit (get_or chars d 0)) d && ltb (get_or chars d 0) 256) 58 d
      h chars_table,
)

place_sound :
    (cs : Bytes) (c i d : ℕ)
    → place cs c i ≡ some d
    → (i ≤ d) × (d < i + length cs) × (get_or cs (d - i) 0 ≡ c)
unfolding place
place_sound [] c i d h = ground arith
place_sound (b ∷ cs) c i d h = ground (arith, place_sound cs c (i + 1) d)

digit-place : (c : ℕ) → digit c ≡ place chars c 0
unfolding digit
digit-place c = refl

pub length-chars : length chars ≡ 58
unfolding chars
length-chars = refl

pub chars_zero : get_or chars 0 0 ≡ b'1'
unfolding chars
chars_zero = refl

-- A digit is below 58, and its character is the byte that was read.
pub digit_sound : (c d : ℕ) → digit c ≡ some d → (d < 58) × (get_or chars d 0 ≡ c)
digit_sound c d h =
    let found = place_sound chars c 0 d (sym (digit-place c) ∙ h) in
    (omega (arith, found.1, length-chars), rw sub-zero at found.2)

pow58_table : each_below (λ k. get_or pow58 k 0 == 58 ^ k) 9 ≡ true
unfolding each_below pow58
pow58_table = refl

-- The table of powers holds the powers.
pub pow58_at : (k : ℕ) → k ≤ 8 → get_or pow58 k 0 ≡ 58 ^ k
pow58_at k h =
    (==_iff _ _).0 (each_below-true (λ k. get_or pow58 k 0 == 58 ^ k) 9 k (omega arith) pow58_table)
