-- ===== src/Expiry/Codec.antt =====
-- `encodeCacheValue` and `decodeCacheValue` of app/turl/service.go.
use turl.Base.{
  ℕ, ◌^◌, ◌<◌, ◌≡◌, ◌≢◌, ◌↔◌, refl, ◌∙◌, ap, false, Option, none, some, ◌++◌, arith, ltb,
  if◌then◌else◌, length, Bool-cases, ==_iff, ◌==◌, inl, inr, take, drop,
}
use turl.Base.Int.{
  ℤ, pos, negsuc, IsInt64, to_word64, to_word64-lt, of_word64, of_word64-to_word64,
  of_word64-IsInt64,
}
use turl.Base58.{Bytes}
use turl.Expiry.{
  Instant, unix_nano, put_uint64, uint64, encode_cache_value, decode_cache_value, is_zero,
  expiry_header,
}

uint64-put_uint64 : (w : ℕ) → w < 2 ^ 64 → uint64 0 (put_uint64 w) ≡ w
unfolding uint64 put_uint64
uint64-put_uint64 w h = omega arith

take-put_uint64 : (w : ℕ) (long : Bytes) → take 8 (put_uint64 w ++ long) ≡ put_uint64 w
unfolding put_uint64
take-put_uint64 w long = refl

drop-put_uint64 : (w : ℕ) (long : Bytes) → drop 8 (put_uint64 w ++ long) ≡ long
unfolding put_uint64
drop-put_uint64 w long = refl

length-put_uint64 : (w : ℕ) (long : Bytes) → ltb (length (put_uint64 w ++ long)) 8 ≡ false
unfolding put_uint64
length-put_uint64 w long = ground arith

-- What an expiry reads as after it was cached.
abbrev pub reread : Option Instant → Option Instant
reread e = if is_zero (expiry_header e) then none else some (expiry_header e)

header-IsInt64 : (e : Option Instant) → IsInt64 (expiry_header e)
header-IsInt64 none = omega arith
header-IsInt64 (some t) = unfold unix_nano in of_word64-IsInt64 (to_word64 t) (to_word64-lt t)

pub decode_cache_value-encode_any :
    (long : Bytes) (e : Option Instant)
    → decode_cache_value (encode_cache_value long e) ≡ some (long, reread e)
unfolding decode_cache_value encode_cache_value
decode_cache_value-encode_any long e =
    let w = to_word64 (expiry_header e) in
    rw
      (
        length-put_uint64 w long,
        take-put_uint64 w long,
        drop-put_uint64 w long,
        uint64-put_uint64 w (to_word64-lt _),
        of_word64-to_word64 (expiry_header e) (header-IsInt64 e),
      )
      (ground arith)

-- The expiries that the header can hold: none, or an instant in the range of int64 nanoseconds
-- other than the epoch itself.
abbrev pub IsStorable : Option Instant → Type 0
IsStorable none = Unit
IsStorable (some t) = IsInt64 t × (t ≢ pos 0)

not_zero : (t : ℤ) → t ≢ pos 0 → is_zero t ≡ false
not_zero (pos n) h = elim (Bool-cases (n == 0)) [
  | inl e ↦ absurd (h (ap pos ((==_iff n 0).0 e)))
  | inr e ↦ e
]
not_zero (negsuc n) h = refl

pub reread_storable : (e : Option Instant) → IsStorable e → reread e ≡ e
unfolding unix_nano
reread_storable none h = refl
reread_storable (some t) (fits, h) = rw (of_word64-to_word64 t fits, not_zero t h)

-- A cached value whose expiry the header can hold, which is none or an instant other than the
-- epoch in the range of an int64 of nanoseconds, is read back as the same URL and the same
-- expiry.
pub decode_cache_value-encode_cache_value :
    (long : Bytes) (e : Option Instant)
    → IsStorable e
    → decode_cache_value (encode_cache_value long e) ≡ some (long, e)
decode_cache_value-encode_cache_value long e h =
    decode_cache_value-encode_any long e ∙ ap (λ e'. some (long, e')) (reread_storable e h)

-- A link that expires at the epoch is read back from the cache as one that never expires.
pub decode_cache_value-encode_epoch :
    (long : Bytes) → decode_cache_value (encode_cache_value long (some (pos 0))) ≡ some (long, none)
decode_cache_value-encode_epoch long =
    decode_cache_value-encode_any long (some (pos 0))
    ∙ (unfold unix_nano to_word64 of_word64 in refl)

-- A cached value is malformed exactly when it is shorter than its header.
decode_malformed : (b : Bytes) → (decode_cache_value b ≡ none) ↔ (length b < 8)
unfolding decode_cache_value
decode_malformed b = ground arith
