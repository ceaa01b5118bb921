-- ===== src/Expiry.antt =====
-- The expiry of links in app/turl/service.go: the cached value with its expiry header, the bounded
-- cache lifetime and the expiry test. An instant is its distance from the Unix epoch in
-- nanoseconds, an integer without bounds, as `time.Time` reaches beyond an int64 of nanoseconds; a
-- duration is such an integer too, kept in the range of an int64 where Go keeps it.
pub mod Codec
pub mod Lifetime
use turl.Base.{
  ℕ, ◌+◌, ◌-◌, ◌*◌, ◌/◌, ◌%◌, ◌^◌, Bool, true, false, not, Option, none, some, List, [], ◌∷◌, ◌++◌,
  arith, ltb, ◌==◌, if◌then◌else◌, length, take, drop,
}
use turl.Base.Int.{ℤ, pos, negsuc, ◌-ℤ◌, ltb_ℤ, to_word64, of_word64}
use turl.Base58.{Bytes}

abbrev pub Instant : Type 0
Instant = ℤ

abbrev pub Duration : Type 0
Duration = ℤ

-- t.UnixNano(): the int64 of the nanoseconds, whose wrap-around shows outside its range.
unfoldable pub unix_nano : Instant → ℤ
unix_nano t = of_word64 (to_word64 t)

-- binary.BigEndian.PutUint64
unfoldable pub put_uint64 : ℕ → Bytes
put_uint64 w =
    (w / 2 ^ 56) % 256
    ∷ (w / 2 ^ 48) % 256
    ∷ (w / 2 ^ 40) % 256
    ∷ (w / 2 ^ 32) % 256
    ∷ (w / 2 ^ 24) % 256
    ∷ (w / 2 ^ 16) % 256
    ∷ (w / 2 ^ 8) % 256
    ∷ w % 256
    ∷ []

-- binary.BigEndian.Uint64, over the bytes that are there.
unfoldable pub uint64 : ℕ → Bytes → ℕ
uint64 acc [] = acc
uint64 acc (b ∷ bs) = uint64 (acc * 256 + b) bs

abbrev pub cache_value_prefix : ℕ
cache_value_prefix = 8

-- 0 stands for a link that never expires.
abbrev expiry_header : Option Instant → ℤ
expiry_header none = pos 0
expiry_header (some t) = unix_nano t

-- encodeCacheValue
unfoldable pub encode_cache_value : Bytes → Option Instant → Bytes
encode_cache_value long expires_at = put_uint64 (to_word64 (expiry_header expires_at)) ++ long

abbrev is_zero : ℤ → Bool
is_zero (pos n) = n == 0
is_zero (negsuc n) = false

-- decodeCacheValue; none is `ok == false`.
unfoldable pub decode_cache_value : Bytes → Option (Bytes × Option Instant)
decode_cache_value b =
    let exp = of_word64 (uint64 0 (take cache_value_prefix b)) in
    let long = drop cache_value_prefix b in
    if ltb (length b) cache_value_prefix
    then none
    else if is_zero exp
    then some (long, none)
    else some (long, some exp)

-- time.Until(t) at the instant `now`: the difference, held in the range of an int64.
unfoldable pub until : Instant → Instant → Duration
until now t =
    let d = t -ℤ now in
    if ltb_ℤ (pos (2 ^ 63 - 1)) d
    then pos (2 ^ 63 - 1)
    else if ltb_ℤ d (negsuc (2 ^ 63 - 1))
    then negsuc (2 ^ 63 - 1)
    else d

-- cacheTTL
unfoldable pub cache_ttl : Instant → Duration → Option Instant → Duration
cache_ttl now config_ttl none = config_ttl
cache_ttl now config_ttl (some t) =
    if ltb_ℤ (until now t) config_ttl then until now t else config_ttl

-- isExpired
unfoldable pub is_expired : Instant → Option Instant → Bool
is_expired now none = false
is_expired now (some t) = not (ltb_ℤ now t)
