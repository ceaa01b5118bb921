-- ===== src/Tests/Codecs.antt =====
-- Base58 and the cached values on concrete inputs.
use turl.Base.{ℕ, ◌^◌, ◌≡◌, ◌≤◌, ◌<◌, refl, none, some, ◌++◌, arith, replicate, length}
use turl.Base.Int.{to_word64, pos, ◌≤ℤ◌, ◌+ℤ◌}
use turl.Base58
use turl.Base58.{Bytes, codes, encode, decode, encode_loop, decode_loop}
use turl.Base58.RoundTrip.{decode-encode, encode-decode}
use turl.Errors.{ok}
use turl.Expiry.{encode_cache_value, decode_cache_value, cache_ttl}
use turl.Expiry.Codec.{decode_cache_value-encode_cache_value, decode_cache_value-encode_epoch}
use turl.Expiry.Lifetime.{cache_ttl_live, cache_ttl_expired}
use turl.Handler.{seconds_ttl}
use turl.Handler.Lifetime.{seconds_ttl_wraps}

encode_run : encode 656356769 ≡ codes "211112"
unfolding encode encode_loop Base58.reverse Base58.chars
encode_run = refl

decode_run : decode (codes "12") ≡ ok 1
unfolding decode decode_loop Base58.indices Base58.pow58 Base58.chars Base58.pow to_word64
decode_run = refl

decode-encode_example : decode (encode 656356769) ≡ ok 656356769
decode-encode_example = decode-encode 656356769 (omega arith)

abbrev one : ℕ
one = 1

encode-decode_example :
    (one < 58 ^ 8)
    × (length (codes "12") ≤ 8)
    × ((k : ℕ) × (codes "12" ≡ replicate k b'1' ++ encode 1))
encode-decode_example = encode-decode (codes "12") 1 (omega arith, (omega arith, tt)) decode_run

decode_cache_value-encode_cache_value_example :
    decode_cache_value (encode_cache_value (codes "http://a.b") (some (pos 1700000000000000000)))
    ≡ some (codes "http://a.b", some (pos 1700000000000000000))
decode_cache_value-encode_cache_value_example =
    decode_cache_value-encode_cache_value (codes "http://a.b") (some (pos 1700000000000000000))
      ((omega arith, omega arith), λ e. cc)

decode_cache_value-encode_epoch_example :
    decode_cache_value (encode_cache_value (codes "http://a.b") (some (pos 0)))
    ≡ some (codes "http://a.b", none)
decode_cache_value-encode_epoch_example = decode_cache_value-encode_epoch (codes "http://a.b")

cache_ttl_live_example :
    (pos 1 ≤ℤ cache_ttl (pos 100) (pos 50) (some (pos 120)))
    × (cache_ttl (pos 100) (pos 50) (some (pos 120)) ≤ℤ pos 50)
    × (pos 100 +ℤ cache_ttl (pos 100) (pos 50) (some (pos 120)) ≤ℤ pos 120)
cache_ttl_live_example = cache_ttl_live (pos 100) (pos 50) (pos 120) (omega arith) (omega arith)

cache_ttl_expired_example : cache_ttl (pos 100) (pos 50) (some (pos 90)) ≤ℤ pos 0
cache_ttl_expired_example =
    cache_ttl_expired (pos 100) (pos 50) (pos 90) (omega arith) (omega arith)

seconds_ttl_wraps_example : seconds_ttl (pos 36028797018963969) ≡ pos 1000000000
seconds_ttl_wraps_example = seconds_ttl_wraps 1 1 (omega arith)
