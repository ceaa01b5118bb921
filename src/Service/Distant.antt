-- ===== src/Service/Distant.antt =====
-- Expiries that the header of a cached value of app/turl/service.go does not hold.
use turl.Base.{ℕ, ◌^◌, ◌-◌, ◌≤◌, ◌<◌, ◌≡◌, refl, ap, ◌∙◌, true, false, some, arith}
use turl.Base.Int.{pos, negsuc, of_word64, to_word64}
use turl.Base58.{Bytes, decode}
use turl.Errors.{Result, ok, err, panicked, expired}
use turl.Expiry.{unix_nano, encode_cache_value, decode_cache_value, is_expired}
use turl.Expiry.Codec.{reread, decode_cache_value-encode_any}
use turl.Action.{attempt, continue}
use turl.Service.{Parts, clock, after_decode, after_get, from_cache, on_miss, retrieve}

-- From 2 ^ 63 nanoseconds on, in the year 2262, the int64 of an instant wraps around.
reread_distant :
    (t : ℕ) → 2 ^ 63 ≤ t → t < 2 ^ 64 → reread (some (pos t)) ≡ some (negsuc (2 ^ 64 - t - 1))
unfolding unix_nano of_word64 to_word64
reread_distant t far near = ground arith

past : (now m : ℕ) → is_expired (pos now) (some (negsuc m)) ≡ true
unfolding is_expired
past now m = ground arith

module _ {W : Type 0} (s : Parts W) where
  answered_distant :
      (k : Bytes) (n t now : ℕ) (long : Bytes) (r : W × Result Bytes)
      → 2 ^ 63 ≤ t
      → t < 2 ^ 64
      → r.1 ≡ ok (encode_cache_value long (some (pos t)))
      → (s.now r.0).1 ≡ pos now
      → (continue (continue (attempt (λ w. r) r.0) (after_get s)) (on_miss s k n)).1 ≡ err expired
  unfolding after_get after_decode clock on_miss
  answered_distant k n t now long (w, ok v) far near hit time =
      let value : decode_cache_value v ≡ some (long, some (negsuc (2 ^ 64 - t - 1))) =
        ap decode_cache_value (let same : v ≡ encode_cache_value long (some (pos t)) = cc in same)
        ∙ decode_cache_value-encode_any long (some (pos t))
        ∙ ap (λ e. some (long, e)) (reread_distant t far near) in
      rw (value, time, past now (2 ^ 64 - t - 1)) refl
  answered_distant k n t now long (w, err e) far near hit time = absurd cc
  answered_distant k n t now long (w, panicked) far near hit time = absurd cc

  -- A link that expires between the years 2262 and 2554, from 2 ^ 63 to below 2 ^ 64 nanoseconds after the
  -- epoch, and that the cache answers with its entry, is refused as expired while it is live.
  pub retrieve_distant :
      (k : Bytes) (n t now : ℕ) (long : Bytes) (w : W)
      → decode k ≡ ok n
      → 2 ^ 63 ≤ t
      → t < 2 ^ 64
      → now < t
      → (s.cache.get k w).1 ≡ ok (encode_cache_value long (some (pos t)))
      → (s.now (s.cache.get k w).0).1 ≡ pos now
      → (is_expired (pos now) (some (pos t)) ≡ false) × ((retrieve s k w).1 ≡ err expired)
  unfolding retrieve from_cache is_expired
  retrieve_distant k n t now long w named far near live hit time =
      (ground arith, rw named (answered_distant k n t now long (s.cache.get k w) far near hit time))
