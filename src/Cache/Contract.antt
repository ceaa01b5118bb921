-- ===== src/Cache/Contract.antt =====
-- What the clients of cache.Interface rely on, for any cache: the values that it may answer come from
-- what was set. A cache may forget at any time.
use turl.Base.{ℕ, Bool, true, false, if◌then◌else◌, Option, ◌≡◌, ◌⊎◌, inl, inr, sym, arith}
use mathlib.Core.Path.{subst}
use turl.Base.Int.{◌≤ℤ◌}
use turl.Base58.{Bytes}
use turl.Errors.{ok}
use turl.Expiry.{Instant, Duration}
use turl.Cache.{Interface}

-- `Known w n l e`: the link with number n, URL l and expiry e has been registered by the time of w.
-- `Cached w k v`: a cache may answer the key k with the value v. Caches may forget at any time.
-- `time w`: the time of day in w.
pub record View (W : Type 0) : Type 1 where
  pub Known : W → ℕ → Bytes → Option Instant → Type 0
  pub Cached : W → Bytes → Bytes → Type 0
  pub time : W → Instant

module _ {W : Type 0} (view : View W) where
  open view use {Known, Cached, time}

  -- A call that registers or keeps links, puts nothing into a cache and takes its time.
  pub record IsQuiet (w w' : W) : Type 0 where
    pub known : (n : ℕ) (l : Bytes) (e : Option Instant) → Known w n l e → Known w' n l e
    pub cached : (k v : Bytes) → Cached w' k v → Cached w k v
    pub later : time w ≤ℤ time w'

  -- A call that may put `v` under `k`.
  pub record IsWrite (k v : Bytes) (w w' : W) : Type 0 where
    pub known : (n : ℕ) (l : Bytes) (e : Option Instant) → Known w n l e → Known w' n l e
    pub cached : (j x : Bytes) → Cached w' j x → Cached w j x ⊎ ((j ≡ k) × (x ≡ v))
    pub later : time w ≤ℤ time w'

  pub quiet_refl : (w : W) → IsQuiet w w
  quiet_refl w = record { known = λ n l e k. k; cached = λ k v c. c; later = omega arith }

  pub quiet_if : (b : Bool) (w w' : W) → IsQuiet w w' → IsQuiet w (if b then w' else w)
  quiet_if true w w' q = q
  quiet_if false w w' q = quiet_refl w

  pub quiet_trans : (u v w : W) → IsQuiet u v → IsQuiet v w → IsQuiet u w
  quiet_trans u v w p q = record {
    known = λ n l e k. q.known n l e (p.known n l e k);
    cached = λ k x c. p.cached k x (q.cached k x c);
    later = omega (arith, p.later, q.later);
  }

  -- A value that was there already may be written again.
  pub write-quiet : (k x : Bytes) (w w' : W) → Cached w k x → IsWrite k x w w' → IsQuiet w w'
  write-quiet k x w w' there p = record {
    known = p.known;
    cached = λ j y c. elim (p.cached j y c) [
      | inl old ↦ old
      | inr same ↦ subst (λ i. Cached w i y) (sym same.0) (subst (Cached w k) (sym same.1) there)
    ];
    later = p.later;
  }

  pub write_trans : (k x : Bytes) (u v w : W) → IsWrite k x u v → IsWrite k x v w → IsWrite k x u w
  write_trans k x u v w p q = record {
    known = λ n l e h. q.known n l e (p.known n l e h);
    cached = λ j y c. elim (q.cached j y c) [ inl old ↦ p.cached j y old | inr same ↦ inr same ];
    later = omega (arith, p.later, q.later);
  }

  pub quiet_write : (k x : Bytes) (w w' : W) → IsQuiet w w' → IsWrite k x w w'
  quiet_write k x w w' p = record {
    known = p.known;
    cached = λ j y c. inl (p.cached j y c);
    later = p.later;
  }

  -- The contract of a cache.
  pub record IsCache (c : Interface W) : Type 0 where
    pub get : (k : Bytes) (w : W) → IsQuiet w (c.get k w).0
    pub get_ok : (k v : Bytes) (w : W) → (c.get k w).1 ≡ ok v → Cached w k v
    pub set : (k v : Bytes) (t : Duration) (w : W) → IsWrite k v w (c.set k v t w).0
    pub del : (k : Bytes) (w : W) → IsQuiet w (c.del k w).0
