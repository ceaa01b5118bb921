-- ===== src/Base58/Reverse.antt =====
-- `reverse` of pkg/mapping/base58.go, the loop that swaps in place.
use mathlib.Core.List
use mathlib.Core.List.{append_assoc, append-nil, reverse-append}
use mathlib.Core.Path.{◌≡⟨◌⟩◌, ◌∎}
use turl.Base.{
  ℕ, zero, suc, ◌+◌, ◌-◌, ◌≤◌, ◌<◌, ◌≡◌, refl, sym, ap, ◌∙◌, [], ◌∷◌, ◌++◌, ◌⊎◌, inl, inr, arith,
  lt→ltb, length, length-append, get_or, get_or-append, set, set-append,
}
use turl.Base58.{Bytes, reverse_loop, reverse}

-- A list is empty, or has its last element split off.
last_split : (a : Bytes) → (a ≡ []) ⊎ ((m : Bytes) × (y : ℕ) × (a ≡ m ++ y ∷ []))
last_split [] = inl refl
last_split (x ∷ a) = elim (last_split a) [
  | inl e ↦ inr ([], x, ap (λ l. x ∷ l) e)
  | inr (m, y, e) ↦ inr (x ∷ m, y, ap (λ l. x ∷ l) e)
]

-- The list with a middle part, seen from its right end.
regroup :
    (pre : Bytes) (x : ℕ) (m : Bytes) (y : ℕ) (post : Bytes)
    → pre ++ x ∷ (m ++ y ∷ post) ≡ (pre ++ x ∷ m) ++ y ∷ post
regroup pre x m y post = sym (append_assoc pre (x ∷ m) (y ∷ post))

module _ (pre : Bytes) (x : ℕ) (m : Bytes) (y : ℕ) (post : Bytes) (right : ℕ)
    (at_end : right ≡ length pre + suc (length m)) where
  right-length : right ≡ length (pre ++ x ∷ m)
  right-length = omega (arith, length-append pre (x ∷ m))

  get_right : get_or (pre ++ x ∷ (m ++ y ∷ post)) right 0 ≡ y
  get_right = rw (regroup pre x m y post, right-length) (get_or-append (pre ++ x ∷ m) y post 0)

  set_right : (v : ℕ) → set (pre ++ x ∷ (m ++ y ∷ post)) right v ≡ pre ++ x ∷ (m ++ v ∷ post)
  set_right v =
      rw (regroup pre x m y post, right-length, regroup pre x m v post)
        (set-append (pre ++ x ∷ m) y v post)

-- The two writes of a round exchange the ends of the middle part.
swap_ends :
    (pre : Bytes) (x : ℕ) (m : Bytes) (y : ℕ) (post : Bytes) (right : ℕ)
    → right ≡ length pre + suc (length m)
    → set
        (set
          (pre ++ x ∷ (m ++ y ∷ post))
          (length pre)
          (get_or (pre ++ x ∷ (m ++ y ∷ post)) right 0))
        right
        (get_or (pre ++ x ∷ (m ++ y ∷ post)) (length pre) 0)
      ≡ pre ++ y ∷ (m ++ x ∷ post)
swap_ends pre x m y post right e =
    rw
      (
        get_right pre x m y post right e,
        get_or-append pre x (m ++ y ∷ post) 0,
        set-append pre x y (m ++ y ∷ post),
      )
      (set_right pre y m y post right e x)

-- One round with `left` below `right` swaps the ends and goes on inside.
reverse_loop_step :
    (rounds left right : ℕ) (a b : Bytes)
    → left < right
    → set (set a left (get_or a right 0)) right (get_or a left 0) ≡ b
    → reverse_loop (suc rounds) left right a ≡ reverse_loop rounds (left + 1) (right - 1) b
unfolding reverse_loop
reverse_loop_step rounds left right a b h e = rw (lt→ltb _ _ h, e)

reverse_loop_done :
    (rounds left right : ℕ) (a : Bytes) → right ≤ left → reverse_loop rounds left right a ≡ a
unfolding reverse_loop
reverse_loop_done zero left right a h = refl
reverse_loop_done (suc rounds) left right a h = ground arith

abbrev Reverses : ℕ → Bytes → Bytes → Bytes → Type 0
Reverses rounds pre mid post =
    reverse_loop rounds (length pre) (length pre + length mid - 1) (pre ++ (mid ++ post))
    ≡ pre ++ (List.reverse mid ++ post)

-- A round with at least two elements left, when the rest of the loop is right.
reverse_round :
    (rounds : ℕ) (pre : Bytes) (x : ℕ) (m : Bytes) (y : ℕ) (post : Bytes)
    → Reverses rounds (pre ++ y ∷ []) m (x ∷ post)
    → Reverses (suc rounds) pre (x ∷ (m ++ y ∷ [])) post
reverse_round rounds pre x m y post ih =
    let len : length (pre ++ y ∷ []) ≡ length pre + 1 = length-append pre (y ∷ []) in
    let len_m : length (m ++ y ∷ []) ≡ length m + 1 = length-append m (y ∷ []) in
    let inner : length pre + suc (length (m ++ y ∷ [])) - 1 - 1
        ≡ length (pre ++ y ∷ []) + length m - 1 =
      omega arith in
    let whole : List.reverse (x ∷ (m ++ y ∷ [])) ≡ (y ∷ List.reverse m) ++ x ∷ [] =
      reverse-append (x ∷ []) (m ++ y ∷ []) ∙ ap (λ l. l ++ x ∷ []) (reverse-append m (y ∷ [])) in
    let tail : pre ++ ((y ∷ List.reverse m ++ x ∷ []) ++ post)
        ≡ (pre ++ y ∷ []) ++ (List.reverse m ++ x ∷ post) =
      simp append_assoc in
    reverse_loop (suc rounds) (length pre) (length pre + suc (length (m ++ y ∷ [])) - 1)
      (pre ++ x ∷ ((m ++ y ∷ []) ++ post))
    ≡⟨ reverse_loop_step rounds _ _ _ (pre ++ y ∷ (m ++ x ∷ post)) (omega arith)
        (rw (append_assoc m (y ∷ []) post) (swap_ends pre x m y post _ (omega arith))) ⟩
      reverse_loop rounds (length pre + 1) (length pre + suc (length (m ++ y ∷ [])) - 1 - 1)
        (pre ++ y ∷ (m ++ x ∷ post))
    ≡⟨ (cc (len, inner, append_assoc pre (y ∷ []) (m ++ x ∷ post))) ⟩
      reverse_loop rounds (length (pre ++ y ∷ [])) (length (pre ++ y ∷ []) + length m - 1)
        ((pre ++ y ∷ []) ++ (m ++ x ∷ post))
    ≡⟨ ih ⟩ (pre ++ y ∷ []) ++ (List.reverse m ++ x ∷ post)
    ≡⟨ sym (ap (λ l. pre ++ (l ++ post)) whole ∙ tail) ⟩
      pre ++ (List.reverse (x ∷ (m ++ y ∷ [])) ++ post) ∎

reverse_loop-append :
    (rounds : ℕ) (pre mid post : Bytes) → length mid ≤ rounds → Reverses rounds pre mid post
reverse_loop-append rounds pre [] post h = reverse_loop_done rounds _ _ _ (omega arith)
reverse_loop-append zero pre (x ∷ mid) post h = absurd (omega arith)
reverse_loop-append (suc rounds) pre (x ∷ mid) post h =
    go (last_split mid) (λ m y. reverse_loop-append rounds (pre ++ y ∷ []) m (x ∷ post))
  where
    go :
        (mid ≡ []) ⊎ ((m : Bytes) × (y : ℕ) × (mid ≡ m ++ y ∷ []))
        → ((m : Bytes) (y : ℕ) → length m ≤ rounds → Reverses rounds (pre ++ y ∷ []) m (x ∷ post))
        → Reverses (suc rounds) pre (x ∷ mid) post
    go (inl e) ih = rw e (reverse_loop_done (suc rounds) _ _ _ (omega arith))
    go (inr (m, y, e)) ih =
        let short : length mid ≡ length m + 1 = ap length e ∙ length-append m (y ∷ []) in
        rw e (reverse_round rounds pre x m y post (ih m y (omega arith)))

-- The loop in place computes the reversed list.
pub reverse_lem : (a : Bytes) → reverse a ≡ List.reverse a
unfolding reverse
reverse_lem a =
    let start : length a - 1 ≡ 0 + length a - 1 = omega arith in
    let whole = reverse_loop-append (length a) [] a [] (omega arith) in
    rw start (simp append-nil at whole)
