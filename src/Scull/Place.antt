-- ===== src/Scull/Place.antt =====
-- scull_char_device/main.c: the item, the quantum and the offset that a position stands for.
use ldd.Common.{ℕ, ◌+◌, ◌*◌, ◌/◌, ◌%◌, ◌<◌, ◌≡◌, ap, ◌∙◌, arith}
use native.Mathlib.Nat.{div-add-mod, div-eq_of_lt-le}

-- Division by `n` of a number between two multiples.
div_of : (n k r : ℕ) → r < n → (n * k + r) / n ≡ k
div_of n k r h = div-eq_of_lt-le n (grind arith) (grind arith)

mod_of : (n k r : ℕ) → r < n → (n * k + r) % n ≡ r
mod_of n k r h =
    let whole = div-add-mod (n * k + r) n in
    let d = ap (λ (x : ℕ). n * x) (div_of n k r h) in omega arith

div-lt : (r q n : ℕ) → 0 < q → r < q * n → r / q < n
div-lt r q n p h = grind arith

index_in : (q s t r : ℕ) → t < s → r < q → q * t + r < q * s
index_in q s t r h k = grind arith

module _ (q s p : ℕ) (hq : 0 < q) (hs : 0 < s) where
  -- The position from its three parts.
  pub position : (q * s) * (p / (q * s)) + (q * (p % (q * s) / q) + p % (q * s) % q) ≡ p
  position =
      ap (λ (x : ℕ). (q * s) * (p / (q * s)) + x) (div-add-mod (p % (q * s)) q)
      ∙ div-add-mod p (q * s)

  pub itemsize_pos : 0 < q * s
  itemsize_pos = grind arith

  pub s_pos-lt : p % (q * s) / q < s
  s_pos-lt = let i = itemsize_pos in div-lt (p % (q * s)) q s hq (omega arith)

  pub q_pos-lt : p % (q * s) % q < q
  q_pos-lt = grind arith

  module _ (k : ℕ) (h : p % (q * s) % q + k < q) where
    sum_parts : p + k ≡ (q * s) * (p / (q * s)) + (q * (p % (q * s) / q) + (p % (q * s) % q + k))
    sum_parts = omega (arith, position)

    in_item : q * (p % (q * s) / q) + (p % (q * s) % q + k) < q * s
    in_item = index_in q s _ _ s_pos-lt h

    -- A position further on in the same quantum.
    pub item-add : (p + k) / (q * s) ≡ p / (q * s)
    item-add = rw sum_parts (div_of (q * s) (p / (q * s)) _ in_item)

    rest-add : (p + k) % (q * s) ≡ q * (p % (q * s) / q) + (p % (q * s) % q + k)
    rest-add = rw sum_parts (mod_of (q * s) (p / (q * s)) _ in_item)

    pub s_pos-add : (p + k) % (q * s) / q ≡ p % (q * s) / q
    s_pos-add = ap (λ (x : ℕ). x / q) rest-add ∙ div_of q _ _ h

    pub q_pos-add : (p + k) % (q * s) % q ≡ p % (q * s) % q + k
    q_pos-add = ap (λ (x : ℕ). x % q) rest-add ∙ mod_of q _ _ h
