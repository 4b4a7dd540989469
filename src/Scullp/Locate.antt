-- ===== src/Scullp/Locate.antt =====
-- scullp/main.c: the item, the quantum and the offset that a file position stands for.
use ldd.Common.{ℕ, zero, suc, ◌*◌, ◌/◌, ◌%◌, ◌^◌, ◌<◌, ◌≡◌, arith}
use ldd.Scullp.{Dev, quantum, itemsize, pages}

-- The order and the array's length, by which positions are taken apart, have not changed.
abbrev pub SameShape : Dev → Dev → Type 0
SameShape d e = (e.first.order ≡ d.first.order) × (e.qset ≡ d.qset)

pub div-lt : (r q n : ℕ) → 0 < q → r < q * n → r / q < n
div-lt r q n p h = grind arith

pub pow_pos : (n : ℕ) → 0 < 2 ^ n
pow_pos zero = omega arith
pow_pos (suc n) = omega (arith, pow_pos n)

pub pages_pos : (page_size order : ℕ) → 0 < page_size → 0 < pages page_size order
pages_pos page_size order h = let p = pow_pos order in grind arith

module _ (page_size : ℕ) where
  abbrev pub item_of_pos : Dev → ℕ → ℕ
  item_of_pos d f_pos = f_pos / itemsize page_size d

  abbrev pub s_pos_of : Dev → ℕ → ℕ
  s_pos_of d f_pos = f_pos % itemsize page_size d / quantum page_size d

  abbrev pub q_pos_of : Dev → ℕ → ℕ
  q_pos_of d f_pos = f_pos % itemsize page_size d % quantum page_size d

  pub s_pos-lt : (d : Dev) (f_pos : ℕ) → 0 < page_size → 0 < d.qset → s_pos_of d f_pos < d.qset
  s_pos-lt d f_pos h k =
      let q = pages_pos page_size d.first.order h in
      let i : 0 < itemsize page_size d = grind arith in div-lt _ _ d.qset q (omega arith)

  pub q_pos-lt : (d : Dev) (f_pos : ℕ) → 0 < page_size → q_pos_of d f_pos < quantum page_size d
  q_pos-lt d f_pos h = let q = pages_pos page_size d.first.order h in omega arith
