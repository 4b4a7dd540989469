-- ===== src/Common/Bytes.antt =====
-- Byte buffers as lists, with the two accesses that C code makes through a pointer and a count:
-- `slice b i n` reads the `n` bytes at `b + i`, and `store b i xs` copies `xs` to `b + i`.
-- Both stop at the end of the buffer; the drivers' bounds theorems show where they do not reach it.
use Prim.Native.Nat.{ℕ, zero, suc, ◌+◌, ◌-◌, ◌≤◌, min}
use mathlib.Core.Path.{◌≡◌, refl, ap, ◌∙◌}
use mathlib.Core.List.{List, [], ◌∷◌, ◌++◌}
use native.Mathlib.Omega.{arith}
use ldd.Common.Lists.{length}

abbrev pub slice : List ℕ → ℕ → ℕ → List ℕ
slice [] i n = []
slice (x ∷ b) (suc i) n = slice b i n
slice (x ∷ b) zero zero = []
slice (x ∷ b) zero (suc n) = x ∷ slice b zero n

abbrev pub store : List ℕ → ℕ → List ℕ → List ℕ
store [] i xs = []
store (y ∷ b) (suc i) xs = y ∷ store b i xs
store (y ∷ b) zero [] = y ∷ b
store (y ∷ b) zero (x ∷ xs) = x ∷ store b zero xs

pub length-store : (b : List ℕ) (i : ℕ) (xs : List ℕ) → length (store b i xs) ≡ length b
length-store [] i xs = refl
length-store (y ∷ b) (suc i) xs = ap suc (length-store b i xs)
length-store (y ∷ b) zero [] = refl
length-store (y ∷ b) zero (x ∷ xs) = ap suc (length-store b zero xs)

pub length-slice : (b : List ℕ) (i n : ℕ) → length (slice b i n) ≡ min n (length b - i)
length-slice [] i n = omega arith
length-slice (x ∷ b) (suc i) n = omega (arith, length-slice b i n)
length-slice (x ∷ b) zero zero = omega arith
length-slice (x ∷ b) zero (suc n) = omega (arith, length-slice b zero n)

pub slice-zero : (b : List ℕ) (i : ℕ) → slice b i 0 ≡ []
slice-zero [] i = refl
slice-zero (x ∷ b) (suc i) = slice-zero b i
slice-zero (x ∷ b) zero = refl

-- Adjacent pieces make up the whole.
pub slice-append : (b : List ℕ) (i m n : ℕ) → slice b i m ++ slice b (i + m) n ≡ slice b i (m + n)
slice-append [] i m n = refl
slice-append (x ∷ b) (suc i) m n =
    let shift : suc i + m ≡ suc (i + m) = omega arith in rw shift (slice-append b i m n)
slice-append (x ∷ b) zero zero n = let e : n ≡ 0 + n = omega arith in ap (slice (x ∷ b) zero) e
slice-append (x ∷ b) zero (suc m) n =
    let shift : 0 + suc m ≡ suc (0 + m) = omega arith in
    let total : suc (m + n) ≡ suc m + n = omega arith in
    rw shift (ap (◌∷◌ x) (slice-append b zero m n) ∙ ap (slice (x ∷ b) zero) total)

-- A copy does not touch what stands before it or behind it, and reads back as what was copied.
pub slice-store_before :
    (b : List ℕ) (i n j : ℕ) (xs : List ℕ) → i + n ≤ j → slice (store b j xs) i n ≡ slice b i n
slice-store_before [] i n j xs h = refl
slice-store_before (y ∷ b) (suc i) n (suc j) xs h = slice-store_before b i n j xs (omega arith)
slice-store_before (y ∷ b) (suc i) n zero xs h = absurd (omega arith)
slice-store_before (y ∷ b) zero zero (suc j) xs h = refl
slice-store_before (y ∷ b) zero zero zero [] h = refl
slice-store_before (y ∷ b) zero zero zero (x ∷ xs) h = refl
slice-store_before (y ∷ b) zero (suc n) (suc j) xs h =
    ap (◌∷◌ y) (slice-store_before b zero n j xs (omega arith))
slice-store_before (y ∷ b) zero (suc n) zero xs h = absurd (omega arith)

pub slice-store_after :
    (b : List ℕ) (i n j : ℕ) (xs : List ℕ)
    → j + length xs ≤ i
    → slice (store b j xs) i n ≡ slice b i n
slice-store_after [] i n j xs h = refl
slice-store_after (y ∷ b) (suc i) n (suc j) xs h = slice-store_after b i n j xs (omega arith)
slice-store_after (y ∷ b) zero n (suc j) xs h = absurd (omega arith)
slice-store_after (y ∷ b) i n zero [] h = refl
slice-store_after (y ∷ b) (suc i) n zero (x ∷ xs) h = slice-store_after b i n zero xs (omega arith)
slice-store_after (y ∷ b) zero n zero (x ∷ xs) h = absurd (omega arith)

pub slice-store_self :
    (b : List ℕ) (j : ℕ) (xs : List ℕ)
    → j + length xs ≤ length b
    → slice (store b j xs) j (length xs) ≡ xs
slice-store_self [] j [] h = refl
slice-store_self [] j (x ∷ xs) h = absurd (omega arith)
slice-store_self (y ∷ b) (suc j) xs h = slice-store_self b j xs (omega arith)
slice-store_self (y ∷ b) zero [] h = refl
slice-store_self (y ∷ b) zero (x ∷ xs) h = ap (◌∷◌ x) (slice-store_self b zero xs (omega arith))
