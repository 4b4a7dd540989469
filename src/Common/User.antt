-- ===== src/Common/User.antt =====
-- `copy_to_user` and `copy_from_user`, as functions.c and scull_char_device/main.c document them:
-- each returns the number of bytes that could not be copied, 0 on success. They belong to the
-- kernel, so they are the fields of an interface, with the documented behaviour as its laws.
use Prim.Native.Nat.{ℕ, ◌-◌, ◌≤◌}
use mathlib.Core.Path.{◌≡◌, refl}
use mathlib.Core.List.{List}
use native.Mathlib.Omega.{arith}
use ldd.Common.Tests.{leb, if◌then◌else◌}
use ldd.Common.Lists.{length, take, length-take}

pub record UserCopy : Type 0 where
  -- The bytes left over, and the bytes that reach user space.
  pub to_user : List ℕ → ℕ × List ℕ
  -- The same for the first `n` bytes of a user buffer, with what reaches the kernel's.
  pub from_user : List ℕ → ℕ → ℕ × List ℕ
  pub to_user_done : (xs : List ℕ) → (to_user xs).0 ≡ 0 → (to_user xs).1 ≡ xs
  pub from_user_done :
      (xs : List ℕ) (n : ℕ) → (from_user xs n).0 ≡ 0 → (from_user xs n).1 ≡ take n xs
  -- Never more is written than was asked for, and a copy of `n` bytes reads `n`.
  pub from_user_bound : (xs : List ℕ) (n : ℕ) → length (from_user xs n).1 ≤ n
  pub from_user_short : (xs : List ℕ) (n : ℕ) → (from_user xs n).0 ≡ 0 → n ≤ length xs

abbrev mapped_bytes : List ℕ → ℕ → ℕ × List ℕ
mapped_bytes xs n = (if leb n (length xs) then 0 else n - length xs, take n xs)

pub mapped_bytes-bound : (xs : List ℕ) (n : ℕ) → length (mapped_bytes xs n).1 ≤ n
mapped_bytes-bound xs n = omega (arith, length-take n xs)

pub mapped_bytes-short : (xs : List ℕ) (n : ℕ) → (mapped_bytes xs n).0 ≡ 0 → n ≤ length xs
mapped_bytes-short xs n h = ground arith

-- A process whose buffers are all mapped, as a value of the interface.
abbrev pub mapped : UserCopy
mapped = record {
  to_user = λ xs. (0, xs);
  from_user = mapped_bytes;
  to_user_done = λ xs e. refl;
  from_user_done = λ xs n e. refl;
  from_user_bound = mapped_bytes-bound;
  from_user_short = mapped_bytes-short;
}
