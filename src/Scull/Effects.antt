-- ===== src/Scull/Effects.antt =====
-- scull_char_device/main.c: how a write ends, and what keeps a device valid.
use ldd.Common.{
  ◌==◌, ltb, false, ◌≤◌, ◌<◌, length, arith, ℕ, ◌+◌, ◌-◌, ◌<◌, ◌≡◌, refl, sym, ap, ◌∙◌, Option,
  none, some, List, min, ltb, if◌then◌else◌, get_or, get_elem?, inl, Errno, ok, err,
}
use ldd.Scull.{Dev, Done, Quantum, QSet, set_at, unlock, q_pos_of}
use ldd.Scull.Bytes.{quantum_in, block_at, byte_at, IsValid, byte_at-same}
use ldd.Scull.Changes.{Kept}

-- How many bytes a write takes: those up to the end of the quantum.
abbrev pub span : Dev → ℕ → ℕ → ℕ
span d pos count = min count (d.quantum - q_pos_of d pos)

-- How a write ends: with its bytes in place, or with an error. In both cases every byte outside of
-- the span is kept.
pub data Writes (d : Dev) (pos : ℕ) (buf : List ℕ) (count : ℕ) (fresh : Quantum) (r : Done)
    : Type 0 where
  wrote :
      r.ret ≡ ok (span d pos count)
      → span d pos count ≤ length buf
      → r.f_pos ≡ pos + span d pos count
      → r.dev.size ≡ (if ltb d.size r.f_pos then r.f_pos else d.size)
      → ((k : ℕ) → k < span d pos count → byte_at r.dev (pos + k) ≡ get_elem? buf k)
      → Kept d fresh pos (span d pos count) r.dev
      → Writes d pos buf count fresh r
  failed :
      (e : Errno)
      → r.ret ≡ err e
      → r.f_pos ≡ pos
      → r.dev.size ≡ d.size
      → Kept d fresh pos (span d pos count) r.dev
      → Writes d pos buf count fresh r

-- The call does not fault, and leaves a valid device with the sizes it had.
pub record Good (d : Dev) (pos : ℕ) (buf : List ℕ) (count : ℕ) (fresh : Quantum) (o : Option Done)
    : Type 0 where
  pub result : Done
  pub returns : o ≡ some result
  pub effect : Writes d pos buf count fresh result
  pub valid : IsValid result.dev
  pub quantum : result.dev.quantum ≡ d.quantum
  pub qset : result.dev.qset ≡ d.qset

-- A device with other sets and the same blocks keeps all its bytes.
pub same-Kept :
    (fresh : Quantum) (pos : ℕ) (d : Dev) (sets : List QSet) (n : ℕ)
    → ((i s : ℕ) → quantum_in (get_or sets i none) s ≡ block_at d i s)
    → Kept d fresh pos n (unlock (record d { sets = sets }))
same-Kept fresh pos d sets n same p away = inl (
    byte_at-same d (unlock (record d { sets = sets }))
      (record { quantum = refl; qset = refl; size = refl; blocks = same }) p)

pub unlock-IsValid : (d : Dev) → IsValid d → IsValid (unlock d)
unlock-IsValid d v = record {
  quantum_pos = v.quantum_pos;
  qset_pos = v.qset_pos;
  array_fits = v.array_fits;
  block_fits = v.block_fits;
  free = refl;
}

-- Appending items without arrays keeps a device valid.
pub grown-IsValid :
    (d : Dev) (sets : List QSet)
    → ((i : ℕ) → get_or sets i none ≡ set_at d i)
    → IsValid d
    → IsValid (record d { sets = sets })
grown-IsValid d sets same v = record {
  quantum_pos = v.quantum_pos;
  qset_pos = v.qset_pos;
  array_fits = λ i qs e. v.array_fits i qs (sym (same i) ∙ e);
  block_fits = λ i s b e. v.block_fits i s b (ap (λ (x : QSet). quantum_in x s) (sym (same i)) ∙ e);
  free = v.free;
}

pub not_zero : (n : ℕ) → 0 < n → (n == 0) ≡ false
not_zero n h = ground arith

pub not_over : (a b : ℕ) → b ≤ a → ltb a b ≡ false
not_over a b h = ground arith
