-- ===== src/Scullp/Calls.antt =====
-- scullp/main.c: opening and closing a device, and seeking in it.
use ldd.Common.{
  ℕ, zero, suc, ◌%◌, ◌≤◌, ◌<◌, ◌≡◌, refl, sym, subst, Bool, Option, none, some, List, [], arith,
  ◌⊎◌, inl, inr, ◌==◌, if◌then◌else◌, Ret, ok, err, einval, erestartsys, ℤ, pos, negsuc, ◌+ℤ◌,
  ltb_ℤ, pos_part, Bool-cases,
}
use ldd.Scullp.{Dev, unlock}
use ldd.Scullp.Trim.{Freed, scullp_trim, scullp_trim-Trims, trimmed, busy}
use ldd.Scullp.Valid.{IsValid, settled-IsValid}

-- `(flags & O_ACCMODE) == O_WRONLY`.
abbrev pub write_only : ℕ → Bool
write_only f_flags = (f_flags % 4) == 1

unfoldable pub scullp_open : Dev → ℕ → Bool → ℕ → ℕ → Ret × List Freed × Dev
scullp_open d f_flags interrupted scullp_qset scullp_order =
    let (ret, freed, e) = scullp_trim d scullp_qset scullp_order in
    if write_only f_flags
    then (if interrupted then (err erestartsys, [], d) else (ok 0, freed, unlock e))
    else (ok 0, [], d)

pub scullp_release : Dev → Ret × Dev
scullp_release d = (ok 0, d)

-- `newpos`, by `whence`; `none` for a `whence` there is not.
abbrev pub new_position : Dev → ℕ → ℤ → ℕ → Option ℤ
new_position d f_pos off zero = some off
new_position d f_pos off (suc zero) = some (pos f_pos +ℤ off)
new_position d f_pos off (suc (suc zero)) = some (pos d.size +ℤ off)
new_position d f_pos off (suc (suc (suc n))) = none

-- The return value and the file's position.
unfoldable pub scullp_llseek : Dev → ℕ → ℤ → ℕ → Ret × ℕ
scullp_llseek d f_pos off whence = elim (new_position d f_pos off whence) [
  | none ↦ (err einval, f_pos)
  | some newpos ↦
      if ltb_ℤ newpos (pos 0) then (err einval, f_pos) else (ok (pos_part newpos), pos_part newpos)
]

-- Where a seek starts from.
abbrev pub base_of : Dev → ℕ → ℕ → ℕ
base_of d f_pos zero = 0
base_of d f_pos (suc zero) = f_pos
base_of d f_pos (suc (suc n)) = d.size

pub data Seeks (d : Dev) (f_pos : ℕ) (off : ℤ) (whence : ℕ) (r : Ret × ℕ) : Type 0 where
  moved :
      (n : ℕ)
      → whence < 3
      → pos (base_of d f_pos whence) +ℤ off ≡ pos n
      → r ≡ (ok n, n)
      → Seeks d f_pos off whence r
  refused :
      (3 ≤ whence) ⊎ ((n : ℕ) × (pos (base_of d f_pos whence) +ℤ off ≡ negsuc n))
      → r ≡ (err einval, f_pos)
      → Seeks d f_pos off whence r

ℤ-cases : (z : ℤ) → ((n : ℕ) × (z ≡ pos n)) ⊎ ((n : ℕ) × (z ≡ negsuc n))
ℤ-cases (pos n) = inl (n, refl)
ℤ-cases (negsuc n) = inr (n, refl)

pos-zero-add : (z : ℤ) → pos 0 +ℤ z ≡ z
pos-zero-add (pos n) = ground arith
pos-zero-add (negsuc n) = ground arith

-- A seek moves the file to the start, the position or the end plus the offset, and returns the new
-- position; where that is negative, or at another `whence`, it answers EINVAL and the file stays.
pub scullp_llseek-Seeks :
    (d : Dev) (f_pos : ℕ) (off : ℤ) (whence : ℕ)
    → Seeks d f_pos off whence (scullp_llseek d f_pos off whence)
unfolding scullp_llseek
scullp_llseek-Seeks d f_pos (pos n) zero =
    moved n (omega arith) (pos-zero-add (pos n)) (ground arith)
scullp_llseek-Seeks d f_pos (negsuc n) zero =
    refused (inr (n, pos-zero-add (negsuc n))) (ground arith)
scullp_llseek-Seeks d f_pos off (suc zero) = elim (ℤ-cases (pos f_pos +ℤ off)) [
  | inl (n, e) ↦ moved n (omega arith) e (rw (e, scullp_llseek) (ground arith))
  | inr (n, e) ↦ refused (inr (n, e)) (rw (e, scullp_llseek) (ground arith))
]
scullp_llseek-Seeks d f_pos off (suc (suc zero)) = elim (ℤ-cases (pos d.size +ℤ off)) [
  | inl (n, e) ↦ moved n (omega arith) e (rw (e, scullp_llseek) (ground arith))
  | inr (n, e) ↦ refused (inr (n, e)) (rw (e, scullp_llseek) (ground arith))
]
scullp_llseek-Seeks d f_pos off (suc (suc (suc n))) = refused (inl (omega arith)) refl

-- Opening a valid device leaves it valid; unless it is opened for writing only, it stays as it is.
pub scullp_open-IsValid :
    (page_size : ℕ) (d : Dev) (f_flags : ℕ) (interrupted : Bool) (qset order : ℕ)
    → 0 < qset
    → IsValid page_size d
    → IsValid page_size (scullp_open d f_flags interrupted qset order).2
unfolding scullp_open
scullp_open-IsValid page_size d f_flags interrupted qset order h v =
    elim (Bool-cases (write_only f_flags)) [
      | inr e ↦ simp e v
      | inl e ↦ elim (Bool-cases interrupted) [
        | inl k ↦ simp (e, k) v
        | inr k ↦
            simp (e, k)
              (elim (scullp_trim-Trims page_size d qset order h v) [
                | trimmed free ret all none_left no_quantum size q o valid ↦
                    settled-IsValid page_size _ valid
                | busy mapped ret none_freed same ↦
                    settled-IsValid page_size _ (subst (IsValid page_size) (sym same) v)
              ])
      ]
    ]
