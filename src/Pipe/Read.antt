-- ===== src/Pipe/Read.antt =====
-- scull/pipe.c, scull_p_read after its loop: which bytes are delivered, and what is left.
use ldd.Common.{
  ℕ, ◌+◌, ◌-◌, ◌≤◌, ◌<◌, ◌≡◌, ◌≢◌, false, List, ◌++◌, length, arith, ◌==◌, slice, length-slice, sym,
  ap, inl, inr, slice-append, append_assoc, Bool-cases, ok, err, efault, ==_iff, refl,
}
use ldd.Common.User.{UserCopy}
use ldd.Pipe.{Pipe, Reply, returns, mem, advance, read_data, read_count}
use ldd.Pipe.Bounds.{IsValid, read_count_bounds}
use ldd.Pipe.Contents.{window, contents}

module _ (b : List ℕ) (rp wp end n : ℕ) where
  window-read_below :
      rp < wp
      → wp < end
      → n ≤ wp - rp
      → slice b rp n ++ window b (advance end rp n) wp end ≡ window b rp wp end
  window-read_below h k l = ground (arith, slice-append b rp n (wp - (rp + n)), e)
    where
      e : n + (wp - (rp + n)) ≡ wp - rp
      e = omega arith

  window-read_above :
      wp < rp
      → rp + n < end
      → slice b rp n ++ window b (advance end rp n) wp end ≡ window b rp wp end
  window-read_above h k = ground (
    arith,
    slice-append b rp n (end - (rp + n)),
    append_assoc (slice b rp n) (slice b (rp + n) (end - (rp + n))) (slice b 0 wp),
    e,
  )
    where
      e : n + (end - (rp + n)) ≡ end - rp
      e = omega arith

  window-read_end :
      wp < rp
      → rp + n ≡ end
      → slice b rp n ++ window b (advance end rp n) wp end ≡ window b rp wp end
  window-read_end h k = ground (arith, e, z)
    where
      e : n ≡ end - rp
      e = omega arith

      z : wp - 0 ≡ wp
      z = omega arith

pub window-read :
    {p : Pipe} (count : ℕ)
    → IsValid p
    → p.rp ≢ p.wp
    → let n = read_count p count in
      slice (mem p) p.rp n ++ window (mem p) (advance p.end p.rp n) p.wp p.end ≡ contents p
window-read {p} count v ne = ground (
  arith,
  read_count_bounds count v ne,
  window-read_below (mem p) p.rp p.wp p.end (read_count p count),
  window-read_above (mem p) p.rp p.wp p.end (read_count p count),
  window-read_end (mem p) p.rp p.wp p.end (read_count p count),
)

-- What a read that found data has done: it hands over the oldest bytes, or fails and takes none.
pub data TakesOldest (p : Pipe) (count : ℕ) (reply : Reply) (bytes : List ℕ) (q : Pipe)
    : Type 0 where
  taken :
      reply ≡ returns (ok (length bytes))
      → bytes ++ contents q ≡ contents p
      → length bytes ≤ count
      → (0 < count → 0 < length bytes)
      → q.outq_wakes ≡ p.outq_wakes + 1
      → TakesOldest p count reply bytes q
  failed :
      reply ≡ returns (err efault)
      → contents q ≡ contents p
      → q.outq_wakes ≡ p.outq_wakes
      → TakesOldest p count reply bytes q

module _ (u : UserCopy) {p : Pipe} (count : ℕ) (v : IsValid p) (ne : p.rp ≢ p.wp) where
  -- The bytes that a read asks `copy_to_user` for.
  abbrev piece : List ℕ
  piece = slice (mem p) p.rp (read_count p count)

  length-piece : length piece ≡ read_count p count
  length-piece =
      omega (arith, length-slice (mem p) p.rp (read_count p count), read_count_bounds count v ne)

  pub read_data-TakesOldest :
      let (reply, bytes, q) = read_data u count p in TakesOldest p count reply bytes q
  unfolding read_data
  read_data-TakesOldest = elim (Bool-cases ((u.to_user piece).0 == 0)) [
    | inl e ↦
        let all : (u.to_user piece).1 ≡ piece = u.to_user_done piece ((==_iff _ _).0 e) in
        rw (e, all)
          (taken (ap (λ n. returns (ok n)) (sym length-piece)) (window-read count v ne)
            (omega (arith, length-piece, read_count_bounds count v ne))
            (λ h. omega (arith, length-piece, (read_count_bounds count v ne).3 h)) refl)
    | inr e ↦ rw e (failed refl refl refl)
  ]

  pub read_data-IsValid : IsValid (read_data u count p).2
  unfolding read_data
  read_data-IsValid = ground (arith, read_count_bounds count v ne)

-- Both ways out leave the mutex free.
pub read_data-unlocked :
    (u : UserCopy) (p : Pipe) (count : ℕ) → (read_data u count p).2.locked ≡ false
unfolding read_data
read_data-unlocked u p count = ground arith
