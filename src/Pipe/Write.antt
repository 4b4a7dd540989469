-- ===== src/Pipe/Write.antt =====
-- scull/pipe.c, scull_p_write after scull_getwritespace: which bytes are taken, and where they go.
use ldd.Common.{
  ℕ, ◌+◌, ◌-◌, ◌≤◌, ◌<◌, ◌≡◌, false, List, ◌++◌, none, some, length, arith, leb, ◌==◌, slice, store,
  ap, ◌∙◌, inl, inr, slice-append, append_assoc, append-nil, Bool-cases, ok, err, efault, leb→le,
  leb→lt, ==_iff, refl, slice-store_before, slice-store_after, slice-store_self, length-store, take,
  length-take, slice-zero,
}
use ldd.Common.User.{UserCopy}
use ldd.Pipe.{Pipe, Reply, returns, mem, advance, write_data, write_count, spacefree}
use ldd.Pipe.Bounds.{IsValid, write_count_bounds, spacefree-add-used}
use ldd.Pipe.Contents.{window, contents}

-- Bytes that land between the write position and the read position are not seen.
window-store :
    (b : List ℕ) (rp wp end : ℕ) (xs : List ℕ)
    → wp + length xs ≤ end
    → (wp < rp → wp + length xs ≤ rp)
    → window (store b wp xs) rp wp end ≡ window b rp wp end
window-store b rp wp end xs h k = elim (Bool-cases (leb rp wp)) [
  | inl e ↦ rw e (slice-store_before b rp (wp - rp) wp xs (omega (arith, leb→le rp wp e)))
  | inr e ↦ rw (
    e,
    slice-store_after b rp (end - rp) wp xs (k (leb→lt rp wp e)),
    slice-store_before b 0 wp wp xs (omega arith),
  )
]

module _ (b : List ℕ) (rp wp end : ℕ) (xs : List ℕ) (full : length b ≡ end) where
  -- Once the write position has moved over them, they stand at the end of the contents.
  window-write_below :
      rp ≤ wp
      → wp + length xs < end
      → window (store b wp xs) rp (advance end wp (length xs)) end ≡ window b rp wp end ++ xs
  window-write_below h k = ground (
    arith,
    slice-append (store b wp xs) rp (wp - rp) (length xs),
    slice-store_before b rp (wp - rp) wp xs,
    slice-store_self b wp xs,
    e,
    f,
  )
    where
      e : wp - rp + length xs ≡ wp + length xs - rp
      e = omega arith

      f : rp + (wp - rp) ≡ wp
      f = omega arith

  window-write_end :
      0 < rp
      → rp ≤ wp
      → wp + length xs ≡ end
      → window (store b wp xs) rp (advance end wp (length xs)) end ≡ window b rp wp end ++ xs
  window-write_end p h k = ground (
    arith,
    slice-append (store b wp xs) rp (wp - rp) (length xs),
    slice-store_before b rp (wp - rp) wp xs,
    slice-store_self b wp xs,
    slice-zero (store b wp xs) 0,
    append-nil (slice (store b wp xs) rp (end - rp)),
    e,
    f,
  )
    where
      e : wp - rp + length xs ≡ end - rp
      e = omega arith

      f : rp + (wp - rp) ≡ wp
      f = omega arith

  window-write_above :
      wp + length xs < rp
      → rp < end
      → window (store b wp xs) rp (advance end wp (length xs)) end ≡ window b rp wp end ++ xs
  window-write_above h k = ground (
    arith,
    slice-append (store b wp xs) 0 wp (length xs),
    slice-store_before b 0 wp wp xs,
    slice-store_after b rp (end - rp) wp xs,
    slice-store_self b wp xs,
    append_assoc (slice b rp (end - rp)) (slice b 0 wp) xs,
    f,
  )
    where
      f : 0 + wp ≡ wp
      f = omega arith

-- What a write that found room has done: it appended the first bytes of the caller's buffer, or
-- failed and, whatever part of the copy had landed, appended none.
pub data Appends (p : Pipe) (buf : List ℕ) (count : ℕ) (reply : Reply) (q : Pipe) : Type 0 where
  appended :
      (n : ℕ)
      → reply ≡ returns (ok n)
      → contents q ≡ contents p ++ take n buf
      → n ≤ count
      → n ≤ spacefree p
      → (0 < count → 0 < spacefree p → 0 < n)
      → length (take n buf) ≡ n
      → q.inq_wakes ≡ p.inq_wakes + 1
      → Appends p buf count reply q
  failed :
      reply ≡ returns (err efault)
      → contents q ≡ contents p
      → q.inq_wakes ≡ p.inq_wakes
      → Appends p buf count reply q

-- The device with `xs` copied to the write position.
abbrev filled : Pipe → List ℕ → Pipe
filled p xs = record p { buffer = elim p.buffer [ none ↦ none | some b ↦ some (store b p.wp xs) ] }

mem-filled : (p : Pipe) (xs : List ℕ) → mem (filled p xs) ≡ store (mem p) p.wp xs
mem-filled p xs = ground arith

module _ {p : Pipe} (count : ℕ) (v : IsValid p) (xs : List ℕ) where
  contents-filled : length xs ≤ write_count p count → contents (filled p xs) ≡ contents p
  unfolding write_count
  contents-filled h = rw (mem-filled p xs) (
      window-store (mem p) p.rp p.wp p.end xs (omega (arith, write_count_bounds count v))
        (λ k. ground arith))

  contents-moved :
      length xs ≡ write_count p count
      → contents (record (filled p xs) { wp = advance p.end p.wp (write_count p count) })
        ≡ contents p ++ xs
  unfolding write_count spacefree
  contents-moved h =
      rw (mem-filled p xs, ← h)
        (ground (
          arith,
          spacefree-add-used v,
          window-write_below (mem p) p.rp p.wp p.end xs,
          window-write_end (mem p) p.rp p.wp p.end xs,
          window-write_above (mem p) p.rp p.wp p.end xs,
        ))

module _ (u : UserCopy) {p : Pipe} (buf : List ℕ) (count : ℕ) (v : IsValid p) where
  abbrev asked : ℕ
  asked = write_count p count

  abbrev landed : List ℕ
  landed = (u.from_user buf asked).1

  landed_all :
      (u.from_user buf asked).0 ≡ 0 → (landed ≡ take asked buf) × (length (take asked buf) ≡ asked)
  landed_all e = (
    u.from_user_done buf asked e,
    omega (arith, length-take asked buf, u.from_user_short buf asked e),
  )

  pub write_data-Appends : let (reply, q) = write_data u buf count p in Appends p buf count reply q
  unfolding write_data
  write_data-Appends = elim (Bool-cases ((u.from_user buf asked).0 == 0)) [
    | inl e ↦
        let all = landed_all ((==_iff _ _).0 e) in
        rw e (
          appended asked refl
            (contents-moved count v landed (ap length all.0 ∙ all.1) ∙ ap (◌++◌ (contents p)) all.0)
            (write_count_bounds count v).0 (write_count_bounds count v).1
            (write_count_bounds count v).3 all.1 refl)
    | inr e ↦ rw e (failed refl (contents-filled count v landed (u.from_user_bound buf asked)) refl)
  ]

  pub write_data-IsValid : IsValid (write_data u buf count p).1
  unfolding write_data
  write_data-IsValid =
      ground
        (arith, write_count_bounds count v, mem-filled p landed, length-store (mem p) p.wp landed)

pub write_data-unlocked :
    (u : UserCopy) (p : Pipe) (buf : List ℕ) (count : ℕ)
    → (write_data u buf count p).1.locked ≡ false
unfolding write_data
write_data-unlocked u p buf count = ground arith
