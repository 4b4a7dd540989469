-- ===== src/Short/Ports.antt =====
-- short/short.c, do_short_write: what goes to the port.
use ldd.Common.{
  ℕ, ◌≡◌, ◌≢◌, refl, ap, Bool, true, false, List, [], ◌==◌, ==_iff, Bool-cases, take, inl, inr, ok,
  err, efault, einval, enomem,
}
use ldd.Common.User.{UserCopy}
use ldd.Short.{
  Mode, Done, short_mode, port_of, do_short_write, to_port, sent, short_default, short_pause,
  short_string, short_memory, other,
}

pub data Writes (u : UserCopy) (short_base minor : ℕ) (mode : Mode) (buf : List ℕ) (count : ℕ)
    (mem_ok : Bool) (r : Done) : Type 0 where
  written :
      mode ≢ other
      → (u.from_user buf count).0 ≡ 0
      → r.ret ≡ ok count
      → r.outputs ≡ to_port (port_of short_base minor) (take count buf)
      → r.leaked ≡ 0
      → Writes u short_base minor mode buf count mem_ok r
  unknown :
      mode ≡ other
      → r.ret ≡ err einval
      → r.outputs ≡ []
      → r.leaked ≡ 0
      → Writes u short_base minor mode buf count mem_ok r
  faulted :
      (u.from_user buf count).0 ≢ 0
      → r.ret ≡ err efault
      → r.outputs ≡ []
      → r.leaked ≡ 1
      → Writes u short_base minor mode buf count mem_ok r
  no_memory :
      mem_ok ≡ false
      → r.ret ≡ err enomem
      → r.outputs ≡ []
      → r.leaked ≡ 0
      → Writes u short_base minor mode buf count mem_ok r

module _ (u : UserCopy) (short_base : ℕ) (use_mem : Bool) (minor : ℕ) (buf : List ℕ)
    (count : ℕ) where
  -- Each of the four modes sends the first `count` bytes of the buffer, in their order, to the minor's
  -- port, and gives its memory back; an unknown mode sends nothing and answers EINVAL, a lack of
  -- memory ENOMEM. A copy that fails sends nothing and answers EFAULT, and leaves the memory taken.
  pub do_short_write-Writes :
      (mem_ok : Bool)
      → Writes u short_base minor
          (short_mode use_mem minor)
          buf
          count
          mem_ok
          (do_short_write u short_base use_mem minor buf count mem_ok)
  unfolding do_short_write
  do_short_write-Writes false = no_memory refl refl refl refl
  do_short_write-Writes true = elim (Bool-cases ((u.from_user buf count).0 == 0)) [
    | inr e ↦
        simp e
          (faulted (λ z. let one = (==_iff (u.from_user buf count).0 0).1 z in cc) refl refl refl)
    | inl e ↦
        let z = (==_iff (u.from_user buf count).0 0).0 e in
        let all =
          ap (λ (l : List ℕ). to_port (port_of short_base minor) l)
            (u.from_user_done buf count z) in
        simp e (by_mode (short_mode use_mem minor) z all)
  ]
    where
      by_mode :
          (m : Mode)
          → (u.from_user buf count).0 ≡ 0
          → to_port (port_of short_base minor) (u.from_user buf count).1
            ≡ to_port (port_of short_base minor) (take count buf)
          → Writes u short_base minor m buf count true (sent u short_base minor buf count m)
      by_mode short_default z all = written (λ k. cc) z refl all refl
      by_mode short_pause z all = written (λ k. cc) z refl all refl
      by_mode short_string z all = written (λ k. cc) z refl all refl
      by_mode short_memory z all = written (λ k. cc) z refl all refl
      by_mode other z all = unknown refl refl refl refl
