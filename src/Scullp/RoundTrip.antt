-- ===== src/Scullp/RoundTrip.antt =====
-- scullp/main.c: a read of what a write has just stored.
use ldd.Common.{
  ℕ, ◌+◌, ◌≤◌, ◌<◌, ◌≡◌, ◌∙◌, subst, Bool, false, some, List, arith, length, take, slice, ok,
  length-take, slice-store_after,
}
use ldd.Common.User.{UserCopy}
use ldd.Scullp.{Dev, Done, clip, scullp_write, scullp_read}
use ldd.Scullp.Valid.{IsValid}
use ldd.Scullp.Locate.{SameShape, item_of_pos, s_pos_of, q_pos_of}
use ldd.Scullp.Stores.{Base}
use ldd.Scullp.WriteAt.{Fits, scullp_write-Good}
use ldd.Scullp.Read.{WholeQuantum}
use ldd.Scullp.ReadBack.{clip-le, Stored, Stores-Stored, read-Stored}

module _ (page_size : ℕ) where
  module _ (u : UserCopy) (d : Dev) (f_pos : ℕ) (buf : List ℕ) (count avail : ℕ)
      (array_ok pages_ok : Bool) where
    abbrev Wrote : ℕ → Done → Type 0
    Wrote n r =
        (shape : SameShape d r.dev) × IsValid page_size r.dev
        × Stored page_size d f_pos buf n count r shape

    written :
        0 < page_size
        → IsValid page_size d
        → Fits page_size d f_pos count avail
        → (n : ℕ) (r : Done)
        → scullp_write page_size u d f_pos buf count false avail array_ok pages_ok ≡ some r
        → r.ret ≡ ok n
        → Wrote n r
    written h v fits n r wrote ret =
        let g =
          scullp_write-Good page_size d u f_pos buf count false avail array_ok pages_ok h v fits in
        let same : g.result ≡ r = cc (g.returns, wrote) in
        subst (λ x. x.ret ≡ ok n → Wrote n x) same
          (λ k. (
            g.shape,
            g.valid,
            Stores-Stored page_size d f_pos buf n count g.result g.shape k g.effect,
          ))
          ret

    -- At a position whose offset lies behind the bytes stored, which is so at every position that is
    -- far enough into the first quantum, the read does not return what the write stored: it returns
    -- the bytes that the block held before the write, the zeros of a new block included.
    pub scullp_read-write_misplaced :
        0 < page_size
        → IsValid page_size d
        → Fits page_size d f_pos count avail
        → WholeQuantum d (item_of_pos page_size d f_pos)
        → s_pos_of page_size d f_pos + count ≤ q_pos_of page_size d f_pos
        → (n : ℕ) (r : Done)
        → scullp_write page_size u d f_pos buf count false avail array_ok pages_ok ≡ some r
        → r.ret ≡ ok n
        → (avail' : ℕ) → item_of_pos page_size d f_pos ≤ length r.dev.next + avail'
        → ((xs : List ℕ) → (u.to_user xs).0 ≡ 0)
        → (b : List ℕ) × (s : Done) × Base page_size d
            (item_of_pos page_size d f_pos)
            (s_pos_of page_size d f_pos)
            b
          × (scullp_read page_size u r.dev f_pos n false avail' ≡ some s)
          × (s.bytes
              ≡ slice b
                  (q_pos_of page_size d f_pos)
                  (clip page_size d (q_pos_of page_size d f_pos) n))
    scullp_read-write_misplaced h v fits whole apart n r wrote ret avail' memory copied =
        let (shape, v', w) = written h v fits n r wrote ret in
        let s = s_pos_of page_size d f_pos in
        let q = q_pos_of page_size d f_pos in
        let behind : s + length (take n buf) ≤ q =
          omega (arith, w.count_is, clip-le page_size d s count, length-take n buf) in
        let (x, e, ret', bytes) =
          read-Stored page_size d f_pos buf n count r shape u w avail' h v' memory whole
            (copied _) in
        (w.block, x, w.base, e, bytes ∙ slice-store_after w.block q _ s (take n buf) behind)
