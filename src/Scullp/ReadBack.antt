-- ===== src/Scullp/ReadBack.antt =====
-- scullp/main.c: a read at a position where a write has left a block.
use ldd.Common.{
  ℕ, ◌+◌, ◌-◌, ◌≤◌, ◌<◌, ◌≡◌, sym, ap, ◌∙◌, subst, false, some, List, arith, length, take, slice,
  store, inl, inr, ltb, if◌then◌else◌, ok, length-take,
}
use ldd.Common.User.{UserCopy}
use ldd.Scullp.{Dev, Done, clip, scullp_read}
use ldd.Scullp.Follow.{quantum_at}
use ldd.Scullp.Valid.{IsValid}
use ldd.Scullp.Locate.{SameShape, item_of_pos, s_pos_of, q_pos_of}
use ldd.Scullp.Stores.{Base, Stores}
use ldd.Scullp.Read.{fetched_count, Fetches, WholeQuantum, scullp_read-ReadGood}

module _ (page_size : ℕ) where
  pub clip-le : (d : Dev) (q count : ℕ) → clip page_size d q count ≤ count
  clip-le d q count = ground arith

  pub clip-clip :
      (d : Dev) (q count : ℕ)
      → clip page_size d q (clip page_size d q count) ≡ clip page_size d q count
  clip-clip d q count = ground arith

  -- A read that finds a block at its position, with all its bytes inside the device's size.
  read-block :
      (u : UserCopy) (e : Dev) (f_pos n avail : ℕ) (b : List ℕ)
      → 0 < page_size
      → IsValid page_size e
      → item_of_pos page_size e f_pos ≤ length e.next + avail
      → WholeQuantum e (item_of_pos page_size e f_pos)
      → f_pos + n ≤ e.size
      → quantum_at e (item_of_pos page_size e f_pos) (s_pos_of page_size e f_pos) ≡ some b
      → let q = q_pos_of page_size e f_pos in
        let m = clip page_size e q n in
        (u.to_user (slice b q m)).0 ≡ 0
        → (r : Done) × (scullp_read page_size u e f_pos n false avail ≡ some r)
          × (r.ret ≡ ok m)
          × (r.bytes ≡ slice b q m)
  read-block u e f_pos n avail b h v memory w size here copied =
      let g = scullp_read-ReadGood page_size u e f_pos n false avail h v memory w in
      let q = q_pos_of page_size e f_pos in
      let all : (if ltb e.size (f_pos + n) then e.size - f_pos else n) ≡ n = ground arith in
      let m : fetched_count page_size u e f_pos n false ≡ clip page_size e q n =
        ap (clip page_size e q) all in
      let r = g.result in
      elim g.effect [
        | Fetches.fetched c inside k ret bytes at ↦
            let same : b ≡ c = cc in
            (
              r,
              g.returns,
              ret ∙ ap (λ k. ok k) m,
              bytes
                  ∙ ap (λ x. slice x q (fetched_count page_size u e f_pos n false)) (sym same)
                  ∙ ap (slice b q) m,
            )
        | Fetches.nothing (inl over) ret bytes at ↦ absurd (omega arith)
        | Fetches.nothing (inr hole) ret bytes at ↦ let no_block = sym here ∙ hole in cc
        | Fetches.faulted c k bad ret at ↦
            let same : b ≡ c = cc in
            absurd (
              bad (
                ap (λ x. (u.to_user (slice x q (fetched_count page_size u e f_pos n false))).0)
                  (sym same)
                ∙ ap (λ k. (u.to_user (slice b q k)).0) m
                ∙ copied))
        | Fetches.stopped t ret at ↦ cc
      ]

  module _ (d : Dev) (f_pos : ℕ) (buf : List ℕ) (n count : ℕ) (r : Done)
      (shape : SameShape d r.dev) where
    abbrev item : ℕ
    item = item_of_pos page_size d f_pos

    abbrev s_pos : ℕ
    s_pos = s_pos_of page_size d f_pos

    abbrev q_pos : ℕ
    q_pos = q_pos_of page_size d f_pos

    same_item : item_of_pos page_size r.dev f_pos ≡ item
    same_item = simp (shape.0, shape.1)

    same_s_pos : s_pos_of page_size r.dev f_pos ≡ s_pos
    same_s_pos = simp (shape.0, shape.1)

    same_q_pos : q_pos_of page_size r.dev f_pos ≡ q_pos
    same_q_pos = simp (shape.0, shape.1)

    same_clip : (q k : ℕ) → clip page_size r.dev q k ≡ clip page_size d q k
    same_clip q k = simp (shape.0)

    -- A write that stored `n` bytes left a block at its position, which has them at offset `s_pos`,
    -- and a size that covers them.
    pub record Stored : Type 0 where
      pub block : List ℕ
      pub base : Base page_size d item s_pos block
      pub count_is : n ≡ clip page_size d s_pos count
      pub covered : f_pos + n ≤ r.dev.size
      pub here : quantum_at r.dev item s_pos ≡ some (store block s_pos (take n buf))

    pub Stores-Stored :
        r.ret ≡ ok n → Stores page_size d f_pos buf count item s_pos s_pos r → Stored
    Stores-Stored ret (Stores.stored b base ret' at size hit rest) =
        let same : ok n ≡ ok (clip page_size d s_pos count) = sym ret ∙ ret' in
        let k : n ≡ clip page_size d s_pos count = cc in
        record {
          block = b;
          base = base;
          count_is = k;
          covered = ground arith;
          here = hit ∙ ap (λ k. some (store b s_pos (take k buf))) (sym k);
        }
    Stores-Stored ret (Stores.failed e ret' at size rest) = cc

    pub read-Stored :
        (u : UserCopy) (w : Stored) (avail : ℕ)
        → 0 < page_size
        → IsValid page_size r.dev
        → item ≤ length r.dev.next + avail
        → WholeQuantum d item
        → let b = store w.block s_pos (take n buf) in
          let m = clip page_size d q_pos n in
          (u.to_user (slice b q_pos m)).0 ≡ 0
          → (s : Done) × (scullp_read page_size u r.dev f_pos n false avail ≡ some s)
            × (s.ret ≡ ok m)
            × (s.bytes ≡ slice b q_pos m)
    read-Stored u w avail h v memory whole copied =
        let b = store w.block s_pos (take n buf) in
        let whole' : WholeQuantum r.dev item = elim whole [
          | inl e ↦ inl e
          | inr e ↦ inr (shape.0 ∙ e)
        ] in
        let here : quantum_at r.dev (item_of_pos page_size r.dev f_pos)
              (s_pos_of page_size r.dev f_pos)
            ≡ some b =
          rw (same_item, same_s_pos) w.here in
        let c : clip page_size r.dev (q_pos_of page_size r.dev f_pos) n ≡ clip page_size d q_pos n =
          ap (λ q. clip page_size r.dev q n) same_q_pos ∙ same_clip q_pos n in
        let cut : slice b (q_pos_of page_size r.dev f_pos)
              (clip page_size r.dev (q_pos_of page_size r.dev f_pos) n)
            ≡ slice b q_pos (clip page_size d q_pos n) =
          ap (λ q. slice b q (clip page_size r.dev (q_pos_of page_size r.dev f_pos) n)) same_q_pos
          ∙ ap (slice b q_pos) c in
        let (s, e, ret', bytes) =
          read-block u r.dev f_pos n avail b h v
            (subst (λ i. i ≤ length r.dev.next + avail) (sym same_item) memory)
            (subst (WholeQuantum r.dev) (sym same_item) whole') w.covered here
            (ap (λ x. (u.to_user x).0) cut ∙ copied) in
        (s, e, ret' ∙ ap (λ k. ok k) c, bytes ∙ cut)

    pub take-count : count ≤ length buf → Stored → length (take n buf) ≡ n
    take-count small w =
        let k = w.count_is in let le = clip-le d s_pos count in omega (arith, length-take n buf)
