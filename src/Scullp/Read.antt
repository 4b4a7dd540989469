-- ===== src/Scullp/Read.antt =====
-- scullp/main.c, scullp_read: what it returns.
use ldd.Common.{
  ℕ, zero, suc, ◌+◌, ◌-◌, ◌≤◌, ◌<◌, ◌≡◌, ◌≢◌, refl, sym, ap, ◌∙◌, Bool, true, false, Option, none,
  some, List, [], arith, length, slice, ◌⊎◌, inl, inr, ltb, if◌then◌else◌, ok, err, erestartsys,
  efault, Bool-cases, ==_iff, ◌==◌, ltb→lt, ltb→le,
}
use ldd.Common.User.{UserCopy}
use ldd.Scullp.{
  Dev, Done, Quantum, get_item, get_quantum, pages, quantum, clip, scullp_read, read_quantum,
}
use ldd.Scullp.Follow.{
  quantum_at, FollowedDev, get_item-followed, scullp_follow-FollowedDev, scullp_follow_total,
}
use ldd.Scullp.Locate.{SameShape}
use ldd.Scullp.Valid.{IsValid, followed-IsValid, settled-IsValid}
use ldd.Scullp.Locate.{item_of_pos, s_pos_of, q_pos_of, q_pos-lt}

module _ (page_size : ℕ) (u : UserCopy) (d : Dev) (f_pos count : ℕ) (interrupted : Bool) where
  -- `count`, cut at the size of the device, then at the end of the quantum.
  abbrev pub wanted : ℕ
  wanted = if ltb d.size (f_pos + count) then d.size - f_pos else count

  abbrev pub fetched_count : ℕ
  fetched_count = clip page_size d (q_pos_of page_size d f_pos) wanted

  abbrev here : Quantum
  here = quantum_at d (item_of_pos page_size d f_pos) (s_pos_of page_size d f_pos)

  -- How a read ends: with the bytes at its position; with nothing, behind the end or at a hole;
  -- with EFAULT when the copy fails; or with ERESTARTSYS when it is interrupted.
  pub data Fetches (r : Done) : Type 0 where
    fetched :
        (b : List ℕ)
        → f_pos ≤ d.size
        → here ≡ some b
        → r.ret ≡ ok fetched_count
        → r.bytes ≡ slice b (q_pos_of page_size d f_pos) fetched_count
        → r.f_pos ≡ f_pos + fetched_count
        → Fetches r
    nothing :
        (d.size < f_pos) ⊎ (here ≡ none) → r.ret ≡ ok 0 → r.bytes ≡ [] → r.f_pos ≡ f_pos → Fetches r
    faulted :
        (b : List ℕ)
        → here ≡ some b
        → (u.to_user (slice b (q_pos_of page_size d f_pos) fetched_count)).0 ≢ 0
        → r.ret ≡ err efault
        → r.f_pos ≡ f_pos
        → Fetches r
    stopped : interrupted ≡ true → r.ret ≡ err erestartsys → r.f_pos ≡ f_pos → Fetches r

  -- No byte of the device changes in a read, and its size does not.
  pub record ReadGood (o : Option Done) : Type 0 where
    pub result : Done
    pub returns : o ≡ some result
    pub effect : Fetches result
    pub same : (i t : ℕ) → quantum_at result.dev i t ≡ quantum_at d i t
    pub same_size : result.dev.size ≡ d.size
    pub valid : IsValid page_size result.dev
    pub shape : SameShape d result.dev

  module _ (n : ℕ) (e : Dev) (f : FollowedDev d n e) (v : IsValid page_size e)
      (h : f_pos ≤ d.size) where
    same_at : (i t : ℕ) → quantum_at e i t ≡ quantum_at d i t
    same_at i t = ap (λ x. get_quantum x.quanta t) (get_item-followed d n e f i)

    shape : SameShape d e
    shape = (ap (λ x. x.first.order) f.grown, ap (λ x. x.qset) f.grown)

    read_quantum-ReadGood :
        (q : Quantum)
        → here ≡ q
        → ((b : List ℕ) → q ≡ some b → q_pos_of page_size d f_pos + fetched_count ≤ length b)
        → ReadGood (read_quantum page_size u e f_pos wanted (q_pos_of page_size d f_pos) q)
    unfolding read_quantum
    read_quantum-ReadGood none k fit = record {
      result = _;
      returns = refl;
      effect = nothing (inr k) refl refl refl;
      same = same_at;
      same_size = ap (λ x. x.size) f.grown;
      valid = settled-IsValid page_size e.size v;
      shape = shape;
    }
    read_quantum-ReadGood (some b) k fit =
        let q = q_pos_of page_size d f_pos in
        let m = clip page_size e q wanted in
        let c : m ≡ fetched_count = ap (λ x. clip page_size x q wanted) f.grown in
        let inside : q + m ≤ length b = omega (arith, fit b refl) in
        let settled = settled-IsValid page_size e.size v in
        let size : e.size ≡ d.size = ap (λ x. x.size) f.grown in
        elim (Bool-cases (ltb (length b) (q + m))) [
          | inl over ↦ absurd (omega (arith, ltb→lt _ _ over))
          | inr fits ↦ elim (Bool-cases ((u.to_user (slice b q m)).0 == 0)) [
            | inl z ↦
                simp (fits, z)
                  (record {
                    result = _;
                    returns = refl;
                    effect =
                        fetched b h k (ap (λ k. ok k) c)
                          (u.to_user_done _ ((==_iff _ _).0 z) ∙ ap (slice b q) c)
                          (ap (λ k. f_pos + k) c);
                    same = same_at;
                    same_size = size;
                    valid = settled;
                    shape = shape;
                  })
            | inr z ↦
                simp (fits, z)
                  (record {
                    result = _;
                    returns = refl;
                    effect =
                        faulted b k
                          (λ z0.
                            let one =
                              (==_iff _ 0).1 (ap (λ k. (u.to_user (slice b q k)).0) c ∙ z0) in
                            cc)
                          refl refl;
                    same = same_at;
                    same_size = size;
                    valid = settled;
                    shape = shape;
                  })
          ]
        ]

-- The block of an item holds a whole quantum: that of the first item always does, and the others'
-- do at order 0.
abbrev pub WholeQuantum : Dev → ℕ → Type 0
WholeQuantum d item = (item ≡ 0) ⊎ (d.first.order ≡ 0)

module _ (page_size : ℕ) where
  pub whole_pages :
      (d : Dev) (item : ℕ)
      → IsValid page_size d
      → WholeQuantum d item
      → pages page_size (get_item d item).order ≡ quantum page_size d
  whole_pages d zero v w = refl
  whole_pages d (suc i) v (inl e) = absurd (omega arith)
  whole_pages d (suc i) v (inr e) = ap (pages page_size) (v.order_behind i ∙ sym e)

  pub clip_in :
      (d : Dev) (q count : ℕ)
      → q < quantum page_size d
      → q + clip page_size d q count ≤ quantum page_size d
  clip_in d q count h = ground arith

  -- A read never faults when there is memory for the items that it adds on its way and the block is
  -- whole: it returns the bytes at its position, cut at the size of the device and at the end of the
  -- quantum, or nothing where there is no quantum or the position is beyond the size, or EFAULT when the copy fails, or
  -- ERESTARTSYS when it is interrupted; the device keeps its bytes and its size.
  pub scullp_read-ReadGood :
      (u : UserCopy) (d : Dev) (f_pos count : ℕ) (interrupted : Bool) (avail : ℕ)
      → 0 < page_size
      → IsValid page_size d
      → item_of_pos page_size d f_pos ≤ length d.next + avail
      → WholeQuantum d (item_of_pos page_size d f_pos)
      → ReadGood page_size u d f_pos count interrupted
          (scullp_read page_size u d f_pos count interrupted avail)
  unfolding scullp_read
  scullp_read-ReadGood u d f_pos count true avail h v memory w = record {
    result = _;
    returns = refl;
    effect = stopped refl refl refl;
    same = λ i t. refl;
    same_size = refl;
    valid = v;
    shape = (refl, refl);
  }
  scullp_read-ReadGood u d f_pos count false avail h v memory w =
      elim (Bool-cases (ltb d.size f_pos)) [
        | inl over ↦ simp over (record {
          result = _;
          returns = refl;
          effect = nothing (inl (ltb→lt _ _ over)) refl refl refl;
          same = λ i t. refl;
          same_size = refl;
          valid = settled-IsValid page_size d.size v;
          shape = (refl, refl);
        })
        | inr inside ↦
            let item = item_of_pos page_size d f_pos in
            let s = s_pos_of page_size d f_pos in
            let (e, k) = scullp_follow_total d item avail memory in
            let f = scullp_follow-FollowedDev d item avail e k in
            let at =
              same_at page_size u d f_pos count false item e f
                (followed-IsValid page_size d item e f v) (ltb→le _ _ inside) in
            rw (inside, k, scullp_read)
              (read_quantum-ReadGood page_size u d f_pos count false item e f
                (followed-IsValid page_size d item e f v) (ltb→le _ _ inside) (quantum_at e item s)
                (sym (at item s))
                (λ b z.
                  let size = (v.fits item).block_fits s b (sym (at item s) ∙ z) in
                  let whole = whole_pages d item v w in
                  omega (
                    arith,
                    size,
                    whole,
                    clip_in d _ (wanted page_size u d f_pos count false)
                        (q_pos-lt page_size d f_pos h),
                  )))
      ]
