-- ===== src/Short/Serves.antt =====
-- short/short.c: one call on the page of time stamps in front of calls that serve it.
use ldd.Common.{
  ℕ, ◌+◌, ◌*◌, ◌/◌, ◌%◌, ◌≤◌, ◌<◌, ◌≡◌, refl, sym, ap, ◌∙◌, Option, none, some, List, [], ◌++◌,
  arith, ltb, ◌==◌, Bool-cases, if◌then◌else◌, append_assoc, append-nil, ltb→le, ltb→lt, inl, inr,
  Option-cases,
}
use ldd.Common.User.{UserCopy}
use ldd.Short.{Ring, Reply, short_interrupt, short_sh_interrupt, short_i_read, stamp}
use ldd.Short.Stamps.{short_interrupt_lem}
use ldd.Short.Queue.{
  waiting, delivered, IsFilling, Queued, Took, short_interrupt-Queued, short_i_read-Took,
}

module _ (page_size : ℕ) where
  -- The calls end inside the page: what they deliver, followed by what still waits.
  pub record Serves (r : Ring) (stamps : ℕ) (text : List ℕ) (o : Option (List ℕ × Ring))
      : Type 0 where
    pub outs : List ℕ
    pub end : Ring
    pub returns : o ≡ some (outs, end)
    pub in_order : outs ++ waiting end ≡ waiting r ++ text
    pub moved : end.head ≡ r.head + 16 * stamps
    pub filling : IsFilling page_size end

  -- They end so where the stamps leave a place of the page free, and else leave the page.
  pub data ServesUntilFull (r : Ring) (stamps : ℕ) (text : List ℕ) (o : Option (List ℕ × Ring))
      : Type 0 where
    serves :
        r.head + 16 * stamps < page_size → Serves r stamps text o → ServesUntilFull r stamps text o
    overfull : page_size ≤ r.head + 16 * stamps → o ≡ none → ServesUntilFull r stamps text o

  pub nothing-Serves : (r : Ring) → IsFilling page_size r → ServesUntilFull r 0 [] (some ([], r))
  nothing-Serves r f =
      let head_in = f.aligned.head_in in
      serves (omega arith) (record {
        outs = [];
        end = r;
        returns = refl;
        in_order = sym (append-nil (waiting r));
        moved = omega arith;
        filling = f;
      })

  -- A stamp in a free place and then calls that serve.
  Queued-Serves :
      (r : Ring) (tv_sec tv_nsec stamps : ℕ) (text : List ℕ) (o : Option (List ℕ × Ring))
      {q : Option Ring} (d : Queued page_size r tv_sec tv_nsec q)
      → ServesUntilFull d.result stamps text o
      → ServesUntilFull r (1 + stamps) (stamp tv_sec tv_nsec ++ text) o
  Queued-Serves r tv_sec tv_nsec stamps text o d (overfull full e) =
      let moved = d.moved in overfull (omega arith) e
  Queued-Serves r tv_sec tv_nsec stamps text o d (serves room v) =
      let moved = d.moved in
      let on = v.moved in
      serves (omega arith) (record {
        outs = v.outs;
        end = v.end;
        returns = v.returns;
        in_order =
            v.in_order
            ∙ ap (λ xs. xs ++ text) d.joined
            ∙ append_assoc (waiting r) (stamp tv_sec tv_nsec) text;
        moved = omega arith;
        filling = v.filling;
      })

  -- A stamp and then calls that serve.
  pub stamp-Serves :
      (r : Ring) (tv_sec tv_nsec stamps : ℕ) (text : List ℕ) (rest : Ring → Option (List ℕ × Ring))
      → IsFilling page_size r
      → tv_nsec < 1000000000
      → ((s : Ring) → IsFilling page_size s → ServesUntilFull s stamps text (rest s))
      → ServesUntilFull r
          (1 + stamps)
          (stamp tv_sec tv_nsec ++ text)
          (elim (short_interrupt page_size r tv_sec tv_nsec) [ none ↦ none | some s ↦ rest s ])
  stamp-Serves r tv_sec tv_nsec stamps text rest f h served =
      let a = f.aligned in
      let p = a.page_sixteen in
      let q = a.head_sixteen in
      let l = a.head_in in
      elim (Bool-cases (ltb (r.head + 16) page_size)) [
        | inl e ↦
            let d =
              short_interrupt-Queued page_size r tv_sec tv_nsec f h
                (ltb→lt (r.head + 16) page_size e) in
            rw d.returns (
              Queued-Serves r tv_sec tv_nsec stamps text (rest d.result) d
                (served d.result d.filling))
        | inr e ↦
            let le = ltb→le (r.head + 16) page_size e in
            let last : r.head + 16 ≡ page_size = omega arith in
            rw ((short_interrupt_lem page_size r tv_sec tv_nsec h a).1 last)
              (overfull (omega arith) refl)
      ]

  -- The shared line's handler passes on an interrupt that is not its own, and else writes a stamp.
  shared_lem :
      (r : Ring) (value tv_sec tv_nsec : ℕ) (rest : Ring → Option (List ℕ × Ring))
      → elim (short_sh_interrupt page_size r value tv_sec tv_nsec) [
        | none ↦ none
        | some (handled, outputs, s) ↦ rest s
      ]
        ≡ (if (value / 128 % 2) == 0
            then rest r
            else elim (short_interrupt page_size r tv_sec tv_nsec) [
              | none ↦ none
              | some s ↦ rest s
            ])
  unfolding short_sh_interrupt
  shared_lem r value tv_sec tv_nsec rest = elim (Bool-cases ((value / 128 % 2) == 0)) [
    | inl e ↦ simp e
    | inr e ↦ elim (Option-cases (short_interrupt page_size r tv_sec tv_nsec)) [
      | inl q ↦ simp (e, q)
      | inr (s, q) ↦ simp (e, q)
    ]
  ]

  pub shared-Serves :
      (r : Ring) (value tv_sec tv_nsec stamps : ℕ) (text : List ℕ)
      (rest : Ring → Option (List ℕ × Ring))
      → IsFilling page_size r
      → tv_nsec < 1000000000
      → ((s : Ring) → IsFilling page_size s → ServesUntilFull s stamps text (rest s))
      → ServesUntilFull r
          (if (value / 128 % 2) == 0 then stamps else 1 + stamps)
          (if (value / 128 % 2) == 0 then text else stamp tv_sec tv_nsec ++ text)
          (elim (short_sh_interrupt page_size r value tv_sec tv_nsec) [
            | none ↦ none
            | some (handled, outputs, s) ↦ rest s
          ])
  shared-Serves r value tv_sec tv_nsec stamps text rest f h served =
      rw (shared_lem r value tv_sec tv_nsec rest) (elim (Bool-cases ((value / 128 % 2) == 0)) [
        | inl e ↦ rw e (served r f)
        | inr e ↦ rw e (stamp-Serves r tv_sec tv_nsec stamps text rest f h served)
      ])

  -- A read and then calls that serve.
  Took-Serves :
      (r : Ring) (stamps : ℕ) (text : List ℕ) (o : Option (List ℕ × Ring))
      {q : Option (Reply × List ℕ × Ring)} (d : Took page_size r q)
      → ServesUntilFull d.result stamps text o
      → ServesUntilFull r stamps text (elim o [
        | none ↦ none
        | some (outs, end) ↦ some (delivered d.reply d.bytes ++ outs, end)
      ])
  Took-Serves r stamps text o d (overfull full e) =
      let same = d.same in overfull (omega arith) (rw e refl)
  Took-Serves r stamps text o d (serves room v) =
      let same = d.same in
      let on = v.moved in
      let first = delivered d.reply d.bytes in
      serves (omega arith) (record {
        outs = first ++ v.outs;
        end = v.end;
        returns = rw v.returns refl;
        in_order =
            append_assoc first v.outs (waiting v.end)
            ∙ ap (◌++◌ first) v.in_order
            ∙ sym (append_assoc first (waiting d.result) text)
            ∙ ap (λ xs. xs ++ text) d.parted;
        moved = omega arith;
        filling = v.filling;
      })

module _ (page_size : ℕ) (u : UserCopy) where
  pub read-Serves :
      (r : Ring) (count stamps : ℕ) (text : List ℕ) (rest : Ring → Option (List ℕ × Ring))
      → IsFilling page_size r
      → ((s : Ring) → IsFilling page_size s → ServesUntilFull page_size s stamps text (rest s))
      → ServesUntilFull page_size r stamps text (elim (short_i_read page_size u r count []) [
        | none ↦ none
        | some (reply, bytes, s) ↦ elim (rest s) [
          | none ↦ none
          | some (outs, end) ↦ some (delivered reply bytes ++ outs, end)
        ]
      ])
  read-Serves r count stamps text rest f served =
      let d = short_i_read-Took page_size u r count f in
      rw d.returns
        (Took-Serves page_size r stamps text (rest d.result) d (served d.result d.filling))
