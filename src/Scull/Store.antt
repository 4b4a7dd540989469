-- ===== src/Scull/Store.antt =====
-- scull_char_device/main.c, scull_write: from the item on, with the allocations and the copy.
use ldd.Common.{
  ℕ, zero, suc, ◌+◌, ◌<◌, ◌≡◌, refl, sym, ap, ◌∙◌, subst, Bool, false, none, some, List, [], ltb,
  ◌==◌, ==_iff, if◌then◌else◌, length, length-set, length-store, set, take, length-take, get_or,
  get_or-set_self, get_or-set_ne, get_elem?, get_elem?-take, store, inl, inr, arith, ℕ_discrete,
  Option-cases, Bool-cases, replicate, length-replicate, ok, err, efault, enomem,
}
use ldd.Common.User.{UserCopy}
use ldd.Scull.{
  Dev, Follow, Quantum, QSet, set_at, put_set, unlock, item_of, s_pos_of, q_pos_of, write_block,
  write_quantum, write_set,
}
use ldd.Scull.Place.{s_pos-lt, q_pos-lt}
use ldd.Scull.Bytes.{quantum_in, block_at, byte_at, IsValid, Changed, put-Changed, get_elem?-in}
use ldd.Scull.Changes.{Kept, Base, Changed-byte_in, Changed-Kept, put_set-IsValid}
use ldd.Scull.Effects.{span, wrote, failed, Good, same-Kept, unlock-IsValid, not_over}

module _ (u : UserCopy) (f : Follow) (pos : ℕ) (buf : List ℕ) (count : ℕ) (fresh : Quantum) where
  module _ (d : Dev) (v : IsValid d) (new : (b : List ℕ) → fresh ≡ some b → length b ≡ d.quantum)
      (reached : item_of d pos < length d.sets) (qs : List Quantum)
      (held : (t : ℕ) → quantum_in (set_at d (item_of d pos)) t ≡ get_or qs t none)
      (len : length qs ≡ d.qset) where
    s_in : s_pos_of d pos < length qs
    s_in = let h = s_pos-lt d.quantum d.qset pos v.quantum_pos v.qset_pos in omega arith

    blocks_fit : (t : ℕ) (b : List ℕ) → get_or qs t none ≡ some b → length b ≡ d.quantum
    blocks_fit t b e = v.block_fits (item_of d pos) t b (held t ∙ e)

    base_held :
        (b : List ℕ)
        → Base (get_or qs (s_pos_of d pos) none) fresh b
        → Base (block_at d (item_of d pos) (s_pos_of d pos)) fresh b
    base_held b (inl e) = inl (held (s_pos_of d pos) ∙ e)
    base_held b (inr (e, new_block)) = inr (held (s_pos_of d pos) ∙ e, new_block)

    base_length :
        (b : List ℕ) → Base (get_or qs (s_pos_of d pos) none) fresh b → length b ≡ d.quantum
    base_length b (inl e) = blocks_fit (s_pos_of d pos) b e
    base_length b (inr (e, new_block)) = new b new_block

    set_fit :
        (b : List ℕ)
        → length b ≡ d.quantum
        → (t : ℕ) (c : List ℕ) → get_or (set qs (s_pos_of d pos) (some b)) t none ≡ some c
        → length c ≡ d.quantum
    set_fit b h t c e = elim (ℕ_discrete (s_pos_of d pos) t) [
      | no n ↦ blocks_fit t c (sym (get_or-set_ne qs (s_pos_of d pos) t (some b) none n) ∙ e)
      | yes y ↦
          let found =
            subst (λ (t : ℕ). get_or (set qs (s_pos_of d pos) (some b)) t none ≡ some c) (sym y)
              e in
          let same = sym (get_or-set_self qs (s_pos_of d pos) (some b) none s_in) ∙ found in
          let eq : b ≡ c = cc in ap length (sym eq) ∙ h
    ]

    module _ (b : List ℕ) (base : Base (get_or qs (s_pos_of d pos) none) fresh b) where
      abbrev landed : List ℕ
      landed = (u.from_user buf (span d pos count)).1

      inside : ltb (length b) (q_pos_of d pos + span d pos count) ≡ false
      inside =
          let h = base_length b base in
          let k = q_pos-lt d.quantum d.qset pos v.quantum_pos v.qset_pos in
          not_over _ _ (omega arith)

      abbrev after : ℕ → Dev
      after size =
          record (unlock (
            put_set d (item_of d pos)
              (some (set qs (s_pos_of d pos) (some (store b (q_pos_of d pos) landed)))))) {
                size = size;
              }

      changed :
          (size : ℕ)
          → Changed d
              (item_of d pos)
              (s_pos_of d pos)
              (store b (q_pos_of d pos) landed)
              (after size)
      changed size =
          put-Changed d (item_of d pos) (s_pos_of d pos) qs (store b (q_pos_of d pos) landed) size
            reached s_in held

      after-Kept : (size : ℕ) → Kept d fresh pos (span d pos count) (after size)
      after-Kept size =
          Changed-Kept d pos fresh v b landed (after size) (changed size) (span d pos count)
            (u.from_user_bound buf (span d pos count)) (base_held b base)

      after-IsValid : (size : ℕ) → IsValid (after size)
      after-IsValid size =
          put_set-IsValid d (item_of d pos)
            (set qs (s_pos_of d pos) (some (store b (q_pos_of d pos) landed))) size reached
            (length-set qs (s_pos_of d pos) _ ∙ len)
            (set_fit (store b (q_pos_of d pos) landed)
              (length-store b (q_pos_of d pos) landed ∙ base_length b base))
            v

      stored :
          (size : ℕ)
          → (u.from_user buf (span d pos count)).0 ≡ 0
          → (k : ℕ) → k < span d pos count
          → byte_at (after size) (pos + k) ≡ get_elem? buf k
      stored size done k h =
          let all : landed ≡ take (span d pos count) buf =
            u.from_user_done buf (span d pos count) done in
          let short = u.from_user_short buf (span d pos count) done in
          let size_of : length landed ≡ span d pos count =
            ap length all ∙ length-take (span d pos count) buf ∙ (omega arith) in
          let k' = q_pos-lt d.quantum d.qset pos v.quantum_pos v.qset_pos in
          Changed-byte_in d pos fresh v b landed (after size) (changed size) k (omega arith)
            (omega arith) (base_length b base)
          ∙ ap (λ (xs : List ℕ). get_elem? xs k) all
          ∙ get_elem?-take (span d pos count) buf k h

      write_block-Good : Good d pos buf count fresh (write_block u f d pos buf count qs b)
      unfolding write_block
      write_block-Good =
          let end = pos + span d pos count in
          let grown = if ltb d.size end then end else d.size in
          elim (Bool-cases ((u.from_user buf (span d pos count)).0 == 0)) [
            | inl done ↦
                simp (inside, done)
                  (record {
                    result = record {
                      ret = ok (span d pos count);
                      bytes = [];
                      f_pos = end;
                      dev = after grown;
                    };
                    returns = refl;
                    effect =
                        wrote refl (u.from_user_short buf (span d pos count) ((==_iff _ 0).0 done))
                          refl refl (stored grown ((==_iff _ 0).0 done)) (after-Kept grown);
                    valid = after-IsValid grown;
                    quantum = refl;
                    qset = refl;
                  })
            | inr left ↦
                simp (inside, left)
                  (record {
                    result = record {
                      ret = err efault;
                      bytes = [];
                      f_pos = pos;
                      dev = after d.size;
                    };
                    returns = refl;
                    effect = failed efault refl refl refl (after-Kept d.size);
                    valid = after-IsValid d.size;
                    quantum = refl;
                    qset = refl;
                  })
          ]

    write_quantum-Good : Good d pos buf count fresh (write_quantum u f d pos buf count fresh qs)
    unfolding write_quantum
    write_quantum-Good =
        let inside : get_elem? qs (s_pos_of d pos) ≡ some (get_or qs (s_pos_of d pos) none) =
          get_elem?-in qs (s_pos_of d pos) none s_in in
        elim (Option-cases (get_or qs (s_pos_of d pos) none)) [
          | inr (b, e) ↦ rw (inside, e, write_quantum) (write_block-Good b (inl e))
          | inl e ↦ elim (Option-cases fresh) [
            | inr (b, k) ↦
                let new_block : write_quantum u f d pos buf count fresh qs
                    ≡ write_block u f d pos buf count qs b =
                  rw (inside, e, k, write_quantum) in
                subst (Good d pos buf count fresh) (sym new_block) (write_block-Good b (inr (e, k)))
            | inl k ↦
                rw (inside, e, k, write_quantum)
                  (record {
                    result = record {
                      ret = err enomem;
                      bytes = [];
                      f_pos = pos;
                      dev = unlock (put_set d (item_of d pos) (some qs));
                    };
                    returns = refl;
                    effect = failed enomem refl refl refl (
                        same-Kept none pos d (set d.sets (item_of d pos) (some qs))
                          (span d pos count) unchanged);
                    valid = put_set-IsValid d (item_of d pos) qs d.size reached len blocks_fit v;
                    quantum = refl;
                    qset = refl;
                  })
          ]
        ]
      where
        unchanged :
            (i s : ℕ)
            → quantum_in (get_or (set d.sets (item_of d pos) (some qs)) i none) s ≡ block_at d i s
        unchanged i s = elim (ℕ_discrete (item_of d pos) i) [
          | no n ↦
              ap (λ (x : QSet). quantum_in x s)
                (get_or-set_ne d.sets (item_of d pos) i (some qs) none n)
          | yes y ↦
              subst
                (λ (i : ℕ).
                  quantum_in (get_or (set d.sets (item_of d pos) (some qs)) i none) s
                  ≡ block_at d i s)
                y
                (ap (λ (x : QSet). quantum_in x s)
                    (get_or-set_self d.sets (item_of d pos) (some qs) none reached)
                  ∙ sym (held s))
        ]

  get_or-blank : (n t : ℕ) → get_or (replicate n (let q : Quantum = none in q)) t none ≡ none
  get_or-blank zero t = refl
  get_or-blank (suc n) zero = refl
  get_or-blank (suc n) (suc t) = get_or-blank n t

  pub write_set-Good :
      (d : Dev) (array_ok : Bool)
      → IsValid d
      → ((b : List ℕ) → fresh ≡ some b → length b ≡ d.quantum)
      → item_of d pos < length d.sets
      → Good d pos buf count fresh
          (write_set u f d pos buf count array_ok fresh (set_at d (item_of d pos)))
  unfolding write_set
  write_set-Good d array_ok v new reached = elim (Option-cases (set_at d (item_of d pos))) [
    | inr (qs, e) ↦
        rw (e, write_set)
          (write_quantum-Good d v new reached qs (λ t. ap (λ (x : QSet). quantum_in x t) e)
            (v.array_fits (item_of d pos) qs e))
    | inl e ↦ elim (Bool-cases array_ok) [
      | inl k ↦
          rw (e, k, write_set)
            (write_quantum-Good d v new reached (replicate d.qset none)
              (λ t. ap (λ (x : QSet). quantum_in x t) e ∙ sym (get_or-blank d.qset t))
              (length-replicate d.qset none))
      | inr k ↦
          rw (e, k, write_set)
            (record {
              result = record { ret = err enomem; bytes = []; f_pos = pos; dev = unlock d };
              returns = refl;
              effect =
                  failed enomem refl refl refl
                    (same-Kept fresh pos d d.sets (span d pos count) (λ i s. refl));
              valid = unlock-IsValid d v;
              quantum = refl;
              qset = refl;
            })
    ]
  ]
