-- ===== src/Scull/Write.antt =====
-- scull_char_device/main.c, scull_write: what it does to the bytes of a device.
use ldd.Common.{
  ℕ, ◌<◌, ◌≡◌, refl, sym, ap, ◌∙◌, subst, Bool, false, Option, none, some, List, [], ◌==◌, length,
  get_or, inl, inr, Bool-cases, err, enomem, erestartsys,
}
use ldd.Common.User.{UserCopy}
use ldd.Scull.{
  Dev, Done, Follow, Quantum, QSet, set_at, unlock, itemsize, item_of, s_pos_of, write_set,
  scull_write, stops,
}
use ldd.Scull.Place.{itemsize_pos}
use ldd.Scull.Bytes.{quantum_in, IsValid, byte_at-same}
use ldd.Scull.Changes.{Kept}
use ldd.Scull.Effects.{
  span, wrote, failed, Good, same-Kept, unlock-IsValid, grown-IsValid, not_zero,
}
use ldd.Scull.Store.{write_set-Good}

module _ (u : UserCopy) (f : Follow) (pos : ℕ) (buf : List ℕ) (count : ℕ) (fresh : Quantum) where
  -- What a write does to the device that `scull_follow` leaves, it does to the device before.
  followed-Good :
      (d : Dev) (sets : List QSet) (o : Option Done)
      → ((i : ℕ) → get_or sets i none ≡ set_at d i)
      → Good (record d { sets = sets }) pos buf count fresh o
      → Good d pos buf count fresh o
  followed-Good d sets o same g = record {
    result = g.result;
    returns = g.returns;
    effect = elim g.effect [
      | wrote ret long moved grown stored kept ↦ wrote ret long moved grown stored (before kept)
      | failed e ret stays size kept ↦ failed e ret stays size (before kept)
    ];
    valid = g.valid;
    quantum = g.quantum;
    qset = g.qset;
  }
    where
      before :
          Kept (record d { sets = sets }) fresh pos (span d pos count) g.result.dev
          → Kept d fresh pos (span d pos count) g.result.dev
      before kept p away =
          let old =
            byte_at-same d (record d { sets = sets })
              (record {
                quantum = refl;
                qset = refl;
                size = refl;
                blocks = λ i s. ap (λ (x : QSet). quantum_in x s) (same i);
              })
              p in
          elim (kept p away) [
            | inl e ↦ inl (e ∙ old)
            | inr (absent, e) ↦ inr (
              ap (λ (x : QSet). quantum_in x (s_pos_of d p)) (sym (same (item_of d p))) ∙ absent,
              e,
            )
          ]

  found-Good :
      (d e : Dev) (array_ok : Bool)
      → IsValid d
      → ((b : List ℕ) → fresh ≡ some b → length b ≡ d.quantum)
      → e ≡ record d { sets = e.sets }
      → item_of d pos < length e.sets
      → ((i : ℕ) → set_at e i ≡ set_at d i)
      → Good d pos buf count fresh
          (write_set u f e pos buf count array_ok fresh (set_at e (item_of d pos)))
  found-Good d e array_ok v new grown reached same =
      subst
        (λ (x : Dev).
          Good d pos buf count fresh
            (write_set u f x pos buf count array_ok fresh (set_at x (item_of d pos))))
        (sym grown)
        (followed-Good d e.sets _ same (
          write_set-Good u f pos buf count fresh (record d { sets = e.sets }) array_ok
            (grown-IsValid d e.sets same v) new reached))

  missed-Good :
      (d e : Dev)
      → IsValid d
      → e ≡ record d { sets = e.sets }
      → ((i : ℕ) → set_at e i ≡ set_at d i)
      → Good d pos buf count fresh (stops (err enomem) pos e)
  missed-Good d e v grown same =
      let x = record d { sets = e.sets } in
      subst (λ (x : Dev). Good d pos buf count fresh (stops (err enomem) pos x)) (sym grown)
        (followed-Good d e.sets _ same (record {
          result = record { ret = err enomem; bytes = []; f_pos = pos; dev = unlock x };
          returns = refl;
          effect =
              failed enomem refl refl refl
                (same-Kept fresh pos x e.sets (span d pos count) (λ i s. refl));
          valid = unlock-IsValid x (grown-IsValid d e.sets same v);
          quantum = refl;
          qset = refl;
        }))

  -- A write to a valid device, with a new block of the right length if one is taken, never faults,
  -- whatever fails: either it stores as many bytes of the buffer as the quantum of the position
  -- holds, moves the position behind them and the size along, or it answers an error and leaves
  -- both; in every other place the device keeps its bytes, save that in a quantum written for the
  -- first time there is what the new block held. The device stays valid, with the mutex free.
  pub scull_write-Good :
      (d : Dev) (interrupted array_ok : Bool)
      → IsValid d
      → ((b : List ℕ) → fresh ≡ some b → length b ≡ d.quantum)
      → Good d pos buf count fresh (scull_write u f d pos buf count interrupted array_ok fresh)
  unfolding scull_write
  scull_write-Good d interrupted array_ok v new = elim (Bool-cases interrupted) [
    | inl i ↦ simp i (record {
      result = record { ret = err erestartsys; bytes = []; f_pos = pos; dev = d };
      returns = refl;
      effect = failed erestartsys refl refl refl (λ p away. inl refl);
      valid = v;
      quantum = refl;
      qset = refl;
    })
    | inr i ↦
        let size = itemsize_pos d.quantum d.qset pos v.quantum_pos v.qset_pos in
        let some_size : (itemsize d == 0) ≡ false = not_zero _ size in
        let e = (f.follow d (item_of d pos)).1 in
        elim (Bool-cases (f.follow d (item_of d pos)).0) [
          | inl k ↦
              simp (i, some_size, k)
                (found-Good d e array_ok v new (f.grown d (item_of d pos))
                  (f.reaches d (item_of d pos) k) (f.same d (item_of d pos)))
          | inr k ↦
              simp (i, some_size, k)
                (missed-Good d e v (f.grown d (item_of d pos)) (f.same d (item_of d pos)))
        ]
  ]
