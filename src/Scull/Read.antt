-- ===== src/Scull/Read.antt =====
-- scull_char_device/main.c, scull_read: which bytes it gives.
use ldd.Common.{
  ℕ, ◌+◌, ◌≤◌, ◌<◌, ◌≡◌, refl, sym, ap, ◌∙◌, subst, Bool, false, Option, none, [], leb, leb→le,
  leb→lt, ◌==◌, get_or, ◌⊎◌, inl, inr, Bool-cases, ok, err, erestartsys,
}
use ldd.Common.User.{UserCopy}
use ldd.Scull.{
  Dev, Done, Follow, QSet, set_at, unlock, itemsize, item_of, s_pos_of, read_set, scull_read, stops,
  up_to_size,
}
use ldd.Scull.Place.{itemsize_pos}
use ldd.Scull.Bytes.{quantum_in, block_at, IsValid, SameBlocks, byte_at-same}
use ldd.Scull.Effects.{unlock-IsValid, grown-IsValid, not_zero}
use ldd.Scull.Give.{gave, nothing, failed, ReadGood, unlocked-same, read_set-ReadGood}

module _ (u : UserCopy) (f : Follow) (found : Bool) (pos count : ℕ) (d : Dev) where
  -- What a read finds on the device that `scull_follow` leaves, it finds on the device before.
  followed-ReadGood :
      (e : Dev) (o : Option Done)
      → e ≡ record d { sets = e.sets }
      → ((i : ℕ) → set_at e i ≡ set_at d i)
      → ReadGood found (record d { sets = e.sets }) pos count o
      → ReadGood found d pos count o
  followed-ReadGood e o grown same g =
      let x = record d { sets = e.sets } in
      let alike : SameBlocks d x = record {
        quantum = refl;
        qset = refl;
        size = refl;
        blocks = λ i s. ap (λ (y : QSet). quantum_in y s) (same i);
      } in
      record {
        result = g.result;
        returns = g.returns;
        effect = elim g.effect [
          | gave before ret moved len bytes ↦
              gave before ret moved len (λ k h. bytes k h ∙ byte_at-same d x alike (pos + k))
          | nothing why ret stays empty ↦ nothing (absent why) ret stays empty
          | failed e ret which stays ↦ failed e ret which stays
        ];
        valid = g.valid;
        same = record {
          quantum = g.same.quantum;
          qset = g.same.qset;
          size = g.same.size;
          blocks = λ i s. g.same.blocks i s ∙ alike.blocks i s;
        };
      }
    where
      absent :
          (d.size ≤ pos)
            ⊎ ((quantum_in (get_or e.sets (item_of d pos) none) (s_pos_of d pos) ≡ none)
                ⊎ (found ≡ false))
          → (d.size ≤ pos)
            ⊎ ((block_at d (item_of d pos) (s_pos_of d pos) ≡ none) ⊎ (found ≡ false))
      absent (inl h) = inl h
      absent (inr (inl h)) =
          inr (
            inl (ap (λ (y : QSet). quantum_in y (s_pos_of d pos)) (sym (same (item_of d pos))) ∙ h))
      absent (inr (inr h)) = inr (inr h)

  found-ReadGood :
      (e : Dev)
      → IsValid d
      → pos < d.size
      → e ≡ record d { sets = e.sets }
      → ((i : ℕ) → set_at e i ≡ set_at d i)
      → ReadGood found d pos count
          (read_set u f e pos (up_to_size d pos count) (set_at e (item_of d pos)))
  found-ReadGood e v before grown same =
      subst
        (λ (x : Dev).
          ReadGood found d pos count
            (read_set u f x pos (up_to_size d pos count) (set_at x (item_of d pos))))
        (sym grown)
        (followed-ReadGood e _ grown same (
          read_set-ReadGood u f found pos count (record d { sets = e.sets })
            (grown-IsValid d e.sets same v) before))

  missed-ReadGood :
      (e : Dev)
      → IsValid d
      → found ≡ false
      → e ≡ record d { sets = e.sets }
      → ((i : ℕ) → set_at e i ≡ set_at d i)
      → ReadGood found d pos count (stops (ok 0) pos e)
  missed-ReadGood e v why grown same =
      let x = record d { sets = e.sets } in
      subst (λ (y : Dev). ReadGood found d pos count (stops (ok 0) pos y)) (sym grown)
        (followed-ReadGood e _ grown same (record {
          result = record { ret = ok 0; bytes = []; f_pos = pos; dev = unlock x };
          returns = refl;
          effect = nothing (inr (inr why)) refl refl refl;
          valid = unlock-IsValid x (grown-IsValid d e.sets same v);
          same = unlocked-same x;
        }))

-- A read of a valid device never faults. It gives the bytes from the position on, as many as are asked
-- for, up to the size and to the end of the quantum, and moves the position behind them; it gives
-- none at or behind the size, in a quantum that was never written, or where scull_follow finds no
-- item; or it answers EFAULT or ERESTARTSYS and leaves the position. The device stays valid and
-- keeps its size and its blocks.
pub scull_read-ReadGood :
    (u : UserCopy) (f : Follow) (pos count : ℕ) (d : Dev) (interrupted : Bool)
    → IsValid d
    → ReadGood (f.follow d (item_of d pos)).0 d pos count (scull_read u f d pos count interrupted)
unfolding scull_read
scull_read-ReadGood u f pos count d interrupted v =
    let found = (f.follow d (item_of d pos)).0 in
    let e = (f.follow d (item_of d pos)).1 in
    elim (Bool-cases interrupted) [
      | inl i ↦ simp i (record {
        result = record { ret = err erestartsys; bytes = []; f_pos = pos; dev = d };
        returns = refl;
        effect = failed erestartsys refl (inr refl) refl;
        valid = v;
        same = record { quantum = refl; qset = refl; size = refl; blocks = λ i s. refl };
      })
      | inr i ↦ elim (Bool-cases (leb d.size pos)) [
        | inl z ↦
            simp (i, z)
              (record {
                result = record { ret = ok 0; bytes = []; f_pos = pos; dev = unlock d };
                returns = refl;
                effect = nothing (inl (leb→le _ _ z)) refl refl refl;
                valid = unlock-IsValid d v;
                same = unlocked-same d;
              })
        | inr z ↦
            let some_size : (itemsize d == 0) ≡ false =
              not_zero _ (itemsize_pos d.quantum d.qset pos v.quantum_pos v.qset_pos) in
            let before : pos < d.size = leb→lt _ _ z in
            let whole = f.grown d (item_of d pos) in
            let same = f.same d (item_of d pos) in
            elim (Bool-cases found) [
              | inl k ↦
                  let g = found-ReadGood u f found pos count d e v before whole same in
                  simp (i, z, some_size, k) (simp k at g)
              | inr k ↦
                  let g = missed-ReadGood u f found pos count d e v k whole same in
                  simp (i, z, some_size, k) (simp k at g)
            ]
      ]
    ]
