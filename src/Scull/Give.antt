-- ===== src/Scull/Give.antt =====
-- scull_char_device/main.c, scull_read: from the item on.
use ldd.Common.{
  ℕ, ◌+◌, ◌-◌, ◌≤◌, ◌<◌, ◌≡◌, refl, sym, ap, ◌∙◌, Bool, false, Option, none, some, List, [], min,
  ltb, ◌==◌, ==_iff, length, length-slice, get_or, get_elem?, slice, ◌⊎◌, inl, inr, arith,
  Option-cases, Bool-cases, Errno, ok, err, efault, erestartsys,
}
use ldd.Common.User.{UserCopy}
use ldd.Scull.{
  Dev, Done, Follow, Quantum, QSet, set_at, unlock, item_of, s_pos_of, q_pos_of, read_block,
  read_set, stops, up_to_size,
}
use ldd.Scull.Place.{s_pos-lt, q_pos-lt}
use ldd.Scull.Bytes.{
  quantum_in, block_at, byte_in, byte_at, IsValid, get_elem?-in, get_elem?-slice, SameBlocks,
}
use ldd.Scull.Changes.{byte_at-add}
use ldd.Scull.Effects.{unlock-IsValid, not_over}

-- How many bytes there are to give: up to the size and to the end of the quantum.
abbrev pub readable : Dev → ℕ → ℕ → ℕ
readable d pos count = min (min count (d.size - pos)) (d.quantum - q_pos_of d pos)

-- How a read ends.
pub data Reads (found : Bool) (d : Dev) (pos count : ℕ) (r : Done) : Type 0 where
  gave :
      pos < d.size
      → r.ret ≡ ok (readable d pos count)
      → r.f_pos ≡ pos + readable d pos count
      → length r.bytes ≡ readable d pos count
      → ((k : ℕ) → k < readable d pos count → get_elem? r.bytes k ≡ byte_at d (pos + k))
      → Reads found d pos count r
  nothing :
      (d.size ≤ pos) ⊎ ((block_at d (item_of d pos) (s_pos_of d pos) ≡ none) ⊎ (found ≡ false))
      → r.ret ≡ ok 0
      → r.f_pos ≡ pos
      → r.bytes ≡ []
      → Reads found d pos count r
  failed :
      (e : Errno)
      → r.ret ≡ err e
      → (e ≡ efault) ⊎ (e ≡ erestartsys)
      → r.f_pos ≡ pos
      → Reads found d pos count r

-- The call does not fault; the device stays valid and keeps its size and its bytes.
pub record ReadGood (found : Bool) (d : Dev) (pos count : ℕ) (o : Option Done) : Type 0 where
  pub result : Done
  pub returns : o ≡ some result
  pub effect : Reads found d pos count result
  pub valid : IsValid result.dev
  pub same : SameBlocks d result.dev

pub unlocked-same : (d : Dev) → SameBlocks d (unlock d)
unlocked-same d = record { quantum = refl; qset = refl; size = refl; blocks = λ i s. refl }

wanted :
    (d : Dev) (pos count : ℕ) → pos < d.size → up_to_size d pos count ≡ min count (d.size - pos)
wanted d pos count h = ground arith

module _ (u : UserCopy) (f : Follow) (found : Bool) (pos count : ℕ) (d : Dev) (v : IsValid d)
    (before : pos < d.size) where
  read_block-ReadGood :
      (b : List ℕ)
      → block_at d (item_of d pos) (s_pos_of d pos) ≡ some b
      → ReadGood found d pos count (read_block u f d pos (min count (d.size - pos)) b)
  unfolding read_block
  read_block-ReadGood b e =
      let n = readable d pos count in
      let len = v.block_fits (item_of d pos) (s_pos_of d pos) b e in
      let q = q_pos-lt d.quantum d.qset pos v.quantum_pos v.qset_pos in
      let inside : ltb (length b) (q_pos_of d pos + n) ≡ false = not_over _ _ (omega arith) in
      elim (Bool-cases ((u.to_user (slice b (q_pos_of d pos) n)).0 == 0)) [
        | inr left ↦
            simp (inside, left)
              (record {
                result = record {
                  ret = err efault;
                  bytes = (u.to_user (slice b (q_pos_of d pos) n)).1;
                  f_pos = pos;
                  dev = unlock d;
                };
                returns = refl;
                effect = failed efault refl (inl refl) refl;
                valid = unlock-IsValid d v;
                same = unlocked-same d;
              })
        | inl done ↦
            let all = u.to_user_done (slice b (q_pos_of d pos) n) ((==_iff _ 0).0 done) in
            simp (inside, done)
              (record {
                result = record {
                  ret = ok n;
                  bytes = (u.to_user (slice b (q_pos_of d pos) n)).1;
                  f_pos = pos + n;
                  dev = unlock d;
                };
                returns = refl;
                effect =
                    gave before refl refl
                      (ap length all ∙ length-slice b (q_pos_of d pos) n ∙ omega arith)
                      (λ k h.
                        ap (λ (xs : List ℕ). get_elem? xs k) all
                        ∙ get_elem?-slice b (q_pos_of d pos) n k h
                        ∙ sym (
                            byte_at-add d pos k v.quantum_pos v.qset_pos (omega arith)
                            ∙ ap (λ (x : Quantum). byte_in x (q_pos_of d pos + k)) e));
                valid = unlock-IsValid d v;
                same = unlocked-same d;
              })
      ]

  stops-ReadGood :
      block_at d (item_of d pos) (s_pos_of d pos) ≡ none
      → ReadGood found d pos count (stops (ok 0) pos d)
  stops-ReadGood e = record {
    result = record { ret = ok 0; bytes = []; f_pos = pos; dev = unlock d };
    returns = refl;
    effect = nothing (inr (inl e)) refl refl refl;
    valid = unlock-IsValid d v;
    same = unlocked-same d;
  }

  pub read_set-ReadGood :
      ReadGood found d pos count
        (read_set u f d pos (up_to_size d pos count) (set_at d (item_of d pos)))
  unfolding read_set
  read_set-ReadGood = elim (Option-cases (set_at d (item_of d pos))) [
    | inl e ↦ rw (e, read_set) (stops-ReadGood (ap (λ (x : QSet). quantum_in x (s_pos_of d pos)) e))
    | inr (qs, e) ↦
        let here = ap (λ (x : QSet). quantum_in x (s_pos_of d pos)) e in
        let s = s_pos-lt d.quantum d.qset pos v.quantum_pos v.qset_pos in
        let len = v.array_fits (item_of d pos) qs e in
        let inside : get_elem? qs (s_pos_of d pos) ≡ some (get_or qs (s_pos_of d pos) none) =
          get_elem?-in qs (s_pos_of d pos) none (omega arith) in
        elim (Option-cases (get_or qs (s_pos_of d pos) none)) [
          | inl k ↦ rw (e, inside, k, read_set) (stops-ReadGood (here ∙ k))
          | inr (b, k) ↦
              rw (e, inside, k, wanted d pos count before, read_set)
                (read_block-ReadGood b (here ∙ k))
        ]
  ]
