-- ===== src/Access/OneFile.antt =====
-- scull/access.c, scullsingle: processes that open and release the device at the same time. An open
-- is an atomic decrement and, where that fails, an atomic increment: others act in between.
use ldd.Common.{
  ℕ, suc, ◌+◌, ◌≤◌, ◌≡◌, sym, ap, ◌∙◌, true, false, arith, ◌⊎◌, inl, inr, pos, ◌+ℤ◌, ◌-ℤ◌, eqb_ℤ,
  sub_ℕ, ℕ_discrete, ok, err, ebusy,
}
use ldd.Access.{Single, dec_and_test, inc, scull_s_open, scull_s_release, trim_if_written}

-- The device, the number of files open, and the number of opens that have lost and not yet given
-- their decrement back.
pub record World (D : Type 0) : Type 0 where
  pub single : Single D
  pub holders : ℕ
  pub losers : ℕ

module _ {D : Type 0} (scull_trim : D → D) where
  pub data Step (w : World D) : World D → Type 0 where
    wins :
        (flags : ℕ) (next : World D)
        → (dec_and_test w.single).0 ≡ true
        → next ≡ record w {
          single = record (dec_and_test w.single).1 {
            dev = trim_if_written scull_trim flags w.single.dev;
          };
          holders = suc w.holders;
        }
        → Step w next
    loses :
        (next : World D)
        → (dec_and_test w.single).0 ≡ false
        → next ≡ record w { single = (dec_and_test w.single).1; losers = suc w.losers }
        → Step w next
    backs_out :
        (n : ℕ) (next : World D)
        → w.losers ≡ suc n
        → next ≡ record w { single = inc w.single; losers = n }
        → Step w next
    releases :
        (n : ℕ) (next : World D)
        → w.holders ≡ suc n
        → next ≡ record w { single = (scull_s_release w.single).1; holders = n }
        → Step w next

  pub data Reach (w : World D) : World D → Type 0 where
    here : Reach w w
    then_step : (u v : World D) → Reach w u → Step u v → Reach w v

-- One is taken for each file that is open and each open that has lost.
pub record IsSingle {D : Type 0} (w : World D) : Type 0 where
  pub balance : w.single.available ≡ sub_ℕ 1 (w.holders + w.losers)
  pub one : w.holders ≤ 1

sub_dec : (n : ℕ) → sub_ℕ 1 n -ℤ pos 1 ≡ sub_ℕ 1 (suc n)
sub_dec n = ground arith

sub_inc : (n : ℕ) → sub_ℕ 1 (suc n) +ℤ pos 1 ≡ sub_ℕ 1 n
sub_inc n = ground arith

sub_zero : (n : ℕ) → eqb_ℤ (sub_ℕ 1 (suc n)) (pos 0) ≡ true → n ≡ 0
sub_zero n e = ground arith

module _ {D : Type 0} (scull_trim : D → D) where
  Step-IsSingle : (w v : World D) → Step scull_trim w v → IsSingle w → IsSingle v
  unfolding dec_and_test inc scull_s_release
  Step-IsSingle w v (Step.wins flags next won e) i =
      let dec : w.single.available -ℤ pos 1 ≡ sub_ℕ 1 (suc (w.holders + w.losers)) =
        ap (λ x. x -ℤ pos 1) i.balance ∙ sub_dec (w.holders + w.losers) in
      let none_yet = sub_zero (w.holders + w.losers) (sym (ap (λ x. eqb_ℤ x (pos 0)) dec) ∙ won) in
      let count : suc (w.holders + w.losers) ≡ suc w.holders + w.losers = omega arith in
      rw e (record { balance = dec ∙ ap (sub_ℕ 1) count; one = omega arith })
  Step-IsSingle w v (Step.loses next lost e) i =
      let dec : w.single.available -ℤ pos 1 ≡ sub_ℕ 1 (suc (w.holders + w.losers)) =
        ap (λ x. x -ℤ pos 1) i.balance ∙ sub_dec (w.holders + w.losers) in
      let count : suc (w.holders + w.losers) ≡ w.holders + suc w.losers = omega arith in
      rw e (record { balance = dec ∙ ap (sub_ℕ 1) count; one = i.one })
  Step-IsSingle w v (Step.backs_out n next k e) i =
      let count : w.holders + w.losers ≡ suc (w.holders + n) = omega arith in
      rw e (record {
        balance = ap (λ x. x +ℤ pos 1) (i.balance ∙ ap (sub_ℕ 1) count) ∙ sub_inc (w.holders + n);
        one = i.one;
      })
  Step-IsSingle w v (Step.releases n next k e) i =
      let count : w.holders + w.losers ≡ suc (n + w.losers) = omega arith in
      rw e (record {
        balance = ap (λ x. x +ℤ pos 1) (i.balance ∙ ap (sub_ℕ 1) count) ∙ sub_inc (n + w.losers);
        one = let k' = i.one in omega arith;
      })

  -- Whatever the order in which processes decrement, back out and release, at most one file is open,
  -- and `scull_s_available` is 1, less one for each open file and each open that is backing out.
  pub Reach-IsSingle : (w v : World D) → Reach scull_trim w v → IsSingle w → IsSingle v
  Reach-IsSingle w v Reach.here i = i
  Reach-IsSingle w v (Reach.then_step u next r s) i = Step-IsSingle u v s (Reach-IsSingle w u r i)

  -- An open that no other disturbs succeeds exactly when no file is open; it then takes the device
  -- and trims it if it is for writing only; otherwise it answers EBUSY and the device is as it was.
  pub scull_s_open_lem :
      (w : World D) (flags : ℕ)
      → IsSingle w
      → w.losers ≡ 0
      → (w.holders ≡ 0)
          × (scull_s_open scull_trim w.single flags ≡ (
            ok 0,
            record { available = pos 0; dev = trim_if_written scull_trim flags w.single.dev },
          ))
        ⊎ (w.holders ≡ 1) × (scull_s_open scull_trim w.single flags ≡ (err ebusy, w.single))
  unfolding scull_s_open dec_and_test inc
  scull_s_open_lem w flags i k =
      let one = i.one in
      elim (ℕ_discrete w.holders 0) [
        | yes z ↦
            let sum : w.holders + w.losers ≡ 0 = omega arith in
            let at : w.single.available ≡ pos 1 = i.balance ∙ ap (sub_ℕ 1) sum in inl (z, simp at)
        | no nz ↦
            let sum : w.holders + w.losers ≡ 1 = omega arith in
            let at : w.single.available ≡ pos 0 = i.balance ∙ ap (sub_ℕ 1) sum in
            inr (
              omega arith,
              simp at
                  (ap (λ x. (err ebusy, record { available = x; dev = w.single.dev })) (sym at)),
            )
      ]
