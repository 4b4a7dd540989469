-- ===== src/Access/Waiting.antt =====
-- scull/access.c, scullwuid: an open that waits, and what opens and releases make of the count.
use ldd.Common.{
  ℕ, suc, ◌-◌, ◌<◌, ◌≡◌, refl, sym, ap, ◌∙◌, subst, Bool, true, false, List, [], ◌∷◌, arith, inl,
  inr, ◌==◌, if◌then◌else◌, pos, ◌-ℤ◌, eqb_ℤ, sub_ℕ, Bool-cases, ==_iff, ok, err, eagain,
  erestartsys,
}
use ldd.Access.{
  Cred, Owned, Opened, returns, asleep, Wake, woken, scull_w_available, scull_w_open,
  scull_w_release, trim_if_written,
}
use ldd.Access.OneUser.{MayOpen}

-- A state that the open finds: the first, or one after a wake-up.
pub data Seen {D : Type 0} : Owned D → List (Wake D) → Owned D → Type 0 where
  now : (s : Owned D) (wakes : List (Wake D)) → Seen s wakes s
  later :
      (s t : Owned D) (wakes : List (Wake D)) (x : Owned D)
      → Seen t wakes x
      → Seen s (woken t ∷ wakes) x

module _ {D : Type 0} (scull_trim : D → D) where
  pub data Opens (c : Cred) (flags : ℕ) (nonblock : Bool) (s : Owned D) (wakes : List (Wake D))
      (r : Opened × Owned D) : Type 0 where
    opened :
        (t : Owned D)
        → Seen s wakes t
        → scull_w_available t c ≡ true
        → r ≡ (returns (ok 0), record t { dev = trim_if_written scull_trim flags t.dev })
        → Opens c flags nonblock s wakes r
    again :
        nonblock ≡ true
        → scull_w_available s c ≡ false
        → r ≡ (returns (err eagain), s)
        → Opens c flags nonblock s wakes r
    restarts :
        nonblock ≡ false
        → (t : Owned D) → Seen s wakes t
        → scull_w_available t c ≡ false
        → r ≡ (returns (err erestartsys), t)
        → Opens c flags nonblock s wakes r
    sleeps :
        nonblock ≡ false
        → (t : Owned D) → Seen s wakes t
        → scull_w_available t c ≡ false
        → r ≡ (asleep, t)
        → Opens c flags nonblock s wakes r

-- The device, and how many times it was released.
pub record World (D : Type 0) : Type 0 where
  pub releases : ℕ
  pub owned : Owned D

module _ {D : Type 0} (scull_trim : D → D) where
  pub data Step (w : World D) : World D → Type 0 where
    opens :
        (c : Cred) (flags : ℕ) (nonblock : Bool) (next : World D)
        → next ≡ record w { owned = (scull_w_open scull_trim w.owned c flags nonblock []).1 }
        → Step w next
    closes :
        (next : World D)
        → next ≡ record { releases = suc w.releases; owned = (scull_w_release w.owned).2 }
        → Step w next

  pub data Reach (w : World D) : World D → Type 0 where
    here : Reach w w
    then_step : (u v : World D) → Reach w u → Step u v → Reach w v

  -- Each release takes one from the count, nothing adds to it, and nobody becomes the owner.
  pub record IsAdrift (owner : ℕ) (w : World D) : Type 0 where
    pub sinks : w.owned.count ≡ sub_ℕ 0 w.releases
    pub owner_stays : w.owned.owner ≡ owner

  idle : (s : Owned D) (c : Cred) → s.count ≡ pos 0 → scull_w_available s c ≡ true
  unfolding scull_w_available
  idle s c e = simp e

  open-keeps :
      (s : Owned D) (c : Cred) (flags : ℕ) (nonblock : Bool)
      → ((scull_w_open scull_trim s c flags nonblock []).1.count ≡ s.count)
        × ((scull_w_open scull_trim s c flags nonblock []).1.owner ≡ s.owner)
  unfolding scull_w_open
  open-keeps s c flags nonblock = elim (Bool-cases (scull_w_available s c)) [
    | inl a ↦ rw a (refl, refl)
    | inr a ↦ elim (Bool-cases nonblock) [
      | inl b ↦ rw (a, b) (refl, refl)
      | inr b ↦ rw (a, b) (refl, refl)
    ]
  ]

  sub_one_more : (n : ℕ) → sub_ℕ 0 n -ℤ pos 1 ≡ sub_ℕ 0 (suc n)
  sub_one_more n = ground arith

  Step-IsAdrift : (owner : ℕ) (w v : World D) → Step w v → IsAdrift owner w → IsAdrift owner v
  unfolding scull_w_release
  Step-IsAdrift owner w v (Step.closes next e) i = rw e (record {
    sinks = ap (λ x. x -ℤ pos 1) i.sinks ∙ sub_one_more w.releases;
    owner_stays = i.owner_stays;
  })
  Step-IsAdrift owner w v (Step.opens c flags nonblock next e) i =
      let (count, stays) = open-keeps w.owned c flags nonblock in
      rw e (record { sinks = count ∙ i.sinks; owner_stays = stays ∙ i.owner_stays })

  Reach-IsAdrift : (owner : ℕ) (w v : World D) → Reach w v → IsAdrift owner w → IsAdrift owner v
  Reach-IsAdrift owner w v Reach.here i = i
  Reach-IsAdrift owner w v (Reach.then_step u next r s) i =
      Step-IsAdrift owner u v s (Reach-IsAdrift owner w u r i)

  negative : (n : ℕ) → eqb_ℤ (sub_ℕ 0 (suc n)) (pos 0) ≡ false
  negative n = ground arith

  barred :
      (s : Owned D) (c : Cred)
      → eqb_ℤ s.count (pos 0) ≡ false
      → ¬ MayOpen s.owner c
      → scull_w_available s c ≡ false
  unfolding scull_w_available
  barred s c z never = elim (Bool-cases (s.owner == c.uid)) [
    | inl u ↦ absurd (never (MayOpen.as_user ((==_iff s.owner c.uid).0 u)))
    | inr u ↦ elim (Bool-cases (s.owner == c.euid)) [
      | inl e ↦ absurd (never (MayOpen.as_effective ((==_iff s.owner c.euid).0 e)))
      | inr e ↦ elim (Bool-cases c.capable) [
        | inl k ↦ absurd (never (MayOpen.as_root k))
        | inr k ↦ simp (z, u, e, k)
      ]
    ]
  ]

  -- From a count of 0, whatever files are opened and released: until the first release every process
  -- is let in beside the others, and after it nobody but the owner that was there at the start (user
  -- id 0, at load time) and root, for good: the others are told EAGAIN or sleep.
  pub Reach-open :
      (w v : World D)
      → w.releases ≡ 0
      → w.owned.count ≡ pos 0
      → Reach w v
      → (c : Cred) (flags : ℕ) (nonblock : Bool)
      → ((v.releases ≡ 0)
          → (scull_w_open scull_trim v.owned c flags nonblock []).0 ≡ returns (ok 0))
        × ((0 < v.releases)
            → ¬ MayOpen w.owned.owner c
            → scull_w_open scull_trim v.owned c flags nonblock []
              ≡ (if nonblock then returns (err eagain) else asleep, v.owned))
  unfolding scull_w_open
  Reach-open w v none_yet zero_count r c flags nonblock =
      let start : IsAdrift w.owned.owner w = record {
        sinks = zero_count ∙ ap (sub_ℕ 0) (sym none_yet);
        owner_stays = refl;
      } in
      let i = Reach-IsAdrift w.owned.owner w v r start in (free v i, shut v i)
    where
      free :
          (v : World D)
          → IsAdrift w.owned.owner v
          → v.releases ≡ 0
          → (scull_w_open scull_trim v.owned c flags nonblock []).0 ≡ returns (ok 0)
      free v i z =
          let at : v.owned.count ≡ pos 0 = i.sinks ∙ ap (sub_ℕ 0) z in
          let a : scull_w_available v.owned c ≡ true = idle v.owned c at in rw a refl

      shut :
          (v : World D)
          → IsAdrift w.owned.owner v
          → 0 < v.releases
          → ¬ MayOpen w.owned.owner c
          → scull_w_open scull_trim v.owned c flags nonblock []
            ≡ (if nonblock then returns (err eagain) else asleep, v.owned)
      shut v i some_one never =
          let more : v.releases ≡ suc (v.releases - 1) = omega arith in
          let z : eqb_ℤ v.owned.count (pos 0) ≡ false =
            ap (λ x. eqb_ℤ x (pos 0)) (i.sinks ∙ ap (sub_ℕ 0) more) ∙ negative (v.releases - 1) in
          let a = barred v.owned c z (λ m. never (subst (λ o. MayOpen o c) i.owner_stays m)) in
          elim (Bool-cases nonblock) [ inl b ↦ rw (a, b) refl | inr b ↦ rw (a, b) refl ]
