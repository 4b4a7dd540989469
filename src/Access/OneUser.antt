-- ===== src/Access/OneUser.antt =====
-- scull/access.c, sculluid: the files that are open at a time.
use ldd.Common.{
  ℕ, suc, ◌≡◌, ◌≢◌, refl, sym, ap, ◌∙◌, subst, true, false, List, [], ◌∷◌, ◌++◌, arith, ◌⊎◌, inl,
  inr, ◌==◌, ℤ, pos, ◌+ℤ◌, ◌-ℤ◌, eqb_ℤ, Bool-cases, eqb_zero, eqb_not_zero, ==_iff, length, Ret, ok,
  err, ebusy,
}
use ldd.Access.{Cred, Owned, refused, scull_u_open, scull_u_release, trim_if_written}

-- The processes that hold a file open, and the device.
pub record World (D : Type 0) : Type 0 where
  pub files : List Cred
  pub owned : Owned D

abbrev added : {D : Type 0} → World D → Cred → Ret × Owned D → World D
added w c (ok n, s) = record { files = c ∷ w.files; owned = s }
added w c (err e, s) = record w { owned = s }

module _ {D : Type 0} (scull_trim : D → D) where
  pub data Step (w : World D) : World D → Type 0 where
    opens :
        (c : Cred) (flags : ℕ) (next : World D)
        → next ≡ added w c (scull_u_open scull_trim w.owned c flags)
        → Step w next
    releases :
        (before : List Cred) (c : Cred) (behind : List Cred) (next : World D)
        → w.files ≡ before ++ (c ∷ behind)
        → next ≡ record { files = before ++ behind; owned = (scull_u_release w.owned).1 }
        → Step w next

  pub data Reach (w : World D) : World D → Type 0 where
    here : Reach w w
    then_step : (u v : World D) → Reach w u → Step u v → Reach w v

-- The owner, somebody who has the owner's identity, or root.
pub data MayOpen (owner : ℕ) (c : Cred) : Type 0 where
  as_user : owner ≡ c.uid → MayOpen owner c
  as_effective : owner ≡ c.euid → MayOpen owner c
  as_root : c.capable ≡ true → MayOpen owner c

abbrev pub AllMayOpen : ℕ → List Cred → Type 0
AllMayOpen owner [] = Unit
AllMayOpen owner (c ∷ cs) = MayOpen owner c × AllMayOpen owner cs

-- The count is that of the open files, and each of them may be open beside the owner's.
pub record IsOwned {D : Type 0} (w : World D) : Type 0 where
  pub counted : w.owned.count ≡ pos (length w.files)
  pub all : AllMayOpen w.owned.owner w.files

AllMayOpen-less :
    (owner : ℕ) (before : List Cred) (c : Cred) (behind : List Cred)
    → AllMayOpen owner (before ++ (c ∷ behind))
    → AllMayOpen owner (before ++ behind)
AllMayOpen-less owner [] c behind (m, rest) = rest
AllMayOpen-less owner (x ∷ before) c behind (m, rest) =
    (m, AllMayOpen-less owner before c behind rest)

length-less :
    (before : List Cred) (c : Cred) (behind : List Cred)
    → length (before ++ (c ∷ behind)) ≡ suc (length (before ++ behind))
length-less [] c behind = refl
length-less (x ∷ before) c behind = ap suc (length-less before c behind)

one_less : (n : ℕ) → pos (suc n) -ℤ pos 1 ≡ pos n
one_less n = ground arith

one_more : (n : ℕ) → pos n +ℤ pos 1 ≡ pos (suc n)
one_more n = ground arith

module _ {D : Type 0} (scull_trim : D → D) where
  -- How an open ends.
  pub data Opens (s : Owned D) (c : Cred) (flags : ℕ) (r : Ret × Owned D) : Type 0 where
    first :
        s.count ≡ pos 0
        → r ≡ (
          ok 0,
          record {
            count = s.count +ℤ pos 1;
            owner = c.uid;
            dev = trim_if_written scull_trim flags s.dev;
          },
        )
        → Opens s c flags r
    another :
        s.count ≢ pos 0
        → MayOpen s.owner c
        → r ≡ (
          ok 0,
          record s { count = s.count +ℤ pos 1; dev = trim_if_written scull_trim flags s.dev },
        )
        → Opens s c flags r
    denied : s.count ≢ pos 0 → ¬ MayOpen s.owner c → r ≡ (err ebusy, s) → Opens s c flags r

  nobody :
      (s : Owned D) (c : Cred)
      → (s.owner == c.uid) ≡ false
      → (s.owner == c.euid) ≡ false
      → c.capable ≡ false
      → ¬ MayOpen s.owner c
  nobody s c u e k (MayOpen.as_user q) = let is = (==_iff s.owner c.uid).1 q in cc
  nobody s c u e k (MayOpen.as_effective q) = let is = (==_iff s.owner c.euid).1 q in cc
  nobody s c u e k (MayOpen.as_root q) = cc

  -- The code's test is the rule.
  refused-cases :
      (s : Owned D) (c : Cred)
      → (refused s c ≡ true) × (s.count ≢ pos 0) × (¬ MayOpen s.owner c)
        ⊎ (refused s c ≡ false) × ((s.count ≡ pos 0) ⊎ (s.count ≢ pos 0) × MayOpen s.owner c)
  refused-cases s c = elim (Bool-cases (eqb_ℤ s.count (pos 0))) [
    | inl z ↦ inr (simp z, inl (eqb_zero s.count z))
    | inr z ↦ elim (Bool-cases (s.owner == c.uid)) [
      | inl u ↦
          inr (
            simp (z, u),
            inr (eqb_not_zero s.count z, MayOpen.as_user ((==_iff s.owner c.uid).0 u)),
          )
      | inr u ↦ elim (Bool-cases (s.owner == c.euid)) [
        | inl e ↦ inr (
          simp (z, u, e),
          inr (eqb_not_zero s.count z, MayOpen.as_effective ((==_iff s.owner c.euid).0 e)),
        )
        | inr e ↦ elim (Bool-cases c.capable) [
          | inl k ↦ inr (simp (z, u, e, k), inr (eqb_not_zero s.count z, MayOpen.as_root k))
          | inr k ↦ inl (simp (z, u, e, k), eqb_not_zero s.count z, nobody s c u e k)
        ]
      ]
    ]
  ]

  ne_zero : (v : ℤ) → v ≢ pos 0 → eqb_ℤ v (pos 0) ≡ false
  ne_zero v h = elim (Bool-cases (eqb_ℤ v (pos 0))) [
    | inl e ↦ absurd (h (eqb_zero v e))
    | inr e ↦ e
  ]

  -- The first open makes the caller the owner, whatever the owner was; the opens that follow succeed
  -- for the owner's identity and for root and keep the owner; all others are told EBUSY and change
  -- nothing. A successful open is counted, and trims the device if it is for writing only.
  pub scull_u_open-Opens :
      (s : Owned D) (c : Cred) (flags : ℕ) → Opens s c flags (scull_u_open scull_trim s c flags)
  unfolding scull_u_open
  scull_u_open-Opens s c flags = elim (refused-cases s c) [
    | inl (r, held, never) ↦ denied held never (simp r)
    | inr (r, inl free) ↦ first free (simp (r, free))
    | inr (r, inr (held, may)) ↦ another held may (rw r (simp (ne_zero s.count held)))
  ]

  Step-IsOwned : (w v : World D) → Step scull_trim w v → IsOwned w → IsOwned v
  unfolding scull_u_release
  Step-IsOwned w v (Step.opens c flags next e) i =
      subst IsOwned (sym e) (elim (scull_u_open-Opens w.owned c flags) [
        | first free r ↦ rw r (record {
          counted = ap (λ x. x +ℤ pos 1) i.counted ∙ one_more (length w.files);
          all = (MayOpen.as_user refl, none_open w i free);
        })
        | another held may r ↦ rw r (record {
          counted = ap (λ x. x +ℤ pos 1) i.counted ∙ one_more (length w.files);
          all = (may, i.all);
        })
        | denied held never r ↦ rw r i
      ])
    where
      no_files : (owner : ℕ) (cs : List Cred) → pos (length cs) ≡ pos 0 → AllMayOpen owner cs
      no_files owner [] e = tt
      no_files owner (c ∷ cs) e = absurd (ground arith)

      none_open : (w : World D) → IsOwned w → w.owned.count ≡ pos 0 → AllMayOpen c.uid w.files
      none_open w i free = no_files c.uid w.files (sym i.counted ∙ free)
  Step-IsOwned w v (Step.releases before c behind next k e) i = rw e (record {
    counted =
        ap (λ x. x -ℤ pos 1)
          (i.counted ∙ ap (λ l. pos (length l)) k ∙ ap (λ n. pos n) (length-less before c behind))
        ∙ one_less (length (before ++ behind));
    all = AllMayOpen-less w.owned.owner before c behind (subst (AllMayOpen w.owned.owner) k i.all);
  })

  -- After any sequence of opens and releases, the count is that of the open files, and each open file
  -- belongs to a process that has the owner's user id, real or effective, or to root.
  pub Reach-IsOwned : (w v : World D) → Reach scull_trim w v → IsOwned w → IsOwned v
  Reach-IsOwned w v Reach.here i = i
  Reach-IsOwned w v (Reach.then_step u next r s) i = Step-IsOwned u v s (Reach-IsOwned w u r i)
