-- ===== src/Scullp/Follow.antt =====
-- scullp/main.c: the items of a device, and what scullp_follow does to them.
use ldd.Common.{
  ℕ, zero, suc, ◌+◌, ◌≤◌, ◌≡◌, ◌≢◌, refl, sym, ap, ◌∙◌, subst, Option, none, some, List, [], ◌∷◌,
  arith, length, length-set, get_or-set_self, get_or-set_ne, Option-cases, inl, inr,
}
use ldd.Scullp.{
  Item, Dev, Quantum, zeroed, behind, follow_next, scullp_follow, item_at, put_item, put_next,
  get_item, get_quantum,
}

-- What the device holds as quantum `s` of item `i`.
abbrev pub quantum_at : Dev → ℕ → ℕ → Quantum
quantum_at d i s = get_quantum (get_item d i).quanta s

pub get_item-put_self :
    (d : Dev) (i : ℕ) (x : Item) → i ≤ length d.next → get_item (put_item d i x) i ≡ x
get_item-put_self d zero x h = refl
get_item-put_self d (suc i) x h = get_or-set_self d.next i x zeroed h

pub get_item-put_ne :
    (d : Dev) (i j : ℕ) (x : Item) → i ≢ j → get_item (put_item d i x) j ≡ get_item d j
get_item-put_ne d zero zero x h = absurd (h refl)
get_item-put_ne d zero (suc j) x h = refl
get_item-put_ne d (suc i) zero x h = refl
get_item-put_ne d (suc i) (suc j) x h = get_or-set_ne d.next i j x zeroed (λ e. h (ap suc e))

pub length-put_next :
    (items : List Item) (i : ℕ) (x : Item) → length (put_next items i x) ≡ length items
length-put_next items zero x = refl
length-put_next items (suc i) x = length-set items i x

-- The list that a follow leaves reaches the item, and every item reads as before: those that were
-- added are zeroed memory.
pub record Followed (items : List Item) (n : ℕ) (found : List Item) : Type 0 where
  pub reaches : n ≤ length found
  pub same : (j : ℕ) → item_at found j ≡ item_at items j

Followed-cons :
    (x : Item) (items found : List Item) (n : ℕ)
    → Followed items n found
    → Followed (x ∷ items) (suc n) (x ∷ found)
Followed-cons x items found n f = let h = f.reaches in record { reaches = omega arith; same = go }
  where
    go : (j : ℕ) → item_at (x ∷ found) j ≡ item_at (x ∷ items) j
    go zero = refl
    go (suc j) = f.same j

Followed-new :
    (found : List Item) (n : ℕ) → Followed [] n found → Followed [] (suc n) (zeroed ∷ found)
Followed-new found n f = let h = f.reaches in record { reaches = omega arith; same = go }
  where
    go : (j : ℕ) → item_at (zeroed ∷ found) j ≡ item_at [] j
    go zero = refl
    go (suc j) = f.same j

behind-inv :
    (x : Item) (o : Option (List Item)) (found : List Item)
    → behind x o ≡ some found
    → (rest : List Item) × (o ≡ some rest) × (x ∷ rest ≡ found)
behind-inv x none found e = cc
behind-inv x (some rest) found e = (rest, refl, cc)

follow_next-Followed :
    (items : List Item) (n avail : ℕ) (found : List Item)
    → follow_next items n avail ≡ some found
    → Followed items n found
unfolding follow_next
follow_next-Followed items zero avail found e =
    let same : items ≡ found = cc in
    record { reaches = omega arith; same = λ j. ap (λ l. item_at l j) (sym same) }
follow_next-Followed (x ∷ items) (suc n) avail found e =
    let (rest, k, same) = behind-inv x (follow_next items n avail) found e in
    subst (Followed (x ∷ items) (suc n)) same
      (Followed-cons x items rest n (follow_next-Followed items n avail rest k))
follow_next-Followed [] (suc n) zero found e = cc
follow_next-Followed [] (suc n) (suc avail) found e =
    let (rest, k, same) = behind-inv zeroed (follow_next [] n avail) found e in
    subst (Followed [] (suc n)) same (Followed-new rest n (follow_next-Followed [] n avail rest k))

-- With memory for the items that are missing, the item is reached.
follow_next_total :
    (items : List Item) (n avail : ℕ)
    → n ≤ length items + avail
    → (found : List Item) × (follow_next items n avail ≡ some found)
unfolding follow_next
follow_next_total items zero avail h = (items, refl)
follow_next_total (x ∷ items) (suc n) avail h =
    let (rest, e) = follow_next_total items n avail (omega arith) in (x ∷ rest, ap (behind x) e)
follow_next_total [] (suc n) zero h = absurd (omega arith)
follow_next_total [] (suc n) (suc avail) h =
    let (rest, e) = follow_next_total [] n avail (omega arith) in
    (zeroed ∷ rest, ap (behind zeroed) e)

-- The same of the whole device.
pub record FollowedDev (d : Dev) (n : ℕ) (e : Dev) : Type 0 where
  pub found : List Item
  pub grown : e ≡ record d { next = found }
  pub followed : Followed d.next n found

pub scullp_follow-FollowedDev :
    (d : Dev) (n avail : ℕ) (e : Dev) → scullp_follow d n avail ≡ some e → FollowedDev d n e
unfolding scullp_follow
scullp_follow-FollowedDev d n avail e h = elim (Option-cases (follow_next d.next n avail)) [
  | inl k ↦ let never = (rw (k, scullp_follow) at h) in cc
  | inr (found, k) ↦
      let same = (rw (k, scullp_follow) at h) in
      let f = follow_next-Followed d.next n avail found k in
      record { found = found; grown = cc; followed = f }
]

pub scullp_follow_total :
    (d : Dev) (n avail : ℕ)
    → n ≤ length d.next + avail
    → (e : Dev) × (scullp_follow d n avail ≡ some e)
unfolding scullp_follow
scullp_follow_total d n avail h =
    let (found, k) = follow_next_total d.next n avail h in
    (record d { next = found }, rw (k, scullp_follow))

pub get_item-followed :
    (d : Dev) (n : ℕ) (e : Dev) → FollowedDev d n e → (j : ℕ) → get_item e j ≡ get_item d j
get_item-followed d n e f zero = ap (λ x. x.first) f.grown
get_item-followed d n e f (suc j) = ap (λ x. item_at x.next j) f.grown ∙ f.followed.same j
