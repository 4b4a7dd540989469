-- ===== src/Scullp/Valid.antt =====
-- scullp/main.c: when a device's arrays and blocks have the sizes that the code computes with.
use ldd.Common.{
  ℕ, suc, ◌≤◌, ◌<◌, ◌≡◌, refl, sym, ap, ◌∙◌, false, some, List, arith, length, ℕ_discrete,
}
use ldd.Scullp.{Item, Dev, Quantum, zeroed, put_item, get_item, get_quantum, pages}
use ldd.Scullp.Follow.{FollowedDev, get_item-followed, get_item-put_self, get_item-put_ne}

module _ (page_size : ℕ) where
  -- The array of an item has `qset` places, and its blocks the size of its order.
  pub record ItemFits (qset : ℕ) (x : Item) : Type 0 where
    pub array_fits : (qs : List Quantum) → x.quanta ≡ some qs → length qs ≡ qset
    pub block_fits :
        (s : ℕ) (b : List ℕ) → get_quantum x.quanta s ≡ some b → length b ≡ pages page_size x.order

  pub record IsValid (d : Dev) : Type 0 where
    pub qset_pos : 0 < d.qset
    pub fits : (i : ℕ) → ItemFits d.qset (get_item d i)
    -- An item behind the first has order 0: it comes zeroed from `scullp_follow`.
    pub order_behind : (i : ℕ) → (get_item d (suc i)).order ≡ 0
    pub free : d.locked ≡ false

  pub zeroed-ItemFits : (qset : ℕ) → ItemFits qset zeroed
  zeroed-ItemFits qset = record { array_fits = λ qs e. cc; block_fits = λ s b e. cc }

  -- Following the list keeps the device valid.
  pub followed-IsValid : (d : Dev) (n : ℕ) (e : Dev) → FollowedDev d n e → IsValid d → IsValid e
  followed-IsValid d n e f v =
      let same = get_item-followed d n e f in
      let qset : e.qset ≡ d.qset = ap (λ x. x.qset) f.grown in
      record {
        qset_pos = omega (arith, v.qset_pos);
        fits = λ i. rw (same i, qset) (v.fits i);
        order_behind = λ i. ap (λ x. x.order) (same (suc i)) ∙ v.order_behind i;
        free = ap (λ x. x.locked) f.grown ∙ v.free;
      }

  -- Storing an item that fits and has the order of the old one keeps it valid.
  pub put_item-IsValid :
      (d : Dev) (n : ℕ) (x : Item)
      → n ≤ length d.next
      → ItemFits d.qset x
      → x.order ≡ (get_item d n).order
      → IsValid d
      → IsValid (put_item d n x)
  put_item-IsValid d n x h fit same v = record {
    qset_pos = v.qset_pos;
    fits = fits;
    order_behind = order_behind;
    free = v.free;
  }
    where
      fits : (i : ℕ) → ItemFits d.qset (get_item (put_item d n x) i)
      fits i = elim (ℕ_discrete n i) [
        | yes e ↦ rw (← e, get_item-put_self d n x h) fit
        | no ne ↦ rw (get_item-put_ne d n i x ne) (v.fits i)
      ]

      order_behind : (i : ℕ) → (get_item (put_item d n x) (suc i)).order ≡ 0
      order_behind i = elim (ℕ_discrete n (suc i)) [
        | yes e ↦
            ap (λ k. (get_item (put_item d n x) k).order) (sym e)
            ∙ ap (λ y. y.order) (get_item-put_self d n x h)
            ∙ same
            ∙ ap (λ k. (get_item d k).order) e
            ∙ v.order_behind i
        | no ne ↦ ap (λ y. y.order) (get_item-put_ne d n (suc i) x ne) ∙ v.order_behind i
      ]

  -- The size is free, and giving the mutex up changes no item.
  pub settled-IsValid :
      {d : Dev} (size : ℕ) → IsValid d → IsValid (record d { size = size; locked = false })
  settled-IsValid size v = record {
    qset_pos = v.qset_pos;
    fits = v.fits;
    order_behind = v.order_behind;
    free = refl;
  }
