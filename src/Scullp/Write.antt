-- ===== src/Scullp/Write.antt =====
-- scullp/main.c, scullp_write: where the bytes go, what stays, and when it stays inside its blocks.
use ldd.Common.{
  ℕ, zero, suc, ◌+◌, ◌≤◌, ◌<◌, ◌≡◌, refl, sym, ap, ◌∙◌, Bool, true, false, Option, none, some, List,
  [], arith, length, replicate, set, get_or, store, length-set, length-store, length-replicate,
  get_or-set_self, get_or-set_ne, Option-cases, Bool-cases, inl, inr, ℕ_discrete, ltb, ◌==◌,
  if◌then◌else◌, err, efault, enomem, ==_iff, ltb→lt,
}
use ldd.Common.User.{UserCopy}
use ldd.Scullp.{
  Item, Dev, Quantum, item_of, put_first, put_item, get_item, get_quantum, pages, clip,
  write_quantum, allocate_quantum, allocate_array, unlock,
}
use ldd.Scullp.Follow.{quantum_at, get_item-put_self, get_item-put_ne}
use ldd.Scullp.Valid.{IsValid, ItemFits, put_item-IsValid, settled-IsValid}
use ldd.Scullp.Stores.{SameElsewhere, Base, old, blank, stored, failed, Good}

put_first-order :
    (first : Item) (next : List Item) (n : ℕ) (o : Option (List Quantum))
    → (put_first first n (record (item_of first next n) { quanta = o })).order ≡ first.order
put_first-order first next zero o = refl
put_first-order first next (suc n) o = refl

get_or-replicate : (n t : ℕ) → get_or {A = Quantum} (replicate n none) t none ≡ none
get_or-replicate zero t = refl
get_or-replicate (suc n) zero = refl
get_or-replicate (suc n) (suc t) = get_or-replicate n t

module _ (page_size : ℕ) where
  module _ (u : UserCopy) (d : Dev) (v : IsValid page_size d) (f_pos : ℕ) (buf : List ℕ) (count : ℕ)
      (item s q : ℕ) (reach : item ≤ length d.next) (s_in : s < d.qset)
      (room : q + clip page_size d q count ≤ pages page_size (get_item d item).order) where
    -- An array that reads as the item's does.
    abbrev Reads : List Quantum → Type 0
    Reads qs = (length qs ≡ d.qset) × ((t : ℕ) → get_or qs t none ≡ quantum_at d item t)

    abbrev with_array : List Quantum → Item
    with_array qs = record (get_item d item) { quanta = some qs }

    array-SameElsewhere :
        (qs : List Quantum) (b : List ℕ)
        → Reads qs
        → SameElsewhere d item s (put_item d item (with_array (set qs s (some b))))
    array-SameElsewhere qs b h i t (inl ne) =
        ap (λ x. get_quantum x.quanta t)
          (get_item-put_ne d item i (with_array (set qs s (some b))) (λ e. ne (sym e)))
    array-SameElsewhere qs b h i t (inr ne) = elim (ℕ_discrete item i) [
      | yes e ↦
          rw (← e, get_item-put_self d item (with_array (set qs s (some b))) reach)
            (get_or-set_ne qs s t (some b) none (λ k. ne (sym k)) ∙ h.1 t)
      | no ne' ↦
          ap (λ x. get_quantum x.quanta t)
            (get_item-put_ne d item i (with_array (set qs s (some b))) ne')
    ]

    array-ItemFits :
        (qs : List Quantum) (b : List ℕ)
        → Reads qs
        → length b ≡ pages page_size (get_item d item).order
        → ItemFits page_size d.qset (with_array (set qs s (some b)))
    array-ItemFits qs b h k = record { array_fits = array_fits; block_fits = block_fits }
      where
        array_fits : (rs : List Quantum) → some (set qs s (some b)) ≡ some rs → length rs ≡ d.qset
        array_fits rs e =
            let same : set qs s (some b) ≡ rs = cc in
            ap length (sym same) ∙ length-set qs s (some b) ∙ h.0

        block_fits :
            (t : ℕ) (c : List ℕ)
            → get_or (set qs s (some b)) t none ≡ some c
            → length c ≡ pages page_size (get_item d item).order
        block_fits t c e = elim (ℕ_discrete s t) [
          | yes k' ↦
              let hit = get_or-set_self qs s (some b) none (omega (arith, h.0)) in
              let same : b ≡ c = cc (hit, e, k') in ap length (sym same) ∙ k
          | no ne ↦
              (v.fits item).block_fits t c
                (sym (h.1 t) ∙ sym (get_or-set_ne qs s t (some b) none ne) ∙ e)
        ]

    array-IsValid :
        (qs : List Quantum) (b : List ℕ)
        → Reads qs
        → length b ≡ pages page_size (get_item d item).order
        → IsValid page_size (put_item d item (with_array (set qs s (some b))))
    array-IsValid qs b h k =
        put_item-IsValid page_size d item _ reach (array-ItemFits qs b h k) refl v

    array-hit :
        (qs : List Quantum) (b : List ℕ)
        → Reads qs
        → quantum_at (put_item d item (with_array (set qs s (some b)))) item s ≡ some b
    array-hit qs b h =
        ap (λ x. get_quantum x.quanta s)
          (get_item-put_self d item (with_array (set qs s (some b))) reach)
        ∙ get_or-set_self qs s (some b) none (omega (arith, h.0))

    write_quantum-Good :
        (qs : List Quantum) (b : List ℕ)
        → Reads qs
        → Base page_size d item s b
        → length b ≡ pages page_size (get_item d item).order
        → Good page_size d f_pos buf count item s q
            (write_quantum page_size u d f_pos buf count item s q qs b)
    unfolding write_quantum
    write_quantum-Good qs b h base k =
        elim (Bool-cases (ltb (length b) (q + clip page_size d q count))) [
          | inl over ↦ absurd (omega (arith, ltb→lt _ _ over))
          | inr fits ↦ elim (Bool-cases ((u.from_user buf (clip page_size d q count)).0 == 0)) [
            | inl e ↦
                let all = u.from_user_done buf _ ((==_iff _ _).0 e) in
                let landed = (u.from_user buf (clip page_size d q count)).1 in
                let k' = length-store b q landed ∙ k in
                let w = array-IsValid qs (store b q landed) h k' in
                simp (fits, e)
                  (record {
                    result = _;
                    returns = refl;
                    effect =
                        stored b base refl refl refl
                          (array-hit qs (store b q landed) h ∙ ap (λ xs. some (store b q xs)) all)
                          (array-SameElsewhere qs (store b q landed) h);
                    valid = settled-IsValid page_size _ w;
                    shape = (put_first-order d.first d.next item _, refl);
                  })
            | inr e ↦
                let landed = (u.from_user buf (clip page_size d q count)).1 in
                let k' = length-store b q landed ∙ k in
                let w = array-IsValid qs (store b q landed) h k' in
                simp (fits, e)
                  (record {
                    result = _;
                    returns = refl;
                    effect =
                        failed efault refl refl refl (array-SameElsewhere qs (store b q landed) h);
                    valid = settled-IsValid page_size _ w;
                    shape = (put_first-order d.first d.next item _, refl);
                  })
          ]
        ]

    write_quantum_old :
        (qs : List Quantum)
        → Reads qs
        → (b : List ℕ) → get_or qs s none ≡ some b
        → Good page_size d f_pos buf count item s q
            (write_quantum page_size u d f_pos buf count item s q qs b)
    write_quantum_old qs h b e =
        write_quantum-Good qs b h (old (sym (h.1 s) ∙ e))
          ((v.fits item).block_fits s b (sym (h.1 s) ∙ e))

    allocate_quantum-Good :
        (pages_ok : Bool) (qs : List Quantum)
        → Reads qs
        → IsValid page_size (put_item d item (with_array qs))
        → SameElsewhere d item s (put_item d item (with_array qs))
        → Good page_size d f_pos buf count item s q
            (allocate_quantum page_size u d f_pos buf count item s q pages_ok qs)
    unfolding allocate_quantum
    allocate_quantum-Good true qs h w same = elim (Option-cases (get_or qs s none)) [
      | inr (b, e) ↦ rw (e, allocate_quantum) (write_quantum_old qs h b e)
      | inl e ↦
          rw (e, allocate_quantum)
            (write_quantum-Good qs _ h (blank (sym (h.1 s) ∙ e) refl) (length-replicate _ 0))
    ]
    allocate_quantum-Good false qs h w same = elim (Option-cases (get_or qs s none)) [
      | inr (b, e) ↦ rw (e, allocate_quantum) (write_quantum_old qs h b e)
      | inl e ↦
          rw (e, allocate_quantum)
            (record {
              result = _;
              returns = refl;
              effect = failed enomem refl refl refl same;
              valid = settled-IsValid page_size _ w;
              shape = (put_first-order d.first d.next item _, refl);
            })
    ]

    -- The array of the item, or a new one of NULL pointers.
    old_array-Reads : (qs : List Quantum) → (get_item d item).quanta ≡ some qs → Reads qs
    old_array-Reads qs e = ((v.fits item).array_fits qs e, λ t. ap (λ x. get_quantum x t) (sym e))

    new_array-Reads : (get_item d item).quanta ≡ none → Reads (replicate d.qset none)
    new_array-Reads e = (
      length-replicate d.qset none,
      λ t. get_or-replicate d.qset t ∙ ap (λ x. get_quantum x t) (sym e),
    )

    put_array-IsValid :
        (qs : List Quantum) → Reads qs → IsValid page_size (put_item d item (with_array qs))
    put_array-IsValid qs h =
        put_item-IsValid page_size d item _ reach
          (record {
            array_fits = λ rs e. let same : qs ≡ rs = cc in ap length (sym same) ∙ h.0;
            block_fits = λ t c e. (v.fits item).block_fits t c (sym (h.1 t) ∙ e);
          })
          refl v

    put_array-SameElsewhere :
        (qs : List Quantum) → Reads qs → SameElsewhere d item s (put_item d item (with_array qs))
    put_array-SameElsewhere qs h i t _ = elim (ℕ_discrete item i) [
      | yes e ↦ rw (← e, get_item-put_self d item (with_array qs) reach) (h.1 t)
      | no ne ↦ ap (λ x. get_quantum x.quanta t) (get_item-put_ne d item i (with_array qs) ne)
    ]

    new_array-Good :
        (pages_ok array_ok : Bool)
        → (get_item d item).quanta ≡ none
        → Good page_size d f_pos buf count item s q (
            if array_ok
            then allocate_quantum page_size u d f_pos buf count item s q pages_ok
                (replicate d.qset none)
            else some (record { ret = err enomem; bytes = []; f_pos = f_pos; dev = unlock d }))
    new_array-Good pages_ok true e =
        let h = new_array-Reads e in
        allocate_quantum-Good _ _ h (put_array-IsValid _ h) (put_array-SameElsewhere _ h)
    new_array-Good pages_ok false e = record {
      result = _;
      returns = refl;
      effect = failed enomem refl refl refl (λ i t _. refl);
      valid = settled-IsValid page_size _ v;
      shape = (refl, refl);
    }

    pub allocate_array-Good :
        (array_ok pages_ok : Bool)
        → Good page_size d f_pos buf count item s q
            (allocate_array page_size u d f_pos buf count item s q array_ok pages_ok)
    unfolding allocate_array
    allocate_array-Good array_ok pages_ok = elim (Option-cases (get_item d item).quanta) [
      | inr (qs, e) ↦
          let h = old_array-Reads qs e in
          rw (e, allocate_array)
            (allocate_quantum-Good pages_ok qs h (put_array-IsValid qs h)
              (put_array-SameElsewhere qs h))
      | inl e ↦ rw (e, allocate_array) (new_array-Good pages_ok array_ok e)
    ]
