-- ===== src/Scullp/Trim.antt =====
-- scullp/main.c, scullp_trim: what it frees, in the order of its calls of free_pages and kfree.
use ldd.Common.{
  eqb_zero, eqb_not_zero, ℕ, zero, suc, ◌<◌, ◌≡◌, ◌≢◌, refl, sym, ap, ap₂, ◌∙◌, Option, none, some,
  List, [], ◌∷◌, ◌++◌, length, get_or, inl, inr, if◌then◌else◌, Ret, ok, err, ebusy, pos, eqb_ℤ,
  Bool-cases,
}
use ldd.Scullp.{Item, Dev, Quantum, get_item, item_at}
use ldd.Scullp.Follow.{quantum_at}
use ldd.Scullp.Valid.{IsValid, ItemFits}

-- What `free_pages` (with the order it is told) and `kfree` give back: the block of a quantum, the
-- array of an item, the item.
pub data Freed : Type 0 where
  block : List ℕ → ℕ → Freed
  array : Freed
  item : Freed

-- `if(dptr->data[i]) free_pages(...)`, before the frees that follow.
abbrev pub free_quantum : Quantum → ℕ → List Freed → List Freed
free_quantum none order rest = rest
free_quantum (some b) order rest = block b order ∷ rest

-- The loop over `data[i]`, `n` rounds from `i` on.
pub free_quanta : List Quantum → ℕ → ℕ → ℕ → List Freed
free_quanta qs i zero order = []
free_quanta qs i (suc n) order =
    free_quantum (get_or qs i none) order (free_quanta qs (suc i) n order)

pub free_item : Item → ℕ → List Freed
unfolding free_quanta
free_item x qset = elim x.quanta [
  | none ↦ []
  | some qs ↦ free_quanta qs 0 qset x.order ++ (array ∷ [])
]

pub free_next : List Item → ℕ → List Freed
unfolding free_item
free_next [] qset = []
free_next (x ∷ items) qset = free_item x qset ++ (item ∷ free_next items qset)

-- `scullp_qset` and `scullp_order` are module parameters.
pub scullp_trim : Dev → ℕ → ℕ → Ret × List Freed × Dev
unfolding free_next
scullp_trim d scullp_qset scullp_order =
    if eqb_ℤ d.vmas (pos 0)
    then (
      ok 0,
      free_item d.first d.qset ++ free_next d.next d.qset,
      record d {
        first = record { quanta = none; order = scullp_order };
        next = [];
        qset = scullp_qset;
        size = 0;
      },
    )
    else (err ebusy, [], d)

-- What a device has allocated, by the shape of its arrays.
abbrev pub blocks_of : List Quantum → ℕ → List Freed
blocks_of [] order = []
blocks_of (none ∷ qs) order = blocks_of qs order
blocks_of (some b ∷ qs) order = block b order ∷ blocks_of qs order

abbrev pub array_of : Option (List Quantum) → ℕ → List Freed
array_of none order = []
array_of (some qs) order = blocks_of qs order ++ (array ∷ [])

abbrev pub items_of : List Item → List Freed
items_of [] = []
items_of (x ∷ items) = array_of x.quanta x.order ++ (item ∷ items_of items)

abbrev pub allocated : Dev → List Freed
allocated d = array_of d.first.quanta d.first.order ++ items_of d.next

free_quanta-shift :
    (q : Quantum) (qs : List Quantum) (i n order : ℕ)
    → free_quanta (q ∷ qs) (suc i) n order ≡ free_quanta qs i n order
unfolding free_quanta
free_quanta-shift q qs i zero order = refl
free_quanta-shift q qs i (suc n) order =
    ap (free_quantum (get_or qs i none) order) (free_quanta-shift q qs (suc i) n order)

free_quanta-blocks :
    (qs : List Quantum) (order : ℕ) → free_quanta qs 0 (length qs) order ≡ blocks_of qs order
unfolding free_quanta
free_quanta-blocks [] order = refl
free_quanta-blocks (none ∷ qs) order =
    free_quanta-shift none qs 0 (length qs) order ∙ free_quanta-blocks qs order
free_quanta-blocks (some b ∷ qs) order =
    ap (λ l. block b order ∷ l)
      (free_quanta-shift (some b) qs 0 (length qs) order ∙ free_quanta-blocks qs order)

module _ (page_size qset : ℕ) where
  free_item-array :
      (x : Item) → ItemFits page_size qset x → free_item x qset ≡ array_of x.quanta x.order
  unfolding free_item
  free_item-array x f = go x.quanta f.array_fits
    where
      go :
          (o : Option (List Quantum))
          → ((qs : List Quantum) → o ≡ some qs → length qs ≡ qset)
          → elim o [ none ↦ [] | some qs ↦ free_quanta qs 0 qset x.order ++ (array ∷ []) ]
            ≡ array_of o x.order
      go none h = refl
      go (some qs) h =
          ap (λ n. free_quanta qs 0 n x.order ++ (array ∷ [])) (sym (h qs refl))
          ∙ ap (λ l. l ++ (array ∷ [])) (free_quanta-blocks qs x.order)

  free_next-items :
      (items : List Item)
      → ((i : ℕ) → ItemFits page_size qset (item_at items i))
      → free_next items qset ≡ items_of items
  unfolding free_next
  free_next-items [] f = refl
  free_next-items (x ∷ items) f =
      ap₂ (λ a b. a ++ (item ∷ b)) (free_item-array x (f 0))
        (free_next-items items (λ i. f (suc i)))

-- How a trim ends.
pub data Trims (page_size qset order : ℕ) (d : Dev) (r : Ret × List Freed × Dev) : Type 0 where
  trimmed :
      d.vmas ≡ pos 0
      → r.0 ≡ ok 0
      → r.1 ≡ allocated d
      → allocated r.2 ≡ []
      → ((i s : ℕ) → quantum_at r.2 i s ≡ none)
      → r.2.size ≡ 0
      → r.2.qset ≡ qset
      → r.2.first.order ≡ order
      → IsValid page_size r.2
      → Trims page_size qset order d r
  busy : d.vmas ≢ pos 0 → r.0 ≡ err ebusy → r.1 ≡ [] → r.2 ≡ d → Trims page_size qset order d r

module _ (page_size : ℕ) (d : Dev) (qset order : ℕ) where
  emptied-IsValid :
      0 < qset
      → IsValid page_size d
      → IsValid page_size (record d {
        first = record { quanta = none; order = order };
        next = [];
        qset = qset;
        size = 0;
      })
  emptied-IsValid h v = record {
    qset_pos = h;
    fits = fits;
    order_behind = λ i. refl;
    free = v.free;
  }
    where
      fits :
          (i : ℕ)
          → ItemFits page_size qset (
              get_item
                (record d {
                  first = record { quanta = none; order = order };
                  next = [];
                  qset = qset;
                  size = 0;
                })
                i)
      fits zero = record { array_fits = λ qs e. cc; block_fits = λ s b e. cc }
      fits (suc i) = record { array_fits = λ qs e. cc; block_fits = λ s b e. cc }

  pub scullp_trim-Trims :
      0 < qset → IsValid page_size d → Trims page_size qset order d (scullp_trim d qset order)
  unfolding scullp_trim
  scullp_trim-Trims h v = elim (Bool-cases (eqb_ℤ d.vmas (pos 0))) [
    | inl e ↦ simp e (
        trimmed (eqb_zero d.vmas e) refl
          (ap₂ ◌++◌ (free_item-array page_size d.qset d.first (v.fits 0))
            (free_next-items page_size d.qset d.next (λ i. v.fits (suc i))))
          refl empty refl refl refl (emptied-IsValid h v))
    | inr e ↦ simp e (busy (eqb_not_zero d.vmas e) refl refl refl)
  ]
    where
      empty :
          (i s : ℕ)
          → quantum_at
              (record d {
                first = record { quanta = none; order = order };
                next = [];
                qset = qset;
                size = 0;
              })
              i
              s
            ≡ none
      empty zero s = refl
      empty (suc i) s = refl
