-- ===== src/Scull/Changes.antt =====
-- scull_char_device/main.c: what a change of one block does to the bytes of a device.
use ldd.Common.{
  ℕ, ◌+◌, ◌*◌, ◌/◌, ◌%◌, ◌≤◌, ◌<◌, ◌≡◌, refl, sym, ap, ap₂, ◌∙◌, subst, none, some, List, length,
  set, get_or, get_or-set_self, get_or-set_ne, get_elem?, store, ◌⊎◌, inl, inr, arith, ℕ_discrete,
}
use ldd.Scull.{Dev, Quantum, QSet, put_set, unlock, item_of, s_pos_of, q_pos_of}
use ldd.Scull.Place.{position, item-add, s_pos-add, q_pos-add}
use ldd.Scull.Bytes.{
  quantum_in, block_at, byte_in, byte_at, IsValid, Changed, get_elem?-store_in, get_elem?-store_out,
}

-- Every byte outside of a span is what it was, or was never written and is what a new block held.
abbrev pub Kept : Dev → Quantum → ℕ → ℕ → Dev → Type 0
Kept d fresh lo n e =
    (p : ℕ)
    → (p < lo) ⊎ (lo + n ≤ p)
    → (byte_at e p ≡ byte_at d p)
      ⊎ ((block_at d (item_of d p) (s_pos_of d p) ≡ none)
          × (byte_at e p ≡ byte_in fresh (q_pos_of d p)))

-- What the block held before the write: what the device had, or what a new one holds.
abbrev pub Base : Quantum → Quantum → List ℕ → Type 0
Base held fresh b = (held ≡ some b) ⊎ ((held ≡ none) × (fresh ≡ some b))

module _ (d e : Dev) (eq_quantum : e.quantum ≡ d.quantum) (eq_qset : e.qset ≡ d.qset) where
  byte_at-shape :
      (p : ℕ) → byte_at e p ≡ byte_in (block_at e (item_of d p) (s_pos_of d p)) (q_pos_of d p)
  byte_at-shape p =
      let i : item_of e p ≡ item_of d p = ap₂ (λ (q s : ℕ). p / (q * s)) eq_quantum eq_qset in
      let s : s_pos_of e p ≡ s_pos_of d p = ap₂ (λ (q s : ℕ). p % (q * s) / q) eq_quantum eq_qset in
      let q : q_pos_of e p ≡ q_pos_of d p = ap₂ (λ (q s : ℕ). p % (q * s) % q) eq_quantum eq_qset in
      ap₂ byte_in (ap₂ (block_at e) i s) q

-- The byte some way behind a position, in the same quantum.
pub byte_at-add :
    (d : Dev) (pos k : ℕ)
    → 0 < d.quantum
    → 0 < d.qset
    → q_pos_of d pos + k < d.quantum
    → byte_at d (pos + k)
      ≡ byte_in (block_at d (item_of d pos) (s_pos_of d pos)) (q_pos_of d pos + k)
byte_at-add d pos k hq hs h =
    let i : item_of d (pos + k) ≡ item_of d pos = item-add d.quantum d.qset pos hq hs k h in
    let s : s_pos_of d (pos + k) ≡ s_pos_of d pos = s_pos-add d.quantum d.qset pos hq hs k h in
    let q : q_pos_of d (pos + k) ≡ q_pos_of d pos + k = q_pos-add d.quantum d.qset pos hq hs k h in
    ap₂ byte_in (ap₂ (block_at d) i s) q

module _ (d : Dev) (pos : ℕ) (fresh : Quantum) (v : IsValid d) (b xs : List ℕ) (e : Dev)
    (c : Changed d (item_of d pos) (s_pos_of d pos) (store b (q_pos_of d pos) xs) e) where
  -- The bytes that were stored stand from the position on.
  pub Changed-byte_in :
      (k : ℕ)
      → k < length xs
      → q_pos_of d pos + length xs ≤ d.quantum
      → length b ≡ d.quantum
      → byte_at e (pos + k) ≡ get_elem? xs k
  Changed-byte_in k h fits len =
      let hq = v.quantum_pos in
      let hs = v.qset_pos in
      let inside : q_pos_of d pos + k < d.quantum = omega arith in
      let i : item_of d (pos + k) ≡ item_of d pos = item-add d.quantum d.qset pos hq hs k inside in
      let s : s_pos_of d (pos + k) ≡ s_pos_of d pos =
        s_pos-add d.quantum d.qset pos hq hs k inside in
      let q : q_pos_of d (pos + k) ≡ q_pos_of d pos + k =
        q_pos-add d.quantum d.qset pos hq hs k inside in
      byte_at-shape d e c.quantum c.qset (pos + k)
      ∙ ap₂ byte_in (ap₂ (block_at e) i s ∙ c.self) q
      ∙ get_elem?-store_in b (q_pos_of d pos) k xs h (omega arith)

  in_place :
      (p n : ℕ)
      → item_of d p ≡ item_of d pos
      → s_pos_of d p ≡ s_pos_of d pos
      → length xs ≤ n
      → (p < pos) ⊎ (pos + n ≤ p)
      → (q_pos_of d p < q_pos_of d pos) ⊎ (q_pos_of d pos + length xs ≤ q_pos_of d p)
  in_place p n i s h away = elim away [ inl a ↦ inl (lt a) | inr a ↦ inr (le a) ]
    where
      here :
          (d.quantum * d.qset) * item_of d pos + (d.quantum * s_pos_of d pos + q_pos_of d pos) ≡ pos
      here = position d.quantum d.qset pos v.quantum_pos v.qset_pos

      there : (d.quantum * d.qset) * item_of d pos + (d.quantum * s_pos_of d pos + q_pos_of d p) ≡ p
      there =
          ap₂ (λ (x y : ℕ). (d.quantum * d.qset) * x + (d.quantum * y + q_pos_of d p)) (sym i)
            (sym s)
          ∙ position d.quantum d.qset p v.quantum_pos v.qset_pos

      lt : p < pos → q_pos_of d p < q_pos_of d pos
      lt a = omega (arith, here, there)

      le : pos + n ≤ p → q_pos_of d pos + length xs ≤ q_pos_of d p
      le a = omega (arith, here, there)

  -- All other bytes are kept.
  pub Changed-Kept :
      (n : ℕ)
      → length xs ≤ n
      → Base (block_at d (item_of d pos) (s_pos_of d pos)) fresh b
      → Kept d fresh pos n e
  Changed-Kept n h base p away = elim (ℕ_discrete (item_of d p) (item_of d pos)) [
    | no a ↦ inl (shape ∙ ap (λ (x : Quantum). byte_in x (q_pos_of d p)) (c.others _ _ (inl a)))
    | yes i ↦ elim (ℕ_discrete (s_pos_of d p) (s_pos_of d pos)) [
      | no a ↦ inl (shape ∙ ap (λ (x : Quantum). byte_in x (q_pos_of d p)) (c.others _ _ (inr a)))
      | yes s ↦
          let now : byte_at e p ≡ get_elem? b (q_pos_of d p) =
            shape
            ∙ ap (λ (x : Quantum). byte_in x (q_pos_of d p)) (ap₂ (block_at e) i s ∙ c.self)
            ∙ get_elem?-store_out b (q_pos_of d pos) (q_pos_of d p) xs (in_place p n i s h away) in
          elim base [
            | inl old ↦ inl (
                now
                ∙ ap (λ (x : Quantum). byte_in x (q_pos_of d p)) (sym (ap₂ (block_at d) i s ∙ old)))
            | inr (never, new) ↦ inr (
              ap₂ (block_at d) i s ∙ never,
              now ∙ ap (λ (x : Quantum). byte_in x (q_pos_of d p)) (sym new),
            )
          ]
    ]
  ]
    where
      shape : byte_at e p ≡ byte_in (block_at e (item_of d p) (s_pos_of d p)) (q_pos_of d p)
      shape = byte_at-shape d e c.quantum c.qset p

-- An array of the right length, with blocks of the right length, keeps a device valid.
pub put_set-IsValid :
    (d : Dev) (i : ℕ) (ws : List Quantum) (size : ℕ)
    → i < length d.sets
    → length ws ≡ d.qset
    → ((t : ℕ) (b : List ℕ) → get_or ws t none ≡ some b → length b ≡ d.quantum)
    → IsValid d
    → IsValid (record (unlock (put_set d i (some ws))) { size = size })
put_set-IsValid d i ws size h len fit v = record {
  quantum_pos = v.quantum_pos;
  qset_pos = v.qset_pos;
  array_fits = arrays;
  block_fits = blocks;
  free = refl;
}
  where
    arrays :
        (j : ℕ) (qs : List Quantum)
        → get_or (set d.sets i (some ws)) j none ≡ some qs
        → length qs ≡ d.qset
    arrays j qs e = elim (ℕ_discrete i j) [
      | no n ↦ v.array_fits j qs (sym (get_or-set_ne d.sets i j (some ws) none n) ∙ e)
      | yes y ↦
          let found : get_or (set d.sets i (some ws)) i none ≡ some qs =
            subst (λ (j : ℕ). get_or (set d.sets i (some ws)) j none ≡ some qs) (sym y) e in
          let same = sym (get_or-set_self d.sets i (some ws) none h) ∙ found in
          let eq : ws ≡ qs = cc in ap length (sym eq) ∙ len
    ]

    blocks :
        (j t : ℕ) (b : List ℕ)
        → quantum_in (get_or (set d.sets i (some ws)) j none) t ≡ some b
        → length b ≡ d.quantum
    blocks j t b e = elim (ℕ_discrete i j) [
      | no n ↦
          v.block_fits j t b (
            ap (λ (x : QSet). quantum_in x t) (sym (get_or-set_ne d.sets i j (some ws) none n)) ∙ e)
      | yes y ↦
          let found =
            subst (λ (j : ℕ). quantum_in (get_or (set d.sets i (some ws)) j none) t ≡ some b)
              (sym y) e in
          fit t b (
            ap (λ (x : QSet). quantum_in x t) (sym (get_or-set_self d.sets i (some ws) none h))
            ∙ found)
    ]
