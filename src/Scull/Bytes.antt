-- ===== src/Scull/Bytes.antt =====
-- scull_char_device/main.c: the bytes that a device holds, by their positions.
use ldd.Common.{
  ℕ, zero, suc, ◌+◌, ◌*◌, ◌/◌, ◌%◌, ◌≤◌, ◌<◌, ◌≡◌, ◌≢◌, refl, sym, ap, ap₂, ◌∙◌, subst, false,
  Option, none, some, List, [], ◌∷◌, length, set, get_or, get_or-set_self, get_or-set_ne, get_elem?,
  slice, store, ◌⊎◌, inl, inr, arith, ℕ_discrete,
}
use ldd.Scull.{Dev, Quantum, QSet, set_at, put_set, unlock, item_of, s_pos_of, q_pos_of}

abbrev pub quantum_in : QSet → ℕ → Quantum
quantum_in none s = none
quantum_in (some qs) s = get_or qs s none

-- What the device holds as quantum `s` of item `i`.
abbrev pub block_at : Dev → ℕ → ℕ → Quantum
block_at d i s = quantum_in (set_at d i) s

abbrev pub byte_in : Quantum → ℕ → Option ℕ
byte_in none q = none
byte_in (some b) q = get_elem? b q

-- The byte at a position; `none` in a quantum that was never written.
abbrev pub byte_at : Dev → ℕ → Option ℕ
byte_at d p = byte_in (block_at d (item_of d p) (s_pos_of d p)) (q_pos_of d p)

pub get_elem?-slice :
    (b : List ℕ) (i n k : ℕ) → k < n → get_elem? (slice b i n) k ≡ get_elem? b (i + k)
get_elem?-slice [] i n k h = refl
get_elem?-slice (x ∷ b) (suc i) n k h =
    let e : suc i + k ≡ suc (i + k) = omega arith in rw e (get_elem?-slice b i n k h)
get_elem?-slice (x ∷ b) zero zero k h = absurd (omega arith)
get_elem?-slice (x ∷ b) zero (suc n) zero h = refl
get_elem?-slice (x ∷ b) zero (suc n) (suc k) h =
    let e : 0 + suc k ≡ suc (0 + k) = omega arith in rw e (get_elem?-slice b zero n k (omega arith))

pub get_elem?-store_in :
    (b : List ℕ) (i k : ℕ) (xs : List ℕ)
    → k < length xs
    → i + k < length b
    → get_elem? (store b i xs) (i + k) ≡ get_elem? xs k
get_elem?-store_in [] i k xs h g = absurd (omega arith)
get_elem?-store_in (y ∷ b) (suc i) k xs h g =
    let e : suc i + k ≡ suc (i + k) = omega arith in
    rw e (get_elem?-store_in b i k xs h (omega arith))
get_elem?-store_in (y ∷ b) zero k [] h g = absurd (omega arith)
get_elem?-store_in (y ∷ b) zero zero (x ∷ xs) h g = refl
get_elem?-store_in (y ∷ b) zero (suc k) (x ∷ xs) h g =
    let e : 0 + suc k ≡ suc (0 + k) = omega arith in
    rw e (get_elem?-store_in b zero k xs (omega arith) (omega arith))

pub get_elem?-store_out :
    (b : List ℕ) (i j : ℕ) (xs : List ℕ)
    → (j < i) ⊎ (i + length xs ≤ j)
    → get_elem? (store b i xs) j ≡ get_elem? b j
get_elem?-store_out [] i j xs h = refl
get_elem?-store_out (y ∷ b) (suc i) zero xs h = refl
get_elem?-store_out (y ∷ b) (suc i) (suc j) xs h = get_elem?-store_out b i j xs (apart h)
  where
    apart : (suc j < suc i) ⊎ (suc i + length xs ≤ suc j) → (j < i) ⊎ (i + length xs ≤ j)
    apart (inl a) = inl (omega arith)
    apart (inr a) = inr (omega arith)
get_elem?-store_out (y ∷ b) zero j [] h = refl
get_elem?-store_out (y ∷ b) zero zero (x ∷ xs) (inl a) = absurd (omega arith)
get_elem?-store_out (y ∷ b) zero zero (x ∷ xs) (inr a) = absurd (omega arith)
get_elem?-store_out (y ∷ b) zero (suc j) (x ∷ xs) (inl a) = absurd (omega arith)
get_elem?-store_out (y ∷ b) zero (suc j) (x ∷ xs) (inr a) =
    get_elem?-store_out b zero j xs (inr (omega arith))

-- Within an array `get_elem?` and `get_or` agree.
pub get_elem?-in {ℓ} :
    {A : Type ℓ} (xs : List A) (i : ℕ) (d : A)
    → i < length xs
    → get_elem? xs i ≡ some (get_or xs i d)
get_elem?-in [] i d h = absurd (omega arith)
get_elem?-in (x ∷ xs) zero d h = refl
get_elem?-in (x ∷ xs) (suc i) d h = get_elem?-in xs i d (omega arith)

-- Arrays have `qset` places, blocks `quantum` bytes.
pub record IsValid (d : Dev) : Type 0 where
  pub quantum_pos : 0 < d.quantum
  pub qset_pos : 0 < d.qset
  pub array_fits : (i : ℕ) (qs : List Quantum) → set_at d i ≡ some qs → length qs ≡ d.qset
  pub block_fits : (i s : ℕ) (b : List ℕ) → block_at d i s ≡ some b → length b ≡ d.quantum
  pub free : d.locked ≡ false

-- The sizes by which positions are taken apart, and what there is at each place.
pub record SameBlocks (d e : Dev) : Type 0 where
  pub quantum : e.quantum ≡ d.quantum
  pub qset : e.qset ≡ d.qset
  pub size : e.size ≡ d.size
  pub blocks : (i s : ℕ) → block_at e i s ≡ block_at d i s

pub byte_at-same : (d e : Dev) → SameBlocks d e → (p : ℕ) → byte_at e p ≡ byte_at d p
byte_at-same d e w p =
    let i : item_of e p ≡ item_of d p = ap₂ (λ (q s : ℕ). p / (q * s)) w.quantum w.qset in
    let s : s_pos_of e p ≡ s_pos_of d p = ap₂ (λ (q s : ℕ). p % (q * s) / q) w.quantum w.qset in
    let q : q_pos_of e p ≡ q_pos_of d p = ap₂ (λ (q s : ℕ). p % (q * s) % q) w.quantum w.qset in
    ap₂ byte_in (ap₂ (block_at e) i s ∙ w.blocks (item_of d p) (s_pos_of d p)) q

-- One block has changed, at offset `q` on, and the item that holds it.
pub record Changed (d : Dev) (i s : ℕ) (b : List ℕ) (e : Dev) : Type 0 where
  pub quantum : e.quantum ≡ d.quantum
  pub qset : e.qset ≡ d.qset
  pub self : block_at e i s ≡ some b
  pub others : (j t : ℕ) → (j ≢ i) ⊎ (t ≢ s) → block_at e j t ≡ block_at d j t

pub put-Changed :
    (d : Dev) (i s : ℕ) (qs : List Quantum) (b : List ℕ) (size : ℕ)
    → i < length d.sets
    → s < length qs
    → ((t : ℕ) → quantum_in (set_at d i) t ≡ get_or qs t none)
    → Changed d i s b (record (unlock (put_set d i (some (set qs s (some b))))) { size = size })
put-Changed d i s qs b size h k same = record {
  quantum = refl;
  qset = refl;
  self =
      rw (get_or-set_self d.sets i (some (set qs s (some b))) none h)
        (get_or-set_self qs s (some b) none k);
  others = others;
}
  where
    others :
        (j t : ℕ)
        → (j ≢ i) ⊎ (t ≢ s)
        → quantum_in (get_or (set d.sets i (some (set qs s (some b)))) j none) t ≡ block_at d j t
    others j t (inl a) =
        ap (λ (x : QSet). quantum_in x t)
          (get_or-set_ne d.sets i j (some (set qs s (some b))) none (λ e. a (sym e)))
    others j t (inr a) = elim (ℕ_discrete i j) [
      | no n ↦
          ap (λ (x : QSet). quantum_in x t)
            (get_or-set_ne d.sets i j (some (set qs s (some b))) none n)
      | yes y ↦
          subst
            (λ (j : ℕ).
              quantum_in (get_or (set d.sets i (some (set qs s (some b)))) j none) t
              ≡ block_at d j t)
            y
            (ap (λ (x : QSet). quantum_in x t)
                (get_or-set_self d.sets i (some (set qs s (some b))) none h)
              ∙ get_or-set_ne qs s t (some b) none (λ e. a (sym e))
              ∙ sym (same t))
    ]
