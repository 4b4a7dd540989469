-- ===== src/Demos/MapCmp.antt =====
-- mapcmp.c: whether two mapped areas are the same.
use ldd.Common.{
  ℕ, zero, suc, ◌+◌, ◌*◌, ◌≤◌, ◌<◌, ◌≡◌, ◌≢◌, refl, false, not, Option, none, some, arith, ◌==◌,
  ==_iff, if◌then◌else◌, Bool-cases, inl, inr,
}

-- The four ways out of `main`.
pub data Exit : Type 0 where
  usage : Exit
  unmapped : Exit
  differ : ℕ → Exit
  identical : Exit

-- The bytes at an address, and so behind it.
abbrev pub Area : Type 0
Area = ℕ → ℕ

-- The loop from byte `i` on, with `n` bytes left.
pub compare_from : Area → Area → ℕ → ℕ → Exit
compare_from addr1 addr2 i zero = identical
compare_from addr1 addr2 i (suc n) =
    let rest = compare_from addr1 addr2 (suc i) n in
    if not (addr1 i == addr2 i) then differ i else rest

-- PAGE_SIZE.
abbrev pub page_size : ℕ
page_size = 4096

-- `mapdev` of the two devices: an area, or `none` where opening or mapping fails and it exits.
-- `offset` is what it maps from; `pages` is what `atoi` reads.
pub mapcmp : ℕ → (ℕ → ℕ → Option Area) → (ℕ → ℕ → Option Area) → ℕ → ℕ → Exit
unfolding compare_from
mapcmp argc mapdev1 mapdev2 offset pages =
    let size = pages * page_size in
    if not (argc == 5) then usage else elim (mapdev1 offset size) [
      | none ↦ unmapped
      | some addr1 ↦ elim (mapdev2 offset size) [
        | none ↦ unmapped
        | some addr2 ↦ compare_from addr1 addr2 0 size
      ]
    ]

-- What the comparison of `n` bytes from `i` on says.
pub data Compares (addr1 addr2 : Area) (i n : ℕ) (r : Exit) : Type 0 where
  same :
      r ≡ identical → ((k : ℕ) → i ≤ k → k < i + n → addr1 k ≡ addr2 k) → Compares addr1 addr2 i n r
  first :
      (j : ℕ)
      → r ≡ differ j
      → i ≤ j
      → j < i + n
      → addr1 j ≢ addr2 j
      → ((k : ℕ) → i ≤ k → k < j → addr1 k ≡ addr2 k)
      → Compares addr1 addr2 i n r

not_equal : (a b : ℕ) → (a == b) ≡ false → a ≢ b
not_equal a b h e = ground arith

-- One more byte that is the same in front.
extend :
    (addr1 addr2 : Area) (i j : ℕ)
    → addr1 i ≡ addr2 i
    → ((k : ℕ) → suc i ≤ k → k < j → addr1 k ≡ addr2 k)
    → (k : ℕ) → i ≤ k
    → k < j
    → addr1 k ≡ addr2 k
extend addr1 addr2 i j e h k from to = elim (Bool-cases (k == i)) [
  | inl at_i ↦ let here : k ≡ i = (==_iff k i).0 at_i in rw here e
  | inr on ↦ h k (let apart = not_equal k i on in le_of_ne i k from apart) to
]
  where
    le_of_ne : (i k : ℕ) → i ≤ k → k ≢ i → suc i ≤ k
    le_of_ne i k h n = ground arith

compare_from-Compares :
    (addr1 addr2 : Area) (i n : ℕ) → Compares addr1 addr2 i n (compare_from addr1 addr2 i n)
unfolding compare_from
compare_from-Compares addr1 addr2 i zero = same refl (λ k from to. absurd (omega arith))
compare_from-Compares addr1 addr2 i (suc n) = elim (Bool-cases (addr1 i == addr2 i)) [
  | inr e ↦ simp e (
      first i refl (omega arith) (omega arith) (not_equal _ _ e)
        (λ k from to. absurd (omega arith)))
  | inl e ↦
      let here : addr1 i ≡ addr2 i = (==_iff _ _).0 e in
      simp e (elim (compare_from-Compares addr1 addr2 (suc i) n) [
        | same r all ↦
            same r (λ k from to. extend addr1 addr2 i (suc i + n) here all k from (omega arith))
        | first j r from to apart before ↦
            first j r (omega arith) (omega arith) apart (extend addr1 addr2 i j here before)
      ])
]

-- With its four arguments and both devices mapped, the program says that the areas are identical
-- exactly where all their bytes are the same, and otherwise names the first byte that differs.
pub mapcmp-Compares :
    (mapdev1 mapdev2 : ℕ → ℕ → Option Area) (offset pages : ℕ) (addr1 addr2 : Area)
    → mapdev1 offset (pages * page_size) ≡ some addr1
    → mapdev2 offset (pages * page_size) ≡ some addr2
    → Compares addr1 addr2 0 (pages * page_size) (mapcmp 5 mapdev1 mapdev2 offset pages)
unfolding mapcmp
mapcmp-Compares mapdev1 mapdev2 offset pages addr1 addr2 e1 e2 =
    rw (e1, e2, mapcmp) (compare_from-Compares addr1 addr2 0 (pages * page_size))
