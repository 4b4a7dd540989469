-- ===== src/Scull/Log.antt =====
-- scull_char_device/main.c: a log of what was written, which says what bytes a device holds.
use ldd.Common.{
  ℕ, ◌+◌, ◌-◌, ◌≤◌, ◌<◌, ◌≡◌, sym, ap, ◌∙◌, subst, Bool, true, false, ◌&&◌, Option, none, some,
  List, [], ◌∷◌, ltb, leb, if◌then◌else◌, length, length-take, take, get_elem?, get_elem?-take, ◌⊎◌,
  inl, inr, arith, Bool-cases, Ret, ok, err,
}
use ldd.Scull.{Dev, Done, Quantum, q_pos_of}
use ldd.Scull.Bytes.{byte_in, byte_at}
use ldd.Scull.Changes.{Kept}
use ldd.Scull.Effects.{span, Writes, wrote, failed}

-- What a write leaves: the bytes it says that it took, or a span of which it says nothing.
pub data Entry : Type 0 where
  holds : ℕ → List ℕ → Entry
  unknown : ℕ → ℕ → Entry

-- The byte that the newest entry at a position says; `none` where none says one.
abbrev pub covers : ℕ → ℕ → ℕ → Bool
covers pos n p = leb pos p && ltb p (pos + n)

abbrev pub latest : List Entry → ℕ → Option ℕ
latest [] p = none
latest (holds pos bytes ∷ log) p =
    if covers pos (length bytes) p then get_elem? bytes (p - pos) else latest log p
latest (unknown pos n ∷ log) p = if covers pos n p then none else latest log p

abbrev pub entry : Dev → ℕ → List ℕ → ℕ → Ret → Entry
entry d pos buf count (ok n) = holds pos (take n buf)
entry d pos buf count (err e) = unknown pos (span d pos count)

-- What the log says of a byte is so.
abbrev pub Agrees : List Entry → Dev → Type 0
Agrees log d = (p v : ℕ) → latest log p ≡ some v → byte_at d p ≡ some v

covers-in : (pos n p : ℕ) → covers pos n p ≡ true → (pos ≤ p) × (p < pos + n)
covers-in pos n p h = ground arith

covers-out : (pos n p : ℕ) → covers pos n p ≡ false → (p < pos) ⊎ (pos + n ≤ p)
covers-out pos n p h = elim (Bool-cases (ltb p pos)) [
  | inl k ↦ inl (ground arith)
  | inr k ↦ inr (ground arith)
]

-- A byte that the log knows was written, and a write elsewhere keeps it.
Kept-known :
    (d e : Dev) (fresh : Quantum) (pos n : ℕ) (log : List Entry)
    → Kept d fresh pos n e
    → Agrees log d
    → (p v : ℕ) → covers pos n p ≡ false
    → latest log p ≡ some v
    → byte_at e p ≡ some v
Kept-known d e fresh pos n log kept agrees p v out known = elim (kept p (covers-out pos n p out)) [
  | inl same ↦ same ∙ agrees p v known
  | inr (absent, now) ↦
      let never = sym (ap (λ (y : Quantum). byte_in y (q_pos_of d p)) absent) ∙ agrees p v known in
      cc
]

module _ (d e : Dev) (fresh : Quantum) (pos : ℕ) (buf : List ℕ) (n : ℕ) (log : List Entry)
    (agrees : Agrees log d) (kept : Kept d fresh pos n e) where
  holds-Agrees :
      n ≤ length buf
      → ((k : ℕ) → k < n → byte_at e (pos + k) ≡ get_elem? buf k)
      → Agrees (holds pos (take n buf) ∷ log) e
  holds-Agrees short stored p v known =
      let len : length (take n buf) ≡ n = length-take n buf ∙ omega arith in
      elim (Bool-cases (covers pos (length (take n buf)) p)) [
        | inl inside ↦
            let (from, to) = covers-in pos (length (take n buf)) p inside in
            let place : pos + (p - pos) ≡ p = omega arith in
            let k : p - pos < n = omega arith in
            let said = simp inside at known in
            ap (byte_at e) (sym place)
            ∙ stored (p - pos) k
            ∙ sym (get_elem?-take n buf (p - pos) k)
            ∙ said
        | inr outside ↦
            let said = simp outside at known in
            Kept-known d e fresh pos n log kept agrees p v
              (ap (λ (m : ℕ). covers pos m p) (sym len) ∙ outside) said
      ]

  unknown-Agrees : Agrees (unknown pos n ∷ log) e
  unknown-Agrees p v known = elim (Bool-cases (covers pos n p)) [
    | inl inside ↦ let never = simp inside at known in cc
    | inr outside ↦
        let said = simp outside at known in
        Kept-known d e fresh pos n log kept agrees p v outside said
  ]

pub writes-Agrees :
    (d : Dev) (pos : ℕ) (buf : List ℕ) (count : ℕ) (fresh : Quantum) (r : Done) (log : List Entry)
    → Agrees log d
    → Writes d pos buf count fresh r
    → Agrees (entry d pos buf count r.ret ∷ log) r.dev
writes-Agrees d pos buf count fresh r log agrees (wrote ret short moved sized stored kept) =
    subst (λ (x : Ret). Agrees (entry d pos buf count x ∷ log) r.dev) (sym ret)
      (holds-Agrees d r.dev fresh pos buf (span d pos count) log agrees kept short stored)
writes-Agrees d pos buf count fresh r log agrees (failed e ret stays size kept) =
    subst (λ (x : Ret). Agrees (entry d pos buf count x ∷ log) r.dev) (sym ret)
      (unknown-Agrees d r.dev fresh pos buf (span d pos count) log agrees kept)
