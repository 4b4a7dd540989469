-- ===== src/Scullp/Stores.antt =====
-- scullp/main.c: what a write does to a device.
use ldd.Common.{
  ℕ, ◌+◌, ◌≡◌, ◌≢◌, Option, none, some, List, replicate, take, store, ◌⊎◌, ltb, if◌then◌else◌,
  Errno, ok, err,
}
use ldd.Scullp.{Dev, Done, get_item, pages, clip}
use ldd.Scullp.Follow.{quantum_at}
use ldd.Scullp.Locate.{SameShape}
use ldd.Scullp.Valid.{IsValid}

-- Every quantum but one is what it was.
abbrev pub SameElsewhere : Dev → ℕ → ℕ → Dev → Type 0
SameElsewhere d item s e = (i t : ℕ) → (i ≢ item) ⊎ (t ≢ s) → quantum_at e i t ≡ quantum_at d i t

module _ (page_size : ℕ) where
  -- What quantum `s` of an item holds before bytes are stored in it: its bytes, or the zeros of a
  -- block that has just been allocated.
  pub data Base (d : Dev) (item s : ℕ) (b : List ℕ) : Type 0 where
    old : quantum_at d item s ≡ some b → Base d item s b
    blank :
        quantum_at d item s ≡ none
        → b ≡ replicate (pages page_size (get_item d item).order) 0
        → Base d item s b

  -- A write of `buf` at offset `q` of quantum `s` of item `item`: stored there and nowhere else, or
  -- failed, with the position, the size and all other quanta as they were.
  pub data Stores (d : Dev) (f_pos : ℕ) (buf : List ℕ) (count item s q : ℕ) (r : Done)
      : Type 0 where
    stored :
        (b : List ℕ)
        → Base d item s b
        → r.ret ≡ ok (clip page_size d q count)
        → r.f_pos ≡ f_pos + clip page_size d q count
        → r.dev.size ≡ (if ltb d.size r.f_pos then r.f_pos else d.size)
        → quantum_at r.dev item s ≡ some (store b q (take (clip page_size d q count) buf))
        → SameElsewhere d item s r.dev
        → Stores d f_pos buf count item s q r
    failed :
        (e : Errno)
        → r.ret ≡ err e
        → r.f_pos ≡ f_pos
        → r.dev.size ≡ d.size
        → SameElsewhere d item s r.dev
        → Stores d f_pos buf count item s q r

  pub record Good (d : Dev) (f_pos : ℕ) (buf : List ℕ) (count item s q : ℕ) (o : Option Done)
      : Type 0 where
    pub result : Done
    pub returns : o ≡ some result
    pub effect : Stores d f_pos buf count item s q result
    pub valid : IsValid page_size result.dev
    pub shape : SameShape d result.dev
