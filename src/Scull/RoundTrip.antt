-- ===== src/Scull/RoundTrip.antt =====
-- scull_char_device/main.c: a read after a write.
use ldd.Common.{
  ℕ, zero, suc, ◌+◌, ◌-◌, ◌*◌, ◌%◌, ℕ_discrete, ◌≤◌, ◌<◌, ◌≡◌, refl, sym, ap, ap₂, ◌∙◌, subst, Bool,
  true, false, Option, none, some, List, [], ◌∷◌, ltb, if◌then◌else◌, length, length-take, take,
  get_or, get_elem?, get_elem?-take, ◌⊎◌, inl, inr, arith, Option-cases, Errno, ok, err,
}
use ldd.Common.User.{UserCopy}
use ldd.Scull.{
  Dev, Done, Follow, Quantum, QSet, item_of, s_pos_of, q_pos_of, scull_read, scull_write,
  scull_open, scull_trim, write_only,
}
use ldd.Scull.Bytes.{quantum_in, block_at, byte_in, byte_at, IsValid}
use ldd.Scull.Effects.{span, Writes, wrote, failed}
use ldd.Scull.Write.{scull_write-Good}
use ldd.Scull.Give.{Reads, readable, gave, nothing}
use ldd.Scull.Read.{scull_read-ReadGood}

-- Lists of one length with the same elements are equal.
ext {ℓ} :
    {A : Type ℓ} (xs ys : List A)
    → length xs ≡ length ys
    → ((k : ℕ) → k < length xs → get_elem? xs k ≡ get_elem? ys k)
    → xs ≡ ys
ext [] [] h e = refl
ext [] (y ∷ ys) h e = absurd (omega arith)
ext (x ∷ xs) [] h e = absurd (omega arith)
ext (x ∷ xs) (y ∷ ys) h e =
    let first = e 0 (omega arith) in
    let same : x ≡ y = cc in
    ap₂ ◌∷◌ same (ext xs ys (omega arith) (λ k k'. e (suc k) (omega arith)))

-- An item that holds a block is one of the list.
set_at-in :
    (sets : List QSet) (i s : ℕ) (b : List ℕ)
    → quantum_in (get_or sets i none) s ≡ some b
    → i < length sets
set_at-in [] i s b e = cc
set_at-in (x ∷ sets) zero s b e = omega arith
set_at-in (x ∷ sets) (suc i) s b e = let h = set_at-in sets i s b e in omega arith

get_elem?-some {ℓ} :
    {A : Type ℓ} (xs : List A) (k : ℕ) → k < length xs → (x : A) × (get_elem? xs k ≡ some x)
get_elem?-some [] k h = absurd (omega arith)
get_elem?-some (x ∷ xs) zero h = (x, refl)
get_elem?-some (x ∷ xs) (suc k) h = get_elem?-some xs k (omega arith)

pub ok_inj : {m n : ℕ} → ok m ≡ ok n → m ≡ n
ok_inj e = cc

grown_past :
    (old new f_pos end : ℕ) → f_pos ≡ end → new ≡ (if ltb old f_pos then f_pos else old) → end ≤ new
grown_past old new f_pos end e h = ground arith

-- What the read gives, with the bytes written, or an error.
abbrev pub GivesBack : List ℕ → ℕ → Done → Type 0
GivesBack buf n r = ((r.ret ≡ ok n) × (r.bytes ≡ take n buf)) ⊎ ((e : Errno) × (r.ret ≡ err e))

-- Where a byte was stored there is a block.
module _ (pos : ℕ) (buf : List ℕ) (w : Done) (n : ℕ) (short : n ≤ length buf)
    (stored : (k : ℕ) → k < n → byte_at w.dev (pos + k) ≡ get_elem? buf k) where
  block_there :
      0 < n → (b : List ℕ) × (block_at w.dev (item_of w.dev pos) (s_pos_of w.dev pos) ≡ some b)
  block_there h = elim (Option-cases (block_at w.dev (item_of w.dev pos) (s_pos_of w.dev pos))) [
    | inr (b, e) ↦ (b, e)
    | inl e ↦
        let (x, there) = get_elem?-some buf 0 (omega arith) in
        let at_pos : pos + 0 ≡ pos = omega arith in
        let gone : byte_at w.dev pos ≡ none =
          ap (λ (y : Quantum). byte_in y (q_pos_of w.dev pos)) e in
        let here : byte_at w.dev pos ≡ get_elem? buf 0 =
          ap (byte_at w.dev) (sym at_pos) ∙ stored 0 h in
        let never = sym gone ∙ here ∙ there in cc
  ]

module _ (d : Dev) (pos : ℕ) (buf : List ℕ) (w : Done) (n : ℕ) (valid : IsValid w.dev)
    (short : n ≤ length buf) (stored : (k : ℕ) → k < n → byte_at w.dev (pos + k) ≡ get_elem? buf k)
    (sized : pos + n ≤ w.dev.size) (fits : n ≤ w.dev.quantum - q_pos_of w.dev pos) where
  readable-all : pos < w.dev.size → readable w.dev pos n ≡ n
  readable-all h = ground arith

  read_back-gave :
      (r : Done)
      → length r.bytes ≡ n
      → ((k : ℕ) → k < n → get_elem? r.bytes k ≡ byte_at w.dev (pos + k))
      → r.bytes ≡ take n buf
  read_back-gave r len bytes =
      ext r.bytes (take n buf) (len ∙ sym (length-take n buf ∙ omega arith)) (λ k h.
        bytes k (omega arith) ∙ stored k (omega arith) ∙ sym (get_elem?-take n buf k (omega arith)))

  never_nothing :
      (f : Follow)
      → 0 < n
      → (w.dev.size ≤ pos)
        ⊎ ((block_at w.dev (item_of w.dev pos) (s_pos_of w.dev pos) ≡ none)
            ⊎ ((f.follow w.dev (item_of w.dev pos)).0 ≡ false))
      → ⊥
  never_nothing f h (inl z) = omega arith
  never_nothing f h (inr (inl e)) = let (b, there) = block_there pos buf w n short stored h in cc
  never_nothing f h (inr (inr e)) =
      let (b, there) = block_there pos buf w n short stored h in
      let there_is =
        f.finds w.dev (item_of w.dev pos)
          (set_at-in w.dev.sets (item_of w.dev pos) (s_pos_of w.dev pos) b there) in
      cc

  read_back :
      (f : Follow) (r : Done)
      → Reads (f.follow w.dev (item_of w.dev pos)).0 w.dev pos n r
      → GivesBack buf n r
  read_back f r (gave before ret moved len bytes) =
      let all = readable-all before in
      inl (ret ∙ ap ok all, read_back-gave r (len ∙ all) (λ k h. bytes k (omega arith)))
  read_back f r (Reads.failed e ret which stays) = inr (e, ret)
  read_back f r (nothing why ret stays empty) = elim (ℕ_discrete 0 n) [
    | yes z ↦ inl (ret ∙ ap ok z, empty ∙ ap (λ (m : ℕ). take m buf) z)
    | no z ↦ absurd (never_nothing f (omega arith) why)
  ]

-- After a write to a valid device has answered that it took `n` bytes, a read of `n` bytes at the same
-- position does not fault, and gives the first `n` bytes of the buffer or answers an error.
pub scull_read-write :
    (u : UserCopy) (f : Follow) (d : Dev) (pos : ℕ) (buf : List ℕ) (count : ℕ)
    (interrupted array_ok : Bool) (fresh : Quantum) (w : Done) (n : ℕ) (again : Bool)
    → IsValid d
    → ((b : List ℕ) → fresh ≡ some b → length b ≡ d.quantum)
    → scull_write u f d pos buf count interrupted array_ok fresh ≡ some w
    → w.ret ≡ ok n
    → (r : Done) × (scull_read u f w.dev pos n again ≡ some r) × GivesBack buf n r
scull_read-write u f d pos buf count interrupted array_ok fresh w n again v new ran ret =
    let g = scull_write-Good u f pos buf count fresh d interrupted array_ok v new in
    let same : g.result ≡ w = cc in
    let effect = subst (Writes d pos buf count fresh) same g.effect in
    let valid = subst (λ (x : Done). IsValid x.dev) same g.valid in
    let q = subst (λ (x : Done). x.dev.quantum ≡ d.quantum) same g.quantum in
    let s = subst (λ (x : Done). x.dev.qset ≡ d.qset) same g.qset in
    let rg = scull_read-ReadGood u f pos n w.dev again valid in
    elim effect [
      | failed e bad stays size kept ↦ let never = sym ret ∙ bad in cc
      | wrote took short moved sized stored kept ↦
          let all : span d pos count ≡ n = ok_inj (sym took ∙ ret) in
          let place : q_pos_of w.dev pos ≡ q_pos_of d pos =
            ap₂ (λ (a b : ℕ). pos % (a * b) % a) q s in
          let grown : pos + n ≤ w.dev.size =
            grown_past d.size w.dev.size w.f_pos (pos + n) (moved ∙ ap (λ (m : ℕ). pos + m) all)
              sized in
          (
            rg.result,
            rg.returns,
            read_back d pos buf w n valid (omega arith) (λ k h. stored k (omega arith)) grown
                (omega arith) f rg.result rg.effect,
          )
    ]

trim_lost : (d : Dev) (i quantum qset : ℕ) → i < length d.sets → scull_trim d quantum qset ≡ none
unfolding scull_trim
trim_lost d i quantum qset h = go d.sets h
  where
    go :
        (sets : List QSet)
        → i < length sets
        → ◌≡◌ {A = Option Dev}
            (elim sets [
              | x ∷ rest ↦ none
              | [] ↦ some (record d { sets = []; size = 0; quantum = quantum; qset = qset })
            ])
            none
    go [] h = absurd (omega arith)
    go (x ∷ rest) h = refl

-- A device to which at least one byte has been written cannot be opened for writing only: the loop of
-- its trim goes on at a pointer that was never assigned.
pub scull_open-write :
    (u : UserCopy) (f : Follow) (d : Dev) (pos : ℕ) (buf : List ℕ) (count : ℕ)
    (interrupted array_ok : Bool) (fresh : Quantum) (w : Done) (n : ℕ)
    (f_flags scull_quantum scull_qset : ℕ)
    → IsValid d
    → ((b : List ℕ) → fresh ≡ some b → length b ≡ d.quantum)
    → scull_write u f d pos buf count interrupted array_ok fresh ≡ some w
    → w.ret ≡ ok n
    → 0 < n
    → write_only f_flags ≡ true
    → scull_open w.dev f_flags scull_quantum scull_qset ≡ none
unfolding scull_open
scull_open-write u f d pos buf count interrupted array_ok fresh w n f_flags scull_quantum scull_qset
      v new ran ret some_bytes flags =
    let g = scull_write-Good u f pos buf count fresh d interrupted array_ok v new in
    let same : g.result ≡ w = cc in
    let effect = subst (Writes d pos buf count fresh) same g.effect in
    let valid = subst (λ (x : Done). IsValid x.dev) same g.valid in
    elim effect [
      | failed e bad stays size kept ↦ let never = sym ret ∙ bad in cc
      | wrote took short moved sized stored kept ↦
          let all : span d pos count ≡ n = ok_inj (sym took ∙ ret) in
          let (b, there) =
            block_there pos buf w n (omega arith) (λ k h. stored k (omega arith)) some_bytes in
          let lost =
            trim_lost w.dev (item_of w.dev pos) scull_quantum scull_qset
              (set_at-in w.dev.sets (item_of w.dev pos) (s_pos_of w.dev pos) b there) in
          rw (flags, lost, scull_open)
    ]
