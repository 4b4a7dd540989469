-- ===== src/Demos/NbTest/Copies.antt =====
-- nbtest.c: what arrives at its output.
use ldd.Common.{
  ℕ, zero, suc, ◌+◌, ◌-◌, ◌≡◌, refl, sym, ap, ◌∙◌, none, some, List, [], ◌∷◌, ◌++◌, length,
  length-append, length-take, take, arith, append_assoc, append-nil, Option-cases, inl, inr,
}
use ldd.Demos.NbTest.{
  Answer, done, fails, Took, some_bytes, no_bytes, Put, some_put, none_put, Calls, after_write,
  after_read, round, nbtest,
}

-- Bytes that stand in the second list in the same order, with others between them.
pub data Within : List ℕ → List ℕ → Type 0 where
  ends : Within [] []
  keeps : (x : ℕ) (xs ys : List ℕ) → Within xs ys → Within (x ∷ xs) (x ∷ ys)
  loses : (xs : List ℕ) (y : ℕ) (ys : List ℕ) → Within xs ys → Within xs (y ∷ ys)

nil-Within : (ys : List ℕ) → Within [] ys
nil-Within [] = ends
nil-Within (y ∷ ys) = loses [] y ys (nil-Within ys)

take-Within : (m : ℕ) (ys : List ℕ) → Within (take m ys) ys
take-Within zero ys = nil-Within ys
take-Within (suc m) [] = ends
take-Within (suc m) (y ∷ ys) = keeps y (take m ys) ys (take-Within m ys)

append-Within : (xs ys vs ws : List ℕ) → Within xs ys → Within vs ws → Within (xs ++ vs) (ys ++ ws)
append-Within _ _ vs ws ends w = w
append-Within _ _ vs ws (keeps x xs ys h) w =
    keeps x (xs ++ vs) (ys ++ ws) (append-Within xs ys vs ws h w)
append-Within _ _ vs ws (loses xs y ys h) w =
    loses (xs ++ vs) y (ys ++ ws) (append-Within xs ys vs ws h w)

module _ {S : Type 0} (c : Calls S) where
  -- The bytes of a round that were read and that the write did not take.
  abbrev pub lost_by : List ℕ → Answer ℕ → ℕ
  lost_by bytes (done m) = length bytes - m
  lost_by bytes (fails e) = length bytes

  abbrev pub lost_after : Answer (List ℕ) × S → ℕ
  lost_after (fails e, s) = 0
  lost_after (done bytes, s) = lost_by bytes (c.write bytes s).0

  -- And those of the rounds that nbtest runs.
  unfoldable pub lost : ℕ → S → ℕ
  lost zero s = 0
  lost (suc rounds) s =
      let rest = lost rounds (round c s).1 in
      lost_after (c.read s) + elim (round c s).0 [ none ↦ rest | some e ↦ 0 ]

  -- What has been read from the input, what of it has been written, and how much is missing.
  pub record Copied (s t : S) (missing : ℕ) : Type 0 where
    pub taken : List ℕ
    pub kept : List ℕ
    pub from : taken ++ c.source t ≡ c.source s
    pub to : c.sink t ≡ c.sink s ++ kept
    pub in_order : Within kept taken
    pub lacks : length taken ≡ length kept + missing

  nothing-Copied : (s t : S) → c.source t ≡ c.source s → c.sink t ≡ c.sink s → Copied s t 0
  nothing-Copied s t h k = record {
    taken = [];
    kept = [];
    from = h;
    to = k ∙ sym (append-nil (c.sink s));
    in_order = ends;
    lacks = refl;
  }

  written-Copied :
      (s t v : S) (bytes : List ℕ) (a : Answer ℕ)
      → bytes ++ c.source t ≡ c.source s
      → c.sink t ≡ c.sink s
      → Put bytes (c.source t) (c.sink t) (c.source v) (c.sink v) a
      → Copied s v (lost_by bytes a)
  written-Copied s t v bytes _ h k (some_put m same more) = record {
    taken = bytes;
    kept = take m bytes;
    from = ap (◌++◌ bytes) same ∙ h;
    to = more ∙ ap (λ xs. xs ++ take m bytes) k;
    in_order = take-Within m bytes;
    lacks = omega (arith, length-take m bytes);
  }
  written-Copied s t v bytes _ h k (none_put e same as_was) = record {
    taken = bytes;
    kept = [];
    from = ap (◌++◌ bytes) same ∙ h;
    to = as_was ∙ k ∙ sym (append-nil (c.sink s));
    in_order = nil-Within bytes;
    lacks = omega arith;
  }

  after_write-state : (a : Answer ℕ) (s : S) → (after_write c (a, s)).1 ≡ s
  after_write-state (done m) s = refl
  after_write-state (fails e) s = refl

  after_read-Copied :
      (s t : S) (a : Answer (List ℕ))
      → Took (c.source s) (c.sink s) (c.source t) (c.sink t) a
      → Copied s (after_read c (a, t)).1 (lost_after (a, t))
  after_read-Copied s t _ (no_bytes e h k) = nothing-Copied s t h k
  after_read-Copied s t _ (some_bytes bytes h k) =
      let r = c.write bytes t in
      rw (after_write-state r.0 r.1) (written-Copied s t r.1 bytes r.0 h k (c.writes bytes t))

  then-Copied : (s t v : S) (a b : ℕ) → Copied s t a → Copied t v b → Copied s v (a + b)
  then-Copied s t v a b p q =
      let first = p.lacks in
      let second = q.lacks in
      record {
        taken = p.taken ++ q.taken;
        kept = p.kept ++ q.kept;
        from = append_assoc p.taken q.taken (c.source v) ∙ ap (◌++◌ p.taken) q.from ∙ p.from;
        to = q.to ∙ ap (λ xs. xs ++ q.kept) p.to ∙ append_assoc (c.sink s) p.kept q.kept;
        in_order = append-Within p.kept p.taken q.kept q.taken p.in_order q.in_order;
        lacks = omega (arith, length-append p.taken q.taken, length-append p.kept q.kept);
      }

  -- Whatever the calls answer, and however long nbtest runs: what has arrived at its output stands in
  -- the same order in what it has read, nothing twice and nothing made up; and what is missing from it
  -- are the bytes that the writes did not take, when they were refused or took a part only.
  pub nbtest-Copied : (rounds : ℕ) (s : S) → Copied s (nbtest c rounds s).1 (lost rounds s)
  unfolding nbtest lost
  nbtest-Copied zero s = nothing-Copied s s refl refl
  nbtest-Copied (suc rounds) s =
      let t = (round c s).1 in
      let first = after_read-Copied s (c.read s).1 (c.read s).0 (c.reads s) in
      elim (Option-cases (round c s).0) [
        | inl e ↦
            rw (e, nbtest)
              (then-Copied s t _ (lost_after (c.read s)) (lost rounds t) first
                (nbtest-Copied rounds t))
        | inr (x, e) ↦
            rw (e, nbtest)
              (then-Copied s t t (lost_after (c.read s)) 0 first (nothing-Copied t t refl refl))
      ]
