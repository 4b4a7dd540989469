-- ===== src/Short/Stamps.antt =====
-- short/short.c, short_interrupt: where the time stamps go.
use ldd.Common.{
  ℕ, zero, suc, ◌+◌, ◌/◌, ◌%◌, ◌^◌, ◌≤◌, ◌<◌, ◌≡◌, refl, sym, ap, ◌∙◌, true, false, Option, none,
  some, List, [], ◌∷◌, ◌++◌, arith, ltb, leb, ◌==◌, ==_iff, length, length-append, slice, store,
  slice-store_before, length-store,
}
use ldd.Short.{Ring, fixed_digits, zero_padded, stamp, short_incr_bp, short_interrupt}

length-fixed_digits : (w n : ℕ) → length (fixed_digits w n) ≡ w
length-fixed_digits zero n = refl
length-fixed_digits (suc w) n =
    length-append (fixed_digits w (n / 10)) ((48 + n % 10) ∷ [])
    ∙ ap (λ l. l + 1) (length-fixed_digits w (n / 10))
    ∙ omega arith

length-zero_padded : (w n : ℕ) → n / 10 ^ w ≡ 0 → length (zero_padded w n) ≡ w
length-zero_padded w n h = rw h (length-fixed_digits w n)

length-parts :
    (xs ys : List ℕ) (a b : ℕ)
    → length xs ≡ 8
    → length ys ≡ 6
    → length (xs ++ (a ∷ (ys ++ (b ∷ [])))) ≡ 16
length-parts xs ys a b h k =
    let outer = length-append xs (a ∷ (ys ++ (b ∷ []))) in
    let inner = length-append ys (b ∷ []) in omega arith

-- The text is 16 bytes long, as the code asserts.
length-stamp : (tv_sec tv_nsec : ℕ) → tv_nsec < 1000000000 → length (stamp tv_sec tv_nsec) ≡ 16
unfolding stamp
length-stamp tv_sec tv_nsec h =
    length-parts (zero_padded 8 (tv_sec % 100000000)) (zero_padded 6 (tv_nsec / 1000)) 46 10
      (length-zero_padded 8 (tv_sec % 100000000) (omega arith))
      (length-zero_padded 6 (tv_nsec / 1000) (omega arith))

-- The head stands at a multiple of 16 in a page of a multiple of 16 bytes.
pub record IsAligned (page_size : ℕ) (r : Ring) : Type 0 where
  pub page_sixteen : page_size % 16 ≡ 0
  pub head_sixteen : r.head % 16 ≡ 0
  pub head_in : r.head < page_size
  pub whole : length r.page ≡ page_size

-- The stamp stands where the head was, and the head is 16 bytes on.
pub record Stamped (page_size tv_sec tv_nsec : ℕ) (r : Ring) (o : Option Ring) : Type 0 where
  pub result : Ring
  pub returns : o ≡ some result
  pub text : slice result.page r.head 16 ≡ stamp tv_sec tv_nsec
  pub before : (i n : ℕ) → i + n ≤ r.head → slice result.page i n ≡ slice r.page i n
  pub moved : result.head ≡ r.head + 16
  pub reader : result.tail ≡ r.tail
  pub aligned : IsAligned page_size result

cut_nul :
    (b text : List ℕ) (i : ℕ)
    → i + length text + 1 ≤ length b
    → slice (store b i (text ++ (0 ∷ []))) i (length text) ≡ text
cut_nul [] text i h = absurd (omega arith)
cut_nul (x ∷ b) text (suc i) h = cut_nul b text i (omega arith)
cut_nul (x ∷ b) [] zero h = refl
cut_nul (x ∷ b) (t ∷ text) zero h = ap (◌∷◌ t) (cut_nul b text zero (omega arith))

-- An interrupt in any place but the last of the page stores its time stamp there, keeps the bytes in
-- front of it and moves the head behind it. In the last place of the page the text fits, and the NUL
-- that `sprintf` puts behind it lies outside of the page.
pub short_interrupt_lem :
    (page_size : ℕ) (r : Ring) (tv_sec tv_nsec : ℕ)
    → tv_nsec < 1000000000
    → IsAligned page_size r
    → ((r.head + 16 < page_size)
        → Stamped page_size tv_sec tv_nsec r (short_interrupt page_size r tv_sec tv_nsec))
      × ((r.head + 16 ≡ page_size) → short_interrupt page_size r tv_sec tv_nsec ≡ none)
unfolding short_interrupt short_incr_bp
short_interrupt_lem page_size r tv_sec tv_nsec h a =
    let text = stamp tv_sec tv_nsec in
    let len : length text ≡ 16 = length-stamp tv_sec tv_nsec h in
    let whole = a.whole in
    (
      λ room.
          let fits : ltb page_size (r.head + length text + 1) ≡ false = ground arith in
          let sixteen : (length text == 16) ≡ true = (==_iff (length text) 16).1 len in
          let on : leb page_size (r.head + length text) ≡ false = ground arith in
          let head_sixteen = a.head_sixteen in
          let copied : slice (store r.page r.head (text ++ (0 ∷ []))) r.head 16 ≡ text =
            ap (slice (store r.page r.head (text ++ (0 ∷ []))) r.head) (sym len)
            ∙ cut_nul r.page text r.head (omega arith) in
          simp (fits, sixteen, on)
            (record {
              result = record r {
                page = store r.page r.head (text ++ (0 ∷ []));
                head = r.head + length text;
              };
              returns = refl;
              text = copied;
              before = λ i n k. slice-store_before r.page i n r.head (text ++ (0 ∷ [])) k;
              moved = ap (λ l. r.head + l) len;
              reader = refl;
              aligned = record {
                page_sixteen = a.page_sixteen;
                head_sixteen = omega arith;
                head_in = omega arith;
                whole = length-store r.page r.head (text ++ (0 ∷ [])) ∙ whole;
              };
            }),
      λ last.
          let over : ltb page_size (r.head + length text + 1) ≡ true = ground arith in simp over,
    )
