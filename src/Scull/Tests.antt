-- ===== src/Scull/Tests.antt =====
-- Runs of the scull model on a device with quanta of 4 bytes, 2 to an item.
use ldd.Common.{
  ℕ, zero, suc, ◌<◌, ◌≡◌, refl, sym, ap, true, false, none, some, List, [], ◌∷◌, length, get_or,
  arith, ok,
}
use ldd.Common.User.{mapped}
use ldd.Scull.{
  Dev, Done, Follow, QSet, Quantum, set_at, scull_read, scull_write, scull_open, read_block,
  read_set, write_block, write_quantum, write_set,
}
use ldd.Scull.Bytes.{IsValid, block_at}
use ldd.Scull.Effects.{Good}
use ldd.Scull.Write.{scull_write-Good}
use ldd.Scull.Give.{ReadGood}
use ldd.Scull.Read.{scull_read-ReadGood}
use ldd.Scull.Log.{Entry}
use ldd.Scull.Session.{Call, reads, writes, run, Ran, run-Ran}
use ldd.Scull.RoundTrip.{GivesBack, scull_read-write, scull_open-write}

-- A scull_follow that appends what is missing.
abbrev pad : List QSet → ℕ → List QSet
pad sets zero = sets
pad (x ∷ sets) (suc n) = x ∷ pad sets n
pad [] (suc n) = none ∷ pad [] n

get_or-pad : (sets : List QSet) (n i : ℕ) → get_or (pad sets n) i none ≡ get_or sets i none
get_or-pad sets zero i = refl
get_or-pad (x ∷ sets) (suc n) zero = refl
get_or-pad (x ∷ sets) (suc n) (suc i) = get_or-pad sets n i
get_or-pad [] (suc n) zero = refl
get_or-pad [] (suc n) (suc i) = get_or-pad [] n i

length-pad : (sets : List QSet) (n : ℕ) → n < length (pad sets (suc n))
length-pad [] zero = omega arith
length-pad [] (suc n) = let h = length-pad [] n in omega arith
length-pad (x ∷ sets) zero = omega arith
length-pad (x ∷ sets) (suc n) = let h = length-pad sets n in omega arith

abbrev growing : Follow
growing = record {
  follow = λ d n. (true, record d { sets = pad d.sets (suc n) });
  grown = λ d n. refl;
  same = λ d n i. get_or-pad d.sets (suc n) i;
  reaches = λ d n e. length-pad d.sets n;
  finds = λ d n h. refl;
}

abbrev empty : Dev
empty = record { sets = []; quantum = 4; qset = 2; size = 0; access_key = 0; locked = false }

empty-IsValid : IsValid empty
empty-IsValid = record {
  quantum_pos = omega arith;
  qset_pos = omega arith;
  array_fits = λ i qs e. cc;
  block_fits = λ i s b e. cc;
  free = refl;
}

abbrev block : Quantum
block = some (9 ∷ 9 ∷ 9 ∷ 9 ∷ [])

block_fits : (b : List ℕ) → block ≡ some b → length b ≡ 4
block_fits b e = let same : 9 ∷ 9 ∷ 9 ∷ 9 ∷ [] ≡ b = cc in ap length (sym same)

abbrev text : List ℕ
text = 1 ∷ 2 ∷ 3 ∷ 4 ∷ 5 ∷ []

abbrev written : Done
written = record {
  ret = ok 3;
  bytes = [];
  f_pos = 8;
  dev = record empty { sets = some (none ∷ some (9 ∷ 1 ∷ 2 ∷ 3 ∷ []) ∷ []) ∷ []; size = 8 };
}

written_arrays : (i : ℕ) (qs : List Quantum) → set_at written.dev i ≡ some qs → length qs ≡ 2
written_arrays zero qs e =
    let same : none ∷ some (9 ∷ 1 ∷ 2 ∷ 3 ∷ []) ∷ [] ≡ qs = cc in ap length (sym same)
written_arrays (suc i) qs e = cc

written_blocks : (i s : ℕ) (b : List ℕ) → block_at written.dev i s ≡ some b → length b ≡ 4
written_blocks zero zero b e = cc
written_blocks zero (suc zero) b e = let same : 9 ∷ 1 ∷ 2 ∷ 3 ∷ [] ≡ b = cc in ap length (sym same)
written_blocks zero (suc (suc s)) b e = cc
written_blocks (suc i) s b e = cc

written-IsValid : IsValid written.dev
written-IsValid = record {
  quantum_pos = omega arith;
  qset_pos = omega arith;
  array_fits = written_arrays;
  block_fits = written_blocks;
  free = refl;
}

wrote_text : scull_write mapped growing empty 5 text 5 false true block ≡ some written
unfolding scull_write write_set write_quantum write_block
wrote_text = refl

-- The byte in front of the position was never written: it is what the new block held.
reads_stale :
    scull_read mapped growing written.dev 4 2 false
    ≡ some (record { ret = ok 2; bytes = 9 ∷ 1 ∷ []; f_pos = 6; dev = written.dev })
unfolding scull_read read_set read_block
reads_stale = refl

scull_write-Good_example :
    Good empty 5 text 5 block (scull_write mapped growing empty 5 text 5 false true block)
scull_write-Good_example =
    scull_write-Good mapped growing 5 text 5 block empty false true empty-IsValid block_fits

scull_read-ReadGood_example :
    ReadGood true written.dev 5 2 (scull_read mapped growing written.dev 5 2 false)
scull_read-ReadGood_example =
    scull_read-ReadGood mapped growing 5 2 written.dev false written-IsValid

scull_read-write_example :
    (r : Done) × (scull_read mapped growing written.dev 5 3 false ≡ some r) × GivesBack text 3 r
scull_read-write_example =
    scull_read-write mapped growing empty 5 text 5 false true block written 3 false empty-IsValid
      block_fits wrote_text refl

scull_open-write_example : scull_open written.dev 1 4 2 ≡ none
scull_open-write_example =
    scull_open-write mapped growing empty 5 text 5 false true block written 3 1 4 2 empty-IsValid
      block_fits wrote_text refl (omega arith) refl

abbrev nothing_known : List Entry
nothing_known = []

abbrev calls : List Call
calls =
    writes mapped 5 text 5 false true block
    ∷ reads mapped 4 9 false
    ∷ writes mapped 6 (7 ∷ 7 ∷ []) 2 false true none
    ∷ writes mapped 20 text 2 true true none
    ∷ []

run-Ran_example : Ran (run growing calls empty nothing_known)
run-Ran_example =
    run-Ran growing calls empty nothing_known empty-IsValid
      (block_fits, (tt, (λ b e. cc, (λ b e. cc, tt)))) (λ p v e. cc)
