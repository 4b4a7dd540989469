-- ===== src/Scullp/Tests.antt =====
-- Runs of the scullp model on small devices: pages of four bytes, two quanta in an item.
use ldd.Common.{
  Bool, not, ◌==◌, ℕ, zero, suc, ◌+◌, ◌≤◌, ◌<◌, ◌≡◌, refl, sym, ap, subst, true, false, none, some,
  List, [], ◌∷◌, arith, length, inl, ok, pos,
}
use ldd.Common.User.{mapped}
use ldd.Common.Registry.{Registry}
use ldd.Scullp.Module
use ldd.Scullp.Module.{scullp_init, scullp_init-Inits}
use ldd.Scullp.Ioctl.{Cmd, Params, UserAccess}
use ldd.Scullp.{
  Dev, Done, Quantum, get_item, get_quantum, scullp_read, scullp_write, scullp_follow, follow_next,
  write_quantum, allocate_quantum, allocate_array,
}
use ldd.Scullp.Valid.{IsValid, ItemFits}
use ldd.Scullp.WriteAt.{Fits, scullp_write-Good}
use ldd.Scullp.Read.{ReadGood, scullp_read-ReadGood}
use ldd.Scullp.Mmap.{scullp_vma_nopage, scullp_mmap, scullp_vma_open, find_page}
use ldd.Scullp.Session.{Call, Session, opens, reads, writes, seeks, maps, unmaps}

abbrev empty_of : ℕ → Dev
empty_of order = record {
  first = record { quanta = none; order = order };
  next = [];
  vmas = pos 0;
  qset = 2;
  size = 0;
  locked = false;
}

abbrev fresh : Dev
fresh = empty_of 0

empty-IsValid : (order : ℕ) → IsValid 4 (empty_of order)
empty-IsValid order = record {
  qset_pos = omega arith;
  fits = fits;
  order_behind = λ i. refl;
  free = refl;
}
  where
    fits : (i : ℕ) → ItemFits 4 2 (get_item (empty_of order) i)
    fits zero = record { array_fits = λ qs e. cc; block_fits = λ s b e. cc }
    fits (suc i) = record { array_fits = λ qs e. cc; block_fits = λ s b e. cc }

fresh-Fits : (f_pos count : ℕ) → f_pos < 8 → count ≤ 2 → Fits 4 fresh f_pos count 0
fresh-Fits f_pos count h k = record { memory = omega arith; block = ground arith }

-- The device after `5 ∷ 6 ∷ []` was stored at the start of its first quantum.
abbrev written_to : ℕ → Done
written_to f_pos = record {
  ret = ok 2;
  bytes = [];
  f_pos = f_pos + 2;
  dev = record fresh {
    first = record { quanta = some (some (5 ∷ 6 ∷ 0 ∷ 0 ∷ []) ∷ none ∷ []); order = 0 };
    size = f_pos + 2;
  };
}

write_at_0 : scullp_write 4 mapped fresh 0 (5 ∷ 6 ∷ []) 2 false 0 true true ≡ some (written_to 0)
unfolding scullp_write scullp_follow follow_next allocate_array allocate_quantum write_quantum
write_at_0 = refl

-- The same bytes land at the same place from position 2.
write_at_2 : scullp_write 4 mapped fresh 2 (5 ∷ 6 ∷ []) 2 false 0 true true ≡ some (written_to 2)
unfolding scullp_write scullp_follow follow_next allocate_array allocate_quantum write_quantum
write_at_2 = refl

written-IsValid : IsValid 4 (written_to 0).dev
written-IsValid =
    let g =
      scullp_write-Good 4 fresh mapped 0 (5 ∷ 6 ∷ []) 2 false 0 true true (omega arith)
        (empty-IsValid 0) (fresh-Fits 0 2 (omega arith) (omega arith)) in
    let same : g.result ≡ written_to 0 = cc (g.returns, write_at_0) in
    subst (λ r. IsValid 4 r.dev) same g.valid

scullp_read-ReadGood_example :
    ReadGood 4 mapped
      (written_to 0).dev
      1
      4
      false
      (scullp_read 4 mapped (written_to 0).dev 1 4 false 0)
scullp_read-ReadGood_example =
    scullp_read-ReadGood 4 mapped (written_to 0).dev 1 4 false 0 (omega arith) written-IsValid
      (omega arith) (inl refl)

abbrev eight : List ℕ
eight = 1 ∷ 2 ∷ 3 ∷ 4 ∷ 5 ∷ 6 ∷ 7 ∷ 8 ∷ []

abbrev large : Dev
large = record (empty_of 1) {
  first = record { quanta = some (some eight ∷ none ∷ []); order = 1 };
  size = 8;
}

large-IsValid : IsValid 4 large
large-IsValid = record {
  qset_pos = omega arith;
  fits = fits;
  order_behind = λ i. refl;
  free = refl;
}
  where
    array_fits : (qs : List Quantum) → some (some eight ∷ none ∷ []) ≡ some qs → length qs ≡ 2
    array_fits qs e = let same : some eight ∷ none ∷ [] ≡ qs = cc in ap length (sym same)

    block_fits :
        (s : ℕ) (b : List ℕ) → get_quantum (some (some eight ∷ none ∷ [])) s ≡ some b → length b ≡ 8
    block_fits zero b e = let same : eight ≡ b = cc in ap length (sym same)
    block_fits (suc zero) b e = cc
    block_fits (suc (suc s)) b e = cc

    fits : (i : ℕ) → ItemFits 4 2 (get_item large i)
    fits zero = record { array_fits = array_fits; block_fits = block_fits }
    fits (suc i) = record { array_fits = λ qs e. cc; block_fits = λ s b e. cc }

large_mapped : scullp_mmap large ≡ (ok 0, record large { vmas = pos 1 })
unfolding scullp_mmap scullp_vma_open
large_mapped = refl

large_found : scullp_vma_nopage 4 (record large { vmas = pos 1 }) 96 96 0 ≡ some eight
unfolding scullp_vma_nopage find_page
large_found = refl

abbrev calls : List Call
calls =
    opens 1 false
    ∷ writes mapped (5 ∷ 6 ∷ []) 2 false true true
    ∷ maps
    ∷ seeks (pos 30) 0
    ∷ writes mapped (7 ∷ []) 1 false true false
    ∷ unmaps
    ∷ seeks (pos 0) 0
    ∷ reads mapped 4 false
    ∷ []

-- SCULLP_IOCXQSET, with an address that can be read and written.
abbrev exchange_qset : Cmd
exchange_qset = record {
  ioc_read = true;
  ioc_write = true;
  ioc_type = 75;
  ioc_nr = 11;
  ioc_size = 4;
}

abbrev params : Params
params = record { scullp_order = pos 1; scullp_qset = pos 20 }

abbrev address : UserAccess
address = record { access_ok = true; get_fails = false; got = pos 40; put_fails = false }

abbrev busy_kernel : Registry
busy_kernel = record { regions = 3; cdevs = 5; blocks = 8 }

abbrev unloaded : Module.Module
unloaded = record { major = 0; qset = 2; order = 0; devs = 4; devices = none }

abbrev but_second : ℕ → Bool
but_second i = not (i == 1)

scullp_init-Inits_example :
    Module.Inits 4 unloaded busy_kernel
      (scullp_init none none 250 true but_second unloaded busy_kernel)
scullp_init-Inits_example =
    scullp_init-Inits 4 unloaded busy_kernel (omega arith) none none 250 true but_second refl
