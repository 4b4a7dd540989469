-- ===== src/Pipe/Module.antt =====
-- scull/pipe.c: scull_p_setup_cdev, scull_p_init and scull_p_cleanup.
use ldd.Common.{
  ℕ, ◌+◌, ◌-◌, ◌≡◌, refl, ap, Bool, true, false, Option, none, some, List, [], ◌∷◌, arith,
  if◌then◌else◌, length, pos,
}
use ldd.Common.Registry.{
  Registry, Slot, cdev_del, kmalloc, kfree, register_region, unregister_region, live_count, lives,
  live_count-alike, setup_cdev, set_up, AllFresh, set_up_lem,
}
use ldd.Pipe.{Pipe}

-- What `memset` and the initialisation of the queues and the mutex make of a pipe.
abbrev pub cleared : Pipe
cleared = record {
  buffer = none;
  end = 0;
  buffersize = 0;
  rp = 0;
  wp = 0;
  nreaders = pos 0;
  nwriters = pos 0;
  async_queue = [];
  locked = false;
  inq_wakes = 0;
  outq_wakes = 0;
  sigios = 0;
}

-- `cdev_init`, `cdev_add`.
abbrev pub scull_p_setup_cdev : Bool → Registry → Slot Pipe × Registry
scull_p_setup_cdev = setup_cdev cleared

-- The return value, `scull_p_devices` and the registry.
pub scull_p_init :
    Bool
    → Bool
    → (ℕ → Bool)
    → ℕ
    → Option (List (Slot Pipe))
    → Registry
    → ℕ × Option (List (Slot Pipe)) × Registry
scull_p_init register_ok mem_ok add_ok scull_p_nr_devs scull_p_devices r =
    let one = register_region r in
    let (slots, rest) = set_up scull_p_setup_cdev add_ok 0 scull_p_nr_devs (kmalloc one) in
    if register_ok
    then (if mem_ok then (scull_p_nr_devs, some slots, rest) else (0, none, unregister_region one))
    else (0, scull_p_devices, r)

-- How many blocks `kfree(buffer)` frees: `kfree` of NULL does nothing.
abbrev pub buffers_of : Option (List ℕ) → ℕ
buffers_of none = 0
buffers_of (some b) = 1

pub close_all : List (Slot Pipe) → Registry → Registry
close_all [] r = r
close_all (s ∷ slots) r = close_all slots (kfree (buffers_of s.dev.buffer) (cdev_del s.live r))

pub scull_p_cleanup : Option (List (Slot Pipe)) → Registry → Option (List (Slot Pipe)) × Registry
unfolding close_all
scull_p_cleanup none r = (none, r)
scull_p_cleanup (some slots) r = (none, unregister_region (kfree 1 (close_all slots r)))

-- The buffers of all pipes.
abbrev pub buffers : List (Slot Pipe) → ℕ
buffers [] = 0
buffers (s ∷ slots) = buffers_of s.dev.buffer + buffers slots

-- The devices at work: the same ones were added, and their buffers are in memory.
pub record AtWork (slots : List (Slot Pipe)) (loaded : Registry) (used : List (Slot Pipe))
    (now : Registry) : Type 0 where
  pub same : lives used ≡ lives slots
  pub regions : now.regions ≡ loaded.regions
  pub cdevs : now.cdevs ≡ loaded.cdevs
  pub blocks : now.blocks ≡ loaded.blocks + buffers used

pub data Inits (nr : ℕ) (r : Registry) (o : ℕ × Option (List (Slot Pipe)) × Registry) : Type 0 where
  failed : o ≡ (0, none, r) → Inits nr r o
  loaded :
      (slots : List (Slot Pipe)) (rest : Registry)
      → o ≡ (nr, some slots, rest)
      → length slots ≡ nr
      → AllFresh cleared slots
      → ((used : List (Slot Pipe)) (now : Registry)
          → AtWork slots rest used now
          → scull_p_cleanup (some used) now ≡ (none, r))
      → Inits nr r o

close_all_lem :
    (slots : List (Slot Pipe)) (r : Registry)
    → close_all slots r
      ≡ record r { cdevs = r.cdevs - live_count slots; blocks = r.blocks - buffers slots }
unfolding close_all
close_all_lem [] r = ground arith
close_all_lem (s ∷ slots) r =
    ground (arith, close_all_lem slots (kfree (buffers_of s.dev.buffer) (cdev_del s.live r)))

cleaned :
    (r : Registry) (slots : List (Slot Pipe)) (rest : Registry) (used : List (Slot Pipe))
    (now : Registry)
    → rest ≡ record (kmalloc (register_region r)) { cdevs = r.cdevs + live_count slots }
    → AtWork slots rest used now
    → scull_p_cleanup (some used) now ≡ (none, r)
unfolding scull_p_cleanup
cleaned r slots rest used now reg w =
    let closed = close_all_lem used now in
    let alive : live_count used ≡ live_count slots = live_count-alike used slots w.same in
    let a = ap (λ (x : Registry). x.regions) reg in
    let b = ap (λ (x : Registry). x.cdevs) reg in
    let c = ap (λ (x : Registry). x.blocks) reg in rw closed (ground arith)

-- Loading the pipe devices either returns 0 and leaves nothing registered or allocated, or returns
-- their number with all of them cleared; whatever pipes they hold later, with whatever buffers,
-- cleaning up gives back the region, the array, every device that was added and every buffer.
pub scull_p_init-Inits :
    (register_ok mem_ok : Bool) (add_ok : ℕ → Bool) (nr : ℕ) (r : Registry)
    → Inits nr r (scull_p_init register_ok mem_ok add_ok nr none r)
unfolding scull_p_init
scull_p_init-Inits false mem_ok add_ok nr r = failed refl
scull_p_init-Inits true false add_ok nr r = failed (ground arith)
scull_p_init-Inits true true add_ok nr r =
    let start = kmalloc (register_region r) in
    let (len, clear, reg) = set_up_lem cleared add_ok 0 nr start in
    loaded (set_up scull_p_setup_cdev add_ok 0 nr start).0
      (set_up scull_p_setup_cdev add_ok 0 nr start).1 refl len clear
      (λ used now w.
        cleaned r (set_up scull_p_setup_cdev add_ok 0 nr start).0
          (set_up scull_p_setup_cdev add_ok 0 nr start).1 used now reg w)
