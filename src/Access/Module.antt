-- ===== src/Access/Module.antt =====
-- scull/access.c: scull_access_setup, scull_access_init and scull_access_cleanup. The four devices
-- of `scull_access_devs` are a list, in its order.
use ldd.Common.{
  ℕ, ◌+◌, ◌≡◌, Bool, false, Option, none, some, List, [], ◌∷◌, if◌then◌else◌, length, map,
}
use ldd.Common.Registry.{
  Registry, Slot, cdev_add, cdev_del, kfree, register_region, unregister_region, lives,
}
use ldd.Scull.{Dev}
use ldd.Access.{Clone}

-- The four devices, and the clones on `scull_c_list`.
pub record Sculla : Type 0 where
  pub devs : List (Slot Dev)
  pub clones : List (Clone Dev)

-- `add_ok` is the answer of `cdev_add`; where it is an error, the object's count is dropped again.
pub scull_access_setup : ℕ → ℕ → Bool → Dev → Registry → Slot Dev × Registry
scull_access_setup scull_quantum scull_qset add_ok d r = (
  record {
    live = add_ok;
    dev = record d { quantum = scull_quantum; qset = scull_qset; locked = false };
  },
  cdev_add add_ok r,
)

-- The loop over the devices, from `i` on.
pub setup_all : ℕ → ℕ → (ℕ → Bool) → ℕ → List (Slot Dev) → Registry → List (Slot Dev) × Registry
unfolding scull_access_setup
setup_all scull_quantum scull_qset add_ok i [] r = ([], r)
setup_all scull_quantum scull_qset add_ok i (s ∷ devs) r =
    let (t, one) = scull_access_setup scull_quantum scull_qset (add_ok i) s.dev r in
    let (more, rest) = setup_all scull_quantum scull_qset add_ok (i + 1) devs one in
    (t ∷ more, rest)

-- It returns 0 where the numbers are refused, and otherwise ends without a return statement.
pub scull_access_init : ℕ → ℕ → Bool → (ℕ → Bool) → Sculla → Registry → Option ℕ × Sculla × Registry
unfolding setup_all
scull_access_init scull_quantum scull_qset register_ok add_ok a r =
    let (devs, rest) = setup_all scull_quantum scull_qset add_ok 0 a.devs (register_region r) in
    if register_ok then (none, record a { devs = devs }, rest) else (some 0, a, r)

-- A device with the module's sizes and a free mutex.
abbrev pub ready : ℕ → ℕ → Slot Dev → Dev
ready scull_quantum scull_qset s = record s.dev {
  quantum = scull_quantum;
  qset = scull_qset;
  locked = false;
}

-- How loading ends.
pub data Inits (scull_trim : Dev → Dev) (cleanup : Sculla → Registry → Sculla × List Dev × Registry)
    (scull_quantum scull_qset : ℕ) (a : Sculla) (r : Registry) (o : Option ℕ × Sculla × Registry)
    : Type 0 where
  failed : o ≡ (some 0, a, r) → Inits scull_trim cleanup scull_quantum scull_qset a r o
  loaded :
      (devs : List (Slot Dev)) (rest : Registry)
      → o ≡ (none, record a { devs = devs }, rest)
      → map (λ (s : Slot Dev). s.dev) devs ≡ map (ready scull_quantum scull_qset) a.devs
      → ((used : List (Slot Dev)) (clones : List (Clone Dev))
          → lives used ≡ lives devs
          → cleanup
              (record { devs = used; clones = clones })
              (record rest { blocks = rest.blocks + length clones })
            ≡ (
              record {
                devs = map (λ (s : Slot Dev). record { live = false; dev = scull_trim s.dev }) used;
                clones = [];
              },
              map (λ (c : Clone Dev). scull_trim c.dev) clones,
              r,
            ))
      → Inits scull_trim cleanup scull_quantum scull_qset a r o

module _ (scull_trim : Dev → Dev) where
  pub close_devs : List (Slot Dev) → Registry → List (Slot Dev) × Registry
  close_devs [] r = ([], r)
  close_devs (s ∷ devs) r =
      let (more, rest) = close_devs devs (cdev_del s.live r) in
      (record { live = false; dev = scull_trim s.dev } ∷ more, rest)

  -- `list_for_each_entry_safe`: each clone is taken off the list, trimmed and freed.
  pub free_clones : List (Clone Dev) → Registry → List Dev × Registry
  free_clones [] r = ([], r)
  free_clones (c ∷ clones) r =
      let (more, rest) = free_clones clones (kfree 1 r) in (scull_trim c.dev ∷ more, rest)

  -- The devices that are trimmed at the end, with the clones' last states beside them.
  pub scull_access_cleanup : Sculla → Registry → Sculla × List Dev × Registry
  unfolding close_devs free_clones
  scull_access_cleanup a r =
      let (devs, one) = close_devs a.devs r in
      let (freed, two) = free_clones a.clones one in
      (record { devs = devs; clones = [] }, freed, unregister_region two)
