-- ===== src/Scullp/Module.antt =====
-- scullp/main.c: scullp_setup_cdev, scullp_init and scullp_cleanup. The memory of the devices is
-- what their trims free; the registry counts the array.
use ldd.Common.{
  ℕ, zero, suc, ◌+◌, ◌-◌, ◌<◌, ◌≡◌, refl, ap, ap₂, ◌∙◌, Bool, true, false, Option, none, some, List,
  [], ◌∷◌, ◌++◌, arith, if◌then◌else◌, length, pos, eqb_ℤ, eqb_zero, eqb_not_zero, Bool-cases, inl,
  inr, Ret, Errno, ok, err, enomem, Option-cases,
}
use ldd.Common.Registry.{
  Registry, Slot, cdev_del, kmalloc, kfree, register_region, unregister_region, live_count, lives,
  live_count-alike, count_del, setup_cdev, set_up, AllFresh, set_up_lem,
}
use ldd.Scullp.{Dev, get_item}
use ldd.Scullp.Trim.{Freed, scullp_trim, scullp_trim-Trims, allocated, trimmed, busy}
use ldd.Scullp.Valid.{IsValid, ItemFits}

-- A device of the zeroed array, with the module's parameters.
abbrev pub blank : ℕ → ℕ → Dev
blank qset order = record {
  first = record { quanta = none; order = order };
  next = [];
  vmas = pos 0;
  qset = qset;
  size = 0;
  locked = false;
}

abbrev pub scullp_setup_cdev : ℕ → ℕ → Bool → Registry → Slot Dev × Registry
scullp_setup_cdev qset order = setup_cdev (blank qset order)

-- `scullp_major`, `scullp_qset`, `scullp_order`, `scullp_devs` and `scullp_devices`.
pub record Module : Type 0 where
  pub major : ℕ
  pub qset : ℕ
  pub order : ℕ
  pub devs : ℕ
  pub devices : Option (List (Slot Dev))

-- The region of numbers: the error of the call that the major asks for, and the major then.
-- A failing `alloc_chrdev_region` leaves `dev`, with its major 0.
abbrev pub take_region : Option Errno → Option Errno → ℕ → ℕ → Option Errno × ℕ
take_region registers allocates dynamic zero =
    (allocates, elim allocates [ none ↦ dynamic | some e ↦ 0 ])
take_region registers allocates dynamic (suc major) = (registers, suc major)

-- What follows once the region is there.
pub init_devices : Bool → (ℕ → Bool) → Module → Registry → Ret × Module × Registry
init_devices mem_ok add_ok m r =
    let (slots, rest) = set_up (scullp_setup_cdev m.qset m.order) add_ok 0 m.devs (kmalloc r) in
    if mem_ok
    then (ok 0, record m { devices = some slots }, rest)
    else (err enomem, record m { devices = none }, unregister_region r)

pub scullp_init :
    Option Errno
    → Option Errno
    → ℕ
    → Bool
    → (ℕ → Bool)
    → Module
    → Registry
    → Ret × Module × Registry
unfolding init_devices
scullp_init registers allocates dynamic mem_ok add_ok m r =
    let (result, major) = take_region registers allocates dynamic m.major in
    elim result [
      | some e ↦ (err e, record m { major = major }, r)
      | none ↦ init_devices mem_ok add_ok (record m { major = major }) (register_region r)
    ]

-- The loop of `scullp_cleanup`: `cdev_del` and `scullp_trim`, whose answer is ignored.
pub close_devices : ℕ → ℕ → List (Slot Dev) → Registry → List Freed × Registry
close_devices qset order [] r = ([], r)
close_devices qset order (s ∷ slots) r =
    let freed = (scullp_trim s.dev qset order).1 in
    let (more, rest) = close_devices qset order slots (cdev_del s.live r) in (freed ++ more, rest)

-- It runs after an `scullp_init` that succeeded; `scullp_devices` is left as it was.
pub scullp_cleanup : Module → List (Slot Dev) → Registry → List Freed × Registry
unfolding close_devices
scullp_cleanup m slots r =
    let (freed, rest) = close_devices m.qset m.order slots r in
    (freed, unregister_region (kfree 1 rest))

blank-IsValid : (page_size qset order : ℕ) → 0 < qset → IsValid page_size (blank qset order)
blank-IsValid page_size qset order h = record {
  qset_pos = h;
  fits = fits;
  order_behind = λ i. refl;
  free = refl;
}
  where
    fits : (i : ℕ) → ItemFits page_size qset (get_item (blank qset order) i)
    fits zero = record { array_fits = λ qs e. cc; block_fits = λ s b e. cc }
    fits (suc i) = record { array_fits = λ qs e. cc; block_fits = λ s b e. cc }

-- Every device of an array is valid.
abbrev pub AllValid : ℕ → List (Slot Dev) → Type 0
AllValid page_size [] = Unit {0}
AllValid page_size (s ∷ slots) = IsValid page_size s.dev × AllValid page_size slots

-- The memory of the devices that no process has mapped.
abbrev pub unmapped : List (Slot Dev) → List Freed
unmapped [] = []
unmapped (s ∷ slots) = (if eqb_ℤ s.dev.vmas (pos 0) then allocated s.dev else []) ++ unmapped slots

-- The loaded module at work: the same devices were added, and the registry is as it was.
pub data Inits (page_size : ℕ) (m : Module) (r : Registry) (o : Ret × Module × Registry)
    : Type 0 where
  failed : (e : Errno) → o.0 ≡ err e → o.1.devices ≡ none → o.2 ≡ r → Inits page_size m r o
  loaded :
      (slots : List (Slot Dev))
      → o.0 ≡ ok 0
      → o.1.devices ≡ some slots
      → length slots ≡ m.devs
      → AllValid page_size slots
      → unmapped slots ≡ []
      → ((used : List (Slot Dev))
          → lives used ≡ lives slots
          → AllValid page_size used
          → scullp_cleanup o.1 used o.2 ≡ (unmapped used, r))
      → Inits page_size m r o

AllFresh-AllValid :
    (page_size qset order : ℕ) (slots : List (Slot Dev))
    → 0 < qset
    → AllFresh (blank qset order) slots
    → AllValid page_size slots × (unmapped slots ≡ [])
AllFresh-AllValid page_size qset order [] h f = (tt, refl)
AllFresh-AllValid page_size qset order (s ∷ slots) h (e, f) =
    let (valid, nothing) = AllFresh-AllValid page_size qset order slots h f in
    ((rw e (blank-IsValid page_size qset order h), valid), rw (e, nothing))

trim_freed :
    (page_size qset order : ℕ) (d : Dev)
    → 0 < qset
    → IsValid page_size d
    → (scullp_trim d qset order).1 ≡ (if eqb_ℤ d.vmas (pos 0) then allocated d else [])
trim_freed page_size qset order d h v = elim (Bool-cases (eqb_ℤ d.vmas (pos 0))) [
  | inl e ↦ elim (scullp_trim-Trims page_size d qset order h v) [
    | trimmed free ret all none_left no_quantum size q o valid ↦ simp e all
    | busy mapped ret nothing same ↦ absurd (mapped (eqb_zero d.vmas e))
  ]
  | inr e ↦ elim (scullp_trim-Trims page_size d qset order h v) [
    | trimmed free ret all none_left no_quantum size q o valid ↦ absurd (eqb_not_zero d.vmas e free)
    | busy mapped ret nothing same ↦ simp e nothing
  ]
]

close_devices_lem :
    (page_size qset order : ℕ) (slots : List (Slot Dev)) (r : Registry)
    → 0 < qset
    → AllValid page_size slots
    → close_devices qset order slots r
      ≡ (unmapped slots, record r { cdevs = r.cdevs - live_count slots })
unfolding close_devices
close_devices_lem page_size qset order [] r h v = ground arith
close_devices_lem page_size qset order (s ∷ slots) r h (v, vs) =
    let rest = close_devices_lem page_size qset order slots (cdev_del s.live r) h vs in
    ap₂ (λ (a : List Freed) (b : Registry). (a, b))
      (ap₂ ◌++◌ (trim_freed page_size qset order s.dev h v)
        (ap (λ (x : List Freed × Registry). x.0) rest))
      (ap (λ (x : List Freed × Registry). x.1) rest
        ∙ ap (λ (c : ℕ). record r { cdevs = c }) (count_del s.live r.cdevs (live_count slots)))

module _ (page_size : ℕ) (m : Module) (r : Registry) (h : 0 < m.qset) where
  cleaned :
      (devices : List (Slot Dev)) (rest : Registry) (used : List (Slot Dev)) (major : ℕ)
      → rest ≡ record (kmalloc (register_region r)) { cdevs = r.cdevs + live_count devices }
      → lives used ≡ lives devices
      → AllValid page_size used
      → scullp_cleanup (record m { major = major; devices = some devices }) used rest
        ≡ (unmapped used, r)
  unfolding scullp_cleanup
  cleaned devices rest used major reg alike valid =
      let closed = close_devices_lem page_size m.qset m.order used rest h valid in
      let alive = live_count-alike used devices alike in
      let a = ap (λ (x : Registry). x.regions) reg in
      let b = ap (λ (x : Registry). x.cdevs) reg in
      let c = ap (λ (x : Registry). x.blocks) reg in rw closed (ground arith)

  init_devices-Inits :
      (mem_ok : Bool) (add_ok : ℕ → Bool) (major : ℕ)
      → Inits page_size m r
          (init_devices mem_ok add_ok (record m { major = major }) (register_region r))
  unfolding init_devices
  init_devices-Inits false add_ok major = failed enomem refl refl (ground arith)
  init_devices-Inits true add_ok major =
      let fresh = blank m.qset m.order in
      let start = kmalloc (register_region r) in
      let (len, clear, reg) = set_up_lem fresh add_ok 0 m.devs start in
      let slots = (set_up (setup_cdev fresh) add_ok 0 m.devs start).0 in
      let (valid, nothing) = AllFresh-AllValid page_size m.qset m.order slots h clear in
      loaded slots refl refl len valid nothing (λ used alike v.
        cleaned slots (set_up (setup_cdev fresh) add_ok 0 m.devs start).1 used major reg alike v)

  -- With a positive `scullp_qset`, loading scullp either fails, with an error, and leaves nothing
  -- registered and no array, or makes as many valid devices without memory as it was asked for.
  -- Whatever valid devices they become, cleaning up gives back the region, the array and every device
  -- that was added, and frees what the devices have allocated that nobody has mapped; the memory of
  -- a mapped device stays.
  pub scullp_init-Inits :
      (registers allocates : Option Errno) (dynamic : ℕ) (mem_ok : Bool) (add_ok : ℕ → Bool)
      → m.devices ≡ none
      → Inits page_size m r (scullp_init registers allocates dynamic mem_ok add_ok m r)
  unfolding scullp_init
  scullp_init-Inits registers allocates dynamic mem_ok add_ok unloaded =
      elim (Option-cases (take_region registers allocates dynamic m.major).0) [
        | inr (e, p) ↦ rw (p, scullp_init) (failed e refl unloaded refl)
        | inl p ↦
            rw (p, scullp_init)
              (init_devices-Inits mem_ok add_ok (take_region registers allocates dynamic m.major).1)
      ]
