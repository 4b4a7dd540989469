-- ===== src/Phantom/Probe/Unwinding.antt =====
-- phantom/phantom.c: what phantom_probe and phantom_remove leave taken.
use ldd.Common.{
  ℕ, zero, suc, ◌+◌, ◌-◌, ◌≤◌, ◌<◌, ◌≡◌, refl, sym, ap, Bool, true, false, List, [], ◌∷◌, arith,
  length, get_or, set, ◌==◌, Bool-cases, Option-cases, inl, inr, Ret, Errno, ok, err, eio, enomem,
}
use ldd.Phantom.{Bank}
use ldd.Phantom.Steady.{IsSteady}
use ldd.Phantom.Probe.{
  Kernel, Answers, phantom_get_free, probe_irq, probe_map, probe_minor, phantom_probe,
  phantom_remove, new_device,
}

-- Eight minors, and no node for a minor that is free.
pub record IsTidy (k : Kernel) : Type 0 where
  pub eight : length k.minors ≡ 8
  pub no_node : (m : ℕ) → get_or k.minors m true ≡ false → get_or k.nodes m true ≡ false

phantom_get_free-le : (minors : List Bool) → phantom_get_free minors ≤ length minors
unfolding phantom_get_free
phantom_get_free-le [] = omega arith
phantom_get_free-le (false ∷ minors) = omega arith
phantom_get_free-le (true ∷ minors) = omega (arith, phantom_get_free-le minors)

phantom_get_free_lem :
    (minors : List Bool)
    → phantom_get_free minors < length minors
    → get_or minors (phantom_get_free minors) true ≡ false
unfolding phantom_get_free
phantom_get_free_lem [] h = absurd (omega arith)
phantom_get_free_lem (false ∷ minors) h = refl
phantom_get_free_lem (true ∷ minors) h = phantom_get_free_lem minors (omega arith)

set-set : (xs : List Bool) (i : ℕ) → get_or xs i true ≡ false → set (set xs i true) i false ≡ xs
set-set [] i h = refl
set-set (x ∷ xs) zero h = ap (λ y. y ∷ xs) (sym h)
set-set (x ∷ xs) (suc i) h = ap (λ l. x ∷ l) (set-set xs i h)

set_same : (xs : List Bool) (i : ℕ) → get_or xs i true ≡ false → set xs i false ≡ xs
set_same [] i h = refl
set_same (x ∷ xs) zero h = ap (λ y. y ∷ xs) (sym h)
set_same (x ∷ xs) (suc i) h = ap (λ l. x ∷ l) (set_same xs i h)

add_sub : (n : ℕ) → n + 1 - 1 ≡ n
add_sub n = omega arith

-- How a probe ends.
pub data Probes (k : Kernel) (r : Ret × Kernel) : Type 0 where
  failed : (e : Errno) → r.0 ≡ err e → r.1 ≡ k → Probes k r
  probed :
      (minor : ℕ)
      → get_or k.minors minor true ≡ false
      → r.0 ≡ ok 0
      → r.1.minors ≡ set k.minors minor true
      → r.1.irqs ≡ k.irqs + 1
      → r.1.cdevs ≡ k.cdevs + 1
      → phantom_remove minor r.1 ≡ k
      → Probes k r

module _ (a : Answers) (k : Kernel) (minor : ℕ) (free : get_or k.minors minor true ≡ false)
    (no_node : get_or k.nodes minor true ≡ false) where
  abbrev mapped : Kernel
  mapped = record k {
    enabled = k.enabled + 1;
    minors = set k.minors minor true;
    regions = k.regions + 1;
    devices = k.devices + 1;
    mappings = k.mappings + 1 + 1 + 1;
  }

  probe_irq-Probes : Probes k (probe_irq a minor mapped)
  unfolding probe_irq phantom_remove
  probe_irq-Probes = elim (Option-cases a.request_irq) [
    | inr (e, q) ↦ rw (q, probe_irq) (failed e refl (simp (add_sub, set-set k.minors minor free)))
    | inl q ↦ elim (Option-cases a.cdev_add) [
      | inr (e, p) ↦
          rw (q, p, probe_irq) (failed e refl (simp (add_sub, set-set k.minors minor free)))
      | inl p ↦ elim (Bool-cases a.device_create) [
        | inl c ↦
            rw (q, p, probe_irq)
              (simp c (
                probed minor free refl refl refl refl
                  (simp (add_sub, set-set k.minors minor free, set-set k.nodes minor no_node))))
        | inr c ↦
            rw (q, p, probe_irq)
              (simp c (
                probed minor free refl refl refl refl
                  (simp (add_sub, set-set k.minors minor free, set_same k.nodes minor no_node))))
      ]
    ]
  ]

  probe_minor-Probes : Probes k (probe_minor a minor (record k { enabled = k.enabled + 1 }))
  unfolding probe_minor probe_map
  probe_minor-Probes = elim (Option-cases a.request_regions) [
    | inr (e, q) ↦ rw (q, probe_minor) (failed e refl (simp (add_sub, set-set k.minors minor free)))
    | inl q ↦ elim (Bool-cases a.memory) [
      | inr m ↦
          rw (q, m, probe_minor) (failed enomem refl (simp (add_sub, set-set k.minors minor free)))
      | inl m ↦ rw (q, m, probe_minor) mapping
    ]
  ]
    where
      mapping : Probes k (
          probe_map a minor (record k {
            enabled = k.enabled + 1;
            minors = set k.minors minor true;
            regions = k.regions + 1;
            devices = k.devices + 1;
          }))
      mapping = elim (Bool-cases a.caddr) [
        | inr c ↦ simp c (failed enomem refl (simp (add_sub, set-set k.minors minor free)))
        | inl c ↦ elim (Bool-cases a.iaddr) [
          | inr i ↦ simp (c, i) (failed enomem refl (simp (add_sub, set-set k.minors minor free)))
          | inl i ↦ elim (Bool-cases a.oaddr) [
            | inr o ↦
                simp (c, i, o) (failed enomem refl (simp (add_sub, set-set k.minors minor free)))
            | inl o ↦ simp (c, i, o) probe_irq-Probes
          ]
        ]
      ]

-- A probe that fails, at whichever request, has given back all that it took: the kernel's resources are
-- as before. One that succeeds took a minor that was free, an interrupt and a character device, and
-- a remove gives back all that it took.
pub phantom_probe-Probes : (a : Answers) (k : Kernel) → IsTidy k → Probes k (phantom_probe a k)
unfolding phantom_probe
phantom_probe-Probes a k t = elim (Option-cases a.enable) [
  | inr (e, q) ↦ rw (q, phantom_probe) (failed e refl refl)
  | inl q ↦ elim (Bool-cases (phantom_get_free k.minors == 8)) [
    | inl f ↦ rw (q, f, phantom_probe) (failed eio refl (simp add_sub))
    | inr f ↦
        let low = phantom_get_free-le k.minors in
        let eight = t.eight in
        let ne : phantom_get_free k.minors < length k.minors = ground arith in
        let free = phantom_get_free_lem k.minors ne in
        rw (q, f, phantom_probe)
          (probe_minor-Probes a k (phantom_get_free k.minors) free
            (t.no_node (phantom_get_free k.minors) free))
  ]
]

-- The device that a probe sets up is steady.
pub new_device-IsSteady : (iaddr oaddr : Bank) → IsSteady (new_device iaddr oaddr)
unfolding new_device
new_device-IsSteady iaddr oaddr = record {
  one = omega arith;
  idle = λ _. (refl, refl);
  on = λ z. cc;
  not_oh_on = λ z _. cc;
  off = λ _. refl;
}
