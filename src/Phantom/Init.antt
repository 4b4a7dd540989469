-- ===== src/Phantom/Init.antt =====
-- phantom/phantom.c: loading and unloading the module.
use ldd.Common.{
  ℕ, ◌+◌, ◌-◌, ◌≡◌, refl, Option, none, some, arith, Option-cases, inl, inr, Ret, Errno, ok, err,
}

-- What the module has registered.
pub record Registered : Type 0 where
  pub classes : ℕ
  pub attributes : ℕ
  pub regions : ℕ
  pub drivers : ℕ

-- The kernel's answers: an error or `none`.
pub record Answers : Type 0 where
  pub class_create : Option Errno
  pub class_create_file : Option Errno
  pub alloc_chrdev_region : Option Errno
  pub pci_register_driver : Option Errno

-- The labels, each falling through to the one before it here.
abbrev pub err_class : Registered → Errno → Ret × Registered
err_class r e = (err e, record r { classes = r.classes - 1 })

abbrev pub err_attr : Registered → Errno → Ret × Registered
err_attr r e = err_class (record r { attributes = r.attributes - 1 }) e

abbrev pub err_unchr : Registered → Errno → Ret × Registered
err_unchr r e = err_attr (record r { regions = r.regions - 1 }) e

pub phantom_init : Answers → Registered → Ret × Registered
phantom_init a r =
    let one = record r { classes = r.classes + 1 } in
    let two = record one { attributes = one.attributes + 1 } in
    let three = record two { regions = two.regions + 1 } in
    elim a.class_create [
      | some e ↦ (err e, r)
      | none ↦ elim a.class_create_file [
        | some e ↦ err_class one e
        | none ↦ elim a.alloc_chrdev_region [
          | some e ↦ err_attr two e
          | none ↦ elim a.pci_register_driver [
            | some e ↦ err_unchr three e
            | none ↦ (ok 0, record three { drivers = three.drivers + 1 })
          ]
        ]
      ]
    ]

pub phantom_exit : Registered → Registered
phantom_exit r = record {
  classes = r.classes - 1;
  attributes = r.attributes - 1;
  regions = r.regions - 1;
  drivers = r.drivers - 1;
}

pub data Inits (r : Registered) (o : Ret × Registered) : Type 0 where
  failed : (e : Errno) → o.0 ≡ err e → o.1 ≡ r → Inits r o
  loaded : o.0 ≡ ok 0 → o.1.drivers ≡ r.drivers + 1 → phantom_exit o.1 ≡ r → Inits r o

add_sub : (n : ℕ) → n + 1 - 1 ≡ n
add_sub n = omega arith

-- Loading the module either fails and leaves nothing registered that was not before, or registers its
-- driver, and then unloading it removes all that was registered.
pub phantom_init-Inits : (a : Answers) (r : Registered) → Inits r (phantom_init a r)
unfolding phantom_init phantom_exit
phantom_init-Inits a r = elim (Option-cases a.class_create) [
  | inr (e, p) ↦ rw (p, phantom_init) (failed e refl refl)
  | inl p ↦ elim (Option-cases a.class_create_file) [
    | inr (e, q) ↦ rw (p, q, phantom_init) (failed e refl (simp add_sub))
    | inl q ↦ elim (Option-cases a.alloc_chrdev_region) [
      | inr (e, s) ↦ rw (p, q, s, phantom_init) (failed e refl (simp add_sub))
      | inl s ↦ elim (Option-cases a.pci_register_driver) [
        | inr (e, t) ↦ rw (p, q, s, t, phantom_init) (failed e refl (simp add_sub))
        | inl t ↦ rw (p, q, s, t, phantom_init) (loaded refl refl (simp add_sub))
      ]
    ]
  ]
]
