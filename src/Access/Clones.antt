-- ===== src/Access/Clones.antt =====
-- scull/access.c, scullpriv: the list of devices, as a map from terminals to devices.
use ldd.Common.{
  ℕ, ◌≡◌, refl, sym, ap, ◌∙◌, Bool, true, false, Option, none, some, List, [], ◌∷◌, arith, inl, inr,
  ◌==◌, if◌then◌else◌, Bool-cases, Option-cases, ==_iff, Ret, ok, err, einval, enomem,
}
use ldd.Access.{
  Clone, lookup, assign, scull_c_lookfor_device, scull_c_open, trim_if_written, write_only,
}

-- No key occurs twice.
abbrev pub Distinct : {D : Type 0} → List (Clone D) → Type 0
Distinct [] = Unit {0}
Distinct (x ∷ items) = (lookup items x.key ≡ none) × Distinct items

module _ {D : Type 0} where
  lookup-assign :
      (items : List (Clone D)) (key key' : ℕ) (old dev : D)
      → lookup items key ≡ some old
      → lookup (assign items key dev) key' ≡ (if key == key' then some dev else lookup items key')
  unfolding lookup assign
  lookup-assign [] key key' old dev h = cc
  lookup-assign (x ∷ items) key key' old dev h = elim (Bool-cases (x.key == key)) [
    | inl e ↦ let same : x.key ≡ key = (==_iff x.key key).0 e in simp (e, same) (ground arith)
    | inr e ↦
        let there : lookup items key ≡ some old = simp e at h in
        let ih = lookup-assign items key key' old dev there in
        elim (Bool-cases (x.key == key')) [
          | inl k ↦ simp (e, k) (ground arith)
          | inr k ↦ simp (e, k) ih
        ]
  ]

  lookup-assign_fresh :
      (items : List (Clone D)) (key key' : ℕ) (dev : D)
      → lookup items key' ≡ none
      → lookup (assign items key dev) key' ≡ none
  unfolding lookup assign
  lookup-assign_fresh [] key key' dev h = refl
  lookup-assign_fresh (x ∷ items) key key' dev h = elim (Bool-cases (x.key == key')) [
    | inl k ↦ let never = simp k at h in cc
    | inr k ↦
        let there : lookup items key' ≡ none = simp k at h in
        elim (Bool-cases (x.key == key)) [
          | inl e ↦ simp (e, k) there
          | inr e ↦ simp (e, k) (lookup-assign_fresh items key key' dev there)
        ]
  ]

  assign-Distinct :
      (items : List (Clone D)) (key : ℕ) (dev : D)
      → Distinct items
      → Distinct (assign items key dev)
  unfolding assign
  assign-Distinct [] key dev h = tt
  assign-Distinct (x ∷ items) key dev (fresh, h) = elim (Bool-cases (x.key == key)) [
    | inl e ↦ simp e (fresh, h)
    | inr e ↦
        simp e (lookup-assign_fresh items key x.key dev fresh, assign-Distinct items key dev h)
  ]

module _ {D : Type 0} (scull_trim : D → D) (blank : D) where
  -- The device that a terminal gets: its own, or a new one.
  abbrev pub device_of : Option D → D
  device_of none = scull_trim blank
  device_of (some dev) = dev

  pub data Opens (items : List (Clone D)) (tty : Option ℕ) (flags : ℕ) (mem_ok : Bool)
      (r : Ret × List (Clone D)) : Type 0 where
    no_terminal : tty ≡ none → r ≡ (err einval, items) → Opens items tty flags mem_ok r
    no_memory :
        (key : ℕ)
        → tty ≡ some key
        → lookup items key ≡ none
        → mem_ok ≡ false
        → r ≡ (err enomem, items)
        → Opens items tty flags mem_ok r
    opened :
        (key : ℕ)
        → tty ≡ some key
        → r.0 ≡ ok 0
        → ((key' : ℕ)
            → lookup r.1 key' ≡ (
                if key == key'
                then some (trim_if_written scull_trim flags (device_of (lookup items key)))
                else lookup items key'))
        → Distinct r.1
        → Opens items tty flags mem_ok r

  written-lookup :
      (items : List (Clone D)) (key flags : ℕ) (dev : D)
      → lookup items key ≡ some dev
      → (key' : ℕ)
      → lookup (if write_only flags then assign items key (scull_trim dev) else items) key'
        ≡ (if key == key' then some (trim_if_written scull_trim flags dev) else lookup items key')
  written-lookup items key flags dev h key' = elim (Bool-cases (write_only flags)) [
    | inl w ↦ simp w (lookup-assign items key key' dev (scull_trim dev) h)
    | inr w ↦ elim (Bool-cases (key == key')) [
      | inl e ↦ simp (w, e) (ap (lookup items) (sym ((==_iff key key').0 e)) ∙ h)
      | inr e ↦ simp (w, e)
    ]
  ]

  written-Distinct :
      (items : List (Clone D)) (key flags : ℕ) (dev : D)
      → Distinct items
      → Distinct (if write_only flags then assign items key (scull_trim dev) else items)
  written-Distinct items key flags dev h = elim (Bool-cases (write_only flags)) [
    | inl w ↦ simp w (assign-Distinct items key (scull_trim dev) h)
    | inr w ↦ simp w h
  ]

  added-lookup_self :
      (items : List (Clone D)) (key : ℕ)
      → lookup (record { key = key; dev = scull_trim blank } ∷ items) key ≡ some (scull_trim blank)
  unfolding lookup
  added-lookup_self items key =
      let self : (key == key) ≡ true = (==_iff key key).1 refl in simp self

  added-lookup :
      (items : List (Clone D)) (key key' : ℕ) (o : Option D)
      → (if key == key'
          then o
          else lookup (record { key = key; dev = scull_trim blank } ∷ items) key')
        ≡ (if key == key' then o else lookup items key')
  unfolding lookup
  added-lookup items key key' o = elim (Bool-cases (key == key')) [
    | inl e ↦ simp e
    | inr e ↦ simp e
  ]

  lookfor_old :
      (items : List (Clone D)) (key : ℕ) (mem_ok : Bool) (dev : D)
      → lookup items key ≡ some dev
      → scull_c_lookfor_device scull_trim blank items key mem_ok ≡ (some dev, items)
  unfolding scull_c_lookfor_device
  lookfor_old items key mem_ok dev e = rw (e, scull_c_lookfor_device) refl

  lookfor_new :
      (items : List (Clone D)) (key : ℕ)
      → lookup items key ≡ none
      → scull_c_lookfor_device scull_trim blank items key true
        ≡ (some (scull_trim blank), record { key = key; dev = scull_trim blank } ∷ items)
  unfolding scull_c_lookfor_device
  lookfor_new items key e = rw (e, scull_c_lookfor_device) refl

  lookfor_failed :
      (items : List (Clone D)) (key : ℕ)
      → lookup items key ≡ none
      → scull_c_lookfor_device scull_trim blank items key false ≡ (none, items)
  unfolding scull_c_lookfor_device
  lookfor_failed items key e = rw (e, scull_c_lookfor_device) refl

  -- An open gives a terminal its own device, a new one at the first time, trimmed if it is opened for
  -- writing only; every other terminal's device is as it was, and no terminal gets a second one. With
  -- no terminal it answers EINVAL, with no memory for a new device ENOMEM, and the list stays.
  pub scull_c_open-Opens :
      (items : List (Clone D)) (tty : Option ℕ) (flags : ℕ) (mem_ok : Bool)
      → Distinct items
      → Opens items tty flags mem_ok (scull_c_open scull_trim blank items tty flags mem_ok)
  unfolding scull_c_open
  scull_c_open-Opens items none flags mem_ok h = no_terminal refl refl
  scull_c_open-Opens items (some key) flags mem_ok h = elim (Option-cases (lookup items key)) [
    | inr (dev, e) ↦ rw (lookfor_old items key mem_ok dev e) (
        opened key refl refl
          (λ key'.
            written-lookup items key flags dev e key' ∙ same_device items key flags dev e key')
          (written-Distinct items key flags dev h))
    | inl e ↦ absent mem_ok e
  ]
    where
      same_device :
          (items : List (Clone D)) (key flags : ℕ) (dev : D)
          → lookup items key ≡ some dev
          → (key' : ℕ)
          → (if key == key' then some (trim_if_written scull_trim flags dev) else lookup items key')
            ≡ (if key == key'
                then some (trim_if_written scull_trim flags (device_of (lookup items key)))
                else lookup items key')
      same_device items key flags dev e key' =
          ap
            (λ x.
              if key == key'
              then some (trim_if_written scull_trim flags (device_of x))
              else lookup items key')
            (sym e)

      absent :
          (mem_ok : Bool)
          → lookup items key ≡ none
          → Opens items
              (some key)
              flags
              mem_ok
              (scull_c_open scull_trim blank items (some key) flags mem_ok)
      absent false e = rw (lookfor_failed items key e) (no_memory key refl e refl refl)
      absent true e =
          let list : List (Clone D) = record { key = key; dev = scull_trim blank } ∷ items in
          let there : lookup list key ≡ some (scull_trim blank) = added-lookup_self items key in
          rw (lookfor_new items key e) (
            opened key refl refl
              (λ key'.
                written-lookup list key flags (scull_trim blank) there key'
                ∙ added-lookup items key key'
                    (some (trim_if_written scull_trim flags (scull_trim blank)))
                ∙ ap
                    (λ x.
                      if key == key'
                      then some (trim_if_written scull_trim flags (device_of x))
                      else lookup items key')
                    (sym e))
              (written-Distinct list key flags (scull_trim blank) (e, h)))
