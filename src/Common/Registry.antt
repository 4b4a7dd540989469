-- ===== src/Common/Registry.antt =====
-- What the drivers hold of the kernel while they are loaded: number regions, character devices that
-- the kernel can reach, and blocks of memory. `register_chrdev_region`, `kmalloc` and `cdev_add` are
-- the kernel's; whether they succeed is an argument of the drivers' set-up.
use Prim.Native.Nat.{ℕ, zero, suc, ◌+◌, ◌-◌}
use mathlib.Core.Bool.{Bool}
use mathlib.Core.Path.{◌≡◌, refl, sym, ap, ◌∙◌}
use mathlib.Core.List.{List, [], ◌∷◌}
use native.Mathlib.Omega.{arith}
use ldd.Common.Tests.{if◌then◌else◌}
use ldd.Common.Lists.{length}

pub record Registry : Type 0 where
  pub regions : ℕ
  pub cdevs : ℕ
  pub blocks : ℕ

-- A device of a driver's array, and whether its `cdev` was added.
pub record Slot {ℓ} (D : Type ℓ) : Type ℓ where
  pub live : Bool
  pub dev : D

abbrev pub cdev_add : Bool → Registry → Registry
cdev_add ok r = record r { cdevs = if ok then r.cdevs + 1 else r.cdevs }

-- `cdev_del` of a device that was not added leaves the kernel's map as it is.
abbrev pub cdev_del : Bool → Registry → Registry
cdev_del live r = record r { cdevs = if live then r.cdevs - 1 else r.cdevs }

abbrev pub kmalloc : Registry → Registry
kmalloc r = record r { blocks = r.blocks + 1 }

abbrev pub kfree : ℕ → Registry → Registry
kfree n r = record r { blocks = r.blocks - n }

abbrev pub register_region : Registry → Registry
register_region r = record r { regions = r.regions + 1 }

abbrev pub unregister_region : Registry → Registry
unregister_region r = record r { regions = r.regions - 1 }

module _ {ℓ} {D : Type ℓ} where
  abbrev pub live_count : List (Slot D) → ℕ
  live_count [] = 0
  live_count (s ∷ slots) = if s.live then live_count slots + 1 else live_count slots

  abbrev pub lives : List (Slot D) → List Bool
  lives [] = []
  lives (s ∷ slots) = s.live ∷ lives slots

abbrev trues : List Bool → ℕ
trues [] = 0
trues (b ∷ bs) = if b then trues bs + 1 else trues bs

live_count-lives {ℓ} : {D : Type ℓ} (slots : List (Slot D)) → live_count slots ≡ trues (lives slots)
live_count-lives [] = refl
live_count-lives (s ∷ slots) = ap (λ n. if s.live then n + 1 else n) (live_count-lives slots)

pub count_del : (b : Bool) (c k : ℕ) → (if b then c - 1 else c) - k ≡ c - (if b then k + 1 else k)
count_del b c k = ground arith

pub count_add : (b : Bool) (c k : ℕ) → (if b then c + 1 else c) + k ≡ c + (if b then k + 1 else k)
count_add b c k = ground arith

module _ {ℓ} {D : Type ℓ} where
  -- A device's set-up function: the device as it was initialised, and `cdev_add`, whose failure the
  -- drivers print and otherwise ignore.
  abbrev pub setup_cdev : D → Bool → Registry → Slot D × Registry
  setup_cdev fresh add_ok r = (record { live = add_ok; dev = fresh }, cdev_add add_ok r)

  -- The loop over a driver's array, from `i` on with `n` devices left.
  pub set_up :
      (Bool → Registry → Slot D × Registry)
      → (ℕ → Bool)
      → ℕ
      → ℕ
      → Registry
      → List (Slot D) × Registry
  set_up setup add_ok i zero r = ([], r)
  set_up setup add_ok i (suc n) r =
      let (s, one) = setup (add_ok i) r in
      let (slots, rest) = set_up setup add_ok (suc i) n one in (s ∷ slots, rest)

  -- Every device of an array is as it was initialised.
  abbrev pub AllFresh : D → List (Slot D) → Type ℓ
  AllFresh fresh [] = Unit
  AllFresh fresh (s ∷ slots) = (s.dev ≡ fresh) × AllFresh fresh slots

  -- The loop makes as many fresh devices as it counts, and adds those that it says.
  pub set_up_lem :
      (fresh : D) (add_ok : ℕ → Bool) (i n : ℕ) (r : Registry)
      → (length (set_up (setup_cdev fresh) add_ok i n r).0 ≡ n)
        × AllFresh fresh (set_up (setup_cdev fresh) add_ok i n r).0
        × ((set_up (setup_cdev fresh) add_ok i n r).1
            ≡ record r { cdevs = r.cdevs + live_count (set_up (setup_cdev fresh) add_ok i n r).0 })
  unfolding set_up
  set_up_lem fresh add_ok i zero r = (refl, tt, ground arith)
  set_up_lem fresh add_ok i (suc n) r =
      let (len, clear, reg) = set_up_lem fresh add_ok (suc i) n (cdev_add (add_ok i) r) in
      let later =
        live_count (set_up (setup_cdev fresh) add_ok (suc i) n (cdev_add (add_ok i) r)).0 in
      (
        ap suc len,
        (refl, clear),
        reg ∙ ap (λ (c : ℕ). record r { cdevs = c }) (count_add (add_ok i) r.cdevs later),
      )

  -- Devices that were added alike count alike.
  pub live_count-alike :
      (xs ys : List (Slot D)) → lives xs ≡ lives ys → live_count xs ≡ live_count ys
  live_count-alike xs ys e = live_count-lives xs ∙ ap trues e ∙ sym (live_count-lives ys)
