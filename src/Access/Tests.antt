-- ===== src/Access/Tests.antt =====
-- Runs of the devices of scull/access.c; a device is the list of bytes it holds, trimmed to none.
use ldd.Common.{
  Bool, not, ◌==◌, ℕ, ◌<◌, ◌≡◌, refl, true, false, some, List, [], ◌∷◌, arith, pos, negsuc, ok, err,
  eagain,
}
use ldd.Access.{
  lookup, Cred, Owned, returns, Wake, woken, Clone, scull_u_open, scull_w_open, scull_c_open,
  dec_and_test, scull_w_release,
}
use ldd.Access.OneFile
use ldd.Access.OneUser
use ldd.Access.Waiting
use ldd.Access.Clones
use ldd.Access.Module
use ldd.Access.Module.{Sculla}
use ldd.Common.Registry.{Registry, Slot}
use ldd.Scull

abbrev scull_trim : List ℕ → List ℕ
scull_trim dev = []

abbrev alice : Cred
alice = record { uid = 7; euid = 7; capable = false }

abbrev bob : Cred
bob = record { uid = 8; euid = 8; capable = false }

abbrev idle_single : OneFile.World (List ℕ)
idle_single = record {
  single = record { available = pos 1; dev = 3 ∷ [] };
  holders = 0;
  losers = 0;
}

idle_single-IsSingle : OneFile.IsSingle idle_single
idle_single-IsSingle = record { balance = refl; one = omega arith }

abbrev taken_single : OneFile.World (List ℕ)
taken_single = record { single = record { available = pos 0; dev = [] }; holders = 1; losers = 0 }

abbrev contended_single : OneFile.World (List ℕ)
contended_single = record {
  single = record { available = negsuc 0; dev = [] };
  holders = 1;
  losers = 1;
}

contended : OneFile.Reach scull_trim idle_single contended_single
unfolding dec_and_test
contended =
    OneFile.Reach.then_step taken_single contended_single
      (OneFile.Reach.then_step idle_single taken_single OneFile.Reach.here
        (OneFile.Step.wins 1 taken_single refl refl))
      (OneFile.Step.loses contended_single refl refl)

Reach-IsSingle_example : OneFile.IsSingle contended_single
Reach-IsSingle_example =
    OneFile.Reach-IsSingle scull_trim idle_single contended_single contended idle_single-IsSingle

abbrev idle_user : OneUser.World (List ℕ)
idle_user = record { files = []; owned = record { count = pos 0; owner = 0; dev = 3 ∷ [] } }

abbrev alice_user : OneUser.World (List ℕ)
alice_user = record {
  files = alice ∷ [];
  owned = record { count = pos 1; owner = 7; dev = 3 ∷ [] };
}

alice_opens : OneUser.Reach scull_trim idle_user alice_user
unfolding scull_u_open
alice_opens =
    OneUser.Reach.then_step idle_user alice_user OneUser.Reach.here
      (OneUser.Step.opens alice 0 alice_user refl)

Reach-IsOwned_example : OneUser.IsOwned alice_user
Reach-IsOwned_example =
    OneUser.Reach-IsOwned scull_trim idle_user alice_user alice_opens
      (record { counted = refl; all = tt })

abbrev held : Owned (List ℕ)
held = record { count = pos 1; owner = 7; dev = [] }

abbrev wakes : List (Wake (List ℕ))
wakes = woken (record held { count = pos 0 }) ∷ []

abbrev idle_waiting : Waiting.World (List ℕ)
idle_waiting = record { releases = 0; owned = record { count = pos 0; owner = 0; dev = [] } }

abbrev released_waiting : Waiting.World (List ℕ)
released_waiting = record { releases = 1; owned = record { count = negsuc 0; owner = 0; dev = [] } }

released : Waiting.Reach scull_trim idle_waiting released_waiting
unfolding scull_w_release
released =
    Waiting.Reach.then_step idle_waiting released_waiting Waiting.Reach.here
      (Waiting.Step.closes released_waiting refl)

Reach-open_example :
    ((released_waiting.releases ≡ 0)
      → (scull_w_open scull_trim released_waiting.owned alice 0 true []).0 ≡ returns (ok 0))
    × ((0 < released_waiting.releases)
        → ¬ OneUser.MayOpen 0 alice
        → scull_w_open scull_trim released_waiting.owned alice 0 true []
          ≡ (returns (err eagain), released_waiting.owned))
Reach-open_example =
    Waiting.Reach-open scull_trim idle_waiting released_waiting refl refl released alice 0 true

abbrev clones : List (Clone (List ℕ))
clones = record { key = 4; dev = 5 ∷ [] } ∷ record { key = 2; dev = 6 ∷ [] } ∷ []

scull_c_open-Opens_example :
    Clones.Opens scull_trim [] clones
      (some 2)
      1
      true
      (scull_c_open scull_trim [] clones (some 2) 1 true)
unfolding lookup
scull_c_open-Opens_example =
    Clones.scull_c_open-Opens scull_trim [] clones (some 2) 1 true (refl, (refl, tt))

abbrev busy_kernel : Registry
busy_kernel = record { regions = 3; cdevs = 5; blocks = 8 }

abbrev static : Slot Scull.Dev
static = record {
  live = false;
  dev = record { sets = []; quantum = 0; qset = 0; size = 0; access_key = 0; locked = false };
}

abbrev sculla : Sculla
sculla = record { devs = static ∷ static ∷ static ∷ static ∷ []; clones = [] }

abbrev emptied : Scull.Dev → Scull.Dev
emptied d = record d { sets = []; size = 0 }

abbrev but_second : ℕ → Bool
but_second i = not (i == 1)
