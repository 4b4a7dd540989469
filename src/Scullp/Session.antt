-- ===== src/Scullp/Session.antt =====
-- scullp: an open file of a device whose blocks are single pages, over any sequence of calls.
use ldd.Common.{ℕ, ◌≤◌, ◌≡◌, Bool, Option, none, some, List, [], ◌∷◌, ℤ}
use ldd.Common.User.{UserCopy}
use ldd.Scullp.{Dev, Done, scullp_read, scullp_write}
use ldd.Scullp.Valid.{IsValid}
use ldd.Scullp.Locate.{item_of_pos}
use ldd.Scullp.Calls.{scullp_open, scullp_llseek}
use ldd.Scullp.Mmap.{scullp_vma_open, scullp_vma_close}

-- The calls of one process. `interrupted` is the outcome of the wait for the mutex, `array_ok` and
-- `pages_ok` those of the allocations; the list of items always finds the memory that it needs.
pub data Call : Type 0 where
  opens : ℕ → Bool → Call
  reads : UserCopy → ℕ → Bool → Call
  writes : UserCopy → List ℕ → ℕ → Bool → Bool → Bool → Call
  seeks : ℤ → ℕ → Call
  maps : Call
  unmaps : Call

pub record Session : Type 0 where
  pub f_pos : ℕ
  pub dev : Dev

abbrev after : Option Done → Option Session
after none = none
after (some r) = some (record { f_pos = r.f_pos; dev = r.dev })

module _ (page_size qset : ℕ) where
  pub step : Session → Call → Option Session
  step s (opens flags interrupted) =
      some (record { f_pos = 0; dev = (scullp_open s.dev flags interrupted qset 0).2 })
  step s (reads u count interrupted) = after (
      scullp_read page_size u s.dev s.f_pos count interrupted (item_of_pos page_size s.dev s.f_pos))
  step s (writes u buf count interrupted array_ok pages_ok) = after (
      scullp_write page_size u s.dev s.f_pos buf count interrupted
        (item_of_pos page_size s.dev s.f_pos) array_ok pages_ok)
  step s (seeks off whence) = some (record s { f_pos = (scullp_llseek s.dev s.f_pos off whence).1 })
  step s maps = some (record s { dev = scullp_vma_open s.dev })
  step s unmaps = some (record s { dev = scullp_vma_close s.dev })

  pub run : Session → List Call → Option Session
  unfolding step
  run s [] = some s
  run s (c ∷ calls) = elim (step s c) [ none ↦ none | some t ↦ run t calls ]

  -- A valid device of order 0, with no more quanta in an item than bytes in a page.
  pub record IsPaged (d : Dev) : Type 0 where
    pub valid : IsValid page_size d
    pub single : d.first.order ≡ 0
    pub narrow : d.qset ≤ page_size

  Steps : Option Session → Type 0
  Steps o = (t : Session) × (o ≡ some t) × IsPaged t.dev
