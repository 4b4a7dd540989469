-- ===== src/Scullp/Mmap.antt =====
-- scullp/mmap.c: mapping a device, and the page that a fault finds. The mapping starts at `vm_start`
-- and `vm_pgoff` pages into the device; PAGE_SIZE is 1 << PAGE_SHIFT.
use ldd.Common.{
  ℕ, suc, ◌+◌, ◌-◌, ◌*◌, ◌/◌, ◌<◌, ◌≡◌, sym, ap, subst, false, none, some, List, [], ◌∷◌, arith,
  length, inl, inr, leb, ◌==◌, if◌then◌else◌, Ret, ok, err, enodev, pos, ◌+ℤ◌, ◌-ℤ◌, Bool-cases,
}
use ldd.Scullp.{Item, Dev, Quantum, get_quantum, pages}
use ldd.Scullp.Valid.{IsValid}
use ldd.Scullp.Locate.{pow_pos, pages_pos}

unfoldable pub scullp_vma_open : Dev → Dev
scullp_vma_open d = record d { vmas = d.vmas +ℤ pos 1 }

unfoldable pub scullp_vma_close : Dev → Dev
scullp_vma_close d = record d { vmas = d.vmas -ℤ pos 1 }

-- The walk over the items, and the quantum where it stops.
unfoldable pub find_page : List Item → ℕ → ℕ → Quantum
find_page [] offset qset = none
find_page (x ∷ items) offset qset =
    let rest = find_page items (offset - qset) qset in
    if leb qset offset then rest else get_quantum x.quanta offset

-- The block whose page the fault installs; `none` is VM_FAULT_NOPAGE.
unfoldable pub scullp_vma_nopage : ℕ → Dev → ℕ → ℕ → ℕ → Quantum
unfolding find_page
scullp_vma_nopage page_size d address vm_start vm_pgoff =
    let offset = (address - vm_start) + vm_pgoff * page_size in
    if leb d.size offset then none else find_page (d.first ∷ d.next) (offset / page_size) d.qset

unfoldable pub scullp_mmap : Dev → Ret × Dev
unfolding scullp_vma_open
scullp_mmap d = if d.first.order == 0 then (err enodev, d) else (ok 0, scullp_vma_open d)

doubled : (page_size n : ℕ) → 0 < page_size → page_size < pages page_size (suc n)
doubled page_size n h = let p = pages_pos page_size n h in let q = pow_pos n in grind arith

-- A device that scullp_mmap lets a process map has an order other than 0, so that every block of its
-- first item that a fault finds is longer than the one page which is installed.
pub scullp_mmap_multipage :
    (page_size : ℕ) (d e : Dev) (address vm_start vm_pgoff : ℕ) (b : List ℕ)
    → 0 < page_size
    → IsValid page_size d
    → scullp_mmap d ≡ (ok 0, e)
    → ((address - vm_start) + vm_pgoff * page_size) / page_size < d.qset
    → scullp_vma_nopage page_size e address vm_start vm_pgoff ≡ some b
    → page_size < length b
unfolding scullp_mmap scullp_vma_nopage find_page scullp_vma_open
scullp_mmap_multipage page_size d e address vm_start vm_pgoff b h v mapped first found =
    elim (Bool-cases (d.first.order == 0)) [
      | inl z ↦ let never = simp z at mapped in cc
      | inr z ↦
          let opened : record d { vmas = d.vmas +ℤ pos 1 } ≡ e =
            ap (λ (x : Ret × Dev). x.1) (simp z at mapped) in
          let f = (address - vm_start) + vm_pgoff * page_size in
          let found' =
            subst (λ x. scullp_vma_nopage page_size x address vm_start vm_pgoff ≡ some b)
              (sym opened) found in
          let o = f / page_size in
          let near : leb d.qset o ≡ false = ground arith in
          let order : d.first.order ≡ suc (d.first.order - 1) = ground arith in
          let more = doubled page_size (d.first.order - 1) h in
          elim (Bool-cases (leb d.size f)) [
            | inl beyond ↦ let never = simp beyond at found' in cc
            | inr inside ↦
                let there : get_quantum d.first.quanta o ≡ some b = simp (inside, near) at found' in
                let size = (v.fits 0).block_fits o b there in
                let order' = ap (pages page_size) order in omega arith
          ]
    ]
