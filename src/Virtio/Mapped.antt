-- ===== src/Virtio/Mapped.antt =====
-- vq_getchain of src/lib/virtio.c where paddr_guest2host finds the tables of indirect descriptors.
use hyperkit.Base.{
  ℕ, zero, suc, ◌+◌, ◌/◌, ◌<◌, ◌≡◌, ◌≢◌, refl, Bool, true, false, not, arith, ltb, leb,
  if◌then◌else◌, Bool-cases, inl, inr, Option, none, some,
}
use hyperkit.Virtio.Memory.{Desc, Guest, Vector}
use hyperkit.Virtio.Getchain.{
  Walk, ended, refused, null_table, out_of_fuel, max_descriptors, has_next, is_indirect, vq_record,
  indirect_loop, enter, visit, proceed, chain_loop,
}

-- Each table that a descriptor of the queue names lies in the guest's memory.
pub record IsMapped (g : Guest) (qsize : ℕ) : Type 0 where
  pub found :
      (k : ℕ)
      → k < qsize
      → is_indirect (g.desc k) ≡ true
      → g.table_at (g.desc k).addr (g.desc k).len ≢ none

indirect_found :
    (table : ℕ → Desc) (n fuel next i : ℕ) (iov : Vector)
    → indirect_loop table n fuel next i iov ≢ null_table
unfolding indirect_loop
indirect_found table n zero next i iov e = cc
indirect_found table n (suc fuel) next i iov e =
    ground
      (arith, indirect_found table n fuel (table next).next (i + 1) (vq_record i (table next) iov))

enter_found :
    (t : Option (ℕ → Desc)) (n i : ℕ) (iov : Vector) → t ≢ none → enter t n i iov ≢ null_table
unfolding enter
enter_found none n i iov h e = h refl
enter_found (some f) n i iov h e = indirect_found f n (max_descriptors + 1) 0 i iov e

module _ (g : Guest) (indirect_ok : Bool) where
  visit_found :
      (d : Desc) (i : ℕ) (iov : Vector)
      → (is_indirect d ≡ true → g.table_at d.addr d.len ≢ none)
      → visit g indirect_ok d i iov ≢ null_table
  unfolding visit
  visit_found d i iov h e = elim (Bool-cases (is_indirect d)) [
    | inl y ↦ ground (arith, y, enter_found (g.table_at d.addr d.len) (d.len / 16) i iov (h y))
    | inr z ↦ ground (arith, z)
  ]

  module _ (qsize : ℕ) (mapped : IsMapped g qsize) where
    pub chain_mapped :
        (fuel next i : ℕ) (iov : Vector)
        → chain_loop g qsize indirect_ok fuel next i iov ≢ null_table
    unfolding chain_loop proceed
    chain_mapped zero next i iov e = cc
    chain_mapped (suc fuel) next i iov e =
        go (ltb i max_descriptors) (leb qsize next) (visit g indirect_ok vdir i iov) (has_next vdir)
          refl refl e (λ j out. chain_mapped fuel vdir.next j out)
      where
        vdir : Desc
        vdir = g.desc next

        rest : ℕ → Vector → Walk
        rest j out = chain_loop g qsize indirect_ok fuel vdir.next j out

        go :
            (a b : Bool) (w : Walk) (c : Bool)
            → leb qsize next ≡ b
            → visit g indirect_ok vdir i iov ≡ w
            → (if not a then refused else if b then refused else proceed vdir w rest) ≡ null_table
            → ((j : ℕ) (out : Vector) → rest j out ≢ null_table)
            → ⊥
        go false b w c p v e ih = cc
        go true true w c p v e ih = cc
        go true false refused c p v e ih = cc
        go true false null_table c p v e ih =
            visit_found vdir i iov (mapped.found next (ground arith)) v
        go true false out_of_fuel c p v e ih = cc
        go true false (ended j out) c p v e ih = elim (Bool-cases (has_next vdir)) [
          | inl s ↦ let on : rest j out ≡ null_table = rw s at e in ih j out on
          | inr s ↦ let stop : ended j out ≡ null_table = rw s at e in cc
        ]
