-- ===== src/Virtio/Getchain.antt =====
-- vq_getchain of src/lib/virtio.c: the walk along the descriptors of one request.
use hyperkit.Base.{
  ℕ, zero, suc, ◌+◌, ◌-◌, ◌/◌, ◌%◌, ◌^◌, Bool, not, ◌||◌, ltb, leb, ◌==◌, if◌then◌else◌, bit_and,
  Option, none, some,
}
use hyperkit.Base.Bits.Words.{has}
use hyperkit.Virtio.Memory.{Desc, Guest, Queue, Vector, segment}

-- How a walk ends: with the count of descriptors and the vector, with `return (-1)`, with a read
-- through the `NULL` that stands for a table outside the guest's memory, or, in the model alone, for
-- want of fuel.
pub data Walk : Type 0 where
  ended : ℕ → Vector → Walk
  refused : Walk
  null_table : Walk
  out_of_fuel : Walk

-- `VQ_MAX_DESCRIPTORS`
abbrev pub max_descriptors : ℕ
max_descriptors = 512

-- `VRING_DESC_F_NEXT` and `VRING_DESC_F_INDIRECT`
abbrev pub has_next : Desc → Bool
has_next d = has d.flags 1

abbrev pub is_indirect : Desc → Bool
is_indirect d = has d.flags 4

-- _vq_record
unfoldable pub vq_record : ℕ → Desc → Vector → Vector
vq_record i d iov =
    if leb iov.n_iov i
    then iov
    else record iov { cells = λ k. if k == i then segment d else iov.cells k }

-- The inner loop over a table of indirect descriptors.
unfoldable pub indirect_loop : (ℕ → Desc) → ℕ → ℕ → ℕ → ℕ → Vector → Walk
indirect_loop table n_indir zero next i iov = out_of_fuel
indirect_loop table n_indir (suc fuel) next i iov =
    let vp = table next in
    let rest = indirect_loop table n_indir fuel vp.next (i + 1) (vq_record i vp iov) in
    if is_indirect vp
    then refused
    else if ltb max_descriptors (i + 1)
    then refused
    else if not (has_next vp)
    then ended (i + 1) (vq_record i vp iov)
    else if leb n_indir vp.next
    then refused
    else rest

-- The walk over the table that paddr_guest2host has found, from its first descriptor on.
unfoldable pub enter : Option (ℕ → Desc) → ℕ → ℕ → Vector → Walk
enter none n_indir i iov = null_table
enter (some vindir) n_indir i iov = indirect_loop vindir n_indir (max_descriptors + 1) 0 i iov

-- One round of the outer loop: what it counts and records for the descriptor `vdir`.
unfoldable pub visit : Guest → Bool → Desc → ℕ → Vector → Walk
visit g indirect_ok vdir i iov =
    if not (is_indirect vdir)
    then ended (i + 1) (vq_record i vdir iov)
    else if not indirect_ok
    then refused
    else if not (vdir.len % 16 == 0) || vdir.len / 16 == 0
    then refused
    else enter (g.table_at vdir.addr vdir.len) (vdir.len / 16) i iov

-- The end of a round: `return (i)`, or on to the next descriptor.
unfoldable pub proceed : Desc → Walk → (ℕ → Vector → Walk) → Walk
proceed vdir (ended i iov) go = if not (has_next vdir) then ended i iov else go i iov
proceed vdir refused go = refused
proceed vdir null_table go = null_table
proceed vdir out_of_fuel go = out_of_fuel

-- The outer loop, with the flag VIRTIO_RING_F_INDIRECT_DESC of `vc_hv_caps`.
unfoldable pub chain_loop : Guest → ℕ → Bool → ℕ → ℕ → ℕ → Vector → Walk
chain_loop g qsize indirect_ok zero next i iov = out_of_fuel
chain_loop g qsize indirect_ok (suc fuel) next i iov =
    let vdir = g.desc next in
    let go = λ (j : ℕ) (out : Vector). chain_loop g qsize indirect_ok fuel vdir.next j out in
    if not (ltb i max_descriptors)
    then refused
    else if leb qsize next
    then refused
    else proceed vdir (visit g indirect_ok vdir i iov) go

-- `*pidx`, `iov` and `*vq` after the call, with the result of the walk.
pub record Chain : Type 0 where
  pub head : Option ℕ
  pub walk : Walk
  pub queue : Queue

unfoldable pub getchain : Guest → Bool → Queue → Vector → Chain
getchain g indirect_ok q iov =
    let idx = q.last_avail in
    let ndesc = (g.va_idx + 2 ^ 32 - idx) % 2 ^ 32 % 2 ^ 16 in
    if ndesc == 0
    then record { head = none; walk = ended 0 iov; queue = q }
    else if ltb q.qsize ndesc
    then record { head = none; walk = refused; queue = q }
    else (let next = g.va_ring (bit_and idx (q.qsize - 1)) in
        record {
          head = some next;
          walk = chain_loop g q.qsize indirect_ok (max_descriptors + 1) next 0 iov;
          queue = record q { last_avail = (idx + 1) % 2 ^ 16 };
        })
