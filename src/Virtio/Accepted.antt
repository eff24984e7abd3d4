-- ===== src/Virtio/Accepted.antt =====
-- The contract of vq_getchain in src/lib/virtio.c: which requests of the guest it accepts, what it
-- returns for them, and when it returns.
use hyperkit.Base.{
  ℕ, ◌+◌, ◌-◌, ◌%◌, ◌^◌, ◌≤◌, ◌<◌, ◌≡◌, ◌≢◌, refl, Bool, List, arith, if◌then◌else◌, length,
  bit_and, some, none,
}
use hyperkit.Virtio.Memory.{Desc, Guest, Queue, Vector}
use hyperkit.Virtio.Getchain.{
  Walk, ended, refused, null_table, out_of_fuel, max_descriptors, chain_loop, Chain, getchain,
}
use hyperkit.Virtio.Requests.{Request}
use hyperkit.Virtio.Recorded.{IsFilled}
use hyperkit.Virtio.Mapped.{IsMapped, chain_mapped}
use hyperkit.Virtio.Chains.{chain_fuel}

-- The requests that the guest has made available and the device has not taken, modulo 2^16.
abbrev pub waiting : Guest → Queue → ℕ
waiting g q = (g.va_idx + 2 ^ 32 - q.last_avail) % 2 ^ 32 % 2 ^ 16

-- The table index of the first descriptor of the next request.
abbrev pub first : Guest → Queue → ℕ
first g q = g.va_ring (bit_and q.last_avail (q.qsize - 1))

-- There is a next request, in order and of n descriptors, and `out` is the vector with as many of
-- its segments as there are places for, in order, and with nothing else changed.
pub record IsAccepted (g : Guest) (indirect_ok : Bool) (q : Queue) (iov : Vector) (n : ℕ)
    (out : Vector) : Type 0 where
  pub some_waiting : 0 < waiting g q
  pub plausible : waiting g q ≤ q.qsize
  pub ds : List Desc
  pub valid : Request g q.qsize indirect_ok (first g q) ds
  pub count : length ds ≡ n
  pub short : n ≤ max_descriptors
  pub segments : IsFilled ds iov out

-- A count with a vector is returned, or -1.
pub data IsReturned (w : Walk) : Type 0 where
  count : (n : ℕ) (out : Vector) → w ≡ ended n out → IsReturned w
  minus_one : w ≡ refused → IsReturned w

returned : (w : Walk) → w ≢ null_table → w ≢ out_of_fuel → IsReturned w
returned (ended n out) h k = count n out refl
returned refused h k = minus_one refl
returned null_table h k = absurd (h refl)
returned out_of_fuel h k = absurd (k refl)

module _ (g : Guest) (indirect_ok : Bool) (q : Queue) (iov : Vector) where
  walk : Walk
  walk = chain_loop g q.qsize indirect_ok (max_descriptors + 1) (first g q) 0 iov

  -- The result of the call by its two tests.
  abbrev outcome : Bool → Bool → Chain
  outcome a b =
      if a
      then record { head = none; walk = ended 0 iov; queue = q }
      else if b
      then record { head = none; walk = refused; queue = q }
      else record {
        head = some (first g q);
        walk = chain_loop g q.qsize indirect_ok (max_descriptors + 1) (first g q) 0 iov;
        queue = record q { last_avail = (q.last_avail + 1) % 2 ^ 16 };
      }

  -- Where each table of indirect descriptors that a descriptor of the queue names lies in the guest's
  -- memory, vq_getchain returns a count or -1 on every content of that memory, chains of descriptors
  -- that run in circles included.
  pub getchain_returns : IsMapped g q.qsize → IsReturned (getchain g indirect_ok q iov).walk
  unfolding getchain
  getchain_returns mapped =
      returned (getchain g indirect_ok q iov).walk
        (λ e. ground (
          arith,
          chain_mapped g indirect_ok q.qsize mapped (max_descriptors + 1) (first g q) 0 iov,
        ))
        (λ e.
          ground (arith, chain_fuel g indirect_ok q.qsize (max_descriptors + 1) (first g q) 0 iov))
