-- ===== src/Virtio/UsedRing.antt =====
-- The used ring that vq_relchain of src/lib/virtio.c fills: a batch of returned chains.
use hyperkit.Base.{
  ℕ, zero, suc, ◌+◌, ◌-◌, ◌%◌, ◌^◌, ◌≤◌, ◌<◌, ◌≡◌, refl, sym, ap, ◌∙◌, List, [], ◌∷◌, arith, length,
  get_or, set, length-set, get_or-set_self, get_or-set_ne, bit_and,
}
use native.Mathlib.Nat.{mod-add-mod, add-mod_right, mod-lt}
use hyperkit.Base.Rings.{slots_apart}
use hyperkit.Base.Bits.Laws.{bit-bit_and, bit-ones, bit_ext, pow_lt, pow_pos}
use hyperkit.Base.Bits.Shifts.{bit-mod}
use hyperkit.Virtio.Memory.{Queue, UsedElem, sub16}
use hyperkit.Virtio.Used.{relchain}

-- vq_relchain once for each of the chains, in order.
pub relchains : Queue → List UsedElem → Queue
relchains q [] = q
relchains q (e ∷ es) = relchains (relchain q e.idx e.tlen) es

-- The mask takes an index to its slot.
slot : (k x : ℕ) → bit_and x (2 ^ k - 1) ≡ x % 2 ^ k
slot k x =
    bit_ext _ _ (λ j. ground (arith, bit-bit_and x (2 ^ k - 1) j, bit-ones k j, bit-mod k x j))

mod-mod16 : (k x : ℕ) → k ≤ 16 → x % 2 ^ 16 % 2 ^ k ≡ x % 2 ^ k
mod-mod16 k x h =
    bit_ext _ _ (λ j. ground (arith, bit-mod k (x % 2 ^ 16) j, bit-mod 16 x j, bit-mod k x j))

module _ (k : ℕ) (small : k ≤ 15) (d : UsedElem) where
  -- The slot of the index that follows x by j.
  abbrev at : ℕ → ℕ → ℕ
  at x j = (x + j) % 2 ^ k

  at_next : (x j : ℕ) → at ((x + 1) % 2 ^ 16) j ≡ at x (suc j)
  at_next x j =
      sym (mod-add-mod ((x + 1) % 2 ^ 16) (2 ^ k) j)
      ∙ ap (λ t. (t + j) % 2 ^ k) (mod-mod16 k (x + 1) (omega arith))
      ∙ mod-add-mod (x + 1) (2 ^ k) j
      ∙ ap (λ t. t % 2 ^ k) {y = x + suc j} (omega arith)

  at_round : (x : ℕ) → at x (2 ^ k) ≡ x % 2 ^ k
  at_round x = add-mod_right x (2 ^ k)

  pub record IsRing (q : Queue) : Type 0 where
    pub size : q.qsize ≡ 2 ^ k
    pub room : length q.vu_ring ≡ 2 ^ k

  mask : (q : Queue) → IsRing q → sub16 q.qsize 1 ≡ 2 ^ k - 1
  mask q r = omega (arith, r.size, pow_lt k 16 (omega arith), pow_pos k)

  written :
      (q : Queue) (e : UsedElem)
      → IsRing q
      → (relchain q e.idx e.tlen).vu_ring ≡ set q.vu_ring (q.vu_idx % 2 ^ k) e
  unfolding relchain
  written q e r = ap (λ i. set q.vu_ring i e) (ap (bit_and q.vu_idx) (mask q r) ∙ slot k q.vu_idx)

  relchain-IsRing : (q : Queue) (e : UsedElem) → IsRing q → IsRing (relchain q e.idx e.tlen)
  unfolding relchain
  relchain-IsRing q e r = record { size = r.size; room = length-set q.vu_ring _ _ ∙ r.room }

  relchain-vu_idx :
      (q : Queue) (e : UsedElem) → (relchain q e.idx e.tlen).vu_idx ≡ (q.vu_idx + 1) % 2 ^ 16
  unfolding relchain
  relchain-vu_idx q e = refl

  -- A slot that the batch does not reach is kept.
  relchains_keep :
      (es : List UsedElem) (q : Queue) (i : ℕ)
      → IsRing q
      → length es ≤ i
      → i < 2 ^ k
      → get_or (relchains q es).vu_ring (at q.vu_idx i) d ≡ get_or q.vu_ring (at q.vu_idx i) d
  unfolding relchains
  relchains_keep [] q i r h l = refl
  relchains_keep (e ∷ es) q zero r h l = absurd (omega arith)
  relchains_keep (e ∷ es) q (suc i) r h l =
      ap (λ t. get_or (relchains after es).vu_ring t d) (sym moved)
      ∙ relchains_keep es after i (relchain-IsRing q e r) (omega arith) (omega arith)
      ∙ ap (λ t. get_or after.vu_ring t d) moved
      ∙ ap (λ v. get_or v (at q.vu_idx (suc i)) d) (written q e r)
      ∙ get_or-set_ne q.vu_ring _ _ e d
          (λ p. slots_apart (2 ^ k) q.vu_idx (suc i) (omega arith) l (sym p))
    where
      after : Queue
      after = relchain q e.idx e.tlen

      moved : at after.vu_idx i ≡ at q.vu_idx (suc i)
      moved = ap (λ t. at t i) (relchain-vu_idx q e) ∙ at_next q.vu_idx i

  -- In a ring of 2^k places, at most 2^15, each chain of a batch of returns that fits the ring
  -- stands, in order, in the slots from the used index on, also where the indices wrap around.
  pub get_or-relchains :
      (es : List UsedElem) (q : Queue) (j : ℕ)
      → IsRing q
      → length es ≤ 2 ^ k
      → j < length es
      → get_or (relchains q es).vu_ring ((q.vu_idx + j) % 2 ^ k) d ≡ get_or es j d
  unfolding relchains
  get_or-relchains [] q j r h l = absurd (omega arith)
  get_or-relchains (e ∷ es) q zero r h l =
      ap (λ t. get_or (relchains after es).vu_ring t d) (sym round)
      ∙ relchains_keep es after (2 ^ k - 1) (relchain-IsRing q e r) (omega arith)
          (omega (arith, pow_pos k))
      ∙ ap (λ t. get_or after.vu_ring t d)
          (round ∙ ap (λ t. t % 2 ^ k) {y = q.vu_idx} (omega arith))
      ∙ ap (λ v. get_or v (q.vu_idx % 2 ^ k) d) (written q e r)
      ∙ get_or-set_self q.vu_ring (q.vu_idx % 2 ^ k) e d
          (omega (arith, r.room, mod-lt q.vu_idx (pow_pos k)))
    where
      after : Queue
      after = relchain q e.idx e.tlen

      round : at after.vu_idx (2 ^ k - 1) ≡ (q.vu_idx + 0) % 2 ^ k
      round =
          ap (λ t. at t (2 ^ k - 1)) (relchain-vu_idx q e)
          ∙ at_next q.vu_idx (2 ^ k - 1)
          ∙ ap (λ t. (q.vu_idx + t) % 2 ^ k) {y = 2 ^ k} (omega (arith, pow_pos k))
          ∙ at_round q.vu_idx
          ∙ ap (λ t. t % 2 ^ k) {y = q.vu_idx + 0} (omega arith)
  get_or-relchains (e ∷ es) q (suc j) r h l =
      ap (λ t. get_or (relchains after es).vu_ring t d) (sym moved)
      ∙ get_or-relchains es after j (relchain-IsRing q e r) (omega arith) (omega arith)
    where
      after : Queue
      after = relchain q e.idx e.tlen

      moved : at after.vu_idx j ≡ at q.vu_idx (suc j)
      moved = ap (λ t. at t j) (relchain-vu_idx q e) ∙ at_next q.vu_idx j
