-- ===== src/Virtio/Tables.antt =====
-- The inner loop of vq_getchain in src/lib/virtio.c against the tables of indirect descriptors that
-- are in order.
use hyperkit.Base.{
  ℕ, zero, suc, ◌+◌, ◌≤◌, ◌<◌, ◌≡◌, ◌≢◌, refl, ap, ◌∙◌, Bool, true, false, not, List, [], ◌∷◌,
  arith, ltb, leb, if◌then◌else◌, length,
}
use hyperkit.Virtio.Memory.{Desc, Vector}
use hyperkit.Virtio.Getchain.{
  Walk, ended, refused, out_of_fuel, max_descriptors, has_next, is_indirect, vq_record,
  indirect_loop,
}
use hyperkit.Virtio.Requests.{Table, last, more, recorded}

-- One round, by its four tests.
abbrev round : Bool → Bool → Bool → Bool → Walk → Walk → Walk
round indirect long next outside stop rest =
    if indirect
    then refused
    else if long
    then refused
    else if not next
    then stop
    else if outside
    then refused
    else rest

module _ (table : ℕ → Desc) (n : ℕ) where
  -- How a walk that ended came to its end.
  pub record Walked (next i : ℕ) (iov : Vector) (j : ℕ) (out : Vector) : Type 0 where
    pub ds : List Desc
    pub valid : Table table n next ds
    pub count : i + length ds ≡ j
    pub short : j ≤ max_descriptors
    pub segments : recorded i ds iov ≡ out

  pub indirect_sound :
      (fuel next i : ℕ) (iov : Vector) (j : ℕ) (out : Vector)
      → indirect_loop table n fuel next i iov ≡ ended j out
      → Walked next i iov j out
  unfolding indirect_loop recorded
  indirect_sound zero next i iov j out h = cc
  indirect_sound (suc fuel) next i iov j out h =
      go (is_indirect vp) (ltb max_descriptors (i + 1)) (has_next vp) (leb n vp.next) refl refl refl
        refl h (indirect_sound fuel vp.next (i + 1) (vq_record i vp iov) j out)
    where
      vp : Desc
      vp = table next

      go :
          (a b c d : Bool)
          → is_indirect vp ≡ a
          → ltb max_descriptors (i + 1) ≡ b
          → has_next vp ≡ c
          → leb n vp.next ≡ d
          → round a b c d
              (ended (i + 1) (vq_record i vp iov))
              (indirect_loop table n fuel vp.next (i + 1) (vq_record i vp iov))
            ≡ ended j out
          → (indirect_loop table n fuel vp.next (i + 1) (vq_record i vp iov) ≡ ended j out
              → Walked vp.next (i + 1) (vq_record i vp iov) j out)
          → Walked next i iov j out
      go true b c d p q r s e ih = cc
      go false true c d p q r s e ih = cc
      go false false false d p q r s e ih = record {
        ds = vp ∷ [];
        valid = last next p r;
        count = ground arith;
        short = ground arith;
        segments = ground arith;
      }
      go false false true true p q r s e ih = cc
      go false false true false p q r s e ih =
          let w = ih e in
          record {
            ds = vp ∷ w.ds;
            valid = more next w.ds p r (ground arith) w.valid;
            count = omega (arith, w.count);
            short = w.short;
            segments = w.segments;
          }

  short_test : (i : ℕ) → i < max_descriptors → ltb max_descriptors (i + 1) ≡ false
  short_test i h = ground arith

  pub indirect_complete :
      (fuel i : ℕ) (iov : Vector) {next : ℕ} {ds : List Desc}
      → Table table n next ds
      → i + length ds ≤ max_descriptors
      → max_descriptors < i + fuel
      → indirect_loop table n fuel next i iov ≡ ended (i + length ds) (recorded i ds iov)
  unfolding indirect_loop recorded
  indirect_complete zero i iov t h k = absurd (omega arith)
  indirect_complete (suc fuel) i iov (last next p r) h k = rw (p, short_test i (omega arith), r)
  indirect_complete (suc fuel) i iov (more next ds p r inside t) h k =
      rw (p, short_test i (omega arith), r, inside_test)
        (indirect_complete fuel (i + 1) (vq_record i (table next) iov) t (omega arith) (omega arith)
          ∙ ap (λ j. ended j (recorded (i + 1) ds (vq_record i (table next) iov))) (omega arith))
    where
      inside_test : leb n (table next).next ≡ false
      inside_test = ground arith

  -- The count grows in each round, so the fuel lasts.
  pub indirect_fuel :
      (fuel next i : ℕ) (iov : Vector)
      → i ≤ max_descriptors
      → max_descriptors < i + fuel
      → indirect_loop table n fuel next i iov ≢ out_of_fuel
  unfolding indirect_loop
  indirect_fuel zero next i iov h k e = omega arith
  indirect_fuel (suc fuel) next i iov h k e =
      ground (arith, indirect_fuel fuel (table next).next (i + 1) (vq_record i (table next) iov))
