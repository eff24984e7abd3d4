-- ===== src/Vlapic/Delivered.antt =====
-- What a delivery to a logical address does to the local APICs of src/lib/vmm/io/vlapic.c.
use hyperkit.Base.{
  ℕ, ◌≤◌, ◌<◌, ◌≡◌, ◌≢◌, refl, sym, subst, ap, ◌∙◌, Bool, true, false, ◌&&◌, ◌||◌, not, ltb, ◌==◌,
  ◌∷◌, length, if◌then◌else◌, arith, Option, some, Bool-cases, inl, inr,
}
use mathlib.Core.Path.{fun_ext}
use hyperkit.Base.Bits.Laws.{bit}
use hyperkit.Base.Bits.Words.{has-pow}
use hyperkit.Vlapic.State.{Vlapic, notified, extint, send}
use hyperkit.Vlapic.Vectors.{has_vector, add_vector, IsVectors}
use hyperkit.Vlapic.Highest.{has_vector-add_vector}
use hyperkit.Vlapic.Sources.{set_intr, set_intr_ready}
use hyperkit.Vlapic.Targets.{
  Machine, apic_at, address_of, is_target, Delivery, fixed, lowest, external, is_lowest,
  deliver_one, deliver_intr,
}
use hyperkit.Vlapic.Addressed.{any_below, goes_to, IsDelivered, deliver_intr-IsDelivered}
use hyperkit.Vlapic.Logical.{is_addressed, answers_lem}

-- Whether a delivery is a request, and whether one APIC alone gets it.
abbrev pub is_request : Delivery → Bool
is_request fixed = true
is_request lowest = true
is_request external = false

abbrev pub is_alone : Delivery → Bool
is_alone fixed = false
is_alone lowest = true
is_alone external = false

-- What an APIC that gets an interrupt does: one that is enabled by its SVR has the request in its IRR and
-- notifies its processor, and an external interrupt is passed on in any case. Nothing else changes.
pub record IsReceived (mode : Delivery) (vec : ℕ) (v w : Vlapic) : Type 0 where
  pub irr :
      (u : ℕ)
      → u < 256
      → has_vector w.irr u ≡ (has_vector v.irr u || ((is_request mode && bit v.svr 8) && vec == u))
  pub signals : w.signals ≡ (
      if not (is_request mode)
      then extint ∷ v.signals
      else if bit v.svr 8
      then notified ∷ v.signals
      else v.signals)
  pub others : record w { irr = v.irr; signals = v.signals } ≡ v

module _ (vec : ℕ) (low : 16 ≤ vec) (high : vec < 256) (v : Vlapic) where
  requested : Vlapic
  requested = send notified (record v { irr = add_vector v.irr vec })

  set_intr_lem : set_intr v vec ≡ some (if bit v.svr 8 then requested else v)
  unfolding set_intr set_intr_ready requested
  set_intr_lem = elim (Bool-cases (bit v.svr 8)) [
    | inl y ↦ rw (has-pow v.svr 8, y, small, large) refl
    | inr z ↦ rw (has-pow v.svr 8, z, small, large) refl
  ]
    where
      small : ltb vec 16 ≡ false
      small = ground arith

      large : ltb 255 vec ≡ false
      large = ground arith

  module _ (ok : IsVectors v.irr) where
    asked :
        (mode : Delivery)
        → is_request mode ≡ true
        → (b : Bool) → bit v.svr 8 ≡ b
        → IsReceived mode vec v (if b then requested else v)
    unfolding requested
    asked mode m true e = record {
      irr = λ u h. has_vector-add_vector v.irr ok vec high u h ∙ ground (arith, m, e);
      signals = rw (m, e) refl;
      others = refl;
    }
    asked mode m false e = record {
      irr = λ u h. ground (arith, m, e);
      signals = rw (m, e) refl;
      others = refl;
    }

    deliver_one-IsReceived : (mode : Delivery) → IsReceived mode vec v (deliver_one mode vec v)
    unfolding deliver_one
    deliver_one-IsReceived fixed =
        rw (deliver_one, set_intr_lem) (asked fixed refl (bit v.svr 8) refl)
    deliver_one-IsReceived lowest =
        rw (deliver_one, set_intr_lem) (asked lowest refl (bit v.svr 8) refl)
    deliver_one-IsReceived external = record {
      irr = λ u h. ground arith;
      signals = refl;
      others = refl;
    }

is_alone_lem : (mode : Delivery) → is_lowest mode ≡ is_alone mode
unfolding is_lowest
is_alone_lem fixed = refl
is_alone_lem lowest = refl
is_alone_lem external = refl

-- An active processor whose APIC is addressed; of these, all get the interrupt, or the first alone.
abbrev pub is_active : Machine → ℕ → ℕ → Bool
is_active m dest k = bit m.active_cpus k && is_addressed dest (apic_at m k)

abbrev pub gets : Machine → ℕ → Delivery → ℕ → Bool
gets m dest mode k = is_active m dest k && not (is_alone mode && any_below (is_active m dest) k)

-- The delivery has an end, in which the APICs that it goes to have received it, and the others are as
-- before.
pub record IsServed (m : Machine) (dest vec : ℕ) (mode : Delivery) (o : Option Machine)
    : Type 0 where
  pub end : Machine
  pub returned : o ≡ some end
  pub reached :
      (k : ℕ)
      → k < length m.apics
      → gets m dest mode k ≡ true
      → IsReceived mode vec (apic_at m k) (apic_at end k)
  pub passed :
      (k : ℕ) → k < length m.apics → gets m dest mode k ≡ false → apic_at end k ≡ apic_at m k

-- On a machine of at most 32 processors, whose IRRs have eight words of 32 bits, an interrupt of a vector from 16 to 255 to a logical address
-- other than the broadcast comes to each active APIC that its LDR and DFR make an addressee, or in the
-- lowest priority mode to the first of them alone. Each one that gets it has the request in its IRR and
-- notifies its processor if its SVR enables it, or for an external interrupt passes it on, and is
-- otherwise as before. No other APIC changes.
pub deliver_intr-IsServed :
    (m : Machine) (dest : ℕ) (mode : Delivery) (vec : ℕ)
    → dest ≢ 0xff
    → length m.apics ≤ 32
    → 16 ≤ vec
    → vec < 256
    → ((k : ℕ) → k < length m.apics → IsVectors (apic_at m k).irr)
    → IsServed m dest vec mode (deliver_intr m dest false mode vec)
unfolding goes_to
deliver_intr-IsServed m dest mode vec ne len low high ok = record {
  end = d.end;
  returned = d.returned;
  reached = λ k h g.
      subst (IsReceived mode vec (apic_at m k)) (sym (after k h g))
        (deliver_one-IsReceived vec low high (apic_at m k) (ok k h) mode);
  passed = λ k h g. after k h g;
}
  where
    d :
        IsDelivered m mode vec
          (goes_to (is_target m (address_of false dest)) (is_lowest mode))
          (deliver_intr m dest false mode vec)
    d = deliver_intr-IsDelivered m dest mode vec ne len

    tests : is_target m (address_of false dest) ≡ is_active m dest
    tests = fun_ext (λ k. ap (λ b. bit m.active_cpus k && b) (answers_lem dest (apic_at m k)))

    goes_lem :
        (k : ℕ)
        → goes_to (is_target m (address_of false dest)) (is_lowest mode) k ≡ gets m dest mode k
    goes_lem k =
        ap (λ t. goes_to t (is_lowest mode) k) tests
        ∙ ap (λ b. is_active m dest k && not (b && any_below (is_active m dest) k))
            (is_alone_lem mode)

    after :
        {b : Bool} (k : ℕ)
        → k < length m.apics
        → gets m dest mode k ≡ b
        → apic_at d.end k ≡ (if b then deliver_one mode vec (apic_at m k) else apic_at m k)
    after k h g =
        d.apics k h
        ∙ ap (λ x. if x then deliver_one mode vec (apic_at m k) else apic_at m k) (goes_lem k ∙ g)
