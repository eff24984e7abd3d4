-- ===== src/Vlapic/Errors.antt =====
-- The errors of the local APIC in src/lib/vmm/io/vlapic.c: vlapic_set_error and vlapic_fire_lvt call
-- each other.
use hyperkit.Base.{ℕ, ◌≡◌, refl, ap, true, false, if◌then◌else◌, bit_or}
use hyperkit.Vlapic.State.{Vlapic}
use hyperkit.Vlapic.Sources.{
  error, Ready, set_intr_ready, fire_lvt, get_lvt, set_error_body, set_error_depth, set_error,
}

-- Reports that agree on a state have the same effect in it.
fire_lvt-agree :
    (r q : ℕ → Vlapic → Vlapic) (lvt : ℕ) (v : Vlapic)
    → ((m : ℕ) → r m v ≡ q m v)
    → fire_lvt r lvt v ≡ fire_lvt q lvt v
unfolding fire_lvt set_intr_ready
fire_lvt-agree r q lvt v e = rw (e 0x40, e 0x20) refl

module _ (mask : ℕ) (v : Vlapic) where
  abbrev pending : Vlapic
  pending = record v { esr_pending = bit_or v.esr_pending mask }

  -- While an error is reported, what a further report would do makes no difference.
  set_error_body-agree :
      (r q : ℕ → Vlapic → Vlapic)
      → ((m : ℕ) (w : Vlapic) → w.esr_firing ≡ true → r m w ≡ q m w)
      → set_error_body r mask v ≡ set_error_body q mask v
  unfolding set_error_body
  set_error_body-agree r q e =
      ap (λ (f : Ready). if v.esr_firing then pending else record (f.apic) { esr_firing = false })
        (fire_lvt-agree r q (get_lvt v error) (record pending { esr_firing = true })
          (λ m. e m (record pending { esr_firing = true }) refl))

-- A report while another one is going on calls no further one.
firing_stops :
    (r q : ℕ → Vlapic → Vlapic) (m : ℕ) (w : Vlapic)
    → w.esr_firing ≡ true
    → set_error_body r m w ≡ set_error_body q m w
unfolding set_error_body
firing_stops r q m w e = rw e refl

-- vlapic_set_error comes to its end: it makes at most one further call of itself, since whatever a
-- third one, within the second, would do, to any state, the result is the same; and so it obeys its
-- own recursive equation.
pub set_error_ends :
    (third : ℕ → Vlapic → Vlapic) (mask : ℕ) (v : Vlapic)
    → (set_error_body (set_error_body third) mask v ≡ set_error mask v)
      × (set_error mask v ≡ set_error_body set_error mask v)
unfolding set_error set_error_depth
set_error_ends third mask v = (
  set_error_body-agree mask v _ _ (λ m w e. firing_stops _ _ m w e),
  set_error_body-agree mask v _ _ (λ m w e. firing_stops _ _ m w e),
)
