-- ===== src/Vatpic/Settled.antt =====
-- vatpic_notify_intr of src/lib/vmm/io/vatpic.c: its recursion through the cascade pin ends, and it
-- leaves no request untold.
use hyperkit.Base.{
  ℕ, suc, ◌≡◌, refl, sym, ap, ◌∙◌, ◌⊎◌, inl, inr, Bool, true, false, none, arith, if◌then◌else◌,
  Bool-cases,
}
use hyperkit.Vatpic.State.{Atpic, Vatpic, put, slave, get_highest_irrpin}
use hyperkit.Vatpic.Notify.{
  eligible, set_pin, notify_master, notify_body, notify_depth, notify_intr,
}

atpic1-set_pin : (v : Vatpic) (b : Bool) → (set_pin v 2 b).atpic1 ≡ v.atpic1
unfolding set_pin
atpic1-set_pin v b = refl

pub atpic1-notify_master : (v : Vatpic) → (notify_master v).atpic1 ≡ v.atpic1
unfolding notify_master
atpic1-notify_master v = ground arith

-- A raised slave is passed over.
eligible_raised : (a : Atpic) → a.intr_raised ≡ true → eligible a ≡ false
unfolding eligible
eligible_raised a h = ground arith

body_raised :
    (again : Vatpic → Vatpic) (v : Vatpic)
    → v.atpic1.intr_raised ≡ true
    → notify_body again v ≡ notify_master v
unfolding notify_body
body_raised again v h = rw (eligible_raised v.atpic1 h)

-- The calls that the slave makes through the cascade pin, with its request on record.
abbrev raised : Vatpic → Vatpic
raised v = put slave (record (v.atpic1) { intr_raised = true }) v

abbrev rise : Vatpic → Vatpic
rise v = notify_master (set_pin (raised v) 2 true)

abbrev fall : Vatpic → Vatpic
fall v = notify_master (set_pin (rise v) 2 false)

rise-raised : (v : Vatpic) → (set_pin (raised v) 2 true).atpic1.intr_raised ≡ true
rise-raised v = ap (λ (a : Atpic). a.intr_raised) (atpic1-set_pin (raised v) true)

atpic1-rise : (v : Vatpic) → (rise v).atpic1 ≡ (raised v).atpic1
atpic1-rise v = atpic1-notify_master (set_pin (raised v) 2 true) ∙ atpic1-set_pin (raised v) true

fall-raised : (v : Vatpic) → (set_pin (rise v) 2 false).atpic1.intr_raised ≡ true
fall-raised v = ap (λ (a : Atpic). a.intr_raised) (atpic1-set_pin (rise v) false ∙ atpic1-rise v)

-- Any function that agrees with the body on a raised slave gives the same result.
pub notify_body_lem :
    (again : Vatpic → Vatpic) (v : Vatpic)
    → ((w : Vatpic) → w.atpic1.intr_raised ≡ true → again w ≡ notify_master w)
    → notify_body again v ≡ notify_master (if eligible v.atpic1 then fall v else v)
unfolding notify_body
notify_body_lem again v h = elim (Bool-cases (eligible v.atpic1)) [
  | inl e ↦ rw e (ap notify_master cascade)
  | inr e ↦ rw e
]
  where
    up : again (set_pin (raised v) 2 true) ≡ rise v
    up = h (set_pin (raised v) 2 true) (rise-raised v)

    cascade : again (set_pin (again (set_pin (raised v) 2 true)) 2 false) ≡ fall v
    cascade =
        ap (λ (w : Vatpic). again (set_pin w 2 false)) up
        ∙ h (set_pin (rise v) 2 false) (fall-raised v)

depth_raised :
    (d : ℕ) (v : Vatpic) → v.atpic1.intr_raised ≡ true → notify_depth (suc d) v ≡ notify_master v
unfolding notify_depth
depth_raised d v h = body_raised (notify_depth d) v h

-- Two levels of calls are all there are: a further level changes nothing.
pub notify_depth_enough : (d : ℕ) (v : Vatpic) → notify_depth (suc (suc d)) v ≡ notify_intr v
unfolding notify_intr
notify_depth_enough d v =
    notify_body_lem (notify_depth (suc d)) v (depth_raised d)
    ∙ sym (notify_body_lem (notify_depth 1) v (depth_raised 0))

-- The slave's pending request, passed on through the cascade pin.
abbrev pub after_slave : Vatpic → Vatpic
after_slave v = if eligible v.atpic1 then fall v else v

-- The notification in closed form, with no recursion.
pub notify_intr-master : (v : Vatpic) → notify_intr v ≡ notify_master (after_slave v)
unfolding notify_intr
notify_intr-master v = notify_body_lem (notify_depth 1) v (depth_raised 0)

-- No request is left untold: a chip that has one to deliver has raised its line.
abbrev pub Told : Atpic → Type 0
Told a = (a.intr_raised ≡ true) ⊎ (get_highest_irrpin a ≡ none)
