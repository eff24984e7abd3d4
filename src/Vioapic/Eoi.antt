-- ===== src/Vioapic/Eoi.antt =====
-- The loops over the pins in src/lib/vmm/io/vioapic.c: the end of an interrupt, and the trigger
-- modes that a local APIC is told of.
use hyperkit.Base.{
  ℕ, zero, suc, ◌+◌, ◌/◌, ◌^◌, Bool, not, List, [], ◌∷◌, ◌==◌, if◌then◌else◌, bit_and,
}
use hyperkit.Base.Signed.{is_positive}
use hyperkit.Base.Bits.Words.{has, clear}
use hyperkit.Vioapic.State.{
  Vioapic, entry, put_entry, redir_entries, low_half, high_half, send_intr,
}

-- The body of the loop in vioapic_process_eoi.
unfoldable pub eoi_pin : ℕ → Vioapic → ℕ → Vioapic
eoi_pin vector v pin =
    let e = entry v pin in
    if bit_and e.reg 0x4000 == 0
    then v
    else if not (bit_and e.reg 0xff == vector)
    then v
    else (let v1 = put_entry v pin (record e { reg = clear 64 e.reg 0x4000 }) in
        if is_positive e.acnt then send_intr v1 pin else v1)

-- The rounds left and the current pin.
unfoldable pub eoi_loop : ℕ → ℕ → ℕ → Vioapic → Vioapic
eoi_loop vector zero pin v = v
eoi_loop vector (suc n) pin v = eoi_loop vector n (pin + 1) (eoi_pin vector v pin)

unfoldable pub process_eoi : Vioapic → ℕ → Vioapic
unfolding eoi_loop
process_eoi v vector = eoi_loop vector redir_entries 0 v

-- A call of vlapic_set_tmr_level.
pub record TmrLevel : Type 0 where
  pub dest : ℕ
  pub phys : Bool
  pub delmode : ℕ
  pub vector : ℕ

-- The calls of vioapic_update_tmr that follow its vlapic_reset_tmr, in order.
unfoldable pub tmr_loop : Vioapic → ℕ → ℕ → List TmrLevel
tmr_loop v zero pin = []
tmr_loop v (suc n) pin =
    let rest = tmr_loop v n (pin + 1) in
    let low = low_half (entry v pin).reg in
    if not (has low 0x8000)
    then rest
    else record {
      dest = high_half (entry v pin).reg / 2 ^ 24;
      phys = bit_and low 0x800 == 0;
      delmode = bit_and low 0x700;
      vector = bit_and low 0xff;
    }
      ∷ rest

unfoldable pub update_tmr : Vioapic → List TmrLevel
unfolding tmr_loop
update_tmr v = tmr_loop v redir_entries 0
