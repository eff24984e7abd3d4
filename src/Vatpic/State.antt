-- ===== src/Vatpic/State.antt =====
-- The state of src/lib/vmm/io/vatpic.c, and the two searches over a chip's pins.
use hyperkit.Base.{ℕ, ◌^◌, Bool, false, not, ◌&&◌, Option, List, [], ltb, if◌then◌else◌, replicate}
use hyperkit.Base.Signed.{ℤ, pos}
use hyperkit.Base.Bits.Words.{has, clear}
use hyperkit.Vatpic.PinLoop.{Flow, next, leave, found, pin_foreach}

-- `struct atpic`. The registers are bytes; `smm` is only set to 0 or 1 and read as a flag.
pub record Atpic : Type 0 where
  pub ready : Bool
  pub icw_num : ℕ
  pub rd_cmd_reg : ℕ
  pub aeoi : Bool
  pub poll : Bool
  pub rotate : Bool
  pub sfn : Bool
  pub irq_base : ℕ
  pub request : ℕ
  pub service : ℕ
  pub mask : ℕ
  pub smm : Bool
  pub acnt : List ℤ
  pub lowprio : ℕ
  pub intr_raised : Bool

-- What the pair tells the rest of the machine: `lapic_set_local_intr(vm, -1, APIC_LVT_LINT0)` and
-- `vioapic_pulse_irq(vm, irq)`.
pub data Signal : Type 0 where
  local_lint0 : Signal
  ioapic_pulse : ℕ → Signal

-- `struct vatpic` without its lock: `atpic[0]` is the master. The signals sent so far stand
-- newest first.
pub record Vatpic : Type 0 where
  pub atpic0 : Atpic
  pub atpic1 : Atpic
  pub elc0 : ℕ
  pub elc1 : ℕ
  pub signals : List Signal

pub data Chip : Type 0 where
  master slave : Chip

-- `&vatpic->atpic[i]` for reading and for writing, and `vatpic->elc[i]`
abbrev pub get : Chip → Vatpic → Atpic
get master v = v.atpic0
get slave v = v.atpic1

abbrev pub put : Chip → Atpic → Vatpic → Vatpic
put master a v = record v { atpic0 = a }
put slave a v = record v { atpic1 = a }

abbrev pub elc : Chip → Vatpic → ℕ
elc master v = v.elc0
elc slave v = v.elc1

-- `pin >> 3` and `irq >> 3`, for a pin below 16
abbrev pub chip_of : ℕ → Chip
chip_of pin = if ltb pin 8 then master else slave

-- `int` results: 0, -1, and EINVAL
pub data Status : Type 0 where
  ok failed einval : Status

-- The body of the loop in vatpic_get_highest_isrpin.
unfoldable pub isr_round : Atpic → ℕ → Flow
isr_round a pin =
    if has a.service (2 ^ pin)
    then (if a.smm && has a.mask (2 ^ pin) then next else found)
    else next

unfoldable pub get_highest_isrpin : Atpic → Option ℕ
get_highest_isrpin a = pin_foreach (isr_round a) a.lowprio

-- `serviced` of vatpic_get_highest_irrpin
unfoldable pub serviced : Atpic → ℕ
serviced a = if a.smm then 0 else if a.sfn then clear 8 a.service (2 ^ 2) else a.service

-- The body of the loop in vatpic_get_highest_irrpin.
unfoldable pub irr_round : Atpic → ℕ → Flow
unfolding serviced
irr_round a pin =
    if has (serviced a) (2 ^ pin)
    then leave
    else if has a.request (2 ^ pin) && not (has a.mask (2 ^ pin))
    then found
    else next

unfoldable pub get_highest_irrpin : Atpic → Option ℕ
get_highest_irrpin a = pin_foreach (irr_round a) a.lowprio

-- `bzero` of a fresh structure
abbrev pub zeroed : Atpic
zeroed = record {
  ready = false;
  icw_num = 0;
  rd_cmd_reg = 0;
  aeoi = false;
  poll = false;
  rotate = false;
  sfn = false;
  irq_base = 0;
  request = 0;
  service = 0;
  mask = 0;
  smm = false;
  acnt = replicate 8 (pos 0);
  lowprio = 0;
  intr_raised = false;
}

unfoldable pub init : Vatpic
init = record { atpic0 = zeroed; atpic1 = zeroed; elc0 = 0; elc1 = 0; signals = [] }
