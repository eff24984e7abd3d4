-- ===== src/Vlapic/Registers.antt =====
-- The register window of the local APIC in src/lib/vmm/io/vlapic.c: the writes that concern this APIC
-- alone.
use hyperkit.Base.{
  ℕ, ◌%◌, ◌^◌, Bool, not, ◌&&◌, ◌||◌, ◌==◌, if◌then◌else◌, bit_and, Option, none, some,
}
use hyperkit.Vlapic.State.{Vlapic, process_eoi, set_tpr}
use hyperkit.Vlapic.Sources.{Lvt, lvt_write, icrtmr_write_handler, svr_write, esr_write_handler}
use hyperkit.Vlapic.Reset.{x2apic, get_id, dfr_write, ldr_write}

-- vlapic_timer_divisor, or `none` where it aborts, and its cases.
unfoldable pub divisor_of : ℕ → Option ℕ
divisor_of field =
    if field == 0xb
    then some 1
    else if field == 0
    then some 2
    else if field == 1
    then some 4
    else if field == 2
    then some 8
    else if field == 3
    then some 16
    else if field == 8
    then some 32
    else if field == 9
    then some 64
    else if field == 0xa
    then some 128
    else none

unfoldable pub timer_divisor : ℕ → Option ℕ
timer_divisor dcr = divisor_of (bit_and dcr 0xb)

-- The registers at the offsets of the window, but for the low half of the interrupt command register
-- and the one for an interrupt to oneself, which send interrupts; `read_only` is any other.
pub data Register : Type 0 where
  apic_id : Register
  task_priority : Register
  end_of_interrupt : Register
  logical : Register
  format : Register
  spurious : Register
  command_high : Register
  local_vector : Lvt → Register
  initial_count : Register
  divide : Register
  error_status : Register
  read_only : Register

-- A write of the divider, apart from the frequency that follows from it.
unfoldable pub dcr_write : Option ℕ → ℕ → Vlapic → Option Vlapic
dcr_write none value v = none
dcr_write (some divisor) value v = some (record v { dcr_timer = value % 2 ^ 32 })

unfoldable pub write_register : Register → ℕ → Vlapic → Option Vlapic
write_register apic_id value v = some (record v { id = get_id v })
write_register task_priority value v = set_tpr v (value % 2 ^ 8)
write_register end_of_interrupt value v = process_eoi v
write_register logical value v = some (ldr_write value v)
write_register format value v = some (dfr_write value v)
write_register spurious value v = some (svr_write value v)
write_register command_high value v = some (record v { icr_hi = value % 2 ^ 32 })
write_register (local_vector l) value v = some (lvt_write l value v)
write_register initial_count value v =
    some (icrtmr_write_handler (record v { icr_timer = value % 2 ^ 32 }))
write_register divide value v = dcr_write (timer_divisor (value % 2 ^ 32)) value v
write_register error_status value v = some (esr_write_handler v)
write_register read_only value v = some v

-- vlapic_write: accesses of the wrong kind for the mode are ignored.
unfoldable pub write : Bool → Register → ℕ → Vlapic → Option Vlapic
write mmio_access r value v =
    let done = write_register r value v in
    if x2apic v && mmio_access || not (x2apic v) && not mmio_access then some v else done
