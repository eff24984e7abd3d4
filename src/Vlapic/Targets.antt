-- ===== src/Vlapic/Targets.antt =====
-- The destinations of interrupts among the local APICs of a machine, in src/lib/vmm/io/vlapic.c, and
-- the messages of src/lib/vmm/vmm_lapic.c.
use hyperkit.Base.{
  ℕ, zero, suc, ◌+◌, ◌/◌, ◌^◌, Bool, true, false, ◌&&◌, List, ltb, leb, ◌==◌, if◌then◌else◌, get_or,
  set, bit_and, bit_or, Option, none, some,
}
use hyperkit.Base.Bits.Laws.{bit}
use hyperkit.Base.Bits.Words.{has}
use hyperkit.Vlapic.State.{Vlapic, extint, send}
use hyperkit.Vlapic.Sources.{set_intr}
use hyperkit.Vlapic.Reset.{x2apic, init}

-- The APICs of the machine by their number, and `vm_active_cpus` as a set of bits.
pub record Machine : Type 0 where
  pub apics : List Vlapic
  pub active_cpus : ℕ

-- `VM_MAXCPU`
abbrev pub vm_maxcpu : ℕ
vm_maxcpu = 16

abbrev pub apic_at : Machine → ℕ → Vlapic
apic_at m vcpuid = get_or m.apics vcpuid (init 0)

-- The destination of a message: the logical APICs of the address, in the cluster that it names.
pub record Address : Type 0 where
  pub flat_ldest : ℕ
  pub cluster_id : ℕ
  pub cluster_ldest : ℕ

unfoldable pub address_of : Bool → ℕ → Address
address_of x2apic_dest dest =
    if x2apic_dest
    then record {
      flat_ldest = bit_and dest 0xff;
      cluster_id = dest / 2 ^ 16;
      cluster_ldest = bit_and dest 0xffff;
    }
    else record {
      flat_ldest = bit_and dest 0xff;
      cluster_id = bit_and (dest / 2 ^ 4) 0xf;
      cluster_ldest = bit_and dest 0xf;
    }

-- An APIC answers to a logical address, by the model of its DFR and by its LDR.
unfoldable pub answers : Address → Vlapic → Bool
answers a v =
    let model = bit_and v.dfr 0xf0000000 in
    let cluster = if x2apic v then v.ldr / 2 ^ 16 else v.ldr / 2 ^ 28 in
    let ldest = if x2apic v then bit_and v.ldr 0xffff else bit_and (v.ldr / 2 ^ 24) 0xf in
    if model == 0xf0000000
    then has a.flat_ldest (v.ldr / 2 ^ 24)
    else if model == 0
    then cluster == a.cluster_id && has a.cluster_ldest ldest
    else false

-- The loop over the active processors, n of them to go from one on, with a test of their APICs.
unfoldable pub match_loop : (ℕ → Bool) → Bool → ℕ → ℕ → ℕ
match_loop test lowprio zero vcpuid = 0
match_loop test lowprio (suc n) vcpuid =
    let rest = match_loop test lowprio n (vcpuid + 1) in
    if test vcpuid then (if lowprio then 2 ^ vcpuid else bit_or (2 ^ vcpuid) rest) else rest

-- An active processor whose APIC answers.
abbrev pub is_target : Machine → Address → ℕ → Bool
is_target m a vcpuid = bit m.active_cpus vcpuid && answers a (apic_at m vcpuid)

abbrev pub is_broadcast : Bool → ℕ → Bool
is_broadcast x2apic_dest dest = dest == (if x2apic_dest then 0xffffffff else 0xff)

-- vlapic_calcdest as a set of bits. A set has 32 bits. `none` is an APIC ID that the cast to `int`
-- makes negative, which gets past the test and shifts by more bits than a word has.
unfoldable pub calcdest : Machine → ℕ → Bool → Bool → Bool → Option ℕ
calcdest m dest phys lowprio x2apic_dest =
    if is_broadcast x2apic_dest dest
    then some m.active_cpus
    else if phys
    then (if leb (2 ^ 31) dest
        then none
        else if ltb dest vm_maxcpu
        then some (2 ^ dest)
        else some 0)
    else some (match_loop (is_target m (address_of x2apic_dest dest)) lowprio 32 0)

-- `delmode` of vlapic_deliver_intr: `IOART_DELFIXED`, `IOART_DELLOPRI` and `IOART_DELEXINT`.
pub data Delivery : Type 0 where
  fixed : Delivery
  lowest : Delivery
  external : Delivery

unfoldable pub is_lowest : Delivery → Bool
is_lowest fixed = false
is_lowest lowest = true
is_lowest external = false

-- One APIC gets the interrupt.
unfoldable pub deliver_one : Delivery → ℕ → Vlapic → Vlapic
deliver_one external vec v = send extint v
deliver_one fixed vec v = elim (set_intr v vec) [ none ↦ v | some w ↦ w ]
deliver_one lowest vec v = elim (set_intr v vec) [ none ↦ v | some w ↦ w ]

-- The loop over the targets: n processors to go from one on.
unfoldable pub deliver_loop : Delivery → ℕ → ℕ → ℕ → ℕ → List Vlapic → List Vlapic
deliver_loop mode vec dmask zero vcpuid apics = apics
deliver_loop mode vec dmask (suc n) vcpuid apics = deliver_loop mode vec dmask n (vcpuid + 1) (
    if bit dmask vcpuid
    then set apics vcpuid (deliver_one mode vec (get_or apics vcpuid (init 0)))
    else apics)

-- Deliver to a set of processors.
unfoldable pub deliver_to : Machine → Delivery → ℕ → Option ℕ → Option Machine
deliver_to m mode vec none = none
deliver_to m mode vec (some dmask) =
    some (record m { apics = deliver_loop mode vec dmask 32 0 m.apics })

unfoldable pub deliver_intr : Machine → ℕ → Bool → Delivery → ℕ → Option Machine
deliver_intr m dest phys mode vec =
    deliver_to m mode vec (calcdest m dest phys (is_lowest mode) false)
