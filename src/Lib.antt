-- ===== src/Lib.antt =====
-- Verification of the device models of hyperkit, which emulates the devices of a virtual machine: the
-- pair of 8259A interrupt controllers, the I/O APIC, the local APIC, the real-time clock, the
-- interrupt lines of PCI devices, the virtio transport and the serial port.
--
-- How the parts work together. A device raises an interrupt through one of the controllers: a level or
-- an edge on a pin of the 8259A pair or of the I/O APIC. The 8259A pair tells the processor by the
-- line of its master chip, and the processor asks for the vector, accepts it and later ends the
-- interrupt. The I/O APIC sends messages to the local APICs and hears of the end of an interrupt from
-- them. A virtio device shares rings in the guest's memory with its driver: it takes requests from the
-- available ring, returns them through the used ring, and interrupts through a message or through the
-- level of its PCI line, which the router of PCI interrupts joins with the lines of other devices. The
-- serial port takes characters from a terminal into a FIFO and reports them by its interrupt.
--
-- Base: the names and lemmas that all parts share. Base.Lists has C arrays as lists with indices,
-- Base.Signed the `int` counters, Base.Tests the comparisons of C, Base.Rings indices of rings, and
-- Base.Bits the bitwise operations on words, digit by digit.
--
-- Vatpic: src/lib/vmm/io/vatpic.c. State has `struct atpic` and the searches for the pin in service
-- and for the request (vatpic_get_highest_isrpin, vatpic_get_highest_irrpin) over ATPIC_PIN_FOREACH
-- (PinLoop); Notify has vatpic_set_pinstate and vatpic_notify_intr, which call each other; Commands
-- has the words ICW1 to ICW4 and OCW1 to OCW3 and vatpic_pin_accepted; Ports has the entry points. The
-- state of both chips is one record, with the signals to the processor as a list. Priority, Accept,
-- Settled, Calls, Pair, Trigger, Valid, Lines and Programming hold the proofs.
--
-- Vioapic: src/lib/vmm/io/vioapic.c. State has the redirection table and vioapic_send_intr, Registers
-- the register window and vioapic_mmio_rw, Eoi vioapic_process_eoi and vioapic_update_tmr. A message
-- is a signal in a list. Entries, Served, Writes, Calls, Table, EoiTable and Delivery hold the proofs.
--
-- Vlapic: src/lib/vmm/io/vlapic.c, and lapic_set_intr of src/lib/vmm/vmm_lapic.c. Vectors has the
-- registers of 256 bits, State `struct vlapic`, vlapic_update_ppr, vlapic_pending_intr,
-- vlapic_intr_accepted, vlapic_process_eoi and vlapic_set_tpr, Sources vlapic_set_intr_ready, the
-- local vector table and vlapic_set_error, Reset vlapic_reset and vlapic_init, Registers the writes of
-- vlapic_write that concern one APIC, Targets vlapic_calcdest and vlapic_deliver_intr over the APICs
-- of a machine. An abort is a result of none, and what the APIC does elsewhere is a list of signals.
-- Highest, Stack, Nested, Service, Quiet, Errors, Divider, Calls, Addressed, Logical and Delivered
-- hold the proofs.
--
-- Vrtc: src/lib/vmm/io/vrtc.c. Clock has the calendar (clock_ct_to_ts, clock_ts_to_ct), Fields the bytes
-- of `struct rtcdev` and the date in them (secs_to_rtc, rtc_to_secs), Registers vrtc_curtime,
-- vrtc_set_reg_c and vrtc_time_update, Ports vrtc_set_reg_a, vrtc_set_reg_b, the callout and the handlers
-- of the ports. `VRTC_BROKEN_TIME` is a time of none, the pulses of IRQ 8 are a count, and the callout is
-- its period. Calendar, Dates, Formats, Rounds, Alarm and Setting hold the proofs.
--
-- Virtio: src/lib/virtio.c with src/include/xhyve/virtio.h. Memory has the rings as one snapshot of
-- the guest's memory; Getchain has vq_getchain; Used has vq_retchain, vq_relchain, vq_endchains and
-- vq_interrupt; Device and Registers have vi_vq_init, vi_find_cr and vi_reset_dev; Accesses has
-- vi_pci_read and vi_pci_write. Requests says apart from the code what a well formed request is, and
-- Recorded, Tables, Chains, Mapped and Accepted relate vq_getchain to it. paddr_guest2host of a table
-- of descriptors is a function that may give none. UsedRing, Interrupts, Layout, Line, Session and
-- Setup hold the other proofs.
--
-- Pci: src/lib/pci_irq.c, and the interrupt lines in src/lib/pci_emul.c. Router has the pins of the router
-- (pirq_write, pci_irq_assert, pci_irq_deassert, pirq_alloc_pin), Lines the state of the line of a device
-- (pci_lintr_assert, pci_lintr_deassert, pci_lintr_update). What is raised and lowered is a list of
-- signals. Counts, Changes, Wired, Runs, Levels and Boot hold the proofs.
--
-- Uart: src/lib/uart_emul.c. State has the registers, the FIFO (rxfifo_putchar, rxfifo_getchar) and
-- uart_intr_reason; Registers has uart_write, uart_read and uart_drain; Legacy has uart_legacy_alloc.
-- Fifo, Invariant, Session, Receive, Interrupts and Modem hold the proofs.
--
-- The Tests module of each part has runs at inputs and the theorems at inputs.
--
-- Loops and fuel. The pin loops and the loops over tables run over their eight or twenty-four indices.
-- The notification of the 8259A pair recurses through the cascade pin, and its fuel is two calls,
-- since a call for the slave changes the master once. The loops of vq_getchain take VQ_MAX_DESCRIPTORS
-- + 1 rounds at most, since the code gives up on longer chains, and vi_find_cr five, for a table of
-- ten registers. vlapic_set_error and vlapic_fire_lvt call each other to a depth of two, since
-- esr_firing stops the next call. The loops over years and months of clock_ts_to_ct take as many
-- rounds as there are days and as a year has months. The loop of vrtc_time_update takes one for each
-- second to go, and where it wants more the result says that it does not end.
--
-- Machine integers. Registers are natural numbers with the masks and casts of the code written out;
-- indices of the virtio rings are taken modulo 2^16. The `int` counts of lines are signed numbers, and
-- the `int` counts of days of the calendar are words of 32 bits.
--
-- Not modelled: locks, since each entry point holds its device's lock and is one step (where the I/O
-- APIC lets go of it, what others do is an argument); tracing and error messages; the host's files,
-- terminals and sockets, of which the serial port has the characters read and written; the host's
-- clocks, of which the real-time clock has the readings as a record; the callbacks of a virtio device,
-- which are fields of a record with what they keep as a hypothesis; the interrupt command register of the local APIC, the times of its timer
-- and the functions of `ops`, which are taken as absent; and the other devices, the processor and the
-- boot loaders.
pub mod Base
pub mod Pci
pub mod Uart
pub mod Vatpic
pub mod Vioapic
pub mod Virtio
pub mod Vlapic
pub mod Vrtc
