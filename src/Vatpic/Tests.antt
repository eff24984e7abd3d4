-- ===== src/Vatpic/Tests.antt =====
-- Runs of the interrupt controllers, and the theorems about src/lib/vmm/io/vatpic.c at inputs.
use hyperkit.Base.{◌<◌, ◌≡◌, refl, ◌↔◌, true, false, some, List, [], ◌∷◌, arith, set}
use hyperkit.Base.Signed.{pos}
use hyperkit.Base.Bits.Laws.{bit-zero}
use hyperkit.Base.Bits.Words.{has, clear}
use hyperkit.Vatpic.PinLoop.{rank, pin_foreach}
use hyperkit.Vatpic.State.{
  Atpic, Vatpic, Chip, master, slave, put, zeroed, init, get_highest_irrpin, get_highest_isrpin,
  irr_round, isr_round,
}
use hyperkit.Vatpic.Notify.{notify_intr}
use hyperkit.Vatpic.Commands.{pin_accepted, ocw2}
use hyperkit.Vatpic.Ports.{assert, pulse, pending_intr, accept_vector, level}
use hyperkit.Vatpic.Priority.{IsHighestRequest, get_highest_irrpin_iff}
use hyperkit.Vatpic.Valid.{IsChip}
use hyperkit.Vatpic.Pair.{IsPair}
use hyperkit.Vatpic.Trigger.{IsElc}
use hyperkit.Vatpic.Accept.{pin_accepted-blocks, eoi-pin_accepted, accept_vector-pending_intr}
use hyperkit.Vatpic.Lines.{Tracks}
use hyperkit.Vatpic.Programming.{programmed, configured, programmed_lem}
use hyperkit.Vatpic.Calls.{Call, run, run-init-IsPair, irqstate, irq_trigger, accepted, port, elcr}

-- Pins 3 and 5 request, pin 6 is in service.
abbrev busy : Atpic
busy = record zeroed { ready = true; request = 0x28; service = 0x40; lowprio = 7; irq_base = 0x20 }

busy-IsChip : IsChip busy
busy-IsChip = ground arith

busy_request : get_highest_irrpin busy ≡ some 3
unfolding get_highest_irrpin pin_foreach irr_round has clear
busy_request = refl

busy_service : get_highest_isrpin busy ≡ some 6
unfolding get_highest_isrpin pin_foreach isr_round has
busy_service = refl

busy_accepted : get_highest_irrpin (pin_accepted busy 5) ≡ some 3
unfolding get_highest_irrpin pin_foreach irr_round has clear pin_accepted
busy_accepted = refl

get_highest_irrpin_iff_example : (get_highest_irrpin busy ≡ some 3) ↔ IsHighestRequest busy 3
get_highest_irrpin_iff_example = get_highest_irrpin_iff busy (omega arith) (omega arith) 3

pin_accepted-blocks_example : rank 7 3 < rank 7 5
pin_accepted-blocks_example =
    pin_accepted-blocks 5 3 busy-IsChip (omega arith) refl refl refl busy_accepted

eoi-pin_accepted_example :
    (get_highest_isrpin (pin_accepted busy 3) ≡ some 3)
    × ((ocw2 (pin_accepted busy 3) 0x20).1.service ≡ 0x40)
eoi-pin_accepted_example = eoi-pin_accepted 3 busy-IsChip refl refl refl busy_request

-- The master has the cascade request of the slave.
abbrev pair : Vatpic
pair = record init {
  atpic0 = busy;
  atpic1 = record zeroed { ready = true; request = 0x02; lowprio = 7; irq_base = 0x28 };
}

abbrev cascaded : Vatpic
cascaded = record pair { atpic0 = record busy { request = 0x04 } }

zero-IsElc : (c : Chip) → IsElc c 0
zero-IsElc c = record { byte = omega arith; edges = λ k hk must. bit-zero k }

pair-IsPair : IsPair pair
unfolding init
pair-IsPair = record {
  chip0 = busy-IsChip;
  chip1 = ground arith;
  elc0_ok = zero-IsElc master;
  elc1_ok = zero-IsElc slave;
}

cascaded-IsPair : IsPair cascaded
unfolding init
cascaded-IsPair = record {
  chip0 = ground arith;
  chip1 = ground arith;
  elc0_ok = zero-IsElc master;
  elc1_ok = zero-IsElc slave;
}

cascade_request : get_highest_irrpin cascaded.atpic0 ≡ some 2
unfolding get_highest_irrpin pin_foreach irr_round has clear
cascade_request = refl

slave_request : get_highest_irrpin cascaded.atpic1 ≡ some 1
unfolding get_highest_irrpin pin_foreach irr_round has clear
slave_request = refl

pair_vector : pending_intr pair ≡ 0x23
unfolding pending_intr get_highest_irrpin pin_foreach irr_round has clear
pair_vector = refl

accept_vector-pending_intr_example :
    accept_vector pair (pending_intr pair) ≡ put master (pin_accepted busy 3) pair
accept_vector-pending_intr_example =
    accept_vector-pending_intr 3 pair-IsPair (omega arith) busy_request (omega arith)

-- The slave's request reaches the master through pin 2, and the master signals the processor.
pair_notified :
    ((notify_intr pair).atpic0.request ≡ 0x2c) × ((notify_intr pair).atpic1.intr_raised ≡ true)
unfolding init notify_intr get_highest_irrpin pin_foreach irr_round has clear
pair_notified = (refl, refl)

-- The guest programs the master, a device pulses line 5, and the processor takes the vector.
abbrev session : List Call
session =
    port master false 0x20 1 0x11
    ∷ port master false 0x21 1 0x30
    ∷ port master false 0x21 1 0x04
    ∷ port master false 0x21 1 0x01
    ∷ irq_trigger 5 level
    ∷ irqstate 5 pulse
    ∷ irqstate 3 assert
    ∷ accepted 0x33
    ∷ elcr false true 1 0xff
    ∷ []

run-init-IsPair_example : IsPair (run init session)
run-init-IsPair_example = run-init-IsPair session

level_busy : Tracks (record busy { acnt = set busy.acnt 3 (pos 1); request = 0x08 }) 3
level_busy = refl

abbrev raised3 : Atpic
raised3 = record busy { acnt = set busy.acnt 3 (pos 1); request = 0x08 }

-- The master requests while the guest programs it again.
abbrev booting : Vatpic
booting = record init { atpic0 = busy }

programmed_lem_example :
    programmed master booting 0x20 0x21 0x11 0x30 0x04 0x03
    ≡ notify_intr (put master (configured master booting 0x20 0x21 0x11 0x30 0x04 0x03) booting)
unfolding has
programmed_lem_example =
    programmed_lem master booting 0x20 0x21 0x11 0x30 0x04 0x03 refl refl refl refl refl refl
