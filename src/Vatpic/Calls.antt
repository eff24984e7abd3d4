-- ===== src/Vatpic/Calls.antt =====
-- The calls that the machine makes of src/lib/vmm/io/vatpic.c, in any number and order.
use hyperkit.Base.{ℕ, Bool, List, [], ◌∷◌}
use hyperkit.Vatpic.State.{Vatpic, Chip, init}
use hyperkit.Vatpic.Ports.{
  IrqState, set_irqstate, Trigger, set_irq_trigger, intr_accepted, handler, elc_handler,
}
use hyperkit.Vatpic.Pair.{
  IsPair, init-IsPair, set_irqstate-IsPair, set_irq_trigger-IsPair, intr_accepted-IsPair,
  handler-IsPair, elc_handler-IsPair,
}

-- One constructor for each entry point that changes the state.
pub data Call : Type 0 where
  irqstate : ℕ → IrqState → Call
  irq_trigger : ℕ → Trigger → Call
  accepted : ℕ → Call
  port : Chip → Bool → ℕ → ℕ → ℕ → Call
  elcr : Bool → Bool → ℕ → ℕ → Call

unfoldable pub call : Vatpic → Call → Vatpic
call v (irqstate irq s) = (set_irqstate v irq s).1
call v (irq_trigger irq t) = (set_irq_trigger v irq t).1
call v (accepted vector) = intr_accepted v vector
call v (port c inward p bytes eax) = (handler c v inward p bytes eax).2
call v (elcr inward is_first bytes eax) = (elc_handler v inward is_first bytes eax).2

unfoldable pub run : Vatpic → List Call → Vatpic
unfolding call
run v [] = v
run v (c ∷ cs) = run (call v c) cs

pub call-IsPair : {v : Vatpic} (c : Call) → IsPair v → IsPair (call v c)
unfolding call
call-IsPair (irqstate irq s) p = set_irqstate-IsPair irq s p
call-IsPair (irq_trigger irq t) p = set_irq_trigger-IsPair irq t p
call-IsPair (accepted vector) p = intr_accepted-IsPair vector p
call-IsPair (port c inward q bytes eax) p = handler-IsPair c inward q bytes eax p
call-IsPair (elcr inward is_first bytes eax) p = elc_handler-IsPair inward is_first bytes eax p

pub run-IsPair : (cs : List Call) {v : Vatpic} → IsPair v → IsPair (run v cs)
unfolding run
run-IsPair [] p = p
run-IsPair (c ∷ cs) p = run-IsPair cs (call-IsPair c p)

-- After any sequence of calls from the initial state the registers of both chips are bytes, their
-- lowest priority is a pin, their vector bases are multiples of eight, no command word is awaited
-- on a chip that is ready, and no line that must be edge triggered is marked level.
pub run-init-IsPair : (cs : List Call) → IsPair (run init cs)
run-init-IsPair cs = run-IsPair cs init-IsPair
