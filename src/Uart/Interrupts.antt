-- ===== src/Uart/Interrupts.antt =====
-- The registers that tell the guest of the state of the serial port, in src/lib/uart_emul.c.
use hyperkit.Base.{
  ℕ, ◌^◌, ◌<◌, ◌≡◌, ◌≢◌, refl, sym, ap, ◌∙◌, Bool, true, false, arith, ltb, ==_of_ne, if◌then◌else◌,
  length, bit_or,
}
use hyperkit.Base.Bits.Laws.{bit-bit_or}
use hyperkit.Base.Bits.Words.{has, has-pow, clear, bit-clear, bit_or-lt, clear-lt}
use hyperkit.Uart.State.{Uart, intr_reason}
use hyperkit.Uart.Registers.{read_iir, read_lsr}
use hyperkit.Uart.Fifo.{contents, length-chars}

-- A read of the interrupt identification that reports the empty transmitter takes that reason away,
-- and one that reports another reason, or none, takes nothing away.
pub intr_reason-read_iir :
    (s : Uart)
    → (intr_reason s ≡ 2 → intr_reason (read_iir s).port ≢ 2)
      × (intr_reason s ≢ 2 → (read_iir s).port ≡ s)
unfolding read_iir intr_reason
intr_reason-read_iir s = (
  λ e. rw e (quiet (record s { thre_int_pending = false }) refl),
  λ ne. rw (==_of_ne (intr_reason s) 2 ne) refl,
)
  where
    quiet : (t : Uart) → t.thre_int_pending ≡ false → intr_reason t ≢ 2
    quiet t e f = ground (arith, f)

module _ (lsr : ℕ) (h : lsr < 2 ^ 8) where
  up : ℕ
  up = bit_or lsr 0x60

  shown : Bool → ℕ
  shown b = if b then bit_or up 1 else clear 8 up 1

  up-lt : up < 2 ^ 8
  unfolding up
  up-lt = bit_or-lt 8 lsr 0x60 h (omega arith)

  shown-lt : (b : Bool) → shown b < 2 ^ 8
  unfolding shown
  shown-lt true = bit_or-lt 8 up 1 up-lt (omega arith)
  shown-lt false = clear-lt 8 up 1 up-lt

  shown_ready : (b : Bool) → has (shown b) 1 ≡ b
  unfolding shown
  shown_ready true = has-pow (bit_or up 1) 0 ∙ bit-bit_or up 1 0 ∙ ground arith
  shown_ready false = has-pow (clear 8 up 1) 0 ∙ bit-clear 8 up 1 0 up-lt ∙ ground arith

  shown_loss : (b : Bool) → has (shown b) 2 ≡ has lsr 2
  unfolding shown up
  shown_loss true =
      has-pow (bit_or up 1) 1
      ∙ bit-bit_or up 1 1
      ∙ ground (arith, bit-bit_or lsr 0x60 1)
      ∙ sym (has-pow lsr 1)
  shown_loss false =
      has-pow (clear 8 up 1) 1
      ∙ bit-clear 8 up 1 1 up-lt
      ∙ ground (arith, bit-bit_or lsr 0x60 1)
      ∙ sym (has-pow lsr 1)

  shown_cleared : (b : Bool) → has (clear 8 (shown b) 2) 2 ≡ false
  shown_cleared b =
      has-pow (clear 8 (shown b) 2) 1 ∙ bit-clear 8 (shown b) 2 1 (shown-lt b) ∙ ground arith

-- The line status tells the guest whether a character waits and whether one was lost, and the read
-- clears the loss alone, if the register is a byte.
pub read_lsr_lem :
    (s : Uart)
    → s.lsr < 2 ^ 8
    → (has (read_lsr s).value 1 ≡ ltb 0 (length (contents s.rxfifo)))
      × ((has (read_lsr s).value 2 ≡ has s.lsr 2) × (has (read_lsr s).port.lsr 2 ≡ false))
unfolding read_lsr shown up
read_lsr_lem s h =
    let b = ltb 0 s.rxfifo.num in
    let count = length-chars s.rxfifo.buf s.rxfifo.size s.rxfifo.rindex s.rxfifo.num in
    (
      shown_ready s.lsr h b ∙ ap (ltb 0) (sym count),
      (shown_loss s.lsr h b, shown_cleared s.lsr h b),
    )
