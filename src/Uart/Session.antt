-- ===== src/Uart/Session.antt =====
-- Any sequence of accesses of the guest and of input from the terminal, in src/lib/uart_emul.c.
use hyperkit.Base.{
  ℕ, ◌≡◌, refl, Bool, true, false, not, ◌&&◌, List, [], ◌∷◌, arith, ◌==◌, if◌then◌else◌, if_cases,
}
use hyperkit.Uart.State.{
  available, intr_assert, intr_deassert, Uart, rxfifo_putchar, rxfifo_reset, intr_reason,
  toggle_intr, reset, init,
}
use hyperkit.Uart.Registers.{
  loopback, write_mcr, write_reg, dlab, write, Read, read_data, read_iir, read_lsr, read_reg, read,
  drain_loop, drain,
}
use hyperkit.Base.Bits.Words.{has}
use hyperkit.Uart.Fifo.{empty_fifo-IsFifo}
use hyperkit.Uart.Invariant.{
  is_raised, IsBody, IsPort, same-IsBody, putchar-IsBody, getchar-IsBody, write_data-IsBody,
  write_fcr-IsBody,
}

toggle_intr-IsPort : (s : Uart) → IsBody s → IsPort (toggle_intr s)
unfolding toggle_intr intr_reason is_raised
toggle_intr-IsPort s v = record {
  body = same-IsBody v refl refl;
  line = raised (intr_reason s == 1);
}
  where
    raised : (b : Bool) → is_raised ((if b then intr_deassert else intr_assert) ∷ s.outputs) ≡ not b
    raised true = refl
    raised false = refl

write_mcr-IsBody : (s : Uart) (value : ℕ) → IsBody s → IsBody (write_mcr s value)
unfolding write_mcr
write_mcr-IsBody s value v = same-IsBody v refl refl

write_reg-IsBody : (s : Uart) (offset value : ℕ) → IsBody s → IsBody (write_reg s offset value)
unfolding write_reg
write_reg-IsBody s offset value v =
    if_cases IsBody (offset == 0) (λ _. write_data-IsBody s value v)
      (λ _.
        if_cases IsBody (offset == 1) (λ _. same-IsBody v refl refl)
          (λ _.
            if_cases IsBody (offset == 2) (λ _. write_fcr-IsBody s value v)
              (λ _.
                if_cases IsBody (offset == 3) (λ _. same-IsBody v refl refl)
                  (λ _.
                    if_cases IsBody (offset == 4) (λ _. write_mcr-IsBody s value v)
                      (λ _.
                        if_cases IsBody (offset == 7) (λ _. same-IsBody v refl refl) (λ _. v))))))

pub write-IsPort : (s : Uart) (offset value : ℕ) → IsBody s → IsPort (write s offset value)
unfolding write
write-IsPort s offset value v = toggle_intr-IsPort _ (
    if_cases IsBody (dlab s && offset == 0) (λ _. same-IsBody v refl refl)
      (λ _.
        if_cases IsBody (dlab s && offset == 1) (λ _. same-IsBody v refl refl)
          (λ _. write_reg-IsBody s offset value v)))

abbrev Kept : Read → Type 0
Kept r = IsBody r.port

read_iir-IsBody : (s : Uart) → IsBody s → Kept (read_iir s)
unfolding read_iir
read_iir-IsBody s v = if_cases IsBody (intr_reason s == 2) (λ _. same-IsBody v refl refl) (λ _. v)

read_lsr-IsBody : (s : Uart) → IsBody s → Kept (read_lsr s)
unfolding read_lsr
read_lsr-IsBody s v = same-IsBody v refl refl

read_data-IsBody : (s : Uart) → IsBody s → Kept (read_data s)
unfolding read_data
read_data-IsBody s v = getchar-IsBody s v

read_reg-IsBody : (s : Uart) (offset : ℕ) → IsBody s → Kept (read_reg s offset)
unfolding read_reg
read_reg-IsBody s offset v =
    if_cases Kept (offset == 0) (λ _. read_data-IsBody s v)
      (λ _.
        if_cases Kept (offset == 1) (λ _. v)
          (λ _.
            if_cases Kept (offset == 2) (λ _. read_iir-IsBody s v)
              (λ _.
                if_cases Kept (offset == 3) (λ _. v)
                  (λ _.
                    if_cases Kept (offset == 4) (λ _. v)
                      (λ _.
                        if_cases Kept (offset == 5) (λ _. read_lsr-IsBody s v)
                          (λ _.
                            if_cases Kept (offset == 6) (λ _. same-IsBody v refl refl)
                              (λ _. if_cases Kept (offset == 7) (λ _. v) (λ _. v))))))))

pub read-IsPort : (s : Uart) (offset : ℕ) → IsBody s → IsPort (read s offset).port
unfolding read
read-IsPort s offset v = toggle_intr-IsPort _ (
    if_cases Kept (dlab s && offset == 0) (λ _. v)
      (λ _. if_cases Kept (dlab s && offset == 1) (λ _. v) (λ _. read_reg-IsBody s offset v)))

drain_loop-IsBody : (chs : List ℕ) (s : Uart) → IsBody s → IsBody (drain_loop chs s)
unfolding drain_loop
drain_loop-IsBody [] s v = v
drain_loop-IsBody (ch ∷ chs) s v =
    if_cases IsBody (available s.rxfifo)
      (λ _. drain_loop-IsBody chs (rxfifo_putchar s ch).port (putchar-IsBody s ch v)) (λ _. v)

pub drain-IsPort : (chs : List ℕ) (s : Uart) → IsPort s → IsPort (drain chs s)
unfolding drain
drain-IsPort chs s v =
    if_cases IsPort (loopback s) (λ _. v)
      (λ _. toggle_intr-IsPort _ (drain_loop-IsBody chs s v.body))

-- A call of the port: a write, a read, or input from the terminal.
pub data Call : Type 0 where
  writing : ℕ → ℕ → Call
  reading : ℕ → Call
  input : List ℕ → Call

unfoldable pub run : List Call → Uart → Uart
run [] s = s
run (writing offset value ∷ cs) s = run cs (write s offset value)
run (reading offset ∷ cs) s = run cs (read s offset).port
run (input chs ∷ cs) s = run cs (drain chs s)

run-IsPort : (cs : List Call) (s : Uart) → IsPort s → IsPort (run cs s)
unfolding run
run-IsPort [] s v = v
run-IsPort (writing offset value ∷ cs) s v = run-IsPort cs _ (write-IsPort s offset value v.body)
run-IsPort (reading offset ∷ cs) s v = run-IsPort cs _ (read-IsPort s offset v.body)
run-IsPort (input chs ∷ cs) s v = run-IsPort cs _ (drain-IsPort chs s v)

-- After uart_init with a terminal or without one, and any sequence of accesses and input, the
-- receive FIFO is in order with 16 places exactly in FIFO mode and one else, and the interrupt line
-- is up exactly while uart_intr_reason gives a reason.
pub run-init-IsPort :
    (cs : List Call) (opened log : Bool)
    → IsPort (run cs (record init { opened = opened; log = log }))
unfolding init reset rxfifo_reset has intr_reason is_raised
run-init-IsPort cs opened log = run-IsPort cs _ fresh
  where
    fresh : IsPort (record init { opened = opened; log = log })
    fresh = record {
      body = record { fifo = empty_fifo-IsFifo 1 (omega arith) (omega arith); mode = refl };
      line = refl;
    }
