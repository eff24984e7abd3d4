-- ===== src/Uart/Invariant.antt =====
-- What holds of the serial port of src/lib/uart_emul.c after any sequence of accesses and input.
use hyperkit.Base.{
  ℕ, ◌≤◌, ◌<◌, ◌≡◌, refl, subst, sym, ap, ◌∙◌, Bool, true, false, not, List, [], ◌∷◌, arith, ◌==◌,
  if◌then◌else◌, if_cases, bit_and,
}
use mathlib.Core.Bool.{xor}
use hyperkit.Base.Bits.Laws.{bit-bit_and}
use hyperkit.Base.Bits.Words.{has, has-pow}
use hyperkit.Uart.State.{
  Fifo, empty_fifo, put, take_out, Output, intr_assert, intr_deassert, sent, logged, flush, watch,
  unwatch, Uart, rxfifo_reset, rxfifo_putchar, rxfifo_getchar, intr_reason,
}
use hyperkit.Uart.Registers.{loopback, move_data, write_data, switch_fifo, write_fcr}
use hyperkit.Uart.Fifo.{IsFifo, empty_fifo-IsFifo, putchar-IsFifo, getchar-IsFifo}

-- The level of the interrupt line after the outputs.
unfoldable pub is_raised : List Output → Bool
is_raised [] = false
is_raised (intr_assert ∷ os) = true
is_raised (intr_deassert ∷ os) = false
is_raised (sent c ∷ os) = is_raised os
is_raised (logged c ∷ os) = is_raised os
is_raised (flush ∷ os) = is_raised os
is_raised (watch ∷ os) = is_raised os
is_raised (unwatch ∷ os) = is_raised os

-- The FIFO is in order, and has 16 places exactly in FIFO mode.
pub record IsBody (s : Uart) : Type 0 where
  pub fifo : IsFifo s.rxfifo
  pub mode : s.rxfifo.size ≡ (if has s.fcr 1 then 16 else 1)

-- The interrupt line is up exactly while there is a reason.
pub record IsPort (s : Uart) : Type 0 where
  pub body : IsBody s
  pub line : is_raised s.outputs ≡ not (intr_reason s == 1)

pub putchar_same :
    (s : Uart) (ch : ℕ)
    → ((rxfifo_putchar s ch).port.rxfifo.size ≡ s.rxfifo.size)
      × ((rxfifo_putchar s ch).port.fcr ≡ s.fcr)
unfolding rxfifo_putchar put
putchar_same s ch = (ground arith, ground arith)

getchar_same :
    (s : Uart)
    → ((rxfifo_getchar s).port.rxfifo.size ≡ s.rxfifo.size) × ((rxfifo_getchar s).port.fcr ≡ s.fcr)
unfolding rxfifo_getchar take_out
getchar_same s = (ground arith, ground arith)

pub putchar-IsBody : (s : Uart) (ch : ℕ) → IsBody s → IsBody (rxfifo_putchar s ch).port
putchar-IsBody s ch v = record {
  fifo = putchar-IsFifo s ch v.fifo;
  mode =
      (putchar_same s ch).0
      ∙ v.mode
      ∙ ap (λ x. if has x 1 then 16 else 1) (sym ((putchar_same s ch).1));
}

pub getchar-IsBody : (s : Uart) → IsBody s → IsBody (rxfifo_getchar s).port
getchar-IsBody s v = record {
  fifo = getchar-IsFifo s v.fifo;
  mode =
      (getchar_same s).0 ∙ v.mode ∙ ap (λ x. if has x 1 then 16 else 1) (sym ((getchar_same s).1));
}

-- The same FIFO and the same mode.
pub same-IsBody : {s t : Uart} → IsBody s → t.rxfifo ≡ s.rxfifo → t.fcr ≡ s.fcr → IsBody t
same-IsBody {s} {t} v e f = record {
  fifo = subst IsFifo (sym e) v.fifo;
  mode = ap (λ (x : Fifo). x.size) e ∙ v.mode ∙ ap (λ x. if has x 1 then 16 else 1) (sym f);
}

move_data-IsBody : (s : Uart) (value : ℕ) → IsBody s → IsBody (move_data s value)
unfolding move_data
move_data-IsBody s value v =
    if_cases IsBody (loopback s)
      (λ _.
        if_cases IsBody (rxfifo_putchar s value).stored (λ _. stored)
          (λ _. same-IsBody stored refl refl))
      (λ _.
        if_cases IsBody (not s.opened) (λ _. v)
          (λ _.
            if_cases IsBody s.log (λ _. same-IsBody v refl refl) (λ _. same-IsBody v refl refl)))
  where
    stored : IsBody (rxfifo_putchar s value).port
    stored = putchar-IsBody s value v

pub write_data-IsBody : (s : Uart) (value : ℕ) → IsBody s → IsBody (write_data s value)
unfolding write_data
write_data-IsBody s value v = same-IsBody (move_data-IsBody s value v) refl refl

reset-rxfifo : (s : Uart) (n : ℕ) → (rxfifo_reset s n).rxfifo ≡ empty_fifo n
unfolding rxfifo_reset
reset-rxfifo s n = ground arith

-- The FIFO is in order and has n places.
unfoldable pub IsSized : ℕ → Uart → Type 0
IsSized n s = IsFifo s.rxfifo × (s.rxfifo.size ≡ n)

pub reset-IsSized : (s : Uart) (n : ℕ) → 0 < n → n ≤ 16 → IsSized n (rxfifo_reset s n)
unfolding IsSized
reset-IsSized s n h k =
    subst (λ (f : Fifo). IsFifo f × (f.size ≡ n)) (sym (reset-rxfifo s n))
      (empty_fifo-IsFifo n h k, refl)

switch-IsSized :
    (s : Uart) (value : ℕ)
    → IsBody s
    → IsSized (if has value 1 then 16 else 1) (switch_fifo s value)
unfolding switch_fifo IsSized xor
switch-IsSized s value v = go (has s.fcr 1) (has value 1) refl refl
  where
    go :
        (a b : Bool)
        → has s.fcr 1 ≡ a
        → has value 1 ≡ b
        → IsSized
            (if b then 16 else 1)
            (if xor a b then rxfifo_reset s (if b then 16 else 1) else s)
    go true true p q = (v.fifo, v.mode ∙ rw p refl)
    go true false p q = reset-IsSized s 1 (omega arith) (omega arith)
    go false true p q = reset-IsSized s 16 (omega arith) (omega arith)
    go false false p q = (v.fifo, v.mode ∙ rw p refl)

kept_enable : (value : ℕ) → has (bit_and value 0xc9) 1 ≡ has value 1
kept_enable value =
    has-pow (bit_and value 0xc9) 0 ∙ bit-bit_and value 0xc9 0 ∙ ground arith ∙ sym (has-pow value 0)

pub write_fcr-IsBody : (s : Uart) (value : ℕ) → IsBody s → IsBody (write_fcr s value)
unfolding write_fcr IsSized has
write_fcr-IsBody s value v = go (has value 1) refl (switch-IsSized s value v)
  where
    t : Uart
    t = switch_fifo s value

    enabled :
        (u : Uart)
        → has value 1 ≡ true
        → IsSized 16 u
        → IsBody (record u { fcr = bit_and value 0xc9 })
    enabled u q w = record { fifo = w.0; mode = w.1 ∙ rw (kept_enable value, q) refl }

    go :
        (b : Bool)
        → has value 1 ≡ b
        → IsSized (if b then 16 else 1) t
        → IsBody (
            if not b
            then record t { fcr = 0 }
            else (let u = if has value 2 then rxfifo_reset t 16 else t in
                record u { fcr = bit_and value 0xc9 }))
    go false q w = record { fifo = w.0; mode = w.1 }
    go true q w =
        if_cases (λ u. IsBody (record u { fcr = bit_and value 0xc9 })) (has value 2)
          (λ _. enabled (rxfifo_reset t 16) q (reset-IsSized t 16 (omega arith) (omega arith)))
          (λ _. enabled t q w)
