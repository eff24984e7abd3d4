-- ===== src/Uart/Receive.antt =====
-- The way of the terminal's input through the serial port of src/lib/uart_emul.c to the guest.
use hyperkit.Base.{
  ℕ, zero, suc, ◌-◌, ◌%◌, ◌^◌, ◌≤◌, ◌≡◌, refl, sym, ap, ap₂, ◌∙◌, Bool, true, false, List, [], ◌∷◌,
  ◌++◌, arith, ltb→lt, if◌then◌else◌, length, Option, some,
}
use hyperkit.Base.Bits.Words.{has}
use hyperkit.Uart.State.{Fifo, available, put, Uart, rxfifo_putchar, rxfifo_getchar, toggle_intr}
use hyperkit.Uart.Registers.{
  loopback, dlab, Read, result, byte_of, read_data, read_reg, read, drain_loop, drain,
}
use hyperkit.Uart.Fifo.{
  IsFifo, chars, contents, uncons, contents-put, putchar-rxfifo, contents-rxfifo_getchar,
  putchar-IsFifo,
}
use mathlib.Core.List.{map}

-- The first n of a list, or all of it.
unfoldable pub take : ℕ → List ℕ → List ℕ
take zero xs = []
take (suc n) [] = []
take (suc n) (x ∷ xs) = x ∷ take n xs

take_zero : (xs : List ℕ) → take 0 xs ≡ []
unfolding take
take_zero xs = refl

pub take_all : (n : ℕ) (xs : List ℕ) → length xs ≤ n → take n xs ≡ xs
unfolding take
take_all zero [] h = refl
take_all zero (x ∷ xs) h = absurd (omega arith)
take_all (suc n) [] h = refl
take_all (suc n) (x ∷ xs) h = ap (◌∷◌ x) (take_all n xs (omega arith))

append_nil : (xs : List ℕ) → xs ++ [] ≡ xs
append_nil [] = refl
append_nil (x ∷ xs) = ap (◌∷◌ x) (append_nil xs)

append_assoc : (xs ys zs : List ℕ) → (xs ++ ys) ++ zs ≡ xs ++ (ys ++ zs)
append_assoc [] ys zs = refl
append_assoc (x ∷ xs) ys zs = ap (◌∷◌ x) (append_assoc xs ys zs)

-- The places that are free.
abbrev pub free : Uart → ℕ
free s = s.rxfifo.size - s.rxfifo.num

-- The loop of uart_drain stores the terminal's characters behind those that wait, in order, as many
-- as there are free places, and leaves the others to the terminal, if the FIFO is in order.
pub contents-drain_loop :
    (chs : List ℕ) (s : Uart)
    → IsFifo s.rxfifo
    → contents (drain_loop chs s).rxfifo ≡ contents s.rxfifo ++ take (free s) chs
unfolding drain_loop take available put
contents-drain_loop [] s v = sym (ap (◌++◌ (contents s.rxfifo)) (nothing (free s)) ∙ append_nil _)
  where
    nothing : (n : ℕ) → take n [] ≡ []
    nothing zero = refl
    nothing (suc n) = refl
contents-drain_loop (ch ∷ chs) s v =
    go (available f) refl (contents-drain_loop chs t (putchar-IsFifo s ch v))
  where
    f : Fifo
    f = s.rxfifo

    t : Uart
    t = (rxfifo_putchar s ch).port

    stored : available f ≡ true → t.rxfifo ≡ put f ch
    stored e = putchar-rxfifo s ch ∙ rw e refl

    room : available f ≡ true → free s ≡ suc (free t)
    room e = omega (
      arith,
      ltb→lt f.num f.size e,
      ap (λ (x : Fifo). x.size) (stored e),
      ap (λ (x : Fifo). x.num) (stored e),
    )

    go :
        (b : Bool)
        → available f ≡ b
        → contents (drain_loop chs t).rxfifo ≡ contents t.rxfifo ++ take (free t) chs
        → contents (if b then drain_loop chs t else s).rxfifo
          ≡ contents f ++ take (free s) (ch ∷ chs)
    go true e ih =
        ih
        ∙ ap (λ (x : Fifo). contents x ++ take (free t) chs) (stored e)
        ∙ ap (λ xs. xs ++ take (free t) chs) (contents-put f ch v (ltb→lt f.num f.size e))
        ∙ append_assoc (contents f) (ch ∷ []) (take (free t) chs)
        ∙ ap (λ n. contents f ++ take n (ch ∷ chs)) (sym (room e))
    go false e ih =
        sym (ap (λ n. contents f ++ take n (ch ∷ chs)) {y = 0} (ground arith) ∙ append_nil _)

-- The characters that n reads of the data register give.
pub read_all : ℕ → Uart → List ℕ
read_all zero s = []
read_all (suc n) s = (read s 0).value ∷ read_all n (read s 0).port

read_char :
    (s : Uart)
    → dlab s ≡ false
    → read s 0 ≡ result (byte_of (rxfifo_getchar s).char) (toggle_intr (rxfifo_getchar s).port)
unfolding read read_reg read_data
read_char s e = rw e refl

getchar-lcr : (s : Uart) → (rxfifo_getchar s).port.lcr ≡ s.lcr
unfolding rxfifo_getchar
getchar-lcr s = ground arith

drain_loop-lcr : (chs : List ℕ) (s : Uart) → (drain_loop chs s).lcr ≡ s.lcr
unfolding drain_loop rxfifo_putchar
drain_loop-lcr [] s = refl
drain_loop-lcr (ch ∷ chs) s = ground (arith, drain_loop-lcr chs (rxfifo_putchar s ch).port)

read_all-contents :
    (cs : List ℕ) (s : Uart)
    → dlab s ≡ false
    → contents s.rxfifo ≡ cs
    → read_all (length cs) s ≡ map (λ c. c % 2 ^ 8) cs
unfolding read_all uncons toggle_intr byte_of
read_all-contents [] s e h = refl
read_all-contents (c ∷ cs) s e h =
    ap₂ ◌∷◌ (ap (λ (r : Read). r.value) (read_char s e) ∙ ap byte_of (ap (λ p. p.0) taken)) (
      read_all-contents cs (read s 0).port
        (ap (λ (r : Read). dlab r.port) (read_char s e) ∙ ap (λ x. has x 0x80) (getchar-lcr s) ∙ e)
        (ap (λ (r : Read). contents r.port.rxfifo) (read_char s e) ∙ ap (λ p. p.1) taken))
  where
    rest : Option ℕ × List ℕ
    rest = (some c, cs)

    taken : ((rxfifo_getchar s).char, contents (rxfifo_getchar s).port.rxfifo) ≡ rest
    taken = contents-rxfifo_getchar s ∙ ap uncons h

-- What the terminal gives while nothing waits and it fits the FIFO, the guest reads back from the
-- data register, each character as a byte and in order, if the FIFO is in order and the divisor
-- latch and loopback are off.
pub read_all-drain :
    (chs : List ℕ) (s : Uart)
    → IsFifo s.rxfifo
    → dlab s ≡ false
    → loopback s ≡ false
    → s.rxfifo.num ≡ 0
    → length chs ≤ s.rxfifo.size
    → read_all (length chs) (drain chs s) ≡ map (λ c. c % 2 ^ 8) chs
unfolding drain toggle_intr chars
read_all-drain chs s v e l z h = rw l (
    read_all-contents chs (toggle_intr (drain_loop chs s))
      (ap (λ x. has x 0x80) (drain_loop-lcr chs s) ∙ e)
      (contents-drain_loop chs s v
        ∙ ap₂ ◌++◌ (ap (chars s.rxfifo.buf s.rxfifo.size s.rxfifo.rindex) {y = 0} z)
            (take_all (free s) chs (omega arith))))
