-- ===== src/Uart/Registers.antt =====
-- The register accesses of the guest to the serial port: uart_write and uart_read of
-- src/lib/uart_emul.c, and uart_drain, which takes the terminal's input.
use hyperkit.Base.{
  ℕ, ◌%◌, ◌^◌, Bool, true, false, not, ◌&&◌, xor, List, [], ◌∷◌, ltb, ◌==◌, if◌then◌else◌, bit_and,
  bit_or, Option, none, some,
}
use hyperkit.Base.Bits.Words.{has, clear}
use hyperkit.Uart.State.{
  Uart, sent, logged, output, rxfifo_reset, available, rxfifo_putchar, rxfifo_getchar, intr_reason,
  toggle_intr,
}

-- `MCR_LOOPBACK`
abbrev pub loopback : Uart → Bool
loopback s = has s.mcr 0x10

-- Where a character that the guest writes goes; `LSR_OE` is 2.
unfoldable pub move_data : Uart → ℕ → Uart
move_data s value =
    let p = rxfifo_putchar s value in
    if loopback s
    then if p.stored then p.port else record p.port { lsr = bit_or p.port.lsr 2 }
    else if not s.opened
    then s
    else if s.log
    then output (logged value) (output (sent value) s)
    else output (sent value) s

unfoldable pub write_data : Uart → ℕ → Uart
write_data s value = record (move_data s value) { thre_int_pending = true }

-- A change of the mode empties the FIFO; `FCR_ENABLE` is 1.
unfoldable pub switch_fifo : Uart → ℕ → Uart
switch_fifo s value =
    if xor (has s.fcr 1) (has value 1) then rxfifo_reset s (if has value 1 then 16 else 1) else s

-- `FCR_RCV_RST` is 2, and the bits that are kept are `FCR_ENABLE`, `FCR_DMA` and `FCR_RX_MASK`.
unfoldable pub write_fcr : Uart → ℕ → Uart
write_fcr s value =
    let t = switch_fifo s value in
    if not (has value 1)
    then record t { fcr = 0 }
    else (let u = if has value 2 then rxfifo_reset t 16 else t in
        record u { fcr = bit_and value 0xc9 })

-- A bit that is set where a condition holds.
abbrev pub flag : Bool → ℕ → ℕ
flag b m = if b then m else 0

-- The modem's lines in loopback mode, from `MCR_RTS`, `MCR_DTR`, `MCR_OUT1` and `MCR_OUT2`.
unfoldable pub lines : ℕ → ℕ
lines mcr =
    if has mcr 0x10
    then bit_or
        (bit_or (bit_or (flag (has mcr 2) 0x10) (flag (has mcr 1) 0x20)) (flag (has mcr 4) 0x40))
        (flag (has mcr 8) 0x80)
    else 0

-- The delta bits of the lines that change: `MSR_DCTS`, `MSR_DDSR`, `MSR_DDCD` and `MSR_TERI`.
unfoldable pub deltas : ℕ → ℕ → ℕ
deltas old new =
    let a = bit_or old (flag (xor (has new 0x10) (has old 0x10)) 1) in
    let b = bit_or a (flag (xor (has new 0x20) (has a 0x20)) 2) in
    let c = bit_or b (flag (xor (has new 0x80) (has b 0x80)) 8) in
    bit_or c (flag (has c 0x40 && not (has new 0x40)) 4)

unfoldable pub write_mcr : Uart → ℕ → Uart
write_mcr s value =
    let mcr = bit_and value 0x1f in
    let msr = lines mcr in
    record s { mcr = mcr; msr = bit_or (bit_and (deltas s.msr msr) 0x0f) msr }

-- The switch of uart_write.
unfoldable pub write_reg : Uart → ℕ → ℕ → Uart
write_reg s offset value =
    if offset == 0
    then write_data s value
    else if offset == 1
    then record s { ier = bit_and value 0x0f }
    else if offset == 2
    then write_fcr s value
    else if offset == 3
    then record s { lcr = value }
    else if offset == 4
    then write_mcr s value
    else if offset == 7
    then record s { scr = value }
    else s

-- `LCR_DLAB`
abbrev pub dlab : Uart → Bool
dlab s = has s.lcr 0x80

unfoldable pub write : Uart → ℕ → ℕ → Uart
write s offset value = toggle_intr (
    if dlab s && offset == 0
    then record s { dll = value }
    else if dlab s && offset == 1
    then record s { dlh = value }
    else write_reg s offset value)

-- The value that the guest reads, and the port after that.
pub record Read : Type 0 where
  pub value : ℕ
  pub port : Uart

abbrev pub result : ℕ → Uart → Read
result v s = record { value = v; port = s }

-- -1 as a byte is 0xff.
unfoldable pub byte_of : Option ℕ → ℕ
byte_of none = 0xff
byte_of (some c) = c % 2 ^ 8

unfoldable pub read_data : Uart → Read
read_data s = let g = rxfifo_getchar s in result (byte_of g.char) g.port

-- A read of `IIR_TXRDY` takes that reason away.
unfoldable pub read_iir : Uart → Read
read_iir s =
    let reason = intr_reason s in
    result (bit_or (if has s.fcr 1 then 0xc0 else 0) reason)
      (if reason == 2 then record s { thre_int_pending = false } else s)

-- `LSR_TEMT` and `LSR_THRE` are always set, `LSR_RXRDY` is up to the FIFO, and `LSR_OE` is cleared
-- after the read.
unfoldable pub read_lsr : Uart → Read
read_lsr s =
    let up = bit_or s.lsr 0x60 in
    let lsr = if ltb 0 s.rxfifo.num then bit_or up 1 else clear 8 up 1 in
    result lsr (record s { lsr = clear 8 lsr 2 })

-- The switch of uart_read.
unfoldable pub read_reg : Uart → ℕ → Read
read_reg s offset =
    if offset == 0
    then read_data s
    else if offset == 1
    then result s.ier s
    else if offset == 2
    then read_iir s
    else if offset == 3
    then result s.lcr s
    else if offset == 4
    then result s.mcr s
    else if offset == 5
    then read_lsr s
    else if offset == 6
    then result s.msr (record s { msr = clear 8 s.msr 0x0f })
    else if offset == 7
    then result s.scr s
    else result 0xff s

unfoldable pub read : Uart → ℕ → Read
read s offset =
    let r =
      if dlab s && offset == 0
      then result s.dll s
      else if dlab s && offset == 1
      then result s.dlh s
      else read_reg s offset in
    result r.value (toggle_intr r.port)

-- The loop of uart_drain over the characters that reads of the terminal will give, up to the first
-- that gives none.
unfoldable pub drain_loop : List ℕ → Uart → Uart
drain_loop [] s = s
drain_loop (ch ∷ chs) s =
    let rest = drain_loop chs (rxfifo_putchar s ch).port in if available s.rxfifo then rest else s

-- In loopback mode one character is read and dropped.
unfoldable pub drain : List ℕ → Uart → Uart
drain chs s = if loopback s then s else toggle_intr (drain_loop chs s)
