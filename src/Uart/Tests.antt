-- ===== src/Uart/Tests.antt =====
-- Runs of the serial port, and the theorems about src/lib/uart_emul.c at inputs.
use hyperkit.Base.{
  ◌≤◌, ◌≡◌, refl, true, false, List, [], ◌∷◌, ◌++◌, arith, ltb, ◌||◌, if◌then◌else◌, length,
}
use hyperkit.Base.Bits.Laws.{bit}
use hyperkit.Base.Bits.Words.{has}
use hyperkit.Uart.State.{empty_fifo, Uart, rxfifo_putchar, rxfifo_getchar, init}
use hyperkit.Uart.Registers.{lines, write_mcr, drain}
use hyperkit.Uart.Fifo.{
  IsFifo, empty_fifo-IsFifo, contents, uncons, contents-rxfifo_putchar, contents-rxfifo_getchar,
}
use hyperkit.Uart.Invariant.{IsPort}
use hyperkit.Uart.Session.{Call, writing, reading, input, run, run-init-IsPort}
use hyperkit.Uart.Receive.{read_all, read_all-drain}
use hyperkit.Uart.Modem.{changed, bit-write_mcr}
use hyperkit.Uart.Legacy.{uart_lres, grants, grants_once}
use hyperkit.Base.Signed.{pos, negsuc}

-- A port in FIFO mode with a terminal, all interrupts enabled, and nothing received.
abbrev port : Uart
port = record {
  ier = 0x0f;
  lcr = 0x03;
  mcr = 0;
  lsr = 0x62;
  msr = 0x40;
  fcr = 1;
  scr = 0;
  dll = 12;
  dlh = 0;
  rxfifo = empty_fifo 16;
  thre_int_pending = true;
  opened = true;
  log = false;
  outputs = [];
}

port-IsFifo : IsFifo port.rxfifo
port-IsFifo = empty_fifo-IsFifo 16 (omega arith) (omega arith)

contents-rxfifo_putchar_example :
    ((rxfifo_putchar port 65).stored ≡ ltb (length (contents port.rxfifo)) 16)
    × (contents (rxfifo_putchar port 65).port.rxfifo ≡ (
        if ltb (length (contents port.rxfifo)) 16
        then contents port.rxfifo ++ (65 ∷ [])
        else contents port.rxfifo))
contents-rxfifo_putchar_example = contents-rxfifo_putchar port 65 port-IsFifo

abbrev holding : Uart
holding = record port {
  rxfifo = record (empty_fifo 16) { buf = 65 ∷ 66 ∷ []; num = 2; windex = 2 };
}

contents-rxfifo_getchar_example :
    ((rxfifo_getchar holding).char, contents (rxfifo_getchar holding).port.rxfifo)
    ≡ uncons (contents holding.rxfifo)
contents-rxfifo_getchar_example = contents-rxfifo_getchar holding

read_all-drain_example : read_all 2 (drain (65 ∷ 66 ∷ []) port) ≡ 65 ∷ 66 ∷ []
unfolding has
read_all-drain_example = read_all-drain (65 ∷ 66 ∷ []) port port-IsFifo refl refl refl (omega arith)

-- The guest turns the FIFO on, enables the interrupts, and takes one of two characters.
abbrev session : List Call
session = writing 2 1 ∷ writing 1 3 ∷ input (65 ∷ 66 ∷ []) ∷ reading 2 ∷ reading 0 ∷ []

run-init-IsPort_example : IsPort (run session (record init { opened = true; log = false }))
run-init-IsPort_example = run-init-IsPort session true false

abbrev sent_all : Uart
sent_all = record port { lsr = 0x60 }

bit-write_mcr_example :
    (bit (write_mcr port 0x12).msr 4 ≡ bit (lines 0x12) 4)
    × (bit (write_mcr port 0x12).msr 0 ≡ (bit 0x40 0 || changed 0x40 (lines 0x12) 0))
bit-write_mcr_example = bit-write_mcr port 0x12 0 (omega arith)

grants_once_example :
    grants (pos 0 ∷ pos 2 ∷ negsuc 0 ∷ pos 0 ∷ []) (uart_lres false false) 0x3f8 ≤ 1
grants_once_example = grants_once (pos 0 ∷ pos 2 ∷ negsuc 0 ∷ pos 0 ∷ []) 0x3f8
