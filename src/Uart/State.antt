-- ===== src/Uart/State.antt =====
-- The state of the serial port of src/lib/uart_emul.c, its receive FIFO and its interrupt.
use hyperkit.Base.{
  ℕ, ◌+◌, ◌-◌, ◌/◌, ◌%◌, ◌^◌, Bool, true, false, not, ◌&&◌, List, [], ◌∷◌, ltb, ◌==◌, if◌then◌else◌,
  get_or, set, replicate, Option, none, some,
}
use hyperkit.Base.Bits.Words.{has}

-- `struct fifo`
pub record Fifo : Type 0 where
  pub buf : List ℕ
  pub rindex : ℕ
  pub windex : ℕ
  pub num : ℕ
  pub size : ℕ

-- What the port does outside: the level of its interrupt, a character to the terminal or to the log's
-- ring, the flush of the terminal's input, and the watch on that input.
pub data Output : Type 0 where
  intr_assert : Output
  intr_deassert : Output
  sent : ℕ → Output
  logged : ℕ → Output
  flush : Output
  watch : Output
  unwatch : Output

-- `struct uart_softc`: `opened` is that of its terminal, `log` is whether there is a ring for a log,
-- and the outputs are the newest first.
pub record Uart : Type 0 where
  pub ier : ℕ
  pub lcr : ℕ
  pub mcr : ℕ
  pub lsr : ℕ
  pub msr : ℕ
  pub fcr : ℕ
  pub scr : ℕ
  pub dll : ℕ
  pub dlh : ℕ
  pub rxfifo : Fifo
  pub thre_int_pending : Bool
  pub opened : Bool
  pub log : Bool
  pub outputs : List Output

abbrev pub output : Output → Uart → Uart
output o s = record s { outputs = o ∷ s.outputs }

-- `FIFOSZ`
abbrev pub fifosz : ℕ
fifosz = 16

abbrev pub empty_fifo : ℕ → Fifo
empty_fifo n = record { buf = replicate fifosz 0; rindex = 0; windex = 0; num = 0; size = n }

unfoldable pub rxfifo_reset : Uart → ℕ → Uart
rxfifo_reset s size =
    let cleared = record s { rxfifo = empty_fifo size } in
    if s.opened then output watch (output flush cleared) else cleared

unfoldable pub available : Fifo → Bool
available f = ltb f.num f.size

unfoldable pub put : Fifo → ℕ → Fifo
put f ch = record f {
  buf = set f.buf f.windex ch;
  windex = (f.windex + 1) % f.size;
  num = f.num + 1;
}

unfoldable pub take_out : Fifo → Fifo
take_out f = record f { rindex = (f.rindex + 1) % f.size; num = f.num - 1 }

-- The port after the call, and whether it returns 0.
pub record Put : Type 0 where
  pub stored : Bool
  pub port : Uart

unfoldable pub rxfifo_putchar : Uart → ℕ → Put
rxfifo_putchar s ch =
    let after = record s { rxfifo = put s.rxfifo ch } in
    if available s.rxfifo
    then record {
      stored = true;
      port = if not (available after.rxfifo) && s.opened then output unwatch after else after;
    }
    else record { stored = false; port = s }

-- The character, or `none` for -1, and the port after the call.
pub record Got : Type 0 where
  pub char : Option ℕ
  pub port : Uart

unfoldable pub rxfifo_getchar : Uart → Got
rxfifo_getchar s =
    let f = s.rxfifo in
    let after = record s { rxfifo = take_out f } in
    if ltb 0 f.num
    then record {
      char = some (get_or f.buf f.rindex 0);
      port = if not (available f) && s.opened then output watch after else after;
    }
    else record { char = none; port = s }

-- The `IIR_` values: `IIR_RLS`, `IIR_RXTOUT`, `IIR_TXRDY`, `IIR_MLSC` and `IIR_NOPEND`.
unfoldable pub intr_reason : Uart → ℕ
intr_reason s =
    if has s.lsr 2 && has s.ier 4
    then 6
    else if ltb 0 s.rxfifo.num && has s.ier 1
    then 0xc
    else if s.thre_int_pending && has s.ier 2
    then 2
    else if has s.msr 0x0f && has s.ier 8
    then 0
    else 1

unfoldable pub toggle_intr : Uart → Uart
toggle_intr s = output (if intr_reason s == 1 then intr_deassert else intr_assert) s

-- calloc clears the registers; then uart_reset sets the divisor of 9600 baud. There is no terminal
-- yet.
unfoldable pub reset : Uart → Uart
reset s =
    let divisor = 1843200 / 9600 / 16 % 2 ^ 16 in
    rxfifo_reset (record s { dll = divisor % 2 ^ 8; dlh = divisor / 2 ^ 16 % 2 ^ 8 }) 1

abbrev zeroed : Uart
zeroed = record {
  ier = 0;
  lcr = 0;
  mcr = 0;
  lsr = 0;
  msr = 0;
  fcr = 0;
  scr = 0;
  dll = 0;
  dlh = 0;
  rxfifo = empty_fifo 0;
  thre_int_pending = false;
  opened = false;
  log = false;
  outputs = [];
}

unfoldable pub init : Uart
init = reset zeroed
