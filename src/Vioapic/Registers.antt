-- ===== src/Vioapic/Registers.antt =====
-- The registers of src/lib/vmm/io/vioapic.c behind its memory window.
use hyperkit.Base.{
  ℕ, ◌+◌, ◌-◌, ◌*◌, ◌/◌, ◌%◌, ◌^◌, Bool, not, ◌&&◌, ◌||◌, ◌∷◌, ltb, leb, ◌==◌, if◌then◌else◌,
  bit_and, bit_or, bit_xor,
}
use hyperkit.Base.Signed.{is_positive}
use hyperkit.Base.Bits.Words.{has}
use hyperkit.Vioapic.State.{Entry, Vioapic, rendezvous, entry, put_entry, redir_entries, send_intr}

-- `regnum >= IOAPIC_REDTBL && regnum < IOAPIC_REDTBL + REDIR_ENTRIES * 2`
abbrev pub is_redir : ℕ → Bool
is_redir regnum = leb 0x10 regnum && ltb regnum (0x10 + redir_entries * 2)

-- The pin of a redirection register, and `rshift` and `lshift`.
abbrev pub pin_of : ℕ → ℕ
pin_of regnum = (regnum - 0x10) / 2

abbrev pub shift_of : ℕ → ℕ
shift_of regnum = if (regnum - 0x10) % 2 == 1 then 32 else 0

unfoldable pub read : Vioapic → ℕ → ℕ
read v addr =
    let regnum = addr % 256 in
    if regnum == 0x00
    then v.id
    else if regnum == 0x01
    then 0x170011
    else if regnum == 0x02
    then v.id
    else if is_redir regnum
    then (entry v (pin_of regnum)).reg / 2 ^ shift_of regnum % 2 ^ 32
    else 0

-- `~x` on 64 bits, and `RTBL_RO_BITS`
abbrev pub not64 : ℕ → ℕ
not64 x = bit_xor x (2 ^ 64 - 1)

abbrev pub rtbl_ro_bits : ℕ
rtbl_ro_bits = 0x5000

-- The register after the two assignments to it in vioapic_write.
unfoldable pub merged : ℕ → ℕ → ℕ → ℕ
merged last lshift value =
    let data64 = value * 2 ^ lshift in
    let mask64 = 0xffffffff * 2 ^ lshift in
    bit_or (bit_and last (bit_or (not64 mask64) rtbl_ro_bits)) (bit_and data64 (not64 rtbl_ro_bits))

-- The test before the interrupt at the end of vioapic_write.
unfoldable pub due : Entry → Bool
due e = bit_and e.reg 0x10000 == 0 && bit_and e.reg 0x4000 == 0 && is_positive e.acnt

-- vioapic_write to a redirection register. The lock is released around the rendezvous: `between`
-- is what other threads then do to the I/O APIC.
unfoldable pub write_redir : (Vioapic → Vioapic) → Vioapic → ℕ → ℕ → ℕ → Vioapic
write_redir between v pin lshift value =
    let e = entry v pin in
    let new = merged e.reg lshift value in
    let v1 = put_entry v pin (record e { reg = new }) in
    let v2 =
      if has (bit_xor e.reg new) (not64 0x12000)
      then between (record v1 { signals = rendezvous ∷ v1.signals })
      else v1 in
    if due (entry v2 pin) then send_intr v2 pin else v2

unfoldable pub write : (Vioapic → Vioapic) → Vioapic → ℕ → ℕ → Vioapic
write between v addr value =
    let regnum = addr % 256 in
    let v1 = if regnum == 0x00 then record v { id = bit_and value 0xff000000 } else v in
    if is_redir regnum then write_redir between v1 (pin_of regnum) (shift_of regnum) value else v1

-- `VIOAPIC_BASE`
abbrev pub vioapic_base : ℕ
vioapic_base = 0xfec00000

-- `*data` after the call, and the state; the result is always 0.
unfoldable pub mmio_rw : (Vioapic → Vioapic) → Vioapic → ℕ → ℕ → ℕ → Bool → ℕ × Vioapic
mmio_rw between v gpa value size doread =
    let offset = (gpa + 2 ^ 64 - vioapic_base) % 2 ^ 64 in
    if not (size == 4) || (not (offset == 0x00) && not (offset == 0x10))
    then (if doread then 0 else value, v)
    else if offset == 0x00
    then (if doread then (v.ioregsel, v) else (value, record v { ioregsel = value % 2 ^ 32 }))
    else if doread
    then (read v v.ioregsel, v)
    else (value, write between v v.ioregsel (value % 2 ^ 32))
