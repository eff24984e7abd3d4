-- ===== src/Vatpic/Notify.antt =====
-- vatpic_set_pinstate and vatpic_notify_intr of src/lib/vmm/io/vatpic.c, which call each other.
use hyperkit.Base.{
  ℕ, zero, suc, ◌%◌, ◌^◌, Bool, true, false, not, ◌&&◌, ◌||◌, none, some, ◌∷◌, if◌then◌else◌,
  get_or, set, bit_or,
}
use hyperkit.Base.Signed.{ℤ, pos, incr, decr, is, is_positive}
use hyperkit.Base.Bits.Words.{has, clear}
use hyperkit.Vatpic.State.{
  Atpic, Vatpic, slave, get, put, elc, chip_of, local_lint0, ioapic_pulse, get_highest_irrpin,
}

-- The request register after the count of pin i has gone from `old` to `new`.
unfoldable pub request_after : ℕ → ℕ → Bool → ℤ → ℤ → ℕ
request_after request i level old new =
    if is old 0 && is new 1 || is_positive new && level
    then bit_or request (2 ^ i)
    else if is old 1 && is new 0
    then (if level then clear 8 request (2 ^ i) else request)
    else request

unfoldable pub count_after : Bool → ℤ → ℤ
unfolding incr decr
count_after newstate old = if newstate then incr old else decr old

-- vatpic_set_pinstate on the chip that has pin i, up to the closing vatpic_notify_intr.
unfoldable pub move_pin : Atpic → ℕ → Bool → Bool → Atpic
unfolding request_after count_after
move_pin a i level newstate =
    let old = get_or a.acnt i (pos 0) in
    let new = count_after newstate old in
    record a { acnt = set a.acnt i new; request = request_after a.request i level old new }

unfoldable pub set_pin : Vatpic → ℕ → Bool → Vatpic
unfolding move_pin
set_pin v pin newstate =
    let c = chip_of pin in
    put c (move_pin (get c v) (pin % 8) (has (elc c v) (2 ^ (pin % 8))) newstate) v

-- `!atpic->intr_raised && vatpic_get_highest_irrpin(atpic) != -1`
unfoldable pub eligible : Atpic → Bool
eligible a = not a.intr_raised && (elim (get_highest_irrpin a) [ none ↦ false | some _ ↦ true ])

-- The second half of vatpic_notify_intr.
unfoldable pub notify_master : Vatpic → Vatpic
unfolding eligible
notify_master v =
    if eligible v.atpic0
    then record v {
      atpic0 = record (v.atpic0) { intr_raised = true };
      signals = ioapic_pulse 0 ∷ local_lint0 ∷ v.signals;
    }
    else v

-- vatpic_notify_intr, with the function that stands for its own calls through
-- vatpic_set_pinstate.
unfoldable pub notify_body : (Vatpic → Vatpic) → Vatpic → Vatpic
unfolding eligible notify_master set_pin
notify_body again v = notify_master (
    if eligible v.atpic1
    then (let raised = put slave (record (v.atpic1) { intr_raised = true }) v in
        again (set_pin (again (set_pin raised 2 true)) 2 false))
    else v)

unfoldable pub notify_depth : ℕ → Vatpic → Vatpic
unfolding notify_body
notify_depth zero v = v
notify_depth (suc d) v = notify_body (notify_depth d) v

-- Two levels of calls: the inner one finds the slave raised already.
unfoldable pub notify_intr : Vatpic → Vatpic
unfolding notify_depth
notify_intr v = notify_depth 2 v

unfoldable pub set_pinstate : Vatpic → ℕ → Bool → Vatpic
unfolding set_pin notify_intr
set_pinstate v pin newstate = notify_intr (set_pin v pin newstate)
