-- ===== src/Vrtc/Setting.antt =====
-- How the guest sets the date of the real-time clock in src/lib/vmm/io/vrtc.c.
use hyperkit.Base.{
  ℕ, ◌+◌, ◌-◌, ◌/◌, ◌≡◌, refl, sym, ap₂, ◌∙◌, true, false, not, ◌==◌, if◌then◌else◌, if_cases,
  arith, bit_or, bit_xor, none, some,
}
use mathlib.Core.Bool.{xor}
use hyperkit.Base.Bits.Laws.{bit-bit_xor}
use hyperkit.Base.Bits.Words.{has, has-pow}
use hyperkit.Vrtc.Fields.{Rtcdev, halted, store_date, secs_to_rtc, rtc_to_secs}
use hyperkit.Vrtc.Registers.{
  Vrtc, Clocks, with_dev, aintr_enabled, uintr_enabled, divider_enabled, update_enabled, sbt_1s,
  curtime, set_reg_c, Alarm, alarm_of, alarm_matches, check_alarm, round, update_loop, updates,
  time_update,
}
use hyperkit.Vrtc.Ports.{
  freq, callout_reset, retime, finished, after_update, change_halt, set_reg_b,
}

-- The same time, and the same registers A and B.
record IsKept (v w : Vrtc) : Type 0 where
  base_uptime : w.base_uptime ≡ v.base_uptime
  base_rtctime : w.base_rtctime ≡ v.base_rtctime
  reg_a : w.rtcdev.reg_a ≡ v.rtcdev.reg_a
  reg_b : w.rtcdev.reg_b ≡ v.rtcdev.reg_b

IsKept-twice : {u v w : Vrtc} → IsKept u v → IsKept v w → IsKept u w
IsKept-twice p q = record {
  base_uptime = q.base_uptime ∙ p.base_uptime;
  base_rtctime = q.base_rtctime ∙ p.base_rtctime;
  reg_a = q.reg_a ∙ p.reg_a;
  reg_b = q.reg_b ∙ p.reg_b;
}

set_reg_c-IsKept : (v : Vrtc) (x : ℕ) → IsKept v (set_reg_c v x)
unfolding set_reg_c
set_reg_c-IsKept v x = record {
  base_uptime = ground arith;
  base_rtctime = ground arith;
  reg_a = ground arith;
  reg_b = ground arith;
}

retime-IsKept : (old : ℕ) (v : Vrtc) → IsKept v (retime old v)
unfolding callout_reset
retime-IsKept old v =
    if_cases (IsKept v) (freq v == old) (λ _. same)
      (λ _. record { base_uptime = refl; base_rtctime = refl; reg_a = refl; reg_b = refl })
  where
    same : IsKept v v
    same = record { base_uptime = refl; base_rtctime = refl; reg_a = refl; reg_b = refl }

-- What the guest has done when it clears the halt bit: the clock has the time of the fields, from the
-- reading of the uptime on.
record IsStarted (v : Vrtc) (secs later newval : ℕ) (w : Vrtc) : Type 0 where
  pub base_uptime : w.base_uptime ≡ later
  pub base_rtctime : w.base_rtctime ≡ some secs
  pub reg_a : w.rtcdev.reg_a ≡ v.rtcdev.reg_a
  pub reg_b : w.rtcdev.reg_b ≡ newval

curtime-IsStarted :
    (v w : Vrtc) (secs later newval now : ℕ)
    → IsStarted v secs later newval w
    → divider_enabled v.rtcdev.reg_a ≡ true
    → halted newval ≡ false
    → (curtime w now).time ≡ some (secs + (now - later) / sbt_1s)
unfolding curtime update_enabled
curtime-IsStarted v w secs later newval now p d g =
    rw (p.reg_a, d, p.reg_b, g, p.base_rtctime, p.base_uptime) refl

module _ (c : Clocks) (v : Vrtc) (newval secs : ℕ) where
  abbrev unhalted : Vrtc
  unhalted = with_dev v (λ (rtc : Rtcdev). record rtc { reg_b = newval })

  set_kept :
      {w u : Vrtc}
      → IsStarted v secs c.later newval w
      → IsKept w u
      → IsStarted v secs c.later newval u
  set_kept p q = record {
    base_uptime = q.base_uptime ∙ p.base_uptime;
    base_rtctime = q.base_rtctime ∙ p.base_rtctime;
    reg_a = q.reg_a ∙ p.reg_a;
    reg_b = q.reg_b ∙ p.reg_b;
  }

  abbrev based : Vrtc
  based = record unhalted { base_uptime = c.later; base_rtctime = some secs }

  based-IsStarted : IsStarted v secs c.later newval based
  based-IsStarted = record { base_uptime = refl; base_rtctime = refl; reg_a = refl; reg_b = refl }

  abbrev shown : Vrtc
  shown = with_dev based (secs_to_rtc (c.host secs) (some secs) false)

  shown-IsStarted : IsStarted v secs c.later newval shown
  unfolding secs_to_rtc store_date
  shown-IsStarted = record {
    base_uptime = refl;
    base_rtctime = refl;
    reg_a = ground arith;
    reg_b = ground arith;
  }

  check_alarm-IsStarted :
      (a : Alarm) → IsStarted v secs c.later newval (check_alarm a c.host secs based)
  unfolding check_alarm
  check_alarm-IsStarted a =
      let P = IsStarted v secs c.later newval in
      if_cases P (not (aintr_enabled based)) (λ _. based-IsStarted)
        (λ _.
          if_cases P (alarm_matches a shown.rtcdev)
            (λ _.
              set_kept shown-IsStarted (set_reg_c-IsKept shown (bit_or shown.rtcdev.reg_c 0x20)))
            (λ _. shown-IsStarted))

  abbrev checked : Vrtc
  checked = check_alarm (alarm_of v.rtcdev) c.host secs based

  abbrev ticked : Vrtc
  ticked =
      if uintr_enabled checked
      then set_reg_c checked (bit_or checked.rtcdev.reg_c 0x10)
      else checked

  ticked-IsStarted : IsStarted v secs c.later newval ticked
  ticked-IsStarted =
      if_cases (IsStarted v secs c.later newval) (uintr_enabled checked)
        (λ _.
          set_kept (check_alarm-IsStarted (alarm_of v.rtcdev))
            (set_reg_c-IsKept checked (bit_or checked.rtcdev.reg_c 0x10)))
        (λ _. check_alarm-IsStarted (alarm_of v.rtcdev))

  -- The state at the end of the write.
  abbrev last : Vrtc
  last =
      let flagged =
        if has (bit_xor v.rtcdev.reg_b newval) 0x70
        then set_reg_c ticked ticked.rtcdev.reg_c
        else ticked in
      retime (freq v) flagged

  last-IsStarted : IsStarted v secs c.later newval last
  last-IsStarted =
      set_kept
        (if_cases (IsStarted v secs c.later newval) (has (bit_xor v.rtcdev.reg_b newval) 0x70)
          (λ _. set_kept ticked-IsStarted (set_reg_c-IsKept ticked ticked.rtcdev.reg_c))
          (λ _. ticked-IsStarted))
        (retime-IsKept (freq v) _)

  module _ (was : halted v.rtcdev.reg_b ≡ true) (goes : halted newval ≡ false)
      (flux : v.base_rtctime ≡ none) (date : rtc_to_secs unhalted.rtcdev ≡ some secs) where
    changes : has (bit_xor v.rtcdev.reg_b newval) 0x80 ≡ true
    unfolding xor
    changes =
        has-pow (bit_xor v.rtcdev.reg_b newval) 7
        ∙ bit-bit_xor v.rtcdev.reg_b newval 7
        ∙ ap₂ xor (sym (has-pow v.rtcdev.reg_b 7) ∙ was) (sym (has-pow newval 7) ∙ goes)

    ends : set_reg_b c v newval ≡ finished last
    unfolding set_reg_b change_halt after_update time_update updates update_loop round
    ends = rw (changes, goes, date, flux, goes) refl

    -- A guest that ends its update by clearing the HALT bit, while no valid time is kept, with fields
    -- that rtc_to_secs accepts once the bit is clear and with the divider enabled, sets the clock to the
    -- time that rtc_to_secs reads from them, and from then on the clock goes forward by a second for
    -- each second of the host's uptime.
    pub curtime-set_reg_b :
        divider_enabled v.rtcdev.reg_a ≡ true
        → (now : ℕ)
        → (w : Vrtc) × ((set_reg_b c v newval ≡ finished w)
            × ((curtime w now).time ≡ some (secs + (now - c.later) / sbt_1s)))
    curtime-set_reg_b d now =
        (last, (ends, curtime-IsStarted v last secs c.later newval now last-IsStarted d goes))
