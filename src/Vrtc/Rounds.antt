-- ===== src/Vrtc/Rounds.antt =====
-- One round of the loop of vrtc_time_update in src/lib/vmm/io/vrtc.c: the check of the alarm.
use hyperkit.Base.{
  ℕ, ◌≡◌, refl, sym, ap, ◌∙◌, Bool, true, false, ◌&&◌, ◌||◌, if◌then◌else◌, arith, bit_and, bit_or,
  some,
}
use hyperkit.Base.Bits.Laws.{bit, bit-bit_and, bit-bit_or}
use hyperkit.Base.Bits.Words.{has, has-pow}
use hyperkit.Vrtc.Clock.{Timespec, ts_to_ct}
use hyperkit.Vrtc.Fields.{is_24hr, is_bin, halted, rtcset, hour_set, store_date, secs_to_rtc}
use hyperkit.Vrtc.Registers.{
  Vrtc, with_dev, aintr_enabled, raises, set_reg_c, Alarm, field_matches, alarm_matches,
  check_alarm, round,
}

-- What the parts of a round do not touch.
pub record IsSame (v w : Vrtc) : Type 0 where
  pub reg_b : w.rtcdev.reg_b ≡ v.rtcdev.reg_b
  pub time : w.base_rtctime ≡ v.base_rtctime

pub set_reg_c-IsSame : (v : Vrtc) (x : ℕ) → IsSame v (set_reg_c v x)
unfolding set_reg_c
set_reg_c-IsSame v x = record { reg_b = ground arith; time = ground arith }

pub alarm-set_reg_c : (v : Vrtc) (x : ℕ) → has (set_reg_c v x).rtcdev.reg_c 0x20 ≡ has x 0x20
unfolding set_reg_c
alarm-set_reg_c v x = ap (λ c. has c 0x20) stored ∙ kept (raises v (bit_and x 0x70))
  where
    stored :
        (set_reg_c v x).rtcdev.reg_c
        ≡ bit_or (if raises v (bit_and x 0x70) then 0x80 else 0) (bit_and x 0x70)
    stored = ground arith

    flag : (b : Bool) → (bit (if b then 0x80 else 0) 5 || bit (bit_and x 0x70) 5) ≡ bit x 5
    flag true = ground (arith, bit-bit_and x 0x70 5)
    flag false = ground (arith, bit-bit_and x 0x70 5)

    kept : (b : Bool) → has (bit_or (if b then 0x80 else 0) (bit_and x 0x70)) 0x20 ≡ has x 0x20
    kept b =
        has-pow (bit_or (if b then 0x80 else 0) (bit_and x 0x70)) 5
        ∙ bit-bit_or (if b then 0x80 else 0) (bit_and x 0x70) 5
        ∙ flag b
        ∙ sym (has-pow x 5)

-- The alarm registers match what the host's clock says, in the format of register B.
pub rings : Alarm → ℕ → Timespec → Bool
rings a reg_b ts =
    let ct = ts_to_ct ts in
    field_matches a.sec (rtcset (is_bin reg_b) ct.sec)
    && field_matches a.min (rtcset (is_bin reg_b) ct.min)
    && field_matches a.hour (hour_set (is_24hr reg_b) (is_bin reg_b) ct.hour)

set_alarm : (c : ℕ) → has (bit_or c 0x20) 0x20 ≡ true
set_alarm c = has-pow (bit_or c 0x20) 5 ∙ bit-bit_or c 0x20 5 ∙ ground arith

module _ (a : Alarm) (host : ℕ → Timespec) where
  -- The clock with the date that is shown at time t.
  abbrev shown : ℕ → Vrtc → Vrtc
  shown t v = with_dev (record v { base_rtctime = some t }) (store_date (ts_to_ct (host t)))

  pub record IsRound (t : ℕ) (v w : Vrtc) : Type 0 where
    pub alarm :
        has w.rtcdev.reg_c 0x20 ≡ (has v.rtcdev.reg_c 0x20 || rings a v.rtcdev.reg_b (host t))
    pub reg_b : w.rtcdev.reg_b ≡ v.rtcdev.reg_b
    pub time : w.base_rtctime ≡ some t

  -- A round at time t, while the alarm is enabled and the clock is not halted.
  pub round-IsRound :
      (t : ℕ) (v : Vrtc)
      → aintr_enabled v ≡ true
      → halted v.rtcdev.reg_b ≡ false
      → IsRound t v (round a host t v)
  unfolding round check_alarm secs_to_rtc store_date alarm_matches rings
  round-IsRound t v e h = rw (h, e) (go (rings a v.rtcdev.reg_b (host t)) refl)
    where
      go :
          (m : Bool)
          → rings a v.rtcdev.reg_b (host t) ≡ m
          → IsRound t v
              (if m then set_reg_c (shown t v) (bit_or v.rtcdev.reg_c 0x20) else shown t v)
      go true r =
          let s = set_reg_c-IsSame (shown t v) (bit_or v.rtcdev.reg_c 0x20) in
          record {
            alarm =
                alarm-set_reg_c (shown t v) (bit_or v.rtcdev.reg_c 0x20)
                ∙ set_alarm v.rtcdev.reg_c
                ∙ ground (arith, r);
            reg_b = s.reg_b;
            time = s.time;
          }
      go false r = record { alarm = ground (arith, r); reg_b = refl; time = refl }
