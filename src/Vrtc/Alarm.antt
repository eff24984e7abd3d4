-- ===== src/Vrtc/Alarm.antt =====
-- The loop of vrtc_time_update in src/lib/vmm/io/vrtc.c: where it ends, and when it raises the alarm.
use hyperkit.Base.{
  ℕ, zero, suc, ◌+◌, ◌-◌, ◌<◌, ◌≡◌, ◌≢◌, refl, sym, ap, ap₂, subst, ◌∙◌, Bool, true, false, ◌||◌,
  ==_iff, ==_of_ne, if_cases, arith, bit_or, Option, some,
}
use hyperkit.Base.Bits.Laws.{bit-bit_or}
use hyperkit.Base.Bits.Words.{has, has-pow}
use hyperkit.Vrtc.Clock.{Timespec}
use hyperkit.Vrtc.Fields.{halted}
use hyperkit.Vrtc.Registers.{
  Vrtc, aintr_enabled, uintr_enabled, set_reg_c, Alarm, alarm_of, round, seconds_loop, update_loop,
  Updated, updated, updates, time_update,
}
use hyperkit.Vrtc.Rounds.{set_reg_c-IsSame, alarm-set_reg_c, rings, round-IsRound}

module _ (a : Alarm) (host : ℕ → Timespec) where
  -- The alarm rings at one of the k seconds after t.
  unfoldable pub rung : ℕ → ℕ → ℕ → Bool
  rung reg_b zero t = false
  rung reg_b (suc k) t = rings a reg_b (host (t + 1)) || rung reg_b k (t + 1)

  -- The loop has gone k seconds on from t.
  record IsGone (k t : ℕ) (v : Vrtc) (o : Option Vrtc) : Type 0 where
    end : Vrtc
    ended : o ≡ some end
    alarm : has end.rtcdev.reg_c 0x20 ≡ (has v.rtcdev.reg_c 0x20 || rung v.rtcdev.reg_b k t)
    reg_b : end.rtcdev.reg_b ≡ v.rtcdev.reg_b
    time : end.base_rtctime ≡ some (t + k)

  seconds_loop-IsGone :
      (k fuel t : ℕ) (v : Vrtc)
      → k < fuel
      → aintr_enabled v ≡ true
      → halted v.rtcdev.reg_b ≡ false
      → IsGone (suc k) t v (seconds_loop fuel a host (t + suc k) t v)
  unfolding seconds_loop rung
  seconds_loop-IsGone k zero t v l e h = absurd (omega arith)
  seconds_loop-IsGone zero (suc fuel) t v l e h =
      let r = round-IsRound a host (t + 1) v e h in
      record {
        end = round a host (t + 1) v;
        ended = rw ((==_iff (t + 1) (t + 1)).1 refl) refl;
        alarm = r.alarm ∙ ground arith;
        reg_b = r.reg_b;
        time = r.time;
      }
  seconds_loop-IsGone (suc k) (suc fuel) t v l e h =
      let r = round-IsRound a host (t + 1) v e h in
      let w = round a host (t + 1) v in
      let ih =
        seconds_loop-IsGone k fuel (t + 1) w (omega arith) (ap (λ x. has x 0x20) r.reg_b ∙ e)
          (ap halted r.reg_b ∙ h) in
      record {
        end = ih.end;
        ended = rw (==_of_ne (t + 1) (t + suc (suc k)) (λ q. omega arith)) (
            ap (λ n. seconds_loop fuel a host n (t + 1) w) {y = t + 1 + suc k} (omega arith)
            ∙ ih.ended);
        alarm = ih.alarm ∙ ap₂ (λ x b. x || rung b (suc k) (t + 1)) r.alarm r.reg_b ∙ ground arith;
        reg_b = ih.reg_b ∙ r.reg_b;
        time = ih.time ∙ ap some (omega arith);
      }

module _ (host : ℕ → Timespec) (v : Vrtc) (old new base : ℕ) where
  abbrev based : Vrtc
  based = record v { base_uptime = base }

  abbrev a : Alarm
  a = alarm_of v.rtcdev

  -- What the call does for another time than the one that the clock has.
  moved :
      old ≢ new
      → v.base_rtctime ≡ some old
      → aintr_enabled v ≡ true
      → halted v.rtcdev.reg_b ≡ false
      → time_update host v (some new) base ≡ updates (seconds_loop new a host new old based)
  unfolding time_update update_loop
  moved ne t e h = rw (t, ==_of_ne old new ne, h, e) refl

  -- What the call returns after the loop.
  pub record IsDone (o : Updated) : Type 0 where
    pub end : Vrtc
    pub returned : o ≡ updated end
    pub time : end.base_rtctime ≡ some new
    pub alarm :
        has end.rtcdev.reg_c 0x20
        ≡ (has v.rtcdev.reg_c 0x20 || rung a host v.rtcdev.reg_b (new - old) old)

  updates-IsDone :
      (w : Vrtc)
      → w.base_rtctime ≡ some new
      → has w.rtcdev.reg_c 0x20
        ≡ (has v.rtcdev.reg_c 0x20 || rung a host v.rtcdev.reg_b (new - old) old)
      → IsDone (updates (some w))
  unfolding updates
  updates-IsDone w t f =
      if_cases (λ x. IsDone (updated x)) (uintr_enabled w)
        (λ _. record {
          end = set_reg_c w (bit_or w.rtcdev.reg_c 0x10);
          returned = refl;
          time = (set_reg_c-IsSame w (bit_or w.rtcdev.reg_c 0x10)).time ∙ t;
          alarm = alarm-set_reg_c w (bit_or w.rtcdev.reg_c 0x10) ∙ untouched w.rtcdev.reg_c ∙ f;
        })
        (λ _. record { end = w; returned = refl; time = t; alarm = f })
    where
      untouched : (c : ℕ) → has (bit_or c 0x10) 0x20 ≡ has c 0x20
      untouched c =
          has-pow (bit_or c 0x10) 5 ∙ bit-bit_or c 0x10 5 ∙ ground arith ∙ sym (has-pow c 5)

  module _ (t : v.base_rtctime ≡ some old) (e : aintr_enabled v ≡ true)
      (h : halted v.rtcdev.reg_b ≡ false) where
    gone : old < new → IsGone a host (new - old) old based (seconds_loop new a host new old based)
    gone lt =
        subst (λ n. IsGone a host (new - old) old based (seconds_loop new a host n old based))
          {x = old + (new - old)} {y = new} (omega arith)
          (subst (λ k. IsGone a host k old based (seconds_loop new a host (old + k) old based))
            {x = suc (new - old - 1)} {y = new - old} (omega arith)
            (seconds_loop-IsGone a host (new - old - 1) new old based (omega arith) e h))

    -- While the alarm interrupt is enabled, a move of a running clock from a time to a later one visits
    -- the seconds in between: it returns, the clock has the new time, and the alarm flag is raised
    -- exactly if it was or if the alarm registers match what the host's clock says at one of them.
    pub time_update-IsDone : old < new → IsDone (time_update host v (some new) base)
    time_update-IsDone lt =
        subst IsDone (sym (moved (λ q. omega arith) t e h ∙ ap updates g.ended))
          (updates-IsDone g.end (g.time ∙ ap some (omega arith)) g.alarm)
      where
        g : IsGone a host (new - old) old based (seconds_loop new a host new old based)
        g = gone lt
