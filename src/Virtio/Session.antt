-- ===== src/Virtio/Session.antt =====
-- All that the guest and the device do over time in src/lib/virtio.c: the interrupt line follows the
-- interrupt status.
use hyperkit.Base.{
  ℕ, ◌%◌, ◌^◌, Bool, not, ◌||◌, List, [], ◌∷◌, ltb, leb, ◌==◌, if_cases, Option, none, some,
}
use hyperkit.Virtio.Memory.{Queue, Guest}
use hyperkit.Virtio.Used.{Softc, endchains}
use hyperkit.Virtio.Device.{ConfigReg, find_cr}
use hyperkit.Virtio.Registers.{Consts, is_own, newoff, all_ones, Read}
use hyperkit.Virtio.Accesses.{
  read_reg, read_common, bar_read, pci_read, apply, notify, write_reg, write_common, bar_write,
  pci_write,
}
use hyperkit.Virtio.Line.{IsLined, endchains-IsLined, read_isr-IsLined}

-- The device's own parts leave the line to the status, as each does that uses the operations of
-- virtio.c alone.
pub record Keeps (c : Consts) : Type 0 where
  pub reset : (s : Softc) → IsLined s → IsLined (c.reset s)
  pub qnotify : (v : ℕ) (s : Softc) → IsLined s → IsLined (apply c.qnotify v s)
  pub notify : (v : ℕ) (s : Softc) → IsLined s → IsLined (notify c (c.vq_notify v) v s)
  pub cfgread : (o n v : ℕ) (s : Softc) → IsLined s → IsLined (c.cfgread o n v s).device
  pub cfgwrite : (o n v : ℕ) (s : Softc) → IsLined s → IsLined (c.cfgwrite o n v s).device
  pub apply_features : (v : ℕ) (s : Softc) → IsLined s → IsLined (apply c.apply_features v s)
  pub msix_twrite : (o n v : ℕ) (s : Softc) → IsLined s → IsLined (c.msix_twrite o n v s)

module _ (c : Consts) (k : Keeps c) where
  read_reg-IsLined :
      (offset value : ℕ) (s : Softc) → IsLined s → IsLined (read_reg c offset value s).device
  unfolding read_reg
  read_reg-IsLined offset value s h =
      let Q = λ (r : Read). IsLined r.device in
      if_cases Q (offset == 0) (λ _. h)
        (λ _.
          if_cases Q (offset == 4) (λ _. h)
            (λ _.
              if_cases Q (offset == 8) (λ _. h)
                (λ _.
                  if_cases Q (offset == 12) (λ _. h)
                    (λ _.
                      if_cases Q (offset == 14) (λ _. h)
                        (λ _.
                          if_cases Q (offset == 16) (λ _. h)
                            (λ _.
                              if_cases Q (offset == 18) (λ _. h)
                                (λ _.
                                  if_cases Q (offset == 19) (λ _. read_isr-IsLined s h)
                                    (λ _.
                                      if_cases Q (offset == 20) (λ _. h)
                                        (λ _. if_cases Q (offset == 22) (λ _. h) (λ _. h))))))))))

  read_common-IsLined :
      (o : Option ConfigReg) (offset size value : ℕ) (s : Softc)
      → IsLined s
      → IsLined (read_common c o offset size value s).device
  unfolding read_common
  read_common-IsLined none offset size value s h = h
  read_common-IsLined (some cr) offset size value s h =
      if_cases (λ (r : Read). IsLined r.device) (not (cr.size == size)) (λ _. h)
        (λ _. read_reg-IsLined offset value s h)

  bar_read-IsLined :
      (offset size : ℕ) (s : Softc) → IsLined s → IsLined (bar_read c offset size s).device
  unfolding bar_read
  bar_read-IsLined offset size s h =
      let own = c.cfgread (newoff s offset) size (all_ones size) s in
      let kept = k.cfgread (newoff s offset) size (all_ones size) s h in
      if_cases (λ (r : Read). IsLined r.device) (not (is_own c s offset size))
        (λ _. read_common-IsLined (find_cr offset) offset size (all_ones size) s h)
        (λ _.
          if_cases (λ (r : Read). IsLined r.device) own.failed
            (λ _. read_common-IsLined (find_cr offset) offset size own.value own.device kept)
            (λ _. kept))

  write_reg-IsLined :
      (offset value : ℕ) (s : Softc) → IsLined s → IsLined (write_reg c offset value s)
  unfolding write_reg IsLined
  write_reg-IsLined offset value s h =
      let Q = IsLined in
      if_cases Q (offset == 4) (λ _. k.apply_features _ _ h)
        (λ _.
          if_cases Q (offset == 8) (λ _. if_cases Q (ltb s.curq c.nvq) (λ _. h) (λ _. h))
            (λ _.
              if_cases Q (offset == 14) (λ _. h)
                (λ _.
                  if_cases Q (offset == 16)
                    (λ _. if_cases Q (leb c.nvq value) (λ _. h) (λ _. k.notify value s h))
                    (λ _.
                      if_cases Q (offset == 18)
                        (λ _. if_cases Q (value == 0) (λ _. k.reset _ h) (λ _. h))
                        (λ _.
                          if_cases Q (offset == 20) (λ _. h)
                            (λ _.
                              if_cases Q (offset == 22)
                                (λ _. if_cases Q (ltb s.curq c.nvq) (λ _. h) (λ _. h))
                                (λ _. h)))))))

  write_common-IsLined :
      (o : Option ConfigReg) (offset size value : ℕ) (s : Softc)
      → IsLined s
      → IsLined (write_common c o offset size value s)
  unfolding write_common
  write_common-IsLined none offset size value s h = h
  write_common-IsLined (some cr) offset size value s h =
      if_cases IsLined (not (cr.size == size) || cr.ro) (λ _. h)
        (λ _. write_reg-IsLined offset value s h)

  bar_write-IsLined :
      (offset size value : ℕ) (s : Softc) → IsLined s → IsLined (bar_write c offset size value s)
  unfolding bar_write
  bar_write-IsLined offset size value s h =
      let own = c.cfgwrite (newoff s offset) size (value % 2 ^ 32) s in
      let kept = k.cfgwrite (newoff s offset) size (value % 2 ^ 32) s h in
      if_cases IsLined (not (is_own c s offset size))
        (λ _. write_common-IsLined (find_cr offset) offset size value s h)
        (λ _.
          if_cases IsLined own.failed
            (λ _. write_common-IsLined (find_cr offset) offset size value own.device kept)
            (λ _. kept))

-- What happens to a device: the guest reads or writes a register, or the device ends its work on a
-- queue, with what the guest's memory then holds.
pub data Event : Type 0 where
  reading : ℕ → ℕ → ℕ → Event
  writing : ℕ → ℕ → ℕ → ℕ → Event
  ending : Guest → Queue → Bool → Event

-- An access to another BAR, which the assertion stops, is none.
unfoldable pub after_read : Softc → Option Read → Softc
after_read s none = s
after_read s (some r) = r.device

unfoldable pub after_write : Softc → Option Softc → Softc
after_write s none = s
after_write s (some t) = t

unfoldable pub step : Consts → Event → Softc → Softc
step c (reading bar offset size) s = after_read s (pci_read c bar offset size s)
step c (writing bar offset size value) s = after_write s (pci_write c bar offset size value s)
step c (ending g q all) s = (endchains g s q all).device

unfoldable pub run : Consts → List Event → Softc → Softc
run c [] s = s
run c (e ∷ es) s = run c es (step c e s)

module _ (c : Consts) (k : Keeps c) where
  step-IsLined : (e : Event) (s : Softc) → IsLined s → IsLined (step c e s)
  unfolding step pci_read pci_write after_read after_write
  step-IsLined (reading bar offset size) s h =
      let P = λ (o : Option Read). IsLined (after_read s o) in
      if_cases P (c.msix_bar bar) (λ _. h)
        (λ _. if_cases P (bar == 0) (λ _. bar_read-IsLined c k offset size s h) (λ _. h))
  step-IsLined (writing bar offset size value) s h =
      let P = λ (o : Option Softc). IsLined (after_write s o) in
      if_cases P (c.msix_bar bar) (λ _. k.msix_twrite offset size value s h)
        (λ _. if_cases P (bar == 0) (λ _. bar_write-IsLined c k offset size value s h) (λ _. h))
  step-IsLined (ending g q all) s h = endchains-IsLined g s q all h

  -- Over any sequence of register accesses and interrupts the line of a device is up exactly while
  -- its interrupt status is not zero, if that is so at first and the device's own parts keep it so.
  pub run-IsLined : (es : List Event) (s : Softc) → IsLined s → IsLined (run c es s)
  unfolding run
  run-IsLined [] s h = h
  run-IsLined (e ∷ es) s h = run-IsLined es (step c e s) (step-IsLined e s h)
