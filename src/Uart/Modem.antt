-- ===== src/Uart/Modem.antt =====
-- The modem control and status of the serial port, uart_write of src/lib/uart_emul.c.
use hyperkit.Base.{
  ℕ, zero, suc, ◌+◌, ◌^◌, ◌<◌, ◌≡◌, refl, sym, ap, ap₂, ◌∙◌, Bool, true, false, not, ◌&&◌, ◌||◌,
  arith, ltb, ◌==◌, if◌then◌else◌, if_cases, bit_and, bit_or,
}
use mathlib.Core.Bool.{xor}
use hyperkit.Base.Bits.Laws.{bit, bit-bit_and, bit-bit_or, bit-zero, bit-pow, bit-ones}
use hyperkit.Base.Bits.Words.{has, has-pow}
use hyperkit.Uart.State.{Uart}
use hyperkit.Uart.Registers.{flag, lines, deltas, write_mcr}

bit-bit_or-flag : (x m j : ℕ) (t : Bool) → bit (bit_or x (flag t m)) j ≡ (bit x j || (t && bit m j))
bit-bit_or-flag x m j true = bit-bit_or x m j
bit-bit_or-flag x m j false = bit-bit_or x 0 j ∙ ground (arith, bit-zero j)

bit-flag : (m j : ℕ) (t : Bool) → bit (flag t m) j ≡ (t && bit m j)
bit-flag m j true = refl
bit-flag m j false = bit-zero j

-- The lines are the upper half of the byte.
bit-upper :
    (k : ℕ) (p q r t : Bool)
    → k < 4
    → bit (bit_or (bit_or (bit_or (flag p 0x10) (flag q 0x20)) (flag r 0x40)) (flag t 0x80)) k
      ≡ false
bit-upper k p q r t h = ground (
  arith,
  bit-bit_or-flag (bit_or (bit_or (flag p 0x10) (flag q 0x20)) (flag r 0x40)) 0x80 k t,
  bit-bit_or-flag (bit_or (flag p 0x10) (flag q 0x20)) 0x40 k r,
  bit-bit_or-flag (flag p 0x10) 0x20 k q,
  bit-flag 0x10 k p,
  bit-pow 4 k,
  bit-pow 5 k,
  bit-pow 6 k,
  bit-pow 7 k,
)

bit-lines : (mcr k : ℕ) → k < 4 → bit (lines mcr) k ≡ false
unfolding lines
bit-lines mcr k h =
    if_cases (λ x. bit x k ≡ false) (has mcr 0x10)
      (λ _. bit-upper k (has mcr 2) (has mcr 1) (has mcr 4) (has mcr 8) h) (λ _. bit-zero k)

module _ (old : ℕ) where
  -- A byte with delta bits set where the tests say so.
  abbrev marked : Bool → Bool → Bool → Bool → ℕ
  marked p q r t = bit_or (bit_or (bit_or (bit_or old (flag p 1)) (flag q 2)) (flag r 8)) (flag t 4)

  bit-marked :
      (j : ℕ) (p q r t : Bool)
      → bit (marked p q r t) j
        ≡ (bit old j || (p && (0 == j) || (q && (1 == j) || (r && (3 == j) || t && (2 == j)))))
  bit-marked j p q r t = ground (
    arith,
    bit-bit_or-flag (bit_or (bit_or (bit_or old (flag p 1)) (flag q 2)) (flag r 8)) 4 j t,
    bit-bit_or-flag (bit_or (bit_or old (flag p 1)) (flag q 2)) 8 j r,
    bit-bit_or-flag (bit_or old (flag p 1)) 2 j q,
    bit-bit_or-flag old 1 j p,
    bit-pow 0 j,
    bit-pow 1 j,
    bit-pow 2 j,
    bit-pow 3 j,
  )

-- A mark does not touch the other bits.
keep : (x m j : ℕ) (t : Bool) → bit m j ≡ false → has (bit_or x (flag t m)) (2 ^ j) ≡ has x (2 ^ j)
keep x m j t e =
    has-pow (bit_or x (flag t m)) j
    ∙ bit-bit_or-flag x m j t
    ∙ ground (arith, e)
    ∙ sym (has-pow x j)

deltas-marked :
    (old new : ℕ)
    → deltas old new
      ≡ marked old
          (xor (bit new 4) (bit old 4))
          (xor (bit new 5) (bit old 5))
          (xor (bit new 7) (bit old 7))
          (bit old 6 && not (bit new 6))
unfolding deltas
deltas-marked old new =
    rw
      (
        keep (bit_or (bit_or old (flag p 1)) (flag q 2)) 8 6 r refl,
        keep (bit_or old (flag p 1)) 2 6 q refl,
        keep old 1 6 p refl,
        keep (bit_or old (flag p 1)) 2 7 q refl,
        keep old 1 7 p refl,
        keep old 1 5 p refl,
        has-pow new 4,
        has-pow old 4,
        has-pow new 5,
        has-pow old 5,
        has-pow new 6,
        has-pow old 6,
        has-pow new 7,
        has-pow old 7,
      )
      refl
  where
    p : Bool
    p = xor (has new 0x10) (has old 0x10)

    q : Bool
    q = xor (has new 0x20) (has (bit_or old (flag p 1)) 0x20)

    r : Bool
    r = xor (has new 0x80) (has (bit_or (bit_or old (flag p 1)) (flag q 2)) 0x80)

-- The line whose change a delta bit marks has changed so that it is marked.
abbrev pub changed : ℕ → ℕ → ℕ → Bool
changed old new k =
    if k == 2 then bit old 6 && not (bit new 6) else xor (bit new (k + 4)) (bit old (k + 4))

bit-deltas : (old new k : ℕ) → k < 4 → bit (deltas old new) k ≡ (bit old k || changed old new k)
bit-deltas old new k h =
    ap (λ x. bit x k) (deltas-marked old new)
    ∙ bit-marked old k _ _ _ _
    ∙ ap (λ t. bit old k || t) (pick k h)
  where
    pick :
        (k : ℕ)
        → k < 4
        → (xor (bit new 4) (bit old 4) && (0 == k)
            || (xor (bit new 5) (bit old 5) && (1 == k)
                || (xor (bit new 7) (bit old 7) && (3 == k)
                    || bit old 6 && not (bit new 6) && (2 == k))))
          ≡ changed old new k
    pick zero h = ground arith
    pick (suc zero) h = ground arith
    pick (suc (suc zero)) h = ground arith
    pick (suc (suc (suc zero))) h = ground arith
    pick (suc (suc (suc (suc k)))) h = absurd (omega arith)

bit-joined : (d m j : ℕ) → bit (bit_or (bit_and d 0x0f) m) j ≡ (bit d j && ltb j 4 || bit m j)
bit-joined d m j =
    ground (arith, bit-bit_or (bit_and d 0x0f) m j, bit-bit_and d 0x0f j, bit-ones 4 j)

-- After a write of the modem control the upper bits of the modem status are the lines, and each lower
-- bit is set if it was before or its line has changed, that of the ring indicator if the line has
-- gone down.
pub bit-write_mcr :
    (s : Uart) (value k : ℕ)
    → k < 4
    → (bit (write_mcr s value).msr (k + 4) ≡ bit (lines (bit_and value 0x1f)) (k + 4))
      × (bit (write_mcr s value).msr k
          ≡ (bit s.msr k || changed s.msr (lines (bit_and value 0x1f)) k))
unfolding write_mcr
bit-write_mcr s value k h =
    let m = lines (bit_and value 0x1f) in
    let joined = bit-joined (deltas s.msr m) m in
    (
      joined (k + 4) ∙ upper (bit (deltas s.msr m) (k + 4)) (bit m (k + 4)),
      joined k
          ∙ ap₂ (λ a b. a && ltb k 4 || b) (bit-deltas s.msr m k h)
              (bit-lines (bit_and value 0x1f) k h)
          ∙ lower (bit s.msr k || changed s.msr m k),
    )
  where
    upper : (a b : Bool) → (a && ltb (k + 4) 4 || b) ≡ b
    upper a b = ground arith

    lower : (a : Bool) → (a && ltb k 4 || false) ≡ a
    lower a = ground arith
