-- ===== src/Vatpic/Trigger.antt =====
-- The edge/level control registers of src/lib/vmm/io/vatpic.c: which lines may be level triggered.
use hyperkit.Base.{
  ℕ, zero, suc, ◌+◌, ◌%◌, ◌^◌, ◌<◌, ◌≡◌, refl, sym, ap, ap₂, ◌∙◌, true, false, not, ◌||◌, ◌&&◌,
  ◌==◌, arith, Bool-cases, bit_and, bit_or, inl, inr, ltb, ltb→lt, ==_of_ne, false≢true,
}
use hyperkit.Base.Bits.Laws.{pow_lt, bit, bit-bit_and, bit-bit_or, bit-pow, bit-zero}
use hyperkit.Base.Bits.Words.{clear, bit_and-lt_right, bit_or-lt, clear-lt, bit-clear}
use hyperkit.Vatpic.State.{Chip, master, slave, chip_of}
use hyperkit.Vatpic.Ports.{edge_only}

-- The line at pin k of a chip.
abbrev pub line : Chip → ℕ → ℕ
line master k = k
line slave k = k + 8

-- A byte of the edge/level control register: no line that must be edge triggered is marked level.
pub record IsElc (c : Chip) (x : ℕ) : Type 0 where
  pub byte : x < 2 ^ 8
  pub edges : (k : ℕ) → k < 8 → edge_only (line c k) ≡ true → bit x k ≡ false

-- Marking a line that may be level triggered marks no other.
pub mark-IsElc :
    (c : Chip) (x j : ℕ)
    → IsElc c x
    → j < 8
    → edge_only (line c j) ≡ false
    → IsElc c (bit_or x (2 ^ j))
mark-IsElc c x j h hj may = record {
  byte = bit_or-lt 8 x (2 ^ j) h.byte (pow_lt j 8 hj);
  edges = λ k hk must.
      bit-bit_or x (2 ^ j) k ∙ ap₂ ◌||◌ (h.edges k hk must) (bit-pow j k ∙ other k must);
}
  where
    other : (k : ℕ) → edge_only (line c k) ≡ true → (j == k) ≡ false
    other k must =
        ==_of_ne j k (λ e. false≢true (sym may ∙ ap (λ t. edge_only (line c t)) e ∙ must))

pub unmark-IsElc : (c : Chip) (x m : ℕ) → IsElc c x → IsElc c (clear 8 x m)
unmark-IsElc c x m h = record {
  byte = clear-lt 8 x m h.byte;
  edges = λ k hk must. bit-clear 8 x m k h.byte ∙ ap (λ b. b && not (bit m k)) (h.edges k hk must);
}

pub line-mod : (irq : ℕ) → irq < 16 → line (chip_of irq) (irq % 8) ≡ irq
line-mod irq h = elim (Bool-cases (ltb irq 8)) [
  | inl e ↦ rw e (omega (arith, ltb→lt irq 8 e))
  | inr e ↦ rw e (ground arith)
]

-- The masks that vatpic_elc_handler applies leave out the lines that must be edge triggered.
pub mask_off : (k : ℕ) → edge_only k ≡ true → bit 0xf8 k ≡ false
mask_off zero h = refl
mask_off (suc zero) h = refl
mask_off (suc (suc zero)) h = refl
mask_off (suc (suc (suc zero))) h = cc
mask_off (suc (suc (suc (suc zero)))) h = cc
mask_off (suc (suc (suc (suc (suc zero))))) h = cc
mask_off (suc (suc (suc (suc (suc (suc zero)))))) h = cc
mask_off (suc (suc (suc (suc (suc (suc (suc zero))))))) h = cc
mask_off (suc (suc (suc (suc (suc (suc (suc (suc k)))))))) h = bit-zero k

pub slave_mask_off : (k : ℕ) → k < 8 → edge_only (k + 8) ≡ true → bit 0xde k ≡ false
slave_mask_off zero h e = refl
slave_mask_off (suc zero) h e = cc
slave_mask_off (suc (suc zero)) h e = cc
slave_mask_off (suc (suc (suc zero))) h e = cc
slave_mask_off (suc (suc (suc (suc zero)))) h e = cc
slave_mask_off (suc (suc (suc (suc (suc zero))))) h e = refl
slave_mask_off (suc (suc (suc (suc (suc (suc zero)))))) h e = cc
slave_mask_off (suc (suc (suc (suc (suc (suc (suc zero))))))) h e = cc
slave_mask_off (suc (suc (suc (suc (suc (suc (suc (suc k)))))))) h e = absurd (omega arith)

pub mask-IsElc :
    (c : Chip) (x m : ℕ)
    → m < 2 ^ 8
    → ((k : ℕ) → k < 8 → edge_only (line c k) ≡ true → bit m k ≡ false)
    → IsElc c (bit_and x m)
mask-IsElc c x m h off = record {
  byte = bit_and-lt_right 8 x m h;
  edges = λ k hk must. bit-bit_and x m k ∙ ap (λ b. bit x k && b) (off k hk must) ∙ ground arith;
}
