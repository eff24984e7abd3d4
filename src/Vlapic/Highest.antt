-- ===== src/Vlapic/Highest.antt =====
-- The search for the highest vector of a register, and the changes of one vector, in
-- src/lib/vmm/io/vlapic.c.
use hyperkit.Base.{
  ℕ, zero, suc, ◌+◌, ◌-◌, ◌*◌, ◌/◌, ◌%◌, ◌^◌, ◌≤◌, ◌<◌, ◌≡◌, ◌≢◌, ◌↔◌, refl, sym, ap, ap₂, ◌∙◌,
  true, false, not, ◌&&◌, ◌||◌, ◌==◌, ==_iff, ==_of_ne, List, get_or, set, length-set,
  get_or-set_self, set-set, set-get_or, get_or-set_ne, if◌then◌else◌, arith, bit_or, Option, none,
  some, ℕ_discrete, dec_lt, false≢true,
}
use hyperkit.Base.Bits.Laws.{bit, bit-bit_or, bit-pow, bit_ext, pow_lt}
use hyperkit.Base.Bits.Words.{clear, bit-clear, clear-lt, bit_or-lt}
use hyperkit.Vlapic.Vectors.{
  fls_below, fls, has_vector, add_vector, drop_vector, highest_below, highest, IsVectors, fls_found,
  fls_none,
}

-- v is the highest vector of the first n words.
pub record IsHighest (ws : List ℕ) (n v : ℕ) : Type 0 where
  pub has_it : has_vector ws v ≡ true
  pub below : v < n * 32
  pub none_above : (w : ℕ) → v < w → w < n * 32 → has_vector ws w ≡ false

-- A vector of the word i.
vector_of :
    (ws : List ℕ) (w i : ℕ)
    → i * 32 ≤ w
    → w < i * 32 + 32
    → has_vector ws w ≡ bit (get_or ws i 0) (w - i * 32)
unfolding has_vector
vector_of ws w i l h =
    ap (λ a. bit (get_or ws a 0) (w % 32)) {x = w / 32} {y = i} (omega arith)
    ∙ ap (bit (get_or ws i 0)) {x = w % 32} {y = w - i * 32} (omega arith)

pub highest_below-IsHighest :
    (n : ℕ) (ws : List ℕ) (v : ℕ) → highest_below n ws ≡ some v → IsHighest ws n v
unfolding highest_below fls
highest_below-IsHighest zero ws v e = cc
highest_below-IsHighest (suc i) ws v e =
    go (fls_below 32 (get_or ws i 0)) refl e (highest_below-IsHighest i ws v)
  where
    go :
        (b : ℕ)
        → fls_below 32 (get_or ws i 0) ≡ b
        → (if b == 0 then highest_below i ws else some (i * 32 + (b - 1))) ≡ some v
        → (highest_below i ws ≡ some v → IsHighest ws i v)
        → IsHighest ws (suc i) v
    go zero b q ih =
        let r = ih q in
        record {
          has_it = r.has_it;
          below = omega (arith, r.below);
          none_above = λ w l h. elim (dec_lt w (i * 32)) [
            | yes lt ↦ r.none_above w l lt
            | no ge ↦
                vector_of ws w i (omega arith) (omega arith)
                ∙ fls_none 32 (get_or ws i 0) b (w - i * 32) (omega arith)
          ];
        }
    go (suc p) b q ih =
        let f = fls_found 32 (get_or ws i 0) p b in
        let off : (suc p == 0) ≡ false = ==_of_ne (suc p) 0 (λ z. omega (arith, z)) in
        let v_at : i * 32 + (suc p - 1) ≡ v = cc in
        let v_is : v ≡ i * 32 + p = omega (arith, v_at) in
        record {
          has_it =
              vector_of ws v i (omega (arith, v_is, f.1.0)) (omega (arith, v_is, f.1.0))
              ∙ ap (bit (get_or ws i 0)) {x = v - i * 32} {y = p} (omega (arith, v_is))
              ∙ f.0;
          below = omega (arith, v_is, f.1.0);
          none_above = λ w l h.
              vector_of ws w i (omega (arith, v_is)) (omega arith)
              ∙ f.1.1 (w - i * 32) (omega (arith, v_is)) (omega arith);
        }

pub highest_below-none :
    (n : ℕ) (ws : List ℕ)
    → highest_below n ws ≡ none
    → (w : ℕ) → w < n * 32
    → has_vector ws w ≡ false
unfolding highest_below fls
highest_below-none zero ws e w h = absurd (omega arith)
highest_below-none (suc i) ws e w h =
    go (fls_below 32 (get_or ws i 0)) refl e (λ q l. highest_below-none i ws q w l)
  where
    go :
        (b : ℕ)
        → fls_below 32 (get_or ws i 0) ≡ b
        → (if b == 0 then highest_below i ws else some (i * 32 + (b - 1))) ≡ none
        → (highest_below i ws ≡ none → w < i * 32 → has_vector ws w ≡ false)
        → has_vector ws w ≡ false
    go zero b q ih = elim (dec_lt w (i * 32)) [
      | yes lt ↦ ih q lt
      | no ge ↦
          vector_of ws w i (omega arith) (omega arith)
          ∙ fls_none 32 (get_or ws i 0) b (w - i * 32) (omega arith)
    ]
    go (suc p) b q ih =
        let off : (suc p == 0) ≡ false = ==_of_ne (suc p) 0 (λ z. omega (arith, z)) in cc

-- The words of a register, with one vector more or less.
module _ (ws : List ℕ) (ok : IsVectors ws) (v : ℕ) (h : v < 256) where
  -- Vectors with the same word and bit are the same.
  apart : (w : ℕ) → v / 32 ≡ w / 32 → (v % 32 == w % 32) ≡ (v == w)
  apart w e = elim (ℕ_discrete v w) [
    | yes q ↦ ground (arith, (==_iff v w).1 q, (==_iff (v % 32) (w % 32)).1 (ap (λ x. x % 32) q))
    | no ne ↦
        ground (arith, ==_of_ne v w ne, ==_of_ne (v % 32) (w % 32) (λ q. ne (omega (arith, q, e))))
  ]

  -- What a change of the word of v means to the vector w.
  module _ (x w : ℕ) where
    same_word : w < 256 → v / 32 ≡ w / 32 → has_vector (set ws (v / 32) x) w ≡ bit x (w % 32)
    unfolding has_vector
    same_word l e =
        ap (λ i. bit (get_or (set ws i x) (w / 32) 0) (w % 32)) e
        ∙ ap (λ a. bit a (w % 32)) (get_or-set_self ws (w / 32) x 0 (omega (arith, ok.words)))

    other_word : v / 32 ≢ w / 32 → has_vector (set ws (v / 32) x) w ≡ has_vector ws w
    unfolding has_vector
    other_word ne = ap (λ a. bit a (w % 32)) (get_or-set_ne ws (v / 32) (w / 32) x 0 ne)

  pub has_vector-add_vector :
      (w : ℕ) → w < 256 → has_vector (add_vector ws v) w ≡ (has_vector ws w || v == w)
  unfolding has_vector add_vector
  has_vector-add_vector w l = elim (ℕ_discrete (v / 32) (w / 32)) [
    | yes e ↦
        same_word _ w l e
        ∙ bit-bit_or (get_or ws (v / 32) 0) (2 ^ (v % 32)) (w % 32)
        ∙ ap₂ (λ a b. a || b) (ap (λ i. bit (get_or ws i 0) (w % 32)) e)
            (bit-pow (v % 32) (w % 32) ∙ apart w e)
    | no ne ↦ other_word _ w ne ∙ ground (arith, ==_of_ne v w (λ q. ne (ap (λ x. x / 32) q)))
  ]

  pub has_vector-drop_vector :
      (w : ℕ) → w < 256 → has_vector (drop_vector ws v) w ≡ (has_vector ws w && not (v == w))
  unfolding has_vector drop_vector
  has_vector-drop_vector w l = elim (ℕ_discrete (v / 32) (w / 32)) [
    | yes e ↦
        same_word _ w l e
        ∙ bit-clear 32 (get_or ws (v / 32) 0) (2 ^ (v % 32)) (w % 32) (ok.fits (v / 32))
        ∙ ap₂ (λ a b. a && not b) (ap (λ i. bit (get_or ws i 0) (w % 32)) e)
            (bit-pow (v % 32) (w % 32) ∙ apart w e)
    | no ne ↦ other_word _ w ne ∙ ground (arith, ==_of_ne v w (λ q. ne (ap (λ x. x / 32) q)))
  ]

  changed_word : (x : ℕ) → x < 2 ^ 32 → IsVectors (set ws (v / 32) x)
  changed_word x b = record {
    words = length-set ws (v / 32) x ∙ ok.words;
    fits = λ i. elim (ℕ_discrete (v / 32) i) [
      | yes e ↦ omega (
        arith,
        get_or-set_self ws (v / 32) x 0 (omega (arith, ok.words)),
        ap (λ j. get_or (set ws (v / 32) x) j 0) e,
        b,
      )
      | no ne ↦ omega (arith, get_or-set_ne ws (v / 32) i x 0 ne, ok.fits i)
    ];
  }

  pub add_vector-IsVectors : IsVectors (add_vector ws v)
  unfolding add_vector
  add_vector-IsVectors =
      changed_word _ (bit_or-lt 32 _ _ (ok.fits (v / 32)) (pow_lt (v % 32) 32 (omega arith)))

  pub drop_vector-IsVectors : IsVectors (drop_vector ws v)
  unfolding drop_vector
  drop_vector-IsVectors = changed_word _ (clear-lt 32 _ _ (ok.fits (v / 32)))

pub highest_iff : (ws : List ℕ) (v : ℕ) → (highest ws ≡ some v) ↔ IsHighest ws 8 v
unfolding highest
highest_iff ws v = (highest_below-IsHighest 8 ws v, λ h. go h (highest ws) refl)
  where
    go : IsHighest ws 8 v → (o : Option ℕ) → highest ws ≡ o → highest ws ≡ some v
    go h none e = absurd (false≢true (sym (highest_below-none 8 ws e v h.below) ∙ h.has_it))
    go h (some u) e =
        let r = highest_below-IsHighest 8 ws u e in
        elim (dec_lt u v) [
          | yes lt ↦ absurd (false≢true (sym (r.none_above v lt h.below) ∙ h.has_it))
          | no ge ↦ elim (ℕ_discrete u v) [
            | yes q ↦ e ∙ ap some q
            | no ne ↦ absurd (false≢true (sym (h.none_above u (omega arith) r.below) ∙ r.has_it))
          ]
        ]

-- A vector that is added and dropped again leaves the register as it was, if it was not there.
pub drop_vector-add_vector :
    (ws : List ℕ) (v : ℕ)
    → IsVectors ws
    → v < 256
    → has_vector ws v ≡ false
    → drop_vector (add_vector ws v) v ≡ ws
unfolding drop_vector add_vector has_vector
drop_vector-add_vector ws v ok h off =
    set-set ws (v / 32) _ _
    ∙ ap (set ws (v / 32)) (
        ap (λ x. clear 32 x (2 ^ (v % 32)))
          (get_or-set_self ws (v / 32) _ 0 (omega (arith, ok.words)))
        ∙ undone)
    ∙ set-get_or ws (v / 32) 0
  where
    undone :
        clear 32 (bit_or (get_or ws (v / 32) 0) (2 ^ (v % 32))) (2 ^ (v % 32))
        ≡ get_or ws (v / 32) 0
    undone = bit_ext _ (get_or ws (v / 32) 0) (λ j.
        bit-clear 32 (bit_or (get_or ws (v / 32) 0) (2 ^ (v % 32))) (2 ^ (v % 32)) j
          (bit_or-lt 32 _ _ (ok.fits (v / 32)) (pow_lt (v % 32) 32 (omega arith)))
        ∙ elim (ℕ_discrete (v % 32) j) [
          | yes e ↦ ground (
            arith,
            bit-bit_or (get_or ws (v / 32) 0) (2 ^ (v % 32)) j,
            bit-pow (v % 32) j,
            (==_iff (v % 32) j).1 e,
            ap (bit (get_or ws (v / 32) 0)) e,
            off,
          )
          | no ne ↦ ground (
            arith,
            bit-bit_or (get_or ws (v / 32) 0) (2 ^ (v % 32)) j,
            bit-pow (v % 32) j,
            ==_of_ne (v % 32) j ne,
          )
        ])
