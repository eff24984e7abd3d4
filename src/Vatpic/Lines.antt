-- ===== src/Vatpic/Lines.antt =====
-- The interrupt lines of src/lib/vmm/io/vatpic.c: how the request register follows the count of a
-- pin, for level and for edge triggered lines.
use hyperkit.Base.{
  ℕ, zero, suc, ◌^◌, ◌<◌, ◌≡◌, sym, ap, ◌∙◌, Bool, true, false, not, ◌&&◌, ◌||◌, ◌==◌, ==-refl,
  arith, if◌then◌else◌, get_or, set, set-set, set-get_or, get_or-set_self, bit_or,
}
use hyperkit.Base.Signed.{ℤ, pos, negsuc, is, is_positive}
use hyperkit.Base.Bits.Laws.{bit, bit-bit_or, bit-pow}
use hyperkit.Base.Bits.Words.{clear, bit-clear, clear-bit_or}
use hyperkit.Vatpic.State.{Atpic}
use hyperkit.Vatpic.Notify.{request_after, count_after, move_pin}
use hyperkit.Vatpic.Commands.{pin_accepted}
use hyperkit.Vatpic.Valid.{IsChip}

bit-set : (r i k : ℕ) → bit (bit_or r (2 ^ i)) k ≡ (bit r k || (i == k))
bit-set r i k = bit-bit_or r (2 ^ i) k ∙ ap (λ b. bit r k || b) (bit-pow i k)

bit-cleared : (r i k : ℕ) → r < 2 ^ 8 → bit (clear 8 r (2 ^ i)) k ≡ (bit r k && not (i == k))
bit-cleared r i k h = bit-clear 8 r (2 ^ i) k h ∙ ap (λ b. bit r k && not b) (bit-pow i k)

-- The request of a level triggered pin is on record exactly while its count is positive.
abbrev pub Tracks : Atpic → ℕ → Type 0
Tracks a i = bit a.request i ≡ is_positive (get_or a.acnt i (pos 0))

request_after-level :
    (r i : ℕ) (up : Bool) (old : ℤ)
    → r < 2 ^ 8
    → bit r i ≡ is_positive old
    → bit (request_after r i true old (count_after up old)) i ≡ is_positive (count_after up old)
unfolding request_after count_after
request_after-level r i true (pos zero) h e = ground (arith, bit-set r i i, ==-refl i)
request_after-level r i true (pos (suc n)) h e = ground (arith, bit-set r i i, ==-refl i)
request_after-level r i true (negsuc zero) h e = e
request_after-level r i true (negsuc (suc n)) h e = e
request_after-level r i false (pos zero) h e = e
request_after-level r i false (pos (suc zero)) h e = ground (arith, bit-cleared r i i h, ==-refl i)
request_after-level r i false (pos (suc (suc n))) h e = ground (arith, bit-set r i i, ==-refl i)
request_after-level r i false (negsuc n) h e = e

-- Asserts and deasserts of a level triggered pin, in any number and order, keep its request equal
-- to its line.
pub move_pin-Tracks :
    {a : Atpic} (i : ℕ) (up : Bool)
    → IsChip a
    → i < 8
    → Tracks a i
    → Tracks (move_pin a i true up) i
unfolding move_pin
move_pin-Tracks {a} i up v hi t =
    let old = get_or a.acnt i (pos 0) in
    request_after-level a.request i up old v.request_in t
    ∙ ap is_positive
        (sym (get_or-set_self a.acnt i (count_after up old) (pos 0) (omega (arith, v.counts))))

pin_accepted-request :
    (a : Atpic) (i : ℕ)
    → (pin_accepted a i).request
      ≡ (if is (get_or a.acnt i (pos 0)) 0 then clear 8 a.request (2 ^ i) else a.request)
unfolding pin_accepted
pin_accepted-request a i = ground arith

pin_accepted-acnt : (a : Atpic) (i : ℕ) → (pin_accepted a i).acnt ≡ a.acnt
unfolding pin_accepted
pin_accepted-acnt a i = ground arith

taken-level :
    (r i : ℕ) (c : ℤ)
    → r < 2 ^ 8
    → bit r i ≡ is_positive c
    → bit (if is c 0 then clear 8 r (2 ^ i) else r) i ≡ is_positive c
taken-level r i (pos zero) h e = ground (arith, bit-cleared r i i h)
taken-level r i (pos (suc n)) h e = ground arith
taken-level r i (negsuc n) h e = e

-- The acceptance of the interrupt keeps the request of a level triggered pin equal to its line: it
-- is not withdrawn while the line is up.
pub pin_accepted-Tracks : {a : Atpic} (i : ℕ) → IsChip a → Tracks a i → Tracks (pin_accepted a i) i
pin_accepted-Tracks {a} i v t =
    ap (λ x. bit x i) (pin_accepted-request a i)
    ∙ taken-level a.request i (get_or a.acnt i (pos 0)) v.request_in t
    ∙ ap (λ l. is_positive (get_or l i (pos 0))) (sym (pin_accepted-acnt a i))

move_pin-up :
    (a : Atpic) (i : ℕ) (lvl : Bool)
    → get_or a.acnt i (pos 0) ≡ pos 0
    → move_pin a i lvl true
      ≡ record a { acnt = set a.acnt i (pos 1); request = bit_or a.request (2 ^ i) }
unfolding move_pin
move_pin-up a i lvl e = rw e

move_pin-down :
    (a : Atpic) (i : ℕ) (lvl : Bool)
    → get_or a.acnt i (pos 0) ≡ pos 1
    → move_pin a i lvl false ≡ record a {
      acnt = set a.acnt i (pos 0);
      request = if lvl then clear 8 a.request (2 ^ i) else a.request;
    }
unfolding move_pin
move_pin-down a i lvl e = rw e

-- Up and down again from an idle line.
pulse_lem :
    (a : Atpic) (i : ℕ) (lvl : Bool)
    → get_or a.acnt i (pos 0) ≡ pos 0
    → i < 8
    → IsChip a
    → move_pin (move_pin a i lvl true) i lvl false ≡ record a {
      request =
          if lvl then clear 8 (bit_or a.request (2 ^ i)) (2 ^ i) else bit_or a.request (2 ^ i);
    }
pulse_lem a i lvl idle hi v =
    let up = record a { acnt = set a.acnt i (pos 1); request = bit_or a.request (2 ^ i) } in
    ap (λ (b : Atpic). move_pin b i lvl false) (move_pin-up a i lvl idle)
    ∙ move_pin-down up i lvl (get_or-set_self a.acnt i (pos 1) (pos 0) (omega (arith, v.counts)))
    ∙ ap
        (λ l. record a {
          acnt = l;
          request =
              if lvl then clear 8 (bit_or a.request (2 ^ i)) (2 ^ i) else bit_or a.request (2 ^ i);
        })
        back
  where
    back : set (set a.acnt i (pos 1)) i (pos 0) ≡ a.acnt
    back =
        set-set a.acnt i (pos 1) (pos 0)
        ∙ ap (set a.acnt i) (sym idle)
        ∙ set-get_or a.acnt i (pos 0)

-- A pulse on an idle edge triggered line leaves its request on record and the line idle.
pub pulse-edge :
    {a : Atpic} (i : ℕ)
    → get_or a.acnt i (pos 0) ≡ pos 0
    → i < 8
    → IsChip a
    → move_pin (move_pin a i false true) i false false
      ≡ record a { request = bit_or a.request (2 ^ i) }
pulse-edge {a} i idle hi v = pulse_lem a i false idle hi v

-- A pulse on an idle level triggered line with no request on record leaves no trace.
pub pulse-level :
    {a : Atpic} (i : ℕ)
    → get_or a.acnt i (pos 0) ≡ pos 0
    → i < 8
    → IsChip a
    → bit a.request i ≡ false
    → move_pin (move_pin a i true true) i true false ≡ a
pulse-level {a} i idle hi v off =
    pulse_lem a i true idle hi v
    ∙ ap (λ r. record a { request = r }) (clear-bit_or a.request i v.request_in hi off)
