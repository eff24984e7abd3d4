-- ===== src/Uart/Fifo.antt =====
-- The receive FIFO of the serial port in src/lib/uart_emul.c as a queue of characters.
use hyperkit.Base.{
  ℕ, zero, suc, ◌+◌, ◌-◌, ◌%◌, ◌≤◌, ◌<◌, ◌≡◌, ◌≢◌, refl, sym, ap, ap₂, ltb→lt, ◌∙◌, Bool, true,
  false, List, [], ◌∷◌, ◌++◌, arith, ltb, if◌then◌else◌, if_cases, length, get_or, set, length-set,
  get_or-set_self, get_or-set_ne, Option, none, some,
}
use native.Mathlib.Nat.{mod-add-mod, mod-lt, mod-eq_of_lt}
use hyperkit.Base.Rings.{slots_apart}
use hyperkit.Uart.State.{
  Fifo, fifosz, empty_fifo, available, put, take_out, Uart, rxfifo_putchar, rxfifo_getchar,
}

-- The n characters of a ring from place i on.
unfoldable pub chars : List ℕ → ℕ → ℕ → ℕ → List ℕ
chars buf size i zero = []
chars buf size i (suc n) = get_or buf i 0 ∷ chars buf size ((i + 1) % size) n

-- The characters that wait in the FIFO, the oldest first.
abbrev pub contents : Fifo → List ℕ
contents f = chars f.buf f.size f.rindex f.num

pub record IsFifo (f : Fifo) : Type 0 where
  pub some_size : 0 < f.size
  pub fits : f.size ≤ length f.buf
  pub from : f.rindex < f.size
  pub full : f.num ≤ f.size
  pub to : f.windex ≡ (f.rindex + f.num) % f.size

pub length-chars : (buf : List ℕ) (size i n : ℕ) → length (chars buf size i n) ≡ n
unfolding chars
length-chars buf size i zero = refl
length-chars buf size i (suc n) = ap suc (length-chars buf size ((i + 1) % size) n)

pub empty_fifo-IsFifo : (n : ℕ) → 0 < n → n ≤ fifosz → IsFifo (empty_fifo n)
empty_fifo-IsFifo n h k = record {
  some_size = h;
  fits = k;
  from = h;
  full = omega arith;
  to = sym (mod-eq_of_lt h);
}

pub put-IsFifo : (f : Fifo) (ch : ℕ) → IsFifo f → f.num < f.size → IsFifo (put f ch)
unfolding put
put-IsFifo f ch v h = record {
  some_size = v.some_size;
  fits = omega (arith, v.fits, length-set f.buf f.windex ch);
  from = v.from;
  full = omega (arith, h);
  to =
      ap (λ w. (w + 1) % f.size) v.to
      ∙ mod-add-mod (f.rindex + f.num) f.size 1
      ∙ ap (λ x. x % f.size) {y = f.rindex + (f.num + 1)} (omega arith);
}

pub take_out-IsFifo : (f : Fifo) → IsFifo f → 0 < f.num → IsFifo (take_out f)
unfolding take_out
take_out-IsFifo f v h = record {
  some_size = v.some_size;
  fits = v.fits;
  from = mod-lt (f.rindex + 1) v.some_size;
  full = omega (arith, v.full);
  to =
      v.to
      ∙ ap (λ x. x % f.size) {y = f.rindex + 1 + (f.num - 1)} (omega arith)
      ∙ sym (mod-add-mod (f.rindex + 1) f.size (f.num - 1));
}

-- A character written behind the others comes last.
chars-set :
    (n : ℕ) (buf : List ℕ) (size i ch : ℕ)
    → i < size
    → n < size
    → size ≤ length buf
    → chars (set buf ((i + n) % size) ch) size i (suc n) ≡ chars buf size i n ++ (ch ∷ [])
unfolding chars
chars-set zero buf size i ch hi hn hl =
    ap (λ w. get_or (set buf w ch) i 0 ∷ []) here
    ∙ ap (λ c. c ∷ []) (get_or-set_self buf i ch 0 (omega arith))
  where
    here : (i + 0) % size ≡ i
    here = ap (λ x. x % size) {y = i} (omega arith) ∙ mod-eq_of_lt hi
chars-set (suc n) buf size i ch hi hn hl = ap₂ ◌∷◌ (get_or-set_ne buf _ i ch 0 apart) (
    ap (λ w. chars (set buf w ch) size ((i + 1) % size) (suc n)) next
    ∙ chars-set n buf size ((i + 1) % size) ch (mod-lt (i + 1) (omega arith)) (omega arith) hl)
  where
    apart : (i + suc n) % size ≢ i
    apart e = slots_apart size i (suc n) (omega arith) hn (e ∙ sym (mod-eq_of_lt hi))

    next : (i + suc n) % size ≡ ((i + 1) % size + n) % size
    next = ap (λ x. x % size) {y = i + 1 + n} (omega arith) ∙ sym (mod-add-mod (i + 1) size n)

pub contents-put :
    (f : Fifo) (ch : ℕ) → IsFifo f → f.num < f.size → contents (put f ch) ≡ contents f ++ (ch ∷ [])
unfolding put
contents-put f ch v h =
    ap (chars (set f.buf f.windex ch) f.size f.rindex) {y = suc f.num} (omega arith)
    ∙ ap (λ w. chars (set f.buf w ch) f.size f.rindex (suc f.num)) v.to
    ∙ chars-set f.num f.buf f.size f.rindex ch v.from h v.fits

contents-take_out :
    (f : Fifo) → 0 < f.num → contents f ≡ get_or f.buf f.rindex 0 ∷ contents (take_out f)
unfolding chars take_out
contents-take_out f h = ap (chars f.buf f.size f.rindex) {y = suc (f.num - 1)} (omega arith)

-- What the watch on the terminal does not touch: the FIFO after a character is put or taken.
pub putchar-rxfifo :
    (s : Uart) (ch : ℕ)
    → (rxfifo_putchar s ch).port.rxfifo ≡ (if available s.rxfifo then put s.rxfifo ch else s.rxfifo)
unfolding rxfifo_putchar
putchar-rxfifo s ch = ground arith

pub getchar-rxfifo :
    (s : Uart)
    → (rxfifo_getchar s).port.rxfifo ≡ (if ltb 0 s.rxfifo.num then take_out s.rxfifo else s.rxfifo)
unfolding rxfifo_getchar
getchar-rxfifo s = ground arith

pub putchar-IsFifo :
    (s : Uart) (ch : ℕ) → IsFifo s.rxfifo → IsFifo (rxfifo_putchar s ch).port.rxfifo
unfolding available
putchar-IsFifo s ch v =
    rw (putchar-rxfifo s ch)
      (if_cases IsFifo (available s.rxfifo) (λ e. put-IsFifo s.rxfifo ch v (ltb→lt _ _ e)) (λ _. v))

pub getchar-IsFifo : (s : Uart) → IsFifo s.rxfifo → IsFifo (rxfifo_getchar s).port.rxfifo
getchar-IsFifo s v =
    rw (getchar-rxfifo s) (
      if_cases IsFifo (ltb 0 s.rxfifo.num) (λ e. take_out-IsFifo s.rxfifo v (ltb→lt _ _ e))
        (λ _. v))

-- rxfifo_putchar adds the character at the end of those that wait, and returns 0, exactly if fewer
-- than the FIFO's size wait, else it stores nothing, if the FIFO is in order.
pub contents-rxfifo_putchar :
    (s : Uart) (ch : ℕ)
    → IsFifo s.rxfifo
    → ((rxfifo_putchar s ch).stored ≡ ltb (length (contents s.rxfifo)) s.rxfifo.size)
      × (contents (rxfifo_putchar s ch).port.rxfifo ≡ (
          if ltb (length (contents s.rxfifo)) s.rxfifo.size
          then contents s.rxfifo ++ (ch ∷ [])
          else contents s.rxfifo))
unfolding available rxfifo_putchar
contents-rxfifo_putchar s ch v = (
  ground arith ∙ ap (λ n. ltb n f.size) (sym count),
  ap contents (putchar-rxfifo s ch)
      ∙ go (available f) refl
      ∙ ap (λ n. if ltb n f.size then contents f ++ (ch ∷ []) else contents f) (sym count),
)
  where
    f : Fifo
    f = s.rxfifo

    count : length (contents f) ≡ f.num
    count = length-chars f.buf f.size f.rindex f.num

    go :
        (b : Bool)
        → available f ≡ b
        → contents (if b then put f ch else f) ≡ (if b then contents f ++ (ch ∷ []) else contents f)
    go true e = contents-put f ch v (ltb→lt f.num f.size e)
    go false e = refl

-- The first of a list with the rest, or nothing with the list.
unfoldable pub uncons : List ℕ → Option ℕ × List ℕ
uncons [] = (none, [])
uncons (x ∷ xs) = (some x, xs)

-- rxfifo_getchar takes the oldest of the characters that wait, or returns -1 if none does.
pub contents-rxfifo_getchar :
    (s : Uart)
    → ((rxfifo_getchar s).char, contents (rxfifo_getchar s).port.rxfifo)
      ≡ uncons (contents s.rxfifo)
unfolding rxfifo_getchar uncons chars
contents-rxfifo_getchar s = go (ltb 0 f.num) refl
  where
    f : Fifo
    f = s.rxfifo

    empty : ltb 0 f.num ≡ false → contents f ≡ []
    empty e = ap (chars f.buf f.size f.rindex) {y = 0} (ground arith)

    go :
        (b : Bool)
        → ltb 0 f.num ≡ b
        → ((rxfifo_getchar s).char, contents (rxfifo_getchar s).port.rxfifo) ≡ uncons (contents f)
    go true e =
        ap₂ (λ a b. (a, b)) {y = some (get_or f.buf f.rindex 0)} (rw e refl)
          (ap contents {y = take_out f} (getchar-rxfifo s ∙ rw e refl))
        ∙ ap uncons (sym (contents-take_out f (ltb→lt 0 f.num e)))
    go false e =
        ap₂ (λ a b. (a, b)) {y = none} (rw e refl)
          (ap contents {y = f} (getchar-rxfifo s ∙ rw e refl) ∙ empty e)
        ∙ ap uncons (sym (empty e))
