-- ===== src/Virtio/Chains.antt =====
-- The outer loop of vq_getchain in src/lib/virtio.c against the requests that are in order.
use hyperkit.Base.{
  ℕ, zero, suc, ◌+◌, ◌/◌, ◌%◌, ◌≤◌, ◌<◌, ◌≡◌, ◌≢◌, refl, sym, ap, ap₂, ◌∙◌, Bool, true, false, not,
  ◌||◌, ◌==◌, ==_iff, ==_of_ne, List, [], ◌∷◌, ◌++◌, arith, ltb, leb, if◌then◌else◌, length,
  length-append, Bool-cases, inl, inr, Option, none, some,
}
use hyperkit.Virtio.Memory.{Desc, Guest, Vector}
use hyperkit.Virtio.Getchain.{
  Walk, ended, refused, null_table, out_of_fuel, max_descriptors, has_next, is_indirect, vq_record,
  enter, visit, proceed, chain_loop,
}
use hyperkit.Virtio.Requests.{
  Table, last, more, Entry, direct, table, Request, final, chained, recorded,
}
use hyperkit.Virtio.Tables.{indirect_sound, indirect_complete, indirect_fuel}

recorded-append :
    (ds es : List Desc) (i : ℕ) (iov : Vector)
    → recorded i (ds ++ es) iov ≡ recorded (i + length ds) es (recorded i ds iov)
unfolding recorded
recorded-append [] es i iov = ap (λ j. recorded j es iov) (omega arith)
recorded-append (d ∷ ds) es i iov =
    recorded-append ds es (i + 1) (vq_record i d iov)
    ∙ ap (λ j. recorded j es (recorded (i + 1) ds (vq_record i d iov))) (omega arith)

module _ (g : Guest) (indirect_ok : Bool) where
  -- What a round that ended has counted and recorded.
  record Visited (d : Desc) (i : ℕ) (iov : Vector) (j : ℕ) (out : Vector) : Type 0 where
    ds : List Desc
    valid : Entry g indirect_ok d ds
    count : i + length ds ≡ j
    short : j ≤ max_descriptors
    segments : recorded i ds iov ≡ out

  visit_sound :
      (d : Desc) (i : ℕ) (iov : Vector) (j : ℕ) (out : Vector)
      → i < max_descriptors
      → visit g indirect_ok d i iov ≡ ended j out
      → Visited d i iov j out
  unfolding visit enter recorded
  visit_sound d i iov j out h e =
      go (is_indirect d) indirect_ok (d.len % 16 == 0) (d.len / 16 == 0) (g.table_at d.addr d.len)
        refl refl refl refl refl e
    where
      go :
          (a b c z : Bool) (t : Option (ℕ → Desc))
          → is_indirect d ≡ a
          → indirect_ok ≡ b
          → (d.len % 16 == 0) ≡ c
          → (d.len / 16 == 0) ≡ z
          → g.table_at d.addr d.len ≡ t
          → (if not a
              then ended (i + 1) (vq_record i d iov)
              else if not b
              then refused
              else if not c || z
              then refused
              else enter t (d.len / 16) i iov)
            ≡ ended j out
          → Visited d i iov j out
      go false b c z t p q r s m e = record {
        ds = d ∷ [];
        valid = direct p;
        count = ground arith;
        short = ground arith;
        segments = ground arith;
      }
      go true false c z t p q r s m e = cc
      go true true false z t p q r s m e = cc
      go true true true true t p q r s m e = cc
      go true true true false none p q r s m e = cc
      go true true true false (some f) p q r s m e =
          let w = indirect_sound f (d.len / 16) (max_descriptors + 1) 0 i iov j out e in
          record {
            ds = w.ds;
            valid = table w.ds f p q (ground arith) (ground arith) m w.valid;
            count = w.count;
            short = w.short;
            segments = w.segments;
          }

  visit_complete :
      {d : Desc} {ds : List Desc} (i : ℕ) (iov : Vector)
      → Entry g indirect_ok d ds
      → i + length ds ≤ max_descriptors
      → visit g indirect_ok d i iov ≡ ended (i + length ds) (recorded i ds iov)
  unfolding visit enter recorded
  visit_complete i iov (direct p) h = rw p
  visit_complete {d} i iov (table ds f p q r s m t) h =
      rw (p, q, (==_iff _ 0).1 r, ==_of_ne _ 0 s, m)
        (indirect_complete f (d.len / 16) (max_descriptors + 1) i iov t h (omega arith))

  enter_fuel :
      (t : Option (ℕ → Desc)) (n i : ℕ) (iov : Vector)
      → i ≤ max_descriptors
      → enter t n i iov ≢ out_of_fuel
  unfolding enter
  enter_fuel none n i iov h e = cc
  enter_fuel (some f) n i iov h e =
      indirect_fuel f n (max_descriptors + 1) 0 i iov h (omega arith) e

  visit_fuel :
      (d : Desc) (i : ℕ) (iov : Vector)
      → i ≤ max_descriptors
      → visit g indirect_ok d i iov ≢ out_of_fuel
  unfolding visit
  visit_fuel d i iov h e = ground (arith, enter_fuel (g.table_at d.addr d.len) (d.len / 16) i iov h)

  Entry-pos : {d : Desc} {ds : List Desc} → Entry g indirect_ok d ds → 0 < length ds
  Entry-pos (direct p) = omega arith
  Entry-pos (table ds f p q r s m t) = Table-pos t
    where
      Table-pos : {f : ℕ → Desc} {n k : ℕ} {l : List Desc} → Table f n k l → 0 < length l
      Table-pos (last next a b) = omega arith
      Table-pos (more next l a b c u) = omega arith

  module _ (qsize : ℕ) where
    -- The request that a walk has followed to its end.
    pub record Requested (next i : ℕ) (iov : Vector) (j : ℕ) (out : Vector) : Type 0 where
      pub ds : List Desc
      pub valid : Request g qsize indirect_ok next ds
      pub count : i + length ds ≡ j
      pub short : j ≤ max_descriptors
      pub segments : recorded i ds iov ≡ out

    pub chain_sound :
        (fuel next i : ℕ) (iov : Vector) (j : ℕ) (out : Vector)
        → chain_loop g qsize indirect_ok fuel next i iov ≡ ended j out
        → Requested next i iov j out
    unfolding chain_loop proceed
    chain_sound zero next i iov j out e = cc
    chain_sound (suc fuel) next i iov j out e =
        go (ltb i max_descriptors) (leb qsize next) (visit g indirect_ok vdir i iov) (has_next vdir)
          refl refl refl refl e (λ k mid. chain_sound fuel vdir.next k mid j out)
      where
        vdir : Desc
        vdir = g.desc next

        rest : ℕ → Vector → Walk
        rest k mid = chain_loop g qsize indirect_ok fuel vdir.next k mid

        go :
            (a b : Bool) (w : Walk) (c : Bool)
            → ltb i max_descriptors ≡ a
            → leb qsize next ≡ b
            → visit g indirect_ok vdir i iov ≡ w
            → has_next vdir ≡ c
            → (if not a then refused else if b then refused else proceed vdir w rest) ≡ ended j out
            → ((k : ℕ) (mid : Vector) → rest k mid ≡ ended j out → Requested vdir.next k mid j out)
            → Requested next i iov j out
        go false b w c p q v s e ih = cc
        go true true w c p q v s e ih = cc
        go true false refused c p q v s e ih = cc
        go true false null_table c p q v s e ih = cc
        go true false out_of_fuel c p q v s e ih = cc
        go true false (ended k mid) false p q v s e ih =
            let u = visit_sound vdir i iov k mid (ground arith) v in
            let stop : ended k mid ≡ ended j out = rw s at e in
            record {
              ds = u.ds;
              valid = final next u.ds (ground arith) u.valid s;
              count = u.count ∙ ground arith;
              short = ground (arith, u.short);
              segments = u.segments ∙ ground arith;
            }
        go true false (ended k mid) true p q v s e ih =
            let u = visit_sound vdir i iov k mid (ground arith) v in
            let on : rest k mid ≡ ended j out = rw s at e in
            let r = ih k mid on in
            record {
              ds = u.ds ++ r.ds;
              valid = chained next u.ds r.ds (ground arith) u.valid s r.valid;
              count = omega (arith, length-append u.ds r.ds, u.count, r.count);
              short = r.short;
              segments =
                  recorded-append u.ds r.ds i iov
                  ∙ ap₂ (λ t l. recorded t r.ds l) u.count u.segments
                  ∙ r.segments;
            }

    room : (i : ℕ) → i < max_descriptors → ltb i max_descriptors ≡ true
    room i h = ground arith

    inside : (next : ℕ) → next < qsize → leb qsize next ≡ false
    inside next h = ground arith

    pub chain_complete :
        (fuel i : ℕ) (iov : Vector) {next : ℕ} {ds : List Desc}
        → Request g qsize indirect_ok next ds
        → i + length ds ≤ max_descriptors
        → max_descriptors < i + fuel
        → chain_loop g qsize indirect_ok fuel next i iov ≡ ended (i + length ds) (recorded i ds iov)
    unfolding chain_loop proceed
    chain_complete zero i iov r h k = absurd (omega arith)
    chain_complete (suc fuel) i iov (final next ds p t s) h k =
        rw (room i (omega (arith, Entry-pos t)), inside next p, visit_complete i iov t h, s)
    chain_complete (suc fuel) i iov (chained next ds es p t s r) h k =
        rw
          (
            room i (omega (arith, Entry-pos t, length-append ds es)),
            inside next p,
            visit_complete i iov t (omega (arith, length-append ds es)),
            s,
          )
          (chain_complete fuel (i + length ds) (recorded i ds iov) r
              (omega (arith, length-append ds es)) (omega (arith, Entry-pos t))
            ∙ ap₂ ended (omega (arith, length-append ds es)) (sym (recorded-append ds es i iov)))

    pub chain_fuel :
        (fuel next i : ℕ) (iov : Vector)
        → i ≤ max_descriptors
        → max_descriptors < i + fuel
        → chain_loop g qsize indirect_ok fuel next i iov ≢ out_of_fuel
    unfolding chain_loop proceed
    chain_fuel zero next i iov h k e = omega arith
    chain_fuel (suc fuel) next i iov h k e =
        go (ltb i max_descriptors) (leb qsize next) (visit g indirect_ok vdir i iov) refl refl e
          (λ j out. chain_fuel fuel vdir.next j out)
      where
        vdir : Desc
        vdir = g.desc next

        rest : ℕ → Vector → Walk
        rest j out = chain_loop g qsize indirect_ok fuel vdir.next j out

        go :
            (a b : Bool) (w : Walk)
            → ltb i max_descriptors ≡ a
            → visit g indirect_ok vdir i iov ≡ w
            → (if not a then refused else if b then refused else proceed vdir w rest) ≡ out_of_fuel
            → ((j : ℕ) (out : Vector)
                → j ≤ max_descriptors
                → max_descriptors < j + fuel
                → rest j out ≢ out_of_fuel)
            → ⊥
        go false b w p v e ih = cc
        go true true w p v e ih = cc
        go true false refused p v e ih = cc
        go true false null_table p v e ih = cc
        go true false out_of_fuel p v e ih = visit_fuel vdir i iov h v
        go true false (ended j out) p v e ih =
            let u = visit_sound vdir i iov j out (ground arith) v in
            elim (Bool-cases (has_next vdir)) [
              | inl s ↦
                  let on : rest j out ≡ out_of_fuel = rw s at e in
                  ih j out u.short (omega (arith, u.count, Entry-pos u.valid)) on
              | inr s ↦ let stop : ended j out ≡ out_of_fuel = rw s at e in cc
            ]
