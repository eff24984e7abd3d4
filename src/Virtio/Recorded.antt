-- ===== src/Virtio/Recorded.antt =====
-- What the vector of vq_getchain in src/lib/virtio.c holds after a walk, place by place.
use hyperkit.Base.{
  ℕ, zero, suc, ◌+◌, ◌-◌, ◌≡◌, ◌<◌, refl, sym, ap, ap₂, ◌∙◌, ◌&&◌, List, [], ◌∷◌, arith, ltb, leb,
  ◌==◌, if◌then◌else◌, if_cases, ==_of_ne, ℕ_discrete, dec_lt,
}
use mathlib.Core.Path.{fun_ext}
use hyperkit.Virtio.Memory.{Desc, Segment, Vector, segment}
use hyperkit.Virtio.Getchain.{vq_record}
use hyperkit.Virtio.Requests.{recorded}

-- The segment of the descriptor at a place, or another one past the end.
unfoldable pub segment_at : List Desc → ℕ → Segment → Segment
segment_at [] k other = other
segment_at (d ∷ ds) zero other = segment d
segment_at (d ∷ ds) (suc k) other = segment_at ds k other

-- The first n_iov places have the segments in order, as far as there are any; the others, and all that
-- stands behind the vector, are as before.
pub record IsFilled (ds : List Desc) (iov out : Vector) : Type 0 where
  pub size : out.n_iov ≡ iov.n_iov
  pub cells :
      (k : ℕ)
      → out.cells k ≡ (if ltb k iov.n_iov then segment_at ds k (iov.cells k) else iov.cells k)

n_iov-vq_record : (i : ℕ) (d : Desc) (iov : Vector) → (vq_record i d iov).n_iov ≡ iov.n_iov
unfolding vq_record
n_iov-vq_record i d iov =
    if_cases (λ (v : Vector). v.n_iov ≡ iov.n_iov) (leb iov.n_iov i) (λ _. refl) (λ _. refl)

n_iov-recorded : (ds : List Desc) (i : ℕ) (iov : Vector) → (recorded i ds iov).n_iov ≡ iov.n_iov
unfolding recorded
n_iov-recorded [] i iov = refl
n_iov-recorded (d ∷ ds) i iov =
    n_iov-recorded ds (i + 1) (vq_record i d iov) ∙ n_iov-vq_record i d iov

cells-vq_record :
    (i : ℕ) (d : Desc) (iov : Vector) (k : ℕ)
    → (vq_record i d iov).cells k ≡ (if ltb k iov.n_iov && k == i then segment d else iov.cells k)
unfolding vq_record
cells-vq_record i d iov k =
    if_cases
      (λ (v : Vector). v.cells k ≡ (if ltb k iov.n_iov && k == i then segment d else iov.cells k))
      (leb iov.n_iov i) (λ e. ground (arith, e)) (λ e. ground (arith, e))

-- The place k after the segments have been recorded from place i on.
cells-recorded :
    (ds : List Desc) (i : ℕ) (iov : Vector) (k : ℕ)
    → (recorded i ds iov).cells k
      ≡ (if ltb k iov.n_iov && leb i k then segment_at ds (k - i) (iov.cells k) else iov.cells k)
unfolding recorded segment_at
cells-recorded [] i iov k = ground arith
cells-recorded (d ∷ ds) i iov k =
    cells-recorded ds (i + 1) (vq_record i d iov) k ∙ place (ℕ_discrete k i) (dec_lt k i)
  where
    x : Segment
    x = iov.cells k

    place :
        Dec (k ≡ i)
        → Dec (k < i)
        → (if ltb k (vq_record i d iov).n_iov && leb (i + 1) k
            then segment_at ds (k - (i + 1)) ((vq_record i d iov).cells k)
            else (vq_record i d iov).cells k)
          ≡ (if ltb k iov.n_iov && leb i k then segment_at (d ∷ ds) (k - i) x else x)
    place (yes e) q = ground (
      arith,
      e,
      cells-vq_record i d iov k,
      n_iov-vq_record i d iov,
      ap (λ m. segment_at (d ∷ ds) m x) {x = k - i} {y = 0} (omega (arith, e)),
    )
    place (no ne) (yes l) =
        ground (arith, ==_of_ne k i ne, cells-vq_record i d iov k, n_iov-vq_record i d iov)
    place (no ne) (no nl) = ground (
      arith,
      ==_of_ne k i ne,
      cells-vq_record i d iov k,
      n_iov-vq_record i d iov,
      ap (λ m. segment_at (d ∷ ds) m x) {x = k - i} {y = suc (k - (i + 1))} (omega arith),
    )

pub recorded-IsFilled : (ds : List Desc) (iov : Vector) → IsFilled ds iov (recorded 0 ds iov)
recorded-IsFilled ds iov = record {
  size = n_iov-recorded ds 0 iov;
  cells = λ k. cells-recorded ds 0 iov k ∙ ground arith;
}

-- Two vectors that are filled from the same one with the same segments are equal.
pub IsFilled-unique :
    {ds : List Desc} {iov a b : Vector} → IsFilled ds iov a → IsFilled ds iov b → a ≡ b
IsFilled-unique {ds} {iov} {a} {b} f g =
    ap₂ vector same_size (fun_ext (λ k. f.cells k ∙ sym (g.cells k)))
  where
    vector : ℕ → (ℕ → Segment) → Vector
    vector n c = record { n_iov = n; cells = c }

    same_size : a.n_iov ≡ b.n_iov
    same_size = f.size ∙ sym g.size
