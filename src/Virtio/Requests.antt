-- ===== src/Virtio/Requests.antt =====
-- What a guest's request is, apart from the code: a chain of descriptors, some of which may stand
-- for a table of further ones. vq_getchain of src/lib/virtio.c is measured by it.
use hyperkit.Base.{ℕ, ◌+◌, ◌/◌, ◌%◌, ◌<◌, ◌≡◌, ◌≢◌, Bool, true, false, List, [], ◌∷◌, ◌++◌, some}
use hyperkit.Virtio.Memory.{Desc, Guest, Vector}
use hyperkit.Virtio.Getchain.{has_next, is_indirect, vq_record}

-- The descriptors of a table from an index on: none is indirect, and each names the next one, within
-- the table, or is the last.
pub data Table (table : ℕ → Desc) (n : ℕ) : ℕ → List Desc → Type 0 where
  last :
      (next : ℕ)
      → is_indirect (table next) ≡ false
      → has_next (table next) ≡ false
      → Table table n next (table next ∷ [])
  more :
      (next : ℕ) (ds : List Desc)
      → is_indirect (table next) ≡ false
      → has_next (table next) ≡ true
      → (table next).next < n
      → Table table n (table next).next ds
      → Table table n next (table next ∷ ds)

-- What one descriptor of the queue stands for: itself, or the table that it gives the address of,
-- if the device allows that, the length is that of one or more descriptors, and the table is in the
-- guest's memory.
pub data Entry (g : Guest) (indirect_ok : Bool) (d : Desc) : List Desc → Type 0 where
  direct : is_indirect d ≡ false → Entry g indirect_ok d (d ∷ [])
  table :
      (ds : List Desc) (vindir : ℕ → Desc)
      → is_indirect d ≡ true
      → indirect_ok ≡ true
      → d.len % 16 ≡ 0
      → d.len / 16 ≢ 0
      → g.table_at d.addr d.len ≡ some vindir
      → Table vindir (d.len / 16) 0 ds
      → Entry g indirect_ok d ds

-- A request from an index of the queue's table on, with all its descriptors.
pub data Request (g : Guest) (qsize : ℕ) (indirect_ok : Bool) : ℕ → List Desc → Type 0 where
  final :
      (next : ℕ) (ds : List Desc)
      → next < qsize
      → Entry g indirect_ok (g.desc next) ds
      → has_next (g.desc next) ≡ false
      → Request g qsize indirect_ok next ds
  chained :
      (next : ℕ) (ds es : List Desc)
      → next < qsize
      → Entry g indirect_ok (g.desc next) ds
      → has_next (g.desc next) ≡ true
      → Request g qsize indirect_ok (g.desc next).next es
      → Request g qsize indirect_ok next (ds ++ es)

-- The vector with the descriptors recorded from place i on.
unfoldable pub recorded : ℕ → List Desc → Vector → Vector
recorded i [] iov = iov
recorded i (d ∷ ds) iov = recorded (i + 1) ds (vq_record i d iov)
