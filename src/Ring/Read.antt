-- ===== src/Ring/Read.antt =====
-- The reading methods of include/shm_ipc/ringbuf.hpp against the queue of unread bytes.
use shm_cpp.Common.{
  ℕ, ◌+◌, ◌-◌, ◌%◌, ◌≤◌, ◌<◌, ◌≡◌, ◌∙◌, refl, arith, none, some, List, [], ◌++◌, length, take, drop,
  min, u32_mod, u64_mod, sub64, ltb, if◌then◌else◌, length-drop, take_all, append-nil,
}
use shm_cpp.Ring.{
  Shm, ok, err, IsCapacity, load, ring_phys, ring_copy_out, available, free_space, try_read,
  read_exact, Segments, view, peek, commit_read,
}
use shm_cpp.Ring.Window.{Holds, Window-copy_out, Window-drop, phys-lt}
use shm_cpp.Ring.Capacity.{ring_phys-mod}
use native.Mathlib.Nat.{add-zero}
use native.Mathlib.Decide.{dec_lt}

module _ {cap : ℕ} {m : Shm} {r : ℕ} {q : List ℕ} (c : IsCapacity cap) (h : Holds cap m r q) where
  avail : sub64 m.write_pos m.read_pos ≡ length q
  avail = omega (arith, h.writes, h.reads, h.window.size, c.fits)

  copied :
      (n : ℕ) → n ≤ length q → ring_copy_out cap m.bytes (ring_phys cap m.read_pos) n ≡ take n q
  copied n k = rw h.reads (Window-copy_out c h.window n k)

  -- The memory after `n` of the unread bytes were taken.
  pub read-Holds :
      (n : ℕ)
      → n ≤ length q
      → Holds cap (record m { read_pos = (m.read_pos + n) % u64_mod }) (r + n) (drop n q)
  read-Holds n k = record {
    window = Window-drop c h.window n k;
    reads = omega (arith, h.reads);
    writes = omega (arith, h.writes, length-drop n q);
  }

  pub available-length : available m ≡ length q
  unfolding available
  available-length = avail

  pub free_space-length : free_space cap m ≡ cap - length q
  unfolding free_space
  free_space-length = omega (arith, avail, h.window.size, c.fits)

  pub commit_read-Holds : (n : ℕ) → n ≤ length q → Holds cap (commit_read m n) (r + n) (drop n q)
  unfolding commit_read
  commit_read-Holds n k = read-Holds n k

  pub stays-Holds : (k : ℕ) → k ≡ 0 → Holds cap m (r + k) (drop k q)
  stays-Holds k e = rw e (rw add-zero h)

  -- `TryRead` takes the smaller of what is asked for and what is there, oldest byte first.
  pub try_read-take :
      (n : ℕ)
      → n < u32_mod
      → let k = min n (length q) in
        ((try_read cap m n).0 ≡ k)
        × ((try_read cap m n).1 ≡ take k q)
        × Holds cap (try_read cap m n).2 (r + k) (drop k q)
  unfolding try_read
  try_read-take n k =
      rw (avail, to_read)
        (ground (
          arith,
          copied (min n (length q)),
          read-Holds (min n (length q)),
          stays-Holds (min n (length q)),
        ))
    where
      to_read : (if ltb (length q) n then length q % u32_mod else n) ≡ min n (length q)
      to_read = ground (arith, h.window.size, c.fits)

  -- `ReadExact` takes all that is asked for, or nothing.
  pub read_exact-take :
      (n : ℕ)
      → n < u32_mod
      → let (code, out, m') = read_exact cap m n in
        (code ≡ (if ltb (length q) n then err else ok))
        × (out ≡ (if ltb (length q) n then [] else take n q))
        × Holds cap m'
            (if ltb (length q) n then r else r + n)
            (if ltb (length q) n then q else drop n q)
  unfolding read_exact
  read_exact-take n k = rw avail (ground (arith, copied n, read-Holds n, stays-Holds n))

  -- What `Peek` returns for the unread bytes: they lie in the two segments, inside the data area.
  pub record Sees (s : Segments) : Type 0 where
    pub seen : view m s.seg1 ++ view m s.seg2 ≡ q
    pub total : s.seg1.len + s.seg2.len ≡ length q
    pub from : s.seg1.off ≡ ring_phys cap m.read_pos
    pub inside1 : s.seg1.off + s.seg1.len ≤ cap
    pub some_first : 0 < s.seg1.len
    pub inside2 : s.seg2.off + s.seg2.len ≤ s.seg1.off
    pub wraps : 0 < s.seg2.len → s.seg1.off + s.seg1.len ≡ cap

  all_bytes : ring_copy_out cap m.bytes (ring_phys cap m.read_pos) (length q) ≡ q
  all_bytes = copied (length q) (omega arith) ∙ take_all (length q) q (omega arith)

  pub peek-empty : length q ≡ 0 → peek cap m ≡ none
  unfolding peek
  peek-empty e = rw (avail, e)

  phys_small : ring_phys cap m.read_pos < cap
  phys_small = rw (h.reads, ring_phys-mod c r) (phys-lt c r)

  -- `Peek` on a ring that holds bytes returns segments inside the data area that do not overlap and
  -- hold these bytes in order.
  pub peek-Sees : 0 < length q → (s : Segments) × (peek cap m ≡ some s) × Sees s
  unfolding peek ring_copy_out
  peek-Sees pos = elim (dec_lt (cap - ring_phys cap m.read_pos) (length q)) [
    | yes wrapped ↦ (
      record {
        seg1 = record { off = phys; len = contig };
        seg2 = record { off = 0; len = length q - contig };
      },
      rw avail (ground (arith, h.window.size, c.fits)),
      record {
        seen = ground (arith, all_bytes);
        total = omega arith;
        from = refl;
        inside1 = omega (arith, phys_small);
        some_first = omega (arith, phys_small);
        inside2 = omega (arith, h.window.size, phys_small);
        wraps = λ _. omega (arith, phys_small);
      },
    )
    | no fits ↦ (
      record { seg1 = record { off = phys; len = length q }; seg2 = record { off = 0; len = 0 } },
      rw avail (ground (arith, h.window.size, c.fits)),
      record {
        seen = ground (arith, all_bytes, append-nil (load m.bytes phys (length q)));
        total = omega arith;
        from = refl;
        inside1 = omega (arith, phys_small);
        some_first = pos;
        inside2 = omega arith;
        wraps = λ p. absurd (omega arith);
      },
    )
  ]
    where
      phys : ℕ
      phys = ring_phys cap m.read_pos

      contig : ℕ
      contig = cap - phys
