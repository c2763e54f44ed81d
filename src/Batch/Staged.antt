-- ===== src/Batch/Staged.antt =====
-- What a batch writer has staged, against the bytes published so far. The reader may take bytes in
-- the meantime: it changes `read_pos` alone, which nothing here depends on.
use shm_cpp.Common.{
  ℕ, ◌+◌, ◌-◌, ◌%◌, ◌≤◌, ◌<◌, ◌≡◌, refl, arith, Bool, true, not, some, List, [], ◌++◌, append_assoc,
  append-nil, length, take, drop, u32_mod, u64_mod, add64, sub64, ltb, ◌==◌, ◌||◌, if◌then◌else◌,
  length-append, length-take, length-drop, take-length_append, take-append_more, nil_of_length,
  length-drop, take-length_append,
}
use shm_cpp.Ring.{Shm, ok, err, IsCapacity, max_write_size, memcpy, ring_phys, ring_copy_in}
use shm_cpp.Ring.Window.{Window, Holds, Window-copy_in, Window-take, Window-drop}
use shm_cpp.Batch.{
  Batch, start, try_write, flush, pending_bytes, cancel, rewind_to, free_bytes, reserve,
  commit_reserve, fill,
}

-- At its construction the writer saw read position `s`. From there on `sent` is published (the reader
-- may have taken some of it since) and `p` is staged.
pub record Staged (cap : ℕ) (m : Shm) (b : Batch) (s : ℕ) (sent p : List ℕ) : Type 0 where
  pub window : Window cap m.bytes s (sent ++ p)
  pub live : b.live ≡ true
  pub from : b.r ≡ s % u64_mod
  pub begun : b.w_start ≡ (s + length sent) % u64_mod
  pub ends : b.w ≡ (s + length sent + length p) % u64_mod
  pub published : m.write_pos ≡ (s + length sent) % u64_mod

-- Whether a write of `len` bytes is accepted behind `n` bytes that still count as unread.
abbrev pub accepts : ℕ → ℕ → ℕ → Bool
accepts cap n len = not (len == 0 || ltb (max_write_size cap) len || ltb cap (n + len))

pub start-Staged :
    {cap : ℕ} {m : Shm} {r : ℕ} {q : List ℕ} → Holds cap m r q → Staged cap m (start m) r q []
unfolding start
start-Staged {q} h = record {
  window = rw (append-nil q) h.window;
  live = refl;
  from = h.reads;
  begun = h.writes;
  ends = omega (arith, h.writes);
  published = h.writes;
}

module _ {cap : ℕ} {m : Shm} {b : Batch} {s : ℕ} {sent p : List ℕ} (c : IsCapacity cap)
    (g : Staged cap m b s sent p) where
  small : length sent + length p ≤ cap
  small = omega (arith, g.window.size, length-append sent p)

  pub pending_bytes-length : pending_bytes b ≡ length p
  unfolding pending_bytes
  pending_bytes-length = omega (arith, small, g.begun, g.ends, c.fits)

  pub free_bytes-length : free_bytes cap b ≡ cap - (length sent + length p)
  unfolding free_bytes
  free_bytes-length = omega (arith, small, g.from, g.ends, c.fits)

  pub used : (len : ℕ) → len < u32_mod → sub64 (add64 b.w len) b.r ≡ length sent + length p + len
  used len h = omega (arith, small, g.from, g.ends, c.fits)

  -- Staging bytes that fit, and publishing nothing.
  pub write-Staged :
      (src : List ℕ) (len : ℕ)
      → len ≤ length src
      → length sent + length p + len ≤ cap
      → Staged cap
          (record m { bytes = ring_copy_in cap m.bytes (ring_phys cap b.w) src len })
          (record b { w = add64 b.w len; count = b.count + 1 })
          s
          sent
          (p ++ take len src)
  write-Staged src len given room = record {
    window =
        rw (← append_assoc sent p (take len src), at_end)
          (Window-copy_in c g.window src len given (omega (arith, length-append sent p)));
    live = g.live;
    from = g.from;
    begun = g.begun;
    ends = omega (arith, g.ends, length-append p (take len src), length-take len src);
    published = g.published;
  }
    where
      at_end : b.w ≡ (s + length (sent ++ p)) % u64_mod
      at_end = omega (arith, g.ends, length-append sent p)

  -- `TryWrite` stages the bytes behind the staged ones exactly if the length is allowed and they fit
  -- behind the read position that the writer saw, and else changes neither bytes nor count.
  pub try_write-Staged :
      (src : List ℕ) (len : ℕ)
      → len ≤ length src
      → len < u32_mod
      → let (code, m', b') = try_write cap m b (some src) len in
        let fits = accepts cap (length sent + length p) len in
        (code ≡ (if fits then ok else err))
        × Staged cap m' b' s sent (if fits then p ++ take len src else p)
        × (b'.count ≡ (if fits then b.count + 1 else b.count))
        × (m'.read_pos ≡ m.read_pos)
  unfolding try_write
  try_write-Staged src len given small_len =
      rw (used len small_len) (ground (arith, write-Staged src len given))

  -- While bytes are staged, a reader that has taken `d` bytes since the start sees the rest of the
  -- published ones, and none of the staged ones.
  pub Staged-Holds :
      (d : ℕ) → d ≤ length sent → m.read_pos ≡ (s + d) % u64_mod → Holds cap m (s + d) (drop d sent)
  Staged-Holds d h e = record {
    window = Window-drop c only_sent d h;
    reads = e;
    writes = omega (arith, g.published, length-drop d sent);
  }
    where
      only_sent : Window cap m.bytes s sent
      only_sent =
          rw (take-length_append sent p) at
            (Window-take c g.window (length sent) (omega (arith, length-append sent p)))

  publish-Staged :
      Staged cap
        (record m { write_pos = b.w })
        (record b { w_start = b.w; count = 0 })
        s
        (sent ++ p)
        []
  publish-Staged = record {
    window = rw (append-nil (sent ++ p)) g.window;
    live = g.live;
    from = g.from;
    begun = omega (arith, g.ends, length-append sent p);
    ends = omega (arith, g.ends, length-append sent p);
    published = omega (arith, g.ends, length-append sent p);
  }

  idle-Staged : b.w ≡ b.w_start → Staged cap m (record b { count = 0 }) s (sent ++ p) []
  idle-Staged e =
      rw (no_bytes, append-nil sent)
        (record {
          window = rw (append-nil sent) (rw (no_bytes, append-nil sent) at g.window);
          live = g.live;
          from = g.from;
          begun = g.begun;
          ends = omega (arith, g.begun, e);
          published = g.published;
        })
    where
      no_bytes : p ≡ []
      no_bytes = nil_of_length p (omega (arith, small, g.begun, g.ends, c.fits))

  -- `Flush` publishes all staged bytes at once and answers the number of writes.
  pub flush-Staged :
      let (n, m', b') = flush m b in
      (n ≡ b.count)
      × Staged cap m' b' s (sent ++ p) []
      × (b'.count ≡ 0)
      × (m'.read_pos ≡ m.read_pos)
      × (m'.bytes ≡ m.bytes)
  unfolding flush
  flush-Staged = rw g.live (ground (arith, publish-Staged, idle-Staged))

  pub cancel-Staged : Staged cap m (cancel b) s sent []
  unfolding cancel
  cancel-Staged = record {
    window = rw (append-nil sent) (
        rw (take-length_append sent p) at
          (Window-take c g.window (length sent) (omega (arith, length-append sent p))));
    live = g.live;
    from = g.from;
    begun = g.begun;
    ends = omega (arith, g.begun);
    published = g.published;
  }

  -- `RewindTo` keeps exactly the first `n` bytes of what is staged, if there are as many.
  pub rewind_to-Staged : (n k : ℕ) → n ≤ length p → Staged cap m (rewind_to b n k) s sent (take n p)
  unfolding rewind_to
  rewind_to-Staged n k h = record {
    window =
        rw (← take-append_more sent p (length sent + n) n refl)
          (Window-take c g.window (length sent + n) (omega (arith, length-append sent p)));
    live = g.live;
    from = g.from;
    begun = g.begun;
    ends = omega (arith, g.begun, length-take n p);
    published = g.published;
  }

  -- The bytes that are filled in where `Reserve` points are staged by `CommitReserve`.
  pub reserve-Staged :
      (len off : ℕ) (src : List ℕ)
      → len ≤ length src
      → len < u32_mod
      → reserve cap b len ≡ some off
      → Staged cap (fill m off src len) (commit_reserve b len) s sent (p ++ take len src)
  unfolding reserve fill commit_reserve
  reserve-Staged len off src given small_len e =
      let (at_end, room, contig) = found in
      rw (at_end, ← copied contig) (write-Staged src len given room)
    where
      found :
          (off ≡ ring_phys cap b.w)
          × (length sent + length p + len ≤ cap)
          × (len ≤ cap - ring_phys cap b.w)
      found = ground (arith, used len small_len)

      copied :
          len ≤ cap - ring_phys cap b.w
          → ring_copy_in cap m.bytes (ring_phys cap b.w) src len
            ≡ memcpy m.bytes (ring_phys cap b.w) src len
      copied h = unfold ring_copy_in in ground arith
