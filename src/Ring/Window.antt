-- ===== src/Ring/Window.antt =====
-- The bytes between two positions of the ring. `r` counts every byte ever read, without wrapping.
use shm_cpp.Common.{
  ℕ, ◌+◌, ◌-◌, ◌%◌, ◌≤◌, ◌<◌, ◌≡◌, sym, ◌∙◌, ap, arith, List, ◌++◌, length, take, drop, get_or,
  u64_mod, length-append, length-take, length-drop, get_or-append, get_or-take, get_or-drop,
  list_ext, ltb, if◌then◌else◌,
}
use shm_cpp.Ring.{Shm, IsCapacity, ring_phys, ring_copy_out, ring_copy_in}
use shm_cpp.Ring.Capacity.{ring_phys-mod, mod_wrap}
use shm_cpp.Ring.Copy.{
  Goes, length-ring_copy_out, get_or-ring_copy_out, length-ring_copy_in, get_or-ring_copy_in_new,
  get_or-ring_copy_in_old,
}
use native.Mathlib.Nat.{mod-lt, add_assoc}
use native.Mathlib.Decide.{dec_lt}

-- The data area `b` holds the bytes `q` from position `r` on.
pub record Window (cap : ℕ) (b : List ℕ) (r : ℕ) (q : List ℕ) : Type 0 where
  pub area : length b ≡ cap
  pub size : length q ≤ cap
  pub at : (i : ℕ) → i < length q → get_or b ((r + i) % cap) 0 ≡ get_or q i 0

-- The shared memory holds the unread bytes `q`, the first at position `r`.
pub record Holds (cap : ℕ) (m : Shm) (r : ℕ) (q : List ℕ) : Type 0 where
  pub window : Window cap m.bytes r q
  pub reads : m.read_pos ≡ r % u64_mod
  pub writes : m.write_pos ≡ (r + length q) % u64_mod

module _ {cap : ℕ} (c : IsCapacity cap) where
  pub phys-lt : (x : ℕ) → x % cap < cap
  phys-lt x = mod-lt x (omega arith)

  Goes-mod : (r i : ℕ) → i ≤ cap → Goes cap (r % cap) i ((r + i) % cap)
  Goes-mod r i h = ground (arith, mod_wrap {cap = cap} r i (omega arith) h)

  module _ {b : List ℕ} {r : ℕ} {q : List ℕ} (w : Window cap b r q) where
    -- Reading from the window's start gives the first bytes of the window.
    pub Window-copy_out :
        (n : ℕ) → n ≤ length q → ring_copy_out cap b (ring_phys cap (r % u64_mod)) n ≡ take n q
    Window-copy_out n h = rw (ring_phys-mod c r) (
        list_ext (ring_copy_out cap b (r % cap) n) (take n q) 0
          (omega (arith, len, length-take n q)) (λ i k. at_index i (omega (arith, len))))
      where
        len : length (ring_copy_out cap b (r % cap) n) ≡ n
        len = length-ring_copy_out cap b (r % cap) n w.area (phys-lt r) (omega (arith, w.size))

        at_index :
            (i : ℕ) → i < n → get_or (ring_copy_out cap b (r % cap) n) i 0 ≡ get_or (take n q) i 0
        at_index i k =
            get_or-ring_copy_out cap b (r % cap) n w.area (phys-lt r) (omega (arith, w.size)) i
              ((r + i) % cap) k (phys-lt (r + i)) (Goes-mod r i (omega (arith, w.size)))
            ∙ w.at i (omega arith)
            ∙ sym (get_or-take n q i 0 k)

    pub Window-take : (n : ℕ) → n ≤ length q → Window cap b r (take n q)
    Window-take n h = record {
      area = w.area;
      size = omega (arith, length-take n q, w.size);
      at = λ i k.
          w.at i (omega (arith, length-take n q))
          ∙ sym (get_or-take n q i 0 (omega (arith, length-take n q)));
    }

    pub Window-drop : (n : ℕ) → n ≤ length q → Window cap b (r + n) (drop n q)
    Window-drop n h = record {
      area = w.area;
      size = omega (arith, length-drop n q, w.size);
      at = λ i k.
          ap (λ t. get_or b (t % cap) 0) (add_assoc r n i)
          ∙ w.at (n + i) (omega (arith, length-drop n q))
          ∙ sym (get_or-drop n q i 0);
    }

  -- Steps from the end of a window of `n` bytes, and back to a byte inside it.
  pub Goes-new : (r n i : ℕ) → n ≤ i → i ≤ cap → Goes cap ((r + n) % cap) (i - n) ((r + i) % cap)
  Goes-new r n i h k = ground (
    arith,
    mod_wrap {cap = cap} r n (omega arith) (omega arith),
    mod_wrap {cap = cap} r i (omega arith) k,
    phys-lt (r + i),
    phys-lt (r + n),
    phys-lt r,
  )

  pub not-Goes_old :
      (r n i k m : ℕ) → i < n → k < m → n + m ≤ cap → ¬ (Goes cap ((r + n) % cap) k ((r + i) % cap))
  not-Goes_old r n i k m h hk room g = ground (
    arith,
    mod_wrap {cap = cap} r n (omega arith) (omega arith),
    mod_wrap {cap = cap} r i (omega arith) (omega arith),
    phys-lt (r + i),
    phys-lt (r + n),
    phys-lt r,
  )

  module _ {b : List ℕ} {r : ℕ} {q : List ℕ} (w : Window cap b r q) (src : List ℕ) (n : ℕ)
      (given : n ≤ length src) (room : length q + n ≤ cap) where
    written : List ℕ
    written = ring_copy_in cap b ((r + length q) % cap) src n

    written-at :
        (i : ℕ)
        → i < length q + n
        → get_or written ((r + i) % cap) 0
          ≡ (if ltb i (length q) then get_or q i 0 else get_or (take n src) (i - length q) 0)
    unfolding written
    written-at i h = elim (dec_lt i (length q)) [
      | yes old ↦
          get_or-ring_copy_in_old cap b _ n w.area (phys-lt _) (omega arith) src given
            ((r + i) % cap) (phys-lt _) (λ k hk. not-Goes_old r (length q) i k n old hk room)
          ∙ w.at i old
          ∙ ground arith
      | no new ↦
          get_or-ring_copy_in_new cap b _ n w.area (phys-lt _) (omega arith) src given
            (i - length q) ((r + i) % cap) (omega arith) (phys-lt _)
            (Goes-new r (length q) i (omega arith) (omega arith))
          ∙ ground (arith, get_or-take n src (i - length q) 0)
    ]

    -- Writing at the window's end extends the window by what was written.
    pub Window-copy_in :
        Window cap
          (ring_copy_in cap b (ring_phys cap ((r + length q) % u64_mod)) src n)
          r
          (q ++ take n src)
    unfolding written
    Window-copy_in = rw (ring_phys-mod c (r + length q)) (record {
      area = length-ring_copy_in cap b _ n w.area (phys-lt _) (omega arith) src given;
      size = omega (arith, length-append q (take n src), length-take n src);
      at = λ i k.
          written-at i (omega (arith, length-append q (take n src), length-take n src))
          ∙ sym (get_or-append q (take n src) i 0);
    })
