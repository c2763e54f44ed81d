-- ===== src/Reader/Parts.antt =====
-- The pieces that `FrameReader` of include/shm_ipc/frame_reader.hpp takes out of the two segments are
-- pieces of the unread bytes.
use shm_cpp.Common.{
  ℕ, ◌+◌, ◌-◌, ◌≤◌, ◌<◌, ◌≡◌, sym, ap, ◌∙◌, arith, List, ◌++◌, length, take, drop, get_or, true,
  ltb, sub32, length-append, length-take, length-drop, get_or-append, get_or-take, get_or-drop,
  list_ext,
}
use shm_cpp.Ring.{Shm, IsCapacity, Segments, load, view}
use shm_cpp.Ring.Copy.{length-load, get_or-load}
use shm_cpp.Ring.Window.{Holds}
use shm_cpp.Ring.Read.{Sees}
use shm_cpp.Codec.{msg_header_size}
use shm_cpp.Reader.{copy_from_segments, header_view}
use native.Mathlib.Decide.{dec_lt}

module _ {cap : ℕ} {m : Shm} {r : ℕ} {q : List ℕ} (c : IsCapacity cap) (h : Holds cap m r q)
    {s : Segments} (v : Sees c h s) where
  area1 : s.seg1.off + s.seg1.len ≤ length m.bytes
  area1 = omega (arith, v.inside1, h.window.area)

  area2 : s.seg2.off + s.seg2.len ≤ length m.bytes
  area2 = omega (arith, v.inside2, v.inside1, h.window.area)

  at_seg1 : (i : ℕ) → i < s.seg1.len → get_or q i 0 ≡ get_or m.bytes (s.seg1.off + i) 0
  at_seg1 i k =
      ap (λ t. get_or t i 0) (sym v.seen)
      ∙ get_or-append (view m s.seg1) (view m s.seg2) i 0
      ∙ ground (
        arith,
        length-load m.bytes s.seg1.off s.seg1.len area1,
        get_or-load m.bytes s.seg1.off s.seg1.len i k,
      )

  at_seg2 :
      (i : ℕ)
      → s.seg1.len ≤ i
      → i < length q
      → get_or q i 0 ≡ get_or m.bytes (s.seg2.off + (i - s.seg1.len)) 0
  at_seg2 i k l =
      ap (λ t. get_or t i 0) (sym v.seen)
      ∙ get_or-append (view m s.seg1) (view m s.seg2) i 0
      ∙ ground (
        arith,
        length-load m.bytes s.seg1.off s.seg1.len area1,
        v.total,
        get_or-load m.bytes s.seg2.off s.seg2.len (i - s.seg1.len),
      )

  -- A list of `n` bytes that agrees with the unread bytes from `o` on.
  piece-take :
      (l : List ℕ) (o n : ℕ)
      → o + n ≤ length q
      → length l ≡ n
      → ((i : ℕ) → i < n → get_or l i 0 ≡ get_or q (o + i) 0)
      → l ≡ take n (drop o q)
  piece-take l o n few len at =
      list_ext l (take n (drop o q)) 0 (omega (arith, length-take n (drop o q), length-drop o q))
        (λ i k. at i (omega arith) ∙ sym (piece i (omega arith)))
    where
      piece : (i : ℕ) → i < n → get_or (take n (drop o q)) i 0 ≡ get_or q (o + i) 0
      piece i k = get_or-take n (drop o q) i 0 k ∙ get_or-drop o q i 0

  -- The header's eight bytes, taken from one segment or from both.
  pub header_view-take : msg_header_size ≤ length q → header_view m s ≡ take msg_header_size q
  unfolding header_view
  header_view-take few =
      piece-take (header_view m s) 0 8 few
        (ground (
          arith,
          v.total,
          area1,
          area2,
          length-load m.bytes s.seg1.off 8,
          length-append (view m s.seg1) (load m.bytes s.seg2.off (sub32 8 s.seg1.len)),
          length-load m.bytes s.seg1.off s.seg1.len,
          length-load m.bytes s.seg2.off (sub32 8 s.seg1.len),
        ))
        (λ i k. ground (
          arith,
          v.total,
          area1,
          area2,
          at_seg1 i,
          at_seg2 i,
          get_or-append (view m s.seg1) (load m.bytes s.seg2.off (sub32 8 s.seg1.len)) i 0,
          length-load m.bytes s.seg1.off s.seg1.len,
          get_or-load m.bytes s.seg1.off 8 i,
          get_or-load m.bytes s.seg1.off s.seg1.len i,
          get_or-load m.bytes s.seg2.off (sub32 8 s.seg1.len) (i - s.seg1.len),
        ))

  -- A payload that lies in the first segment.
  pub load-take :
      (offset len : ℕ)
      → offset + len ≤ s.seg1.len
      → load m.bytes (s.seg1.off + offset) len ≡ take len (drop offset q)
  load-take offset len few =
      piece-take (load m.bytes (s.seg1.off + offset) len) offset len (omega (arith, v.total))
        (length-load m.bytes (s.seg1.off + offset) len (omega (arith, area1)))
        (λ i k.
          get_or-load m.bytes (s.seg1.off + offset) len i k
          ∙ ap (λ t. get_or m.bytes t 0) (omega arith)
          ∙ sym (at_seg1 (offset + i) (omega arith)))

  -- A payload behind an offset in the first segment, when it goes on in the second.
  module _ (offset len : ℕ) (few : offset + len ≤ length q)
      (across : s.seg1.len < offset + len) where
    straddling : List ℕ
    straddling =
        load m.bytes (s.seg1.off + offset) (s.seg1.len - offset)
        ++ load m.bytes s.seg2.off (len - (s.seg1.len - offset))

    copy_straddling : offset < s.seg1.len → copy_from_segments m s offset len ≡ straddling
    unfolding copy_from_segments straddling
    copy_straddling first =
        rw (inside, rest_of_first)
          (ground (arith, ap (λ t. load m.bytes t (len - (s.seg1.len - offset))) no_offset))
      where
        inside : ltb offset s.seg1.len ≡ true
        inside = ground arith

        rest_of_first : sub32 s.seg1.len offset ≡ s.seg1.len - offset
        rest_of_first = omega (arith, v.total, h.window.size, c.fits)

        no_offset : s.seg2.off + 0 ≡ s.seg2.off
        no_offset = omega arith

    copy_behind :
        s.seg1.len ≤ offset
        → copy_from_segments m s offset len ≡ load m.bytes (s.seg2.off + (offset - s.seg1.len)) len
    unfolding copy_from_segments
    copy_behind past = ground (arith, v.total, h.window.size, c.fits)

    straddling-take : offset < s.seg1.len → straddling ≡ take len (drop offset q)
    unfolding straddling
    straddling-take first =
        piece-take straddling offset len few
          (ground (
            arith,
            v.total,
            area1,
            area2,
            length-append first_part second_part,
            length-load m.bytes (s.seg1.off + offset) (s.seg1.len - offset),
            length-load m.bytes s.seg2.off (len - (s.seg1.len - offset)),
          ))
          (λ i k. ground (
            arith,
            v.total,
            area1,
            area2,
            at_seg1 (offset + i),
            at_seg2 (offset + i),
            get_or-append first_part second_part i 0,
            length-load m.bytes (s.seg1.off + offset) (s.seg1.len - offset),
            get_or-load m.bytes (s.seg1.off + offset) (s.seg1.len - offset) i,
            get_or-load m.bytes s.seg2.off (len - (s.seg1.len - offset))
                (i - (s.seg1.len - offset)),
          ))
      where
        first_part : List ℕ
        first_part = load m.bytes (s.seg1.off + offset) (s.seg1.len - offset)

        second_part : List ℕ
        second_part = load m.bytes s.seg2.off (len - (s.seg1.len - offset))

    behind-take :
        s.seg1.len ≤ offset
        → load m.bytes (s.seg2.off + (offset - s.seg1.len)) len ≡ take len (drop offset q)
    behind-take past =
        piece-take (load m.bytes (s.seg2.off + (offset - s.seg1.len)) len) offset len few
          (length-load m.bytes (s.seg2.off + (offset - s.seg1.len)) len
            (omega (arith, v.total, area2)))
          (λ i k.
            get_or-load m.bytes (s.seg2.off + (offset - s.seg1.len)) len i k
            ∙ ap (λ t. get_or m.bytes t 0) (omega arith)
            ∙ sym (at_seg2 (offset + i) (omega arith) (omega arith)))

    pub copy_from_segments-take : copy_from_segments m s offset len ≡ take len (drop offset q)
    copy_from_segments-take = elim (dec_lt offset s.seg1.len) [
      | yes first ↦ copy_straddling first ∙ straddling-take first
      | no past ↦ copy_behind (omega arith) ∙ behind-take (omega arith)
    ]
