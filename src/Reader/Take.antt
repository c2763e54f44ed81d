-- ===== src/Reader/Take.antt =====
-- The frame that `TryRecv` of include/shm_ipc/frame_reader.hpp hands out, in place or in the buffer.
use shm_cpp.Common.{
  ℕ, ◌+◌, ◌%◌, ◌≤◌, ◌<◌, ◌≡◌, inl, inr, refl, sym, ap, ◌∙◌, arith, List, length, take, drop, ltb,
  leb, ◌==◌, add32, length-take, length-drop, get_or-take, Bool-cases, nil_of_length, take_all,
  take-append_le,
}
use shm_cpp.Ring.Capacity.{ring_phys-mod}
use shm_cpp.Ring.{IsCapacity, ring_phys, Segments, load, memcpy}
use shm_cpp.Ring.Copy.{length-memcpy}
use shm_cpp.Ring.Read.{Sees}
use shm_cpp.Channel.{Channel}
use shm_cpp.Codec.{msg_header_size, header_of}
use shm_cpp.Codec.Wire.{header_of-agree}
use shm_cpp.Reader.{
  FrameReader, success, too_large, Pointer, null, in_ring, in_buf, Received, header_view,
  copy_from_segments, take_frame, payload_bytes,
}
use shm_cpp.Reader.Parts.{header_view-take, load-take, copy_from_segments-take}
use shm_cpp.Reader.Frames.{message}
use shm_cpp.Reader.Ready.{Ready, Answers, Took}

module _ {cap buf_size : ℕ} {ch : Channel} {rd : FrameReader} {r : ℕ} {q : List ℕ}
    (c : IsCapacity cap) (v : Ready cap buf_size ch rd r q) (done : rd.pending_commit ≡ 0)
    {s : Segments} (seen : Sees c v.holds s) where
  pub total : add32 s.seg1.len s.seg2.len ≡ length q
  total = omega (arith, seen.total, v.holds.window.size, c.fits)

  pub head : msg_header_size ≤ length q → header_of (header_view ch.read_ring s) ≡ header_of q
  head few =
      rw (header_view-take c v.holds seen few)
        (header_of-agree (take msg_header_size q) q (λ i k. get_or-take msg_header_size q i 0 k))

  -- The body of the frame in front.
  abbrev pub body : List ℕ
  body = take (header_of q).len (drop msg_header_size q)

  module _ (few : msg_header_size + (header_of q).len ≤ length q) where
    length-body : length body ≡ (header_of q).len
    length-body = omega (
      arith,
      length-take (header_of q).len (drop msg_header_size q),
      length-drop msg_header_size q,
    )

    pub size : add32 msg_header_size (header_of q).len ≡ msg_header_size + (header_of q).len
    size = omega (arith, v.holds.window.size, c.fits)

    -- What `TryRecv` returns of the frame in front, and where it leaves the channel.
    abbrev pub Takes : Received → Type 0
    Takes x =
        Took cap buf_size ch r q x × Answers buf_size rd.hdr (message (header_of q).seq body) x

    took :
        (x : Received)
        → x.channel ≡ ch
        → Ready cap buf_size ch x.reader r q
        → (x.rc ≡ too_large → cap < r % cap + x.reader.pending_commit)
        → Took cap buf_size ch r q x
    took x e g across = record {
      crosses = across;
      ready = rw e g;
      same_write = ap (λ t. t.write_ring) e;
      same_notified = ap (λ t. t.notified) e;
    }

    keeps :
        (rd' : FrameReader)
        → rd'.pending_commit ≡ msg_header_size + (header_of q).len
        → length rd'.buf ≡ buf_size
        → Ready cap buf_size ch rd' r q
    keeps rd' e f = record { holds = v.holds; pending = omega (arith, e); buffer = f }

    -- The frame in front with the payload pointer `at`.
    abbrev hand_out : Pointer → List ℕ → Received
    hand_out at buf = record {
      rc = success;
      payload = at;
      payload_len = (header_of q).len;
      channel = ch;
      reader = record {
        hdr = header_of q;
        pending_commit = msg_header_size + (header_of q).len;
        buf = buf;
      };
    }

    delivered :
        (at : Pointer) (buf : List ℕ)
        → length buf ≡ buf_size
        → payload_bytes (hand_out at buf) ≡ body
        → Takes (hand_out at buf)
    delivered at buf same e = (
      took (hand_out at buf) refl (keeps _ refl same) (λ t. cc),
      (
        ap (λ t. msg_header_size + t) (sym length-body),
        inl (
          refl,
          sym length-body,
          e,
          ap (λ t. record { len = t; seq = (header_of q).seq }) (sym length-body),
        ),
      ),
    )

    past_end :
        s.seg1.len < msg_header_size + (header_of q).len
        → cap < r % cap + (msg_header_size + (header_of q).len)
    past_end over = omega (
      arith,
      seen.wraps (omega (arith, seen.total)),
      seen.from,
      ap (ring_phys cap) v.holds.reads ∙ ring_phys-mod c r,
    )

    refused :
        buf_size < (header_of q).len
        → s.seg1.len < msg_header_size + (header_of q).len
        → Takes (record {
          rc = too_large;
          payload = null;
          payload_len = 0;
          channel = ch;
          reader = record rd { pending_commit = msg_header_size + (header_of q).len };
        })
    refused large over = (
      took _ refl (keeps _ refl v.buffer) (λ t. past_end over),
      (
        ap (λ t. msg_header_size + t) (sym length-body),
        inr (refl, omega (arith, length-body), refl),
      ),
    )

    nothing_given :
        (header_of q).len ≡ 0
        → Takes (record {
          rc = success;
          payload = null;
          payload_len = 0;
          channel = ch;
          reader = record rd {
            hdr = header_of q;
            pending_commit = msg_header_size + (header_of q).len;
          };
        })
    nothing_given empty = (
      took _ refl (keeps _ refl v.buffer) (λ t. cc),
      (
        ap (λ t. msg_header_size + t) (sym length-body),
        inl (
          refl,
          omega (arith, length-body),
          sym (nil_of_length body (omega (arith, length-body))),
          ap (λ t. record { len = t; seq = (header_of q).seq }) (sym length-body),
        ),
      ),
    )

    copied :
        s.seg1.len < msg_header_size + (header_of q).len
        → copy_from_segments ch.read_ring s msg_header_size (header_of q).len ≡ body
    copied = copy_from_segments-take c v.holds seen msg_header_size (header_of q).len few

    written :
        (header_of q).len ≤ buf_size
        → (length (memcpy rd.buf 0 body (header_of q).len) ≡ buf_size)
          × (load (memcpy rd.buf 0 body (header_of q).len) 0 (header_of q).len ≡ body)
    written small = (
      length-memcpy rd.buf 0 body (header_of q).len (omega (arith, v.buffer))
            (omega (arith, length-body))
          ∙ v.buffer,
      take-append_le (take (header_of q).len body) (drop (0 + (header_of q).len) rd.buf)
            (header_of q).len (omega (arith, length-take (header_of q).len body, length-body))
          ∙ take_all _ _ (omega (arith, length-take (header_of q).len body))
          ∙ take_all _ _ (omega (arith, length-body)),
    )

    pub take_frame-Takes : Takes (take_frame buf_size ch rd s (header_of q))
    unfolding take_frame
    take_frame-Takes = elim (Bool-cases ((header_of q).len == 0)) [
      | inl empty ↦ rw (empty, size) (nothing_given (ground arith))
      | inr some_body ↦
          rw (some_body, size)
            (elim (Bool-cases (leb (msg_header_size + (header_of q).len) s.seg1.len)) [
              | inl inside ↦ rw inside (
                  delivered (in_ring (s.seg1.off + msg_header_size)) rd.buf v.buffer
                    (load-take c v.holds seen msg_header_size (header_of q).len (ground arith)))
              | inr across ↦ rw across (elim (Bool-cases (ltb buf_size (header_of q).len)) [
                | inl large ↦ rw large (refused (ground arith) (ground arith))
                | inr small ↦
                    let (same, e) = written (ground arith) in
                    rw (small, copied (ground arith))
                      (delivered in_buf (memcpy rd.buf 0 body (header_of q).len) same e)
              ])
            ])
    ]
