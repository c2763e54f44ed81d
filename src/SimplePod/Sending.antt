-- ===== src/SimplePod/Sending.antt =====
-- `SendCmd` of include/shm_ipc/shm_connection.hpp with the codec of include/shm_ipc/simple_pod_codec.hpp.
use shm_cpp.Common.{
  ℕ, zero, suc, ◌+◌, ◌≤◌, ◌<◌, ◌≡◌, refl, sym, subst, ap, ◌∙◌, arith, Bool, Bool-cases, Option,
  true, false, some, inl, inr, List, ◌++◌, length, take, drop, replicate, take-length_append,
  take_all, length-append, length-take, length-drop, length-replicate, ltb, leb, ◌==◌,
}
use shm_cpp.Ring.{IsCapacity}
use shm_cpp.Ring.Window.{Holds}
use shm_cpp.Channel.{Channel}
use shm_cpp.Pod.{tag_size}
use shm_cpp.Connection.{
  Conn, is_open, encoded, resize, grow_encode_buffer, sent, answer, encode_loop, with_codec,
  send_cmd, disconnect, skip_package, need_more_buffer,
}
use shm_cpp.Connection.Chunks.{write_raw_lem}
use shm_cpp.SimplePod.{Any, Registry, Stateless, encode}
use shm_cpp.SimplePod.Registering.{IsRegistered}
use shm_cpp.SimplePod.Wire.{wire, length-wire, encode_lem}

-- The tagged object is behind the unread bytes, and the peer has been woken.
abbrev pub Arrived : ℕ → Channel → Option (Bool × Conn Stateless) → ℕ → List ℕ → Type 0
Arrived cap ch o r q =
    (d' : Conn Stateless) × (o ≡ some (true, d'))
    × Holds cap d'.channel.write_ring r q
    × (d'.channel.notified ≡ ch.notified + 1)
    × (d'.channel.read_ring ≡ ch.read_ring)

module _ {cap : ℕ} (c : IsCapacity cap) {reg : Registry} {tag : ℕ} (pkg : Any)
    (known : IsRegistered reg pkg.ty tag (length pkg.bytes)) where
  n : ℕ
  n = tag_size + length pkg.bytes

  -- The buffer that `Encode` has written to.
  front :
      (buf : List ℕ)
      → n ≤ length buf
      → take n (take (length buf) (wire tag pkg ++ drop (length (wire tag pkg)) buf)) ≡ wire tag pkg
  unfolding n
  front buf room =
      let size = length-wire pkg known refl in
      let whole : List ℕ = wire tag pkg ++ drop (length (wire tag pkg)) buf in
      ap (take n) (
        take_all (length buf) whole (
          omega (
            arith,
            length-append (wire tag pkg) (drop (length (wire tag pkg)) buf),
            length-drop (length (wire tag pkg)) buf,
            size,
          )))
      ∙ ap (λ k. take k whole) (sym size)
      ∙ take-length_append (wire tag pkg) (drop (length (wire tag pkg)) buf)

  long :
      (buf : List ℕ)
      → n ≤ length buf
      → n ≤ length (take (length buf) (wire tag pkg ++ drop (length (wire tag pkg)) buf))
  unfolding n
  long buf room =
      let size = length-wire pkg known refl in
      omega (
        arith,
        size,
        length-take (length buf) (wire tag pkg ++ drop (length (wire tag pkg)) buf),
        length-append (wire tag pkg) (drop (length (wire tag pkg)) buf),
        length-drop (length (wire tag pkg)) buf,
      )

  -- A turn with a buffer that is large enough.
  last_turn :
      (k : ℕ) (d : Conn Stateless) {r : ℕ} {q : List ℕ}
      → Holds cap d.channel.write_ring r q
      → n ≤ length d.encode_buf
      → length q + n ≤ cap
      → Arrived cap d.channel
          (encode_loop (answer cap) (encode reg pkg) (suc k) tt d)
          r
          (q ++ wire tag pkg)
  unfolding encode_loop answer encoded n
  last_turn k d {r} {q} h room fits =
      let buf' : List ℕ =
        take (length d.encode_buf) (wire tag pkg ++ drop (length (wire tag pkg)) d.encode_buf) in
      let (ch', e, holds, woken, same) =
        write_raw_lem c d.channel buf' n h (long d.encode_buf room) in
      let d1 : Conn Stateless = record d { codec = some tt; encode_buf = buf' } in
      let enough : ltb (length d.encode_buf) n ≡ false = ground arith in
      let f1 : (n == skip_package) ≡ false = ground (arith, known.size_fits) in
      let f2 : (n == disconnect) ≡ false = ground (arith, known.size_fits) in
      let f3 : (n == need_more_buffer) ≡ false = ground arith in
      let in_ring : ltb cap (length q + n) ≡ false = ground arith in
      rw (encode_lem pkg known refl d.encode_buf, enough, f1, f2, f3)
        (
          record d1 { channel = ch' },
          ap (sent d1) (rw in_ring at e),
          rw (front d.encode_buf room) at (rw in_ring at holds),
          rw (in_ring, f3) at woken,
          same,
        )

  first_turn :
      (k : ℕ) (d : Conn Stateless) {r : ℕ} {q : List ℕ}
      → Holds cap d.channel.write_ring r q
      → length d.encode_buf < n
      → n ≤ d.max_buffer_size
      → length q + n ≤ cap
      → Arrived cap d.channel
          (encode_loop (answer cap) (encode reg pkg) (suc (suc k)) tt d)
          r
          (q ++ wire tag pkg)
  unfolding encode_loop answer encoded grow_encode_buffer resize n
  first_turn k d {r} {q} h short limit fits =
      let buf' : List ℕ = take (length d.encode_buf) (drop 0 d.encode_buf) in
      let same_size : length buf' ≡ length d.encode_buf =
        omega (arith, length-take (length d.encode_buf) (drop 0 d.encode_buf)) in
      let d1 : Conn Stateless = record d {
        codec = some tt;
        encode_buf = take n (buf' ++ replicate n 0);
      } in
      let grown_to : n ≤ length d1.encode_buf = omega (
        arith,
        length-take n (buf' ++ replicate n 0),
        length-append buf' (replicate n 0),
        length-replicate {A = ℕ} n 0,
      ) in
      let asks : ltb (length d.encode_buf) n ≡ true = ground arith in
      let f1 : (n == 0) ≡ false = ground arith in
      let f2 : leb n (length buf') ≡ false = ground (arith, same_size) in
      let f3 : ltb d.max_buffer_size n ≡ false = ground arith in
      let f4 : ltb (length buf') n ≡ true = ground (arith, same_size) in
      rw (encode_lem pkg known refl d.encode_buf, asks, f1, f2, f3, f4)
        (last_turn k d1 h grown_to fits)

  -- On an open connection with this codec, if the tagged object fits the largest buffer that is allowed and
  -- the ring, `SendCmd` of an object of a registered type returns true, leaves the tagged object behind the
  -- unread bytes, and wakes the peer once, however small the buffer was.
  pub send_cmd-Arrived :
      (d : Conn Stateless) {r : ℕ} {q : List ℕ}
      → is_open d.state ≡ true
      → d.codec ≡ some tt
      → Holds cap d.channel.write_ring r q
      → tag_size + length pkg.bytes ≤ d.max_buffer_size
      → length q + (tag_size + length pkg.bytes) ≤ cap
      → Arrived cap d.channel (send_cmd (encode reg pkg) cap d) r (q ++ wire tag pkg)
  unfolding send_cmd n
  send_cmd-Arrived d {r} {q} opened told h limit fits = rw opened (
      subst
        (λ t.
          Arrived cap d.channel
            (with_codec (answer cap) (encode reg pkg) (suc d.max_buffer_size) d t) r
            (q ++ wire tag pkg))
        (sym told)
        (elim (Bool-cases (ltb (length d.encode_buf) n)) [
          | inl short ↦ turns d.max_buffer_size (ground arith) limit
          | inr room ↦ last_turn d.max_buffer_size d h (ground arith) fits
        ]))
    where
      turns :
          (m : ℕ)
          → length d.encode_buf < n
          → n ≤ m
          → Arrived cap d.channel
              (encode_loop (answer cap) (encode reg pkg) (suc m) tt d)
              r
              (q ++ wire tag pkg)
      turns zero short few = absurd (omega arith)
      turns (suc k) short few = first_turn k d h short limit fits
