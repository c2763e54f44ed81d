-- ===== src/Connection/Receive.antt =====
-- `DrainRing` of include/shm_ipc/shm_connection.hpp: the messages in the ring are decoded and handed
-- on. `P` is the type of the decoded messages.
use shm_cpp.Common.{
  ℕ, zero, suc, ◌+◌, ◌^◌, Bool, Option, none, some, List, ◌++◌, length, ltb, leb, ◌==◌, ◌||◌,
  if◌then◌else◌, u32,
}
use shm_cpp.Ring.{Shm, Segments, view}
use shm_cpp.Channel.{peek, commit_read, readable}
use shm_cpp.Connection.{
  Conn, Encoded, is_open, skip_package, disconnect, need_more_buffer, send_keepalive_response,
}

-- The codec answers `len` as a 32-bit word, the size `out` of a heartbeat, and the message.
pub record Decoded (S P : Type 0) : Type 0 where
  pub len : ℕ
  pub out : ℕ
  pub pkg : P
  pub next : S

-- The results -1 and the number of messages.
pub data Drained : Type 0 where
  broken : Drained
  drained : (count : ℕ) → Drained

-- The bytes that the codec is given: those of the ring, or of the buffer that they are joined in.
unfoldable pub decode_input : Shm → Segments → List ℕ
decode_input m s = if ltb 0 s.seg2.len then view m s.seg1 ++ view m s.seg2 else view m s.seg1

module _ {S : Type 0} where
  unfoldable pub commit : ℕ → Conn S → Conn S
  commit len c = record c { channel = commit_read c.channel (u32 len) }

  abbrev pub answered :
      (Conn S → Option (Drained × Conn S)) → Option (Bool × Conn S) → Option (Drained × Conn S)
  answered again none = none
  answered again (some (b, c)) = again c

  -- A heartbeat of `out` bytes.
  unfoldable pub heartbeat :
      (S → List ℕ → Encoded S)
      → ℕ
      → (Conn S → Option (Drained × Conn S))
      → ℕ
      → Conn S
      → Option (Drained × Conn S)
  heartbeat send_keep_alive cap again out c =
      let c' = commit out c in
      if c'.keepalive
      then answered again (send_keepalive_response send_keep_alive cap c')
      else again c'

  abbrev pub with_data :
      (Segments → Option (Drained × Conn S))
      → ℕ
      → Conn S
      → Option Segments
      → Option (Drained × Conn S)
  with_data f count c none = some (drained count, c)
  with_data f count c (some s) = f s

  -- The codec is there for the whole of the loop.
  abbrev pub with_decoder :
      (S → Option (Drained × Conn S)) → Conn S → Option S → Option (Drained × Conn S)
  with_decoder f c none = some (broken, c)
  with_decoder f c (some t) = f t

module _ {S P : Type 0} where
  -- `cb` is the message callback; an empty one is one that does nothing.
  unfoldable pub on_message : (P → Conn S → Conn S) → P → Conn S → Conn S
  on_message cb pkg c = if is_open c.state then cb pkg c else c

  -- What is done with an answer for `buflen` bytes; `again` is the next turn, with the messages so far.
  unfoldable pub decoded :
      (S → List ℕ → Encoded S)
      → (P → Conn S → Conn S)
      → ℕ
      → (ℕ → Conn S → Option (Drained × Conn S))
      → ℕ
      → ℕ
      → Decoded S P
      → Conn S
      → Option (Drained × Conn S)
  decoded send_keep_alive cb cap again count buflen e c =
      if e.len == disconnect
      then some (broken, c)
      else if e.len == need_more_buffer
      then some (drained count, c)
      else if e.len == skip_package
      then if e.out == 0 || ltb buflen e.out
        then some (broken, c)
        else heartbeat send_keep_alive cap (again count) e.out c
      else if leb (2 ^ 31) e.len
      then some (broken, c)
      else if ltb buflen e.len
      then some (broken, c)
      else again (count + 1) (on_message cb e.pkg (commit e.len c))

  -- The first argument is fuel, and `none` is its end.
  unfoldable pub drain_loop :
      (S → List ℕ → Decoded S P)
      → (S → List ℕ → Encoded S)
      → (P → Conn S → Conn S)
      → ℕ
      → ℕ
      → ℕ
      → Conn S
      → Option (Drained × Conn S)
  drain_loop decode send_keep_alive cb cap zero count c = none
  drain_loop decode send_keep_alive cb cap (suc n) count c =
      with_data
        (λ s.
          let buf = decode_input c.channel.read_ring s in
          with_decoder
            (λ t.
              let e = decode t buf in
              decoded send_keep_alive cb cap (drain_loop decode send_keep_alive cb cap n) count
                (length buf) e (record c { codec = some e.next }))
            c c.codec)
        count c (peek cap c.channel)

  -- Each turn that is not the last takes at least a byte.
  unfoldable pub drain_ring :
      (S → List ℕ → Decoded S P)
      → (S → List ℕ → Encoded S)
      → (P → Conn S → Conn S)
      → ℕ
      → Conn S
      → Option (Drained × Conn S)
  drain_ring decode send_keep_alive cb cap c =
      with_decoder (λ t. drain_loop decode send_keep_alive cb cap (suc (readable c.channel)) 0 c) c
        c.codec
