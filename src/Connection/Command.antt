-- ===== src/Connection/Command.antt =====
-- `SendCmd` of include/shm_ipc/shm_connection.hpp: what it leaves in the ring, and that it comes back.
use shm_cpp.Common.{
  ℕ, zero, suc, ◌+◌, ◌≤◌, ◌<◌, ◌≡◌, refl, subst, ap, Bool, true, false, Option, none, some, List,
  [], ◌++◌, append-nil, length, take, drop, replicate, ltb, leb, ◌==◌, if◌then◌else◌, arith,
  Bool-cases, inl, inr, ◌||◌, ◌&&◌, ◌^◌, not, length-append, length-take, length-drop,
  length-replicate,
}
use shm_cpp.Ring.{IsCapacity}
use shm_cpp.Ring.Window.{Holds}
use shm_cpp.Channel.{Channel}
use shm_cpp.Connection.{
  Conn, Encoded, is_open, remove_verify_timer, close, encoded, resize, grow_encode_buffer, sent,
  grown, answer, encode_loop, with_codec, send_cmd, skip_package, disconnect, need_more_buffer,
  write_raw, keepalive_answer, send_keepalive_response,
}
use shm_cpp.Connection.Chunks.{write_raw_lem}

-- The documented answers of a codec: an error, or no more bytes than the buffer has.
unfoldable pub IsInBuffer : {S : Type 0} → Encoded S → List ℕ → Type 0
IsInBuffer e buf = (e.len == skip_package || e.len == disconnect || leb e.len (length buf)) ≡ true

-- From `c` to `c'` the bytes `x` went into the ring.
pub record Sent {S : Type 0} (cap : ℕ) (c : Channel) (c' : Conn S) (ok : Bool) (r : ℕ)
    (q x : List ℕ) : Type 0 where
  pub holds : Holds cap c'.channel.write_ring r (q ++ x)
  pub from_buffer : x ≡ take (length x) c'.encode_buf
  pub all_or_none : (if ok then [] else x) ≡ []
  pub woken : c'.channel.notified ≡ (if length x == 0 then c.notified else c.notified + 1)
  pub same_read : c'.channel.read_ring ≡ c.read_ring

unfoldable pub Ends : {S : Type 0} → ℕ → Channel → Option (Bool × Conn S) → ℕ → List ℕ → Type 0
Ends {S} cap c res r q =
    (ok : Bool) × (c' : Conn S) × (x : List ℕ) × (res ≡ some (ok, c')) × Sent cap c c' ok r q x

-- `ans` does well with an answer of the codec, if the next turn does.
pub record Handles {S : Type 0} (cap : ℕ)
    (ans : (Conn S → Option (Bool × Conn S)) → ℕ → ℕ → Conn S → Option (Bool × Conn S))
    : Type 0 where
  pub handle :
      (r : ℕ) (q : List ℕ) (again : Conn S → Option (Bool × Conn S)) (len out : ℕ) (d : Conn S)
      → Holds cap d.channel.write_ring r q
      → (len == skip_package || len == disconnect || leb len (length d.encode_buf)) ≡ true
      → ((d' : Conn S)
          → d'.channel ≡ d.channel
          → d'.max_buffer_size ≡ d.max_buffer_size
          → length d.encode_buf < length d'.encode_buf
          → length d'.encode_buf ≤ d.max_buffer_size
          → Ends cap d.channel (again d') r q)
      → Ends cap d.channel (ans again len out d) r q

none_sent : (ok : Bool) → Path (List ℕ) (if ok then [] else []) []
none_sent true = refl
none_sent false = refl

Ends-channel :
    {S : Type 0} (cap : ℕ) {ch ch' : Channel} (res : Option (Bool × Conn S)) (r : ℕ) (q : List ℕ)
    → ch ≡ ch'
    → Ends cap ch res r q
    → Ends cap ch' res r q
Ends-channel cap res r q e x = subst (λ t. Ends cap t res r q) e x

module _ {S : Type 0} {cap : ℕ} (c : IsCapacity cap) where
  nothing :
      {ch : Channel} (d : Conn S) (ok : Bool) {r : ℕ} {q : List ℕ}
      → Holds cap ch.write_ring r q
      → d.channel ≡ ch
      → Sent cap ch d ok r q []
  nothing d ok {q} h e = record {
    holds = rw (e, append-nil q) h;
    from_buffer = refl;
    all_or_none = none_sent ok;
    woken = ap (λ t. t.notified) e;
    same_read = ap (λ t. t.read_ring) e;
  }

  remove_verify_timer-channel : (d : Conn S) → (remove_verify_timer d).channel ≡ d.channel
  unfolding remove_verify_timer
  remove_verify_timer-channel d = elim (Bool-cases (d.verify_timer == 0)) [
    | inl e ↦ rw e refl
    | inr e ↦ rw e refl
  ]

  pub close-channel : (d : Conn S) → (close d).channel ≡ d.channel
  unfolding close
  close-channel d = elim (Bool-cases (is_open d.state)) [
    | inl e ↦ rw e (remove_verify_timer-channel _)
    | inr e ↦ rw e (remove_verify_timer-channel d)
  ]

  length-resize : (need : ℕ) (d : Conn S) → length (resize need d).encode_buf ≡ need
  unfolding resize
  length-resize need d = omega (
    arith,
    length-take need (d.encode_buf ++ replicate need 0),
    length-append d.encode_buf (replicate need 0),
    length-replicate {A = ℕ} need 0,
  )

  length-encoded :
      (e : Encoded S) (d : Conn S) → length (encoded e d).encode_buf ≡ length d.encode_buf
  unfolding encoded
  length-encoded e d = omega (
    arith,
    length-take (length d.encode_buf) (e.bytes ++ drop (length e.bytes) d.encode_buf),
    length-append e.bytes (drop (length e.bytes) d.encode_buf),
    length-drop (length e.bytes) d.encode_buf,
  )

  written :
      (d : Conn S) (len : ℕ) {r : ℕ} {q : List ℕ}
      → Holds cap d.channel.write_ring r q
      → len ≤ length d.encode_buf
      → Ends cap d.channel (sent d (write_raw cap d.channel d.encode_buf len)) r q
  unfolding Ends
  written d len {r} {q} h given =
      let (ch, e, holds, woken, same) = write_raw_lem c d.channel d.encode_buf len h given in
      elim (Bool-cases (ltb cap (length q + len))) [
        | inl over ↦
            let here : Holds cap ch.write_ring r q = rw over at holds in
            (
              false,
              record d { channel = ch },
              [],
              ap (sent d) (rw over at e),
              record {
                holds = rw (append-nil q) here;
                from_buffer = refl;
                all_or_none = refl;
                woken = rw over at woken;
                same_read = same;
              },
            )
        | inr fits ↦
            let all : length (take len d.encode_buf) ≡ len =
              omega (arith, length-take len d.encode_buf) in
            (
              true,
              record d { channel = ch },
              take len d.encode_buf,
              ap (sent d) (rw fits at e),
              record {
                holds = rw fits at holds;
                from_buffer = rw all refl;
                all_or_none = refl;
                woken = rw all (rw fits at woken);
                same_read = same;
              },
            )
      ]

  grow_encode_buffer_lem :
      (need : ℕ) (d : Conn S)
      → length d.encode_buf < need
      → grow_encode_buffer need d
        ≡ (if ltb d.max_buffer_size need then (false, d) else (true, resize need d))
  unfolding grow_encode_buffer
  grow_encode_buffer_lem need d more =
      let longer : ltb (length d.encode_buf) need ≡ true = ground arith in rw longer refl

  -- The codec asks for a larger buffer.
  larger :
      (again : Conn S → Option (Bool × Conn S)) (out : ℕ) (d : Conn S) {r : ℕ} {q : List ℕ}
      → Holds cap d.channel.write_ring r q
      → ((d' : Conn S)
          → d'.channel ≡ d.channel
          → d'.max_buffer_size ≡ d.max_buffer_size
          → length d.encode_buf < length d'.encode_buf
          → length d'.encode_buf ≤ d.max_buffer_size
          → Ends cap d.channel (again d') r q)
      → Ends cap d.channel
          (if out == 0 || leb out (length d.encode_buf)
            then some (false, d)
            else grown again (grow_encode_buffer out d))
          r
          q
  unfolding Ends resize
  larger again out d {r} {q} h next =
      elim (Bool-cases (out == 0 || leb out (length d.encode_buf))) [
        | inl e ↦ rw e (false, d, [], refl, nothing d false h refl)
        | inr ask ↦
            rw (ask, grow_encode_buffer_lem out d (ground arith))
              (elim (Bool-cases (ltb d.max_buffer_size out)) [
                | inl e ↦ rw e (false, d, [], refl, nothing d false h refl)
                | inr e ↦ rw e (
                    next (resize out d) refl refl (ground (arith, length-resize out d))
                      (ground (arith, length-resize out d)))
              ])
      ]

  -- One answer of the codec, if the next turn is all right.
  answer-Handles : Handles {S = S} cap (answer cap)
  unfolding Ends answer
  answer-Handles = record {
    handle = λ r q again len out d h honest next. elim (Bool-cases (len == skip_package)) [
      | inl e ↦ rw e (true, d, [], refl, nothing d true h refl)
      | inr not_skip ↦ elim (Bool-cases (len == disconnect)) [
        | inl e ↦
            rw (not_skip, e) (false, close d, [], refl, nothing (close d) false h (close-channel d))
        | inr not_gone ↦ elim (Bool-cases (len == need_more_buffer)) [
          | inl e ↦ rw (not_skip, not_gone, e) (larger again out d h next)
          | inr not_more ↦ rw (not_skip, not_gone, not_more) (written d len h (ground arith))
        ]
      ]
    ];
  }

  pub keepalive_answer-Handles : Handles {S = S} cap (keepalive_answer cap)
  unfolding Ends keepalive_answer
  keepalive_answer-Handles = record {
    handle = λ r q again len out d h honest next.
        elim (Bool-cases (ltb 0 len && ltb len (2 ^ 31))) [
          | inl e ↦ rw e (written d len h (ground (arith, honest)))
          | inr e ↦ rw e (elim (Bool-cases (not (len == need_more_buffer))) [
            | inl failed ↦ rw failed (false, d, [], refl, nothing d false h refl)
            | inr more ↦ rw more (larger again out d h next)
          ])
        ];
  }

  module _ (ans : (Conn S → Option (Bool × Conn S)) → ℕ → ℕ → Conn S → Option (Bool × Conn S))
      (handles : Handles cap ans) (encode : S → List ℕ → Encoded S)
      (honest : (t : S) (buf : List ℕ) → IsInBuffer (encode t buf) buf) where
    -- Every new turn has a larger buffer.
    encode_loop-Ends :
        (n : ℕ) (t : S) (d : Conn S) {r : ℕ} {q : List ℕ}
        → Holds cap d.channel.write_ring r q
        → d.max_buffer_size ≤ n + length d.encode_buf
        → Ends cap d.channel (encode_loop ans encode (suc n) t d) r q
    unfolding encode_loop IsInBuffer encoded
    encode_loop-Ends zero t d h few =
        let e = encode t d.encode_buf in
        let same = length-encoded e d in
        handles.handle _ _ (encode_loop ans encode zero e.next) e.len e.out (encoded e d) h
          (rw same (honest t d.encode_buf))
          (λ d' at_same limit longer fits. absurd (omega (arith, same)))
    encode_loop-Ends (suc n) t d {r} {q} h few =
        let e = encode t d.encode_buf in
        let same = length-encoded e d in
        handles.handle _ _ (encode_loop ans encode (suc n) e.next) e.len e.out (encoded e d) h
          (rw same (honest t d.encode_buf))
          (λ d' at_same limit longer fits.
            Ends-channel cap _ r q at_same
              (encode_loop-Ends n e.next d' {r = r} {q = q} (rw at_same h) (omega (arith, same))))

    pub with_codec-Ends :
        (t : Option S) (d : Conn S) {r : ℕ} {q : List ℕ}
        → Holds cap d.channel.write_ring r q
        → Ends cap d.channel (with_codec ans encode (suc d.max_buffer_size) d t) r q
    unfolding Ends
    with_codec-Ends none d h = (false, d, [], refl, nothing d false h refl)
    with_codec-Ends (some t) d h = encode_loop-Ends d.max_buffer_size t d h (omega arith)

  -- If the codec, with a buffer of any size and contents, answers an error or no more bytes than the
  -- buffer has, `SendCmd` comes back, however often the codec asks for a larger buffer. It has then
  -- written to the ring, behind the unread bytes, nothing or the front of the encode buffer, and
  -- nothing if it returns false; it has woken the peer once exactly if it wrote.
  pub send_cmd-Sent :
      (encode : S → List ℕ → Encoded S)
      → ((t : S) (buf : List ℕ) → IsInBuffer (encode t buf) buf)
      → (d : Conn S) {r : ℕ} {q : List ℕ} → Holds cap d.channel.write_ring r q
      → (ok : Bool) × (d' : Conn S) × (x : List ℕ) × (send_cmd encode cap d ≡ some (ok, d'))
        × Sent cap d.channel d' ok r q x
  unfolding send_cmd Ends
  send_cmd-Sent encode honest d h = elim (Bool-cases (is_open d.state)) [
    | inl e ↦ rw e (with_codec-Ends (answer cap) answer-Handles encode honest d.codec d h)
    | inr e ↦ rw e (false, d, [], refl, nothing d false h refl)
  ]

  pub send_keepalive_response-Ends :
      (encode : S → List ℕ → Encoded S)
      → ((t : S) (buf : List ℕ) → IsInBuffer (encode t buf) buf)
      → (d : Conn S) {r : ℕ} {q : List ℕ} → Holds cap d.channel.write_ring r q
      → Ends cap d.channel (send_keepalive_response encode cap d) r q
  unfolding send_keepalive_response
  send_keepalive_response-Ends encode honest d h =
      with_codec-Ends (keepalive_answer cap) keepalive_answer-Handles encode honest d.codec d h
