-- ===== src/Examples/Connection.antt =====
-- A message of a connection that takes two chunks, and a codec that asks for more room for it.
use shm_cpp.Common.{
  ℕ, ◌+◌, ◌*◌, ◌≡◌, ap, ◌==◌, ◌∷◌, arith, Bool, Bool-cases, inl, inr, true, false, some, List, [],
  ◌++◌, length, ltb, if◌then◌else◌, take, replicate, length-replicate,
}
use shm_cpp.Channel.{Channel}
use shm_cpp.Ring.Window.{Holds}
use shm_cpp.Connection.{
  write_raw, close, skip_package, Conn, Encoded, established, passive, send_cmd,
}
use shm_cpp.Connection.Command.{IsInBuffer, Sent, send_cmd-Sent, close-channel}
use shm_cpp.Connection.Receive.{Decoded, Drained, drain_ring}
use shm_cpp.Connection.Drain.{SendsOnly, Took, drain_ring-Took}
use shm_cpp.Connection.Chunks.{write_raw_lem}
use shm_cpp.Examples.{cap_1024, near_end, wrapped, wrapped-Holds, ten}

abbrev message : List ℕ
message = replicate 700 7

abbrev peer : Channel
peer = record { write_ring = wrapped; read_ring = wrapped; notified = 3 }

write_raw_lem_example :
    (ch' : Channel) × (write_raw 1024 peer message 700 ≡ some (true, ch'))
    × Holds 1024 ch'.write_ring near_end (ten ++ take 700 message)
    × (ch'.notified ≡ 4)
    × (ch'.read_ring ≡ wrapped)
write_raw_lem_example =
    write_raw_lem cap_1024 peer message 700 wrapped-Holds
      (omega (arith, length-replicate {A = ℕ} 700 7))

-- A codec that asks for a larger buffer until it has room for 700 bytes.
encode : ℕ → List ℕ → Encoded ℕ
encode t buf =
    if ltb (length buf) 700
    then record { len = 0; out = 700; bytes = []; next = t + 1 }
    else record { len = 700; out = 0; bytes = message; next = t + 1 }

encode-IsInBuffer : (t : ℕ) (buf : List ℕ) → IsInBuffer (encode t buf) buf
unfolding encode IsInBuffer
encode-IsInBuffer t buf = elim (Bool-cases (ltb (length buf) 700)) [
  | inl e ↦ rw e (ground arith)
  | inr e ↦ rw e (ground arith)
]

abbrev conn : Conn ℕ
conn = record {
  state = established;
  close_type = passive;
  shut = false;
  verify_timer = 0;
  loop = record { entries = []; owned_timerfds = []; running = true };
  codec = some 0;
  channel = peer;
  encode_buf = ten;
  max_buffer_size = 1024 * 1024;
  keepalive = true;
}

send_cmd-Sent_example :
    (ok : Bool) × (d' : Conn ℕ) × (x : List ℕ) × (send_cmd encode 1024 conn ≡ some (ok, d'))
    × Sent 1024 peer d' ok near_end ten x
send_cmd-Sent_example = send_cmd-Sent cap_1024 encode encode-IsInBuffer conn wrapped-Holds

-- A codec for heartbeats of two bytes that begin with 4, and messages of three bytes.
decode : ℕ → List ℕ → Decoded ℕ (List ℕ)
decode t [] = record { len = 0; out = 0; pkg = []; next = t }
decode t (x ∷ buf) =
    if x == 4
    then record { len = skip_package; out = 2; pkg = []; next = t }
    else if ltb (length buf) 2
    then record { len = 0; out = 0; pkg = []; next = t }
    else record { len = 3; out = 0; pkg = take 3 (x ∷ buf); next = t }

-- A message callback that closes the connection.
hang_up : List ℕ → Conn ℕ → Conn ℕ
hang_up p c = close c

hang_up-SendsOnly : SendsOnly 1024 hang_up
unfolding hang_up
hang_up-SendsOnly = record {
  same_read = λ p c. ap (λ t. t.read_ring) (close-channel cap_1024 c);
  writable = λ p c w. record {
    from = w.from;
    unread = w.unread;
    holds = rw (close-channel cap_1024 c) w.holds;
  };
}

drain_ring-Took_example :
    (res : Drained) × (d' : Conn ℕ) × (taken : ℕ) × (drain_ring decode encode hang_up 1024 conn
      ≡ some (res, d'))
    × Took 1024 decode res d' 0 near_end ten taken
drain_ring-Took_example =
    drain_ring-Took cap_1024 decode encode encode-IsInBuffer hang_up hang_up-SendsOnly conn
      wrapped-Holds (record { from = near_end; unread = ten; holds = wrapped-Holds })
