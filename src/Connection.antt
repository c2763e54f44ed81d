-- ===== src/Connection.antt =====
-- `ShmConnection` of include/shm_ipc/shm_connection.hpp: how a message is encoded and gets into the ring.
pub mod Chunks
pub mod Command
pub mod Receive
pub mod Drain
use shm_cpp.Common.{
  ℕ, zero, suc, ◌+◌, ◌-◌, Bool, true, false, Option, none, some, List, ◌++◌, min, length, take,
  drop, replicate, ltb, leb, ◌==◌, ◌||◌, ◌&&◌, ◌^◌, not, if◌then◌else◌, u32, u32_mod,
}
use shm_cpp.Loop.{EventLoop, remove_timer}
use shm_cpp.Ring.{Code, ok, err, max_write_size}
use shm_cpp.Channel.{Channel, try_write, writable_bytes, notify_peer}

-- After `TryWrite` of a chunk: `rest` writes what is left.
unfoldable pub after_chunk :
    Code → (Channel → Option (Bool × Channel)) → Channel → Option (Bool × Channel)
after_chunk err rest ch = some (false, ch)
after_chunk ok rest ch = rest ch

-- The loop over chunks; the first argument is fuel, and `none` is its end.
unfoldable pub write_chunks : ℕ → ℕ → List ℕ → ℕ → Channel → Option (Bool × Channel)
unfolding after_chunk
write_chunks zero cap p left ch = none
write_chunks (suc n) cap p zero ch = some (true, ch)
write_chunks (suc n) cap p (suc l) ch =
    let left = suc l in
    let chunk = min left (u32 (max_write_size cap)) in
    let (c, ch') = try_write cap ch (some p) chunk in
    after_chunk c (write_chunks n cap (drop chunk p) (left - chunk)) ch'

abbrev pub wake : Option (Bool × Channel) → Option (Bool × Channel)
wake none = none
wake (some (true, ch)) = some (true, notify_peer ch)
wake (some (false, ch)) = some (false, ch)

-- A chunk is half the ring and all that is written fits the ring, so four turns are enough.
unfoldable pub write_raw : ℕ → Channel → List ℕ → ℕ → Option (Bool × Channel)
write_raw cap ch src len =
    if len == 0
    then some (true, ch)
    else if ltb (writable_bytes cap ch) len
    then some (false, ch)
    else wake (write_chunks 4 cap src len ch)

pub data State : Type 0 where
  verifing : State
  established : State
  closeing : State
  closeed : State

pub data CloseType : Type 0 where
  unknow : CloseType
  active : CloseType
  passive : CloseType
  keep_live_time_out : CloseType

-- `S` is the state of the codec. `shut` says that the socket was shut down. `loop` is the event loop
-- behind the connection's pointer. Callbacks and contexts, which `SendCmd` does not touch, are left out.
pub record Conn (S : Type 0) : Type 0 where
  pub state : State
  pub close_type : CloseType
  pub shut : Bool
  pub verify_timer : ℕ
  pub loop : EventLoop
  pub codec : Option S
  pub channel : Channel
  pub encode_buf : List ℕ
  pub max_buffer_size : ℕ
  pub keepalive : Bool

-- The codec is given the buffer and answers `len` as a 32-bit word, the size that it asks for, and
-- the bytes that it wrote at the front of the buffer.
pub record Encoded (S : Type 0) : Type 0 where
  pub len : ℕ
  pub out : ℕ
  pub bytes : List ℕ
  pub next : S

abbrev pub need_more_buffer : ℕ
need_more_buffer = 0

abbrev pub disconnect : ℕ
disconnect = u32_mod - 1

abbrev pub skip_package : ℕ
skip_package = u32_mod - 2

-- Both `established` and `verifing`.
unfoldable pub is_open : State → Bool
is_open verifing = true
is_open established = true
is_open closeing = false
is_open closeed = false

module _ {S : Type 0} where
  unfoldable pub remove_verify_timer : Conn S → Conn S
  remove_verify_timer c =
      if c.verify_timer == 0
      then c
      else record c { loop = remove_timer c.loop c.verify_timer; verify_timer = 0 }

  unfoldable pub close : Conn S → Conn S
  close c = remove_verify_timer (
      if is_open c.state
      then record c { close_type = active; state = closeing; shut = true }
      else c)

  -- The bytes that the codec writes stay inside the buffer.
  unfoldable pub encoded : Encoded S → Conn S → Conn S
  encoded e c = record c {
    codec = some e.next;
    encode_buf = take (length c.encode_buf) (e.bytes ++ drop (length e.bytes) c.encode_buf);
  }

  unfoldable pub resize : ℕ → Conn S → Conn S
  resize need c = record c { encode_buf = take need (c.encode_buf ++ replicate need 0) }

  unfoldable pub grow_encode_buffer : ℕ → Conn S → Bool × Conn S
  grow_encode_buffer need c =
      if ltb c.max_buffer_size need
      then (false, c)
      else (true, if ltb (length c.encode_buf) need then resize need c else c)

  abbrev pub sent : Conn S → Option (Bool × Channel) → Option (Bool × Conn S)
  sent c none = none
  sent c (some (b, ch)) = some (b, record c { channel = ch })

  abbrev pub grown : (Conn S → Option (Bool × Conn S)) → Bool × Conn S → Option (Bool × Conn S)
  grown again (false, c) = some (false, c)
  grown again (true, c) = again c

  -- What `SendCmd` does with an answer of the codec; `again` is the next turn.
  unfoldable pub answer :
      ℕ → (Conn S → Option (Bool × Conn S)) → ℕ → ℕ → Conn S → Option (Bool × Conn S)
  answer cap again len out c =
      if len == skip_package
      then some (true, c)
      else if len == disconnect
      then some (false, close c)
      else if len == need_more_buffer
      then if out == 0 || leb out (length c.encode_buf)
        then some (false, c)
        else grown again (grow_encode_buffer out c)
      else sent c (write_raw cap c.channel c.encode_buf len)

  -- The codec is asked, and `answer` does what is done with its answer. The number is fuel, and
  -- `none` is its end.
  unfoldable pub encode_loop :
      ((Conn S → Option (Bool × Conn S)) → ℕ → ℕ → Conn S → Option (Bool × Conn S))
      → (S → List ℕ → Encoded S)
      → ℕ
      → S
      → Conn S
      → Option (Bool × Conn S)
  encode_loop answer encode zero s c = none
  encode_loop answer encode (suc n) s c =
      let e = encode s c.encode_buf in
      answer (encode_loop answer encode n e.next) e.len e.out (encoded e c)

  abbrev pub with_codec :
      ((Conn S → Option (Bool × Conn S)) → ℕ → ℕ → Conn S → Option (Bool × Conn S))
      → (S → List ℕ → Encoded S)
      → ℕ
      → Conn S
      → Option S
      → Option (Bool × Conn S)
  with_codec answer encode n c none = some (false, c)
  with_codec answer encode n c (some s) = encode_loop answer encode n s c

  -- Each new turn has a larger buffer.
  unfoldable pub send_cmd : (S → List ℕ → Encoded S) → ℕ → Conn S → Option (Bool × Conn S)
  send_cmd encode cap c =
      if is_open c.state
      then with_codec (answer cap) encode (suc c.max_buffer_size) c c.codec
      else some (false, c)

  -- The same for `SendKeepaliveResponse`: a positive 32-bit length is written.
  unfoldable pub keepalive_answer :
      ℕ → (Conn S → Option (Bool × Conn S)) → ℕ → ℕ → Conn S → Option (Bool × Conn S)
  keepalive_answer cap again len out c =
      if ltb 0 len && ltb len (2 ^ 31)
      then sent c (write_raw cap c.channel c.encode_buf len)
      else if not (len == need_more_buffer)
      then some (false, c)
      else if out == 0 || leb out (length c.encode_buf)
      then some (false, c)
      else grown again (grow_encode_buffer out c)

  -- What it returns beside the connection says whether the response was written; the source drops it.
  unfoldable pub send_keepalive_response :
      (S → List ℕ → Encoded S) → ℕ → Conn S → Option (Bool × Conn S)
  send_keepalive_response send_keep_alive cap c =
      with_codec (keepalive_answer cap) send_keep_alive (suc c.max_buffer_size) c c.codec
