-- ===== src/Client.antt =====
-- `ShmClient` of include/shm_ipc/shm_client.hpp, the blocking client.
pub mod Send
pub mod Receive
use shm_cpp.Common.{
  ℕ, zero, suc, ◌+◌, ◌-◌, Bool, true, false, not, Option, none, some, List, [], ◌∷◌, length, drop,
  ltb, ◌==◌, ◌&&◌, ◌||◌, if◌then◌else◌, u32,
}
use shm_cpp.Ring
use shm_cpp.Ring.{Code, ok, err, max_write_size}
use shm_cpp.Channel.{Channel, try_write, try_read, writable_bytes, notify_peer}

-- `shut` says that the socket was shut down.
pub record Client : Type 0 where
  pub socket_fd : Option ℕ
  pub channel : Channel
  pub closed : Bool
  pub shut : Bool

abbrev pub is_some : Option ℕ → Bool
is_some none = false
is_some (some fd) = true

unfoldable pub connected : Client → Bool
connected c = is_some c.socket_fd && not c.closed

unfoldable pub close : Client → Client
close c = record c { closed = true; shut = c.shut || is_some c.socket_fd }

-- `fresh` is the channel without memory. `sock` is the connected socket and `ch` the channel, or
-- `none` where `ConnectUnixSocket` or `CreateRingChannel` throws.
abbrev pub connect_with : Channel → Option ℕ → Option Channel → Client → Bool × Client
connect_with fresh (some fd) (some ch) c =
    (true, record c { socket_fd = some fd; channel = ch; closed = false; shut = false })
connect_with fresh (some fd) none c = (false, record c { socket_fd = none; channel = fresh })
connect_with fresh none ch c = (false, record c { socket_fd = none; channel = fresh })

unfoldable pub connect : Channel → Option ℕ → Option Channel → Client → Bool × Client
unfolding close
connect fresh sock ch c = connect_with fresh sock ch (close c)

-- The number of bytes sent, or `none` for -1.
abbrev pub after_write :
    Code → (Channel → Option (Option ℕ × Channel)) → Channel → Option (Option ℕ × Channel)
after_write err rest ch = some (none, ch)
after_write ok rest ch = rest ch

-- The first argument is fuel, and `none` is its end.
unfoldable pub send_loop : ℕ → ℕ → List ℕ → ℕ → ℕ → Channel → Option (Option ℕ × Channel)
send_loop zero cap message len sent ch = none
send_loop (suc n) cap message len sent ch =
    let left = u32 (len - sent) in
    let chunk = if ltb (max_write_size cap) left then u32 (max_write_size cap) else left in
    let (c, ch') = try_write cap ch (some (drop sent message)) chunk in
    let rest = after_write c (send_loop n cap message len (sent + chunk)) ch' in
    if ltb sent len then rest else some (some sent, notify_peer ch)

abbrev pub with_channel : Client → Option (Option ℕ × Channel) → Option (Option ℕ × Client)
with_channel c none = none
with_channel c (some (n, ch)) = some (n, record c { channel = ch })

-- `len` is 0 also where the source has a negative length, which it refuses too. A chunk is half the
-- ring and all that is sent fits the ring, so four turns are enough.
unfoldable pub send_message : ℕ → Client → Option (List ℕ) → ℕ → Option (Option ℕ × Client)
send_message cap c none len = some (none, c)
send_message cap c (some message) len =
    if not (connected c) || len == 0
    then some (none, c)
    else if ltb (writable_bytes cap c.channel) len
    then some (none, c)
    else with_channel c (send_loop 4 cap message len 0 c.channel)

-- The results: bytes, 0, -1 and -2.
pub data Read : Type 0 where
  bytes : (out : List ℕ) → Read
  peer_closed : Read
  failed : Read
  timed_out : Read

-- How `poll` comes back. Of the socket, `eof` says that `read` returns no byte.
pub data Polled : Type 0 where
  interrupted : Polled
  poll_failed : Polled
  elapsed : Polled
  woken : (socket eof : Bool) → Polled

-- A turn of the loop as the outside makes it: whether the deadline has passed, what the peer writes and
-- whether another thread calls `Close` before `poll` comes back.
pub record Turn : Type 0 where
  pub expired : Bool
  pub arrives : List ℕ
  pub closes : Bool
  pub polled : Polled

unfoldable pub wait : ℕ → Turn → Client → Client
wait cap t c =
    let m = (Ring.try_write cap c.channel.read_ring (some t.arrives) (length t.arrives)).1 in
    let c' = record c { channel = record (c.channel) { read_ring = m } } in
    if t.closes then close c' else c'

-- `TryRead`, and what is done where it has no byte.
unfoldable pub read_or : ℕ → ℕ → Client → Option (Read × Client) → Option (Read × Client)
read_or cap bsize c otherwise =
    let (n, out, ch) = try_read cap c.channel (u32 bsize) in
    if ltb 0 n then some (bytes out, record c { channel = ch }) else otherwise

-- After `poll`; `again` is the next turn.
unfoldable pub after_poll :
    ℕ → ℕ → (Client → Option (Read × Client)) → Polled → Client → Option (Read × Client)
unfolding read_or
after_poll cap bsize again interrupted c = again c
after_poll cap bsize again poll_failed c = some (failed, c)
after_poll cap bsize again elapsed c = some (timed_out, c)
after_poll cap bsize again (woken socket eof) c =
    if socket
    then if c.closed
      then some (failed, c)
      else if eof
      then read_or cap bsize c (some (peer_closed, record c { socket_fd = none }))
      else again c
    else again c

-- `none` is a call that still waits when the turns are over.
unfoldable pub read_loop : ℕ → ℕ → List Turn → Client → Option (Read × Client)
unfolding read_or after_poll wait
read_loop cap bsize [] c = if c.closed then some (failed, c) else read_or cap bsize c none
read_loop cap bsize (t ∷ ts) c =
    let rest = after_poll cap bsize (read_loop cap bsize ts) t.polled (wait cap t c) in
    if c.closed
    then some (failed, c)
    else read_or cap bsize c (if t.expired then some (timed_out, c) else rest)

unfoldable pub read_message : ℕ → ℕ → List Turn → Client → Option (Read × Client)
read_message cap bsize ts c = if connected c then read_loop cap bsize ts c else some (failed, c)
