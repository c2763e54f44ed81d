-- ===== src/Server.antt =====
-- `ShmServer` of include/shm_ipc/shm_server.hpp: the connection table, and the queues between the event
-- loop and the handshake thread. A connection is an object behind shared pointers: the table holds its
-- identifier and descriptors, and `states` its `state_`. Sockets are the descriptors that `accept`
-- returns; `wakes` counts the writes to the eventfd since it was last read, and `draining` says that the
-- event loop stands between that read and the swap of the queue. `accepted` lists them all and `released` those that the server let go of. `log` lists the
-- starts and ends of connections.
pub mod Handshake
pub mod Ledger
pub mod Inv
pub mod Close
pub mod Finish
pub mod Thread
pub mod Reachable
pub mod Stop
use shm_cpp.Common.{
  ℕ, zero, suc, ◌+◌, Bool, true, false, not, Option, none, some, List, [], ◌∷◌, ◌++◌, ◌&&◌, ◌||◌,
  length, leb, ◌==◌, if◌then◌else◌,
}
use shm_cpp.Loop.{EventLoop, user, add_fd, remove_fd, pollin}
use shm_cpp.Connection.{State, verifing, established, closeing, closeed, is_open}

-- A connection in the table.
pub record Member : Type 0 where
  pub id : ℕ
  pub socket_fd : ℕ
  pub notify_fd : ℕ

-- A channel is known by the eventfd that it is read by.
pub record HandshakeDone : Type 0 where
  pub sockfd : ℕ
  pub notify_fd : ℕ

-- Where the handshake thread stands. `gone` is also before `Start`.
pub data Worker : Type 0 where
  gone : Worker
  waiting : Worker
  handshaking : Worker
  notifying : Worker

pub data Event : Type 0 where
  opened : (id : ℕ) → Event
  closed : (id : ℕ) → Event

-- `max_clients` is 0 also where the source has a negative number, which it treats as 0.
pub record Server : Type 0 where
  pub loop : EventLoop
  pub listen_fd : Option ℕ
  pub conns : List Member
  pub next_id : ℕ
  pub max_clients : ℕ
  pub started : Bool
  pub hs_pending : List ℕ
  pub hs_done : List HandshakeDone
  pub hs_current : Option ℕ
  pub hs_wake_fd : Option ℕ
  pub wakes : ℕ
  pub draining : Bool
  pub worker : Worker
  pub hs_stopping : Bool
  pub states : ℕ → State
  pub accepted : List ℕ
  pub released : List ℕ
  pub log : List Event

abbrev pub set_state : ℕ → State → (ℕ → State) → ℕ → State
set_state id st f i = if i == id then st else f i

abbrev pub is_closeed : State → Bool
is_closeed verifing = false
is_closeed established = false
is_closeed closeing = false
is_closeed closeed = true

abbrev pub is_closeing : State → Bool
is_closeing verifing = false
is_closeing established = false
is_closeing closeing = true
is_closeing closeed = false

-- `fd.Get() >= 0`, as a number.
abbrev pub held : Option ℕ → ℕ
held none = 0
held (some fd) = 1

abbrev pub fds : Option ℕ → List ℕ
fds none = []
fds (some fd) = fd ∷ []

abbrev pub sockfds : List HandshakeDone → List ℕ
sockfds [] = []
sockfds (d ∷ ds) = d.sockfd ∷ sockfds ds

unfoldable pub find_conn : ℕ → List Member → Option Member
find_conn id [] = none
find_conn id (m ∷ ms) = if m.id == id then some m else find_conn id ms

-- `conns_.erase(id)`, and the sockets of what it erases.
unfoldable pub erase : ℕ → List Member → List Member
erase id [] = []
erase id (m ∷ ms) = let rest = erase id ms in if m.id == id then rest else m ∷ rest

unfoldable pub erased : ℕ → List Member → List ℕ
erased id [] = []
erased id (m ∷ ms) = let rest = erased id ms in if m.id == id then m.socket_fd ∷ rest else rest

-- What the user's callbacks do to the server: the connection and verify callbacks of a new connection,
-- the close callback, and `DrainRing` with the message callbacks in it, which says whether it
-- returned a negative number. Each is given the connection's identifier.
pub record Callbacks : Type 0 where
  pub verifies : Bool
  pub verify_connection : ℕ → Server → Server
  pub close : ℕ → Server → Server
  pub drain_ring : ℕ → Server → Bool × Server

unfoldable pub set_max_clients : ℕ → Server → Server
set_max_clients n s = record s { max_clients = n }

unfoldable pub on_accept : Option ℕ → Server → Server
on_accept cfd s =
    let inflight = length s.hs_pending + length s.hs_done + held s.hs_current in
    let seen = s.accepted ++ fds cfd in
    if s.max_clients == 0 || leb s.max_clients (length s.conns + inflight)
    then record s { accepted = seen; released = s.released ++ fds cfd }
    else record s { accepted = seen; hs_pending = s.hs_pending ++ fds cfd }

-- The handshake thread takes the next socket, ends the handshake, and wakes the event loop. `done` is
-- the channel's eventfd, or `none` where `CreateRingChannel` throws.
unfoldable pub take_pending : ℕ → List ℕ → Server → Server
take_pending fd rest s = record s { hs_current = some fd; hs_pending = rest; worker = handshaking }

unfoldable pub end_handshake : ℕ → Option ℕ → Server → Server
end_handshake fd none s = record s {
  hs_current = none;
  released = s.released ++ (fd ∷ []);
  worker = waiting;
}
end_handshake fd (some efd) s =
    if not s.hs_stopping
    then record s {
      hs_done = s.hs_done ++ (record { sockfd = fd; notify_fd = efd } ∷ []);
      hs_current = none;
      worker = notifying;
    }
    else record s { hs_current = none; released = s.released ++ (fd ∷ []); worker = waiting }

unfoldable pub wake_loop : Server → Server
wake_loop s = record s { wakes = s.wakes + 1; worker = waiting }

-- `OnClose` of a connection.
unfoldable pub on_close : Callbacks → ℕ → Server → Server
on_close cb id s =
    if is_closeed (s.states id)
    then s
    else cb.close id
        (record s { states = set_state id closeed s.states; log = s.log ++ (closed id ∷ []) })

unfoldable pub remove_conn : Callbacks → Member → Server → Server
remove_conn cb m s = on_close cb m.id (record s {
  loop = remove_fd (remove_fd s.loop m.notify_fd) m.socket_fd;
  conns = erase m.id s.conns;
  released = s.released ++ erased m.id s.conns;
})

unfoldable pub remove_each : Callbacks → List Member → Server → Server
remove_each cb [] s = s
remove_each cb (m ∷ ms) s = remove_each cb ms (remove_conn cb m s)

-- `Close` of a connection, as far as the server sees it.
unfoldable pub close_state : ℕ → Server → Server
close_state id s =
    if is_open (s.states id) then record s { states = set_state id closeing s.states } else s

abbrev pub close_found : Callbacks → ℕ → Option Member → Server → Server
close_found cb id none s = s
close_found cb id (some m) s = remove_conn cb m (close_state id s)

unfoldable pub close_conn : Callbacks → ℕ → Server → Server
close_conn cb id s = close_found cb id (find_conn id s.conns) s

-- `OnConnection` of a connection.
unfoldable pub on_connection : Callbacks → ℕ → Server → Server
on_connection cb id s = cb.verify_connection id (record s {
  states = set_state id (if cb.verifies then verifing else established) s.states;
  log = s.log ++ (opened id ∷ []);
})

abbrev pub drop_socket : ℕ → Server → Server
drop_socket fd s = record s { released = s.released ++ (fd ∷ []) }

-- The new connection enters the table under the next identifier. Its codec, its callbacks and its buffer
-- sizes are not kept: they change nothing here.
unfoldable pub enter : HandshakeDone → Server → Server
enter d s =
    let id = s.next_id in
    record s {
      next_id = id + 1;
      conns = record { id = id; socket_fd = d.sockfd; notify_fd = d.notify_fd } ∷ erase id s.conns;
      released = s.released ++ erased id s.conns;
      loop =
          add_fd (add_fd s.loop d.notify_fd (some (user id)) pollin) d.sockfd (some (user id))
            pollin;
    }

-- `codec` says whether the factory gave a codec.
unfoldable pub finish_accept : Callbacks → Bool → HandshakeDone → Server → Server
finish_accept cb codec d s =
    if leb s.max_clients (length s.conns)
    then drop_socket d.sockfd s
    else if not codec
    then drop_socket d.sockfd s
    else on_connection cb s.next_id (enter d s)

-- `DrainNotify` of the event loop's side, the first step of `OnHandshakeComplete`.
unfoldable pub drain_wakes : Server → Server
drain_wakes s = record s { wakes = 0; draining = true }

unfoldable pub finish_each : Callbacks → (ℕ → Bool) → List HandshakeDone → Server → Server
finish_each cb codecs [] s = s
finish_each cb codecs (d ∷ ready) s =
    let rest = finish_each cb codecs ready (finish_accept cb (codecs d.sockfd) d s) in
    if s.started then rest else record s { released = s.released ++ sockfds (d ∷ ready) }

-- The rest of `OnHandshakeComplete`: the swap of the queue and the loop.
unfoldable pub finish_ready : Callbacks → (ℕ → Bool) → Server → Server
finish_ready cb codecs s =
    finish_each cb codecs s.hs_done (record s { hs_done = []; draining = false })

unfoldable pub after_drain : Callbacks → Member → Bool × Server → Server
after_drain cb m (failed, s) =
    if failed || is_closeing (s.states m.id) then remove_conn cb m s else s

abbrev pub notify_found : Callbacks → Option Member → Server → Server
notify_found cb none s = s
notify_found cb (some m) s = after_drain cb m (cb.drain_ring m.id s)

unfoldable pub on_conn_notify : Callbacks → ℕ → Server → Server
on_conn_notify cb id s = notify_found cb (find_conn id s.conns) s

-- `ready` says that `poll` reported the socket, `eof` that `read` returned no byte.
abbrev pub socket_found : Callbacks → Bool → Bool → Option Member → Server → Server
socket_found cb ready eof none s = s
socket_found cb ready eof (some m) s =
    if ready && eof then remove_conn cb m (cb.drain_ring m.id s).1 else s

unfoldable pub on_conn_socket : Callbacks → Bool → Bool → ℕ → Server → Server
on_conn_socket cb ready eof id s = socket_found cb ready eof (find_conn id s.conns) s

-- How `Listen` comes out: each call of it that may throw, with the descriptors it has by then.
pub data Listened : Type 0 where
  no_listen : Listened
  no_eventfd : Listened
  no_thread : (efd : ℕ) → Listened
  listening : (lfd efd : ℕ) → Listened

unfoldable pub listen_with : Listened → Server → Bool × Server
listen_with no_listen s = (false, record s { listen_fd = none })
listen_with no_eventfd s = (false, record s { listen_fd = none; hs_stopping = false })
listen_with (no_thread efd) s =
    (false, record s { listen_fd = none; hs_stopping = false; hs_wake_fd = some efd; wakes = 0 })
listen_with (listening lfd efd) s = (
  true,
  record s {
    listen_fd = some lfd;
    hs_stopping = false;
    hs_wake_fd = some efd;
    wakes = 0;
    worker = waiting;
    started = true;
    loop = add_fd (add_fd s.loop lfd (some (user 0)) pollin) efd (some (user 0)) pollin;
  },
)

unfoldable pub start : Listened → Server → Bool × Server
unfolding listen_with
start l s = if s.started then (true, s) else listen_with l s

-- The handshake thread after `hs_stopping_`: it lets go of its socket and of all that wait.
unfoldable pub join : Server → Server
join s = record s {
  hs_pending = [];
  hs_current = none;
  released = s.released ++ (fds s.hs_current ++ s.hs_pending);
  wakes = s.wakes + (elim s.worker [ notifying ↦ 1 | _ ↦ 0 ]);
  worker = gone;
}

abbrev remove_held : EventLoop → Option ℕ → EventLoop
remove_held l none = l
remove_held l (some fd) = remove_fd l fd

unfoldable pub request_stop : Server → Server
request_stop s = record s { started = false; hs_stopping = true }

unfoldable pub drop_handshakes : Server → Server
drop_handshakes s = record s {
  loop = remove_held (remove_held s.loop s.listen_fd) s.hs_wake_fd;
  listen_fd = none;
  released = s.released ++ (s.hs_pending ++ (sockfds s.hs_done ++ fds s.hs_current));
  hs_pending = [];
  hs_done = [];
  hs_current = none;
}

unfoldable pub stop : Callbacks → Server → Server
stop cb s =
    let t = drop_handshakes (join (request_stop s)) in
    if s.started then remove_each cb t.conns t else s
