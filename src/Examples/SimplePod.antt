-- ===== src/Examples/SimplePod.antt =====
-- Two registered types, and objects of them on the concrete ring.
use shm_cpp.Common.{ℕ, true, false, ◌+◌, ◌*◌, ◌≡◌, refl, arith, some, List, [], ◌∷◌, ◌++◌, length}
use shm_cpp.Ring.{try_write}
use shm_cpp.Ring.Queue
use shm_cpp.Ring.Window.{Holds}
use shm_cpp.Ring.Write.{try_write-push}
use shm_cpp.Codec.{le32}
use shm_cpp.Connection.{is_open, send_cmd, Conn, established, passive}
use shm_cpp.Connection.Receive.{drained, drain_ring}
use shm_cpp.SimplePod.{Any, Registry, Stateless, find, set, register_pod, encode, decode}
use shm_cpp.SimplePod.Registering.{IsRegistered, register_pod-IsRegistered}
use shm_cpp.SimplePod.Wire.{wire}
use shm_cpp.SimplePod.Sending.{Arrived, send_cmd-Arrived}
use shm_cpp.SimplePod.Deliver.{wires, LeavesRing, deliver, drain_ring-deliver}
use shm_cpp.Examples.{
  cap_1024, near_end, drained as empty_ring, drained-Holds, wrapped, wrapped-Holds, ten,
}

-- Objects of ten bytes are type 1 and go under tag 257, and those of two bytes are type 2 and go under
-- tag 300.
abbrev first : Registry
first = register_pod 1 257 10 (record { tag_of = []; ops_of = [] })

first-IsRegistered : IsRegistered first 1 257 10
unfolding register_pod set find
first-IsRegistered = record {
  tagged = refl;
  known = refl;
  tag_fits = omega arith;
  size_fits = omega arith;
}

abbrev both : Registry
both = register_pod 2 300 2 first

both-IsRegistered : IsRegistered both 2 300 2 × IsRegistered both 1 257 10
both-IsRegistered =
    register_pod-IsRegistered first 2 300 2 1 257 10 (omega arith) (omega arith) first-IsRegistered
      (ground arith) (ground arith)

abbrev heartbeat : Any
heartbeat = record { ty = 1; bytes = ten }

abbrev client_msg : Any
client_msg = record { ty = 2; bytes = 7 ∷ 8 ∷ [] }

abbrev objects : List (ℕ × Any)
objects = (257, heartbeat) ∷ (300, client_msg) ∷ (257, heartbeat) ∷ []

abbrev conn : Conn Stateless
conn = record {
  state = established;
  close_type = passive;
  shut = false;
  verify_timer = 0;
  loop = record { entries = []; owned_timerfds = []; running = true };
  codec = some tt;
  channel = record {
    write_ring = wrapped;
    read_ring = (try_write 1024 empty_ring (some (wires objects)) 34).1;
    notified = 3;
  };
  encode_buf = ten;
  max_buffer_size = 1024 * 1024;
  keepalive = true;
}

length-objects : length (wires objects) ≡ 34
unfolding le32
length-objects = refl

conn-Holds : Holds 1024 conn.channel.read_ring near_end (wires objects)
unfolding le32 Queue.push
conn-Holds =
    (try_write-push cap_1024 drained-Holds (some (wires objects)) 34
      (omega (arith, length-objects), omega arith)).1

-- A callback that counts the objects.
count : Any → Conn Stateless → Conn Stateless
count pkg c = record c { verify_timer = c.verify_timer + 1 }

count-LeavesRing : LeavesRing count
unfolding count
count-LeavesRing = record { same_read = λ p c. refl; same_codec = λ p c. refl }

drain_ring-deliver_example :
    (r' : ℕ) × (drain_ring (decode both) (λ t buf. encode both heartbeat t buf) count 1024 conn
      ≡ some (drained 3, deliver count objects conn))
    × Holds 1024 (deliver count objects conn).channel.read_ring r' []
drain_ring-deliver_example =
    drain_ring-deliver cap_1024 both (λ t buf. encode both heartbeat t buf) count count-LeavesRing
      objects conn (both-IsRegistered.1, (both-IsRegistered.0, (both-IsRegistered.1, tt))) refl
      conn-Holds

-- The buffer of the connection is too small for the object.
send_cmd-Arrived_example :
    Arrived 1024 conn.channel
      (send_cmd (encode both heartbeat) 1024 conn)
      near_end
      (ten ++ wire 257 heartbeat)
unfolding is_open
send_cmd-Arrived_example =
    send_cmd-Arrived cap_1024 heartbeat both-IsRegistered.1 conn refl refl wrapped-Holds
      (omega arith) (omega arith)
