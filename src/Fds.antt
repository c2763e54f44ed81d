-- ===== src/Fds.antt =====
-- `UniqueFd`, `MmapRegion` and the helpers of include/shm_ipc/common.hpp that make, send and receive file
-- descriptors. What a system call answers is an argument. A descriptor is a number that the kernel
-- gives, so it is not negative, and an empty `UniqueFd` is `none`.
pub mod Uri
pub mod Kept
pub mod Effects
pub mod Passing
use shm_cpp.Common.{
  ℕ, ◌+◌, ◌*◌, Bool, true, false, not, Option, none, some, List, [], ◌∷◌, ◌++◌, length, replicate,
  ltb, leb, ◌==◌, if◌then◌else◌,
}
use shm_cpp.Codec.{le32, from_le32}

-- What the exceptions say.
pub data Thrown : Type 0 where
  memfd_create_failed ftruncate_failed mmap_failed eventfd_failed : Thrown
  sendmsg_failed partial_send : Thrown
  recvmsg_failed connection_closed too_short control_truncated no_rights rights_too_short many_fds :
      Thrown
  wrong_tag : Thrown
  path_too_long socket_failed bind_failed listen_failed connect_failed : Thrown

pub data Result (A : Type 0) : Type 0 where
  ok : A → Result A
  err : Thrown → Result A

-- What others see of the process, in its order.
pub data Event : Type 0 where
  sized : (fd size : ℕ) → Event
  mapping : (addr fd size : ℕ) → Event
  initialised : (addr : ℕ) → Event
  sent : List ℕ → ℕ → Event
  timeouts : ℕ → Event
  unlinked : List ℕ → Event

-- The members of `RingChannel`. A mapping is known by its address.
pub record Members : Type 0 where
  pub write_memfd : Option ℕ
  pub write_region : Option ℕ
  pub read_memfd : Option ℕ
  pub read_region : Option ℕ
  pub notify_write_efd : Option ℕ
  pub notify_read_efd : Option ℕ

abbrev pub no_members : Members
no_members = record {
  write_memfd = none;
  write_region = none;
  read_memfd = none;
  read_region = none;
  notify_write_efd = none;
  notify_read_efd = none;
}

-- The descriptors that the process was given and those that it closed, the mappings likewise, and the
-- channel that it is about to make.
pub record Process : Type 0 where
  pub opened : List ℕ
  pub closed : List ℕ
  pub mapped : List ℕ
  pub unmapped : List ℕ
  pub log : List Event
  pub ch : Members

abbrev pub Action : Type 0 → Type 0
Action A = Process → Result A × Process

abbrev pub carry_on : {A B : Type 0} → (A → Action B) → Result A → Action B
carry_on f (ok a) p = f a p
carry_on f (err e) p = (err e, p)

infixl 5 ◌>>=◌ ◌>>◌
unfoldable pub ◌>>=◌ : {A B : Type 0} → Action A → (A → Action B) → Action B
◌>>=◌ m f p = let (r, p') = m p in carry_on f r p'

unfoldable pub ◌>>◌ : {A B : Type 0} → Action A → Action B → Action B
unfolding ◌>>=◌
m >> k = m >>= λ _. k

module _ {A : Type 0} where
  unfoldable pub pure : A → Action A
  pure a p = (ok a, p)

  unfoldable pub throw : Thrown → Action A
  throw e p = (err e, p)

unfoldable pub modify : (Process → Process) → Action (Unit {0})
modify f p = (ok tt, f p)

unfoldable pub throw_if : Bool → Thrown → Action (Unit {0})
throw_if c e p = (if c then err e else ok tt, p)

abbrev pub tell : Event → Process → Process
tell e p = record p { log = p.log ++ (e ∷ []) }

-- `UniqueFd::Reset` and the destructor: what they close.
abbrev pub reset : Option ℕ → List ℕ
reset none = []
reset (some fd) = fd ∷ []

unfoldable pub close_fds : List ℕ → Process → Process
close_fds fds p = record p { closed = p.closed ++ fds }

-- A system call that gives a descriptor.
unfoldable pub given : Thrown → Option ℕ → Action ℕ
given e none p = (err e, p)
given e (some fd) p = (ok fd, record p { opened = p.opened ++ (fd ∷ []) })

-- The constructor of `MmapRegion`: `size` bytes of the file of `fd`, at the address that `mmap` answers.
unfoldable pub map_region : Option ℕ → ℕ → ℕ → Action ℕ
map_region none fd size p = (err mmap_failed, p)
map_region (some addr) fd size p = (
  ok addr,
  record p { mapped = p.mapped ++ (addr ∷ []); log = p.log ++ (mapping addr fd size ∷ []) },
)

-- `memfd_create` with both flags.
pub data Made : Type 0 where
  made : ℕ → Made
  einval : Made
  failed : Made

abbrev pub memfd : Made → Option ℕ → Option ℕ
memfd (made fd) plain = some fd
memfd einval plain = plain
memfd failed plain = none

-- `plain` is the answer to the call without sealing.
unfoldable pub create_memfd : Made → Option ℕ → Bool → ℕ → Action ℕ
create_memfd first plain resized size = do
  fd ← given memfd_create_failed (memfd first plain)
  if resized
      then (modify (tell (sized fd size)) >> pure fd)
      else (modify (close_fds (fd ∷ [])) >> throw ftruncate_failed)

unfoldable pub create_eventfd : Option ℕ → Action ℕ
create_eventfd o = given eventfd_failed o

-- `FdTag`
abbrev pub tag_memfd : ℕ
tag_memfd = 1296387398

abbrev pub tag_eventfd : ℕ
tag_eventfd = 1163281988

-- The data of a message: the tag at the front of 256 bytes.
abbrev pub tag_data : ℕ → List ℕ
tag_data tag = le32 tag ++ replicate 252 0

abbrev sent_whole : Option ℕ → ℕ → ℕ → Action (Unit {0})
sent_whole none tag fd = throw sendmsg_failed
sent_whole (some n) tag fd =
    if ltb n 256 then throw partial_send else modify (tell (sent (tag_data tag) fd))

unfoldable pub send_fd : Option ℕ → ℕ → ℕ → Action (Unit {0})
send_fd o fd tag = sent_whole o tag fd

-- A message: its bytes, `MSG_CTRUNC`, and the descriptors of its first control message, if that is of
-- the kind SCM_RIGHTS.
pub record Message : Type 0 where
  pub bytes : List ℕ
  pub truncated : Bool
  pub rights : Option (List ℕ)

abbrev pub fds_of : Option (List ℕ) → List ℕ
fds_of none = []
fds_of (some fds) = fds

-- The kernel gives the descriptors of a message as it is received.
abbrev pub install : Message → Process → Process
install m p = record p { opened = p.opened ++ fds_of m.rights }

unfoldable pub one_fd : Option (List ℕ) → Action ℕ
one_fd none = throw no_rights
one_fd (some []) = throw rights_too_short
one_fd (some (fd ∷ [])) = pure fd
one_fd (some (fd ∷ more ∷ fds)) = modify (close_fds (fd ∷ more ∷ fds)) >> throw many_fds

abbrev pub received : Option Message → Action (ℕ × ℕ)
received none = throw recvmsg_failed
received (some m) = do
  modify (install m)
  throw_if (length m.bytes == 0) connection_closed
  throw_if (ltb (length m.bytes) 4) too_short
  throw_if m.truncated control_truncated
  fd ← one_fd m.rights
  pure (fd, from_le32 m.bytes 0)

unfoldable pub recv_fd : Option Message → Action (ℕ × ℕ)
recv_fd o = received o

-- The descriptor with another tag is closed by the destructor of `fd`.
unfoldable pub recv_fd_expect : Option Message → ℕ → Action ℕ
recv_fd_expect o expected = do
  (fd, tag) ← recv_fd o
  if tag == expected then pure fd else (modify (close_fds (fd ∷ [])) >> throw wrong_tag)

-- The size of `sun_path`.
abbrev pub sun_path : ℕ
sun_path = 108

-- A step of a function that holds `sfd`, which it closes if the step fails.
unfoldable pub or_close : Bool → ℕ → Thrown → Action (Unit {0})
or_close done sfd e = if done then pure tt else (modify (close_fds (sfd ∷ [])) >> throw e)

unfoldable pub listen_unix_socket : List ℕ → Option ℕ → Bool → Bool → Action ℕ
listen_unix_socket path socket bound listening = do
  throw_if (leb sun_path (length path)) path_too_long
  sfd ← given socket_failed socket
  modify (tell (unlinked path))
  or_close bound sfd bind_failed
  or_close listening sfd listen_failed
  pure sfd

unfoldable pub connect_unix_socket : List ℕ → Option ℕ → Bool → Action ℕ
connect_unix_socket path socket connected = do
  throw_if (leb sun_path (length path)) path_too_long
  sfd ← given socket_failed socket
  or_close connected sfd connect_failed
  pure sfd
