-- ===== src/Fds/Passing.antt =====
-- `RecvFd`, `RecvFdExpect`, `ListenUnixSocket` and `ConnectUnixSocket` of include/shm_ipc/common.hpp: who closes
-- the descriptors, on every path.
use shm_cpp.Common.{
  ℕ, ◌≡◌, ◌⊎◌, inl, inr, refl, arith, Bool, Bool-cases, true, false, Option, none, some, List, [],
  ◌∷◌, ◌++◌, length, ltb, leb, ◌==◌, ◌≤◌, ◌<◌,
}
use shm_cpp.Codec.{from_le32}
use shm_cpp.Common.{count-append}
use shm_cpp.Fds.{
  Thrown, err, Process, ◌>>=◌, ◌>>◌, modify, throw_if, unlinked, sun_path, Message, fds_of, install,
  one_fd, recv_fd, recv_fd_expect, listen_unix_socket, connect_unix_socket, wrong_tag,
  path_too_long, socket_failed, bind_failed, listen_failed, connect_failed, connection_closed,
  too_short, control_truncated, no_rights, rights_too_short, many_fds, recvmsg_failed,
}
use shm_cpp.Fds.Kept.{
  Does, nothing, itself, Does->>=, Does->>, Does-pure, Does-throw, Does-close_throw, Does-if,
  Does-given, Does-throw_if, Does-tell, Does-or_close,
}

-- The descriptors of a message come with a whole tag, and all of them fit the buffer.
abbrev pub Whole : Option Message → Type 0
Whole none = Unit {0}
Whole (some m) = (fds_of m.rights ≡ []) ⊎ ((4 ≤ length m.bytes) × (m.truncated ≡ false))

Does-one_fd : (o : Option (List ℕ)) → Does (fds_of o) [] itself nothing (one_fd o)
unfolding one_fd
Does-one_fd none = Does-throw no_rights
Does-one_fd (some []) = Does-throw rights_too_short
Does-one_fd (some (fd ∷ [])) = Does-pure fd
Does-one_fd (some (fd ∷ more ∷ fds)) = Does-close_throw (fd ∷ more ∷ fds) many_fds

Does-install : (m : Message) → Does [] [] (λ _. fds_of m.rights) nothing (modify (install m))
unfolding modify
Does-install m = record {
  after = λ p l. record {
    descriptors = λ x. omega (arith, l.descriptors x, count-append x p.opened (fds_of m.rights));
    mappings = l.mappings;
  };
}

abbrev pub fd_of : ℕ × ℕ → List ℕ
fd_of x = x.0 ∷ []

pub Does-recv_fd : (o : Option Message) → Whole o → Does [] [] fd_of nothing (recv_fd o)
unfolding recv_fd
Does-recv_fd none w = Does-throw recvmsg_failed
Does-recv_fd (some m) w = Does->> (Does-install m) (
    Does->>
      (Does-throw_if (length m.bytes == 0) connection_closed held (λ e. unlike e (ground arith)))
      (Does->>
        (Does-throw_if (ltb (length m.bytes) 4) too_short held (λ e. unlike e (ground arith)))
        (Does->> (Does-throw_if m.truncated control_truncated held (λ e. unlike e (ground arith)))
          (Does->>= (Does-one_fd m.rights) (λ fd. Does-pure (fd, from_le32 m.bytes 0))))))
  where
    held : List ℕ
    held = fds_of m.rights

    unlike :
        {c : Bool}
        → c ≡ true
        → ((4 ≤ length m.bytes) × (m.truncated ≡ false) → c ≡ false)
        → held ≡ []
    unlike e f = elim w [ inl e' ↦ e' | inr good ↦ absurd (ground (arith, e, f good)) ]

-- A descriptor with another tag than the one that is waited for is closed.
pub Does-recv_fd_expect :
    (o : Option Message) (expected : ℕ)
    → Whole o
    → Does [] [] itself nothing (recv_fd_expect o expected)
unfolding recv_fd_expect
Does-recv_fd_expect o expected w =
    Does->>= (Does-recv_fd o w)
      (λ a. Does-if (a.1 == expected) (Does-pure a.0) (Does-close_throw (a.0 ∷ []) wrong_tag))

pub Does-listen :
    (path : List ℕ) (socket : Option ℕ) (bound listening : Bool)
    → Does [] [] itself nothing (listen_unix_socket path socket bound listening)
unfolding listen_unix_socket
Does-listen path socket bound listening =
    Does->> (Does-throw_if (leb sun_path (length path)) path_too_long [] (λ _. refl)) (
      Does->>= (Does-given socket_failed socket) (λ sfd.
        Does->> (Does-tell (unlinked path) (sfd ∷ [])) (
          Does->> (Does-or_close bound sfd bind_failed)
            (Does->> (Does-or_close listening sfd listen_failed) (Does-pure sfd)))))

pub Does-connect :
    (path : List ℕ) (socket : Option ℕ) (connected : Bool)
    → Does [] [] itself nothing (connect_unix_socket path socket connected)
unfolding connect_unix_socket
Does-connect path socket connected =
    Does->> (Does-throw_if (leb sun_path (length path)) path_too_long [] (λ _. refl)) (
      Does->>= (Does-given socket_failed socket)
        (λ sfd. Does->> (Does-or_close connected sfd connect_failed) (Does-pure sfd)))

-- Where a message brings descriptors but no whole tag, or more than fit the buffer, `RecvFd` throws and
-- leaves them open: the process was given them and has closed nothing.
pub recv_fd-lost :
    (m : Message) (p : Process)
    → (length m.bytes < 4) ⊎ (m.truncated ≡ true)
    → ((e : Thrown) × ((recv_fd (some m) p).0 ≡ err e))
      × ((recv_fd (some m) p).1 ≡ record p { opened = p.opened ++ fds_of m.rights })
unfolding recv_fd ◌>>=◌ ◌>>◌ modify throw_if
recv_fd-lost m p bad = elim (Bool-cases (length m.bytes == 0)) [
  | inl gone ↦ rw gone ((connection_closed, refl), refl)
  | inr some_bytes ↦ elim (Bool-cases (ltb (length m.bytes) 4)) [
    | inl short ↦ rw (some_bytes, short) ((too_short, refl), refl)
    | inr tagged ↦ rw (some_bytes, tagged, cut tagged) ((control_truncated, refl), refl)
  ]
]
  where
    cut : ltb (length m.bytes) 4 ≡ false → m.truncated ≡ true
    cut tagged = elim bad [ inl short ↦ absurd (ground arith) | inr e ↦ e ]
