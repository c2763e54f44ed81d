-- ===== src/Client/Receive.antt =====
-- `ReadMessage` of include/shm_ipc/shm_client.hpp loses no byte.
use shm_cpp.Common.{
  ℕ, ◌+◌, ◌≤◌, ◌<◌, ◌≡◌, ◌⊎◌, refl, sym, subst, ap, ◌∙◌, Option, none, some, List, [], ◌∷◌, ◌++◌,
  append_assoc, append-nil, length, drop, length-append, take-append-drop, length-take,
  nil_of_length, take_all, min, ltb, ◌==◌, ◌||◌, u32, u32_mod, arith, true, Bool-cases, branch, inl,
  inr,
}
use shm_cpp.Ring.{IsCapacity, Shm, max_write_size}
use shm_cpp.Ring
use shm_cpp.Ring.Window.{Holds}
use shm_cpp.Ring.Write.{try_write-push}
use shm_cpp.Ring.Read.{try_read-take}
use shm_cpp.Ring.Queue
use shm_cpp.Channel.{try_read}
use shm_cpp.Client.{
  Client, connected, close, Read, bytes, peer_closed, failed, timed_out, Polled, interrupted,
  poll_failed, elapsed, woken, Turn, wait, read_or, after_poll, read_loop, read_message,
}

abbrev pub received : Read → List ℕ
received (bytes out) = out
received peer_closed = []
received failed = []
received timed_out = []

-- What each result says of the bytes `rest` that are still in the ring, for a buffer of `bsize` bytes.
abbrev pub Says : ℕ → Read → Client → List ℕ → Type 0
Says bsize (bytes out) c rest = (0 < length out) × (length out ≤ bsize)
Says bsize peer_closed c rest = (rest ≡ []) × (c.socket_fd ≡ none)
Says bsize failed c rest = Unit {0}
Says bsize timed_out c rest = Unit {0}

-- In the turns the peer wrote `w`; what does not fit into the ring is refused.
pub data Written : List Turn → List ℕ → Type 0 where
  nothing : {ts : List Turn} → Written ts []
  refused : {t : Turn} {ts : List Turn} {w : List ℕ} → Written ts w → Written (t ∷ ts) w
  stored :
      {t : Turn} {ts : List Turn} {w : List ℕ} → Written ts w → Written (t ∷ ts) (t.arrives ++ w)

-- `q` was in the ring and the peer wrote `w`; `rest` has not been read.
pub record Reads (cap bsize : ℕ) (res : Read) (c : Client) (r : ℕ) (q w rest : List ℕ)
    : Type 0 where
  pub whole : received res ++ rest ≡ q ++ w
  pub holds : Holds cap c.channel.read_ring (r + length (received res)) rest
  pub says : Says bsize res c rest

-- What the ring refuses even where it is empty.
abbrev pub Refused : ℕ → List ℕ → Type 0
Refused cap xs = (length xs == 0 || ltb (max_write_size cap) (length xs)) ≡ true

-- Nothing of what the peer wrote in the turns got into the ring.
abbrev pub Silent : ℕ → List Turn → Type 0
Silent cap [] = Unit {0}
Silent cap (t ∷ ts) = Refused cap t.arrives × Silent cap ts

-- A call that still waits started with an empty ring, and nothing has got into it.
abbrev pub Reported : ℕ → ℕ → List Turn → ℕ → List ℕ → Option (Read × Client) → Type 0
Reported cap bsize ts r q none = (q ≡ []) × Silent cap ts
Reported cap bsize ts r q (some (res, c)) =
    (w : List ℕ) × (rest : List ℕ) × Written ts w × Reads cap bsize res c r q w rest

-- The peer wrote `xs`, and `w` of it got into the ring behind `q`.
record Stored (cap : ℕ) (q xs w : List ℕ) : Type 0 where
  pub all_or_none : (w ≡ []) ⊎ (w ≡ xs)
  pub lost : q ++ w ≡ [] → Refused cap xs

empty_parts : (q w : List ℕ) → q ++ w ≡ [] → (q ≡ []) × (w ≡ [])
empty_parts q w e =
    let both : length q + length w ≡ 0 = omega (arith, length-append q w, ap length e) in
    (nil_of_length q (omega (arith, both)), nil_of_length w (omega (arith, both)))

Written-cons :
    (t : Turn) (ts : List Turn) (w w' : List ℕ)
    → (w ≡ []) ⊎ (w ≡ t.arrives)
    → Written ts w'
    → Written (t ∷ ts) (w ++ w')
Written-cons t ts w w' (inl e) wr = rw e (refused wr)
Written-cons t ts w w' (inr e) wr = rw e (stored wr)

module _ {cap bsize : ℕ} (cc : IsCapacity cap) (pos : 0 < bsize) (small : bsize < u32_mod) where
  -- It ends without a byte.
  quiet :
      (ts : List Turn) (res : Read) (c : Client) (r : ℕ) (q : List ℕ)
      → received res ≡ []
      → Says bsize res c q
      → Holds cap c.channel.read_ring r q
      → Reported cap bsize ts r q (some (res, c))
  quiet ts res c r q e says h = (
    [],
    q,
    nothing,
    record {
      whole = rw e (sym (append-nil q));
      holds = rw e (subst (λ k. Holds cap c.channel.read_ring k q) (omega arith) h);
      says = says;
    },
  )

  read_or-Reported :
      (ts : List Turn) (c : Client) (r : ℕ) (q : List ℕ) (otherwise : Option (Read × Client))
      → Holds cap c.channel.read_ring r q
      → (q ≡ [] → Reported cap bsize ts r q otherwise)
      → Reported cap bsize ts r q (read_or cap bsize c otherwise)
  unfolding read_or try_read
  read_or-Reported ts c r q otherwise h rest =
      let whole : u32 bsize ≡ bsize = ground (arith, small) in
      let k : ℕ = min bsize (length q) in
      let (n, out, held) = try_read-take cc h bsize small in
      let taken : length (try_read cap c.channel bsize).1 ≡ k =
        ap length out ∙ length-take k q ∙ omega arith in
      rw (whole, n)
        (elim (Bool-cases (ltb 0 (min bsize (length q)))) [
          | inl some_bytes ↦ rw some_bytes (
            [],
            drop k q,
            nothing,
            record {
              whole = rw out (take-append-drop k q ∙ sym (append-nil q));
              holds = rw taken held;
              says = rw taken (ground arith, omega arith);
            },
          )
          | inr empty ↦ rw empty (rest (nil_of_length q (ground arith)))
        ])

  push-Stored :
      (q xs : List ℕ)
      → (w : List ℕ) × ((Queue.push cap q (some xs) (length xs)).1 ≡ q ++ w) × Stored cap q xs w
  unfolding Queue.push
  push-Stored q xs =
      elim (Bool-cases (
        length xs == 0 || ltb (max_write_size cap) (length xs) || ltb cap (length q + length xs))) [
          | inl e ↦ (
            [],
            rw (e, append-nil q) refl,
            record {
              all_or_none = inl refl;
              lost = λ nil. ground (arith, e, empty_parts q [] nil, cc.at_least, half);
            },
          )
          | inr e ↦ (
            xs,
            rw (e, take_all (length xs) xs (omega arith)) refl,
            record { all_or_none = inr refl; lost = λ nil. ground (arith, empty_parts q xs nil) },
          )
        ]
    where
      half : max_write_size cap ≤ cap
      half = omega arith

  arrive-Holds :
      (xs : List ℕ) (m : Shm) (r : ℕ) (q : List ℕ)
      → Holds cap m r q
      → (w : List ℕ) × Stored cap q xs w
        × Holds cap (Ring.try_write cap m (some xs) (length xs)).1 r (q ++ w)
  unfolding Ring.try_write
  arrive-Holds xs m r q h =
      elim (Bool-cases (length xs == 0 || ltb (max_write_size cap) (length xs))) [
        | inl over ↦
            rw over ([], record { all_or_none = inl refl; lost = λ _. over }, rw (append-nil q) h)
        | inr fits ↦
            let (code, held) =
              try_write-push cc h (some xs) (length xs) (omega arith, ground (arith, cc.fits)) in
            let (w, e, put) = push-Stored q xs in
            (
              w,
              put,
              subst (λ p. Holds cap (Ring.try_write cap m (some xs) (length xs)).1 r p) e held,
            )
      ]

  wait-Holds :
      (t : Turn) (c : Client) (r : ℕ) (q : List ℕ)
      → Holds cap c.channel.read_ring r q
      → (w : List ℕ) × Stored cap q t.arrives w
        × Holds cap (wait cap t c).channel.read_ring r (q ++ w)
  unfolding wait close
  wait-Holds t c r q h =
      let (w, put, held) = arrive-Holds t.arrives c.channel.read_ring r q h in
      (w, put, branch (λ (x : Client). Holds cap x.channel.read_ring r (q ++ w)) t.closes held held)

  after_poll-Reported :
      (ts : List Turn) (again : Client → Option (Read × Client)) (p : Polled) (c : Client) (r : ℕ)
      (q : List ℕ)
      → Holds cap c.channel.read_ring r q
      → Reported cap bsize ts r q (again c)
      → Reported cap bsize ts r q (after_poll cap bsize again p c)
  unfolding after_poll
  after_poll-Reported ts again interrupted c r q h next = next
  after_poll-Reported ts again poll_failed c r q h next = quiet ts failed c r q refl tt h
  after_poll-Reported ts again elapsed c r q h next = quiet ts timed_out c r q refl tt h
  after_poll-Reported ts again (woken socket eof) c r q h next =
      branch (Reported cap bsize ts r q) socket
        (branch (Reported cap bsize ts r q) c.closed (quiet ts failed c r q refl tt h) (
          branch (Reported cap bsize ts r q) eof
            (read_or-Reported ts c r q _ h
              (λ e. quiet ts peer_closed (record c { socket_fd = none }) r q refl (e, refl) h))
            next))
        next

  -- What is written in a turn comes in front of what is written later.
  later :
      (t : Turn) (ts : List Turn) (r : ℕ) (q w : List ℕ) (o : Option (Read × Client))
      → Stored cap q t.arrives w
      → Reported cap bsize ts r (q ++ w) o
      → Reported cap bsize (t ∷ ts) r q o
  later t ts r q w none put (nil, silent) = ((empty_parts q w nil).0, (put.lost nil, silent))
  later t ts r q w (some (res, c)) put (w', rest, wr, reads) = (
    w ++ w',
    rest,
    Written-cons t ts w w' put.all_or_none wr,
    record { whole = reads.whole ∙ append_assoc q w w'; holds = reads.holds; says = reads.says },
  )

  read_loop-Reported :
      (ts : List Turn) (c : Client) (r : ℕ) (q : List ℕ)
      → Holds cap c.channel.read_ring r q
      → Reported cap bsize ts r q (read_loop cap bsize ts c)
  unfolding read_loop
  read_loop-Reported [] c r q h =
      branch (Reported cap bsize [] r q) c.closed (quiet [] failed c r q refl tt h)
        (read_or-Reported [] c r q none h (λ e. (e, tt)))
  read_loop-Reported (t ∷ ts) c r q h =
      let (w, put, held) = wait-Holds t c r q h in
      branch (Reported cap bsize (t ∷ ts) r q) c.closed (quiet (t ∷ ts) failed c r q refl tt h) (
        read_or-Reported (t ∷ ts) c r q _ h (λ e.
          branch (Reported cap bsize (t ∷ ts) r q) t.expired
            (quiet (t ∷ ts) timed_out c r q refl tt h)
            (later t ts r q w _ put (
              after_poll-Reported ts (read_loop cap bsize ts) t.polled (wait cap t c) r (q ++ w)
                held (read_loop-Reported ts (wait cap t c) r (q ++ w) held)))))

  -- With a buffer of 1 to 2 ^ 32 - 1 bytes `ReadMessage` loses nothing, whatever `poll` answers and the peer
  -- writes meanwhile. It returns between one byte and what the buffer holds, from the front of what is
  -- unread; or 0, only where all that the peer wrote has been read, and gives up the socket; or -1 or -2
  -- and leaves all unread bytes in the ring. If the call still waits when the turns are over, the ring was
  -- empty and nothing that the peer wrote in the turns got into it.
  pub read_message-Reported :
      (ts : List Turn) (c : Client) {r : ℕ} {q : List ℕ}
      → Holds cap c.channel.read_ring r q
      → Reported cap bsize ts r q (read_message cap bsize ts c)
  unfolding read_message
  read_message-Reported ts c {r} {q} h =
      branch (Reported cap bsize ts r q) (connected c) (read_loop-Reported ts c r q h)
        (quiet ts failed c r q refl tt h)
