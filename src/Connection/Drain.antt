-- ===== src/Connection/Drain.antt =====
-- `DrainRing` of include/shm_ipc/shm_connection.hpp comes back, and only where there is nothing to do.
use shm_cpp.Common.{
  ℕ, zero, suc, ◌+◌, ◌≤◌, ◌<◌, ◌^◌, ◌≡◌, ◌⊎◌, refl, sym, subst, ◌∙◌, Bool, true, Option, none, some,
  List, [], ◌∷◌, ◌++◌, append-nil, length, take, drop, ltb, leb, ◌==◌, if◌then◌else◌, arith,
  Bool-cases, branch, inl, inr, ◌||◌, length-drop, drop-drop, u32,
}
use shm_cpp.Ring.{IsCapacity, Shm, Segments, view}
use shm_cpp.Ring.Window.{Holds}
use shm_cpp.Ring.Read.{peek-Sees, peek-empty, available-length, commit_read-Holds}
use shm_cpp.Channel
use shm_cpp.Channel.{Channel}
use shm_cpp.Connection.{
  Conn, Encoded, is_open, skip_package, disconnect, need_more_buffer, send_keepalive_response,
}
use shm_cpp.Connection.Command.{IsInBuffer, Ends, send_keepalive_response-Ends}
use shm_cpp.Connection.Receive.{
  Decoded, Drained, broken, drained, decode_input, commit, on_message, answered, heartbeat,
  with_decoder, decoded, drain_loop, drain_ring,
}

-- The write ring holds something.
pub record Writable (cap : ℕ) (ch : Channel) : Type 0 where
  pub from : ℕ
  pub unread : List ℕ
  pub holds : Holds cap ch.write_ring from unread

-- A message callback that uses the connection to send and to close only.
pub record SendsOnly {S P : Type 0} (cap : ℕ) (cb : P → Conn S → Conn S) : Type 0 where
  pub same_read : (p : P) (c : Conn S) → (cb p c).channel.read_ring ≡ c.channel.read_ring
  pub writable : (p : P) (c : Conn S) → Writable cap c.channel → Writable cap (cb p c).channel

-- An answer for `n` bytes that ends the connection.
abbrev pub bad : {S P : Type 0} → Decoded S P → ℕ → Bool
bad e n =
    e.len == disconnect
    || (if e.len == skip_package
        then e.out == 0 || ltb n e.out
        else leb (2 ^ 31) e.len || ltb n e.len)

-- Why it stopped, with the bytes `q` in the ring.
abbrev pub Stops : {S P : Type 0} → (S → List ℕ → Decoded S P) → Drained → Conn S → List ℕ → Type 0
Stops {S} decode broken c q =
    (c.codec ≡ none)
    ⊎ ((t : S) × (bad (decode t q) (length q) ≡ true) × (c.codec ≡ some (decode t q).next))
Stops {S} decode (drained count) c q =
    (q ≡ [])
    ⊎ ((t : S) × ((decode t q).len ≡ need_more_buffer) × (c.codec ≡ some (decode t q).next))

abbrev pub messages : Drained → ℕ
messages broken = 0
messages (drained count) = count

-- From the unread bytes `q` on, `taken` were consumed.
pub record Took {S P : Type 0} (cap : ℕ) (decode : S → List ℕ → Decoded S P) (res : Drained)
    (c : Conn S) (count r : ℕ) (q : List ℕ) (taken : ℕ) : Type 0 where
  pub within : taken ≤ length q
  pub holds : Holds cap c.channel.read_ring (r + taken) (drop taken q)
  pub writable : Writable cap c.channel
  pub counted : messages res ≤ count + taken
  pub stops : Stops decode res c (drop taken q)

Comes :
    {S P : Type 0}
    → ℕ
    → (S → List ℕ → Decoded S P)
    → Option (Drained × Conn S)
    → ℕ
    → ℕ
    → List ℕ
    → Type 0
Comes {S} cap decode o count r q =
    (res : Drained) × (c : Conn S) × (taken : ℕ) × (o ≡ some (res, c))
    × Took cap decode res c count r q taken

-- What the codec is given is what the ring holds.
pub input :
    (m : Shm) (s : Segments) {q : List ℕ}
    → view m s.seg1 ++ view m s.seg2 ≡ q
    → decode_input m s ≡ q
unfolding decode_input
input m s {q} e = elim (Bool-cases (ltb 0 s.seg2.len)) [
  | inl two ↦ rw two e
  | inr one ↦
      let empty : s.seg2.len ≡ 0 = ground arith in
      rw one (
        sym (append-nil _)
        ∙ subst (λ k. view m s.seg1 ++ take k (drop s.seg2.off m.bytes) ≡ q) empty e)
]

pub commit-Holds :
    {S : Type 0} {cap : ℕ} (c : IsCapacity cap) (n r : ℕ) (q : List ℕ) (d : Conn S)
    → Holds cap d.channel.read_ring r q
    → n ≤ length q
    → Holds cap (commit n d).channel.read_ring (r + n) (drop n q)
unfolding commit Channel.commit_read
commit-Holds c n r q d h few =
    let whole : u32 n ≡ n = ground (arith, h.window.size, c.fits) in
    rw whole (commit_read-Holds c h n few)

module _ {S P : Type 0} {cap : ℕ} (c : IsCapacity cap) (decode : S → List ℕ → Decoded S P) where
  -- It stops without taking anything more.
  here :
      (res : Drained) (d : Conn S) (count r : ℕ) (q : List ℕ)
      → Holds cap d.channel.read_ring r q
      → Writable cap d.channel
      → messages res ≤ count
      → Stops decode res d q
      → Comes cap decode (some (res, d)) count r q
  unfolding Comes
  here res d count r q h w m s = (
    res,
    d,
    0,
    refl,
    record {
      within = omega arith;
      holds = subst (λ t. Holds cap d.channel.read_ring t q) (omega arith) h;
      writable = w;
      counted = omega arith;
      stops = s;
    },
  )

  -- It goes on after `n` bytes, with `later` messages so far.
  further :
      (o : Option (Drained × Conn S)) (n later count r : ℕ) (q : List ℕ)
      → n ≤ length q
      → later ≤ count + n
      → Comes cap decode o later (r + n) (drop n q)
      → Comes cap decode o count r q
  unfolding Comes
  further o n later count r q few less (res, d, taken, e, t) = (
    res,
    d,
    n + taken,
    e,
    record {
      within = omega (arith, t.within, length-drop n q);
      holds =
          subst (λ k. Holds cap d.channel.read_ring k (drop (n + taken) q)) (omega arith)
            (rw (drop-drop taken n q) at t.holds);
      writable = t.writable;
      counted = omega (arith, t.counted);
      stops = rw (drop-drop taken n q) at t.stops;
    },
  )

  module _ (ska : S → List ℕ → Encoded S)
      (honest : (t : S) (buf : List ℕ) → IsInBuffer (ska t buf) buf) (cb : P → Conn S → Conn S)
      (sends : SendsOnly cap cb) where
    -- What the next turn is given.
    Next : (ℕ → Conn S → Option (Drained × Conn S)) → ℕ → List ℕ → Type 0
    Next again r q =
        (k n : ℕ) (d : Conn S)
        → 0 < n
        → n ≤ length q
        → Holds cap d.channel.read_ring (r + n) (drop n q)
        → Writable cap d.channel
        → Comes cap decode (again k d) k (r + n) (drop n q)

    commit-Writable :
        (n : ℕ) (d : Conn S) → Writable cap d.channel → Writable cap (commit n d).channel
    unfolding commit Channel.commit_read
    commit-Writable n d w = record { from = w.from; unread = w.unread; holds = w.holds }

    heartbeat-Comes :
        (again : ℕ → Conn S → Option (Drained × Conn S)) (k n r : ℕ) (q : List ℕ) (d : Conn S)
        → Next again r q
        → 0 < n
        → n ≤ length q
        → Holds cap d.channel.read_ring r q
        → Writable cap d.channel
        → Comes cap decode (heartbeat ska cap (again k) n d) k r q
    unfolding heartbeat Next Ends
    heartbeat-Comes again k n r q d next pos few h w = further _ n k k r q few (omega arith) (
        branch (λ o. Comes cap decode o k (r + n) (drop n q)) (commit n d).keepalive replied
          (next k n (commit n d) pos few held w'))
      where
        held : Holds cap (commit n d).channel.read_ring (r + n) (drop n q)
        held = commit-Holds c n r q d h few

        w' : Writable cap (commit n d).channel
        w' = commit-Writable n d w

        replied :
            Comes cap decode
              (answered (again k) (send_keepalive_response ska cap (commit n d)))
              k
              (r + n)
              (drop n q)
        replied =
            let (ok, d', x, e, snt) =
              send_keepalive_response-Ends c ska honest (commit n d) w'.holds in
            rw e (
              next k n d' pos few (rw (← snt.same_read) at held)
                record { from = w'.from; unread = w'.unread ++ x; holds = snt.holds })

    on_message-Keeps :
        (p : P) (d : Conn S)
        → Writable cap d.channel
        → ((on_message cb p d).channel.read_ring ≡ d.channel.read_ring)
          × Writable cap (on_message cb p d).channel
    unfolding on_message
    on_message-Keeps p d w =
        branch
          (λ (x : Conn S). (x.channel.read_ring ≡ d.channel.read_ring) × Writable cap x.channel)
          (is_open d.state) (sends.same_read p d, sends.writable p d w) (refl, w)

    message-Comes :
        (again : ℕ → Conn S → Option (Drained × Conn S)) (k n r : ℕ) (q : List ℕ) (p : P)
        (d : Conn S)
        → Next again r q
        → 0 < n
        → n ≤ length q
        → Holds cap d.channel.read_ring r q
        → Writable cap d.channel
        → Comes cap decode (again (k + 1) (on_message cb p (commit n d))) k r q
    unfolding Next
    message-Comes again k n r q p d next pos few h w =
        let (same, w') = on_message-Keeps p (commit n d) (commit-Writable n d w) in
        further _ n (k + 1) k r q few (omega arith) (
          next (k + 1) n (on_message cb p (commit n d)) pos few
            (rw (← same) at (commit-Holds c n r q d h few)) w')

    decoded-Comes :
        (again : ℕ → Conn S → Option (Drained × Conn S)) (k r : ℕ) (q : List ℕ) (t : S) (d : Conn S)
        → Next again r q
        → d.codec ≡ some (decode t q).next
        → Holds cap d.channel.read_ring r q
        → Writable cap d.channel
        → Comes cap decode (decoded ska cb cap again k (length q) (decode t q) d) k r q
    unfolding decoded Next
    decoded-Comes again k r q t d next told h w = elim (Bool-cases (e.len == disconnect)) [
      | inl gone ↦ rw gone (here broken d k r q h w (omega arith) (inr (t, ground arith, told)))
      | inr f1 ↦ elim (Bool-cases (e.len == need_more_buffer)) [
        | inl more ↦
            rw (f1, more) (here (drained k) d k r q h w (omega arith) (inr (t, ground arith, told)))
        | inr f2 ↦ elim (Bool-cases (e.len == skip_package)) [
          | inl beat ↦
              rw (f1, f2, beat)
                (elim (Bool-cases (e.out == 0 || ltb (length q) e.out)) [
                  | inl wrong ↦
                      rw wrong (here broken d k r q h w (omega arith) (inr (t, ground arith, told)))
                  | inr right ↦
                      rw right
                        (heartbeat-Comes again k e.out r q d next (ground arith) (ground arith) h w)
                ])
          | inr f3 ↦
              rw (f1, f2, f3)
                (elim (Bool-cases (leb (2 ^ 31) e.len)) [
                  | inl wrong ↦
                      rw wrong (here broken d k r q h w (omega arith) (inr (t, ground arith, told)))
                  | inr f4 ↦ elim (Bool-cases (ltb (length q) e.len)) [
                    | inl wrong ↦
                        rw (f4, wrong)
                          (here broken d k r q h w (omega arith) (inr (t, ground arith, told)))
                    | inr f5 ↦
                        rw (f4, f5)
                          (message-Comes again k e.len r q e.pkg d next (ground arith)
                            (ground arith) h w)
                  ]
                ])
        ]
      ]
    ]
      where
        e : Decoded S P
        e = decode t q

    drain_loop-Comes :
        (n k r : ℕ) (q : List ℕ) (d : Conn S)
        → length q < n
        → Holds cap d.channel.read_ring r q
        → Writable cap d.channel
        → Comes cap decode (drain_loop decode ska cb cap n k d) k r q
    unfolding drain_loop Next Channel.peek
    drain_loop-Comes zero k r q d few h w = absurd (omega arith)
    drain_loop-Comes (suc n) k r [] d few h w =
        rw (peek-empty c h refl) (here (drained k) d k r [] h w (omega arith) (inl refl))
    drain_loop-Comes (suc n) k r (x ∷ q) d few h w =
        let (s, e, sees) = peek-Sees c h (omega arith) in
        rw (e, input d.channel.read_ring s sees.seen)
          (asked d.codec refl (λ k' m d' pos fit h' w'.
            drain_loop-Comes n k' (r + m) (drop m (x ∷ q)) d' (omega (arith, length-drop m (x ∷ q)))
              h' w'))
      where
        step : S → Option (Drained × Conn S)
        step t =
            decoded ska cb cap (drain_loop decode ska cb cap n) k (length (x ∷ q))
              (decode t (x ∷ q)) (record d { codec = some (decode t (x ∷ q)).next })

        asked :
            (o : Option S)
            → d.codec ≡ o
            → Next (drain_loop decode ska cb cap n) r (x ∷ q)
            → Comes cap decode (with_decoder step d o) k r (x ∷ q)
        asked none told next = here broken d k r (x ∷ q) h w (omega arith) (inl told)
        asked (some t) told next =
            decoded-Comes (drain_loop decode ska cb cap n) k r (x ∷ q) t
              (record d { codec = some (decode t (x ∷ q)).next }) next refl h w

    -- If the codec's heartbeats fit its buffer and the message callback only sends and closes, `DrainRing`
    -- comes back, whatever the peer has written and however the codec answers. It has taken bytes from
    -- the front of the ring only, and counted at most one message for each. It returns the number of messages only where the ring is empty or the codec wants more than is there, and -1 only
    -- where the codec is missing, reports an error, or claims bytes that are not there.
    pub drain_ring-Took :
        (d : Conn S) {r : ℕ} {q : List ℕ}
        → Holds cap d.channel.read_ring r q
        → Writable cap d.channel
        → (res : Drained) × (d' : Conn S) × (taken : ℕ) × (drain_ring decode ska cb cap d
            ≡ some (res, d'))
          × Took cap decode res d' 0 r q taken
    unfolding drain_ring Comes Channel.readable
    drain_ring-Took d {r} {q} h w = checked d.codec refl
      where
        checked :
            (o : Option S)
            → d.codec ≡ o
            → Comes cap decode
                (with_decoder
                  (λ t. drain_loop decode ska cb cap (suc (Channel.readable d.channel)) 0 d)
                  d
                  o)
                0
                r
                q
        checked none told = here broken d 0 r q h w (omega arith) (inl told)
        checked (some t) told = drain_loop-Comes _ 0 r q d (omega (arith, available-length c h)) h w
