-- ===== src/SimplePod/Deliver.antt =====
-- `DrainRing` of include/shm_ipc/shm_connection.hpp with the codec of include/shm_ipc/simple_pod_codec.hpp.
use shm_cpp.Common.{
  ℕ, zero, suc, ◌+◌, ◌≤◌, ◌<◌, ◌^◌, ◌≡◌, refl, sym, subst, ap, ◌∙◌, arith, branch, Bool, true,
  if◌then◌else◌, Option, false, some, List, [], ◌∷◌, ◌++◌, length, drop, length-append,
  drop-length_append, ltb, leb, ◌==◌,
}
use shm_cpp.Ring.{IsCapacity}
use shm_cpp.Ring.Window.{Holds}
use shm_cpp.Ring.Read.{peek-Sees, peek-empty, available-length}
use shm_cpp.Channel
use shm_cpp.Pod.{tag_size}
use shm_cpp.Connection.{
  State, verifing, established, closeing, closeed, Conn, Encoded, is_open, disconnect, skip_package,
  need_more_buffer,
}
use shm_cpp.Connection.Receive.{
  Drained, drained, commit, on_message, with_decoder, decoded, drain_loop, drain_ring,
}
use shm_cpp.Connection.Drain.{input, commit-Holds}
use shm_cpp.SimplePod.{Any, Registry, Stateless, decode}
use shm_cpp.SimplePod.Registering.{IsRegistered}
use shm_cpp.SimplePod.Wire.{wire, length-wire, decode-wire}

-- Objects with the tags that their types go under.
abbrev pub wires : List (ℕ × Any) → List ℕ
wires [] = []
wires ((tag, pkg) ∷ ps) = wire tag pkg ++ wires ps

abbrev pub AllRegistered : Registry → List (ℕ × Any) → Type 0
AllRegistered reg [] = Unit {0}
AllRegistered reg ((tag, pkg) ∷ ps) =
    IsRegistered reg pkg.ty tag (length pkg.bytes) × AllRegistered reg ps

-- The message callback does not touch the ring that it is called from, nor the codec.
pub record LeavesRing (cb : Any → Conn Stateless → Conn Stateless) : Type 0 where
  pub same_read : (p : Any) (c : Conn Stateless) → (cb p c).channel.read_ring ≡ c.channel.read_ring
  pub same_codec : (p : Any) (c : Conn Stateless) → (cb p c).codec ≡ c.codec

-- The states in which a connection is in use.
abbrev pub in_use : State → Bool
in_use verifing = true
in_use established = true
in_use closeing = false
in_use closeed = false

is_open-in_use : (x : State) → is_open x ≡ in_use x
unfolding is_open
is_open-in_use verifing = refl
is_open-in_use established = refl
is_open-in_use closeing = refl
is_open-in_use closeed = refl

-- The connection after an object has been taken from the ring, and handed to the callback if the
-- connection is in use.
abbrev pub hand_on : (Any → Conn Stateless → Conn Stateless) → Any → Conn Stateless → Conn Stateless
hand_on cb pkg d =
    let d' = commit (tag_size + length pkg.bytes) (record d { codec = some tt }) in
    if in_use d.state then cb pkg d' else d'

-- All objects in their order.
abbrev pub deliver :
    (Any → Conn Stateless → Conn Stateless) → List (ℕ × Any) → Conn Stateless → Conn Stateless
deliver cb [] d = d
deliver cb ((tag, pkg) ∷ ps) d = deliver cb ps (hand_on cb pkg d)

module _ {cap : ℕ} (c : IsCapacity cap) (reg : Registry)
    (ska : Stateless → List ℕ → Encoded Stateless) (cb : Any → Conn Stateless → Conn Stateless)
    (leaves : LeavesRing cb) where
  hand_on_lem :
      (pkg : Any) (d : Conn Stateless) {r : ℕ} {q : List ℕ}
      → Holds cap d.channel.read_ring r q
      → tag_size + length pkg.bytes ≤ length q
      → ((hand_on cb pkg d).codec ≡ some tt)
        × Holds cap
            (hand_on cb pkg d).channel.read_ring
            (r + (tag_size + length pkg.bytes))
            (drop (tag_size + length pkg.bytes) q)
  unfolding commit Channel.commit_read
  hand_on_lem pkg d {r} {q} h few =
      branch
        (λ (x : Conn Stateless).
          (x.codec ≡ some tt)
          × Holds cap x.channel.read_ring (r + (tag_size + length pkg.bytes))
              (drop (tag_size + length pkg.bytes) q))
        (in_use d.state)
        (
          leaves.same_codec pkg _,
          rw (leaves.same_read pkg _) (commit-Holds c (tag_size + length pkg.bytes) r q d h few),
        )
        (refl, commit-Holds c (tag_size + length pkg.bytes) r q d h few)

  -- One object in front of others.
  decoded-wire :
      (again : ℕ → Conn Stateless → Option (Drained × Conn Stateless)) (k tag : ℕ) (pkg : Any)
      (rest : List ℕ) (d : Conn Stateless)
      → IsRegistered reg pkg.ty tag (length pkg.bytes)
      → decoded ska cb cap again k
          (length (wire tag pkg ++ rest))
          (decode reg tt (wire tag pkg ++ rest))
          (record d { codec = some tt })
        ≡ again (k + 1) (hand_on cb pkg d)
  unfolding decoded on_message commit
  decoded-wire again k tag pkg rest d known =
      rw (decode-wire pkg known refl rest) (rw (f1, f2, f3, f4, f5, is_open-in_use d.state) refl)
    where
      n : ℕ
      n = tag_size + length pkg.bytes

      f1 : (n == disconnect) ≡ false
      f1 = ground (arith, known.size_fits)

      f2 : (n == need_more_buffer) ≡ false
      f2 = ground arith

      f3 : (n == skip_package) ≡ false
      f3 = ground (arith, known.size_fits)

      f4 : leb (2 ^ 31) n ≡ false
      f4 = ground (arith, known.size_fits)

      f5 : ltb (length (wire tag pkg ++ rest)) n ≡ false
      f5 = ground (arith, length-append (wire tag pkg) rest, length-wire pkg known refl)

  drain_loop-deliver :
      (ps : List (ℕ × Any)) (n k r : ℕ) (d : Conn Stateless)
      → AllRegistered reg ps
      → length ps < n
      → d.codec ≡ some tt
      → Holds cap d.channel.read_ring r (wires ps)
      → (r' : ℕ) × (drain_loop (decode reg) ska cb cap n k d
          ≡ some (drained (k + length ps), deliver cb ps d))
        × Holds cap (deliver cb ps d).channel.read_ring r' []
  unfolding drain_loop Channel.peek
  drain_loop-deliver ps zero k r d all few told h = absurd (omega arith)
  drain_loop-deliver [] (suc n) k r d all few told h =
      (r, rw (peek-empty c h refl) (ap (λ j. some (drained j, d)) (omega arith)), h)
  drain_loop-deliver ((tag, pkg) ∷ ps) (suc n) k r d (known, all) few told h =
      let size = length-wire pkg known refl in
      let long = length-append (wire tag pkg) (wires ps) in
      let (s, e, sees) = peek-Sees c h (omega (arith, size, long)) in
      let (told', left) = hand_on_lem pkg d h (omega (arith, size, long)) in
      let (r', done, held) =
        drain_loop-deliver ps n (k + 1) (r + (tag_size + length pkg.bytes)) (hand_on cb pkg d) all
          (omega arith) told'
          (subst
            (λ q.
              Holds cap (hand_on cb pkg d).channel.read_ring (r + (tag_size + length pkg.bytes)) q)
            (rest_lem tag pkg ps known) left) in
      (
        r',
        rw (e, input d.channel.read_ring s sees.seen, told)
            (decoded-wire (drain_loop (decode reg) ska cb cap n) k tag pkg (wires ps) d known
              ∙ done
              ∙ ap (λ j. some (drained j, deliver cb ps (hand_on cb pkg d))) (omega arith)),
        held,
      )
    where
      rest_lem :
          (tag : ℕ) (pkg : Any) (ps : List (ℕ × Any))
          → IsRegistered reg pkg.ty tag (length pkg.bytes)
          → drop (tag_size + length pkg.bytes) (wire tag pkg ++ wires ps) ≡ wires ps
      rest_lem tag pkg ps known =
          ap (λ j. drop j (wire tag pkg ++ wires ps)) (sym (length-wire pkg known refl))
          ∙ drop-length_append (wire tag pkg) (wires ps)

  length-wires : (ps : List (ℕ × Any)) → AllRegistered reg ps → length ps ≤ length (wires ps)
  length-wires [] all = omega arith
  length-wires ((tag, pkg) ∷ ps) (known, all) = omega (
    arith,
    length-wires ps all,
    length-append (wire tag pkg) (wires ps),
    length-wire pkg known refl,
  )

  -- Where the ring holds tagged objects of registered types, `DrainRing` takes all of them, in their order,
  -- as objects of the types that they were tagged as, hands each to the message callback as long as the
  -- connection is established or being verified, counts all of them, and leaves the ring empty.
  pub drain_ring-deliver :
      (ps : List (ℕ × Any)) (d : Conn Stateless) {r : ℕ}
      → AllRegistered reg ps
      → d.codec ≡ some tt
      → Holds cap d.channel.read_ring r (wires ps)
      → (r' : ℕ) × (drain_ring (decode reg) ska cb cap d
          ≡ some (drained (length ps), deliver cb ps d))
        × Holds cap (deliver cb ps d).channel.read_ring r' []
  unfolding drain_ring Channel.readable
  drain_ring-deliver ps d {r} all told h =
      let (r', done, held) =
        drain_loop-deliver ps (suc (Channel.readable d.channel)) 0 r d all
          (omega (arith, length-wires ps all, available-length c h)) told h in
      (
        r',
        ap
              (with_decoder
                (λ t. drain_loop (decode reg) ska cb cap (suc (Channel.readable d.channel)) 0 d) d)
              told
            ∙ done
            ∙ ap (λ j. some (drained j, deliver cb ps d)) (omega arith),
        held,
      )
