-- ===== src/Client/Send.antt =====
-- `SendMessage` of include/shm_ipc/shm_client.hpp does what `WriteRaw` of a connection does.
use shm_cpp.Common.{
  ℕ, zero, suc, ◌+◌, ◌-◌, ◌<◌, ◌≡◌, refl, sym, ap, ◌∙◌, Bool, true, false, Option, none, some, List,
  drop, drop-drop, min, ltb, ◌==◌, if◌then◌else◌, u32, u32_mod, arith, Bool-cases, inl, inr,
}
use shm_cpp.Ring.{Code, ok, err, IsCapacity, max_write_size}
use shm_cpp.Channel.{Channel, try_write, writable_bytes, notify_peer}
use shm_cpp.Connection.{after_chunk, write_chunks, wake, write_raw}
use shm_cpp.Client.{Client, connected, after_write, send_loop, with_channel, send_message}

-- The result of `SendMessage` for that of `WriteRaw`.
abbrev pub sent_of : ℕ → Option (Bool × Channel) → Option (Option ℕ × Channel)
sent_of len none = none
sent_of len (some (true, ch)) = some (some len, ch)
sent_of len (some (false, ch)) = some (none, ch)

after_write-after_chunk :
    (len : ℕ) (code : Code) (f : Channel → Option (Option ℕ × Channel))
    (g : Channel → Option (Bool × Channel)) (ch : Channel)
    → f ch ≡ sent_of len (wake (g ch))
    → after_write code f ch ≡ sent_of len (wake (after_chunk code g ch))
unfolding after_chunk
after_write-after_chunk len ok f g ch e = e
after_write-after_chunk len err f g ch e = refl

module _ {cap : ℕ} (c : IsCapacity cap) (message : List ℕ) (len : ℕ) (small : len < u32_mod) where
  chunk_lem :
      (sent l : ℕ)
      → sent + suc l ≡ len
      → (if ltb (max_write_size cap) (u32 (len - sent))
          then u32 (max_write_size cap)
          else u32 (len - sent))
        ≡ min (suc l) (u32 (max_write_size cap))
  chunk_lem sent l e = ground (arith, c.fits)

  send_loop-write_chunks :
      (n sent left : ℕ) (ch : Channel)
      → sent + left ≡ len
      → send_loop n cap message len sent ch
        ≡ sent_of len (wake (write_chunks n cap (drop sent message) left ch))
  unfolding send_loop write_chunks
  send_loop-write_chunks zero sent left ch e = refl
  send_loop-write_chunks (suc n) sent zero ch e =
      let over : ltb sent len ≡ false = ground arith in
      let all : sent ≡ len = omega arith in rw over (ap (λ k. some (some k, notify_peer ch)) all)
  send_loop-write_chunks (suc n) sent (suc l) ch e =
      let k : ℕ = min (suc l) (u32 (max_write_size cap)) in
      let under : ltb sent len ≡ true = ground arith in
      let first = try_write cap ch (some (drop sent message)) k in
      let later = send_loop-write_chunks n (sent + k) (suc l - k) first.1 (omega arith) in
      rw (under, chunk_lem sent l e)
        (after_write-after_chunk len first.0 (send_loop n cap message len (sent + k))
          (write_chunks n cap (drop k (drop sent message)) (suc l - k)) first.1
          (later
            ∙ ap (λ p. sent_of len (wake (write_chunks n cap p (suc l - k) first.1)))
                (sym (drop-drop k sent message))))

  -- `SendMessage` of a connected client returns the length of the message where `WriteRaw` with the same
  -- bytes returns true, and -1 where that returns false, and leaves the same channel.
  pub send_message-write_raw :
      (d : Client)
      → connected d ≡ true
      → 0 < len
      → send_message cap d (some message) len
        ≡ with_channel d (sent_of len (write_raw cap d.channel message len))
  unfolding send_message write_raw
  send_message-write_raw d up pos =
      let some_bytes : (len == 0) ≡ false = ground arith in
      rw (up, some_bytes)
        (elim (Bool-cases (ltb (writable_bytes cap d.channel) len)) [
          | inl full ↦ rw full refl
          | inr room ↦
              rw room (ap (with_channel d) (send_loop-write_chunks 4 0 len d.channel (omega arith)))
        ])
