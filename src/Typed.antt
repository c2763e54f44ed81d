-- ===== src/Typed.antt =====
-- The `Recv` loop that `PodCodec` (include/shm_ipc/pod_codec.hpp) and `ProtoCodec`
-- (include/shm_ipc/proto_codec.hpp) have in common: frames that are too large or that the codec does not
-- accept are committed at once and skipped.

pub mod Ends
pub mod Pick
use shm_cpp.Common.{ℕ, zero, suc, Option, none, some, List}
use shm_cpp.Channel.{Channel}
use shm_cpp.Reader.{
  FrameReader, Code, success, no_data, too_large, bad_length, Received, commit, try_recv,
  payload_bytes,
}

-- `out` is what is stored at the out parameter, if anything.
pub record Got {ℓ} (A : Type ℓ) : Type ℓ where
  pub rc : Code
  pub out : Option A
  pub channel : Channel
  pub reader : FrameReader

-- One turn of the loop after `TryRecv` has returned `x`, with the decoded payload where it is accepted;
-- `again` is the next turn.
unfoldable pub turn {ℓ} :
    {A : Type ℓ}
    → Code
    → Option A
    → (Channel → FrameReader → Option (Got A))
    → Received
    → Option (Got A)
unfolding commit
turn success (some a) again x =
    some (record { rc = success; out = some a; channel = x.channel; reader = x.reader })
turn success none again x = let (ch, rd) = commit x.channel x.reader in again ch rd
turn too_large o again x = let (ch, rd) = commit x.channel x.reader in again ch rd
turn no_data o again x =
    some (record { rc = no_data; out = none; channel = x.channel; reader = x.reader })
turn bad_length o again x =
    some (record { rc = bad_length; out = none; channel = x.channel; reader = x.reader })

-- The first argument is fuel for the turns; `none` is its end.
unfoldable pub recv_loop {ℓ} :
    {A : Type ℓ} → ℕ → ℕ → ℕ → (List ℕ → Option A) → Channel → FrameReader → Option (Got A)
unfolding turn
recv_loop zero cap buf_size accept ch rd = none
recv_loop (suc n) cap buf_size accept ch rd =
    let x = try_recv cap buf_size ch rd in
    turn x.rc (accept (payload_bytes x)) (recv_loop n cap buf_size accept) x
