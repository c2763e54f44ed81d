-- ===== src/SimplePod.antt =====
-- `SimplePodCodec` of include/shm_ipc/simple_pod_codec.hpp: a codec for a connection, which tags plain
-- objects by their registered types. A type is known by a number.
pub mod Registering
pub mod Wire
pub mod Deliver
pub mod Sending
use shm_cpp.Common.{
  ℕ, suc, ◌+◌, Option, none, some, List, [], ◌∷◌, ◌++◌, length, take, drop, ltb, ◌==◌,
  if◌then◌else◌, u32,
}
use shm_cpp.Codec.{le32, from_le32}
use shm_cpp.Pod.{tag_size}
use shm_cpp.Connection.{Encoded, need_more_buffer, disconnect}
use shm_cpp.Connection.Receive.{Decoded}

-- `std::any`: the type that it holds, and the bytes of the object.
pub record Any : Type 0 where
  pub ty : ℕ
  pub bytes : List ℕ

abbrev pub empty_any : Any
empty_any = record { ty = 0; bytes = [] }

-- The operations of a type: they copy `size` bytes, of an `any` that holds `ty` only.
pub record TypeOps : Type 0 where
  pub size : ℕ
  pub ty : ℕ

pub record Registry : Type 0 where
  pub tag_of : List (ℕ × ℕ)
  pub ops_of : List (ℕ × TypeOps)

module _ {A : Type 0} where
  unfoldable pub find : ℕ → List (ℕ × A) → Option A
  find k [] = none
  find k ((j, a) ∷ m) = if j == k then some a else find k m

  -- `map[key] = value`
  unfoldable pub set : ℕ → A → List (ℕ × A) → List (ℕ × A)
  set k a [] = (k, a) ∷ []
  set k a ((j, b) ∷ m) = if j == k then (k, a) ∷ m else (j, b) ∷ set k a m

unfoldable pub register_pod : ℕ → ℕ → ℕ → Registry → Registry
register_pod ty tag size reg = record {
  tag_of = set ty tag reg.tag_of;
  ops_of = set tag (record { size = size; ty = ty }) reg.ops_of;
}

-- The codec has no state of its own.
abbrev pub Stateless : Type 0
Stateless = Unit {0}

abbrev failed : Encoded Stateless
failed = record { len = disconnect; out = 0; bytes = []; next = tt }

abbrev pub encode_with : ℕ → Any → List ℕ → Option TypeOps → Encoded Stateless
encode_with tag pkg buf none = failed
encode_with tag pkg buf (some ops) =
    let need = u32 (tag_size + ops.size) in
    if ltb (length buf) need
    then record { len = need_more_buffer; out = need; bytes = []; next = tt }
    else if pkg.ty == ops.ty
    then record { len = need; out = 0; bytes = le32 tag ++ take ops.size pkg.bytes; next = tt }
    else record { len = disconnect; out = 0; bytes = le32 tag; next = tt }

abbrev pub encode_tagged : Registry → Any → List ℕ → Option ℕ → Encoded Stateless
encode_tagged reg pkg buf none = failed
encode_tagged reg pkg buf (some tag) = encode_with tag pkg buf (find tag reg.ops_of)

unfoldable pub encode : Registry → Any → Stateless → List ℕ → Encoded Stateless
encode reg pkg t buf = encode_tagged reg pkg buf (find pkg.ty reg.tag_of)

abbrev pub decode_with : List ℕ → Option TypeOps → Decoded Stateless Any
decode_with buf none = record { len = disconnect; out = 0; pkg = empty_any; next = tt }
decode_with buf (some ops) =
    let need = u32 (tag_size + ops.size) in
    if ltb (length buf) need
    then record { len = need_more_buffer; out = 0; pkg = empty_any; next = tt }
    else record {
      len = need;
      out = 0;
      pkg = record { ty = ops.ty; bytes = take ops.size (drop tag_size buf) };
      next = tt;
    }

unfoldable pub decode : Registry → Stateless → List ℕ → Decoded Stateless Any
decode reg t buf =
    if ltb (length buf) tag_size
    then record { len = need_more_buffer; out = 0; pkg = empty_any; next = tt }
    else decode_with buf (find (from_le32 buf 0) reg.ops_of)
