-- ===== src/SimplePod/Wire.antt =====
-- `Encode` and `Decode` of include/shm_ipc/simple_pod_codec.hpp on registered types.
use shm_cpp.Common.{
  ℕ, ◌+◌, ◌≤◌, ◌≡◌, refl, sym, ap, ◌∙◌, arith, Bool-cases, Option-cases, Option, true, false, none,
  some, inl, inr, List, [], ◌++◌, append_assoc, length, take, drop, take-length_append, take_all,
  length-append, ltb, ◌==◌, if◌then◌else◌, u32,
}
use shm_cpp.Codec.{le32, from_le32}
use shm_cpp.Pod.{tag_size}
use shm_cpp.Pod.Payload.{length-le32, from_le32-append, drop-tagged}
use shm_cpp.Connection.{need_more_buffer}
use shm_cpp.Connection.Command.{IsInBuffer}
use shm_cpp.SimplePod.{Any, TypeOps, Registry, Stateless, find, encode, encode_with, decode}
use shm_cpp.SimplePod.Registering.{IsRegistered}

-- What goes over the ring for an object under a tag.
abbrev pub wire : ℕ → Any → List ℕ
wire tag pkg = le32 tag ++ pkg.bytes

encode_with-IsInBuffer :
    (tag : ℕ) (pkg : Any) (buf : List ℕ) (o : Option TypeOps)
    → IsInBuffer (encode_with tag pkg buf o) buf
unfolding IsInBuffer
encode_with-IsInBuffer tag pkg buf none = refl
encode_with-IsInBuffer tag pkg buf (some ops) =
    elim (Bool-cases (ltb (length buf) (u32 (tag_size + ops.size)))) [
      | inl short ↦ rw short (ground arith)
      | inr room ↦ rw room (elim (Bool-cases (pkg.ty == ops.ty)) [
        | inl same ↦ rw same (ground arith)
        | inr other ↦ rw other (ground arith)
      ])
    ]

-- The answers of `Encode` are those that `SendCmd` relies on.
pub encode-IsInBuffer :
    (reg : Registry) (pkg : Any) (t : Stateless) (buf : List ℕ)
    → IsInBuffer (encode reg pkg t buf) buf
unfolding encode IsInBuffer
encode-IsInBuffer reg pkg t buf = elim (Option-cases (find pkg.ty reg.tag_of)) [
  | inl e ↦ rw e refl
  | inr (tag, e) ↦ rw e (encode_with-IsInBuffer tag pkg buf (find tag reg.ops_of))
]

module _ {reg : Registry} {tag size : ℕ} (pkg : Any) (known : IsRegistered reg pkg.ty tag size)
    (sized : length pkg.bytes ≡ size) where
  pub length-wire : length (wire tag pkg) ≡ tag_size + size
  length-wire = omega (arith, length-append (le32 tag) pkg.bytes, length-le32 tag, sized)

  need : u32 (tag_size + size) ≡ tag_size + size
  need = omega (arith, known.size_fits)

  -- `Encode` of an object of a registered type either asks for the size that it needs, or writes the
  -- tagged object.
  pub encode_lem :
      (buf : List ℕ)
      → encode reg pkg tt buf ≡ (
          if ltb (length buf) (tag_size + size)
          then record { len = need_more_buffer; out = tag_size + size; bytes = []; next = tt }
          else record { len = tag_size + size; out = 0; bytes = wire tag pkg; next = tt })
  unfolding encode
  encode_lem buf =
      let same : (pkg.ty == pkg.ty) ≡ true = ground arith in
      rw (known.tagged, known.known, need, take_all size pkg.bytes (omega arith), same) refl

  long : (rest : List ℕ) → tag_size + size ≤ length (wire tag pkg ++ rest)
  long rest = omega (arith, length-append (wire tag pkg) rest, length-wire)

  object : (rest : List ℕ) → take size (drop tag_size (wire tag pkg ++ rest)) ≡ pkg.bytes
  object rest =
      ap (λ b. take size (drop tag_size b)) (append_assoc (le32 tag) pkg.bytes rest)
      ∙ ap (take size) (drop-tagged tag (pkg.bytes ++ rest))
      ∙ ap (λ n. take n (pkg.bytes ++ rest)) (sym sized)
      ∙ take-length_append pkg.bytes rest

  -- `Decode` takes the object from the front of what it is given.
  pub decode-wire :
      (rest : List ℕ)
      → decode reg tt (wire tag pkg ++ rest)
        ≡ record { len = tag_size + size; out = 0; pkg = pkg; next = tt }
  unfolding decode
  decode-wire rest =
      let tag_there : ltb (length (wire tag pkg ++ rest)) tag_size ≡ false =
        ground (arith, long rest) in
      let all_there : ltb (length (wire tag pkg ++ rest)) (tag_size + size) ≡ false =
        ground (arith, long rest) in
      let tag_read : from_le32 (wire tag pkg ++ rest) 0 ≡ tag =
        ap (λ b. from_le32 b 0) (append_assoc (le32 tag) pkg.bytes rest)
        ∙ from_le32-append tag (pkg.bytes ++ rest) known.tag_fits in
      let body : take size (drop tag_size (wire tag pkg ++ rest)) ≡ pkg.bytes = object rest in
      rw (tag_there, tag_read, known.known, need, all_there, body) refl
