-- ===== src/Proto/Carrying.antt =====
-- Which payloads `Recv` of include/shm_ipc/proto_codec.hpp takes for a message, said without its tests.
use shm_cpp.Common.{
  ℕ, ◌+◌, ◌*◌, ◌%◌, ◌-◌, ◌≤◌, ◌<◌, ◌^◌, ◌≡◌, refl, sym, ap, ap₂, ◌∙◌, arith, Bool-cases, inl, inr,
  true, false, some, List, [], ◌∷◌, ◌++◌, length, take, drop, get_or, take-length_append,
  drop-length_append, take_all, take-append-drop, drop-drop, length-append, length-drop, ltb, ◌==◌,
  ◌&&◌, add32, sub32, u32_mod,
}
use shm_cpp.Ring.{load}
use shm_cpp.Proto.{
  ProtoType, type_name_len_size, from_le16, equal, type_name_matches, decode_payload, accept,
}

-- Two bytes that give the length of the type's name, the name, and bytes that protobuf parses as `msg`.
pub record Carries {M : Type 0} (t : ProtoType M) (body : List ℕ) (msg : M) : Type 0 where
  pub bytes : List ℕ
  pub long : 2 ≤ length body
  pub named : (get_or body 0 0 + 256 * get_or body 1 0) % 2 ^ 16 ≡ length t.name
  pub rest : drop 2 body ≡ t.name ++ bytes
  pub parses : t.parse bytes ≡ some msg

equal_refl : (xs : List ℕ) → equal xs xs ≡ true
equal_refl [] = refl
equal_refl (x ∷ xs) = ground (arith, equal_refl xs)

equal-path : (xs ys : List ℕ) → equal xs ys ≡ true → xs ≡ ys
equal-path [] [] e = refl
equal-path [] (y ∷ ys) e = cc
equal-path (x ∷ xs) [] e = cc
equal-path (x ∷ xs) (y ∷ ys) e =
    ap₂ (λ a b. a ∷ b) (ground (arith, e)) (equal-path xs ys (ground (arith, e)))

module _ {M : Type 0} (t : ProtoType M) (body : List ℕ) (msg : M) where
  pub accept-Carries : length body < u32_mod → Carries t body msg → accept t body ≡ some msg
  unfolding accept decode_payload type_name_matches from_le16
  accept-Carries short k =
      let size : length body ≡ 2 + length t.name + length k.bytes =
        omega (arith, k.long, ap length k.rest, length-drop 2 body, length-append t.name k.bytes) in
      let tag_there : ltb (length body) type_name_len_size ≡ false = ground (arith, size) in
      let prefix : add32 type_name_len_size (length t.name) ≡ type_name_len_size + length t.name =
        omega (arith, short, size) in
      let name_there : ltb (length body) (type_name_len_size + length t.name) ≡ false =
        ground (arith, size) in
      let left : sub32 (length body) (type_name_len_size + length t.name) ≡ length k.bytes =
        omega (arith, size, short) in
      let name_read : load body type_name_len_size (length t.name) ≡ t.name =
        ap (take (length t.name)) k.rest ∙ take-length_append t.name k.bytes in
      let behind : drop (type_name_len_size + length t.name) body ≡ k.bytes =
        sym (drop-drop (length t.name) 2 body)
        ∙ ap (drop (length t.name)) k.rest
        ∙ drop-length_append t.name k.bytes in
      let bytes_read : load body (type_name_len_size + length t.name) (length k.bytes) ≡ k.bytes =
        ap (take (length k.bytes)) behind ∙ take_all (length k.bytes) k.bytes (omega arith) in
      let same : (length t.name == length t.name) ≡ true = ground arith in
      rw
        (
          k.named,
          tag_there,
          prefix,
          name_there,
          name_read,
          same,
          equal_refl t.name,
          left,
          bytes_read,
        )
        k.parses

  nl-small : from_le16 body 0 < 2 ^ 16
  unfolding from_le16
  nl-small = omega arith

  -- All tests have passed.
  carried :
      2 ≤ length body
      → 2 + from_le16 body 0 ≤ length body
      → from_le16 body 0 ≡ length t.name
      → load body 2 (from_le16 body 0) ≡ t.name
      → t.parse (drop (2 + from_le16 body 0) body) ≡ some msg
      → Carries t body msg
  unfolding from_le16
  carried long there same name parses = record {
    bytes = drop (2 + from_le16 body 0) body;
    long = long;
    named = same;
    rest =
        sym (take-append-drop (from_le16 body 0) (drop 2 body))
        ∙ ap₂ (λ a b. a ++ b) name (drop-drop (from_le16 body 0) 2 body);
    parses = parses;
  }

  pub Carries-accept : length body < u32_mod → accept t body ≡ some msg → Carries t body msg
  unfolding accept decode_payload type_name_matches
  Carries-accept short e = elim (Bool-cases (ltb (length body) type_name_len_size)) [
    | inl few ↦ absurd (ground (arith, rw few at e))
    | inr long ↦
        elim (Bool-cases (ltb (length body) (add32 type_name_len_size (from_le16 body 0)))) [
          | inl few ↦ absurd (ground (arith, rw (long, few) at e))
          | inr there ↦
              elim (Bool-cases (
                from_le16 body 0 == length t.name
                && equal (load body type_name_len_size (from_le16 body 0)) t.name)) [
                  | inl matches ↦
                      let prefix : add32 type_name_len_size (from_le16 body 0)
                          ≡ 2 + from_le16 body 0 =
                        omega (arith, nl-small) in
                      let enough : 2 + from_le16 body 0 ≤ length body =
                        ground (arith, rw prefix at there) in
                      let left : sub32 (length body) (2 + from_le16 body 0)
                          ≡ length body - (2 + from_le16 body 0) =
                        omega (arith, short, enough) in
                      let whole : load body (2 + from_le16 body 0)
                            (length body - (2 + from_le16 body 0))
                          ≡ drop (2 + from_le16 body 0) body =
                        take_all (length body - (2 + from_le16 body 0))
                          (drop (2 + from_le16 body 0) body)
                          (omega (arith, length-drop (2 + from_le16 body 0) body)) in
                      carried (ground arith) enough (ground (arith, matches))
                        (equal-path (load body 2 (from_le16 body 0)) t.name
                          (ground (arith, matches)))
                        (rw (long, there, matches, prefix, left, whole) at e)
                  | inr other ↦ absurd (ground (arith, rw (long, there, other) at e))
                ]
        ]
  ]
