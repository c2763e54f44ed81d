-- ===== src/Pod/Payload.antt =====
-- Which payloads `PodCodec` of include/shm_ipc/pod_codec.hpp takes for an object.
use shm_cpp.Common.{
  ℕ, ◌+◌, ◌<◌, ◌≡◌, ◌&&◌, refl, sym, ap, ◌∙◌, arith, none, some, List, ◌++◌, length, take, drop,
  get_or, ◌==◌, if◌then◌else◌, u32_mod, length-append, get_or-take, take_all,
}
use shm_cpp.Codec.{le32, from_le32}
use shm_cpp.Pod.{PodType, tag_size, check_tag, decode_payload, accept}

-- The payload of an object.
abbrev pub tagged : ℕ → List ℕ → List ℕ
tagged tag obj = le32 tag ++ obj

pub length-le32 : (n : ℕ) → length (le32 n) ≡ tag_size
unfolding le32
length-le32 n = refl

pub from_le32-append : (n : ℕ) (rest : List ℕ) → n < u32_mod → from_le32 (le32 n ++ rest) 0 ≡ n
unfolding le32 from_le32
from_le32-append n rest h = omega arith

pub length-tagged : (tag : ℕ) (obj : List ℕ) → length (tagged tag obj) ≡ tag_size + length obj
length-tagged tag obj = omega (arith, length-append (le32 tag) obj, length-le32 tag)

pub drop-tagged : (tag : ℕ) (obj : List ℕ) → drop tag_size (tagged tag obj) ≡ obj
unfolding le32
drop-tagged tag obj = refl

-- A payload is taken for an object exactly if it has the type's tag and the object's size, and then the
-- object is what stands behind the tag.
pub accept-tagged :
    (t : PodType) (tag : ℕ) (obj : List ℕ)
    → tag < u32_mod
    → length obj + tag_size < u32_mod
    → accept t (tagged tag obj) ≡ (if tag == t.tag && length obj == t.size then some obj else none)
unfolding accept decode_payload check_tag
accept-tagged t tag obj small short = ground (
  arith,
  length-tagged tag obj,
  from_le32-append tag obj small,
  drop-tagged tag obj,
  take_all t.size obj,
)

-- What is accepted has the size of a tag and an object, so the reader's buffer can take it.
pub accept-size :
    (t : PodType) (payload obj : List ℕ)
    → length payload < u32_mod
    → accept t payload ≡ some obj
    → length payload ≡ tag_size + t.size
unfolding accept decode_payload check_tag
accept-size t payload obj short e = ground (arith, e)

-- The tag of a payload that is the first part of a longer buffer.
pub tag-inside :
    (b : List ℕ) (n tag : ℕ) (obj : List ℕ)
    → tag < u32_mod
    → take (tag_size + n) b ≡ tagged tag obj
    → from_le32 b 0 ≡ tag
unfolding from_le32
tag-inside b n tag obj small e =
    ground (arith, at 0, at 1, at 2, at 3) ∙ from_le32-append tag obj small
  where
    at : (i : ℕ) → i < tag_size → get_or b i 0 ≡ get_or (tagged tag obj) i 0
    at i k = sym (get_or-take (tag_size + n) b i 0 (omega arith)) ∙ ap (λ t. get_or t i 0) e
