-- ===== src/Ring/Copy.antt =====
-- The two-segment copies of the ring, index by index.
use shm_cpp.Common.{
  ℕ, ◌+◌, ◌-◌, ◌≤◌, ◌<◌, ◌≡◌, ◌⊎◌, inl, inr, ◌&&◌, ◌∙◌, sym, ap, arith, List, ◌++◌, length, take,
  drop, get_or, ltb, leb, if◌then◌else◌, length-append, length-take, length-drop, list_ext,
  get_or-append, get_or-take, get_or-drop,
}
use shm_cpp.Ring.{load, memcpy, ring_copy_out, ring_copy_in}

pub length-load :
    (base : List ℕ) (off len : ℕ) → off + len ≤ length base → length (load base off len) ≡ len
length-load base off len h = omega (arith, length-take len (drop off base), length-drop off base)

pub get_or-load :
    (base : List ℕ) (off len i : ℕ)
    → i < len
    → get_or (load base off len) i 0 ≡ get_or base (off + i) 0
get_or-load base off len i h = get_or-take len (drop off base) i 0 h ∙ get_or-drop off base i 0

pub length-memcpy :
    (dst : List ℕ) (off : ℕ) (src : List ℕ) (len : ℕ)
    → off + len ≤ length dst
    → len ≤ length src
    → length (memcpy dst off src len) ≡ length dst
length-memcpy dst off src len h k = omega (
  arith,
  length-append (take off dst) (take len src ++ drop (off + len) dst),
  length-append (take len src) (drop (off + len) dst),
  length-take off dst,
  length-take len src,
  length-drop (off + len) dst,
)

-- The three parts of a list that was written over, at an index.
get_or_parts :
    (xs ys zs : List ℕ) (a n j : ℕ)
    → length xs ≡ a
    → length ys ≡ n
    → get_or (xs ++ (ys ++ zs)) j 0 ≡ (
        if ltb j a
        then get_or xs j 0
        else if ltb j (a + n)
        then get_or ys (j - a) 0
        else get_or zs (j - (a + n)) 0)
get_or_parts xs ys zs a n j ea en =
    ground (arith, get_or-append xs (ys ++ zs) j 0, get_or-append ys zs (j - a) 0)

pub get_or-memcpy :
    (dst : List ℕ) (off : ℕ) (src : List ℕ) (len j : ℕ)
    → off + len ≤ length dst
    → len ≤ length src
    → get_or (memcpy dst off src len) j 0
      ≡ (if leb off j && ltb j (off + len) then get_or src (j - off) 0 else get_or dst j 0)
get_or-memcpy dst off src len j h k =
    get_or_parts (take off dst) (take len src) (drop (off + len) dst) off len j
      (omega (arith, length-take off dst)) (omega (arith, length-take len src))
    ∙ ground (
      arith,
      get_or-take off dst j 0,
      get_or-take len src (j - off) 0,
      get_or-drop (off + len) dst (j - (off + len)) 0,
    )

-- `j` is the index `i` steps on from `p`, going round at `cap`.
abbrev pub Goes : ℕ → ℕ → ℕ → ℕ → Type 0
Goes cap p i j = (p + i ≡ j) ⊎ (j + cap ≡ p + i)

module _ (cap : ℕ) (b : List ℕ) (p n : ℕ) (area : length b ≡ cap) (inside : p < cap)
    (fits : n ≤ cap) where
  pub length-ring_copy_out : length (ring_copy_out cap b p n) ≡ n
  unfolding ring_copy_out
  length-ring_copy_out = ground (
    arith,
    length-load b p n,
    length-append (load b p (cap - p)) (load b 0 (n - (cap - p))),
    length-load b p (cap - p),
    length-load b 0 (n - (cap - p)),
  )

  pub get_or-ring_copy_out :
      (i j : ℕ)
      → i < n
      → j < cap
      → Goes cap p i j
      → get_or (ring_copy_out cap b p n) i 0 ≡ get_or b j 0
  unfolding ring_copy_out
  get_or-ring_copy_out i j h k (inl e) = rw (← e) (
      ground (
        arith,
        get_or-load b p n i,
        get_or-append (load b p (cap - p)) (load b 0 (n - (cap - p))) i 0,
        length-load b p (cap - p),
        get_or-load b p (cap - p) i,
      ))
  get_or-ring_copy_out i j h k (inr e) = ground (
    arith,
    get_or-append (load b p (cap - p)) (load b 0 (n - (cap - p))) i 0,
    length-load b p (cap - p),
    get_or-load b 0 (n - (cap - p)) j,
    ap (λ t. get_or b t 0) (let e : 0 + j ≡ j = omega arith in e),
  )

  module _ (src : List ℕ) (given : n ≤ length src) where
    pub length-ring_copy_in : length (ring_copy_in cap b p src n) ≡ cap
    unfolding ring_copy_in
    length-ring_copy_in = ground (
      arith,
      length-memcpy b p src n,
      length-memcpy b p src (cap - p),
      length-memcpy (memcpy b p src (cap - p)) 0 (drop (cap - p) src) (n - (cap - p)),
      length-drop (cap - p) src,
    )

    pub get_or-ring_copy_in_new :
        (i j : ℕ)
        → i < n
        → j < cap
        → Goes cap p i j
        → get_or (ring_copy_in cap b p src n) j 0 ≡ get_or src i 0
    unfolding ring_copy_in
    get_or-ring_copy_in_new i j h k g = ground (
      arith,
      get_or-memcpy b p src n j,
      get_or-memcpy b p src (cap - p) j,
      length-memcpy b p src (cap - p),
      get_or-memcpy (memcpy b p src (cap - p)) 0 (drop (cap - p) src) (n - (cap - p)) j,
      length-drop (cap - p) src,
      get_or-drop (cap - p) src j 0,
    )

    pub get_or-ring_copy_in_old :
        (j : ℕ)
        → j < cap
        → ((i : ℕ) → i < n → ¬ (Goes cap p i j))
        → get_or (ring_copy_in cap b p src n) j 0 ≡ get_or b j 0
    unfolding ring_copy_in
    get_or-ring_copy_in_old j k away = ground (
      arith,
      away (j - p),
      away (j + cap - p),
      get_or-memcpy b p src n j,
      get_or-memcpy b p src (cap - p) j,
      length-memcpy b p src (cap - p),
      get_or-memcpy (memcpy b p src (cap - p)) 0 (drop (cap - p) src) (n - (cap - p)) j,
      length-drop (cap - p) src,
    )

-- Two copies side by side are one copy of the two sources in a row.
pub memcpy_twice :
    (dst : List ℕ) (off : ℕ) (xs ys : List ℕ)
    → off + length xs + length ys ≤ length dst
    → memcpy (memcpy dst off xs (length xs)) (off + length xs) ys (length ys)
      ≡ memcpy dst off (xs ++ ys) (length xs + length ys)
memcpy_twice dst off xs ys room =
    list_ext twice once 0 (omega (arith, first_length, twice_length, once_length)) (λ j k. ground (
      arith,
      first_length,
      length-append xs ys,
      get_or-append xs ys (j - off) 0,
      get_or-memcpy dst off xs (length xs) j,
      get_or-memcpy dst off (xs ++ ys) (length xs + length ys) j,
      get_or-memcpy first (off + length xs) ys (length ys) j,
    ))
  where
    first : List ℕ
    first = memcpy dst off xs (length xs)

    twice : List ℕ
    twice = memcpy first (off + length xs) ys (length ys)

    once : List ℕ
    once = memcpy dst off (xs ++ ys) (length xs + length ys)

    first_length : length first ≡ length dst
    first_length = length-memcpy dst off xs (length xs) (omega arith) (omega arith)

    twice_length : length twice ≡ length dst
    twice_length =
        length-memcpy first (off + length xs) ys (length ys) (omega (arith, first_length))
          (omega arith)
        ∙ first_length

    once_length : length once ≡ length dst
    once_length =
        length-memcpy dst off (xs ++ ys) (length xs + length ys) (omega arith)
          (omega (arith, length-append xs ys))

-- The second part of what was loaded in one piece.
pub load-second :
    (base : List ℕ) (off : ℕ) (xs ys : List ℕ)
    → off + length xs + length ys ≤ length base
    → load base off (length xs + length ys) ≡ xs ++ ys
    → load base (off + length xs) (length ys) ≡ ys
load-second base off xs ys room e =
    list_ext (load base (off + length xs) (length ys)) ys 0
      (length-load base (off + length xs) (length ys) room)
      (λ i k.
        get_or-load base (off + length xs) (length ys) i
          (omega (arith, length-load base (off + length xs) (length ys) room))
        ∙ ap (λ t. get_or base t 0) (omega arith)
        ∙ sym (
            get_or-load base off (length xs + length ys) (length xs + i)
              (omega (arith, length-load base (off + length xs) (length ys) room)))
        ∙ ap (λ t. get_or t (length xs + i) 0) e
        ∙ get_or-append xs ys (length xs + i) 0
        ∙ ground arith)
