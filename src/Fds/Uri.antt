-- ===== src/Fds/Uri.antt =====
-- `UriToPath` of include/shm_ipc/common.hpp.
use shm_cpp.Common.{
  ℕ, suc, ◌+◌, ◌≡◌, refl, arith, Bool, true, false, Option, none, some, List, [], ◌∷◌, ◌++◌, length,
  drop, drop-length_append, get_or, leb, ◌==◌, ◌&&◌, ◌||◌, if◌then◌else◌, ap, sym, ◌∙◌,
  length-append,
}

-- "://"
abbrev pub separator : List ℕ
separator = 58 ∷ 47 ∷ 47 ∷ []

abbrev pub starts : List ℕ → Bool
starts s = leb 3 (length s) && get_or s 0 0 == 58 && get_or s 1 0 == 47 && get_or s 2 0 == 47

abbrev one_further : Option ℕ → Option ℕ
one_further none = none
one_further (some pos) = some (suc pos)

unfoldable pub find : List ℕ → Option ℕ
find [] = none
find (x ∷ s) = let rest = find s in if starts (x ∷ s) then some 0 else one_further rest

abbrev pub path_from : List ℕ → Option ℕ → List ℕ
path_from uri none = uri
path_from uri (some pos) = drop (pos + 3) uri

unfoldable pub uri_to_path : List ℕ → List ℕ
uri_to_path uri = path_from uri (find uri)

abbrev pub has_colon : List ℕ → Bool
has_colon [] = false
has_colon (x ∷ s) = x == 58 || has_colon s

plain : (x : ℕ) (s : List ℕ) → (x == 58) ≡ false → starts (x ∷ s) ≡ false
plain x s e = ground (arith, e)

separated : (path : List ℕ) → starts (separator ++ path) ≡ true
separated path = ground arith

find-none : (s : List ℕ) → has_colon s ≡ false → find s ≡ none
unfolding find
find-none [] e = refl
find-none (x ∷ s) e = rw (find-none s (ground (arith, e)), plain x s (ground (arith, e))) refl

find-front :
    (scheme path : List ℕ)
    → has_colon scheme ≡ false
    → find (scheme ++ separator ++ path) ≡ some (length scheme)
unfolding find
find-front [] path e = rw (separated path) refl
find-front (x ∷ s) path e =
    rw (find-front s path (ground (arith, e)), plain x (s ++ separator ++ path) (ground (arith, e)))
      refl

-- The path is what stands behind the first "://" if no colon stands before it, and the whole of a uri
-- without a colon.
pub uri_to_path_lem :
    (scheme path : List ℕ)
    → has_colon scheme ≡ false
    → (uri_to_path (scheme ++ separator ++ path) ≡ path) × (uri_to_path scheme ≡ scheme)
unfolding uri_to_path
uri_to_path_lem scheme path e = (
  ap (path_from (scheme ++ separator ++ path)) (find-front scheme path e)
      ∙ ap (λ n. drop n (scheme ++ separator ++ path)) (sym (length-append scheme separator))
      ∙ drop-length_append (scheme ++ separator) path,
  ap (path_from scheme) (find-none scheme e),
)
