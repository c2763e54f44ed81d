-- ===== src/Fds/Kept.antt =====
-- Which descriptors and mappings a process of include/shm_ipc/common.hpp holds, and who closes them.
use shm_cpp.Common.{
  ℕ, ◌+◌, ◌≡◌, refl, arith, subst, Bool, true, false, Option, none, some, List, [], ◌∷◌, ltb,
  if◌then◌else◌,
}
use shm_cpp.Common.{count, count-append}
use shm_cpp.Fds.{
  sized, Thrown, Event, sent, tell, tag_data, sendmsg_failed, partial_send, Result, ok, err,
  carry_on, Members, Process, Action, ◌>>=◌, ◌>>◌, pure, modify, throw, throw_if, reset, close_fds,
  given, map_region, Made, memfd, create_memfd, send_fd, or_close, ftruncate_failed,
  memfd_create_failed,
}

abbrev pub fds_held : ℕ → Members → ℕ
fds_held x ch =
    count x (reset ch.write_memfd)
    + count x (reset ch.read_memfd)
    + count x (reset ch.notify_write_efd)
    + count x (reset ch.notify_read_efd)

abbrev pub regions_held : ℕ → Members → ℕ
regions_held x ch = count x (reset ch.write_region) + count x (reset ch.read_region)

-- Every descriptor that the process was ever given is closed, or held by the channel, or one of `fds`; and
-- likewise for the mappings.
pub record Ledger (fds regions : List ℕ) (p : Process) : Type 0 where
  pub descriptors : (x : ℕ) → count x p.opened ≡ count x p.closed + fds_held x p.ch + count x fds
  pub mappings :
      (x : ℕ) → count x p.mapped ≡ count x p.unmapped + regions_held x p.ch + count x regions

-- A result that holds `fds` and `regions`; an exception holds nothing.
abbrev pub Post : {A : Type 0} → (A → List ℕ) → (A → List ℕ) → Result A → Process → Type 0
Post fds regions (ok a) p = Ledger (fds a) (regions a) p
Post fds regions (err e) p = Ledger [] [] p

abbrev pub nothing : {A : Type 0} → A → List ℕ
nothing a = []

abbrev pub itself : ℕ → List ℕ
itself fd = fd ∷ []

-- What a step does to what is held: from `held` and `mine` to what its result holds.
pub record Does {A : Type 0} (held mine : List ℕ) (fds regions : A → List ℕ) (m : Action A)
    : Type 0 where
  pub after : (p : Process) → Ledger held mine p → Post fds regions (m p).0 (m p).1

module _ {A B : Type 0} {held mine : List ℕ} {fds regions : A → List ℕ} {fds' regions' : B → List ℕ}
    {m : Action A} where
  pub Does->>= :
      {f : A → Action B}
      → Does held mine fds regions m
      → ((a : A) → Does (fds a) (regions a) fds' regions' (f a))
      → Does held mine fds' regions' (m >>= f)
  unfolding ◌>>=◌
  Does->>= {f} d next = record { after = λ p l. go (m p).0 (m p).1 (d.after p l) }
    where
      go :
          (r : Result A) (p : Process)
          → Post fds regions r p
          → Post fds' regions' (carry_on f r p).0 (carry_on f r p).1
      go (ok a) p l = (next a).after p l
      go (err e) p l = l

module _ {A B : Type 0} {held mine held' mine' : List ℕ} {fds' regions' : B → List ℕ}
    {m : Action A} where
  pub Does->> :
      {k : Action B}
      → Does held mine (λ _. held') (λ _. mine') m
      → Does held' mine' fds' regions' k
      → Does held mine fds' regions' (m >> k)
  unfolding ◌>>◌
  Does->> d next = Does->>= d (λ _. next)

pub close_fds-Ledger :
    (fds regions : List ℕ) (p : Process)
    → Ledger fds regions p
    → Ledger [] regions (close_fds fds p)
unfolding close_fds
close_fds-Ledger fds regions p l = record {
  descriptors = λ x. omega (arith, l.descriptors x, count-append x p.closed fds);
  mappings = l.mappings;
}

pub Does-close :
    (fds : List ℕ) {regions : List ℕ}
    → Does fds regions nothing (λ _. regions) (modify (close_fds fds))
unfolding modify
Does-close fds {regions} = record { after = λ p l. close_fds-Ledger fds regions p l }

module _ {A : Type 0} {fds regions : A → List ℕ} where
  pub Does-pure : (a : A) → Does (fds a) (regions a) fds regions (pure a)
  unfolding pure
  Does-pure a = record { after = λ p l. l }

  pub Does-throw : (e : Thrown) → Does [] [] fds regions (throw e)
  unfolding throw
  Does-throw e = record { after = λ p l. l }

  -- What is held is closed before the exception.
  pub Does-close_throw :
      (held : List ℕ) (e : Thrown) → Does held [] fds regions (modify (close_fds held) >> throw e)
  Does-close_throw held e = Does->> (Does-close held) (Does-throw e)

  pub Does-if :
      {held mine : List ℕ} (c : Bool) {m n : Action A}
      → Does held mine fds regions m
      → Does held mine fds regions n
      → Does held mine fds regions (if c then m else n)
  Does-if true l r = l
  Does-if false l r = r

pub Does-given : (e : Thrown) (o : Option ℕ) → Does [] [] itself nothing (given e o)
unfolding given
Does-given e none = record { after = λ p l. l }
Does-given e (some fd) = record {
  after = λ p l. record {
    descriptors = λ x. omega (arith, l.descriptors x, count-append x p.opened (fd ∷ []));
    mappings = l.mappings;
  };
}

pub Does-map_region :
    (o : Option ℕ) (fd size : ℕ) → Does [] [] nothing itself (map_region o fd size)
unfolding map_region
Does-map_region none fd size = record { after = λ p l. l }
Does-map_region (some addr) fd size = record {
  after = λ p l. record {
    descriptors = l.descriptors;
    mappings = λ x. omega (arith, l.mappings x, count-append x p.mapped (addr ∷ []));
  };
}

-- A condition under which nothing is held.
pub Does-throw_if :
    (c : Bool) (e : Thrown) (held : List ℕ)
    → (c ≡ true → held ≡ [])
    → Does held [] (λ _. held) nothing (throw_if c e)
unfolding throw_if
Does-throw_if true e held none_left = record {
  after = λ p l. subst (λ h. Ledger h [] p) (none_left refl) l;
}
Does-throw_if false e held none_left = record { after = λ p l. l }

pub Does-tell : (e : Event) (held : List ℕ) → Does held [] (λ _. held) nothing (modify (tell e))
unfolding modify
Does-tell e held = record {
  after = λ p l. record { descriptors = l.descriptors; mappings = l.mappings };
}

pub Does-create_memfd :
    (first : Made) (plain : Option ℕ) (resized : Bool) (size : ℕ)
    → Does [] [] itself nothing (create_memfd first plain resized size)
unfolding create_memfd
Does-create_memfd first plain resized size =
    Does->>= (Does-given memfd_create_failed (memfd first plain)) (λ fd.
      Does-if resized (Does->> (Does-tell (sized fd size) (fd ∷ [])) (Does-pure fd))
        (Does-close_throw (fd ∷ []) ftruncate_failed))

pub Does-send_fd : (o : Option ℕ) (fd tag : ℕ) → Does [] [] nothing nothing (send_fd o fd tag)
unfolding send_fd
Does-send_fd none fd tag = Does-throw sendmsg_failed
Does-send_fd (some n) fd tag =
    Does-if (ltb n 256) (Does-throw partial_send) (Does-tell (sent (tag_data tag) fd) [])

pub Does-or_close :
    (done : Bool) (sfd : ℕ) (e : Thrown)
    → Does (sfd ∷ []) [] (λ _. sfd ∷ []) nothing (or_close done sfd e)
unfolding or_close
Does-or_close done sfd e = Does-if done (Does-pure tt) (Does-close_throw (sfd ∷ []) e)
