-- ===== src/Fds/Effects.antt =====
-- What the helpers of include/shm_ipc/common.hpp have done where they do not throw.
use shm_cpp.Common.{
  ℕ, ◌≡◌, refl, sym, subst, ap, ◌∙◌, Bool, Bool-cases, inl, inr, true, false, Option, none, some,
  List, [], ◌∷◌, ◌++◌, append_assoc, append-nil, length, ltb, ◌==◌, if◌then◌else◌,
}
use shm_cpp.Codec.{from_le32}
use shm_cpp.Fds.{
  Thrown, Event, sent, sized, mapping, Result, ok, err, carry_on, Members, Process, Action, ◌>>=◌,
  ◌>>◌, pure, throw, throw_if, modify, tell, given, map_region, close_fds, Made, memfd,
  create_memfd, memfd_create_failed, ftruncate_failed, send_fd, tag_data, Message, install, one_fd,
  recv_fd, recv_fd_expect, wrong_tag, connection_closed, too_short, control_truncated, many_fds,
  no_rights, rights_too_short,
}

abbrev pub Good : {A : Type 0} → (A → Process → Type 0) → Result A → Process → Type 0
Good Q (ok a) q = Q a q
Good Q (err e) q = Unit {0}

-- If the action returns, its result and the process are as `Q` says.
pub record Makes {A : Type 0} (m : Action A) (Q : Process → A → Process → Type 0) : Type 0 where
  pub after : (p : Process) → Good (Q p) (m p).0 (m p).1

module _ {A B : Type 0} {m : Action A} {Q : Process → A → Process → Type 0}
    {R : A → Process → B → Process → Type 0} where
  pub Makes->>= :
      {f : A → Action B}
      → Makes m Q
      → ((a : A) → Makes (f a) (R a))
      → Makes (m >>= f) (λ p b q. (a : A) × (p1 : Process) × Q p a p1 × R a p1 b q)
  unfolding ◌>>=◌
  Makes->>= {f} d next = record { after = λ p. go p (m p).0 (m p).1 (d.after p) }
    where
      widen :
          (p : Process) (a : A) (p1 : Process)
          → Q p a p1
          → (r : Result B) (q : Process) → Good (R a p1) r q
          → Good (λ b q'. (a' : A) × (p' : Process) × Q p a' p' × R a' p' b q') r q
      widen p a p1 x (ok b) q y = (a, p1, x, y)
      widen p a p1 x (err e) q y = tt

      go :
          (p : Process) (r : Result A) (p1 : Process)
          → Good (Q p) r p1
          → Good
              (λ b q'. (a' : A) × (p' : Process) × Q p a' p' × R a' p' b q')
              (carry_on f r p1).0
              (carry_on f r p1).1
      go p (ok a) p1 x = widen p a p1 x (f a p1).0 (f a p1).1 ((next a).after p1)
      go p (err e) p1 x = tt

module _ {A B : Type 0} {m : Action A} {Q : Process → A → Process → Type 0}
    {R : Process → B → Process → Type 0} where
  pub Makes->> :
      {k : Action B}
      → Makes m Q
      → Makes k R
      → Makes (m >> k) (λ p b q. (a : A) × (p1 : Process) × Q p a p1 × R p1 b q)
  unfolding ◌>>◌
  Makes->> d next = Makes->>= d (λ a. next)

-- The rest of what is known.
pub Makes-weaken :
    {A : Type 0} {m : Action A} {Q R : Process → A → Process → Type 0}
    → ((p : Process) (a : A) (q : Process) → Q p a q → R p a q)
    → Makes m Q
    → Makes m R
Makes-weaken {m} {Q} {R} f d = record { after = λ p. go p (m p).0 (m p).1 (d.after p) }
  where
    go : (p : Process) (r : Result _) (q : Process) → Good (Q p) r q → Good (R p) r q
    go p (ok a) q x = f p a q x
    go p (err e) q x = tt

-- The channel is `ch` then, and the events `es` have happened.
pub record Adds (p q : Process) (ch : Members) (es : List Event) : Type 0 where
  pub channel : q.ch ≡ ch
  pub logged : q.log ≡ p.log ++ es

pub same-Adds : (p q : Process) → q.ch ≡ p.ch → q.log ≡ p.log → Adds p q p.ch []
same-Adds p q e l = record { channel = e; logged = l ∙ sym (append-nil p.log) }

pub Adds-then :
    {p q r : Process} {ch ch' : Members} {es fs : List Event}
    → Adds p q ch es
    → Adds q r ch' fs
    → Adds p r ch' (es ++ fs)
Adds-then {p} {es} {fs} x y = record {
  channel = y.channel;
  logged = y.logged ∙ ap (λ l. l ++ fs) x.logged ∙ append_assoc p.log es fs;
}

-- The state changes by `f`.
pub Makes-modify : (f : Process → Process) → Makes (modify f) (λ p a q. q ≡ f p)
unfolding modify
Makes-modify f = record { after = λ p. refl }

module _ {A : Type 0} where
  pub Makes-pure : (a : A) → Makes (pure a) (λ p b q. (b ≡ a) × (q ≡ p))
  unfolding pure
  Makes-pure a = record { after = λ p. (refl, refl) }

  pub Makes-close_throw :
      (fds : List ℕ) (e : Thrown) (Q : Process → A → Process → Type 0)
      → Makes (modify (close_fds fds) >> throw e) Q
  unfolding ◌>>◌ ◌>>=◌ modify throw
  Makes-close_throw fds e Q = record { after = λ p. tt }

  pub Makes-throw : (e : Thrown) (Q : Process → A → Process → Type 0) → Makes (throw e) Q
  unfolding throw
  Makes-throw e Q = record { after = λ p. tt }

  pub Makes-if :
      {Q : Process → A → Process → Type 0} (c : Bool) {m n : Action A}
      → (c ≡ true → Makes m Q)
      → (c ≡ false → Makes n Q)
      → Makes (if c then m else n) Q
  Makes-if true l r = l refl
  Makes-if false l r = r refl

pub Makes-given : (e : Thrown) (o : Option ℕ) → Makes (given e o) (λ p a q. Adds p q p.ch [])
unfolding given
Makes-given e none = record { after = λ p. tt }
Makes-given e (some fd) = record { after = λ p. same-Adds p _ refl refl }

pub Makes-map_region :
    (o : Option ℕ) (fd size : ℕ)
    → Makes (map_region o fd size) (λ p a q. Adds p q p.ch (mapping a fd size ∷ []))
unfolding map_region
Makes-map_region none fd size = record { after = λ p. tt }
Makes-map_region (some addr) fd size = record {
  after = λ p. record { channel = refl; logged = refl };
}

pub Makes-create_memfd :
    (first : Made) (plain : Option ℕ) (resized : Bool) (size : ℕ)
    → Makes (create_memfd first plain resized size) (λ p a q. Adds p q p.ch (sized a size ∷ []))
unfolding create_memfd
Makes-create_memfd first plain resized size =
    Makes-weaken
      (λ p a q x.
        let (fd, p1, y, z) = x in
        record {
          channel = z.channel ∙ y.channel;
          logged = z.logged ∙ ap (λ l. l ++ (sized a size ∷ [])) (y.logged ∙ append-nil p.log);
        })
      (Makes->>= (Makes-given memfd_create_failed (memfd first plain)) (λ fd.
        Makes-if resized
          (λ _.
            Makes-weaken {R = λ p a q. Adds p q p.ch (sized a size ∷ [])}
              (λ p a q x.
                let (u, p1, e, (b, e')) = x in
                rw (e', e, b) (record { channel = refl; logged = refl }))
              (Makes->> (Makes-modify (tell (sized fd size))) (Makes-pure fd)))
          (λ _.
            Makes-close_throw (fd ∷ []) ftruncate_failed
              (λ p a q. Adds p q p.ch (sized a size ∷ [])))))

pub Makes-send_fd :
    (o : Option ℕ) (fd tag : ℕ)
    → Makes (send_fd o fd tag) (λ p a q. Adds p q p.ch (sent (tag_data tag) fd ∷ []))
unfolding send_fd modify throw
Makes-send_fd none fd tag = record { after = λ p. tt }
Makes-send_fd (some n) fd tag = elim (Bool-cases (ltb n 256)) [
  | inl e ↦ rw e record { after = λ p. tt }
  | inr e ↦ rw e record { after = λ p. record { channel = refl; logged = refl } }
]

-- A message that brings one descriptor.
abbrev pub Brings : Option Message → ℕ → Type 0
Brings o fd = (m : Message) × (o ≡ some m) × (m.rights ≡ some (fd ∷ []))

-- `RecvFd` takes the descriptor of a message that brings one.
one_fd-Makes : (o : Option (List ℕ)) → Makes (one_fd o) (λ p fd q. (q ≡ p) × (o ≡ some (fd ∷ [])))
unfolding one_fd
one_fd-Makes none = Makes-throw no_rights _
one_fd-Makes (some []) = Makes-throw rights_too_short _
one_fd-Makes (some (fd ∷ [])) =
    Makes-weaken (λ p a q x. (x.1, ap (λ y. some (y ∷ [])) (sym x.0))) (Makes-pure fd)
one_fd-Makes (some (fd ∷ more ∷ fds)) = Makes-close_throw (fd ∷ more ∷ fds) many_fds _

Makes-throw_if : (c : Bool) (e : Thrown) → Makes (throw_if c e) (λ p a q. q ≡ p)
unfolding throw_if
Makes-throw_if true e = record { after = λ p. tt }
Makes-throw_if false e = record { after = λ p. refl }

Makes-recv_fd : (o : Option Message) → Makes (recv_fd o) (λ p a q. Adds p q p.ch [] × Brings o a.0)
unfolding recv_fd throw
Makes-recv_fd none = record { after = λ p. tt }
Makes-recv_fd (some m) =
    Makes-weaken
      (λ p a q x.
        let (_, p1, e1, (_, p2, e2, (_, p3, e3, (_, p4, e4, (fd, p5, (e5, brought), (b, e6)))))) =
          x in
        (
          same-Adds p q (ap (λ t. t.ch) (e6 ∙ e5 ∙ e4 ∙ e3 ∙ e2 ∙ e1))
              (ap (λ t. t.log) (e6 ∙ e5 ∙ e4 ∙ e3 ∙ e2 ∙ e1)),
          (m, refl, brought ∙ ap (λ y. some (y.0 ∷ [])) (sym b)),
        ))
      (Makes->> (Makes-modify (install m)) (
        Makes->> (Makes-throw_if (length m.bytes == 0) connection_closed) (
          Makes->> (Makes-throw_if (ltb (length m.bytes) 4) too_short) (
            Makes->> (Makes-throw_if m.truncated control_truncated)
              (Makes->>= (one_fd-Makes m.rights) (λ fd. Makes-pure (fd, from_le32 m.bytes 0)))))))

pub Makes-recv_fd_expect :
    (o : Option Message) (expected : ℕ)
    → Makes (recv_fd_expect o expected) (λ p fd q. Adds p q p.ch [] × Brings o fd)
unfolding recv_fd_expect
Makes-recv_fd_expect o expected =
    Makes-weaken
      (λ p fd q x.
        let (a, p1, (adds, brings), (e, e')) = x in
        (rw (e') adds, subst (λ y. Brings o y) (sym e) brings))
      (Makes->>= (Makes-recv_fd o) (λ a.
        Makes-if {Q = λ p b q. (b ≡ a.0) × (q ≡ p)} (a.1 == expected) (λ _. Makes-pure a.0)
          (λ _. Makes-close_throw (a.0 ∷ []) wrong_tag _)))
