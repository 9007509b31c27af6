-- ===== src/Comm/Contents.antt =====
-- systems/domain_comm_impl.hpp, `send_particle_array` of a batch: what it does to the lists of particles that
-- the buffers hold.
use aperture4_nick.Base.{
  ℕ, suc, ◌+◌, ◌≤◌, ◌≡◌, refl, ap, ◌∙◌, arith, ◌&&◌, leb-le, ==_ne, ==_eq, if◌then◌else◌, List, [],
  ◌∷◌, ◌++◌, length, length-append, Option, some, write, listing, write_list, length-listing,
  listing_zero, listing-write_list, eq-cases, inl, inr,
}
use aperture4_nick.Particles.{Ptc}
use aperture4_nick.Guards.Exchange.{Domain, is_rank}
use aperture4_nick.Comm.{Buffers}
use aperture4_nick.Comm.Route.{
  Sendrecv, outbox, receive, send_one, send_loop, clear_sent, send_particle_arrays,
}

module _ {S : Type 0} where
  -- The buffers hold the lists `c`.
  abbrev pub Holds : (ℕ → List (Ptc S)) → Buffers S → Type 0
  Holds c s = (z : ℕ) → listing (s.buffers z) (s.nums z) ≡ c z

  pub clear-Holds :
      (c : ℕ → List (Ptc S)) (z : ℕ) (s : Buffers S)
      → Holds c s
      → Holds (write c z []) (record s { nums = write s.nums z 0 })
  clear-Holds c z s h y = elim (eq-cases y z) [
    | inl e ↦ rw (==_eq y z e) (listing_zero (s.buffers y))
    | inr ne ↦ rw (==_ne y z ne) (h y)
  ]

  -- The same on lists: the sent buffers are empty afterwards.
  abbrev pub clear_all : List (ℕ × ℕ) → (ℕ → List (Ptc S)) → ℕ → List (Ptc S)
  clear_all [] c = c
  clear_all ((send, recv) ∷ ps) c = clear_all ps (write c send [])

  clear_sent-Holds :
      (ps : List (ℕ × ℕ)) (c : ℕ → List (Ptc S)) (s : Buffers S)
      → Holds c s
      → Holds (clear_all ps c) (clear_sent ps s) × ((clear_sent ps s).ptcs ≡ s.ptcs)
  unfolding clear_sent
  clear_sent-Holds [] c s h = (h, refl)
  clear_sent-Holds ((send, recv) ∷ ps) c s h =
      clear_sent-Holds ps (write c send []) (record s { nums = write s.nums send 0 })
        (clear-Holds c send s h)

module _ {S : Type 0} (sendrecv : Sendrecv S) (d : Domain) where
  -- What arrives when `xs` is sent.
  abbrev pub message : Option ℕ → Option ℕ → ℕ → List (Ptc S) → List (Ptc S)
  message src dst i xs =
      if is_rank d.rank src && is_rank d.rank dst then xs else sendrecv dst src i xs

  -- The batch on lists.
  abbrev pub deliver :
      Option ℕ → Option ℕ → ℕ → List (ℕ × ℕ) → (ℕ → List (Ptc S)) → ℕ → List (Ptc S)
  deliver src dst i [] c = c
  deliver src dst i ((send, recv) ∷ ps) c =
      deliver src dst (suc i) ps (write c recv (c recv ++ message src dst i (c send)))

  abbrev pub pass : Option ℕ → Option ℕ → List (ℕ × ℕ) → (ℕ → List (Ptc S)) → ℕ → List (Ptc S)
  pass src dst ps c = clear_all ps (deliver src dst 0 ps c)

module _ {S : Type 0} (sendrecv : Sendrecv S) (d : Domain) (capacity : ℕ) where
  pub receive-Holds :
      (c : ℕ → List (Ptc S)) (recv : ℕ) (arrived : List (Ptc S)) (s : Buffers S)
      → Holds c s
      → length (c recv ++ arrived) ≤ capacity
      → (s' : Buffers S) × (receive capacity recv (s.nums recv) arrived s ≡ some s')
        × Holds (write c recv (c recv ++ arrived)) s'
        × (s'.ptcs ≡ s.ptcs)
  unfolding receive
  receive-Holds c recv arrived s h fits = (
    record s {
      buffers = write s.buffers recv (write_list (s.buffers recv) (s.nums recv) arrived);
      nums = write s.nums recv (s.nums recv + length arrived);
    },
    rw (leb-le (s.nums recv + length arrived) capacity (omega (arith, total))) refl,
    (λ z. elim (eq-cases z recv) [
      | inl e ↦ rw (==_eq z recv e) (
          listing-write_list (s.buffers recv) (s.nums recv) arrived
          ∙ ap (λ xs. xs ++ arrived) (h recv))
      | inr ne ↦ rw (==_ne z recv ne) (h z)
    ]),
    refl,
  )
    where
      total : s.nums recv + length arrived ≡ length (c recv ++ arrived)
      total = omega (
        arith,
        length-append (c recv) arrived,
        ap length (h recv),
        length-listing (s.buffers recv) (s.nums recv),
      )

  -- What arrives fits.
  abbrev pub Fits : Option ℕ → Option ℕ → ℕ → List (ℕ × ℕ) → (ℕ → List (Ptc S)) → Type 0
  Fits src dst i [] c = Unit
  Fits src dst i ((send, recv) ∷ ps) c =
      (length (c recv ++ message sendrecv d src dst i (c send)) ≤ capacity)
      × Fits src dst (suc i) ps (write c recv (c recv ++ message sendrecv d src dst i (c send)))

  send_loop-Holds :
      (src dst : Option ℕ) (i : ℕ) (ps : List (ℕ × ℕ)) (c : ℕ → List (Ptc S)) (s : Buffers S)
      → Holds c s
      → Fits src dst i ps c
      → (s' : Buffers S) × (send_loop sendrecv d capacity src dst i ps s ≡ some s')
        × Holds (deliver sendrecv d src dst i ps c) s'
        × (s'.ptcs ≡ s.ptcs)
  unfolding send_loop send_one
  send_loop-Holds src dst i [] c s h fits = (s, refl, h, refl)
  send_loop-Holds src dst i ((send, recv) ∷ ps) c s h (fits, rest) =
      let (s₁, e, h₁, p) =
        receive-Holds c recv (message sendrecv d src dst i (outbox send s)) s h
          (rw (h send) fits) in
      let h₁' : Holds (write c recv (c recv ++ message sendrecv d src dst i (c send))) s₁ =
        rw (← h send) h₁ in
      let (s₂, e₂, h₂, q) =
        send_loop-Holds src dst (suc i) ps
          (write c recv (c recv ++ message sendrecv d src dst i (c send))) s₁ h₁' rest in
      (s₂, rw e e₂, h₂, q ∙ p)

  -- A batch returns if what arrives fits, and then the buffers hold what it makes of the lists.
  pub send_particle_arrays-Holds :
      (src dst : Option ℕ) (ps : List (ℕ × ℕ)) (c : ℕ → List (Ptc S)) (s : Buffers S)
      → Holds c s
      → Fits src dst 0 ps c
      → (s' : Buffers S) × (send_particle_arrays sendrecv d capacity src dst ps s ≡ some s')
        × Holds (pass sendrecv d src dst ps c) s'
        × (s'.ptcs ≡ s.ptcs)
  unfolding send_particle_arrays
  send_particle_arrays-Holds src dst ps c s h fits =
      let (s₁, e, h₁, p) = send_loop-Holds src dst 0 ps c s h fits in
      let (h₂, q) = clear_sent-Holds ps (deliver sendrecv d src dst 0 ps c) s₁ h₁ in
      (clear_sent ps s₁, rw e refl, h₂, q ∙ p)
