-- ===== src/Poll/Poller/Waiting.antt =====
-- Registrants of src/io/poll/poller.rs against mio's registry: whoever waits is registered.
use fibers_rs.Prelude.{
  ℕ, ◌≡◌, sym, ◌∙◌, inl, inr, Bool, true, false, none, some, arith, ◌==◌, if◌then◌else◌, Bool-cases,
}
use fibers_rs.Prelude.HashMap.{get, get-insert}
use fibers_rs.Prelude.Results.{Result, ok}
use fibers_rs.Collections.Tree.{SplayMap}
use fibers_rs.Collections.ListMap.{key_ord}
use fibers_rs.Poll.Mio.{Mio, Ready}
use fibers_rs.Poll.Poller.{
  Registrant, Poller, is_wanted, mio_interest, mio_register, register_again,
}

module _ {W IoError : Type 0} (M : Mio IoError) where
  -- What `mio_register` does to the registry and to the registrant, when it succeeds.
  pub record Registered (q : M.Poll) (t : ℕ) (r : Registrant W)
      (x : Result (Unit {0}) IoError × M.Poll × Registrant W) : Type 0 where
    pub evented : x.2.evented ≡ r.evented
    pub interest : mio_interest x.2 ≡ mio_interest r
    pub others : (e : ℕ) → r.evented == e ≡ false → M.armed x.1 e ≡ M.armed q e
    pub own :
        M.armed x.1 r.evented
        ≡ (if is_wanted (mio_interest r) then some (t, mio_interest r) else M.armed q r.evented)
    pub first : x.2.is_first ≡ true → (r.is_first ≡ true) × (is_wanted (mio_interest r) ≡ false)

  pub mio_register_lem :
      {R : Type 0} (S : SplayMap (ℕ × ℕ) R key_ord) (q : M.Poll) (t : ℕ) (r : Registrant W)
      → (mio_register M S q t r).0 ≡ ok tt
      → Registered q t r (mio_register M S q t r)
  unfolding mio_register mio_interest
  mio_register_lem S q t r ok' = record {
    evented = ground arith;
    interest = ground arith;
    others = λ e ne. ground (
      arith,
      M.armed-register q r.evented t (mio_interest r) e,
      M.armed-reregister q r.evented t (mio_interest r) e,
    );
    own = ground (
      arith,
      M.armed-register q r.evented t (mio_interest r) r.evented,
      M.armed-reregister q r.evented t (mio_interest r) r.evented,
    );
    first = λ e. ground (arith, e);
  }

module _ {W R IoError : Type 0} (M : Mio IoError) (S : SplayMap (ℕ × ℕ) R key_ord) where
  -- Every registrant that somebody waits for, but the exempt ones, is armed for just what is waited
  -- for; registrants have objects of their own, and mio knows those alone.
  pub record IsArmed (exempt : ℕ → Bool) (p : Poller W R M.Poll S.Map) : Type 0 where
    pub armed :
        (t : ℕ) (r : Registrant W)
        → get p.registrants t ≡ some r
        → is_wanted (mio_interest r) ≡ true
        → exempt t ≡ false
        → M.armed p.os_poll r.evented ≡ some (t, mio_interest r)
    pub apart :
        (t u : ℕ) (r s : Registrant W)
        → get p.registrants t ≡ some r
        → get p.registrants u ≡ some s
        → r.evented ≡ s.evented
        → t ≡ u
    pub first :
        (t : ℕ) (r : Registrant W)
        → get p.registrants t ≡ some r
        → r.is_first ≡ true
        → M.armed p.os_poll r.evented ≡ none
    pub known :
        (e t : ℕ) (i : Ready)
        → M.armed p.os_poll e ≡ some (t, i)
        → (r : Registrant W) × (get p.registrants t ≡ some r) × (r.evented ≡ e)

  -- A registrant is changed and registered again: it is exempt no longer.
  pub register_again-IsArmed :
      (exempt exempt' : ℕ → Bool) (p : Poller W R M.Poll S.Map) (t : ℕ) (r0 r : Registrant W)
      → get p.registrants t ≡ some r0
      → r.evented ≡ r0.evented
      → r.is_first ≡ r0.is_first
      → ((j : ℕ) → t == j ≡ false → exempt' j ≡ false → exempt j ≡ false)
      → (register_again M S p t r).0 ≡ ok tt
      → IsArmed exempt p
      → IsArmed exempt' (register_again M S p t r).1
  unfolding register_again
  register_again-IsArmed exempt exempt' p t r0 r at_t same same_first sub done h =
      let x = mio_register M S p.os_poll t r in
      let reg = mio_register_lem M S p.os_poll t r (ground (arith, done)) in
      record {
        armed = λ j r1 e wanted free. ground (
          arith,
          get-insert p.registrants t x.2 j,
          reg.interest,
          reg.evented,
          reg.own,
          reg.others r1.evented,
          h.armed j r1,
          h.apart t j r0 r1,
          sub j,
        );
        apart = λ j k r1 r2 e f q. ground (
          arith,
          get-insert p.registrants t x.2 j,
          get-insert p.registrants t x.2 k,
          reg.evented,
          h.apart j k r1 r2,
          h.apart t k r0 r2,
          h.apart j t r1 r0,
        );
        first = λ j r1 e f. ground (
          arith,
          get-insert p.registrants t x.2 j,
          reg.first,
          reg.evented,
          reg.own,
          reg.others r1.evented,
          h.first j r1,
          h.first t r0,
          h.apart t j r0 r1,
        );
        known = λ e u i q. elim (Bool-cases (r.evented == e)) [
          | inl here ↦ elim (Bool-cases (is_wanted (mio_interest r))) [
            | inl wanted ↦
                let u_is : t ≡ u = ground (arith, reg.own, q, here, wanted) in
                (
                  x.2,
                  ground (arith, get-insert p.registrants t x.2 u, u_is),
                  ground (arith, reg.evented, here),
                )
            | inr idle ↦
                let (r1, at_u, q1) = h.known e u i (ground (arith, reg.own, q, here, idle)) in
                let u_is : t ≡ u = h.apart t u r0 r1 at_t at_u (ground (arith, q1, here)) in
                (
                  x.2,
                  ground (arith, get-insert p.registrants t x.2 u, u_is),
                  ground (arith, reg.evented, here),
                )
          ]
          | inr there ↦
              let (r1, at_u, q1) = h.known e u i (sym (reg.others e there) ∙ q) in
              (r1, ground (arith, get-insert p.registrants t x.2 u, at_u, at_t, q1, there), q1)
        ];
      }
