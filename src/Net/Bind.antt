-- ===== src/Net/Bind.antt =====
-- src/net/mod.rs: `Bind`, the future that binds a socket and registers it.
use fibers_rs.Prelude.{ℕ, zero, suc, none, some}
use fibers_rs.Prelude.Results.{Result, ok, err, Poll, ready, not_ready, Fault, panic, diverges}
use fibers_rs.Net.Reactor.{IoError, into_io_error_recv, Reactor}

pub data Bind (Addr Reg : Type 0) : Type 0 where
  bind : Addr → Bind Addr Reg
  registering : Reg → Bind Addr Reg
  polled : Bind Addr Reg

module _ (R : Reactor) {Addr : Type 0} where
  open R use {World, Socket, Handle, Reg, register, poll_register}

  -- `Bind::poll` with the function `f` that binds, on fuel; what is returned besides the result is
  -- `*self`.
  unfoldable pub poll_bind :
      (Addr → World → Result Socket IoError × World)
      → ℕ
      → Bind Addr Reg
      → World
      → Result (Poll Handle IoError × Bind Addr Reg × World) Fault
  poll_bind f zero b w = err diverges
  poll_bind f (suc n) (bind addr) w =
      let (x, w1) = f addr w in
      elim x [
        | err e ↦ ok (err e, polled, w1)
        | ok socket ↦ elim (register socket w1) [
          | none ↦ err panic
          | some (reg, w2) ↦ poll_bind f n (registering reg) w2
        ]
      ]
  poll_bind f (suc n) (registering future) w =
      let (x, future', w1) = poll_register future w in
      elim x [
        | err e ↦ ok (err (into_io_error_recv e), polled, w1)
        | ok a ↦ elim a [
          | ready handle ↦ ok (ok (ready handle), polled, w1)
          | not_ready ↦ ok (ok not_ready, registering future', w1)
        ]
      ]
  poll_bind f (suc n) polled w = err panic
