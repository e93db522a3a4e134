-- ===== src/Sync/Oneshot/Refined.antt =====
-- The channel of src/sync/oneshot.rs, in every interleaving of its two sides, is the cell of
-- Sync/Oneshot/Cell, and no value goes unnoticed.
use fibers_rs.Prelude.{
  ◌≡◌, ◌≢◌, refl, subst, ◌∙◌, ◌⊎◌, inl, inr, none, some, true, false, [], arith, Option-cases,
  Bool-cases,
}
use fibers_rs.Prelude.Results.{ok, err, Poll, ready, not_ready}
use fibers_rs.Fiber.State.{Unpark}
use fibers_rs.Fiber.Schedule.{Machine}
use fibers_rs.Sync.Notifier.{notify-empties}
use fibers_rs.Sync.Halves.{Channel}
use fibers_rs.Sync.Oneshot.{
  Nb, RecvError, recv_error, channel, value_result, first_try, second_try, put_value, drop_tx,
}
use fibers_rs.Sync.Oneshot.Cell.{
  Action, Cell, Does, give, take, break, notice, wait, silent, Runs, new, next,
}
use fibers_rs.Sync.Oneshot.Steps.{
  waiting, finished, alive, notifying, dropping, after_poll, got, seen, System, Step, receives,
  begins, awaits, retries, puts, notifies, begins_drop, ends_drop, moves, initial, Reach, start,
  later, action, trace, view,
}

module _ {T : Type 0} where
  Does-same : {a : Action T} {c c' d d' : Cell T} → c' ≡ c → d' ≡ d → Does a c d → Does a c' d'
  Does-same {a} {c} {c'} {d} {d'} p q x = rw (p, q) x

module _ {T : Type 0} (N : Nb T) where
  -- The outcomes of one `try_recv`: what `poll` makes of it, and the channel after it.
  data Tried (c : N.Chan) : Poll T RecvError → N.Chan → Type 0 where
    took : (t : T) (d : N.Chan) → N.value c ≡ some t → N.value d ≡ none → Tried c (ok (ready t)) d
    saw_nothing : N.value c ≡ none → N.has_sender c ≡ true → Tried c (ok not_ready) c
    saw_end : N.value c ≡ none → N.has_sender c ≡ false → Tried c (err recv_error) c

  tried : (c : N.Chan) → Tried c (value_result (N.try_recv c).0) (N.try_recv c).1
  unfolding value_result
  tried c = elim (Option-cases (N.value c)) [
    | inr (t, is_t) ↦ by_value t is_t
    | inl nothing ↦ elim (Bool-cases (N.has_sender c)) [
      | inl there ↦ rw (N.try_recv-empty c nothing there) (saw_nothing nothing there)
      | inr left ↦ rw (N.try_recv-disconnected c nothing left) (saw_end nothing left)
    ]
  ]
    where
      by_value :
          (t : T) → N.value c ≡ some t → Tried c (value_result (N.try_recv c).0) (N.try_recv c).1
      by_value t is_t =
          let (r, after) = N.try_recv-value c t is_t in rw r (took t (N.try_recv c).1 is_t after)

  nothing_seen :
      {c d : N.Chan} {p : Poll T RecvError}
      → Tried c p d
      → p ≡ ok not_ready
      → (N.value c ≡ none) × (N.has_sender c ≡ true) × (d ≡ c)
  nothing_seen (took t d e q) z = absurd (ground (arith, z))
  nothing_seen (saw_nothing e q) z = (e, q, refl)
  nothing_seen (saw_end e q) z = absurd (ground (arith, z))

  first-Tried :
      (ch d : Channel N.Chan) (p : Poll T RecvError)
      → first_try N ch ≡ (some p, d)
      → Tried ch.inner p d.inner × (d.notifier ≡ ch.notifier) × (p ≢ ok not_ready)
  unfolding first_try value_result
  first-Tried ch d p e =
      let result : p ≡ value_result (N.try_recv ch.inner).0 = ground (arith, e) in
      let inner : d.inner ≡ (N.try_recv ch.inner).1 = ground (arith, e) in
      (rw (result, inner) (tried ch.inner), ground (arith, e), λ q. ground (arith, e, q))

  first-none :
      (ch d : Channel N.Chan)
      → first_try N ch ≡ (none, d)
      → (N.value ch.inner ≡ none) × (N.has_sender ch.inner ≡ true) × (d ≡ ch)
  unfolding first_try value_result
  first-none ch d e =
      let result : value_result (N.try_recv ch.inner).0 ≡ ok not_ready = ground (arith, e) in
      let (nothing, there, same) = nothing_seen (tried ch.inner) result in
      (nothing, there, ground (arith, e, same))

  second-Tried :
      (ch d : Channel N.Chan) (p : Poll T RecvError)
      → second_try N ch ≡ (p, d)
      → Tried ch.inner p d.inner × (d.notifier ≡ ch.notifier)
  unfolding second_try
  second-Tried ch d p e =
      let result : p ≡ value_result (N.try_recv ch.inner).0 = ground (arith, e) in
      let inner : d.inner ≡ (N.try_recv ch.inner).1 = ground (arith, e) in
      (rw (result, inner) (tried ch.inner), ground (arith, e))

  module _ {F : Type 0} where
    -- A sender that lives has sent nothing, to a receiver that lives; the receiver gets one value, and
    -- waits only until the sender notifies.
    pub record IsSound (s : System N.Chan T F) : Type 0 where
      pub unsent :
          (s.sender ≡ alive) ⊎ (s.sender ≡ dropping)
          → (N.value s.chan.inner ≡ none) × (N.has_sender s.chan.inner ≡ true) × (s.received ≡ none)
      pub listens : s.sender ≡ alive → N.has_receiver s.chan.inner ≡ true
      pub once : s.receiver ≢ finished → s.received ≡ none
      pub awake :
          (u : Unpark)
          → s.receiver ≡ waiting
          → s.chan.notifier.unpark.inner ≡ some (some u)
          → (N.value s.chan.inner ≡ none) ⊎ (s.sender ≡ notifying)

    polled-IsSound :
        (s : System N.Chan T F) (ch : Channel N.Chan) (p : Poll T RecvError)
        → s.receiver ≢ finished
        → Tried s.chan.inner p ch.inner
        → IsSound s
        → IsSound (record s { chan = ch; receiver = after_poll p; received = got p })
          × Does
              (seen p)
              (view N s)
              (view N (record s { chan = ch; receiver = after_poll p; received = got p }))
    polled-IsSound s ch p going (took t d e q) h = (
      record {
        unsent = λ w. absurd (ground (arith, h.unsent w, e));
        listens = λ l. absurd (ground (arith, h.unsent (inl l), e));
        once = λ f. absurd (f refl);
        awake = λ u w cell. absurd (ground (arith, w));
      },
      Does-same (ground (arith, e, h.once going)) refl (take t),
    )
    polled-IsSound s ch p going (saw_nothing e there) h = (
      record {
        unsent = λ w. (e, there, refl);
        listens = h.listens;
        once = λ f. refl;
        awake = λ u w cell. inl e;
      },
      Does-same (ground (arith, e, there, h.once going)) (ground (arith, e, there)) wait,
    )
    polled-IsSound s ch p going (saw_end e left) h = (
      record {
        unsent = λ w. absurd (ground (arith, h.unsent w, left));
        listens = h.listens;
        once = λ f. refl;
        awake = λ u w cell. absurd (ground (arith, w));
      },
      Does-same (ground (arith, e, left, h.once going)) (ground (arith, e, left)) notice,
    )

    Step-IsSound :
        {s s' : System N.Chan T F}
        → (st : Step N s s') → IsSound s
        → IsSound s' × Does (action N st) (view N s) (view N s')
    unfolding put_value drop_tx
    Step-IsSound (receives s ch p o e) h =
        polled-IsSound s ch p (λ f. ground (arith, o, f)) (first-Tried s.chan ch p e).0 h
    Step-IsSound (begins s ch o e) h =
        let (nothing, there, same) = first-none s.chan ch e in
        (
          record {
            unsent = λ w. ground (arith, same, h.unsent w);
            listens = λ l. ground (arith, same, h.listens l);
            once = λ f. h.once (λ q. ground (arith, o, q));
            awake = λ u w cell. absurd (ground (arith, w));
          },
          Does-same (ground (arith, nothing, there, h.once (λ q. ground (arith, o, q))))
              (ground (arith, nothing, there, same, h.once (λ q. ground (arith, o, q)))) wait,
        )
    Step-IsSound (awaits s n m o e) h = (
      record {
        unsent = h.unsent;
        listens = h.listens;
        once = λ f. h.once (λ q. ground (arith, o, q));
        awake = λ u w cell. absurd (ground (arith, w));
      },
      silent _,
    )
    Step-IsSound (retries s ch p o e) h =
        polled-IsSound s ch p (λ f. ground (arith, o, f)) (second-Tried s.chan ch p e).0 h
    Step-IsSound (puts s ch t l e) h =
        let (nothing, there, fresh) = h.unsent (inl l) in
        let (result, value, left, listening) = N.send-view s.chan.inner t (h.listens l) in
        (
          record {
            unsent = λ w. absurd (ground (arith, w));
            listens = λ l'. absurd (ground (arith, l'));
            once = h.once;
            awake = λ u w cell. inr refl;
          },
          Does-same (ground (arith, nothing, there, fresh)) (ground (arith, e, value, fresh))
              (give t),
        )
    Step-IsSound (notifies s n m l e) h = (
      record {
        unsent = λ w. absurd (ground (arith, w));
        listens = λ l'. absurd (ground (arith, l'));
        once = h.once;
        awake = λ u w cell.
            absurd (ground (arith, cell, notify-empties s.chan.notifier n s.machine m e));
      },
      silent _,
    )
    Step-IsSound (begins_drop s n m l e) h = (
      record {
        unsent = λ w. h.unsent (inl l);
        listens = λ l'. absurd (ground (arith, l'));
        once = h.once;
        awake = λ u w cell.
            absurd (ground (arith, cell, notify-empties s.chan.notifier n s.machine m e));
      },
      silent _,
    )
    Step-IsSound (ends_drop s l) h =
        let (nothing, there, fresh) = h.unsent (inr l) in
        let (value, left) = N.drop_sender-view s.chan.inner in
        (
          record {
            unsent = λ w. absurd (ground (arith, w));
            listens = λ l'. absurd (ground (arith, l'));
            once = h.once;
            awake = λ u w cell. inl (value ∙ nothing);
          },
          Does-same (ground (arith, nothing, there, fresh))
              (ground (arith, value, left, nothing, fresh)) break,
        )
    Step-IsSound (moves s m) h = (
      record { unsent = h.unsent; listens = h.listens; once = h.once; awake = h.awake },
      silent _,
    )

    initial-IsSound : (m : Machine F) → IsSound (initial N m)
    unfolding channel
    initial-IsSound m =
        let (nothing, there, listening) = N.new-view in
        record {
          unsent = λ w. (nothing, there, refl);
          listens = λ l. listening;
          once = λ f. refl;
          awake = λ u w cell. absurd (ground (arith, w));
        }

    Reach-IsSound : {m : Machine F} {s : System N.Chan T F} → Reach N m s → IsSound s
    Reach-IsSound {m} start = initial-IsSound m
    Reach-IsSound (later r st) = (Step-IsSound st (Reach-IsSound r)).0

    -- While the receiver lives, in every interleaving, what the two sides have done and seen is a run of the cell that starts
    -- without a value, and ends as the channel is now. So the receiver gets the value that was sent, and
    -- once, sees an error only after the sender has gone without sending, and else is not ready.
    pub Reach-Trace :
        {m : Machine F} {s : System N.Chan T F} (r : Reach N m s) → Runs (trace N r) (view N s)
    unfolding channel
    Reach-Trace start =
        let (nothing, there, listening) = N.new-view in
        subst (Runs []) (ground (arith, nothing, there)) new
    Reach-Trace (later r st) = next (Reach-Trace r) (Step-IsSound st (Reach-IsSound r)).1

    -- The notification of the value is not lost: in every interleaving, when the receiver waits with its
    -- `Unpark` in the cell and the channel holds the value, `send` has not notified yet.
    pub no_lost_value :
        {m : Machine F} {s : System N.Chan T F}
        → Reach N m s
        → (u : Unpark) → s.receiver ≡ waiting
        → s.chan.notifier.unpark.inner ≡ some (some u)
        → N.value s.chan.inner ≢ none
        → s.sender ≡ notifying
    no_lost_value r u w cell some_value = elim ((Reach-IsSound r).awake u w cell) [
      | inl nothing ↦ absurd (some_value nothing)
      | inr coming ↦ coming
    ]
