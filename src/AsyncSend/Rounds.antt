-- ===== src/AsyncSend/Rounds.antt =====
-- miniupnpd/asyncsendto.c: what a round of sending does to the list of packets.
use mathlib.Core.List.{Perm, perm_middle, map}
use mathlib.Core.List.Perm
use mathlib.Core.Path.{subst}
use native.Mathlib.Decide.{ℕ_discrete}
use miniupnpd_sdn.Base.{
  ℕ, zero, suc, ◌+◌, ◌≤◌, ◌≡◌, ◌≢◌, refl, inl, inr, Bool, true, false, not, ◌&&◌, List, [], ◌∷◌,
  ◌++◌, Option, some, ◌∙◌, ◌==◌, if◌then◌else◌, arith, Bool-cases,
}
use miniupnpd_sdn.AsyncSend.{
  SendState, escheduled, ewaitready, esendnow, Timeval, ScheduledSend, SendResult, sent, eagain,
  eintr, failed, WriteFds, not_after, before, get_sendto_fds, add_fd, Gone, Pass, is_due, keep,
  drop_elt, after_try, after_call, try_sendto, finalize_round, FinalizeEnd, emptied,
  deadline_passed, select_failed, finalize_loop, finalize_sendto, finalize_deadline, select_timeout,
}

-- A packet without its state.
abbrev pub packet : ScheduledSend → ScheduledSend
packet elt = record elt { state = escheduled }

abbrev pub packets : List ScheduledSend → List ScheduledSend
packets = map packet

abbrev pub gone_packets : List Gone → List ScheduledSend
gone_packets = map λ g. packet g.elt

module _ (packet_list : List ScheduledSend) (p : Pass)
    (rest : Perm (packets packet_list) (packets p.kept ++ gone_packets p.gone)) where
  kept-perm :
      (elt elt' : ScheduledSend)
      → packet elt ≡ packet elt'
      → Perm
          (packets (elt ∷ packet_list))
          (packets (keep elt' p).kept ++ gone_packets (keep elt' p).gone)
  kept-perm elt elt' e = Perm.cons' e rest

  dropped-perm :
      (elt : ScheduledSend) (r : SendResult)
      → Perm
          (packets (elt ∷ packet_list))
          (packets (drop_elt elt r p).kept ++ gone_packets (drop_elt elt r p).gone)
  dropped-perm elt r =
      Perm.trans (Perm.cons _ rest) (Perm.symm (perm_middle (packets p.kept) (gone_packets p.gone)))

  after_try-perm :
      (r : SendResult) (elt : ScheduledSend)
      → Perm (packets (elt ∷ packet_list)) (
          packets (after_try elt r (after_call r elt) p).kept
          ++ gone_packets (after_try elt r (after_call r elt) p).gone)
  unfolding after_call
  after_try-perm eintr elt = kept-perm elt (record elt { state = esendnow }) refl
  after_try-perm eagain elt = kept-perm elt (record elt { state = ewaitready }) refl
  after_try-perm failed elt = dropped-perm elt failed
  after_try-perm (sent n) elt = dropped-perm elt (sent n)

-- Each packet taken off by a pass was answered by `send` with neither EAGAIN nor EINTR: it was sent,
-- or failed with an error that is not retried.
abbrev pub AllFinal : (ℕ → SendResult) → List Gone → Type 0
AllFinal send [] = Unit {0}
AllFinal send (g ∷ gs) =
    ((j : ℕ) × (g.answer ≡ send j) × (g.answer ≢ eagain) × (g.answer ≢ eintr)) × AllFinal send gs

after_try-AllFinal :
    (send : ℕ → SendResult) (k : ℕ) (r : SendResult) (elt : ScheduledSend) (p : Pass)
    → r ≡ send k
    → AllFinal send p.gone
    → AllFinal send (after_try elt r (after_call r elt) p).gone
unfolding after_call
after_try-AllFinal send k eintr elt p e h = h
after_try-AllFinal send k eagain elt p e h = h
after_try-AllFinal send k failed elt p e h = ((k, e, λ e. cc, λ e. cc), h)
after_try-AllFinal send k (sent n) elt p e h = ((k, e, λ e. cc, λ e. cc), h)

try_sendto-AllFinal :
    (send : ℕ → SendResult) (list : List ScheduledSend) (ready : List ℕ) (k : ℕ)
    → AllFinal send (try_sendto send list ready k).gone
unfolding try_sendto
try_sendto-AllFinal send [] ready k = tt
try_sendto-AllFinal send (elt ∷ list) ready k = elim (Bool-cases (is_due elt ready)) [
  | inr e ↦ rw e (try_sendto-AllFinal send list ready k)
  | inl e ↦
      rw e (
        after_try-AllFinal send k (send k) elt _ refl (try_sendto-AllFinal send list ready (k + 1)))
]

module _ (send : ℕ → SendResult) where
  kept_or_gone :
      (list : List ScheduledSend) (writefds : List ℕ) (k : ℕ)
      → Perm (packets list) (
          packets (try_sendto send list writefds k).kept
          ++ gone_packets (try_sendto send list writefds k).gone)
  unfolding try_sendto
  kept_or_gone [] writefds k = Perm.nil
  kept_or_gone (elt ∷ list) writefds k = elim (Bool-cases (is_due elt writefds)) [
    | inr e ↦ rw e (
        kept-perm list (try_sendto send list writefds k) (kept_or_gone list writefds k) elt elt
          refl)
    | inl e ↦ rw e (
        after_try-perm list (try_sendto send list writefds (k + 1))
          (kept_or_gone list writefds (k + 1)) (send k) elt)
  ]

  -- No packet is lost or made up by a pass: those kept and those taken off are those of the list, and
  -- for each one taken off `send` has given an answer that is neither EAGAIN nor EINTR.
  pub try_sendto-perm :
      (list : List ScheduledSend) (writefds : List ℕ) (k : ℕ)
      → Perm (packets list) (
          packets (try_sendto send list writefds k).kept
          ++ gone_packets (try_sendto send list writefds k).gone)
        × AllFinal send (try_sendto send list writefds k).gone
  try_sendto-perm list writefds k =
      (kept_or_gone list writefds k, try_sendto-AllFinal send list writefds k)

-- The elements whose time has not come and that were not tried.
abbrev is_scheduled : SendState → Bool
is_scheduled escheduled = true
is_scheduled _ = false

abbrev pub early : Timeval → List ScheduledSend → List ScheduledSend
early now [] = []
early now (elt ∷ list) =
    if is_scheduled elt.state && not (not_after elt.ts now)
    then elt ∷ early now list
    else early now list

try-early :
    (send : ℕ → SendResult) (now : Timeval) (list : List ScheduledSend) (writefds : List ℕ) (k : ℕ)
    → early now (try_sendto send list writefds k).kept ≡ early now list
unfolding try_sendto after_call
try-early send now [] w k = refl
try-early send now (elt ∷ list) w k =
    ground (arith, try-early send now list w k, try-early send now list w (k + 1))

fds-early :
    (now : Timeval) (list : List ScheduledSend) (fds : WriteFds)
    → early now (get_sendto_fds list fds now).list ≡ early now list
unfolding get_sendto_fds
fds-early now [] fds = refl
fds-early now (elt ∷ list) fds =
    ground (arith, fds-early now list (add_fd fds elt.sockfd), fds-early now list fds)

-- A packet that waits for its time is not sent before it: getting the descriptors at time `now` and
-- then trying to send leaves just those packets waiting that did before, in order and unchanged.
pub try_sendto-early :
    (send : ℕ → SendResult) (now : Timeval) (list : List ScheduledSend) (fds : WriteFds)
    (ready : List ℕ) (k : ℕ)
    → early now (try_sendto send (get_sendto_fds list fds now).list ready k).kept ≡ early now list
try_sendto-early send now list fds ready k =
    try-early send now (get_sendto_fds list fds now).list ready k ∙ fds-early now list fds

-- How the finalization ends: nothing is left, or a wait failed.
abbrev pub Finalized : List ScheduledSend × FinalizeEnd → Type 0
Finalized (list, emptied) = list ≡ []
Finalized (list, deadline_passed) = list ≡ []
Finalized (list, select_failed) = Unit {0}
Finalized (list, _) = ⊥

module _ (send : ℕ → SendResult) (clock : ℕ → Option Timeval) (select : ℕ → Timeval → Bool)
    (last : ℕ) (ticks : (i : ℕ) → (t : Timeval) × (clock i ≡ some t)) where
  finalize_loop-Finalized :
      (deadline : Timeval) (late : (t : Timeval) → clock last ≡ some t → before deadline t ≡ true)
      (rounds r : ℕ) (list : List ScheduledSend) (k : ℕ)
      → rounds + r ≡ suc last
      → r ≤ last
      → Finalized (finalize_loop send clock select rounds list r k deadline)
  unfolding finalize_loop
  finalize_loop-Finalized deadline late zero r list k e h = absurd (omega arith)
  finalize_loop-Finalized deadline late (suc n) r [] k e h = refl
  finalize_loop-Finalized deadline late (suc n) r (elt ∷ list) k e h =
      let (t, tick) = ticks r in
      let (p, fds) =
        finalize_round send (elt ∷ list) (record { writefds = []; max_fd_suc = 0 }) k in
      elim (Bool-cases (before deadline t)) [
        | inl over ↦ rw (tick, finalize_loop, over) refl
        | inr more ↦
            elim (Bool-cases
              (not (fds.max_fd_suc == 0) && not (select r (select_timeout deadline t)))) [
                | inl bad ↦ rw (tick, finalize_loop, more, bad) tt
                | inr good ↦
                    rw (tick, finalize_loop, more, good)
                      (finalize_loop-Finalized deadline late n (r + 1) p.kept p.calls (omega arith)
                        (not_last t tick more))
              ]
      ]
    where
      not_last : (t : Timeval) → clock r ≡ some t → before deadline t ≡ false → r + 1 ≤ last
      not_last t tick more = elim (ℕ_discrete r last) [
        | yes q ↦ let over = late t (subst (λ i. clock i ≡ some t) q tick) in cc
        | no q ↦ omega arith
      ]

  -- If every reading of the clock succeeds and one reads a time behind the deadline, the finalization
  -- ends within the rounds up to that reading, with no packet left unless a wait failed.
  pub finalize_sendto-Finalized :
      (start : Timeval) (list : List ScheduledSend)
      → ((t : Timeval) → clock last ≡ some t → before (finalize_deadline start) t ≡ true)
      → Finalized (finalize_sendto send clock select (suc last) (some start) list)
  unfolding finalize_sendto
  finalize_sendto-Finalized start list late =
      finalize_loop-Finalized (finalize_deadline start) late (suc last) 0 list 0 (omega arith)
        (omega arith)
