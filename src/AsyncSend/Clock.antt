-- ===== src/AsyncSend/Clock.antt =====
-- miniupnpd/asyncsendto.c: the times that packets are kept until.
use miniupnpd_sdn.Base.{
  ℕ, ◌+◌, ◌*◌, ◌≤◌, ◌<◌, ◌≡◌, refl, sym, ◌∙◌, ◌⊎◌, inl, inr, Bool, false, ◌||◌, List, [], ◌∷◌,
  Option, some, Bytes, ◌==◌, if◌then◌else◌, length, arith, Bool-cases,
}
use miniupnpd_sdn.AsyncSend.{
  Timeval, ScheduledSend, before, time_after, next_send_loop, get_next_scheduled_send,
  select_timeout, finalize_deadline, sendto_schedule2, SendResult,
}

-- A time in microseconds.
abbrev pub micros : Timeval → ℕ
micros t = t.tv_sec * 1000000 + t.tv_usec

-- A packet with a delay is kept until exactly that many milliseconds after the clock's reading; the
-- microseconds of a normal reading stay at or below a million.
pub time_after-micros :
    (tv : Timeval) (delay : ℕ)
    → tv.tv_usec < 1000000
    → (micros (time_after tv delay) ≡ micros tv + delay * 1000)
      × ((time_after tv delay).tv_usec ≤ 1000000)
unfolding time_after
time_after-micros tv delay h = ground arith

-- The time that `select` may wait is what is left up to the deadline, for a deadline that is not past.
pub select_timeout-micros :
    (start now : Timeval)
    → start.tv_usec < 1000000
    → now.tv_usec < 1000000
    → before (finalize_deadline start) now ≡ false
    → (micros now + micros (select_timeout (finalize_deadline start) now) ≡ micros start + 500000)
unfolding select_timeout finalize_deadline
select_timeout-micros start now h k e = ground arith

abbrev pub AllTimes : List ScheduledSend → Type 0
AllTimes [] = Unit {0}
AllTimes (elt ∷ list) = (elt.ts.tv_usec ≤ 1000000) × AllTimes list

-- No element is kept until an earlier time than `t`.
abbrev pub NoneBefore : Timeval → List ScheduledSend → Type 0
NoneBefore t [] = Unit {0}
NoneBefore t (elt ∷ list) = (micros t ≤ micros elt.ts) × NoneBefore t list

-- Some element is kept until `t`.
abbrev pub SomeAt : Timeval → List ScheduledSend → Type 0
SomeAt t [] = ⊥
SomeAt t (elt ∷ list) = (elt.ts ≡ t) ⊎ SomeAt t list

loop_count :
    (list : List ScheduledSend) (n : ℕ) (t : Timeval)
    → (next_send_loop list n t).0 ≡ n + length list
unfolding next_send_loop
loop_count [] n t = omega arith
loop_count (elt ∷ list) n t =
    omega (arith, loop_count list (n + 1) (if n == 0 || before elt.ts t then elt.ts else t))

abbrev earlier : ℕ → Timeval → Timeval → Timeval
earlier n a t = if n == 0 || before a t then a else t

earlier_lem :
    (n : ℕ) (a t : Timeval)
    → 0 < n
    → a.tv_usec ≤ 1000000
    → t.tv_usec ≤ 1000000
    → (micros (earlier n a t) ≤ micros t)
      × (micros (earlier n a t) ≤ micros a)
      × ((earlier n a t).tv_usec ≤ 1000000)
      × ((earlier n a t ≡ a) ⊎ (earlier n a t ≡ t))
earlier_lem n a t p h k = elim (Bool-cases (n == 0 || before a t)) [
  | inl e ↦ rw e (ground arith, omega arith, h, inl refl)
  | inr e ↦ rw e (omega arith, ground arith, k, inr refl)
]

-- The loop keeps the earliest time: not after the one at hand, nor after any in the list.
loop_earliest :
    (list : List ScheduledSend) (n : ℕ) (t : Timeval)
    → 0 < n
    → t.tv_usec ≤ 1000000
    → AllTimes list
    → (micros (next_send_loop list n t).1 ≤ micros t)
      × NoneBefore (next_send_loop list n t).1 list
      × (((next_send_loop list n t).1 ≡ t) ⊎ SomeAt (next_send_loop list n t).1 list)
unfolding next_send_loop
loop_earliest [] n t p h v = (omega arith, tt, inl refl)
loop_earliest (elt ∷ list) n t p h v =
    let (sooner, now, fits, which) = earlier_lem n elt.ts t p v.0 h in
    let (near, all, from) =
      loop_earliest list (n + 1) (earlier n elt.ts t) (omega arith) fits v.1 in
    (
      omega arith,
      (omega arith, all),
      elim from [
        | inr q ↦ inr (inr q)
        | inl q ↦ elim which [ inl u ↦ inr (inl (sym (q ∙ u))) | inr u ↦ inl (q ∙ u) ]
      ],
    )

-- For a list that is not empty and whose microseconds are at most a million: the count is the list's
-- length, and the time is that of some element and not after that of any.
pub get_next_scheduled_send_earliest :
    (elt : ScheduledSend) (list : List ScheduledSend) (old : Timeval)
    → AllTimes (elt ∷ list)
    → ((get_next_scheduled_send (elt ∷ list) old).0 ≡ length (elt ∷ list))
      × NoneBefore (get_next_scheduled_send (elt ∷ list) old).1 (elt ∷ list)
      × SomeAt (get_next_scheduled_send (elt ∷ list) old).1 (elt ∷ list)
unfolding get_next_scheduled_send
get_next_scheduled_send_earliest elt list old v =
    let (near, all, which) = loop_earliest list 1 elt.ts (omega arith) v.0 v.1 in
    (
      omega (arith, loop_count (elt ∷ list) 0 old),
      (near, all),
      elim which [ inl q ↦ inl (sym q) | inr q ↦ inr q ],
    )

-- What sendto_schedule2 adds keeps the microseconds at or below a million.
pub sendto_schedule2-AllTimes :
    (list : List ScheduledSend) (tv : Timeval) (malloc_ok : Bool) (first : SendResult) (sockfd : ℕ)
    (buf : Bytes) (flags : ℕ) (dest : Bytes) (src : Option Bytes) (delay : ℕ)
    → tv.tv_usec < 1000000
    → AllTimes list
    → AllTimes (sendto_schedule2 list (some tv) malloc_ok first sockfd buf flags dest src delay).0
unfolding sendto_schedule2
sendto_schedule2-AllTimes list tv malloc_ok first sockfd buf flags dest src delay h v =
    ground (arith, time_after-micros tv delay)
