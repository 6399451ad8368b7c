-- ===== src/AsyncSend.antt =====
-- miniupnpd/asyncsendto.c: datagrams that are sent now, or kept until a time or until their socket
-- is ready. The list `send_list` is a value, head first; `send` is send_from_to, answered by the
-- system: a parameter by the number of the call. A clock or a `malloc` that fails is an argument.
pub mod Clock
pub mod Rounds
mod Tests
use miniupnpd_sdn.Base.{
  ℕ, zero, suc, ◌+◌, ◌-◌, ◌*◌, ◌/◌, ◌%◌, Bool, true, false, not, ◌&&◌, ◌||◌, List, [], ◌∷◌, Option,
  none, some, Bytes, ltb, leb, ◌==◌, if◌then◌else◌, length,
}

pub data SendState : Type 0 where
  escheduled ewaitready esendnow : SendState

pub record Timeval : Type 0 where
  pub tv_sec : ℕ
  pub tv_usec : ℕ

pub record ScheduledSend : Type 0 where
  pub ts : Timeval
  pub state : SendState
  pub sockfd : ℕ
  pub buf : Bytes
  pub flags : ℕ
  pub dest_addr : Bytes
  pub src_addr : Option Bytes

-- What `sendto` or `sendmsg` answers: the bytes sent, or `errno`.
pub data SendResult : Type 0 where
  sent : ℕ → SendResult
  eagain eintr failed : SendResult

-- What the scheduling functions return: `n >= 0`, or -1.
pub data Return : Type 0 where
  bytes : ℕ → Return
  minus_one : Return

-- `a < b` and `a <= b` as the code compares times.
abbrev pub before : Timeval → Timeval → Bool
before a b = ltb a.tv_sec b.tv_sec || a.tv_sec == b.tv_sec && ltb a.tv_usec b.tv_usec

abbrev pub not_after : Timeval → Timeval → Bool
not_after a b = ltb a.tv_sec b.tv_sec || a.tv_sec == b.tv_sec && leb a.tv_usec b.tv_usec

-- The time `delay` milliseconds after `tv`.
unfoldable pub time_after : Timeval → ℕ → Timeval
time_after tv delay =
    let sec = tv.tv_sec + delay / 1000 in
    let usec = tv.tv_usec + delay % 1000 * 1000 in
    if ltb 1000000 usec
    then record { tv_sec = sec + 1; tv_usec = usec - 1000000 }
    else record { tv_sec = sec; tv_usec = usec }

-- The part of sendto_schedule2 behind the first try: the element goes to the head of the list.
unfoldable pub schedule :
    List ScheduledSend
    → Option Timeval
    → Bool
    → SendState
    → ℕ
    → Bytes
    → ℕ
    → Bytes
    → Option Bytes
    → ℕ
    → List ScheduledSend × Return
schedule send_list none malloc_ok state sockfd buf flags dest_addr src_addr delay =
    (send_list, minus_one)
schedule send_list (some tv) malloc_ok state sockfd buf flags dest_addr src_addr delay =
    if malloc_ok
    then (
      record {
        ts = time_after tv delay;
        state = state;
        sockfd = sockfd;
        buf = buf;
        flags = flags;
        dest_addr = dest_addr;
        src_addr = src_addr;
      }
          ∷ send_list,
      bytes 0,
    )
    else (send_list, minus_one)

-- `first` is what the first try answers; it is made only without a delay.
unfoldable pub sendto_schedule2 :
    List ScheduledSend
    → Option Timeval
    → Bool
    → SendResult
    → ℕ
    → Bytes
    → ℕ
    → Bytes
    → Option Bytes
    → ℕ
    → List ScheduledSend × Return
unfolding schedule
sendto_schedule2 send_list now malloc_ok first sockfd buf flags dest_addr src_addr delay =
    let later = λ (s : SendState).
      schedule send_list now malloc_ok s sockfd buf flags dest_addr src_addr delay in
    if delay == 0
    then elim first [
      | sent n ↦ (send_list, bytes n)
      | eagain ↦ later ewaitready
      | eintr ↦ later esendnow
      | failed ↦ (send_list, minus_one)
    ]
    else later escheduled

unfoldable pub sendto_or_schedule :
    List ScheduledSend
    → Option Timeval
    → Bool
    → SendResult
    → ℕ
    → Bytes
    → ℕ
    → Bytes
    → List ScheduledSend × Return
unfolding sendto_schedule2
sendto_or_schedule send_list now malloc_ok first sockfd buf flags dest_addr =
    sendto_schedule2 send_list now malloc_ok first sockfd buf flags dest_addr none 0

unfoldable pub sendto_or_schedule2 :
    List ScheduledSend
    → Option Timeval
    → Bool
    → SendResult
    → ℕ
    → Bytes
    → ℕ
    → Bytes
    → Option Bytes
    → List ScheduledSend × Return
unfolding sendto_schedule2
sendto_or_schedule2 send_list now malloc_ok first sockfd buf flags dest_addr src_addr =
    sendto_schedule2 send_list now malloc_ok first sockfd buf flags dest_addr src_addr 0

-- The loop of get_next_scheduled_send, with `n` and `*next_send`.
unfoldable pub next_send_loop : List ScheduledSend → ℕ → Timeval → ℕ × Timeval
next_send_loop [] n next_send = (n, next_send)
next_send_loop (elt ∷ list) n next_send =
    next_send_loop list (n + 1) (if n == 0 || before elt.ts next_send then elt.ts else next_send)

-- The count of elements and the time of the first; the old time if there are none.
unfoldable pub get_next_scheduled_send : List ScheduledSend → Timeval → ℕ × Timeval
unfolding next_send_loop
get_next_scheduled_send send_list next_send = next_send_loop send_list 0 next_send

-- The descriptors to wait for, and `max_fd + 1`: the variable is -1 where there is none.
pub record WriteFds : Type 0 where
  pub writefds : List ℕ
  pub max_fd_suc : ℕ

pub record FdsResult : Type 0 where
  pub list : List ScheduledSend
  pub fds : WriteFds
  pub count : ℕ

abbrev pub is_waiting : SendState → Bool
is_waiting ewaitready = true
is_waiting _ = false

abbrev pub is_now : SendState → Bool
is_now esendnow = true
is_now _ = false

abbrev pub add_fd : WriteFds → ℕ → WriteFds
add_fd fds fd = record {
  writefds = fd ∷ fds.writefds;
  max_fd_suc = if leb fds.max_fd_suc fd then fd + 1 else fds.max_fd_suc;
}

unfoldable pub get_sendto_fds : List ScheduledSend → WriteFds → Timeval → FdsResult
get_sendto_fds [] fds now = record { list = []; fds = fds; count = 0 }
get_sendto_fds (elt ∷ list) fds now =
    let waits = is_waiting elt.state in
    let due = not_after elt.ts now in
    let rest = get_sendto_fds list (if waits then add_fd fds elt.sockfd else fds) now in
    record {
      list =
          (if waits then elt else (if due then record elt { state = esendnow } else elt))
          ∷ rest.list;
      fds = rest.fds;
      count = (if waits || due then 1 else 0) + rest.count;
    }

abbrev pub is_set : ℕ → List ℕ → Bool
is_set fd [] = false
is_set fd (x ∷ xs) = x == fd || is_set fd xs

-- An element that was taken off the list, and the answer to the last call for it.
pub record Gone : Type 0 where
  pub elt : ScheduledSend
  pub answer : SendResult

-- What a pass over the list leaves: the list, what was taken off, and the number of the next call.
pub record Pass : Type 0 where
  pub kept : List ScheduledSend
  pub gone : List Gone
  pub calls : ℕ

-- `ret` counts the errors that were not caught, as a negative number.
abbrev pub errors : List Gone → ℕ
errors [] = 0
errors (g ∷ gs) = elim g.answer [ failed ↦ suc (errors gs) | _ ↦ errors gs ]

abbrev pub is_due : ScheduledSend → List ℕ → Bool
is_due elt writefds = is_now elt.state || is_waiting elt.state && is_set elt.sockfd writefds

abbrev pub keep : ScheduledSend → Pass → Pass
keep elt p = record p { kept = elt ∷ p.kept }

abbrev pub drop_elt : ScheduledSend → SendResult → Pass → Pass
drop_elt elt r p = record p { gone = record { elt = elt; answer = r } ∷ p.gone }

abbrev pub is_eagain : SendResult → Bool
is_eagain eagain = true
is_eagain _ = false

-- What try_sendto does with an element on the answer to its call: it stays, with this state, or it is
-- taken off the list and freed.
unfoldable pub after_call : SendResult → ScheduledSend → Option ScheduledSend
after_call eintr elt = some (record elt { state = esendnow })
after_call eagain elt = some (record elt { state = ewaitready })
after_call failed elt = none
after_call (sent n) elt = none

-- The pass with an element that a call was made for, and the answer to the call.
abbrev pub after_try : ScheduledSend → SendResult → Option ScheduledSend → Pass → Pass
after_try elt r none p = drop_elt elt r p
after_try elt r (some elt') p = keep elt' p

-- `send k` is the answer to the call of number `k`.
module _ (send : ℕ → SendResult) where
  unfoldable pub try_sendto : List ScheduledSend → List ℕ → ℕ → Pass
  try_sendto [] writefds k = record { kept = []; gone = []; calls = k }
  try_sendto (elt ∷ list) writefds k =
      let rest = try_sendto list writefds (k + 1) in
      let untouched = keep elt (try_sendto list writefds k) in
      if is_due elt writefds
      then after_try elt (send k) (after_call (send k) elt) rest
      else untouched

  -- One round of finalize_sendto over the list; with the descriptors that are not ready.
  unfoldable pub finalize_round : List ScheduledSend → WriteFds → ℕ → Pass × WriteFds
  finalize_round [] fds k = (record { kept = []; gone = []; calls = k }, fds)
  finalize_round (elt ∷ list) fds k =
      let again = finalize_round list (add_fd fds elt.sockfd) (k + 1) in
      let rest = finalize_round list fds (k + 1) in
      if is_eagain (send k)
      then (keep elt again.0, again.1)
      else (drop_elt elt (send k) rest.0, rest.1)

pub data FinalizeEnd : Type 0 where
  emptied deadline_passed clock_failed select_failed out_of_rounds : FinalizeEnd

-- FINALIZE_SENDTO_DELAY milliseconds from `tv`.
unfoldable pub finalize_deadline : Timeval → Timeval
finalize_deadline tv =
    let usec = tv.tv_usec + 500 * 1000 in
    if ltb 1000000 usec
    then record { tv_sec = tv.tv_sec + 1; tv_usec = usec - 1000000 }
    else record { tv_sec = tv.tv_sec; tv_usec = usec }

-- The time that `select` may wait, where the deadline is not before `now`.
unfoldable pub select_timeout : Timeval → Timeval → Timeval
select_timeout deadline now =
    if ltb deadline.tv_usec now.tv_usec
    then record {
      tv_sec = deadline.tv_sec - now.tv_sec - 1;
      tv_usec = deadline.tv_usec + 1000000 - now.tv_usec;
    }
    else record { tv_sec = deadline.tv_sec - now.tv_sec; tv_usec = deadline.tv_usec - now.tv_usec }

-- `clock r` is the clock in round `r`, and `select r t` says whether the wait of at most `t` in that
-- round succeeds.
module _ (send : ℕ → SendResult) (clock : ℕ → Option Timeval) (select : ℕ → Timeval → Bool) where
  unfoldable pub finalize_loop :
      ℕ → List ScheduledSend → ℕ → ℕ → Timeval → List ScheduledSend × FinalizeEnd
  finalize_loop rounds [] r k deadline = ([], emptied)
  finalize_loop zero (elt ∷ list) r k deadline = (elt ∷ list, out_of_rounds)
  finalize_loop (suc rounds) (elt ∷ list) r k deadline =
      let (p, fds) =
        finalize_round send (elt ∷ list) (record { writefds = []; max_fd_suc = 0 }) k in
      elim (clock r) [
        | none ↦ (p.kept, clock_failed)
        | some now ↦
            let again = finalize_loop rounds p.kept (r + 1) p.calls deadline in
            let waited = select r (select_timeout deadline now) in
            if before deadline now
            then ([], deadline_passed)
            else if not (fds.max_fd_suc == 0) && not waited
            then (p.kept, select_failed)
            else again
      ]

  -- From its first reading of the clock, `start`.
  unfoldable pub finalize_sendto :
      ℕ → Option Timeval → List ScheduledSend → List ScheduledSend × FinalizeEnd
  finalize_sendto rounds none send_list = (send_list, clock_failed)
  finalize_sendto rounds (some start) send_list =
      finalize_loop rounds send_list 0 0 (finalize_deadline start)
