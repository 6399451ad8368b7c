-- ===== src/AsyncSend/Tests.antt =====
-- Runs of the scheduler, and its theorems at concrete packets.
use mathlib.Core.List.{Perm}
use miniupnpd_sdn.Base.{
  ℕ, ◌+◌, ◌≡◌, ◌==◌, refl, true, List, [], ◌∷◌, ◌++◌, none, some, if◌then◌else◌, arith, codes,
}
use miniupnpd_sdn.AsyncSend.{
  escheduled, ewaitready, Timeval, ScheduledSend, SendResult, sent, eagain, WriteFds, try_sendto,
  after_call, get_sendto_fds, get_next_scheduled_send, time_after, finalize_deadline,
  finalize_sendto,
}
use miniupnpd_sdn.AsyncSend.Clock.{NoneBefore, get_next_scheduled_send_earliest}
use miniupnpd_sdn.AsyncSend.Rounds.{
  packets, gone_packets, try_sendto-perm, early, try_sendto-early, AllFinal, Finalized,
  finalize_sendto-Finalized,
}

abbrev at_time : ℕ → ℕ → Timeval
at_time s u = record { tv_sec = s; tv_usec = u }

abbrev waiting : ScheduledSend
waiting = record {
  ts = at_time 10 500000;
  state = escheduled;
  sockfd = 4;
  buf = codes "hello";
  flags = 0;
  dest_addr = codes "a";
  src_addr = none;
}

abbrev blocked : ScheduledSend
blocked = record waiting { ts = at_time 9 0; state = ewaitready; sockfd = 7 }

abbrev two : List ScheduledSend
two = waiting ∷ blocked ∷ []

abbrev no_fds : WriteFds
no_fds = record { writefds = []; max_fd_suc = 0 }

-- The first call is told to wait, all others send five bytes.
abbrev busy : ℕ → SendResult
busy k = if k == 0 then eagain else sent 5

-- A million microseconds are not carried over to the seconds.
time_after_million : time_after (at_time 3 500_000) 500 ≡ at_time 3 1000000
unfolding time_after
time_after_million = refl

get_next_scheduled_send_earliest_example :
    NoneBefore (get_next_scheduled_send two (at_time 0 0)).1 two
get_next_scheduled_send_earliest_example =
    (get_next_scheduled_send_earliest waiting (blocked ∷ []) (at_time 0 0)
      (omega arith, (omega arith, tt))).1

try_sendto-perm_example :
    Perm (packets two) (
      packets (try_sendto busy two (7 ∷ []) 1).kept
      ++ gone_packets (try_sendto busy two (7 ∷ []) 1).gone)
    × AllFinal busy (try_sendto busy two (7 ∷ []) 1).gone
try_sendto-perm_example = try_sendto-perm busy two (7 ∷ []) 1

try_sendto-early_example :
    early
      (at_time 10 0)
      (try_sendto busy (get_sendto_fds two no_fds (at_time 10 0)).list (7 ∷ []) 1).kept
    ≡ early (at_time 10 0) two
try_sendto-early_example = try_sendto-early busy (at_time 10 0) two no_fds (7 ∷ []) 1

try_sendto_runs :
    ((try_sendto busy two (7 ∷ []) 1).kept ≡ waiting ∷ [])
    × ((try_sendto busy two (7 ∷ []) 0).kept ≡ two)
unfolding try_sendto after_call
try_sendto_runs = (refl, refl)

finalize_sendto-Finalized_example : Finalized (
    finalize_sendto
      (λ k. eagain)
      (λ r. some (at_time (10 + r) 0))
      (λ r t. true)
      2
      (some (at_time 9 999_999))
      two)
unfolding finalize_deadline
finalize_sendto-Finalized_example =
    finalize_sendto-Finalized (λ k. eagain) (λ r. some (at_time (10 + r) 0)) (λ r t. true) 1
      (λ i. (at_time (10 + i) 0, refl)) (at_time 9 999_999) two (λ t e. ground arith)
