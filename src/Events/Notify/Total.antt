-- ===== src/Events/Notify/Total.antt =====
-- miniupnpd/upnpevents.c: each call of upnp_event_process_notify returns.
use miniupnpd_sdn.Base.{
  ℕ, zero, suc, ◌+◌, ◌≡◌, refl, ap, inl, inr, Bool, true, Option, none, some, Bytes, ltb, length,
  Bool-cases, arith,
}
use miniupnpd_sdn.Base.Options.{◌>>=◌}
use miniupnpd_sdn.Events.Notify.{
  NotifyState, created, connecting, sending, waiting_for_response, finished, error, Subscriber,
  Notify, Answers, notify_message, make_buffer, prepare_for, upnp_event_prepare, send_prepared,
  after_connect, process_in, upnp_event_process_notify,
}

-- The second buffer is large enough.
make_buffer_total :
    (k : ℕ) (malloc : ℕ → Bool) (size : ℕ) (text : Bytes) (o : Notify)
    → (o' : Notify) × (make_buffer 2 k malloc size text o ≡ some o')
unfolding make_buffer
make_buffer_total k malloc size text o =
    let large : ltb (length text) (length text + 1) ≡ true = ground arith in
    elim (Bool-cases (malloc k)) [
      | inr m ↦ rw m (_, refl)
      | inl m ↦ elim (Bool-cases (ltb (length text) size)) [
        | inl t ↦ rw (m, t) (_, refl)
        | inr t ↦ elim (Bool-cases (malloc (suc k))) [
          | inr n ↦ rw (m, t, n) (_, refl)
          | inl n ↦ rw (m, t, n, large) (_, refl)
        ]
      ]
    ]

prepare_for_total :
    (a : Answers) (o : Notify) (sub : Option Subscriber)
    → (o' : Notify) × (prepare_for a o sub ≡ some o')
prepare_for_total a o none = (_, refl)
prepare_for_total a o (some sub) =
    make_buffer_total 0 a.malloc 1024 (notify_message o.target sub (a.vars sub.service)) o

after_connect_total :
    (a : Answers) (o : Notify) (e : Option ℕ)
    → (r : Bytes × Notify) × (after_connect a o e ≡ some r)
unfolding upnp_event_prepare
after_connect_total a o none = (_, refl)
after_connect_total a o (some (suc e)) = (_, refl)
after_connect_total a o (some zero) =
    let p = prepare_for_total a o o.sub in
    (send_prepared a p.0 p.0.state, ap (λ m. m >>= λ o'. some (send_prepared a o' o'.state)) p.1)

process_in_total :
    (a : Answers) (o : Notify) (st : NotifyState)
    → (r : Bytes × Notify) × (process_in a o st ≡ some r)
process_in_total a o connecting = after_connect_total a o a.so_error
process_in_total a o sending = (_, refl)
process_in_total a o waiting_for_response = (_, refl)
process_in_total a o finished = (_, refl)
process_in_total a o created = (_, refl)
process_in_total a o error = (_, refl)

-- upnp_event_process_notify returns from any state, whatever the system answers: the loop of
-- upnp_event_prepare makes two buffers at most.
pub upnp_event_process_notify_total :
    (a : Answers) (o : Notify) → (r : Bytes × Notify) × (upnp_event_process_notify a o ≡ some r)
unfolding upnp_event_process_notify
upnp_event_process_notify_total a o = process_in_total a o o.state
