-- ===== src/Events/Outcome.antt =====
-- miniupnpd/upnpevents.c: what is left in the lists after upnp_event_var_change_notify and
-- upnpevents_processfds.
use miniupnpd_sdn.Base.{
  ℕ, ltb, ◌==◌, ◌⊎◌, ◌≢◌, ◌≤◌, arith, ◌≡◌, refl, ap, ◌∙◌, sym, inl, inr, Bool, true, false, ◌&&◌,
  List, [], ◌∷◌, Option, none, some, if◌then◌else◌, Bool-cases,
}
use miniupnpd_sdn.Base.Ends.{
  Ends, Ends-bind, Ends-more, Ends-Meets, Meets, Meets-bind, Meets-found, if_ends,
}
use miniupnpd_sdn.Events.Cells.{
  find, delete, addresses, Below, Below-modify, Below-delete, Each, some_is,
}
use miniupnpd_sdn.Events.Pending.{
  Pending, addresses-Pending, Pending-Each, Pending-delete, Pending-modify, Pending-has,
}
use miniupnpd_sdn.Events.Notify.{
  Service, wan_cfg, wan_ipc, Answers, NotifyState, created, connecting, sending,
  waiting_for_response, finished, error,
}
use miniupnpd_sdn.Events.Lists.{
  Entry, Obj, Events, System, set_notify, same_service, is_idle, upnp_event_create_notify,
  change_notify_loop, upnp_event_var_change_notify,
}
use miniupnpd_sdn.Events.Lists.Linked.{Linked}
use miniupnpd_sdn.Events.Lists.Safe.{upnp_event_var_change_notify_safe}
use miniupnpd_sdn.Events.Fds.{
  is_error, is_over, release_sub, free_one, free_loop, is_late, timeout_loop, process_loop,
  upnpevents_processfds,
}
use miniupnpd_sdn.Events.Fds.Freed.{free_all_safe, timeout_all_safe}
use miniupnpd_sdn.Events.Fds.Processed.{process_all_safe}

-- Neither finished nor failed.
abbrev pub Runs : NotifyState → Type 0
Runs created = Unit {0}
Runs connecting = Unit {0}
Runs sending = Unit {0}
Runs waiting_for_response = Unit {0}
Runs finished = ⊥
Runs error = ⊥

abbrev pub IsRunning : Obj → Type 0
IsRunning o = Runs o.notification.state

abbrev pub HasNotification : Entry → Type 0
HasNotification e = (n : ℕ) × (e.notify ≡ some n)

-- There is no timeout, or it has not passed, or a notification is on its way.
abbrev pub IsTimely : ℕ → Entry → Type 0
IsTimely curtime e = (e.timeout ≡ 0) ⊎ ((curtime ≤ e.timeout) ⊎ HasNotification e)

-- The service is not the subscriber's, or there is a notification for the subscriber.
abbrev pub IsServed : Service → Entry → Type 0
IsServed service e = (e.subscriber.service ≢ service) ⊎ HasNotification e

is_over-Runs : (st : NotifyState) → is_over st ≡ false → Runs st
is_over-Runs created h = tt
is_over-Runs connecting h = tt
is_over-Runs sending h = tt
is_over-Runs waiting_for_response h = tt
is_over-Runs finished h = absurd (ground arith)
is_over-Runs error h = absurd (ground arith)

busy : (o : Option ℕ) → is_idle o ≡ false → (n : ℕ) × (o ≡ some n)
busy none h = absurd (ground arith)
busy (some n) h = (n, refl)

is_late-IsTimely : (curtime : ℕ) (e : Entry) → is_late curtime e ≡ false → IsTimely curtime e
is_late-IsTimely curtime e h = elim (Bool-cases (e.timeout == 0)) [
  | inl x ↦ inl (ground arith)
  | inr x ↦ elim (Bool-cases (ltb e.timeout curtime)) [
    | inl y ↦ let idle : is_idle e.notify ≡ false = rw (x, y) at h in inr (inr (busy e.notify idle))
    | inr y ↦ inr (inl (ground arith))
  ]
]

differs : (a b : Service) → same_service a b ≡ false → a ≢ b
differs wan_cfg wan_cfg h = absurd (ground arith)
differs wan_ipc wan_ipc h = absurd (ground arith)
differs wan_cfg wan_ipc h = λ e. ground arith
differs wan_ipc wan_cfg h = λ e. ground arith

same_service-IsServed :
    (service : Service) (e : Entry)
    → (same_service e.subscriber.service service && is_idle e.notify) ≡ false
    → IsServed service e
same_service-IsServed service e h = elim (Bool-cases (same_service e.subscriber.service service)) [
  | inl x ↦ inr (busy e.notify (rw x at h))
  | inr x ↦ inl (differs e.subscriber.service service x)
]

release_sub_same :
    (failed : Bool) (a : Option ℕ) (s : Events)
    → Meets (λ (s' : Events). s'.notifylist ≡ s.notifylist) (release_sub failed a s)
release_sub_same failed none s = refl
release_sub_same failed (some a) s =
    Meets-found (λ (s' : Events). s'.notifylist ≡ s.notifylist) _ (find s.subscriberlist a)
      (λ e x. refl)

-- What free_loop keeps.
abbrev Freeing : ℕ → List ℕ → Events → Type 0
Freeing k more s = Below k s.notifylist × Pending IsRunning more s.notifylist

free_one_pending :
    (k n : ℕ) (o : Obj) (more : List ℕ) (s : Events)
    → Freeing k (n ∷ more) s
    → Meets (Freeing k more) (free_one n o s)
free_one_pending k n o more s h =
    Meets-bind (Freeing k more) (λ (s' : Events). s'.notifylist ≡ s.notifylist) _
      (release_sub (is_error o.notification.state) o.sub s)
      (release_sub_same (is_error o.notification.state) o.sub s)
      (λ s' same. (
        rw same (Below-delete k n s.notifylist h.0),
        rw same (Pending-delete IsRunning n more s.notifylist h.1),
      ))

free_loop-IsRunning :
    (k : ℕ) (more : List ℕ) (s : Events)
    → Freeing k more s
    → Meets (λ (s' : Events). Each IsRunning s'.notifylist) (free_loop more s)
unfolding free_loop
free_loop-IsRunning k [] s h = Pending-Each IsRunning s.notifylist h.1
free_loop-IsRunning k (n ∷ more) s h =
    Meets-found (λ (s' : Events). Each IsRunning s'.notifylist) _ (find s.notifylist n)
      (λ o there.
        Meets-bind (λ (s' : Events). Each IsRunning s'.notifylist) (Freeing k more) (free_loop more)
          (if is_over o.notification.state then free_one n o s else some s)
          (if_ends (Meets (Freeing k more)) (free_one n o s) (some s) (is_over o.notification.state)
            (λ x. free_one_pending k n o more s h)
            (λ x. (
              h.0,
              Pending-has IsRunning k n more s.notifylist h.0
                  (λ v e. is_over-Runs v.notification.state (
                    ap (λ (p : Obj). is_over p.notification.state) (some_is v o (sym e ∙ there))
                    ∙ x))
                  h.1,
            )))
          (λ s' c. free_loop-IsRunning k more s' c))

-- What timeout_loop leaves.
abbrev Timed : ℕ → Events → Events → Type 0
Timed curtime s s' = (s'.notifylist ≡ s.notifylist) × Each (IsTimely curtime) s'.subscriberlist

timeout_loop_timely :
    (curtime k : ℕ) (more : List ℕ) (s : Events)
    → Below k s.subscriberlist
    → Pending (IsTimely curtime) more s.subscriberlist
    → Meets (Timed curtime s) (timeout_loop curtime more s)
unfolding timeout_loop
timeout_loop_timely curtime k [] s b h = (refl, Pending-Each (IsTimely curtime) s.subscriberlist h)
timeout_loop_timely curtime k (a ∷ more) s b h =
    let s' : Events = record s { subscriberlist = delete a s.subscriberlist } in
    Meets-found (Timed curtime s) _ (find s.subscriberlist a) (λ e there.
      if_ends (λ r. Meets (Timed curtime s) (timeout_loop curtime more r)) s' s (is_late curtime e)
        (λ x.
          timeout_loop_timely curtime k more s' (Below-delete k a s.subscriberlist b)
            (Pending-delete (IsTimely curtime) a more s.subscriberlist h))
        (λ x. timeout_loop_timely curtime k more s b (
          Pending-has (IsTimely curtime) k a more s.subscriberlist b
            (λ v f.
              is_late-IsTimely curtime v (ap (is_late curtime) (some_is v e (sym f ∙ there)) ∙ x))
            h)))

-- upnpevents_processfds returns from lists whose pointers point back at each other, whatever sockets
-- are set and whatever the system answers: no notification that is left is in the state EFinished or
-- EError, and no subscriber that is left is past its timeout without a notification.
pub upnpevents_processfds-IsTimely :
    (is_set : ℕ → Bool) (answers : ℕ → Answers) (curtime : ℕ) (s : Events)
    → Linked s
    → Ends
        (λ (s' : Events). Each IsRunning s'.notifylist × Each (IsTimely curtime) s'.subscriberlist)
        (upnpevents_processfds is_set answers curtime s)
unfolding upnpevents_processfds
upnpevents_processfds-IsTimely is_set answers curtime s h =
    let Q : Events → Type 0 =
      λ s'. Each IsRunning s'.notifylist × Each (IsTimely curtime) s'.subscriberlist in
    let R : Events → Type 0 = λ s'. Each IsRunning s'.notifylist in
    Ends-bind Q Linked _ (process_loop is_set answers (addresses s.notifylist) s)
      (process_all_safe is_set answers s h)
      (λ s1 h1.
        Ends-bind Q (λ s2. Linked s2 × R s2) _ (free_loop (addresses s1.notifylist) s1)
          (Ends-Meets Linked R (free_loop (addresses s1.notifylist) s1) (free_all_safe s1 h1) (
            free_loop-IsRunning s1.next (addresses s1.notifylist) s1
              (h1.objs_below, addresses-Pending IsRunning s1.notifylist)))
          (λ s2 h2.
            let m = timeout_loop curtime (addresses s2.subscriberlist) s2 in
            Ends-more Q (λ s3. Linked s3 × Timed curtime s2 s3) m
              (Ends-Meets Linked (Timed curtime s2) m (timeout_all_safe curtime s2 h2.0) (
                timeout_loop_timely curtime s2.next (addresses s2.subscriberlist) s2 h2.0.subs_below
                  (addresses-Pending (IsTimely curtime) s2.subscriberlist)))
              (λ s3 c. (rw c.1.0 h2.1, c.1.1))))

abbrev Changing : ℕ → Service → List ℕ → Events → Type 0
Changing k service more s =
    Below k s.subscriberlist × Pending (IsServed service) more s.subscriberlist

served : (service : Service) (n : ℕ) (e : Entry) → IsServed service (set_notify (some n) e)
served service n e = inr (n, refl)

change_notify_loop-IsServed :
    (sys : System) (service : Service) (k : ℕ) (more : List ℕ) (s : Events)
    → ((n : ℕ) → (sys.calloc n && (sys.socket n && sys.set_non_blocking n)) ≡ true)
    → Changing k service more s
    → Meets
        (λ (s' : Events). Each (IsServed service) s'.subscriberlist)
        (change_notify_loop sys service more s)
unfolding change_notify_loop upnp_event_create_notify
change_notify_loop-IsServed sys service k [] s ok h =
    Pending-Each (IsServed service) s.subscriberlist h.1
change_notify_loop-IsServed sys service k (a ∷ more) s ok h =
    let Q : Events → Type 0 = λ s'. Each (IsServed service) s'.subscriberlist in
    Meets-found Q _ (find s.subscriberlist a) (λ e there.
      Meets-bind Q (Changing k service more) (change_notify_loop sys service more)
        (if same_service e.subscriber.service service && is_idle e.notify
          then upnp_event_create_notify sys a s
          else some s)
        (if_ends (Meets (Changing k service more)) (upnp_event_create_notify sys a s) (some s)
          (same_service e.subscriber.service service && is_idle e.notify)
          (λ x.
            rw (there, ok s.next)
              (
                Below-modify k a (set_notify (some s.next)) s.subscriberlist h.0,
                Pending-modify (IsServed service) a more (set_notify (some s.next)) s.subscriberlist
                    (served service s.next) h.1,
              ))
          (λ x. (
            h.0,
            Pending-has (IsServed service) k a more s.subscriberlist h.0
                (λ v f. same_service-IsServed service v (
                  ap (λ (p : Entry). same_service p.subscriber.service service && is_idle p.notify)
                    (some_is v e (sym f ∙ there))
                  ∙ x))
                h.1,
          )))
        (λ s' c. change_notify_loop-IsServed sys service k more s' ok c))

-- upnp_event_var_change_notify returns from lists whose pointers point back at each other, and each
-- subscriber of the service has a notification then, where the calls of calloc, socket and
-- set_non_blocking succeed.
pub upnp_event_var_change_notify-IsServed :
    (sys : System) (service : Service) (s : Events)
    → ((n : ℕ) → (sys.calloc n && (sys.socket n && sys.set_non_blocking n)) ≡ true)
    → Linked s
    → Ends
        (λ (s' : Events). Linked s' × Each (IsServed service) s'.subscriberlist)
        (upnp_event_var_change_notify sys service s)
unfolding upnp_event_var_change_notify
upnp_event_var_change_notify-IsServed sys service s ok h =
    Ends-Meets Linked (λ (s' : Events). Each (IsServed service) s'.subscriberlist)
      (upnp_event_var_change_notify sys service s)
      (upnp_event_var_change_notify_safe sys service s h)
      (change_notify_loop-IsServed sys service s.next (addresses s.subscriberlist) s ok
        (h.subs_below, addresses-Pending (IsServed service) s.subscriberlist))
