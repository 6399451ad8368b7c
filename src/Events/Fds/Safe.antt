-- ===== src/Events/Fds/Safe.antt =====
-- miniupnpd/upnpevents.c: the notifications are connected and processed through valid pointers.
use miniupnpd_sdn.Base.{ℕ, ◌≡◌, refl, ap, ◌∙◌, List, [], ◌∷◌, Option, none, some, if◌then◌else◌}
use miniupnpd_sdn.Base.Ends.{Ends, Ends-bind, Ends-at, Ends-if}
use miniupnpd_sdn.Events.Cells.{
  find, addresses, Below-modify, linked, target_of-modify, target_of-some, Each-find,
}
use miniupnpd_sdn.Events.Present.{Present, Present-modify, addresses-Present}
use miniupnpd_sdn.Events.Callback.{Target, read_callback}
use miniupnpd_sdn.Events.Notify.{
  NotifyState, created, connecting, sending, waiting_for_response, finished, error, Subscriber,
  Notify, Connected, upnp_event_notify_connect,
}
use miniupnpd_sdn.Events.Lists.{Obj, Events, load_sub, set_notification, write_notification}
use miniupnpd_sdn.Events.Lists.Linked.{Mutual-same, sub_target, obj_target, IsReadable, Linked}
use miniupnpd_sdn.Events.Lists.Safe.{notify_of, sub_of}
use miniupnpd_sdn.Events.Fds.{Sets, with_sub, connect_new, select_loop, upnpevents_selectfds}

-- A subscriber that is read through a notification, if there is one.
abbrev pub CanRead : Option Subscriber → Type 0
CanRead none = Unit {0}
CanRead (some sub) = (t : Target) × (read_callback sub.callback ≡ some t)

pub load_sub_safe :
    (n : ℕ) (o : Obj) (s : Events)
    → Linked s
    → find s.notifylist n ≡ some o
    → Ends CanRead (load_sub s o.sub)
load_sub_safe n o s h there = by_sub o.sub refl
  where
    by_sub : (a : Option ℕ) → o.sub ≡ a → Ends CanRead (load_sub s a)
    by_sub none x = tt
    by_sub (some a) x =
        let t : obj_target s n ≡ some a = ap (λ p. linked sub_of p) there ∙ x in
        let e = target_of-some notify_of s.subscriberlist a n (h.pointers.forth n a t) in
        Ends-at CanRead _ (find s.subscriberlist a) e.0 e.1
          (Each-find IsReadable a s.subscriberlist e.0 h.readable e.1)

notify_connect_safe :
    (o : Notify) (c : Connected) (sub : Option Subscriber)
    → CanRead sub
    → Ends (λ (r : Notify). Unit {0}) (upnp_event_notify_connect (with_sub o sub) c)
unfolding upnp_event_notify_connect
notify_connect_safe o c none r = tt
notify_connect_safe o c (some sub) r =
    Ends-at (λ (r : Notify). Unit {0}) _ (read_callback sub.callback) r.0 r.1 tt

pub write_notification-Linked :
    (n : ℕ) (r : Notify) (s : Events) → Linked s → Linked (write_notification n r s)
write_notification-Linked n r s h = record {
  pointers =
      Mutual-same (sub_target s) (obj_target s) (sub_target s)
        (obj_target (write_notification n r s)) h.pointers (λ x. refl)
        (λ y. target_of-modify sub_of n (set_notification r) s.notifylist y (λ o. refl));
  subs_below = h.subs_below;
  objs_below = Below-modify s.next n (set_notification r) s.notifylist h.objs_below;
  readable = h.readable;
}

-- The notifications that are there stay there.
abbrev pub Keeps : List ℕ → Events → Type 0
Keeps more s = Linked s × Present more s.notifylist

abbrev pub KeepsWith : List ℕ → Sets × Events → Type 0
KeepsWith more r = Keeps more r.1

connect_new_safe :
    (connect : ℕ → Connected) (n : ℕ) (o : Obj) (more : List ℕ) (sets : Sets) (s : Events)
    (state : NotifyState)
    → Linked s
    → find s.notifylist n ≡ some o
    → Present more s.notifylist
    → Ends (KeepsWith more) (connect_new connect n o sets s state)
connect_new_safe connect n o more sets s created h there p =
    Ends-bind (KeepsWith more) CanRead _ (load_sub s o.sub) (load_sub_safe n o s h there) (λ sub c.
      Ends-bind (KeepsWith more) (λ (r : Notify). Unit {0}) _
        (upnp_event_notify_connect (with_sub o.notification sub) (connect n))
        (notify_connect_safe o.notification (connect n) sub c)
        (λ r u. (
          write_notification-Linked n r s h,
          Present-modify more n (set_notification r) s.notifylist p,
        )))
connect_new_safe connect n o more sets s connecting h there p = (h, p)
connect_new_safe connect n o more sets s sending h there p = (h, p)
connect_new_safe connect n o more sets s waiting_for_response h there p = (h, p)
connect_new_safe connect n o more sets s finished h there p = (h, p)
connect_new_safe connect n o more sets s error h there p = (h, p)

abbrev LinkedWith : Sets × Events → Type 0
LinkedWith r = Linked r.1

select_loop_safe :
    (connect : ℕ → Connected) (more : List ℕ) (sets : Sets) (s : Events)
    → Linked s
    → Present more s.notifylist
    → Ends LinkedWith (select_loop connect more sets s)
unfolding select_loop
select_loop_safe connect [] sets s h p = h
select_loop_safe connect (n ∷ more) sets s h p =
    let o = p.0.0 in
    Ends-at LinkedWith _ (find s.notifylist n) o p.0.1 (
      Ends-bind LinkedWith (KeepsWith more) (λ r. select_loop connect more r.0 r.1)
        (if o.notification.is_open
          then connect_new connect n o sets s o.notification.state
          else some (sets, s))
        (Ends-if (KeepsWith more) (connect_new connect n o sets s o.notification.state)
          (some (sets, s)) o.notification.is_open
          (λ x. connect_new_safe connect n o more sets s o.notification.state h p.0.1 p.1)
          (λ x. (h, p.1)))
        (λ r k. select_loop_safe connect more r.0 r.1 k.0 k.1))

pub upnpevents_selectfds_safe :
    (connect : ℕ → Connected) (sets : Sets) (s : Events)
    → Linked s
    → Ends (λ (r : Sets × Events). Linked r.1) (upnpevents_selectfds connect sets s)
unfolding upnpevents_selectfds
upnpevents_selectfds_safe connect sets s h =
    select_loop_safe connect (addresses s.notifylist) sets s h (addresses-Present s.notifylist)
