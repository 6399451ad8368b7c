-- ===== src/Events/Fds/Processed.antt =====
-- miniupnpd/upnpevents.c: upnpevents_processfds as a whole.
use miniupnpd_sdn.Base.{ℕ, ◌≡◌, refl, Bool, ◌&&◌, List, [], ◌∷◌, Option, none, some, if◌then◌else◌}
use miniupnpd_sdn.Base.Ends.{Ends, Ends-bind, Ends-at, Ends-if}
use miniupnpd_sdn.Events.Cells.{
  find, addresses, Below, Below-modify, target_of, target_of-modify, Each, Each-modify,
}
use miniupnpd_sdn.Events.Present.{Present, Present-modify, addresses-Present}
use miniupnpd_sdn.Events.Notify.{Notify, Answers, Subscriber, upnp_event_process_notify}
use miniupnpd_sdn.Events.Notify.Total.{upnp_event_process_notify_total}
use miniupnpd_sdn.Events.Lists.{
  Entry, Obj, Events, load_sub, store_seq, set_seq, write_notification, set_notification,
}
use miniupnpd_sdn.Events.Lists.Linked.{Mutual-same, sub_target, obj_target, IsReadable, Linked}
use miniupnpd_sdn.Events.Lists.Safe.{notify_of}
use miniupnpd_sdn.Events.Fds.{
  with_sub, store_result, process_one, process_loop, free_loop, upnpevents_processfds,
}
use miniupnpd_sdn.Events.Fds.Safe.{Keeps, CanRead, load_sub_safe, write_notification-Linked}
use miniupnpd_sdn.Events.Fds.Freed.{free_all_safe, timeout_all_safe}

store_seq-target_of :
    (a : Option ℕ) (sub : Option Subscriber) (l : List (ℕ × Entry)) (x : ℕ)
    → target_of notify_of (store_seq a sub l) x ≡ target_of notify_of l x
store_seq-target_of (some a) (some sub) l x =
    target_of-modify notify_of a (set_seq sub) l x (λ e. refl)
store_seq-target_of (some a) none l x = refl
store_seq-target_of none sub l x = refl

store_seq-Below :
    (a : Option ℕ) (sub : Option Subscriber) (k : ℕ) (l : List (ℕ × Entry))
    → Below k l
    → Below k (store_seq a sub l)
store_seq-Below (some a) (some sub) k l h = Below-modify k a (set_seq sub) l h
store_seq-Below (some a) none k l h = h
store_seq-Below none sub k l h = h

store_seq-Each :
    (a : Option ℕ) (sub : Option Subscriber) (l : List (ℕ × Entry))
    → Each IsReadable l
    → Each IsReadable (store_seq a sub l)
store_seq-Each (some a) (some sub) l h = Each-modify IsReadable a (set_seq sub) l (λ v r. r) h
store_seq-Each (some a) none l h = h
store_seq-Each none sub l h = h

store_result-Linked :
    (n : ℕ) (a : Option ℕ) (r : Notify) (s : Events) → Linked s → Linked (store_result n a r s)
store_result-Linked n a r s h =
    let w = write_notification-Linked n r s h in
    record {
      pointers =
          Mutual-same (sub_target s) (obj_target (write_notification n r s))
            (sub_target (store_result n a r s)) (obj_target (store_result n a r s)) w.pointers
            (λ x. store_seq-target_of a r.sub s.subscriberlist x) (λ y. refl);
      subs_below = store_seq-Below a r.sub s.next s.subscriberlist h.subs_below;
      objs_below = w.objs_below;
      readable = store_seq-Each a r.sub s.subscriberlist h.readable;
    }

process_one_safe :
    (answers : Answers) (n : ℕ) (o : Obj) (more : List ℕ) (s : Events)
    → Linked s
    → find s.notifylist n ≡ some o
    → Present more s.notifylist
    → Ends (Keeps more) (process_one answers n o s)
process_one_safe answers n o more s h there p =
    Ends-bind (Keeps more) CanRead _ (load_sub s o.sub) (load_sub_safe n o s h there) (λ sub c.
      let t = upnp_event_process_notify_total answers (with_sub o.notification sub) in
      Ends-at (Keeps more) _ (upnp_event_process_notify answers (with_sub o.notification sub)) t.0
        t.1
        (
          store_result-Linked n o.sub t.0.1 s h,
          Present-modify more n (set_notification t.0.1) s.notifylist p,
        ))

process_loop_safe :
    (is_set : ℕ → Bool) (answers : ℕ → Answers) (more : List ℕ) (s : Events)
    → Linked s
    → Present more s.notifylist
    → Ends Linked (process_loop is_set answers more s)
unfolding process_loop
process_loop_safe is_set answers [] s h p = h
process_loop_safe is_set answers (n ∷ more) s h p =
    let o = p.0.0 in
    Ends-at Linked _ (find s.notifylist n) o p.0.1 (
      Ends-bind Linked (Keeps more) (process_loop is_set answers more)
        (if o.notification.is_open && is_set n then process_one (answers n) n o s else some s)
        (Ends-if (Keeps more) (process_one (answers n) n o s) (some s)
          (o.notification.is_open && is_set n)
          (λ x. process_one_safe (answers n) n o more s h p.0.1 p.1) (λ x. (h, p.1)))
        (λ s' k. process_loop_safe is_set answers more s' k.0 k.1))

pub process_all_safe :
    (is_set : ℕ → Bool) (answers : ℕ → Answers) (s : Events)
    → Linked s
    → Ends Linked (process_loop is_set answers (addresses s.notifylist) s)
process_all_safe is_set answers s h =
    process_loop_safe is_set answers (addresses s.notifylist) s h (addresses-Present s.notifylist)

pub upnpevents_processfds_safe :
    (is_set : ℕ → Bool) (answers : ℕ → Answers) (curtime : ℕ) (s : Events)
    → Linked s
    → Ends Linked (upnpevents_processfds is_set answers curtime s)
unfolding upnpevents_processfds
upnpevents_processfds_safe is_set answers curtime s h =
    Ends-bind Linked Linked _ (process_loop is_set answers (addresses s.notifylist) s)
      (process_all_safe is_set answers s h)
      (λ s1 h1.
        Ends-bind Linked Linked _ (free_loop (addresses s1.notifylist) s1) (free_all_safe s1 h1)
          (λ s2 h2. timeout_all_safe curtime s2 h2))
