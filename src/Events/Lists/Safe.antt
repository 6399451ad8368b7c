-- ===== src/Events/Lists/Safe.antt =====
-- miniupnpd/upnpevents.c: no call on the lists goes through a pointer to freed memory.
use miniupnpd_sdn.Base.{
  ℕ, suc, ◌≡◌, refl, ap, ◌∙◌, true, ◌&&◌, List, [], ◌∷◌, Option, none, some, Bytes, ◌==◌,
  if◌then◌else◌, arith, &&-true,
}
use miniupnpd_sdn.Base.Ends.{Ends, Ends-bind, Ends-at, Ends-if, if_ends}
use miniupnpd_sdn.Events.Cells.{
  find, modify, addresses, Below-modify, Below-more, linked, target_of-modify, target_of-set,
  target_of-insert, Each-modify, find-Below,
}
use miniupnpd_sdn.Events.Callback.{Target, read_callback}
use miniupnpd_sdn.Events.Notify.{Service}
use miniupnpd_sdn.Events.Present.{Present, Present-modify, addresses-Present}
use miniupnpd_sdn.Events.Lists.{
  Entry, Obj, Events, System, new_obj, add_entry, new_subscriber, new_subscriber_for, service_of,
  set_timeout, renew, insert_notify, set_notify, insert_subscriber, end_time,
  upnpevents_add_subscriber, find_sid, upnpevents_renew_subscription, is_idle, change_notify_loop,
  upnp_event_var_change_notify, same_service, upnp_event_create_notify,
}
use miniupnpd_sdn.Events.Lists.Linked.{
  Mutual-same, Mutual-drop_idle, Mutual-add, sub_target, obj_target, IsReadable, Linked,
}

abbrev pub notify_of : Entry → Option ℕ
notify_of e = e.notify

abbrev pub sub_of : Obj → Option ℕ
sub_of o = o.sub

-- A notification is made for a subscriber that has none.
insert_notify-Linked :
    (a : ℕ) (e : Entry) (s : Events)
    → Linked s
    → find s.subscriberlist a ≡ some e
    → e.notify ≡ none
    → Linked (insert_notify a s)
insert_notify-Linked a e s h there idle =
    let fresh = find-Below s.next s.next s.notifylist h.objs_below (omega arith) in
    record {
      pointers =
          Mutual-add (sub_target s) (obj_target s) (sub_target (insert_notify a s))
            (obj_target (insert_notify a s)) a s.next h.pointers
            (ap (λ o. linked notify_of o) there ∙ idle) (ap (λ o. linked sub_of o) fresh)
            (λ x.
              target_of-set notify_of a s.next (set_notify (some s.next)) s.subscriberlist x e there
                (λ w. refl))
            (target_of-insert sub_of s.next (new_obj a) s.notifylist);
      subs_below =
          Below-more s.next (suc s.next) (modify a (set_notify (some s.next)) s.subscriberlist)
            (omega arith)
            (Below-modify s.next a (set_notify (some s.next)) s.subscriberlist h.subs_below);
      objs_below = (omega arith, h.objs_below);
      readable =
          Each-modify IsReadable a (set_notify (some s.next)) s.subscriberlist (λ v r. r)
            h.readable;
    }

pub is_idle-none : (o : Option ℕ) → is_idle o ≡ true → o ≡ none
is_idle-none none e = refl
is_idle-none (some n) e = ground arith

-- The subscribers that are there stay there.
abbrev Keeps : List ℕ → Events → Type 0
Keeps more s = Linked s × Present more s.subscriberlist

create_notify_safe :
    (sys : System) (a : ℕ) (e : Entry) (more : List ℕ) (s : Events)
    → Linked s
    → find s.subscriberlist a ≡ some e
    → e.notify ≡ none
    → Present more s.subscriberlist
    → Ends (Keeps more) (upnp_event_create_notify sys a s)
unfolding upnp_event_create_notify
create_notify_safe sys a e more s h there idle p = rw there (
    if_ends (Keeps more) (insert_notify a s) s
      (sys.calloc s.next && (sys.socket s.next && sys.set_non_blocking s.next))
      (λ x. (
        insert_notify-Linked a e s h there idle,
        Present-modify more a (set_notify (some s.next)) s.subscriberlist p,
      ))
      (λ x. (h, p)))

change_notify_loop_safe :
    (sys : System) (service : Service) (more : List ℕ) (s : Events)
    → Linked s
    → Present more s.subscriberlist
    → Ends Linked (change_notify_loop sys service more s)
unfolding change_notify_loop
change_notify_loop_safe sys service [] s h p = h
change_notify_loop_safe sys service (a ∷ more) s h p =
    let e = p.0.0 in
    Ends-at Linked _ (find s.subscriberlist a) e p.0.1 (
      Ends-bind Linked (Keeps more) (change_notify_loop sys service more)
        (if same_service e.subscriber.service service && is_idle e.notify
          then upnp_event_create_notify sys a s
          else some s)
        (Ends-if (Keeps more) (upnp_event_create_notify sys a s) (some s)
          (same_service e.subscriber.service service && is_idle e.notify)
          (λ x.
            create_notify_safe sys a e more s h p.0.1
              (is_idle-none e.notify
                (&&-true (same_service e.subscriber.service service) (is_idle e.notify) x).1)
              p.1)
          (λ x. (h, p.1)))
        (λ s' k. change_notify_loop_safe sys service more s' k.0 k.1))

pub upnp_event_var_change_notify_safe :
    (sys : System) (service : Service) (s : Events)
    → Linked s
    → Ends Linked (upnp_event_var_change_notify sys service s)
unfolding upnp_event_var_change_notify
upnp_event_var_change_notify_safe sys service s h =
    change_notify_loop_safe sys service (addresses s.subscriberlist) s h
      (addresses-Present s.subscriberlist)

insert_subscriber-Linked :
    (e : Entry) (s : Events)
    → Linked s
    → e.notify ≡ none
    → IsReadable e
    → Linked (insert_subscriber e s)
insert_subscriber-Linked e s h idle r =
    let fresh = find-Below s.next s.next s.subscriberlist h.subs_below (omega arith) in
    record {
      pointers =
          Mutual-drop_idle (sub_target s) (obj_target s) (sub_target (insert_subscriber e s)) s.next
            h.pointers (ap (λ o. linked notify_of o) fresh)
            (λ x.
              target_of-insert notify_of s.next e s.subscriberlist x
              ∙ ap (λ o. if s.next == x then o else sub_target s x) idle);
      subs_below = (omega arith, h.subs_below);
      objs_below = Below-more s.next (suc s.next) s.notifylist (omega arith) h.objs_below;
      readable = (r, h.readable);
    }

-- What new_subscriber returns.
abbrev IsFresh : Option Entry → Type 0
IsFresh none = Unit {0}
IsFresh (some e) = (e.notify ≡ none) × IsReadable e

add_entry_safe :
    (sys : System) (now timeout : ℕ) (s : Events) (o : Option Entry)
    → Linked s
    → IsFresh o
    → Ends (λ r. Linked r.1) (add_entry sys now timeout s o)
add_entry_safe sys now timeout s none h f = h
add_entry_safe sys now timeout s (some e) h f =
    let e' : Entry = record e { timeout = end_time now timeout } in
    let same : (s.next == s.next) ≡ true = ground arith in
    Ends-bind (λ r. Linked r.1) (Keeps []) _
      (upnp_event_create_notify sys s.next (insert_subscriber e' s))
      (create_notify_safe sys s.next e' [] (insert_subscriber e' s)
        (insert_subscriber-Linked e' s h f.0 f.1) (rw same refl) f.0 tt)
      (λ s' k. k.0)

new_subscriber-IsFresh :
    (sys : System) (next : ℕ) (eventurl callback uuid : Bytes)
    → ((t : Target) × (read_callback callback ≡ some t))
    → IsFresh (new_subscriber sys next eventurl callback uuid)
unfolding new_subscriber
new_subscriber-IsFresh sys next eventurl [] uuid r = tt
new_subscriber-IsFresh sys next eventurl (c ∷ callback) uuid r =
    if_ends IsFresh (new_subscriber_for (c ∷ callback) uuid (service_of eventurl)) none
      (sys.calloc next) (λ x. of_service (service_of eventurl)) (λ x. tt)
  where
    of_service : (o : Option Service) → IsFresh (new_subscriber_for (c ∷ callback) uuid o)
    of_service none = tt
    of_service (some service) = (refl, r)

pub upnpevents_add_subscriber_safe :
    (sys : System) (now : ℕ) (eventurl callback uuid : Bytes) (timeout : ℕ) (s : Events)
    → ((t : Target) × (read_callback callback ≡ some t))
    → Linked s
    → Ends (λ r. Linked r.1) (upnpevents_add_subscriber sys now eventurl callback uuid timeout s)
unfolding upnpevents_add_subscriber
upnpevents_add_subscriber_safe sys now eventurl callback uuid timeout s r h =
    add_entry_safe sys now timeout s (new_subscriber sys s.next eventurl callback uuid) h
      (new_subscriber-IsFresh sys s.next eventurl callback uuid r)

renew-Linked :
    (now timeout : ℕ) (sid : Bytes) (s : Events) (o : Option ℕ)
    → Linked s
    → Linked (renew now timeout sid s o).1
renew-Linked now timeout sid s none h = h
renew-Linked now timeout sid s (some a) h = record {
  pointers =
      Mutual-same (sub_target s) (obj_target s) (sub_target (renew now timeout sid s (some a)).1)
        (obj_target s) h.pointers
        (λ x.
          target_of-modify notify_of a (set_timeout (end_time now timeout)) s.subscriberlist x
            (λ e. refl))
        (λ y. refl);
  subs_below =
      Below-modify s.next a (set_timeout (end_time now timeout)) s.subscriberlist h.subs_below;
  objs_below = h.objs_below;
  readable =
      Each-modify IsReadable a (set_timeout (end_time now timeout)) s.subscriberlist (λ v r. r)
        h.readable;
}

pub upnpevents_renew_subscription-Linked :
    (now : ℕ) (sid : Bytes) (timeout : ℕ) (s : Events)
    → Linked s
    → Linked (upnpevents_renew_subscription now sid timeout s).1
unfolding upnpevents_renew_subscription
upnpevents_renew_subscription-Linked now sid timeout s h =
    renew-Linked now timeout sid s (find_sid sid s.subscriberlist) h
