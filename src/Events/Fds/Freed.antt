-- ===== src/Events/Fds/Freed.antt =====
-- miniupnpd/upnpevents.c: notifications that are over and subscribers that are late are freed, and no
-- pointer to them is left.
use miniupnpd_sdn.Base.{
  ℕ, ◌≡◌, refl, ap, ◌∙◌, Bool, true, false, not, ◌&&◌, List, [], ◌∷◌, Option, none, some, ltb, ◌==◌,
  if◌then◌else◌, arith, &&-true,
}
use miniupnpd_sdn.Base.Options.{◌>>=◌}
use miniupnpd_sdn.Base.Ends.{Ends, Ends-bind, Ends-at, Ends-if, if_ends}
use miniupnpd_sdn.Events.Cells.{
  find, modify, delete, addresses, Below, Below-modify, Below-delete, linked, target_of,
  target_of-clear, target_of-delete, target_of-some, Each, Each-modify, Each-delete,
}
use miniupnpd_sdn.Events.Present.{
  Falling, Present, Present-delete, addresses-Present, addresses-Falling,
}
use miniupnpd_sdn.Events.Lists.{Entry, Obj, Events, set_notify, is_idle}
use miniupnpd_sdn.Events.Lists.Linked.{
  Mutual-swap, Mutual-drop, Mutual-drop_idle, sub_target, obj_target, IsReadable, Linked,
}
use miniupnpd_sdn.Events.Lists.Safe.{notify_of, sub_of, is_idle-none}
use miniupnpd_sdn.Events.Lists.Removal.{delete_idle-Linked}
use miniupnpd_sdn.Events.Fds.{
  is_error, is_over, release_sub, free_one, free_loop, is_late, timeout_loop,
}

-- A subscriber's list with the pointer of one cleared, the subscriber deleted or not.
abbrev released : Bool → ℕ → List (ℕ × Entry) → List (ℕ × Entry)
released failed a l =
    if failed then delete a (modify a (set_notify none) l) else modify a (set_notify none) l

target_of-released :
    (failed : Bool) (a : ℕ) (l : List (ℕ × Entry)) (x : ℕ)
    → target_of notify_of (released failed a l) x
      ≡ (if a == x then none else target_of notify_of l x)
target_of-released false a l x = target_of-clear notify_of a (set_notify none) l x (λ e. refl)
target_of-released true a l x =
    target_of-delete notify_of a (modify a (set_notify none) l) x
    ∙ twice (a == x) _ _ (target_of-clear notify_of a (set_notify none) l x (λ e. refl))
  where
    twice :
        (b : Bool) (o p : Option ℕ)
        → o ≡ (if b then none else p)
        → (if b then none else o) ≡ (if b then none else p)
    twice true o p e = refl
    twice false o p e = e

Below-released :
    (failed : Bool) (k a : ℕ) (l : List (ℕ × Entry)) → Below k l → Below k (released failed a l)
Below-released false k a l h = Below-modify k a (set_notify none) l h
Below-released true k a l h =
    Below-delete k a (modify a (set_notify none) l) (Below-modify k a (set_notify none) l h)

Each-released :
    (failed : Bool) (a : ℕ) (l : List (ℕ × Entry))
    → Each IsReadable l
    → Each IsReadable (released failed a l)
Each-released false a l h = Each-modify IsReadable a (set_notify none) l (λ v r. r) h
Each-released true a l h =
    Each-delete IsReadable a (modify a (set_notify none) l)
      (Each-modify IsReadable a (set_notify none) l (λ v r. r) h)

abbrev without : Bool → ℕ → ℕ → Events → Events
without failed a n s = record s {
  subscriberlist = released failed a s.subscriberlist;
  notifylist = delete n s.notifylist;
}

without-Linked :
    (failed : Bool) (a n : ℕ) (s : Events)
    → Linked s
    → sub_target s a ≡ some n
    → Linked (without failed a n s)
without-Linked failed a n s h t = record {
  pointers =
      Mutual-drop (sub_target s) (obj_target s) (sub_target (without failed a n s))
        (obj_target (without failed a n s)) a n h.pointers t
        (λ x. target_of-released failed a s.subscriberlist x)
        (λ y. target_of-delete sub_of n s.notifylist y);
  subs_below = Below-released failed s.next a s.subscriberlist h.subs_below;
  objs_below = Below-delete s.next n s.notifylist h.objs_below;
  readable = Each-released failed a s.subscriberlist h.readable;
}

delete_notification-Linked :
    (n : ℕ) (s : Events)
    → Linked s
    → obj_target s n ≡ none
    → Linked (record s { notifylist = delete n s.notifylist })
delete_notification-Linked n s h t = record {
  pointers =
      Mutual-swap (obj_target (record s { notifylist = delete n s.notifylist })) (sub_target s) (
        Mutual-drop_idle (obj_target s) (sub_target s)
          (obj_target (record s { notifylist = delete n s.notifylist })) n
          (Mutual-swap (sub_target s) (obj_target s) h.pointers) t
          (λ y. target_of-delete sub_of n s.notifylist y));
  subs_below = h.subs_below;
  objs_below = Below-delete s.next n s.notifylist h.objs_below;
  readable = h.readable;
}

-- The notifications that are still to come are there.
abbrev Keeps : List ℕ → Events → Type 0
Keeps more s = Linked s × Present more s.notifylist

free_one_safe :
    (n : ℕ) (o : Obj) (more : List ℕ) (s : Events)
    → Linked s
    → find s.notifylist n ≡ some o
    → Falling n more
    → Present more s.notifylist
    → Ends (Keeps more) (free_one n o s)
free_one_safe n o more s h there fall p = by_sub o.sub refl
  where
    kept : Present more (delete n s.notifylist)
    kept = Present-delete more n n s.notifylist fall (omega arith) p

    by_sub :
        (a : Option ℕ)
        → o.sub ≡ a
        → Ends (Keeps more) (
            release_sub (is_error o.notification.state) a s >>= λ s'.
            some (record s' { notifylist = delete n s'.notifylist }))
    by_sub none x = (delete_notification-Linked n s h (ap (λ p. linked sub_of p) there ∙ x), kept)
    by_sub (some a) x =
        let t = h.pointers.forth n a (ap (λ p. linked sub_of p) there ∙ x) in
        let e = target_of-some notify_of s.subscriberlist a n t in
        rw e.1 (without-Linked (is_error o.notification.state) a n s h t, kept)

free_loop_safe :
    (k : ℕ) (more : List ℕ) (s : Events)
    → Linked s
    → Falling k more
    → Present more s.notifylist
    → Ends Linked (free_loop more s)
unfolding free_loop
free_loop_safe k [] s h fall p = h
free_loop_safe k (n ∷ more) s h fall p =
    let o = p.0.0 in
    Ends-at Linked _ (find s.notifylist n) o p.0.1 (
      Ends-bind Linked (Keeps more) (free_loop more)
        (if is_over o.notification.state then free_one n o s else some s)
        (Ends-if (Keeps more) (free_one n o s) (some s) (is_over o.notification.state)
          (λ x. free_one_safe n o more s h p.0.1 fall.1 p.1) (λ x. (h, p.1)))
        (λ s' c. free_loop_safe n more s' c.0 fall.1 c.1))

pub free_all_safe : (s : Events) → Linked s → Ends Linked (free_loop (addresses s.notifylist) s)
free_all_safe s h =
    free_loop_safe s.next (addresses s.notifylist) s h
      (addresses-Falling s.next s.notifylist h.objs_below) (addresses-Present s.notifylist)

late_idle : (curtime : ℕ) (e : Entry) → is_late curtime e ≡ true → e.notify ≡ none
late_idle curtime e h =
    is_idle-none e.notify
      (&&-true (ltb e.timeout curtime) (is_idle e.notify)
        (&&-true (not (e.timeout == 0)) (ltb e.timeout curtime && is_idle e.notify) h).1).1

timeout_loop_safe :
    (curtime k : ℕ) (more : List ℕ) (s : Events)
    → Linked s
    → Falling k more
    → Present more s.subscriberlist
    → Ends Linked (timeout_loop curtime more s)
unfolding timeout_loop
timeout_loop_safe curtime k [] s h fall p = h
timeout_loop_safe curtime k (a ∷ more) s h fall p =
    let e = p.0.0 in
    let s' : Events = record s { subscriberlist = delete a s.subscriberlist } in
    Ends-at Linked _ (find s.subscriberlist a) e p.0.1 (
      if_ends (λ r. Ends Linked (timeout_loop curtime more r)) s' s (is_late curtime e)
        (λ x.
          timeout_loop_safe curtime a more s'
            (delete_idle-Linked a e s h p.0.1 (late_idle curtime e x)) fall.1
            (Present-delete more a a s.subscriberlist fall.1 (omega arith) p.1))
        (λ x. timeout_loop_safe curtime a more s h fall.1 p.1))

pub timeout_all_safe :
    (curtime : ℕ) (s : Events)
    → Linked s
    → Ends Linked (timeout_loop curtime (addresses s.subscriberlist) s)
timeout_all_safe curtime s h =
    timeout_loop_safe curtime s.next (addresses s.subscriberlist) s h
      (addresses-Falling s.next s.subscriberlist h.subs_below) (addresses-Present s.subscriberlist)
