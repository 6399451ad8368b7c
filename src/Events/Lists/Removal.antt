-- ===== src/Events/Lists/Removal.antt =====
-- miniupnpd/upnpevents.c: a subscriber that is removed leaves no pointer to it.
use miniupnpd_sdn.Base.{
  ℕ, ◌≡◌, refl, ap, ◌∙◌, inl, inr, Bool, true, List, [], ◌∷◌, Option, none, some, Bytes, ◌==◌,
  Bool-cases, Option-cases, arith,
}
use miniupnpd_sdn.Base.Options.{◌>>=◌, none-some}
use miniupnpd_sdn.Base.Ends.{Ends, Ends-bind, Ends-at}
use miniupnpd_sdn.Events.Cells.{
  find, modify, delete, Below-modify, Below-delete, linked, target_of-clear, target_of-delete,
  target_of-some, Each-delete,
}
use miniupnpd_sdn.Events.Present.{Has, Has-more}
use miniupnpd_sdn.Events.Lists.{
  Entry, Events, set_sub, has_sid, find_sid, unlink_notify, remove_at, upnpevents_remove_subscriber,
}
use miniupnpd_sdn.Events.Lists.Linked.{
  Mutual-drop, Mutual-drop_idle, sub_target, obj_target, IsReadable, Linked,
}
use miniupnpd_sdn.Events.Lists.Safe.{notify_of, sub_of}

pub find_sid-Has : (sid : Bytes) (l : List (ℕ × Entry)) (a : ℕ) → find_sid sid l ≡ some a → Has l a
find_sid-Has sid [] a h = absurd (none-some a h)
find_sid-Has sid ((m, e) ∷ l) a h = elim (Bool-cases (has_sid sid e)) [
  | inl x ↦ let same : (m == a) ≡ true = ground (arith, rw x at h) in (e, rw same refl)
  | inr x ↦ Has-more m e a l (find_sid-Has sid l a (rw x at h))
]

-- A subscriber with no notification is deleted.
pub delete_idle-Linked :
    (a : ℕ) (e : Entry) (s : Events)
    → Linked s
    → find s.subscriberlist a ≡ some e
    → e.notify ≡ none
    → Linked (record s { subscriberlist = delete a s.subscriberlist })
delete_idle-Linked a e s h there idle =
    let s' : Events = record s { subscriberlist = delete a s.subscriberlist } in
    record {
      pointers =
          Mutual-drop_idle (sub_target s) (obj_target s) (sub_target s') a h.pointers
            (ap (λ o. linked notify_of o) there ∙ idle)
            (λ x. target_of-delete notify_of a s.subscriberlist x);
      subs_below = Below-delete s.next a s.subscriberlist h.subs_below;
      objs_below = h.objs_below;
      readable = Each-delete IsReadable a s.subscriberlist h.readable;
    }

-- The notification's pointer is cleared, and the subscriber is deleted.
delete_joined-Linked :
    (a n : ℕ) (s : Events)
    → Linked s
    → sub_target s a ≡ some n
    → Linked (record s {
      subscriberlist = delete a s.subscriberlist;
      notifylist = modify n (set_sub none) s.notifylist;
    })
delete_joined-Linked a n s h e =
    let s' : Events = record s {
      subscriberlist = delete a s.subscriberlist;
      notifylist = modify n (set_sub none) s.notifylist;
    } in
    record {
      pointers =
          Mutual-drop (sub_target s) (obj_target s) (sub_target s') (obj_target s') a n h.pointers e
            (λ x. target_of-delete notify_of a s.subscriberlist x)
            (λ y. target_of-clear sub_of n (set_sub none) s.notifylist y (λ o. refl));
      subs_below = Below-delete s.next a s.subscriberlist h.subs_below;
      objs_below = Below-modify s.next n (set_sub none) s.notifylist h.objs_below;
      readable = Each-delete IsReadable a s.subscriberlist h.readable;
    }

remove_at_safe :
    (s : Events) (a : ℕ) (e : Entry)
    → Linked s
    → find s.subscriberlist a ≡ some e
    → Ends (λ r. Linked r.1) (remove_at s (some a))
remove_at_safe s a e h there =
    Ends-at (λ r. Linked r.1) _ (find s.subscriberlist a) e there (by_notify e.notify refl)
  where
    by_notify :
        (o : Option ℕ)
        → e.notify ≡ o
        → Ends
            (λ (r : Bool × Events). Linked r.1)
            (unlink_notify o s >>= λ s'.
              some (true, record s' { subscriberlist = delete a s'.subscriberlist }))
    by_notify none x = delete_idle-Linked a e s h there x
    by_notify (some n) x =
        let t : sub_target s a ≡ some n = ap (λ o. linked notify_of o) there ∙ x in
        let o = target_of-some sub_of s.notifylist n a (h.pointers.back a n t) in
        Ends-bind (λ r. Linked r.1)
          (λ s'. s' ≡ record s { notifylist = modify n (set_sub none) s.notifylist }) _
          (unlink_notify (some n) s)
          (Ends-at (λ s'. s' ≡ record s { notifylist = modify n (set_sub none) s.notifylist }) _
            (find s.notifylist n) o.0 o.1 refl)
          (λ s' same. rw same (delete_joined-Linked a n s h t))

pub upnpevents_remove_subscriber_safe :
    (sid : Bytes) (s : Events)
    → Linked s
    → Ends (λ r. Linked r.1) (upnpevents_remove_subscriber sid s)
unfolding upnpevents_remove_subscriber
upnpevents_remove_subscriber_safe sid s h = elim (Option-cases (find_sid sid s.subscriberlist)) [
  | inl x ↦ rw x h
  | inr (a, x) ↦
      let e = find_sid-Has sid s.subscriberlist a x in rw x (remove_at_safe s a e.0 h e.1)
]
