-- ===== src/Events/Calls.antt =====
-- miniupnpd/upnpevents.c: the calls that the daemon makes, one after another.
use miniupnpd_sdn.Base.{ℕ, ◌≡◌, Bool, List, [], ◌∷◌, Option, some, Bytes}
use miniupnpd_sdn.Base.Options.{◌>>=◌}
use miniupnpd_sdn.Base.Ends.{Ends, Ends-bind}
use miniupnpd_sdn.Events.Callback.{Target, read_callback}
use miniupnpd_sdn.Events.Notify.{Service, Connected, Answers}
use miniupnpd_sdn.Events.Lists.{
  Events, System, upnpevents_add_subscriber, upnpevents_renew_subscription,
  upnpevents_remove_subscriber, upnp_event_var_change_notify,
}
use miniupnpd_sdn.Events.Lists.Linked.{Linked}
use miniupnpd_sdn.Events.Lists.Safe.{
  upnpevents_add_subscriber_safe, upnpevents_renew_subscription-Linked,
  upnp_event_var_change_notify_safe,
}
use miniupnpd_sdn.Events.Lists.Removal.{upnpevents_remove_subscriber_safe}
use miniupnpd_sdn.Events.Fds.{Sets, upnpevents_selectfds, upnpevents_processfds}
use miniupnpd_sdn.Events.Fds.Safe.{upnpevents_selectfds_safe}
use miniupnpd_sdn.Events.Fds.Processed.{upnpevents_processfds_safe}

-- A call, with its arguments and what the system answers in it.
pub data Call : Type 0 where
  add : System → ℕ → Bytes → Bytes → Bytes → ℕ → Call
  renewal : ℕ → Bytes → ℕ → Call
  removal : Bytes → Call
  change : System → Service → Call
  selectfds : (ℕ → Connected) → Sets → Call
  processfds : (ℕ → Bool) → (ℕ → Answers) → ℕ → Call

-- What the call makes of the lists.
unfoldable pub perform : Call → Events → Option Events
perform (add sys now eventurl callback uuid timeout) s = (do
  r ← upnpevents_add_subscriber sys now eventurl callback uuid timeout s
  some r.1)
perform (renewal now sid timeout) s = some (upnpevents_renew_subscription now sid timeout s).1
perform (removal sid) s = (do r ← upnpevents_remove_subscriber sid s; some r.1)
perform (change sys service) s = upnp_event_var_change_notify sys service s
perform (selectfds connect sets) s = (do r ← upnpevents_selectfds connect sets s; some r.1)
perform (processfds is_set answers curtime) s = upnpevents_processfds is_set answers curtime s

unfoldable pub perform_all : List Call → Events → Option Events
perform_all [] s = some s
perform_all (c ∷ more) s = (do s' ← perform c s; perform_all more s')

-- The callback of a subscriber to add is a URL that is read without a fault.
abbrev pub HasUrl : Call → Type 0
HasUrl (add sys now eventurl callback uuid timeout) =
    (t : Target) × (read_callback callback ≡ some t)
HasUrl (renewal now sid timeout) = Unit {0}
HasUrl (removal sid) = Unit {0}
HasUrl (change sys service) = Unit {0}
HasUrl (selectfds connect sets) = Unit {0}
HasUrl (processfds is_set answers curtime) = Unit {0}

abbrev pub HaveUrls : List Call → Type 0
HaveUrls [] = Unit {0}
HaveUrls (c ∷ more) = HasUrl c × HaveUrls more

perform_safe : (c : Call) (s : Events) → HasUrl c → Linked s → Ends Linked (perform c s)
unfolding perform
perform_safe (add sys now eventurl callback uuid timeout) s u h =
    Ends-bind Linked (λ (r : Option Bytes × Events). Linked r.1) _
      (upnpevents_add_subscriber sys now eventurl callback uuid timeout s)
      (upnpevents_add_subscriber_safe sys now eventurl callback uuid timeout s u h) (λ r k. k)
perform_safe (renewal now sid timeout) s u h =
    upnpevents_renew_subscription-Linked now sid timeout s h
perform_safe (removal sid) s u h =
    Ends-bind Linked (λ (r : Bool × Events). Linked r.1) _ (upnpevents_remove_subscriber sid s)
      (upnpevents_remove_subscriber_safe sid s h) (λ r k. k)
perform_safe (change sys service) s u h = upnp_event_var_change_notify_safe sys service s h
perform_safe (selectfds connect sets) s u h =
    Ends-bind Linked (λ (r : Sets × Events). Linked r.1) _ (upnpevents_selectfds connect sets s)
      (upnpevents_selectfds_safe connect sets s h) (λ r k. k)
perform_safe (processfds is_set answers curtime) s u h =
    upnpevents_processfds_safe is_set answers curtime s h

-- Any sequence of calls from lists whose pointers point back at each other, the callback of each
-- subscriber to add being a URL that is read without a fault, goes through no pointer to freed memory,
-- and leaves such lists: a subscriber's notification is in the list and points back at it, a
-- notification's subscriber is in the list and points back at it.
pub perform_all-Linked :
    (calls : List Call) (s : Events) → HaveUrls calls → Linked s → Ends Linked (perform_all calls s)
unfolding perform_all
perform_all-Linked [] s u h = h
perform_all-Linked (c ∷ more) s u h =
    Ends-bind Linked Linked (perform_all more) (perform c s) (perform_safe c s u.0 h)
      (λ s' k. perform_all-Linked more s' u.1 k)
