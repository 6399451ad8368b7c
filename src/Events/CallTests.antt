-- ===== src/Events/CallTests.antt =====
-- A subscriber that is added, notified of a change, refused and removed.
use miniupnpd_sdn.Base.{◌≡◌, refl, true, false, List, [], ◌∷◌, none, some, Bytes, codes}
use miniupnpd_sdn.Base.Options.{none-some}
use miniupnpd_sdn.Base.Ends.{Ends}
use miniupnpd_sdn.Events.Cells.{Each}
use miniupnpd_sdn.Events.Callback.{Target, read_callback, copy_until, port_and_path}
use miniupnpd_sdn.Events.Notify.{wan_ipc, refused, moved, Answers, upnp_event_notify_connect}
use miniupnpd_sdn.Events.Lists.{
  Events, System, new_obj, upnp_event_create_notify, change_notify_loop, new_subscriber,
  upnpevents_add_subscriber, upnp_event_var_change_notify,
}
use miniupnpd_sdn.Events.Lists.Linked.{Linked}
use miniupnpd_sdn.Events.Fds.{
  select_loop, upnpevents_selectfds, process_loop, free_loop, timeout_loop, upnpevents_processfds,
}
use miniupnpd_sdn.Events.Calls.{
  Call, add, change, selectfds, processfds, perform, perform_all, perform_all-Linked,
}
use miniupnpd_sdn.Events.Outcome.{
  IsRunning, IsTimely, IsServed, upnpevents_processfds-IsTimely,
  upnp_event_var_change_notify-IsServed,
}

abbrev no_events : Events
no_events = record { subscriberlist = []; notifylist = []; next = 0 }

no_events-Linked : Linked no_events
no_events-Linked = record {
  pointers = record {
    forth = λ n a h. absurd (none-some a h);
    back = λ a n h. absurd (none-some n h);
  };
  subs_below = tt;
  objs_below = tt;
  readable = tt;
}

abbrev all_right : System
all_right = record { calloc = λ n. true; socket = λ n. true; set_non_blocking = λ n. true }

abbrev no_bytes : Answers
no_bytes = record {
  so_error = some 0;
  vars = λ service. none;
  malloc = λ k. true;
  send = moved 0;
  recv = moved 0;
}

abbrev a_url : Bytes
a_url = codes "http://10.0.0.5/evt"

a_url_read : (t : Target) × (read_callback a_url ≡ some t)
unfolding read_callback copy_until port_and_path
a_url_read = (_, refl)

abbrev adding : Call
adding = add all_right 100 (codes "/evt/IPConn") a_url (codes "uuid:1") 300

abbrev calls : List Call
calls =
    adding
    ∷ (change all_right wan_ipc
        ∷ (selectfds (λ n. refused) (record { readset = []; writeset = [] })
            ∷ (processfds (λ n. false) (λ n. no_bytes) 500 ∷ [])))

-- The connection is refused, and the subscriber goes with the notification.
freed_both :
    perform_all calls no_events ≡ some (record { subscriberlist = []; notifylist = []; next = 2 })
unfolding perform_all perform upnpevents_add_subscriber new_subscriber upnp_event_create_notify
    upnp_event_var_change_notify change_notify_loop upnpevents_selectfds select_loop
    upnp_event_notify_connect read_callback copy_until port_and_path upnpevents_processfds
    process_loop free_loop timeout_loop
freed_both = refl

perform_all-Linked_example : Ends Linked (perform_all calls no_events)
perform_all-Linked_example =
    perform_all-Linked calls no_events (a_url_read, (tt, (tt, (tt, tt)))) no_events-Linked

abbrev added : Events
added = record {
  subscriberlist =
      (
        0,
        record {
          notify = some 1;
          timeout = 400;
          subscriber = record {
            seq = 0;
            service = wan_ipc;
            uuid = codes "uuid:1";
            callback = a_url;
          };
        },
      )
      ∷ [];
  notifylist = (1, new_obj 0) ∷ [];
  next = 2;
}

added-Linked : Linked added
unfolding perform_all perform upnpevents_add_subscriber new_subscriber upnp_event_create_notify
added-Linked = perform_all-Linked (adding ∷ []) no_events (a_url_read, tt) no_events-Linked

upnpevents_processfds-IsTimely_example :
    Ends
      (λ (s : Events). Each IsRunning s.notifylist × Each (IsTimely 500) s.subscriberlist)
      (upnpevents_processfds (λ n. true) (λ n. no_bytes) 500 added)
upnpevents_processfds-IsTimely_example =
    upnpevents_processfds-IsTimely (λ n. true) (λ n. no_bytes) 500 added added-Linked

upnp_event_var_change_notify-IsServed_example :
    Ends
      (λ (s : Events). Linked s × Each (IsServed wan_ipc) s.subscriberlist)
      (upnp_event_var_change_notify all_right wan_ipc added)
upnp_event_var_change_notify-IsServed_example =
    upnp_event_var_change_notify-IsServed all_right wan_ipc added (λ n. refl) added-Linked
