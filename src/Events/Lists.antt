-- ===== src/Events/Lists.antt =====
-- miniupnpd/upnpevents.c: the lists of subscribers and of notifications, which point at each other. A
-- result none is a fault: a read or a write through a pointer to freed memory, or behind a string.
-- A time is a number; UPNP_STRICT is not set.
pub mod Linked
pub mod Safe
pub mod Removal
use miniupnpd_sdn.Base.{
  ℕ, zero, suc, ◌+◌, ◌%◌, ◌^◌, Bool, true, false, not, ◌&&◌, ◌||◌, List, [], ◌∷◌, Option, none,
  some, Bytes, codes, ltb, ◌==◌, if◌then◌else◌, length, bytes_eq,
}
use miniupnpd_sdn.Base.Options.{◌>>=◌}
use miniupnpd_sdn.Events.Cells.{find, modify, delete, addresses}
use miniupnpd_sdn.Events.Callback.{Target}
use miniupnpd_sdn.Events.Notify.{
  NotifyState, created, connecting, sending, waiting_for_response, finished, error, Service,
  wan_cfg, wan_ipc, Subscriber, Notify, Connected, Answers, upnp_event_notify_connect,
  upnp_event_process_notify,
}

-- `struct subscriber` with its pointer.
pub record Entry : Type 0 where
  pub notify : Option ℕ
  pub timeout : ℕ
  pub subscriber : Subscriber

-- `struct upnp_event_notify` with its pointer; the copy of the subscriber in `notification` is made anew
-- for each call that reads it.
pub record Obj : Type 0 where
  pub sub : Option ℕ
  pub notification : Notify

pub record Events : Type 0 where
  pub subscriberlist : List (ℕ × Entry)
  pub notifylist : List (ℕ × Obj)
  pub next : ℕ

-- Whether the calls of calloc, socket and set_non_blocking for the allocation of that number succeed.
pub record System : Type 0 where
  pub calloc : ℕ → Bool
  pub socket : ℕ → Bool
  pub set_non_blocking : ℕ → Bool

abbrev pub no_target : Target
no_target = record { ipv6 = false; addrstr = []; port = 0; portstr = []; path = [] }

abbrev pub new_obj : ℕ → Obj
new_obj a = record {
  sub = some a;
  notification = record {
    is_open = true;
    state = created;
    sub = none;
    target = no_target;
    buffer = [];
    buffersize = 0;
    tosend = 0;
    sent = 0;
  };
}

abbrev pub set_notify : Option ℕ → Entry → Entry
set_notify n e = record e { notify = n }

abbrev pub set_sub : Option ℕ → Obj → Obj
set_sub a o = record o { sub = a }

abbrev pub insert_notify : ℕ → Events → Events
insert_notify a s = record {
  subscriberlist = modify a (set_notify (some s.next)) s.subscriberlist;
  notifylist = (s.next, new_obj a) ∷ s.notifylist;
  next = suc s.next;
}

-- `obj->sub->callback` and `sub->notify` are read and written through the pointer.
unfoldable pub upnp_event_create_notify : System → ℕ → Events → Option Events
upnp_event_create_notify sys a s = (do
  e ← find s.subscriberlist a
  some (
      if sys.calloc s.next && (sys.socket s.next && sys.set_non_blocking s.next)
      then insert_notify a s
      else s))

-- The service of an event URL.
abbrev pub service_of : Bytes → Option Service
service_of eventurl =
    if bytes_eq eventurl (codes "/evt/CmnIfCfg")
    then some wan_cfg
    else if bytes_eq eventurl (codes "/evt/IPConn")
    then some wan_ipc
    else none

-- The memory comes zeroed; `uuid` is the one that is generated.
abbrev pub new_subscriber_for : Bytes → Bytes → Option Service → Option Entry
new_subscriber_for callback uuid none = none
new_subscriber_for callback uuid (some service) = some (record {
  notify = none;
  timeout = 0;
  subscriber = record { seq = 0; service = service; uuid = uuid; callback = callback };
})

unfoldable pub new_subscriber : System → ℕ → Bytes → Bytes → Bytes → Option Entry
new_subscriber sys next eventurl [] uuid = none
new_subscriber sys next eventurl (c ∷ callback) uuid =
    if sys.calloc next then new_subscriber_for (c ∷ callback) uuid (service_of eventurl) else none

-- `timeout ? upnp_time() + timeout : 0`
abbrev pub end_time : ℕ → ℕ → ℕ
end_time now timeout = if timeout == 0 then 0 else now + timeout

abbrev pub insert_subscriber : Entry → Events → Events
insert_subscriber e s = record s {
  subscriberlist = (s.next, e) ∷ s.subscriberlist;
  next = suc s.next;
}

abbrev pub add_entry : System → ℕ → ℕ → Events → Option Entry → Option (Option Bytes × Events)
add_entry sys now timeout s none = some (none, s)
add_entry sys now timeout s (some e) = (do
  s' ←
      upnp_event_create_notify sys s.next
        (insert_subscriber (record e { timeout = end_time now timeout }) s)
  some (some e.subscriber.uuid, s'))

unfoldable pub upnpevents_add_subscriber :
    System → ℕ → Bytes → Bytes → Bytes → ℕ → Events → Option (Option Bytes × Events)
upnpevents_add_subscriber sys now eventurl callback uuid timeout s =
    add_entry sys now timeout s (new_subscriber sys s.next eventurl callback uuid)

-- `sidlen == 41 && memcmp(sid, sub->uuid, 41) == 0`
abbrev pub has_sid : Bytes → Entry → Bool
has_sid sid e = length sid == 41 && bytes_eq sid e.subscriber.uuid

abbrev pub find_sid : Bytes → List (ℕ × Entry) → Option ℕ
find_sid sid [] = none
find_sid sid ((a, e) ∷ l) = let more = find_sid sid l in if has_sid sid e then some a else more

abbrev pub set_timeout : ℕ → Entry → Entry
set_timeout t e = record e { timeout = t }

abbrev pub renew : ℕ → ℕ → Bytes → Events → Option ℕ → Option Bytes × Events
renew now timeout sid s none = (none, s)
renew now timeout sid s (some a) = (
  some sid,
  record s { subscriberlist = modify a (set_timeout (end_time now timeout)) s.subscriberlist },
)

unfoldable pub upnpevents_renew_subscription : ℕ → Bytes → ℕ → Events → Option Bytes × Events
upnpevents_renew_subscription now sid timeout s =
    renew now timeout sid s (find_sid sid s.subscriberlist)

-- `sub->notify->sub = NULL`
abbrev pub unlink_notify : Option ℕ → Events → Option Events
unlink_notify none s = some s
unlink_notify (some n) s = (do
  o ← find s.notifylist n
  some (record s { notifylist = modify n (set_sub none) s.notifylist }))

abbrev pub remove_at : Events → Option ℕ → Option (Bool × Events)
remove_at s none = some (false, s)
remove_at s (some a) = (do
  e ← find s.subscriberlist a
  s' ← unlink_notify e.notify s
  some (true, record s' { subscriberlist = delete a s'.subscriberlist }))

unfoldable pub upnpevents_remove_subscriber : Bytes → Events → Option (Bool × Events)
upnpevents_remove_subscriber sid s = remove_at s (find_sid sid s.subscriberlist)

abbrev pub same_service : Service → Service → Bool
same_service wan_cfg wan_cfg = true
same_service wan_ipc wan_ipc = true
same_service wan_cfg wan_ipc = false
same_service wan_ipc wan_cfg = false

abbrev pub is_idle : Option ℕ → Bool
is_idle none = true
is_idle (some n) = false

-- The list is gone through by its pointers, while the structures change.
unfoldable pub change_notify_loop : System → Service → List ℕ → Events → Option Events
change_notify_loop sys service [] s = some s
change_notify_loop sys service (a ∷ more) s = (do
  e ← find s.subscriberlist a
  s' ←
      (if same_service e.subscriber.service service && is_idle e.notify
        then upnp_event_create_notify sys a s
        else some s)
  change_notify_loop sys service more s')

unfoldable pub upnp_event_var_change_notify : System → Service → Events → Option Events
upnp_event_var_change_notify sys service s =
    change_notify_loop sys service (addresses s.subscriberlist) s

-- `obj->sub`, with what it points at.
abbrev pub load_sub : Events → Option ℕ → Option (Option Subscriber)
load_sub s none = some none
load_sub s (some a) = (do e ← find s.subscriberlist a; some (some e.subscriber))

abbrev pub set_notification : Notify → Obj → Obj
set_notification n o = record o { notification = n }

abbrev pub set_seq : Subscriber → Entry → Entry
set_seq sub e = record e { subscriber = record e.subscriber { seq = sub.seq } }

-- `obj->sub->seq++`
abbrev pub store_seq : Option ℕ → Option Subscriber → List (ℕ × Entry) → List (ℕ × Entry)
store_seq (some a) (some sub) l = modify a (set_seq sub) l
store_seq (some a) none l = l
store_seq none sub l = l

abbrev pub write_notification : ℕ → Notify → Events → Events
write_notification n r s = record s { notifylist = modify n (set_notification r) s.notifylist }
