-- ===== src/Events/Fds.antt =====
-- miniupnpd/upnpevents.c: upnpevents_selectfds and upnpevents_processfds. A socket is named by the address
-- of its notification; `max_fd` is left out.
pub mod Safe
pub mod Freed
pub mod Processed
use miniupnpd_sdn.Base.{
  ℕ, zero, suc, Bool, true, false, not, ◌&&◌, ◌||◌, List, [], ◌∷◌, Option, none, some, Bytes, ltb,
  ◌==◌, if◌then◌else◌,
}
use miniupnpd_sdn.Base.Options.{◌>>=◌}
use miniupnpd_sdn.Events.Cells.{find, modify, delete, addresses}
use miniupnpd_sdn.Events.Notify.{
  NotifyState, created, connecting, sending, waiting_for_response, finished, error, Subscriber,
  Notify, Connected, Answers, upnp_event_notify_connect, upnp_event_process_notify,
}
use miniupnpd_sdn.Events.Lists.{
  Entry, Obj, Events, set_notify, is_idle, load_sub, store_seq, write_notification,
}

pub record Sets : Type 0 where
  pub readset : List ℕ
  pub writeset : List ℕ

-- The set that the notification's socket goes to, by its state.
abbrev pub select_fd : ℕ → NotifyState → Sets → Sets
select_fd n created sets = sets
select_fd n connecting sets = record sets { writeset = n ∷ sets.writeset }
select_fd n sending sets = record sets { writeset = n ∷ sets.writeset }
select_fd n waiting_for_response sets = record sets { readset = n ∷ sets.readset }
select_fd n finished sets = sets
select_fd n error sets = sets

abbrev pub with_sub : Notify → Option Subscriber → Notify
with_sub o sub = record o { sub = sub }

-- A notification that has been made is connected first; `connect n` is what connect returns for it.
abbrev pub connect_new :
    (ℕ → Connected) → ℕ → Obj → Sets → Events → NotifyState → Option (Sets × Events)
connect_new connect n o sets s created = (do
  sub ← load_sub s o.sub
  r ← upnp_event_notify_connect (with_sub o.notification sub) (connect n)
  some (select_fd n r.state sets, write_notification n r s))
connect_new connect n o sets s connecting = some (select_fd n connecting sets, s)
connect_new connect n o sets s sending = some (select_fd n sending sets, s)
connect_new connect n o sets s waiting_for_response =
    some (select_fd n waiting_for_response sets, s)
connect_new connect n o sets s finished = some (sets, s)
connect_new connect n o sets s error = some (sets, s)

unfoldable pub select_loop : (ℕ → Connected) → List ℕ → Sets → Events → Option (Sets × Events)
select_loop connect [] sets s = some (sets, s)
select_loop connect (n ∷ more) sets s = (do
  o ← find s.notifylist n
  r ←
      (if o.notification.is_open
        then connect_new connect n o sets s o.notification.state
        else some (sets, s))
  select_loop connect more r.0 r.1)

unfoldable pub upnpevents_selectfds : (ℕ → Connected) → Sets → Events → Option (Sets × Events)
upnpevents_selectfds connect sets s = select_loop connect (addresses s.notifylist) sets s

abbrev pub store_result : ℕ → Option ℕ → Notify → Events → Events
store_result n a r s = record (write_notification n r s) {
  subscriberlist = store_seq a r.sub s.subscriberlist;
}

abbrev pub process_one : Answers → ℕ → Obj → Events → Option Events
process_one answers n o s = (do
  sub ← load_sub s o.sub
  r ← upnp_event_process_notify answers (with_sub o.notification sub)
  some (store_result n o.sub r.1 s))

-- `is_set n` tells whether the socket is in one of the sets.
unfoldable pub process_loop : (ℕ → Bool) → (ℕ → Answers) → List ℕ → Events → Option Events
process_loop is_set answers [] s = some s
process_loop is_set answers (n ∷ more) s = (do
  o ← find s.notifylist n
  s' ← (if o.notification.is_open && is_set n then process_one (answers n) n o s else some s)
  process_loop is_set answers more s')

abbrev pub is_error : NotifyState → Bool
is_error error = true
is_error created = false
is_error connecting = false
is_error sending = false
is_error waiting_for_response = false
is_error finished = false

abbrev pub is_over : NotifyState → Bool
is_over error = true
is_over finished = true
is_over created = false
is_over connecting = false
is_over sending = false
is_over waiting_for_response = false

-- `obj->sub->notify = NULL`, and the subscriber goes too where there was an error.
abbrev pub release_sub : Bool → Option ℕ → Events → Option Events
release_sub failed none s = some s
release_sub failed (some a) s = (do
  e ← find s.subscriberlist a
  some (record s {
    subscriberlist =
        if failed
        then delete a (modify a (set_notify none) s.subscriberlist)
        else modify a (set_notify none) s.subscriberlist;
  }))

abbrev pub free_one : ℕ → Obj → Events → Option Events
free_one n o s = (do
  s' ← release_sub (is_error o.notification.state) o.sub s
  some (record s' { notifylist = delete n s'.notifylist }))

unfoldable pub free_loop : List ℕ → Events → Option Events
free_loop [] s = some s
free_loop (n ∷ more) s = (do
  o ← find s.notifylist n
  s' ← (if is_over o.notification.state then free_one n o s else some s)
  free_loop more s')

abbrev pub is_late : ℕ → Entry → Bool
is_late curtime e = not (e.timeout == 0) && (ltb e.timeout curtime && is_idle e.notify)

unfoldable pub timeout_loop : ℕ → List ℕ → Events → Option Events
timeout_loop curtime [] s = some s
timeout_loop curtime (a ∷ more) s = (do
  e ← find s.subscriberlist a
  timeout_loop curtime more
      (if is_late curtime e then record s { subscriberlist = delete a s.subscriberlist } else s))

unfoldable pub upnpevents_processfds : (ℕ → Bool) → (ℕ → Answers) → ℕ → Events → Option Events
upnpevents_processfds is_set answers curtime s = (do
  s1 ← process_loop is_set answers (addresses s.notifylist) s
  s2 ← free_loop (addresses s1.notifylist) s1
  timeout_loop curtime (addresses s2.subscriberlist) s2)
