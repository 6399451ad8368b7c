-- ===== src/Events/Tests.antt =====
-- A callback's URL, and a notification's first bytes.
use miniupnpd_sdn.Base.{
  Bytes, length, true, ◌≡◌, refl, false, [], ◌∷◌, ◌++◌, none, some, codes, arith,
}
use miniupnpd_sdn.Base.Decimal.{decimal}
use miniupnpd_sdn.Events.Notify.{
  connecting, sending, wan_ipc, Subscriber, Notify, moved, Answers, notify_message, make_buffer,
  upnp_event_prepare, upnp_event_send, upnp_event_process_notify,
}
use miniupnpd_sdn.Events.Notify.Whole.{start, process, IsSent, Sends-IsSent}
use miniupnpd_sdn.Events.Callback.{Target, read_callback, IsHost, url, read_callback-url}

address-IsHost : IsHost (codes "10.0.0.5")
address-IsHost = record {
  no_slash = ground arith;
  no_colon = ground arith;
  no_bracket = ground arith;
  fits = omega arith;
}

read_callback-url_example :
    (read_callback (url (codes "10.0.0.5") (b':' ∷ (decimal 8080 ++ codes "/evt")))
      ≡ some (record {
        ipv6 = false;
        addrstr = codes "10.0.0.5";
        port = 8080;
        portstr = b':' ∷ decimal 8080;
        path = codes "/evt" ++ (0 ∷ []);
      }))
    × (read_callback (url (codes "10.0.0.5") (b'/' ∷ codes "evt"))
        ≡ some (record {
          ipv6 = false;
          addrstr = codes "10.0.0.5";
          port = 80;
          portstr = [];
          path = codes "/evt" ++ (0 ∷ []);
        }))
    × (read_callback (url (codes "10.0.0.5") []) ≡ none)
read_callback-url_example =
    read_callback-url (codes "10.0.0.5") 8080 (codes "/evt") (codes "evt") address-IsHost
      (omega arith) refl

abbrev a_subscriber : Subscriber
a_subscriber = record {
  seq = 3;
  service = wan_ipc;
  uuid = codes "uuid:1";
  callback = codes "http://10.0.0.5/evt";
}

abbrev a_target : Target
a_target = record {
  ipv6 = false;
  addrstr = codes "10.0.0.5";
  port = 80;
  portstr = [];
  path = codes "/evt" ++ (0 ∷ []);
}

abbrev a_text : Bytes
a_text = notify_message a_target a_subscriber none

abbrev begun : Notify
begun = record {
  is_open = true;
  state = connecting;
  sub = some a_subscriber;
  target = a_target;
  buffer = [];
  buffersize = 0;
  tosend = 0;
  sent = 0;
}

abbrev five_bytes : Answers
five_bytes = record {
  so_error = some 0;
  vars = λ service. none;
  malloc = λ k. true;
  send = moved 5;
  recv = moved 1;
}

abbrev five_sent : Notify
five_sent = record begun {
  state = sending;
  buffer = a_text;
  buffersize = 1024;
  tosend = length a_text;
  sent = 5;
}

first_bytes : upnp_event_process_notify five_bytes begun ≡ some (codes "NOTIF", five_sent)
unfolding upnp_event_process_notify upnp_event_prepare upnp_event_send make_buffer notify_message
    decimal
first_bytes = refl

Sends-IsSent_example : IsSent begun (five_bytes ∷ []) five_sent (codes "NOTIF")
Sends-IsSent_example =
    Sends-IsSent begun five_sent (five_bytes ∷ []) (codes "NOTIF") refl refl
      (process begun begun five_sent [] [] (codes "NOTIF") five_bytes (start begun) first_bytes)
