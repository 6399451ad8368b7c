-- ===== src/Events/Notify.antt =====
-- miniupnpd/upnpevents.c: the states of a notification: upnp_event_notify_connect, upnp_event_prepare,
-- upnp_event_send, upnp_event_recv and upnp_event_process_notify, for the services WANCfg and WANIPConn.
-- What the system answers is in the record Answers.
pub mod Whole
pub mod Total
use miniupnpd_sdn.Base.{
  ◌%◌, ◌^◌, ℕ, zero, suc, ◌+◌, ◌-◌, ◌≤◌, ◌≡◌, refl, ap, ◌∙◌, sym, inl, inr, Bool, true, false, List,
  [], ◌∷◌, ◌++◌, Option, none, some, Bytes, codes, ltb, leb, ◌==◌, if◌then◌else◌, length, take,
  drop, c_string, Bool-cases, arith, append_assoc,
}
use miniupnpd_sdn.Base.Options.{◌>>=◌}
use miniupnpd_sdn.Base.Decimal.{decimal}
use miniupnpd_sdn.Events.Callback.{Target, read_callback}

pub data NotifyState : Type 0 where
  created connecting sending waiting_for_response finished error : NotifyState

pub data Service : Type 0 where
  wan_cfg wan_ipc : Service

pub record Subscriber : Type 0 where
  pub seq : ℕ
  pub service : Service
  pub uuid : Bytes
  pub callback : Bytes

-- `sub` is the subscriber itself, none once it has been removed; `is_open` is whether `s >= 0`, `buffer`
-- the text of `tosend` bytes.
pub record Notify : Type 0 where
  pub is_open : Bool
  pub state : NotifyState
  pub sub : Option Subscriber
  pub target : Target
  pub buffer : Bytes
  pub buffersize : ℕ
  pub tosend : ℕ
  pub sent : ℕ

pub data Connected : Type 0 where
  connected in_progress refused : Connected

-- `again` is EAGAIN, EWOULDBLOCK or EINTR.
pub data Transferred : Type 0 where
  moved : ℕ → Transferred
  again failed : Transferred

-- The error of the socket, none where getsockopt fails; the variables' text of a service; whether the
-- call of malloc of that number succeeds; what send and recv return.
pub record Answers : Type 0 where
  pub so_error : Option ℕ
  pub vars : Service → Option Bytes
  pub malloc : ℕ → Bool
  pub send : Transferred
  pub recv : Transferred

abbrev pub connect_state : Connected → NotifyState
connect_state connected = connecting
connect_state in_progress = connecting
connect_state refused = error

abbrev pub connect_to : Notify → Connected → Option Subscriber → Option Notify
connect_to obj r none = some (record obj { state = error })
connect_to obj r (some sub) = (do
  target ← read_callback sub.callback
  some (record obj { target = target; state = connect_state r }))

-- None where the URL makes it read behind the string.
unfoldable pub upnp_event_notify_connect : Notify → Connected → Option Notify
upnp_event_notify_connect obj r = connect_to obj r obj.sub

abbrev crlf : Bytes
crlf = 13 ∷ 10 ∷ []

abbrev path_or_slash : Bytes → Bytes
path_or_slash [] = codes "/"
path_or_slash (c ∷ path) = c ∷ path

abbrev text_of : Option Bytes → Bytes
text_of none = []
text_of (some xml) = xml

unfoldable pub notify_message : Target → Subscriber → Option Bytes → Bytes
notify_message t sub xml =
    codes "NOTIFY "
    ++ (path_or_slash (c_string t.path)
        ++ (codes " HTTP/1.1"
            ++ (crlf
                ++ (codes "Host: "
                    ++ (t.addrstr
                        ++ (t.portstr
                            ++ (crlf
                                ++ (codes "Content-Type: text/xml; charset="
                                    ++ (34
                                        ∷ (codes "utf-8"
                                            ++ (34
                                                ∷ (crlf
                                                    ++ (codes "Content-Length: "
                                                        ++ (decimal (length (text_of xml) + 2)
                                                            ++ (crlf
                                                            ++ (codes "NT: upnp:event"
                                                            ++ (crlf
                                                            ++ (codes "NTS: upnp:propchange"
                                                            ++ (crlf
                                                            ++ (codes "SID: "
                                                            ++ (sub.uuid
                                                            ++ (crlf
                                                            ++ (codes "SEQ: "
                                                            ++ (decimal sub.seq
                                                            ++ (crlf
                                                            ++ (codes "Connection: close"
                                                            ++ (crlf
                                                            ++ (codes "Cache-Control: no-cache"
                                                            ++ (crlf
                                                            ++ (crlf
                                                            ++ (text_of xml
                                                            ++ crlf)))))))))))))))))))))))))))))))

-- `for (;;)`: the buffer is made again, with room for the text, where it was too small. The number of
-- the round counts the calls of malloc; none without fuel.
unfoldable pub make_buffer : ℕ → ℕ → (ℕ → Bool) → ℕ → Bytes → Notify → Option Notify
make_buffer zero k malloc size text obj = none
make_buffer (suc fuel) k malloc size text obj =
    let obj' = record obj { buffer = text; buffersize = size; tosend = length text } in
    let bigger =
      make_buffer fuel (suc k) malloc (length text + 1) text
        (record obj { tosend = length text }) in
    if malloc k
    then (if ltb (length text) size then some (record obj' { state = sending }) else bigger)
    else some (record obj { state = error; buffer = []; buffersize = size })

abbrev pub prepare_for : Answers → Notify → Option Subscriber → Option Notify
prepare_for a obj none = some (record obj { state = error })
prepare_for a obj (some sub) =
    make_buffer 2 0 a.malloc 1024 (notify_message obj.target sub (a.vars sub.service)) obj

unfoldable pub upnp_event_prepare : Answers → Notify → Option Notify
upnp_event_prepare a obj = prepare_for a obj obj.sub

-- The bytes that are sent, and the notification.
abbrev pub count_sent : Notify → ℕ → Bytes × Notify
count_sent obj i =
    let obj' = record obj { sent = obj.sent + i } in
    (
      take i (drop obj.sent obj.buffer),
      if obj.sent + i == obj.tosend then (record obj' { state = waiting_for_response }) else obj',
    )

-- `send` takes at most the bytes that it is given.
abbrev pub at_most : ℕ → ℕ → ℕ
at_most rest i = if leb i rest then i else rest

abbrev pub send_answer : Notify → Transferred → Bytes × Notify
send_answer obj (moved i) = count_sent obj (at_most (obj.tosend - obj.sent) i)
send_answer obj again = count_sent obj 0
send_answer obj failed = ([], record obj { state = error })

unfoldable pub upnp_event_send : Answers → Notify → Bytes × Notify
upnp_event_send a obj = send_answer obj a.send

abbrev pub count_seq : Option Subscriber → Option Subscriber
count_seq none = none
count_seq (some sub) = some (record sub { seq = (sub.seq + 1) % 2 ^ 32 })

-- What is received is written over the buffer, which is not looked at again.
abbrev pub recv_answer : Notify → Transferred → Notify
recv_answer obj (moved n) = record obj { state = finished; sub = count_seq obj.sub }
recv_answer obj again = obj
recv_answer obj failed = record obj { state = error }

unfoldable pub upnp_event_recv : Answers → Notify → Notify
upnp_event_recv a obj = recv_answer obj a.recv

abbrev pub send_prepared : Answers → Notify → NotifyState → Bytes × Notify
send_prepared a obj sending = upnp_event_send a obj
send_prepared a obj created = ([], obj)
send_prepared a obj connecting = ([], obj)
send_prepared a obj waiting_for_response = ([], obj)
send_prepared a obj finished = ([], obj)
send_prepared a obj error = ([], obj)

abbrev pub after_connect : Answers → Notify → Option ℕ → Option (Bytes × Notify)
after_connect a obj none = some ([], record obj { state = error })
after_connect a obj (some zero) = (do
  obj' ← upnp_event_prepare a obj
  some (send_prepared a obj' obj'.state))
after_connect a obj (some (suc e)) = some ([], record obj { state = error })

abbrev pub process_in : Answers → Notify → NotifyState → Option (Bytes × Notify)
process_in a obj connecting = after_connect a obj a.so_error
process_in a obj sending = some (upnp_event_send a obj)
process_in a obj waiting_for_response = some ([], upnp_event_recv a obj)
process_in a obj finished = some ([], record obj { is_open = false })
process_in a obj created = some ([], obj)
process_in a obj error = some ([], obj)

unfoldable pub upnp_event_process_notify : Answers → Notify → Option (Bytes × Notify)
upnp_event_process_notify a obj = process_in a obj obj.state
