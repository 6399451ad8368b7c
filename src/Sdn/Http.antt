-- ===== src/Sdn/Http.antt =====
-- miniupnpd/sdn/onosclient.c: the requests that are written to the controller, and the status that is
-- read from its answer. `%u` and `%d` print decimal digits.
pub mod Host
use miniupnpd_sdn.Base.{
  ℕ, zero, suc, ◌+◌, ◌*◌, ◌-◌, ◌/◌, ◌%◌, ◌^◌, Bool, true, false, ◌&&◌, ◌||◌, List, [], ◌∷◌, ◌++◌,
  Option, none, some, Bytes, codes, ltb, leb, ◌==◌, if◌then◌else◌, length, take,
}
use miniupnpd_sdn.Base.Decimal.{decimal, digits_value}
use miniupnpd_sdn.Base.Ints.{ℤ, pos, negsuc, int_eq}

pub data HttpResponseCode : Type 0 where
  ok_200 badrequest_400 notfound_404 methodnotallowed_405 : HttpResponseCode
  conflict_409 internalservererror_500 unknownerrorcode : HttpResponseCode

-- The texts behind `uri.ptr`, of the body and of the whole message.
pub record HttpMessage : Type 0 where
  pub uri : Bytes
  pub body : Bytes
  pub message : Bytes

-- `peer.ip` and `peer.port` in the host's byte order; `sent` is what mg_printf wrote, newest first.
pub record Connection : Type 0 where
  pub peer_ip : ℕ
  pub peer_port : ℕ
  pub is_closing : Bool
  pub sent : List Bytes

pub record HttpOptions : Type 0 where
  pub req_url : Bytes
  pub host : Bytes

abbrev crlf : Bytes
crlf = 13 ∷ 10 ∷ []

abbrev pub max_remote_addr_len : ℕ
max_remote_addr_len = 22

-- The text that is printed, before snprintf cuts it to its buffer.
unfoldable pub host_text : ℕ → ℕ → Bytes
host_text ip port =
    decimal (ip / 2 ^ 24)
    ++ (b'.' ∷ decimal (ip / 2 ^ 16 % 256))
    ++ (b'.' ∷ decimal (ip / 2 ^ 8 % 256))
    ++ (b'.' ∷ decimal (ip % 256))
    ++ (b':' ∷ decimal port)

unfoldable pub get_http_remote_host_info : Connection → Bytes
get_http_remote_host_info c = take (max_remote_addr_len - 1) (host_text c.peer_ip c.peer_port)

unfoldable pub mg_printf : Connection → Bytes → Connection
mg_printf c text = record c { sent = text ∷ c.sent }

unfoldable pub send_get_request : Connection → HttpOptions → Connection
send_get_request c options = mg_printf c (
    codes "GET "
    ++ options.req_url
    ++ codes " HTTP/1.1"
    ++ crlf
    ++ codes "Host: "
    ++ options.host
    ++ crlf
    ++ crlf)

-- The three senders with a payload differ in the method alone.
unfoldable pub send_payload : Bytes → Connection → HttpOptions → Bytes → Connection
send_payload method c options payload = mg_printf c (
    method
    ++ options.req_url
    ++ codes " HTTP/1.1"
    ++ crlf
    ++ codes "Host: "
    ++ options.host
    ++ crlf
    ++ codes "Content-length: "
    ++ decimal (length payload)
    ++ crlf
    ++ crlf
    ++ payload
    ++ crlf)

-- `atoi` of at most three bytes, which cannot overflow.
unfoldable pub atoi : Bytes → ℤ
atoi [] = pos 0
atoi (c ∷ s) =
    let more = atoi s in
    if c == b' ' || leb 9 c && leb c 13
    then more
    else if c == b'-'
    then (let v = digits_value 0 s in if v == 0 then pos 0 else negsuc (v - 1))
    else if c == b'+'
    then pos (digits_value 0 s)
    else pos (digits_value 0 (c ∷ s))

unfoldable pub retrieve_response_status : HttpMessage → HttpResponseCode
retrieve_response_status hm =
    let status_code = atoi (take 3 hm.uri) in
    if int_eq status_code (pos 200)
    then ok_200
    else if int_eq status_code (pos 400)
    then badrequest_400
    else if int_eq status_code (pos 404)
    then notfound_404
    else if int_eq status_code (pos 405)
    then methodnotallowed_405
    else if int_eq status_code (pos 409)
    then conflict_409
    else if int_eq status_code (pos 500)
    then internalservererror_500
    else unknownerrorcode
