-- ===== src/Events/Callback.antt =====
-- miniupnpd/upnpevents.c: upnp_event_notify_connect takes the address, the port and the path from the
-- callback's URL. A pointer is the list of the bytes from it on, up to the end of the string's memory.
use miniupnpd_sdn.Base.{
  ℕ, zero, suc, ◌≤◌, ◌<◌, ◌≡◌, refl, ap, ◌∙◌, Bool, true, false, ◌||◌, [], ◌∷◌, ◌++◌, Option, none,
  some, Bytes, codes, ltb, ◌==◌, if◌then◌else◌, length, arith, append_assoc,
}
use miniupnpd_sdn.Base.Options.{◌>>=◌}
use miniupnpd_sdn.Base.Decimal.{
  decimal, atoi_ushort, Lacks, Lacks-decimal, atoi_ushort-decimal_before, length-decimal,
}

pub record Target : Type 0 where
  pub ipv6 : Bool
  pub addrstr : Bytes
  pub port : ℕ
  pub portstr : Bytes
  pub path : Bytes

-- `while(!stop(*p) && i < sizeof - 1) str[i++] = *(p++);`, with `room` for the bytes, none where it
-- reads behind the memory.
unfoldable pub copy_until : (ℕ → Bool) → ℕ → Bytes → Option (Bytes × Bytes)
copy_until stop room [] = none
copy_until stop zero (c ∷ p) = some ([], c ∷ p)
copy_until stop (suc room) (c ∷ p) =
    let more = copy_until stop room p in
    if stop c then some ([], c ∷ p) else (do r ← more; some (c ∷ r.0, r.1))

-- `while(*p != '\0' && *p != '/')`, with `room` left in portstr.
unfoldable pub copy_port : ℕ → Bytes → Option (Bytes × Bytes)
copy_port room [] = none
copy_port zero (c ∷ p) =
    let more = copy_port zero p in if c == 0 || c == b'/' then some ([], c ∷ p) else more
copy_port (suc room) (c ∷ p) =
    let more = copy_port room p in
    if c == 0 || c == b'/' then some ([], c ∷ p) else (do r ← more; some (c ∷ r.0, r.1))

abbrev ends_host : ℕ → Bool
ends_host c = c == b'/' || c == b':'

-- Behind the host.
unfoldable pub port_and_path : Bool → Bytes → Bytes → Option Target
port_and_path ipv6 addrstr [] = none
port_and_path ipv6 addrstr (c ∷ p) =
    let with_port = (do
      r ← copy_port 6 p
      some (record {
        ipv6 = ipv6;
        addrstr = addrstr;
        port = atoi_ushort p;
        portstr = b':' ∷ r.0;
        path = r.1;
      })) in
    if c == b':'
    then with_port
    else some (record { ipv6 = ipv6; addrstr = addrstr; port = 80; portstr = []; path = c ∷ p })

-- `if(*p == ']') p++;`, and the bracket where there is room for it.
abbrev close_bracket : Bytes → Option Bytes
close_bracket [] = none
close_bracket (c ∷ p) = some (if c == b']' then p else c ∷ p)

abbrev add_bracket : Bytes → Bytes
add_bracket addrstr = if ltb (length addrstr) 47 then addrstr ++ (b']' ∷ []) else addrstr

abbrev host_v6 : Bytes → Option Target
host_v6 p = (do
  r ← copy_until (λ c. c == b']') 46 p
  q ← close_bracket r.1
  port_and_path true (add_bracket (b'[' ∷ r.0)) q)

abbrev host_v4 : Bytes → Option Target
host_v4 p = (do r ← copy_until ends_host 47 p; port_and_path false r.0 r.1)

abbrev after_scheme : Bytes → Option Target
after_scheme [] = none
after_scheme (c ∷ p) = if c == b'[' then host_v6 p else host_v4 (c ∷ p)

-- `p += 7;`
abbrev skip : ℕ → Bytes → Bytes
skip zero p = p
skip (suc n) [] = []
skip (suc n) (c ∷ p) = skip n p

-- The callback's memory is the string with its terminator.
unfoldable pub read_callback : Bytes → Option Target
read_callback callback = after_scheme (skip 7 (callback ++ (0 ∷ [])))

-- A host: no slash, no colon, no bracket in front, and it fits.
pub record IsHost (host : Bytes) : Type 0 where
  pub no_slash : Lacks b'/' host
  pub no_colon : Lacks b':' host
  pub no_bracket : Lacks b'[' host
  pub fits : length host < 47

copy_until-host :
    (room : ℕ) (host : Bytes) (c : ℕ) (p : Bytes)
    → Lacks b'/' host
    → Lacks b':' host
    → length host < room
    → ends_host c ≡ true
    → copy_until ends_host room (host ++ (c ∷ p)) ≡ some (host, c ∷ p)
unfolding copy_until
copy_until-host zero host c p a b h e = absurd (omega arith)
copy_until-host (suc room) [] c p a b h e = rw e refl
copy_until-host (suc room) (x ∷ host) c p a b h e =
    rw (a.0, b.0, copy_until-host room host c p a.1 b.1 (omega arith) e) refl

-- Without one of these bytes the loop reads behind the terminator.
copy_until-behind :
    (room : ℕ) (host : Bytes)
    → Lacks b'/' host
    → Lacks b':' host
    → length host < room
    → copy_until ends_host room (host ++ (0 ∷ [])) ≡ none
unfolding copy_until
copy_until-behind zero host a b h = absurd (omega arith)
copy_until-behind (suc room) [] a b h = refl
copy_until-behind (suc room) (x ∷ host) a b h =
    rw (a.0, b.0, copy_until-behind room host a.1 b.1 (omega arith)) refl

copy_port-port :
    (room : ℕ) (s : Bytes) (c : ℕ) (p : Bytes)
    → Lacks 0 s
    → Lacks b'/' s
    → length s ≤ room
    → (c == 0 || c == b'/') ≡ true
    → copy_port room (s ++ (c ∷ p)) ≡ some (s, c ∷ p)
unfolding copy_port
copy_port-port zero [] c p a b h e = rw e refl
copy_port-port (suc room) [] c p a b h e = rw e refl
copy_port-port zero (x ∷ s) c p a b h e = absurd (omega arith)
copy_port-port (suc room) (x ∷ s) c p a b h e =
    rw (a.0, b.0, copy_port-port room s c p a.1 b.1 (omega arith) e) refl

after_scheme-host :
    (host : Bytes) (c : ℕ) (p : Bytes)
    → Lacks b'[' host
    → (c == b'[') ≡ false
    → after_scheme (host ++ (c ∷ p)) ≡ host_v4 (host ++ (c ∷ p))
after_scheme-host [] c p h e = rw e refl
after_scheme-host (x ∷ host) c p h e = rw h.0 refl

-- The path with its terminator starts with a slash or is empty.
abbrev pub IsPath : Bytes → Type 0
IsPath [] = Unit {0}
IsPath (c ∷ path) = c ≡ b'/'

-- `http://` and the host, then what follows.
abbrev pub url : Bytes → Bytes → Bytes
url host rest = codes "http://" ++ (host ++ rest)

read_url :
    (host : Bytes) (c : ℕ) (p : Bytes)
    → Lacks b'[' host
    → (c == b'[') ≡ false
    → read_callback (url host (c ∷ p)) ≡ host_v4 (host ++ (c ∷ (p ++ (0 ∷ []))))
unfolding read_callback
read_url host c p h e =
    ap after_scheme (append_assoc host (c ∷ p) (0 ∷ []))
    ∙ after_scheme-host host c (p ++ (0 ∷ [])) h e

port_fits : (port : ℕ) → port < 65536 → length (decimal port) ≤ 6
port_fits port h = omega (arith, length-decimal 4 port (omega arith))

-- The path behind a port.
port_of_path :
    (host : Bytes) (port : ℕ) (path : Bytes)
    → port < 65536
    → IsPath path
    → port_and_path false host (b':' ∷ (decimal port ++ (path ++ (0 ∷ []))))
      ≡ some (record {
        ipv6 = false;
        addrstr = host;
        port = port;
        portstr = b':' ∷ decimal port;
        path = path ++ (0 ∷ []);
      })
unfolding port_and_path
port_of_path host port [] h e =
    rw
      (
        copy_port-port 6 (decimal port) 0 [] (Lacks-decimal 0 port refl)
            (Lacks-decimal b'/' port refl) (port_fits port h) refl,
        atoi_ushort-decimal_before port 0 [] h refl,
      )
      refl
port_of_path host port (c ∷ path) h e =
    rw
      (
        e,
        copy_port-port 6 (decimal port) b'/' (path ++ (0 ∷ [])) (Lacks-decimal 0 port refl)
            (Lacks-decimal b'/' port refl) (port_fits port h) refl,
        atoi_ushort-decimal_before port b'/' (path ++ (0 ∷ [])) h refl,
      )
      refl

-- Of a callback's URL, `http://` and a host of at most 46 bytes that is not an IPv6 address in brackets,
-- the code takes the host, the port, 80 where none is written, and the path, which ends at the
-- terminator: behind a port below 65536 it is empty or starts with a slash, and without a port it is
-- all from the first slash on. For a URL that ends behind the host it reads behind the terminator.
pub read_callback-url :
    (host : Bytes) (port : ℕ) (path rest : Bytes)
    → IsHost host
    → port < 65536
    → IsPath path
    → (read_callback (url host (b':' ∷ (decimal port ++ path)))
        ≡ some (record {
          ipv6 = false;
          addrstr = host;
          port = port;
          portstr = b':' ∷ decimal port;
          path = path ++ (0 ∷ []);
        }))
      × (read_callback (url host (b'/' ∷ rest))
          ≡ some (record {
            ipv6 = false;
            addrstr = host;
            port = 80;
            portstr = [];
            path = b'/' ∷ (rest ++ (0 ∷ []));
          }))
      × (read_callback (url host []) ≡ none)
unfolding read_callback port_and_path
read_callback-url host port path rest h f e =
    let tail = append_assoc (decimal port) path (0 ∷ []) in
    (
      read_url host b':' (decimal port ++ path) h.no_bracket refl
          ∙ rw
              (
                tail,
                copy_until-host 47 host b':' (decimal port ++ (path ++ (0 ∷ []))) h.no_slash
                    h.no_colon h.fits refl,
              )
              (port_of_path host port path f e),
      read_url host b'/' rest h.no_bracket refl
          ∙ rw (copy_until-host 47 host b'/' (rest ++ (0 ∷ [])) h.no_slash h.no_colon h.fits refl)
              refl,
      ap after_scheme (append_assoc host [] (0 ∷ []))
          ∙ after_scheme-host host 0 [] h.no_bracket refl
          ∙ rw (copy_until-behind 47 host h.no_slash h.no_colon h.fits) refl,
    )
