-- ===== src/Permissions/Line/Sound.antt =====
-- miniupnpd/upnppermissions.c: what read_permission_line accepts is a rule with ordered ports.
use miniupnpd_sdn.Base.{ℕ, ◌^◌, ◌≤◌, ◌<◌, ◌≡◌, refl, Bool, Option, Bytes, arith}
use miniupnpd_sdn.Permissions.{UpnpPerm, IsRule}
use miniupnpd_sdn.Permissions.Line.{
  Outcome, done, rejected, fault, ◌>>=◌, skip_spaces, port_value, read_ports, read_address,
  read_type, read_permission_line, next,
}

pub bind-eq-done {ℓ κ} :
    {A : Type ℓ} {B : Type κ} (m : Outcome A) (f : A → Outcome B) {b : B}
    → (m >>= f) ≡ done b
    → (a : A) × (m ≡ done a) × (f a ≡ done b)
bind-eq-done (done a) f h = (a, refl, h)
bind-eq-done rejected f h = cc
bind-eq-done fault f h = cc

port_value-lt : (tok : Bytes) (v : ℕ) → port_value tok ≡ done v → v < 2 ^ 16
unfolding port_value
port_value-lt tok v h = ground arith

read_ports_ordered :
    (last : Bool) (p : Bytes) (lo hi : ℕ) (q : Bytes)
    → read_ports last p ≡ done (lo, hi, q)
    → (lo ≤ hi) × (hi < 2 ^ 16)
unfolding read_ports port_value
read_ports_ordered last p lo hi q h = ground arith

-- The fields that an accepted line sets.
pub record IsOrdered (perm : UpnpPerm) : Type 0 where
  pub rule : IsRule perm
  pub eports : perm.eport_min ≤ perm.eport_max
  pub iports : perm.iport_min ≤ perm.iport_max

-- A line that is accepted gives a rule whose port ranges are not empty and fit 16 bits.
pub read_permission_line-IsOrdered :
    (inet_aton : Bytes → Option ℕ) (p : Bytes) {perm : UpnpPerm}
    → read_permission_line inet_aton p ≡ done perm
    → IsOrdered perm
unfolding read_permission_line
read_permission_line-IsOrdered inet_aton p h =
    let (p1, e1, h1) = bind-eq-done (skip_spaces p) _ h in
    let (t, e2, h2) = bind-eq-done (read_type p1) _ h1 in
    let (p3, e3, h3) = bind-eq-done (skip_spaces t.1) _ h2 in
    let (e, e4, h4) = bind-eq-done (read_ports _ p3) _ h3 in
    let (p4, e5, h5) = bind-eq-done (skip_spaces (next e.2)) _ h4 in
    let (a, e6, h6) = bind-eq-done (read_address inet_aton p4) _ h5 in
    let (p5, e7, h7) = bind-eq-done (skip_spaces (next a.2)) _ h6 in
    let (i, e8, h8) = bind-eq-done (read_ports _ p5) _ h7 in
    ground (arith, read_ports_ordered _ p3 e.0 e.1 e.2 e4, read_ports_ordered _ p5 i.0 i.1 i.2 e8)
