-- ===== src/Types/Inet.antt =====
-- `INET` of opengauss-protocol/src/types/mod.rs.
pub mod Laws
use rust_opengauss.Prelude.{ℕ, Bool, not, [], ◌∷◌, ◌++◌, Bytes, ltb, ◌==◌, if◌then◌else◌}
use rust_opengauss.Outcome.{Outcome, ok, err, other, ◌>>=◌ as bind}
use rust_opengauss.Read.{Reader, ◌>>=◌, pure, fail, read_u8, read_exact, is_empty}
use rust_opengauss.Write.{Writer, put}

abbrev pub pgsql_af_inet : ℕ
pgsql_af_inet = 2

abbrev pub pgsql_af_inet6 : ℕ
pgsql_af_inet6 = 3

-- `std::net::IpAddr`, by the octets
pub data IpAddr : Type 0 where
  v4 v6 : Bytes → IpAddr

pub record Inet : Type 0 where
  pub addr : IpAddr
  pub netmask : ℕ

-- the family, and the address behind its length
abbrev family_of : IpAddr → ℕ
family_of (v4 octets) = pgsql_af_inet
family_of (v6 octets) = pgsql_af_inet6

abbrev sized_octets : IpAddr → Bytes
sized_octets (v4 octets) = 4 ∷ octets
sized_octets (v6 octets) = 16 ∷ octets

unfoldable pub inet_to_sql : IpAddr → ℕ → Writer (Unit {0})
inet_to_sql addr netmask = put (family_of addr ∷ netmask ∷ 0 ∷ sized_octets addr)

unfoldable pub read_v4 : (netmask len : ℕ) → Reader IpAddr
read_v4 netmask len =
    if ltb 32 netmask
    then fail (other "invalid IPv4 netmask")
    else if not (len == 4)
    then fail (other "invalid IPv4 address length")
    else (do addr ← read_exact 4; pure (v4 addr))

unfoldable pub read_v6 : (netmask len : ℕ) → Reader IpAddr
read_v6 netmask len =
    if ltb 128 netmask
    then fail (other "invalid IPv6 netmask")
    else if not (len == 16)
    then fail (other "invalid IPv6 address length")
    else (do addr ← read_exact 16; pure (v6 addr))

-- the `match` on the family
unfoldable pub read_addr : (family netmask len : ℕ) → Reader IpAddr
read_addr family netmask len =
    if family == pgsql_af_inet
    then read_v4 netmask len
    else if family == pgsql_af_inet6
    then read_v6 netmask len
    else fail (other "invalid IP family")

unfoldable pub read_inet : Reader Inet
read_inet = do
  family ← read_u8
  netmask ← read_u8
  is_cidr ← read_u8
  len ← read_u8
  addr ← read_addr family netmask len
  pure (record { addr = addr; netmask = netmask })

unfoldable pub inet_from_sql : Bytes → Outcome Inet
inet_from_sql buf =
    bind (read_inet buf)
      λ p. if not (is_empty p.1) then err (other "invalid buffer size") else ok p.0
