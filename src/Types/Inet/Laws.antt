-- ===== src/Types/Inet/Laws.antt =====
-- About `INET` of opengauss-protocol/src/types/mod.rs.
use rust_opengauss.Prelude.{ℕ, ◌≤◌, ◌≡◌, refl, [], ◌∷◌, arith, Bytes, length, le→ltb, length-take}
use rust_opengauss.Outcome.{Outcome, ok, err, panicked}
use rust_opengauss.Read.{read_u8, read_exact, is_empty}
use rust_opengauss.Read.Laws.{read_exact_all}
use rust_opengauss.Write.Laws.{Writes, put-Writes}
use rust_opengauss.Types.Inet.{
  IpAddr, v4, v6, Inet, inet_to_sql, read_v4, read_v6, read_addr, read_inet, inet_from_sql,
}

-- The octets are as many as the family has, and the netmask is no longer than they are.
abbrev pub IsInet : IpAddr → ℕ → Type 0
IsInet (v4 octets) netmask = (length octets ≡ 4) × (netmask ≤ 32)
IsInet (v6 octets) netmask = (length octets ≡ 16) × (netmask ≤ 128)

-- An address with a netmask that fits its family is appended to the buffer in a form that is read
-- back.
pub inet_roundtrip :
    (addr : IpAddr) (netmask : ℕ)
    → IsInet addr netmask
    → (s : Bytes) × Writes (inet_to_sql addr netmask) tt s
      × (inet_from_sql s ≡ ok (record { addr = addr; netmask = netmask }))
unfolding inet_to_sql inet_from_sql read_inet read_addr read_v4 read_v6 read_u8 is_empty
inet_roundtrip (v4 octets) netmask h =
    (_, put-Writes _, rw (le→ltb 32 netmask h.1, read_exact_all 4 octets h.0))
inet_roundtrip (v6 octets) netmask h =
    (_, put-Writes _, rw (le→ltb 128 netmask h.1, read_exact_all 16 octets h.0))

read_exact-length : (n : ℕ) (s t rest : Bytes) → read_exact n s ≡ ok (t, rest) → length t ≡ n
unfolding read_exact
read_exact-length n s t rest e = ground (arith, length-take n s)

read_v4-IsInet : (m l : ℕ) (s rest : Bytes) (a : IpAddr) → read_v4 m l s ≡ ok (a, rest) → IsInet a m
unfolding read_v4
read_v4-IsInet m l s rest (v4 octets) e = grind (arith, read_exact-length 4 s octets rest)
read_v4-IsInet m l s rest (v6 octets) e = grind arith

read_v6-IsInet : (m l : ℕ) (s rest : Bytes) (a : IpAddr) → read_v6 m l s ≡ ok (a, rest) → IsInet a m
unfolding read_v6
read_v6-IsInet m l s rest (v4 octets) e = grind arith
read_v6-IsInet m l s rest (v6 octets) e = grind (arith, read_exact-length 16 s octets rest)

read_addr-IsInet :
    (f m l : ℕ) (s rest : Bytes) (a : IpAddr) → read_addr f m l s ≡ ok (a, rest) → IsInet a m
unfolding read_addr
read_addr-IsInet f m l s rest a e =
    ground (arith, read_v4-IsInet m l s rest a, read_v6-IsInet m l s rest a)

-- Whatever bytes are read as a network address, its octets are as many as its family has, and its
-- netmask is no longer than they are.
pub inet_from_sql-IsInet : (s : Bytes) (i : Inet) → inet_from_sql s ≡ ok i → IsInet i.addr i.netmask
unfolding inet_from_sql read_inet read_u8
inet_from_sql-IsInet [] i e = cc
inet_from_sql-IsInet (f ∷ []) i e = cc
inet_from_sql-IsInet (f ∷ m ∷ []) i e = cc
inet_from_sql-IsInet (f ∷ m ∷ z ∷ []) i e = cc
inet_from_sql-IsInet (f ∷ m ∷ z ∷ l ∷ s) i e = by_addr (read_addr f m l s) refl
  where
    by_addr : (r : Outcome (IpAddr × Bytes)) → read_addr f m l s ≡ r → IsInet i.addr i.netmask
    by_addr (ok (a, rest)) h = ground (arith, h, read_addr-IsInet f m l s rest a h)
    by_addr (err x) h = ground (arith, h)
    by_addr panicked h = ground (arith, h)
