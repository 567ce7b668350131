-- ===== src/Tests/Startup.antt =====
-- The start of an agent (src/agent/main_agent.cpp) on small inputs.
use drlog_search.Base.{true, none, some, List, [], ◌∷◌, Bytes, codes, ◌≡◌, refl, ◌↔◌, All, ◌≢◌, eqb}
use drlog_search.Http.{returned, stuck}
use drlog_search.Agent.Startup.{Ifaddrs, inet, inet6, get_local_ips, has_name}
use drlog_search.Agent.Startup.Ips.{OneOf, Offers, get_local_ips_iff}

abbrev loopback : Ifaddrs
loopback = record { ifa_name = codes "lo"; ifa_addr = some (inet (codes "127.0.0.1")) }

abbrev ethernet : Ifaddrs
ethernet = record { ifa_name = codes "eth0"; ifa_addr = some (inet (codes "10.0.0.7")) }

abbrev ethernet6 : Ifaddrs
ethernet6 = record { ifa_name = codes "eth0"; ifa_addr = some (inet6 (codes "fe80::1")) }

abbrev tunnel : Ifaddrs
tunnel = record { ifa_name = codes "tun0"; ifa_addr = none }

abbrev interfaces : List Ifaddrs
interfaces = loopback ∷ ethernet ∷ ethernet6 ∷ []

interfaces-addressed : All (λ ifa. ifa.ifa_addr ≢ none) interfaces
interfaces-addressed = ((λ e. cc), ((λ e. cc), ((λ e. cc), tt)))

get_local_ips_iff_example :
    (ips : List Bytes) × (get_local_ips (some interfaces) (codes "eth0|eth1") (codes "10.") true
      ≡ returned ips)
    × ((ip : Bytes)
        → OneOf (λ x. x ≡ ip) ips ↔ OneOf (Offers (codes "eth0|eth1") (codes "10.") ip) interfaces)
get_local_ips_iff_example =
    get_local_ips_iff (codes "eth0|eth1") (codes "10.") interfaces interfaces-addressed refl

finds_ethernet :
    get_local_ips (some interfaces) (codes "eth0") [] true ≡ returned (codes "10.0.0.7" ∷ [])
unfolding get_local_ips has_name eqb
finds_ethernet = refl

-- An interface without an address is a null pointer.
reads_null : get_local_ips (some (tunnel ∷ [])) (codes "tun0") [] true ≡ stuck
unfolding get_local_ips has_name eqb
reads_null = refl
