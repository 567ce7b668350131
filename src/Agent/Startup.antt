-- ===== src/Agent/Startup.antt =====
-- What src/agent/main_agent.cpp does before the server runs, but for the logger: the addresses of
-- the machine, the roots of the configuration, and the announcements at the gateways.
pub mod Ips
use drlog_search.Base.{
  ℕ, Bool, true, false, not, ◌||◌, ◌&&◌, Option, none, some, List, [], ◌∷◌, ◌++◌, Bytes, codes,
  if◌then◌else◌, is_empty, map, eqb,
}
use drlog_search.Text.{find}
use drlog_search.Json.{Json}
use drlog_search.Http.{Outcome, called, returned, stuck, ◌>>=◌, Client, Reply}
use drlog_search.Util.Url.{url_encode}
use drlog_search.Util.Split.{split}
use drlog_search.Indexer.Info.{RootPath}
use drlog_search.Indexer.Files.{begins_with}
use drlog_search.Indexer.Scan.{add_root}
use drlog_search.Gateway.Agents.{to_string}

-- A `sockaddr` by its family, with the text of its address.
pub data Sockaddr : Type 0 where
  inet inet6 : Bytes → Sockaddr
  other_family : Sockaddr

-- An entry of `getifaddrs`; an interface without an address has a null pointer.
pub record Ifaddrs : Type 0 where
  pub ifa_name : Bytes
  pub ifa_addr : Option Sockaddr

unfoldable pub ip_matches_prefix : Bytes → List Bytes → Bool
unfolding begins_with
ip_matches_prefix ip [] = false
ip_matches_prefix ip (prefix ∷ prefixes) =
    begins_with (find ip prefix) || ip_matches_prefix ip prefixes

-- `std::find` in the names.
unfoldable pub has_name : Bytes → List Bytes → Bool
has_name name [] = false
has_name name (interface_name ∷ interfaces) = eqb interface_name name || has_name name interfaces

unfoldable pub pushed : Bytes → List Bytes → Bytes → List Bytes
unfolding ip_matches_prefix
pushed ip_prefixes prefixes ip =
    if not (is_empty ip_prefixes) && not (ip_matches_prefix ip prefixes) then [] else ip ∷ []

-- The address of an interface, if it is pushed; `stuck` is the access to a null pointer.
unfoldable pub address_of : Bytes → List Bytes → Bool → Option Sockaddr → Outcome (List Bytes)
unfolding pushed
address_of ip_prefixes prefixes ipv4_only none = stuck
address_of ip_prefixes prefixes ipv4_only (some (inet ip)) =
    returned (if ipv4_only then pushed ip_prefixes prefixes ip else [])
address_of ip_prefixes prefixes ipv4_only (some (inet6 ip)) =
    returned (if ipv4_only then [] else pushed ip_prefixes prefixes ip)
address_of ip_prefixes prefixes ipv4_only (some other_family) = returned []

unfoldable pub interface_loop :
    Bytes → List Bytes → Bytes → List Bytes → Bool → List Ifaddrs → Outcome (List Bytes)
unfolding address_of has_name
interface_loop interface_names interfaces ip_prefixes prefixes ipv4_only [] = returned []
interface_loop interface_names interfaces ip_prefixes prefixes ipv4_only (ifa ∷ ifap) =
    let later = interface_loop interface_names interfaces ip_prefixes prefixes ipv4_only ifap in
    if not (is_empty interface_names) && not (has_name ifa.ifa_name interfaces)
    then later
    else (address_of ip_prefixes prefixes ipv4_only ifa.ifa_addr >>= λ ips.
        later >>= λ rest. returned (ips ++ rest))

unfoldable pub interface_ips : Bytes → Bytes → Bool → Option (List Ifaddrs) → Outcome (List Bytes)
unfolding interface_loop split
interface_ips interface_names ip_prefixes ipv4_only none = returned []
interface_ips interface_names ip_prefixes ipv4_only (some ifap) =
    interface_loop interface_names (split interface_names b'|') ip_prefixes (split ip_prefixes b'|')
      ipv4_only ifap

-- `getifaddrs` gives the interfaces, or `none` for -1.
unfoldable pub get_local_ips : Option (List Ifaddrs) → Bytes → Bytes → Bool → Outcome (List Bytes)
unfolding interface_ips
get_local_ips getifaddrs interface_names ip_prefixes ipv4_only =
    if is_empty interface_names && is_empty ip_prefixes
    then returned []
    else interface_ips interface_names ip_prefixes ipv4_only getifaddrs

unfoldable pub first_ip : ℕ → List Bytes → Bytes
first_ip port [] = []
first_ip port (ip ∷ ips) = ip ++ codes ":" ++ to_string port

-- The address that the agent announces; the program ends if it is empty.
unfoldable pub agent_address : Option (List Ifaddrs) → Bytes → Bytes → ℕ → Bytes → Outcome Bytes
unfolding get_local_ips first_ip
agent_address getifaddrs interface_names ip_prefixes port registry_agent_address =
    if is_empty registry_agent_address
    then (get_local_ips getifaddrs interface_names ip_prefixes true >>= λ local_ips.
        returned (first_ip port local_ips))
    else returned registry_agent_address

unfoldable pub announce_url : Bytes → Bytes → Bytes
unfolding url_encode
announce_url address registry_agent_address =
    codes "http://"
    ++ address
    ++ codes "/agent/announce?agent_addr="
    ++ url_encode registry_agent_address

-- A round of `run_announce_task`, with what the gateways reply; `none` is an exception.
unfoldable pub announce_round : Client → List Bytes → Bytes → List (Option Reply)
unfolding announce_url
announce_round client registry_address registry_agent_address =
    map (λ address. client.get (announce_url address registry_agent_address)) registry_address

module _ (json : Json) where
  open json use {Value}

  -- `if (p.contains(key)) field = p[key].get<std::string>()`
  unfoldable pub read_field : Bytes → Value → Bytes → Outcome Bytes
  read_field key p field = elim (json.member key p) [
    | none ↦ returned field
    | some v ↦ called (json.get_string v)
  ]

  unfoldable pub read_max_days : Option Value → Outcome ℕ
  read_max_days none = returned 30
  read_max_days (some v) = called (json.get_int v)

  unfoldable pub read_root : Value → Option Value → List RootPath → Outcome (List RootPath)
  unfolding read_field read_max_days add_root
  read_root p none roots = returned roots
  read_root p (some path) roots = do
    root ← called (json.get_string path)
    max_days ← read_max_days (json.member (codes "maxdays") p)
    prefix_pattern ← read_field (codes "prefixpattern") p []
    name_pattern ← read_field (codes "namepattern") p (codes ".*")
    time_format_pattern ← read_field (codes "time_format_pattern") p []
    path_pattern ← read_field (codes "pathpattern") p []
    returned
        (add_root root name_pattern time_format_pattern path_pattern prefix_pattern max_days roots)

  unfoldable pub add_roots : List Value → List RootPath → Outcome (List RootPath)
  unfolding read_root
  add_roots [] roots = returned roots
  add_roots (p ∷ paths) roots =
      read_root p (json.member (codes "path") p) roots >>= λ added. add_roots paths added

  unfoldable pub configured : Option Value → Outcome (List RootPath)
  unfolding add_roots
  configured none = returned []
  configured (some paths) =
      if json.is_array paths then add_roots (json.elements paths) [] else returned []

  -- The roots of the indexer, from the configuration.
  unfoldable pub load_roots : Value → Outcome (List RootPath)
  unfolding configured
  load_roots cfg = configured (json.member (codes "paths") cfg)
