-- ===== src/ClientIp/Defs.antt =====
-- The extractor. `r.Header.Get` is net/http's: a request gives the value for each header name.
use nft_auth_whitelist.Prelude.{
  Option, none, some, List, [], ◌∷◌, ◌++◌, reverse, Bool, true, false, not, ◌&&◌, ◌||◌,
  if◌then◌else◌,
}
use nft_auth_whitelist.Text.{Text, text, text_eq, trim, has_byte, lower, split}
use nft_auth_whitelist.Net.Ip.{
  Ip, AddressSyntax, parse_ip, is_unspecified, is_loopback, is_private, is_multicast,
  is_link_local_unicast, is_link_local_multicast,
}
use nft_auth_whitelist.Net.Cidr.{IpNet, parse_cidr, contains}
use nft_auth_whitelist.Net.{split_host_port}

-- `headers` is none for a nil slice.
pub record Config : Type 0 where
  pub trusted_proxy_cidrs : List Text
  pub headers : Option (List Text)

pub record Result : Type 0 where
  pub client_ip : Option Ip
  pub source : Text
  pub remote : Option Ip

pub record Extractor : Type 0 where
  pub trusted : List IpNet
  pub headers : List Text

pub record Request : Type 0 where
  pub remote_addr : Text
  pub header : Text → Text

abbrev pub default_headers : List Text
default_headers = text "CF-Connecting-IP" ∷ text "X-Real-IP" ∷ text "X-Forwarded-For" ∷ []

abbrev pub is_empty : Text → Bool
is_empty [] = true
is_empty (c ∷ s) = false

abbrev with_bits : Text → Text
with_bits s =
    if has_byte b'/' s then s else if has_byte b':' s then s ++ text "/128" else s ++ text "/32"

abbrev append_some : Option IpNet → List IpNet → List IpNet
append_some none out = out
append_some (some n) out = n ∷ out

unfoldable pub normalize_headers : List Text → List Text
normalize_headers [] = []
normalize_headers (h ∷ rest) =
    let out = normalize_headers rest in if is_empty (trim h) then out else trim h ∷ out

abbrev or_default : Option (List Text) → List Text
or_default none = default_headers
or_default (some headers) = headers

unfoldable pub peer_trusted : List IpNet → Ip → Bool
peer_trusted [] ip = false
peer_trusted (n ∷ rest) ip = contains n ip || peer_trusted rest ip

unfoldable pub source_for_header : Text → Text
source_for_header header =
    if text_eq (lower header) (text "cf-connecting-ip")
    then text "cf-connecting-ip"
    else if text_eq (lower header) (text "x-real-ip")
    then text "x-real-ip"
    else if text_eq (lower header) (text "x-forwarded-for")
    then text "x-forwarded-for"
    else lower (trim header)

unfoldable pub usable : Ip → Bool
usable ip =
    not (is_unspecified ip)
    && (not (is_loopback ip)
        && (not (is_private ip)
            && (not (is_multicast ip)
                && (not (is_link_local_unicast ip) && not (is_link_local_multicast ip)))))

-- `usableHeaderIP`, and nil for an address that is not usable.
abbrev pub usable_header_ip : Option Ip → Option Ip
usable_header_ip none = none
usable_header_ip (some ip) = if usable ip then some ip else none

module _ (syn : AddressSyntax) where
  unfoldable pub parse_trusted : List Text → List IpNet
  parse_trusted [] = []
  parse_trusted (s ∷ rest) =
      let out = parse_trusted rest in
      if is_empty (trim s) then out else append_some (parse_cidr syn (with_bits (trim s))) out

  unfoldable pub new : Config → Extractor
  unfolding parse_trusted normalize_headers
  new c = record {
    trusted = parse_trusted c.trusted_proxy_cidrs;
    headers = normalize_headers (or_default c.headers);
  }

  unfoldable pub remote_ip : Text → Option Ip
  remote_ip remote_addr = elim (split_host_port remote_addr) [
    | none ↦ parse_ip syn (trim remote_addr)
    | some host ↦ parse_ip syn (trim host)
  ]

  unfoldable pub parse_single_ip : Text → Option Ip
  parse_single_ip value = usable_header_ip (parse_ip syn (trim value))

  -- One part of the header: what decides the result, if the part does.
  unfoldable pub part_decides : List IpNet → Option Ip → Option Ip
  unfolding peer_trusted
  part_decides trusted none = none
  part_decides trusted (some ip) = if peer_trusted trusted ip then none else some ip

  -- The loop, on the parts from the last to the first.
  unfoldable pub parts_loop : List IpNet → List Text → Option Ip
  unfolding part_decides
  parts_loop trusted [] = none
  parts_loop trusted (part ∷ rest) = elim (part_decides trusted (parse_ip syn (trim part))) [
    | none ↦ parts_loop trusted rest
    | some ip ↦ usable_header_ip (some ip)
  ]

  unfoldable pub parse_x_forwarded_for : List IpNet → Text → Option Ip
  unfolding parts_loop
  parse_x_forwarded_for trusted value = parts_loop trusted (reverse (split b',' value))

  unfoldable pub header_ip : List IpNet → Text → Text → Option Ip
  unfolding parse_x_forwarded_for parse_single_ip
  header_ip trusted source value =
      if text_eq source (text "x-forwarded-for")
      then parse_x_forwarded_for trusted value
      else parse_single_ip value

  -- The loop over the headers: the first one with a usable address.
  unfoldable pub headers_loop : List IpNet → (Text → Text) → List Text → Result → Result
  unfolding header_ip source_for_header
  headers_loop trusted value [] res = res
  headers_loop trusted value (h ∷ rest) res =
      let next = headers_loop trusted value rest res in
      if is_empty (trim (value h))
      then next
      else elim (header_ip trusted (source_for_header h) (value h)) [
        | none ↦ next
        | some ip ↦ record res { client_ip = some ip; source = source_for_header h }
      ]

  unfoldable pub extract_from : Extractor → (Text → Text) → Option Ip → Result
  unfolding headers_loop peer_trusted
  extract_from e value none = record {
    client_ip = none;
    source = text "remote_addr";
    remote = none;
  }
  extract_from e value (some ip) =
      let res : Result = record {
        client_ip = some ip;
        source = text "remote_addr";
        remote = some ip;
      } in
      if peer_trusted e.trusted ip then headers_loop e.trusted value e.headers res else res

  unfoldable pub extract : Extractor → Request → Result
  unfolding extract_from remote_ip
  extract e r = extract_from e r.header (remote_ip r.remote_addr)
