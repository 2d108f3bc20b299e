-- ===== src/Auth/Portal/Xml.antt =====
-- src/auth/portal.rs: what is read out of the VPN configuration. A place in the document is the text
-- from there on; the loops run on fuel, one more than the document is long.
use openfortivpn_rs.Common.{
  ℕ, zero, suc, ◌+◌, ◌-◌, Bool, true, ◌||◌, Option, none, some, List, [], ◌∷◌, ◌++◌, ◌==◌,
  if◌then◌else◌, length, take, drop,
}
use openfortivpn_rs.Common.Bytes.{codes, equal}
use openfortivpn_rs.Common.Text.{is_empty}
use openfortivpn_rs.Config.Settings.{Text}
use openfortivpn_rs.Config.Parse.{starts_with, trim, trim_start, trim_end, is_whitespace}
use openfortivpn_rs.Strings.{find, strip_prefix, ends_with}
use openfortivpn_rs.Proxy.RouteTable.{Ipv4Route, VpnConfigXml}
use openfortivpn_rs.Auth.Login.Pages.{take_until, is_quote, is_ascii_whitespace}

-- `str::replace`; the first argument counts what is left of an occurrence.
unfoldable pub replace_from : ℕ → Text → Text → Text → Text
replace_from skip from to [] = []
replace_from (suc skip) from to (c ∷ cs) = replace_from skip from to cs
replace_from zero from to (c ∷ cs) =
    let behind = replace_from (length from - 1) from to cs in
    let rest = replace_from zero from to cs in
    if starts_with (c ∷ cs) from then to ++ behind else c ∷ rest

abbrev replace : Text → Text → Text → Text
replace value from to = replace_from 0 from to value

unfoldable pub xml_unescape : Text → Text
xml_unescape value =
    replace
      (replace
        (replace (replace (replace value (codes "&lt;") (codes "<")) (codes "&gt;") (codes ">"))
          (codes "&amp;") (codes "&"))
        (codes "&quot;") (34 ∷ []))
      (codes "&apos;") (39 ∷ [])

unfoldable pub xml_values_loop : ℕ → Text → Text → Text → List Text
xml_values_loop zero open_tag close rest = []
xml_values_loop (suc fuel) open_tag close rest = elim (find rest open_tag) [
  | none ↦ []
  | some start ↦
      let value_rest = drop (start + length open_tag) rest in
      elim (find value_rest close) [
        | none ↦ []
        | some end ↦
            xml_unescape (trim (take end value_rest))
            ∷ xml_values_loop fuel open_tag close (drop (end + length close) value_rest)
      ]
]

unfoldable pub xml_values : Text → Text → List Text
xml_values xml tag =
    xml_values_loop (suc (length xml)) (codes "<" ++ (tag ++ codes ">"))
      (codes "</" ++ (tag ++ codes ">")) xml

abbrev pub boundary : Text → Bool
boundary [] = true
boundary (ch ∷ rest) = is_ascii_whitespace ch || (ch == b'/' || ch == b'>')

-- What stands behind a `<`: something found and the text behind it, nothing, and where the search goes
-- on, or the end of the search.
pub data Scan : Type 0 where
  found : Text → Text → Scan
  on : Text → Scan
  stop : Scan

unfoldable pub scan_loop : ℕ → (Text → Scan) → Text → List Text
scan_loop zero at_tag rest = []
scan_loop (suc fuel) at_tag rest = elim (find rest (codes "<")) [
  | none ↦ []
  | some start ↦ elim (at_tag (drop (start + 1) rest)) [
    | found value behind ↦ value ∷ scan_loop fuel at_tag behind
    | on behind ↦ scan_loop fuel at_tag behind
    | stop ↦ []
  ]
]

abbrev tag_end : Text → Text → Text → Option ℕ → Scan
tag_end tag after_lt after_name none = stop
tag_end tag after_lt after_name (some end) =
    found (take (length tag + end) after_lt) (drop (end + 1) after_name)

abbrev named_tag : Text → Text → Option Text → Scan
named_tag tag after_lt none = on after_lt
named_tag tag after_lt (some after_name) =
    if boundary after_name
    then tag_end tag after_lt after_name (find after_name (codes ">"))
    else on after_lt

unfoldable pub start_tag : Text → Text → Scan
start_tag tag after_lt =
    if starts_with after_lt (codes "/")
      || (starts_with after_lt (codes "!") || starts_with after_lt (codes "?"))
    then on after_lt
    else named_tag tag after_lt (strip_prefix after_lt tag)

abbrev pub start_tags : Text → Text → List Text
start_tags xml tag = scan_loop (suc (length xml)) (start_tag tag) xml

abbrev body_end : Text → Text → Option ℕ → Scan
body_end close body none = stop
body_end close body (some end) = found (take end body) (drop (end + length close) body)

abbrev open_end : Text → Text → Text → Option ℕ → Scan
open_end tag after_lt after_name none = stop
open_end tag after_lt after_name (some end) =
    let body = drop (end + 1) after_name in
    let close = codes "</" ++ (tag ++ codes ">") in
    if ends_with (trim_end (60 ∷ take (length tag + (end + 1)) after_lt)) (codes "/>")
    then on body
    else body_end close body (find body close)

abbrev named_element : Text → Text → Option Text → Scan
named_element tag after_lt none = on after_lt
named_element tag after_lt (some after_name) =
    if boundary after_name
    then open_end tag after_lt after_name (find after_name (codes ">"))
    else on after_lt

unfoldable pub element_body : Text → Text → Scan
element_body tag after_lt = named_element tag after_lt (strip_prefix after_lt tag)

abbrev pub element_bodies : Text → Text → List Text
element_bodies xml tag = scan_loop (suc (length xml)) (element_body tag) xml

-- `split_once(char::is_whitespace)`, what comes behind.
unfoldable pub after_whitespace : Text → Option Text
after_whitespace [] = none
after_whitespace (c ∷ cs) =
    let rest = after_whitespace cs in if is_whitespace c then some cs else rest

abbrev ends_name : ℕ → Bool
ends_name ch = is_ascii_whitespace ch || (ch == b'=' || (ch == b'/' || ch == b'>'))

-- The value behind a sign: with its quotes, and what comes behind it.
abbrev quoted : ℕ → Text → Option ℕ → Option (Text × Text)
quoted quote value_rest none = none
quoted quote value_rest (some value_end) =
    some (take value_end value_rest, drop (value_end + 1) value_rest)

abbrev quoted_value : Text → Option (Text × Text)
quoted_value [] = none
quoted_value (quote ∷ value_rest) =
    if is_quote quote then quoted quote value_rest (find value_rest (quote ∷ [])) else none

unfoldable pub attr_loop : ℕ → Text → Text → Option Text
attr_loop zero attr rest = none
attr_loop (suc fuel) attr rest =
    let trimmed = trim_start rest in
    let name = take_until ends_name trimmed in
    let behind = trim_start (drop (length name) trimmed) in
    if starts_with trimmed (codes "/") || is_empty name
    then none
    else elim (strip_prefix behind (codes "=")) [
      | none ↦ attr_loop fuel attr behind
      | some value ↦ elim (quoted_value (trim_start value)) [
        | none ↦ none
        | some (value, rest') ↦
            let later = attr_loop fuel attr rest' in
            if equal name attr then some (xml_unescape value) else later
      ]
    ]

unfoldable pub attr_value : Text → Text → Option Text
attr_value tag attr = elim (after_whitespace (trim_start tag)) [
  | none ↦ none
  | some rest ↦ attr_loop (suc (length rest)) attr rest
]

unfoldable pub tag_attrs : List Text → Text → List Text
tag_attrs [] attr = []
tag_attrs (tag ∷ tags) attr = elim (attr_value tag attr) [
  | none ↦ tag_attrs tags attr
  | some value ↦ value ∷ tag_attrs tags attr
]

abbrev pub tag_attr_values : Text → Text → Text → List Text
tag_attr_values xml tag attr = tag_attrs (start_tags xml tag) attr

abbrev first : List Text → Option Text
first [] = none
first (value ∷ values) = some value

abbrev pub first_xml_value : Text → Text → Option Text
first_xml_value xml tag = first (xml_values xml tag)

abbrev pub first_tag_attr : Text → Text → Text → Option Text
first_tag_attr xml tag attr = first (tag_attr_values xml tag attr)

abbrev route_of : Option Text → Option Text → Option Text → List Ipv4Route
route_of gateway (some destination) (some mask) =
    record { destination = destination; mask = mask; gateway = gateway } ∷ []
route_of gateway (some destination) none = []
route_of gateway none mask = []

unfoldable pub routes_of : Option Text → List Text → List Ipv4Route
routes_of gateway [] = []
routes_of gateway (tag ∷ tags) =
    route_of gateway (attr_value tag (codes "ip")) (attr_value tag (codes "mask"))
    ++ routes_of gateway tags

unfoldable pub addr_tags : List Text → List Text
addr_tags [] = []
addr_tags (body ∷ bodies) = start_tags body (codes "addr") ++ addr_tags bodies

unfoldable pub parse_split_routes : Text → Option Text → List Ipv4Route
parse_split_routes xml gateway =
    routes_of gateway (addr_tags (element_bodies xml (codes "split-tunnel-info")))

abbrev or_else : Option Text → Option Text → Option Text
or_else none next = next
or_else (some value) next = some value

abbrev or_values : List Text → List Text → List Text
or_values [] next = next
or_values (value ∷ values) next = value ∷ values

unfoldable pub parse_vpn_config_xml : Text → VpnConfigXml
parse_vpn_config_xml raw_xml =
    let gateway = first_tag_attr raw_xml (codes "assigned-addr") (codes "ipv4") in
    record {
      raw_xml = raw_xml;
      gateway = gateway;
      assigned_ip = or_else gateway (
          or_else (first_xml_value raw_xml (codes "assigned-addr")) (
            or_else (first_xml_value raw_xml (codes "ip"))
              (first_xml_value raw_xml (codes "addr"))));
      dns_servers =
          or_values
            (tag_attr_values raw_xml (codes "dns") (codes "ip")
              ++ xml_values raw_xml (codes "dns-server"))
            (xml_values raw_xml (codes "dns"));
      dns_suffix = or_else (first_tag_attr raw_xml (codes "dns") (codes "domain")) (
          or_else (first_xml_value raw_xml (codes "dns-suffix"))
            (first_xml_value raw_xml (codes "domain")));
      split_routes = parse_split_routes raw_xml gateway;
    }
