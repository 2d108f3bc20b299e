-- ===== src/NetApply/Dns.antt =====
-- src/net_apply.rs: the lines of a resolver file and the scripts for scutil.
use openfortivpn_rs.Common.{
  ℕ, Bool, false, ◌||◌, Option, none, some, List, [], ◌∷◌, ◌++◌, map, ◌==◌, if◌then◌else◌,
}
use openfortivpn_rs.Common.Bytes.{Bytes, equal, codes}
use openfortivpn_rs.Config.Settings.{Text}
use openfortivpn_rs.Config.Parse.{lines, all}
use openfortivpn_rs.Strings.{replace_char, is_ascii_alphanumeric}

-- The search domain that is given and not empty, its `;` as spaces.
abbrev search_domains : Option Text → Option Text
search_domains none = none
search_domains (some []) = none
search_domains (some (c ∷ cs)) = some (replace_char b';' (codes " ") (c ∷ cs))

unfoldable pub nameserver_lines : List Text → Text
nameserver_lines [] = []
nameserver_lines (server ∷ servers) =
    codes "nameserver " ++ (server ++ (10 ∷ nameserver_lines servers))

unfoldable pub build_resolvconf_body : List Text → Option Text → Text
build_resolvconf_body servers search_domain = elim (search_domains search_domain) [
  | none ↦ nameserver_lines servers
  | some domains ↦ nameserver_lines servers ++ (codes "search " ++ (domains ++ 10 ∷ []))
]

unfoldable pub build_dns_lines : List Text → Option Text → List Text
build_dns_lines servers search_domain = elim (search_domains search_domain) [
  | none ↦ map (λ server. codes "nameserver " ++ server) servers
  | some domains ↦
      map (λ server. codes "nameserver " ++ server) servers ++ (codes "search " ++ domains) ∷ []
]

unfoldable pub member : Text → List Text → Bool
member line [] = false
member line (existing ∷ rest) = equal existing line || member line rest

-- `filter`, against the lines that are there.
unfoldable pub lines_missing : List Text → List Text → List Text
lines_missing existing [] = []
lines_missing existing (line ∷ rest) =
    let others = lines_missing existing rest in
    if member line existing then others else line ∷ others

-- `original_text` is the original by `from_utf8_lossy`.
abbrev pub dns_lines_to_add : Text → List Text → Option Text → List Text
dns_lines_to_add original_text servers search_domain =
    lines_missing (lines original_text) (build_dns_lines servers search_domain)

unfoldable pub prepend_dns_lines_to_resolv_conf : (Text → Bytes) → Bytes → List Text → Bytes
prepend_dns_lines_to_resolv_conf as_bytes original [] = original
prepend_dns_lines_to_resolv_conf as_bytes original (line ∷ added_lines) =
    as_bytes line ++ (10 ∷ prepend_dns_lines_to_resolv_conf as_bytes original added_lines)

-- `position` and `remove`: the first that is equal is taken out.
unfoldable pub removed : Text → List Text → Option (List Text)
removed line [] = none
removed line (added ∷ pending) =
    let rest = removed line pending in
    if equal added line
    then some pending
    else elim rest [ none ↦ none | some others ↦ some (added ∷ others) ]

-- The loop over the lines.
unfoldable pub keep_lines : List Text → List Text → Text
keep_lines [] pending = []
keep_lines (line ∷ rest) pending = elim (removed line pending) [
  | some left ↦ keep_lines rest left
  | none ↦ line ++ (10 ∷ keep_lines rest pending)
]

-- `text` is the current contents by `from_utf8_lossy`.
abbrev pub remove_added_dns_lines : Text → List Text → Text
remove_added_dns_lines text added_lines = keep_lines (lines text) added_lines

abbrev sanitized : ℕ → ℕ
sanitized c = if is_ascii_alphanumeric c || (c == b'-' || c == b'_') then c else b'-'

unfoldable pub sanitize_scutil_key_component : Text → Text
sanitize_scutil_key_component [] = codes "vpn"
sanitize_scutil_key_component (c ∷ cs) = map sanitized (c ∷ cs)

unfoldable pub macos_scutil_dns_key : Text → Text
macos_scutil_dns_key interface =
    codes "State:/Network/Service/openfortivpn-"
    ++ (sanitize_scutil_key_component interface ++ codes "/DNS")

abbrev is_plain : ℕ → Bool
is_plain c =
    is_ascii_alphanumeric c || (c == b'.' || c == b'-' || c == b'_' || c == b':' || c == b'/')

unfoldable pub quoted : Text → Text
quoted [] = []
quoted (c ∷ cs) = if c == 92 || c == 34 then 92 ∷ c ∷ quoted cs else c ∷ quoted cs

unfoldable pub scutil_value : Text → Text
scutil_value value = if all is_plain value then value else 34 ∷ (quoted value ++ 34 ∷ [])

unfoldable pub domain_parts : Text → List Text
domain_parts [] = [] ∷ []
domain_parts (c ∷ cs) =
    let rest = domain_parts cs in
    if c == b';' || (c == b' ' || c == 9)
    then [] ∷ rest
    else elim rest [ [] ↦ (c ∷ []) ∷ [] | part ∷ parts ↦ (c ∷ part) ∷ parts ]

unfoldable pub keep_full : List Text → List Text
keep_full [] = []
keep_full ([] ∷ rest) = keep_full rest
keep_full ((c ∷ cs) ∷ rest) = (c ∷ cs) ∷ keep_full rest

abbrev pub split_dns_search_domains : Option Text → List Text
split_dns_search_domains none = []
split_dns_search_domains (some search_domain) = keep_full (domain_parts search_domain)

unfoldable pub scutil_values : List Text → Text
scutil_values [] = 10 ∷ []
scutil_values (value ∷ values) = 32 ∷ (scutil_value value ++ scutil_values values)

abbrev scutil_list : Text → List Text → Text
scutil_list head [] = []
scutil_list head (value ∷ values) = head ++ scutil_values (value ∷ values)

unfoldable pub build_macos_scutil_dns_script : Text → Text → List Text → Option Text → Text
build_macos_scutil_dns_script key interface servers search_domain =
    let domains = split_dns_search_domains search_domain in
    (codes "d.init" ++ (10 ∷ (codes "d.add InterfaceName " ++ (scutil_value interface ++ 10 ∷ []))))
    ++ (scutil_list (codes "d.add ServerAddresses *") servers
        ++ (scutil_list (codes "d.add SearchDomains *") domains
            ++ (scutil_list (codes "d.add SupplementalMatchDomains *") domains
                ++ (codes "set " ++ (key ++ 10 ∷ [])))))

unfoldable pub build_macos_scutil_remove_script : Text → Text
build_macos_scutil_remove_script key = codes "remove " ++ (key ++ 10 ∷ [])
