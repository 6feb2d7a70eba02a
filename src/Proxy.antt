-- ===== src/Proxy.antt =====
-- lib/proxy.go and sources/proxy.go: the options of what stands behind a proxy, and its type.
pub mod Nested
pub mod Server
pub mod Client
pub mod Stages
pub mod Remote
use uback.Base.{
  ℕ, zero, suc, Bool, true, false, ◌||◌, Option, none, some, List, [], ◌∷◌, ◌++◌, Bytes, Dict,
  lookup, insert, codes, cut_prefix, equal, if◌then◌else◌, Result, ok, err, Error,
}
use uback.Options.{Options, Packages, get_command}

-- The options that are the proxy's own.
unfoldable pub is_own : Bytes → Bool
is_own k = equal k (codes "Proxy") || equal k (codes "Command") || equal k (codes "Type")

abbrev or_whole : Bytes → Option Bytes → Bytes
or_whole k none = k
or_whole k (some rest) = rest

-- `strings.TrimPrefix(k, "Proxy")`
unfoldable pub trim_proxy : Bytes → Bytes
trim_proxy k = or_whole k (cut_prefix (codes "Proxy") k)

-- One loop over a map, which Go ranges over in any order.
unfoldable pub proxied_dict {ℓ} : {V : Type ℓ} → Dict V → Dict V
unfolding is_own trim_proxy
proxied_dict [] = []
proxied_dict ((k, v) ∷ m) =
    let rest = proxied_dict m in if is_own k then rest else insert (trim_proxy k) v rest

unfoldable pub proxied_options : Options → Options
unfolding proxied_dict
proxied_options o = record { strings = proxied_dict o.strings; slices = proxied_dict o.slices }

abbrev pub or_next : Option Bytes → Result Bytes → Result Bytes
or_next none next = err Error.missing_option
or_next (some typ) next = if equal typ (codes "proxy") then next else ok typ

-- The loop of `newProxySource`: the type of the first one that is no proxy. The fuel bounds the rounds.
unfoldable pub proxied_type : ℕ → Bytes → Options → Result Bytes
proxied_type zero prefix o = err Error.endless_proxies
proxied_type (suc fuel) prefix o =
    or_next (lookup (prefix ++ codes "Type") o.strings)
      (proxied_type fuel (prefix ++ codes "Proxy") o)

-- The command and the type of a proxy source.
unfoldable pub new_proxy_source : ℕ → Packages → Options → Result (List Bytes × Bytes)
unfolding proxied_type
new_proxy_source fuel P o = elim (get_command P o (codes "Command") []) [
  | [] ↦ err Error.missing_option
  | w ∷ ws ↦ elim (proxied_type fuel (codes "Proxy") o) [
    | err e ↦ err e
    | ok typ ↦ ok (w ∷ ws, typ)
  ]
]

unfoldable pub new_proxy_destination : Packages → Options → Result (List Bytes)
new_proxy_destination P o = elim (get_command P o (codes "Command") []) [
  | [] ↦ err Error.missing_option
  | w ∷ ws ↦ ok (w ∷ ws)
]
