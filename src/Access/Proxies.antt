-- ===== src/Access/Proxies.antt =====
-- internal/middleware/client_ip.go: the address of the client of a request that proxies forward.
use mathlib.Core.List.{reverse, reverse-append, reverse-cons}
use snmp_olt_zte.Common.{
  ◌≡◌, refl, sym, ap, ◌∙◌, inl, inr, Option-cases, Bool, true, false, ◌&&◌, ◌||◌, not, Option, none,
  some, List, [], ◌∷◌, ◌++◌, append_assoc, if◌then◌else◌, Text, text_eq, contains, split, join,
  trim_space, Result, ok, err, ◌>>=◌, All, All-append,
}

-- Packages net/netip and net: `host_of` is the host of SplitHostPort, and `none` is an error.
pub record NetIp : Type 1 where
  pub Addr : Type 0
  pub Prefix : Type 0
  pub parse_addr : Text → Option Addr
  pub parse_prefix : Text → Option Prefix
  pub masked : Prefix → Prefix
  pub whole_addr : Addr → Prefix
  pub is_valid : Addr → Bool
  pub unmap : Addr → Addr
  pub addr_text : Addr → Text
  pub prefix_contains : Prefix → Addr → Bool
  pub host_of : Text → Option Text

module _ (ip : NetIp) where
  -- One entry of the list; an error is the entry that is malformed.
  unfoldable pub read_entry : Text → List ip.Prefix → Result Text (List ip.Prefix)
  read_entry entry prefixes =
      if text_eq entry []
      then ok prefixes
      else if contains entry (b'/' ∷ [])
      then elim (ip.parse_prefix entry) [
        | none ↦ err entry
        | some p ↦ ok (prefixes ++ ip.masked p ∷ [])
      ]
      else elim (ip.parse_addr entry) [
        | none ↦ err entry
        | some a ↦ ok (prefixes ++ ip.whole_addr (ip.unmap a) ∷ [])
      ]

  unfoldable pub read_entries : List Text → List ip.Prefix → Result Text (List ip.Prefix)
  unfolding read_entry
  read_entries [] prefixes = ok prefixes
  read_entries (entry ∷ entries) prefixes =
      read_entry (trim_space entry) prefixes >>= λ more. read_entries entries more

  unfoldable pub parse_trusted_proxies : Text → Result Text (List ip.Prefix)
  unfolding read_entries
  parse_trusted_proxies raw = read_entries (split b',' raw) []

  unfoldable pub any_contains : List ip.Prefix → ip.Addr → Bool
  any_contains [] addr = false
  any_contains (p ∷ ps) addr = ip.prefix_contains p addr || any_contains ps addr

  -- Contains; nil trusts nobody, as the empty set does.
  unfoldable pub is_trusted : List ip.Prefix → ip.Addr → Bool
  unfolding any_contains
  is_trusted prefixes addr = ip.is_valid addr && any_contains prefixes (ip.unmap addr)

  -- The loop over the hops, from the last one on; `client` is the hop before.
  unfoldable pub walk_hops : List ip.Prefix → Text → List Text → Text → Text
  unfolding is_trusted
  walk_hops trusted peer [] client = client
  walk_hops trusted peer (hop ∷ hops) client = elim (ip.parse_addr (trim_space hop)) [
    | none ↦ peer
    | some a ↦
        if is_trusted trusted a
        then walk_hops trusted peer hops (ip.addr_text (ip.unmap a))
        else ip.addr_text (ip.unmap a)
  ]

  abbrev pub real_ip : Text → Text → Text
  real_ip peer x_real_ip =
      if text_eq x_real_ip []
      then peer
      else elim (ip.parse_addr x_real_ip) [ none ↦ peer | some a ↦ ip.addr_text (ip.unmap a) ]

  abbrev pub peer_of : Text → Text
  peer_of remote_addr = elim (ip.host_of remote_addr) [ none ↦ remote_addr | some host ↦ host ]

  unfoldable pub resolve_client_ip : List ip.Prefix → Text → List Text → Text → Text
  unfolding walk_hops is_trusted
  resolve_client_ip trusted remote_addr xff x_real_ip = elim (ip.parse_addr (peer_of remote_addr)) [
    | none ↦ peer_of remote_addr
    | some peer_addr ↦
        let peer = ip.addr_text (ip.unmap peer_addr) in
        if not (is_trusted trusted peer_addr)
        then peer
        else (let chain = join b',' xff in
            if not (text_eq (trim_space chain) [])
            then walk_hops trusted peer (reverse (split b',' chain)) peer
            else real_ip peer (trim_space x_real_ip))
  ]

  module _ (trusted : List ip.Prefix) where
    -- A hop that is the address of a trusted proxy.
    pub record IsProxy (hop : Text) : Type 0 where
      pub addr : ip.Addr
      pub parsed : ip.parse_addr (trim_space hop) ≡ some addr
      pub known : is_trusted trusted addr ≡ true

    All-reverse : (hops : List Text) → All IsProxy hops → All IsProxy (reverse hops)
    All-reverse [] h = h
    All-reverse (hop ∷ hops) (p, h) =
        rw reverse-cons (All-append IsProxy (reverse hops) (hop ∷ []) (All-reverse hops h) (p, tt))

    -- Whether what a hop is parsed to is the address of a trusted proxy.
    abbrev pub is_proxy : Option ip.Addr → Bool
    is_proxy none = false
    is_proxy (some a) = is_trusted trusted a

    -- The address of a hop, or the peer's if the hop is malformed.
    abbrev pub address_or : Text → Option ip.Addr → Text
    address_or peer none = peer
    address_or peer (some a) = ip.addr_text (ip.unmap a)

    walk_hops-proxies :
        (peer : Text) (proxies : List Text) (hop : Text) (rest : List Text) (client : Text)
        → All IsProxy proxies
        → is_proxy (ip.parse_addr (trim_space hop)) ≡ false
        → walk_hops trusted peer (proxies ++ hop ∷ rest) client
          ≡ address_or peer (ip.parse_addr (trim_space hop))
    unfolding walk_hops
    walk_hops-proxies peer [] hop rest client h u =
        elim (Option-cases (ip.parse_addr (trim_space hop))) [
          | inl malformed ↦ rw malformed refl
          | inr (a, parsed) ↦ rw (walk_hops, parsed, ap is_proxy (sym parsed) ∙ u) refl
        ]
    walk_hops-proxies peer (p ∷ proxies) hop rest client (proxy, h) u =
        rw (proxy.parsed, proxy.known)
          (walk_hops-proxies peer proxies hop rest (ip.addr_text (ip.unmap proxy.addr)) h u)

    -- A request that a trusted proxy sends with a chain of forwarded hops has as its client the last hop
    -- that is not the address of a trusted proxy, if that is an address, and else the peer; whatever is
    -- written before that hop and in X-Real-IP.
    pub resolve_client_ip_lem :
        (remote_addr x_real_ip : Text) (xff written : List Text) (hop : Text) (proxies : List Text)
        (peer : ip.Addr)
        → ip.parse_addr (peer_of remote_addr) ≡ some peer
        → is_trusted trusted peer ≡ true
        → split b',' (join b',' xff) ≡ written ++ hop ∷ proxies
        → text_eq (trim_space (join b',' xff)) [] ≡ false
        → is_proxy (ip.parse_addr (trim_space hop)) ≡ false
        → All IsProxy proxies
        → resolve_client_ip trusted remote_addr xff x_real_ip
          ≡ address_or (ip.addr_text (ip.unmap peer)) (ip.parse_addr (trim_space hop))
    unfolding resolve_client_ip
    resolve_client_ip_lem remote_addr x_real_ip xff written hop proxies peer e t s b u h =
        rw (resolve_client_ip, e, t, b, s, reverse-append, reverse-cons, append_assoc)
          (walk_hops-proxies _ (reverse proxies) hop (reverse written) _ (All-reverse proxies h) u)
