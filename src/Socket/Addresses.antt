-- ===== src/Socket/Addresses.antt =====
-- src/sockethelper.cpp: the list of addresses, from `getaddrinfo` to `freeaddrinfo`.
use p2purr.Base.{
  ℕ, ◌≡◌, ◌∙◌, refl, sym, append_assoc, append-nil, Leaves, Behaves-mono, List, [], ◌∷◌, ◌++◌, ok,
  throw, fault, ◌>>=◌, ◌>>◌, generic_exception, get_addr_info_exception,
}
use p2purr.Socket.{AddrInfo, ipv4_info, ipv6_info, Socket, SocketM, close_sock}

-- What `getaddrinfo` may answer: a list of at least one entry, or a code other than 0.
pub data Addresses : Type 0 where
  resolved : AddrInfo → List AddrInfo → Addresses
  not_resolved : Addresses

-- `struct addrinfo* build_addrinfo_struct(string host, uint16_t port, …)`, where the system answers for
-- each host and port.
unfoldable pub build_addrinfo_struct :
    (List ℕ → ℕ → Addresses) → List ℕ → ℕ → SocketM (List AddrInfo)
build_addrinfo_struct getaddrinfo host port s = elim (getaddrinfo host port) [
  | resolved p ps ↦ ok (p ∷ ps) s
  | not_resolved ↦ throw get_addr_info_exception s
]

-- The loop over the list. The texts go to the list of their family, up to one that is empty.
unfoldable pub collect_ips : List AddrInfo → SocketM (Unit {0})
collect_ips [] s = ok tt s
collect_ips (ipv4_info [] ∷ ps) s = throw generic_exception s
collect_ips (ipv4_info (c ∷ ipstr) ∷ ps) s =
    collect_ips ps (record s { ipv4_addrs = s.ipv4_addrs ++ (c ∷ ipstr) ∷ [] })
collect_ips (ipv6_info [] ∷ ps) s = throw generic_exception s
collect_ips (ipv6_info (c ∷ ipstr) ∷ ps) s =
    collect_ips ps (record s { ipv6_addrs = s.ipv6_addrs ++ (c ∷ ipstr) ∷ [] })

-- `void get_all_ip_from_addrinfo()`
unfoldable pub get_all_ip_from_addrinfo : SocketM (Unit {0})
unfolding collect_ips
get_all_ip_from_addrinfo s = collect_ips s.ai s

-- What the constructor does with the addresses.
unfoldable pub resolve : (List ℕ → ℕ → Addresses) → SocketM (Unit {0})
unfolding build_addrinfo_struct get_all_ip_from_addrinfo
resolve getaddrinfo = do
  ai ← λ s. build_addrinfo_struct getaddrinfo s.host s.port s
  λ s. ok tt (record s { ai = ai })
  get_all_ip_from_addrinfo

-- `this->ai->ai_addr`, which `bind` and `connect` are given.
unfoldable pub read_ai : SocketM (Unit {0})
read_ai s = elim s.ai [ [] ↦ fault | p ∷ ps ↦ ok tt s ]

-- `~SocketHelper()`. What `close_sock` returns is ignored.
unfoldable free_socket : SocketM (Unit {0})
free_socket s = (close_sock >>= λ closed' t. ok tt t) (record s { ai = [] })

-- The texts of the entries of each family, in order.
abbrev ipv4_texts : List AddrInfo → List (List ℕ)
ipv4_texts [] = []
ipv4_texts (ipv4_info ipstr ∷ ps) = ipstr ∷ ipv4_texts ps
ipv4_texts (ipv6_info ipstr ∷ ps) = ipv4_texts ps

abbrev ipv6_texts : List AddrInfo → List (List ℕ)
ipv6_texts [] = []
ipv6_texts (ipv4_info ipstr ∷ ps) = ipv6_texts ps
ipv6_texts (ipv6_info ipstr ∷ ps) = ipstr ∷ ipv6_texts ps

-- When the loop returns, it has added the texts of every entry to the list of its family.
collect_ips-Leaves :
    (ps : List AddrInfo) (s : Socket)
    → Leaves
        (λ _ t.
          (t.ipv4_addrs ≡ s.ipv4_addrs ++ ipv4_texts ps)
          × (t.ipv6_addrs ≡ s.ipv6_addrs ++ ipv6_texts ps)
          × (t.ai ≡ s.ai))
        (λ e _. e ≡ generic_exception)
        (collect_ips ps s)
unfolding collect_ips
collect_ips-Leaves [] s = (sym (append-nil s.ipv4_addrs), sym (append-nil s.ipv6_addrs), refl)
collect_ips-Leaves (ipv4_info [] ∷ ps) s = refl
collect_ips-Leaves (ipv4_info (c ∷ ipstr) ∷ ps) s =
    Behaves-mono _ _ _ _ _ (collect_ips ps _)
      (λ _ t (v4, v6, same).
        (v4 ∙ append_assoc s.ipv4_addrs ((c ∷ ipstr) ∷ []) (ipv4_texts ps), v6, same))
      (λ e t h. h)
      (collect_ips-Leaves ps (record s { ipv4_addrs = s.ipv4_addrs ++ (c ∷ ipstr) ∷ [] }))
collect_ips-Leaves (ipv6_info [] ∷ ps) s = refl
collect_ips-Leaves (ipv6_info (c ∷ ipstr) ∷ ps) s =
    Behaves-mono _ _ _ _ _ (collect_ips ps _)
      (λ _ t (v4, v6, same).
        (v4, v6 ∙ append_assoc s.ipv6_addrs ((c ∷ ipstr) ∷ []) (ipv6_texts ps), same))
      (λ e t h. h)
      (collect_ips-Leaves ps (record s { ipv6_addrs = s.ipv6_addrs ++ (c ∷ ipstr) ∷ [] }))
