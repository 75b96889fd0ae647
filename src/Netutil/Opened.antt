-- ===== src/Netutil/Opened.antt =====
-- `InitRawSocket` and `GetDeviceInfo` of router/netutil.c: the sockets that they leave open.
use c_router.Base.{
  ℕ, ◌≡◌, refl, List, ◌∷◌, Bool, Bool-cases, Option-cases, inl, inr, true, false, Option, none,
  some, ==_iff, take, bit_and,
}
use c_router.Netutil.{
  Kernel, Sockets, give, and_then, remove, ifr_name, protocol, with_promisc, bind_socket,
  set_promisc, promiscuous, init_raw_socket, inet_only, get_device_info,
}

pub remove_head : (soc : ℕ) (xs : List ℕ) → remove soc (soc ∷ xs) ≡ xs
remove_head soc xs = rw ((==_iff soc soc).1 refl) refl

module _ (k : Kernel) (device : List ℕ) where
  abbrev FlagsSet : Bool → Sockets → Sockets → Type 0
  FlagsSet true s s' =
      (flags : ℕ) × ((k.get_flags (ifr_name device) ≡ some flags)
        × (s'.flags ≡ (ifr_name device, with_promisc flags) ∷ s.flags))
  FlagsSet false s s' = s'.flags ≡ s.flags

  -- What `InitRawSocket` leaves.
  abbrev pub IsOpened : Bool → Bool → Sockets → Option ℕ × Sockets → Type 0
  IsOpened promisc_flag ip_only s (none, s') = s'.opened ≡ s.opened
  IsOpened promisc_flag ip_only s (some soc, s') =
      (s'.opened ≡ soc ∷ s.opened)
      × (((index : ℕ) × ((k.ifindex (ifr_name device) ≡ some index)
              × (s'.bound ≡ (soc, (protocol ip_only, index)) ∷ s.bound)))
          × FlagsSet promisc_flag s s')

  -- The last part, from the socket that is bound.
  flagged :
      (promisc_flag ip_only : Bool) (soc index : ℕ) (s : Sockets)
      → k.ifindex (ifr_name device) ≡ some index
      → IsOpened promisc_flag ip_only s (
          and_then
            (promiscuous k promisc_flag soc (ifr_name device) (record {
              opened = soc ∷ s.opened;
              bound = (soc, (protocol ip_only, index)) ∷ s.bound;
              flags = s.flags;
            }))
            (λ set. give soc))
  unfolding promiscuous set_promisc
  flagged false ip_only soc index s e = (refl, ((index, (e, refl)), refl))
  flagged true ip_only soc index s e = elim (Option-cases (k.get_flags (ifr_name device))) [
    | inl e1 ↦ rw e1 (remove_head soc s.opened)
    | inr (flags, e1) ↦ elim (Bool-cases (k.set_flags (ifr_name device) (with_promisc flags))) [
      | inr e2 ↦ rw (e1, e2) (remove_head soc s.opened)
      | inl e2 ↦ rw (e1, e2) (refl, ((index, (e, refl)), (flags, (e1, refl))))
    ]
  ]

  -- `InitRawSocket` returns -1 with every socket closed that it opened; or it returns the one
  -- socket that it opened, which is still open, bound to the protocol and to the index of the
  -- interface, and has set `IFF_PROMISC` in the interface's flags exactly where that was asked for.
  pub init_raw_socket-IsOpened :
      (promisc_flag ip_only : Bool) (s : Sockets)
      → IsOpened promisc_flag ip_only s (init_raw_socket k device promisc_flag ip_only s)
  unfolding init_raw_socket bind_socket promiscuous set_promisc
  init_raw_socket-IsOpened promisc_flag ip_only s =
      elim (Option-cases (k.packet_socket (protocol ip_only) s.opened)) [
        | inl e ↦ rw e refl
        | inr (soc, e) ↦ elim (Option-cases (k.ifindex (ifr_name device))) [
          | inl e1 ↦ rw (e, e1) (remove_head soc s.opened)
          | inr (index, e1) ↦ elim (Bool-cases (k.bind soc (protocol ip_only) index)) [
            | inr e2 ↦ rw (e, e1, e2) (remove_head soc s.opened)
            | inl e2 ↦ rw (e, e1, e2) (flagged promisc_flag ip_only soc index s e1)
          ]
        ]
      ]

  -- What `GetDeviceInfo` leaves.
  abbrev pub IsInfo : Sockets → Option (List ℕ × (ℕ × (ℕ × ℕ))) × Sockets → Type 0
  IsInfo s (none, s') = s'.opened ≡ s.opened
  IsInfo s (some (hwaddr, (uaddr, (subnet, mask))), s') =
      (s'.opened ≡ s.opened)
      × (((sa_data : List ℕ) × ((k.hwaddr (ifr_name device) ≡ some sa_data)
              × (hwaddr ≡ take 6 sa_data)))
          × ((k.addr (ifr_name device) ≡ some (true, uaddr))
              × ((k.netmask (ifr_name device) ≡ some mask) × (subnet ≡ bit_and uaddr mask))))

  -- `GetDeviceInfo` closes the socket that it opened on every path, and returns -1 or the answers
  -- of the system: the first 6 bytes of the MAC address, an IPv4 address, its mask, and the
  -- address under the mask.
  pub get_device_info-IsInfo : (s : Sockets) → IsInfo s (get_device_info k device s)
  unfolding get_device_info inet_only
  get_device_info-IsInfo s = elim (Option-cases (k.inet_socket s.opened)) [
    | inl e ↦ rw e refl
    | inr (soc, e) ↦ elim (Option-cases (k.hwaddr (ifr_name device))) [
      | inl e1 ↦ rw (e, e1) (remove_head soc s.opened)
      | inr (sa_data, e1) ↦ elim (Option-cases (k.addr (ifr_name device))) [
        | inl e2 ↦ rw (e, e1, e2) (remove_head soc s.opened)
        | inr ((false, uaddr), e2) ↦ rw (e, e1, e2) (remove_head soc s.opened)
        | inr ((true, uaddr), e2) ↦ elim (Option-cases (k.netmask (ifr_name device))) [
          | inl e3 ↦ rw (e, e1, e2, e3) (remove_head soc s.opened)
          | inr (mask, e3) ↦
              rw (e, e1, e2, e3)
                (remove_head soc s.opened, ((sa_data, (e1, refl)), (e2, (e3, refl))))
        ]
      ]
    ]
  ]
