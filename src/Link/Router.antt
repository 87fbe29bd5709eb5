-- ===== src/Link/Router.antt =====
-- gold/link/router.go: the routing table. An IPv4 address is its 32-bit number, a network its base
-- address and prefix length; a link is a number, and the nil link is `none`.
pub mod Order
pub mod Wider
use wire_gold.Common.{
  ltb, leb, ◌==◌, if◌then◌else◌, ltb→lt, lt→ltb, leb→le, le→ltb, lt→leb, le→leb, ==_iff, ==_refl,
  Bool-cases, Option-cases, all_below, all_below_sound, length, get_elem?, get_or, set, take, drop,
  replicate, Some, All, length-append, length-take, length-drop, length-replicate, take-append-drop,
  take-append, drop-append, take-all, drop-all, drop-nil, drop-drop, take-add, All-append, All-take,
  All-drop, get_or-append_last, take_front, All-weaken, bit_or_step, bit_or-zero, bit_and-zero,
  bit_or_fields, bit_and_mask, bit_xor_cancel, bit_xor_comm, bit_or_assoc, bit_xor-lt, IsByte,
  AreBytes, put_uint, get_uint, length-put_uint, put_uint-AreBytes, get_uint-put_uint, get_uint-lt,
  put_uint-get_uint, get_uint-append, get_uint-take, get_or_ext, ℕ, zero, suc, ◌+◌, ◌-◌, ◌*◌, ◌/◌,
  ◌%◌, ◌^◌, ◌≤◌, ◌<◌, min, bit_and, bit_or, bit_xor, ◌≡◌, refl, sym, ap, ap₂, ◌∙◌, ◌≢◌, ◌↔◌, ◌⊎◌,
  inl, inr, Bool, true, false, not, ◌&&◌, ◌||◌, Option, none, some, List, [], ◌∷◌, ◌++◌,
  append_assoc, append-nil, arith, pow-suc, dec_lt, ℕ_discrete,
}

pub record IpNet : Type 0 where
  pub base : ℕ
  pub len : ℕ

-- map[cidr]*Link is a function of the network, which stands for its text; `list` is searched in order.
pub record Router : Type 0 where
  pub table : IpNet → Option ℕ
  pub list : List IpNet

-- x >> k
unfoldable pub shift_right : ℕ → ℕ → ℕ
shift_right zero x = x
shift_right (suc k) x = shift_right k (x / 2)

-- net.IPNet.Contains
unfoldable pub contains : IpNet → ℕ → Bool
contains n ip = shift_right (32 - n.len) ip == shift_right (32 - n.len) n.base

abbrev pub same_net : IpNet → IpNet → Bool
same_net a b = a.base == b.base && a.len == b.len

abbrev pub update : (IpNet → Option ℕ) → IpNet → Option ℕ → IpNet → Option ℕ
update table key link n = if same_net n key then link else table n

-- Accept: any of the allowed networks contains the address.
unfoldable pub accept : List IpNet → ℕ → Bool
accept [] ip = false
accept (cidr ∷ rest) ip = contains cidr ip || accept rest ip

-- 0.0.0.0/0 takes the last place of the list.
abbrev pub default_net : IpNet
default_net = record { base = 0; len = 0 }

-- r.list[len(r.list)-1] = n, which panics on an empty list.
unfoldable pub set_last : List IpNet → IpNet → Option (List IpNet)
set_last [] n = none
set_last (c ∷ []) n = some (n ∷ [])
set_last (c ∷ d ∷ rest) n = elim (set_last (d ∷ rest) n) [
  | none ↦ none
  | some list ↦ some (c ∷ list)
]

-- The result is none where the code panics.
unfoldable pub set_default : Option ℕ → Router → Option Router
set_default link r = elim (set_last r.list default_net) [
  | none ↦ none
  | some list ↦ some (record { table = update r.table default_net link; list = list })
]

-- isSubnetBcast: the bits of the address outside the mask are all ones.
unfoldable pub is_subnet_bcast : ℕ → IpNet → Bool
is_subnet_bcast ip subnet =
    contains subnet ip && (ip % 2 ^ (32 - subnet.len) == 2 ^ (32 - subnet.len) - 1)

-- IsToMe, of an interface with address `me`; net.IPv4bcast is 255.255.255.255.
unfoldable pub is_to_me : ℕ → IpNet → ℕ → Bool
is_to_me me subnet ip = ip == me || ip == 4294967295 || is_subnet_bcast ip subnet

-- The first network of the list that contains the address.
unfoldable pub first_match : List IpNet → ℕ → Option IpNet
first_match [] ip = none
first_match (c ∷ rest) ip = if contains c ip then some c else first_match rest ip

-- l = r.table[c.String()]; r.cache.Set(ip, l).
abbrev pub routed : Router → ℕ → Option IpNet → Option ℕ × Option (ℕ × Option ℕ)
routed r ip none = (none, none)
routed r ip (some c) = (r.table c, some (ip, r.table c))

-- What NextHop returns, and the entry that it adds to the cache. `cached` is what the cache answers,
-- `parsed` what net.ParseIP makes of the text of the address.
unfoldable pub next_hop : Option ℕ → Option ℕ → Router → Option ℕ × Option (ℕ × Option ℕ)
next_hop (some link) parsed r = (some link, none)
next_hop none none r = (none, none)
next_hop none (some ip) r = routed r ip (first_match r.list ip)

-- SetItem: at the first network that contains the base of the new one, the link of that network
-- is replaced if the masks agree; otherwise the new network goes in front of it. The second part
-- is the key that is written.
unfoldable pub place : List IpNet → IpNet → List IpNet × Option IpNet
place [] n = ([], none)
place (c ∷ rest) n =
    let behind = place rest n in
    if contains c n.base
    then (if n.len == c.len then (c ∷ rest, some c) else (n ∷ c ∷ rest, some n))
    else (c ∷ behind.0, behind.1)

abbrev pub write_key : (IpNet → Option ℕ) → Option IpNet → Option ℕ → IpNet → Option ℕ
write_key table none link = table
write_key table (some key) link = update table key link

unfoldable pub set_item : IpNet → Option ℕ → Router → Router
set_item n link r = record {
  table = write_key r.table (place r.list n).1 link;
  list = (place r.list n).0;
}
