-- ===== src/Link/Nic.antt =====
-- gold/link/me.go: sendAllSameDst, which takes IP packets from the network card and sends those of
-- one datagram together. The parsing of IP headers is a library's, and so a record.
pub mod Eaten
pub mod Repeats
use wire_gold.Common.{
  ltb, leb, ◌==◌, if◌then◌else◌, ltb→lt, lt→ltb, leb→le, le→ltb, lt→leb, le→leb, ==_iff, ==_refl,
  Bool-cases, Option-cases, all_below, all_below_sound, length, get_elem?, get_or, set, take, drop,
  replicate, Some, All, length-append, length-take, length-drop, length-replicate, take-append-drop,
  take-append, drop-append, take-all, drop-all, drop-nil, drop-drop, take-add, All-append, All-take,
  All-drop, get_or-append_last, take_front, All-weaken, bit_or_step, bit_and-zero, bit_or-zero,
  bit_and_mask, bit_or_fields, bit_xor_cancel, bit_xor_comm, bit_or_comm, bit_or_assoc, bit_xor-lt,
  IsByte, AreBytes, put_uint, get_uint, length-put_uint, put_uint-AreBytes, get_uint-put_uint,
  get_uint-lt, put_uint-get_uint, get_uint-append, get_uint-take, get_or_ext, ℕ, zero, suc, ◌+◌,
  ◌-◌, ◌*◌, ◌/◌, ◌%◌, ◌^◌, ◌≤◌, ◌<◌, min, bit_and, bit_or, bit_xor, ◌≡◌, refl, sym, ap, ap₂, ◌∙◌,
  ◌≢◌, ◌↔◌, ◌⊎◌, inl, inr, Bool, true, false, not, ◌&&◌, ◌||◌, Option, none, some, List, [], ◌∷◌,
  ◌++◌, append_assoc, append-nil, arith, pow-suc, dec_lt, ℕ_discrete,
}
use wire_gold.Link.Router.{
  Router, next_hop, IpNet, shift_right, contains, same_net, update, accept, default_net, set_last,
  set_default, is_subnet_bcast, is_to_me, first_match, routed, place, write_key, set_item,
}
use wire_gold.Link.Dispatch.{
  ip_number, Peer, Me, is_in_peer, set_peer, is_elsewhere, heard, extract_peer, decode, Drop,
  Verdict, call_handler, deliver, dispatch_from, dispatch, smaller_than_declared, unknown_peer,
  source_refused, not_to_me, decode_error, under_8_bytes, invalid_hash, invalid_zstd,
  unsupported_proto, dropped, handled,
}

-- The header fields as waterutil reads them; none where it panics on a packet that is too short.
pub record WaterUtil : Type 0 where
  pub is_ipv4 : List ℕ → Option Bool
  pub is_ipv6 : List ℕ → Option Bool
  pub total_length : List ℕ → Option ℕ
  pub identification : List ℕ → Option ℕ
  pub destination : List ℕ → Option (List ℕ)

-- What a call does: it stops the program, it has not ended when the fuel is used up, or it ends.
pub data Run {ℓ} (A : Type ℓ) : Type ℓ where
  panics endless : Run A
  ends : A → Run A

infixl 5 ◌>>=◌
abbrev pub ◌>>=◌ {ℓ κ} : {A : Type ℓ} {B : Type κ} → Run A → (A → Run B) → Run B
panics >>= f = panics
endless >>= f = endless
ends a >>= f = f a

abbrev pub asks {ℓ} : {A : Type ℓ} → Option A → Run A
asks none = panics
asks (some a) = ends a

-- int(binary.BigEndian.Uint16(packet[4:6])) + 40
abbrev pub ipv6_length : List ℕ → ℕ
ipv6_length packet = get_or packet 4 0 * 256 + get_or packet 5 0 + 40

-- The loop over IPv6 packets, on fuel: how many bytes it passes over. The inner result is none where
-- the code returns 0 for a packet that is cut short.
unfoldable pub skip_ipv6 : WaterUtil → List ℕ → ℕ → ℕ → Run (Option ℕ)
skip_ipv6 w packet zero n = endless
skip_ipv6 w packet (suc fuel) n =
    let rest = skip_ipv6 w packet fuel (n + ipv6_length packet) in
    if ltb 20 (length (drop n packet))
    then (asks (w.is_ipv6 (drop n packet)) >>= λ (six : Bool).
        if six
        then (if ltb (length (drop n packet)) (ipv6_length packet) then ends none else rest)
        else ends (some n))
    else ends (some n)

-- The loop over the packets of one datagram, on fuel: how many bytes they have.
unfoldable pub same_id : WaterUtil → ℕ → List ℕ → ℕ → ℕ → Run ℕ
same_id w id rem zero i = endless
same_id w id rem (suc fuel) i =
    let ptr = drop i rem in
    let go_on = λ (totl : ℕ).
      let rest = same_id w id rem fuel (i + totl) in
      if ltb (length ptr) totl then ends i else rest in
    if ltb 20 (length ptr)
    then (asks (w.identification ptr) >>= λ (other : ℕ).
        if id == other then (asks (w.total_length ptr) >>= go_on) else ends i)
    else ends i

-- Where the bytes go: to the network card for this host, or to a link.
pub data Sent : Type 0 where
  nothing : Sent
  to_nic : List ℕ → Sent
  no_nexthop : List ℕ → Sent
  to_link : ℕ → List ℕ → Sent

abbrev pub to_hop : List ℕ → Option ℕ → Sent
to_hop packet none = no_nexthop packet
to_hop packet (some link) = to_link link packet

unfoldable pub route : ℕ → (ℕ → Option ℕ) → Router → List ℕ → List ℕ → Sent
route me cache r packet ip =
    let dst = ip_number ip in
    if me == dst then to_nic packet else to_hop packet (next_hop (cache dst) (some dst) r).0

-- The IPv4 packets behind `n` bytes that were passed over.
abbrev pub send_same : WaterUtil → ℕ → (ℕ → Option ℕ) → Router → List ℕ → ℕ → ℕ → Run (ℕ × Sent)
send_same w me cache r rem n zero = ends (n, nothing)
send_same w me cache r rem n (suc i) =
    let packet = take (suc i) rem in
    asks (w.destination packet) >>= λ (ip : List ℕ). ends (n + suc i, route me cache r packet ip)

unfoldable pub send_ipv4 : WaterUtil → ℕ → (ℕ → Option ℕ) → Router → List ℕ → ℕ → Run (ℕ × Sent)
send_ipv4 w me cache r rem n = asks (w.identification rem) >>= λ (id : ℕ).
    (same_id w id rem (length rem + 1) 0 >>= send_same w me cache r rem n)

unfoldable pub after_ipv6 :
    WaterUtil → ℕ → (ℕ → Option ℕ) → Router → List ℕ → Option ℕ → Run (ℕ × Sent)
after_ipv6 w me cache r packet none = ends (0, nothing)
after_ipv6 w me cache r packet (some n) =
    let rem = drop n packet in
    let full_packet = ends (length packet, nothing) in
    if length rem == 0
    then full_packet
    else (asks (w.is_ipv4 rem) >>= λ (four : Bool).
        if four then send_ipv4 w me cache r rem n else full_packet)

-- The count of the bytes that are dealt with, and what is sent.
unfoldable pub send_all_same_dst : WaterUtil → ℕ → (ℕ → Option ℕ) → Router → List ℕ → Run (ℕ × Sent)
send_all_same_dst w me cache r packet = asks (w.is_ipv4 packet) >>= λ (four : Bool).
    if four
    then send_ipv4 w me cache r packet 0
    else (skip_ipv6 w packet (length packet + 1) 0 >>= after_ipv6 w me cache r packet)
