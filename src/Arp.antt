-- ===== src/Arp.antt =====
-- kernel/arp.h: the cache of link addresses. The cache has been cleared (arp_cache_init, which
-- net_stack_init calls before anything else), so the tests of arp_cache_initialized are left out. What
-- arp_resolved_cb points at is a parameter of arp_handle_frame.
pub mod Cache
pub mod Slots
pub mod Frames
pub mod Unanswered
mod Tests
use mathlib.Core.Option
use mini_win.Base.{ℕ, suc, ◌+◌, ◌-◌, ◌%◌, ◌^◌, Bool, true, false, not, ◌&&◌, ◌||◌, Option, none}
use mini_win.Base.{some, List, [], ◌∷◌, ◌++◌, ltb, ◌==◌, if◌then◌else◌, length, get_or, set}
use mini_win.Base.{replicate}
use mini_win.Net.{Net, Entry, Known, unused, asked, resolved, at, put16, put32, get16, get32}
use mini_win.Net.{broadcast, nic_send}

abbrev pub cache_size : ℕ
cache_size = 8

abbrev pub free_entry : Entry
free_entry = record { ip = 0; mac = replicate 6 0; known = unused; age = 0 }

-- arp_cache_init: the states only.
pub cache_init : List Entry → List Entry
cache_init [] = []
cache_init (e ∷ es) = record e { known = unused } ∷ cache_init es

abbrev pub is_unused : Known → Bool
is_unused unused = true
is_unused asked = false
is_unused resolved = false

abbrev pub is_asked : Known → Bool
is_asked unused = false
is_asked asked = true
is_asked resolved = false

abbrev pub is_resolved : Known → Bool
is_resolved unused = false
is_resolved asked = false
is_resolved resolved = true

-- The index of the first entry that passes a test: how the loops over the cache look for a slot.
unfoldable pub first_slot : (Entry → Bool) → List Entry → Option ℕ
first_slot test [] = none
first_slot test (e ∷ es) =
    let rest = first_slot test es in if test e then some 0 else Option.map suc rest

-- The entry of a slot.
abbrev pub slot_entry : List Entry → ℕ → Entry
slot_entry cache i = get_or cache i free_entry

-- arp_lookup
unfoldable pub lookup : List Entry → ℕ → Option (List ℕ)
lookup cache ip =
    Option.map (λ i. (slot_entry cache i).mac)
      (first_slot (λ e. is_resolved e.known && e.ip == ip) cache)

-- arp_find_pending_slot
unfoldable pub find_pending_slot : List Entry → ℕ → Option ℕ
find_pending_slot cache ip = first_slot (λ e. e.ip == ip && is_asked e.known) cache

-- arp_is_pending: the 16-bit age of the request.
unfoldable pub is_pending : Net → ℕ → Bool
is_pending n ip = elim (find_pending_slot n.cache ip) [
  | none ↦ false
  | some i ↦ ltb ((n.ticks % 2 ^ 16 + 2 ^ 16 - (slot_entry n.cache i).age) % 2 ^ 16) 2000
]

-- arp_find_or_alloc_slot
unfoldable pub find_or_alloc_slot : List Entry → ℕ → ℕ
find_or_alloc_slot cache ip = elim (first_slot (λ e. not (is_unused e.known) && e.ip == ip) cache) [
  | some i ↦ i
  | none ↦ elim (first_slot (λ e. is_unused e.known) cache) [ some i ↦ i | none ↦ 0 ]
]

-- The 42 bytes of a request and of a reply, which differ in the opcode and in the target's address.
abbrev pub arp_frame : List ℕ → List ℕ → ℕ → ℕ → List ℕ → ℕ → List ℕ
arp_frame to mac opcode sender_ip target target_ip =
    to
    ++ (mac
        ++ (put16 0x0806
            ++ (put16 1
                ++ (put16 0x0800
                    ++ (6
                        ∷ 4
                        ∷ (put16 opcode
                            ++ (mac ++ (put32 sender_ip ++ (target ++ put32 target_ip)))))))))

-- arp_send_request
unfoldable pub send_request : Net → ℕ → ℕ → Net
send_request n sender_ip target_ip =
    let slot = find_or_alloc_slot n.cache target_ip in
    if not n.nic.present then n else record n {
      cache = set n.cache slot (record (slot_entry n.cache slot) {
        ip = target_ip;
        known = asked;
        age = n.ticks % 2 ^ 16;
      });
      nic =
          (nic_send n.nic
            (arp_frame (replicate 6 255) n.nic.mac 1 sender_ip (replicate 6 0) target_ip)).1;
    }

-- arp_send_reply
pub send_reply : Net → ℕ → List ℕ → ℕ → Net
send_reply n my_ip requester_mac requester_ip = if not n.nic.present then n else record n {
  nic = (nic_send n.nic (arp_frame requester_mac n.nic.mac 2 my_ip requester_mac requester_ip)).1;
}

-- The comparisons of six bytes, from an offset on.
unfoldable pub mac_at : List ℕ → ℕ → List ℕ
mac_at frame i =
    at frame i
    ∷ at frame (i + 1)
    ∷ at frame (i + 2)
    ∷ at frame (i + 3)
    ∷ at frame (i + 4)
    ∷ at frame (i + 5)
    ∷ []

unfoldable pub same_mac : List ℕ → List ℕ → Bool
same_mac [] [] = true
same_mac [] (b ∷ bs) = false
same_mac (a ∷ cs) [] = false
same_mac (a ∷ cs) (b ∷ bs) = a == b && same_mac cs bs

-- A cache with the address of a neighbour in a slot.
abbrev pub learn : List Entry → ℕ → ℕ → List ℕ → List Entry
learn cache slot ip mac = set cache slot (record { ip = ip; mac = mac; known = resolved; age = 0 })

-- A reply: it is believed if it is for us and answers an outstanding request.
pub on_reply : (ℕ → List ℕ → Net → Net) → Net → List ℕ → Net
on_reply resolved_cb n frame =
    let sender_ip = get32 frame 28 in
    let sender_mac = mac_at frame 22 in
    if not (get32 frame 38 == n.cfg.my_ip) || not (same_mac (mac_at frame 32) n.nic.mac)
    then n
    else elim (find_pending_slot n.cache sender_ip) [
      | none ↦ n
      | some slot ↦
          resolved_cb sender_ip sender_mac
            (record n { cache = learn n.cache slot sender_ip sender_mac })
    ]

-- What the asker adds to the cache: an entry in a free slot, if there is none for it. Which entry
-- `existing` is matters only to the log.
pub remember : List Entry → ℕ → List ℕ → List Entry
remember cache ip mac = elim (first_slot (λ e. not (is_unused e.known) && e.ip == ip) cache) [
  | some existing ↦ cache
  | none ↦ elim (first_slot (λ e. is_unused e.known) cache) [
    | none ↦ cache
    | some empty ↦ learn cache empty ip mac
  ]
]

-- A request for our address: it is answered.
pub on_request : Net → List ℕ → Net
on_request n frame =
    send_reply (record n { cache = remember n.cache (get32 frame 28) (mac_at frame 22) })
      n.cfg.my_ip (mac_at frame 22) (get32 frame 28)

-- The checks on the fields of an ARP frame before its opcode decides.
unfoldable pub plausible : Net → List ℕ → Bool
plausible n frame =
    get16 frame 14 == 1
    && get16 frame 16 == 0x0800
    && at frame 18 == 6
    && at frame 19 == 4
    && (get16 frame 20 == 1 || get16 frame 20 == 2)
    && not (get32 frame 28 == 0 || get32 frame 28 == broadcast)
    && not (at frame 22 % 2 == 1)
    && same_mac (mac_at frame 6) (mac_at frame 22)
    && not (n.cfg.ready && get32 frame 28 == n.cfg.my_ip)

-- arp_handle_frame
unfoldable pub handle_frame : (ℕ → List ℕ → Net → Net) → Net → List ℕ → Bool × Net
handle_frame resolved_cb n frame =
    if ltb (length frame) 42
    then (false, n)
    else if not (get16 frame 12 == 0x0806)
    then (false, n)
    else (
      true,
      (if not (plausible n frame)
          then n
          else if get16 frame 20 == 2
          then on_reply resolved_cb n frame
          else if n.cfg.ready && get32 frame 38 == n.cfg.my_ip
          then on_request n frame
          else n),
    )
