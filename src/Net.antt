-- ===== src/Net.antt =====
-- kernel/net.h and kernel/nic.h: numbers in network order, the Internet checksum, and the state that
-- the layers of the network stack share. A buffer is the list of its bytes. The card is its answers to
-- the frames offered to it and the frames that it took; the serial log is not modelled.
pub mod Checksum
mod Tests
use mini_win.Base.{ℕ, zero, suc, ◌+◌, ◌-◌, ◌*◌, ◌/◌, ◌%◌, ◌^◌, Bool, Option, List, [], ◌∷◌, ◌==◌}
use mini_win.Base.{if◌then◌else◌, get_or}

-- `p[i]`
abbrev pub at : List ℕ → ℕ → ℕ
at bytes i = get_or bytes i 0

-- net_put16_be and net_put32_be, as the bytes that they store.
abbrev pub put16 : ℕ → List ℕ
put16 v = v / 2 ^ 8 % 256 ∷ v % 256 ∷ []

abbrev pub put32 : ℕ → List ℕ
put32 v = v / 2 ^ 24 % 256 ∷ v / 2 ^ 16 % 256 ∷ v / 2 ^ 8 % 256 ∷ v % 256 ∷ []

-- net_get16_be and net_get32_be at an offset; the fields that `|` joins do not overlap.
abbrev pub get16 : List ℕ → ℕ → ℕ
get16 p i = at p i * 2 ^ 8 + at p (i + 1)

abbrev pub get32 : List ℕ → ℕ → ℕ
get32 p i = at p i * 2 ^ 24 + at p (i + 1) * 2 ^ 16 + at p (i + 2) * 2 ^ 8 + at p (i + 3)

abbrev pub broadcast : ℕ
broadcast = 2 ^ 32 - 1

-- net_checksum_add: a `u32` sum of the bytes in pairs.
unfoldable pub checksum_add : ℕ → List ℕ → ℕ
checksum_add sum [] = sum
checksum_add sum (a ∷ []) = (sum + a * 2 ^ 8) % 2 ^ 32
checksum_add sum (a ∷ b ∷ rest) = checksum_add ((sum + (a * 2 ^ 8 + b)) % 2 ^ 32) rest

-- The loop of net_checksum_finish, with the rounds that it may take.
unfoldable pub fold_carries : ℕ → ℕ → ℕ
fold_carries zero sum = sum
fold_carries (suc n) sum =
    let rest = fold_carries n (sum % 2 ^ 16 + sum / 2 ^ 16) in
    if sum / 2 ^ 16 == 0 then sum else rest

-- net_checksum_finish: `~sum & 0xFFFF`.
unfoldable pub checksum_finish : ℕ → ℕ
checksum_finish sum = 65535 - fold_carries 2 sum % 2 ^ 16

-- net_checksum
unfoldable pub checksum : List ℕ → ℕ
checksum bytes = checksum_finish (checksum_add 0 bytes)

-- net_config_t
pub record Config : Type 0 where
  pub my_ip : ℕ
  pub netmask : ℕ
  pub gateway_ip : ℕ
  pub dns_ip : ℕ
  pub ready : Bool

-- nic_t: whether its driver takes the frame that is offered to it as the n-th, how many were
-- offered, and those that it took, the last one first.
pub record Nic : Type 0 where
  pub present : Bool
  pub mac : List ℕ
  pub takes : ℕ → Bool
  pub offered : ℕ
  pub sent : List (List ℕ)

-- nic.send
unfoldable pub nic_send : Nic → List ℕ → Bool × Nic
nic_send n frame = (
  n.takes n.offered,
  record n { offered = n.offered + 1; sent = if n.takes n.offered then frame ∷ n.sent else n.sent },
)

-- The states of an arp_entry_t, and the entry.
pub data Known : Type 0 where
  unused asked resolved : Known

pub record Entry : Type 0 where
  pub ip : ℕ
  pub mac : List ℕ
  pub known : Known
  pub age : ℕ

-- ip_pending_t, when its `pending` is set.
pub record Parked : Type 0 where
  pub dst_ip : ℕ
  pub proto : ℕ
  pub payload : List ℕ

-- The variables of the stack below TCP: nic, net_cfg, arp_cache, ip_pending and net_ticks.
pub record Net : Type 0 where
  pub nic : Nic
  pub cfg : Config
  pub cache : List Entry
  pub parked : Option Parked
  pub ticks : ℕ
