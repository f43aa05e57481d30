-- ===== src/Arp/Cache.antt =====
-- kernel/arp.h: the searches of the cache, and what a frame may change in it.
use mathlib.Core.Option
use mini_win.Base.{zero, not, ◌&&◌, ◌||◌, subst, ◌==◌, Option-cases, ℕ, suc, ◌<◌, ◌≡◌, inl, inr}
use mini_win.Base.{Bool, true, false, Option, none, some, List, [], ◌∷◌, arith, Bool-cases}
use mini_win.Base.{length}
use mini_win.Net.{Net, Entry, get32}
use mini_win.Arp.{first_slot, slot_entry, is_unused, is_asked, find_pending_slot, send_reply}
use mini_win.Arp.{learn, on_reply, mac_at, same_mac, plausible}

-- A slot that the search finds passes the test, and those before it do not.
pub record IsFirst (test : Entry → Bool) (cache : List Entry) (i : ℕ) : Type 0 where
  pub inside : i < length cache
  pub passes : test (slot_entry cache i) ≡ true
  pub before : (j : ℕ) → j < i → test (slot_entry cache j) ≡ false

unfoldable pub Searched : (Entry → Bool) → List Entry → Option ℕ → Type 0
Searched test cache (some i) = IsFirst test cache i
Searched test cache none = (j : ℕ) → j < length cache → test (slot_entry cache j) ≡ false

pub first_slot-Searched :
    (test : Entry → Bool) (cache : List Entry) → Searched test cache (first_slot test cache)
unfolding first_slot Searched
first_slot-Searched test [] = λ j lt. absurd (omega arith)
first_slot-Searched test (e ∷ es) = elim (Bool-cases (test e)) [
  | inl t ↦
      rw t (record { inside = omega arith; passes = t; before = λ j lt. absurd (omega arith) })
  | inr f ↦ rw f (later (first_slot test es) (first_slot-Searched test es) f)
]
  where
    later :
        (o : Option ℕ)
        → Searched test es o
        → test e ≡ false
        → Searched test (e ∷ es) (Option.map suc o)
    later none g f = λ j lt. at_slot j lt
      where
        at_slot : (j : ℕ) → j < length (e ∷ es) → test (slot_entry (e ∷ es) j) ≡ false
        at_slot zero lt = f
        at_slot (suc j) lt = g j (omega arith)
    later (some i) g f = record {
      inside = omega (arith, g.inside);
      passes = g.passes;
      before = λ j lt. at_slot j lt;
    }
      where
        at_slot : (j : ℕ) → j < suc i → test (slot_entry (e ∷ es) j) ≡ false
        at_slot zero lt = f
        at_slot (suc j) lt = g.before j (omega arith)

-- The two tests of a slot.
abbrev pub waits_for : ℕ → Entry → Bool
waits_for ip e = e.ip == ip && is_asked e.known

abbrev pub in_use_for : ℕ → Entry → Bool
in_use_for ip e = not (is_unused e.known) && e.ip == ip

-- What a frame can make of the cache: nothing; the answer to an outstanding request, from a reply
-- to our own address, in the slot of the request; or the sender of a request for our address, if no
-- slot is in use for it, in the first free slot.
pub data Learns (n : Net) (frame : List ℕ) : List Entry → Type 0 where
  unchanged : Learns n frame n.cache
  answered :
      (i : ℕ)
      → IsFirst (waits_for (get32 frame 28)) n.cache i
      → plausible n frame ≡ true
      → get32 frame 38 ≡ n.cfg.my_ip
      → same_mac (mac_at frame 32) n.nic.mac ≡ true
      → Learns n frame (learn n.cache i (get32 frame 28) (mac_at frame 22))
  noted :
      (i : ℕ)
      → IsFirst (λ e. is_unused e.known) n.cache i
      → plausible n frame ≡ true
      → get32 frame 38 ≡ n.cfg.my_ip
      → ((j : ℕ) → j < length n.cache → in_use_for (get32 frame 28) (slot_entry n.cache j) ≡ false)
      → Learns n frame (learn n.cache i (get32 frame 28) (mac_at frame 22))

pub send_reply-cache :
    (n : Net) (ip : ℕ) (mac : List ℕ) (to : ℕ) → (send_reply n ip mac to).cache ≡ n.cache
unfolding send_reply
send_reply-cache n ip mac to = ground arith

module _ (resolved_cb : ℕ → List ℕ → Net → Net)
    (keeps : (ip : ℕ) (mac : List ℕ) (n : Net) → (resolved_cb ip mac n).cache ≡ n.cache) where
  pub on_reply-Learns :
      (n : Net) (frame : List ℕ)
      → plausible n frame ≡ true
      → Learns n frame (on_reply resolved_cb n frame).cache
  unfolding on_reply find_pending_slot Searched
  on_reply-Learns n frame ok =
      let ip = get32 frame 28 in
      elim (Bool-cases
        (not (get32 frame 38 == n.cfg.my_ip) || not (same_mac (mac_at frame 32) n.nic.mac))) [
          | inl e ↦ rw e unchanged
          | inr e ↦ rw e (elim (Option-cases (first_slot (waits_for ip) n.cache)) [
            | inl f ↦ rw f unchanged
            | inr (i, f) ↦
                rw
                  (
                    f,
                    keeps ip (mac_at frame 22)
                        (record n { cache = learn n.cache i ip (mac_at frame 22) }),
                  )
                  (answered i
                    (subst (Searched (waits_for ip) n.cache) f
                      (first_slot-Searched (waits_for ip) n.cache))
                    ok (ground arith) (ground arith))
          ])
        ]
