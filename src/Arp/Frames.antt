-- ===== src/Arp/Frames.antt =====
-- kernel/arp.h: frames and the cache.

use mini_win.Base.{Bool, ◌≤◌, ◌||◌, length-set, get_or-set_self, not, ◌&&◌, arith, ltb, ◌==◌}
use mini_win.Base.{Bool-cases, get_or-set_ne, ℕ, ◌<◌, ◌≡◌, refl, inl, inr, true, false, none}
use mini_win.Base.{some, List, subst, Option-cases, length}
use mini_win.Arp.Slots.{OneEach, put-OneEach, put_here, put_there}
use mini_win.Arp.{find_pending_slot, on_reply, same_mac, first_slot, slot_entry, is_unused}
use mini_win.Arp.{is_resolved, free_entry, lookup, learn, on_request, remember, handle_frame}
use mini_win.Arp.{mac_at, plausible}
use mini_win.Net.{Net, Entry, resolved, get16, get32}
use mini_win.Arp.Cache.{IsFirst, Searched, first_slot-Searched, waits_for, in_use_for, Learns}
use mini_win.Arp.Cache.{unchanged, answered, noted, send_reply-cache, on_reply-Learns}

on_request-Learns :
    (n : Net) (frame : List ℕ)
    → plausible n frame ≡ true
    → get32 frame 38 ≡ n.cfg.my_ip
    → Learns n frame (on_request n frame).cache
unfolding on_request remember Searched
on_request-Learns n frame ok us =
    let ip = get32 frame 28 in
    let mac = mac_at frame 22 in
    rw
      (send_reply-cache (record n { cache = remember n.cache ip mac }) n.cfg.my_ip mac ip, remember)
      (elim (Option-cases (first_slot (in_use_for ip) n.cache)) [
        | inr (i, f) ↦ rw (f, remember) unchanged
        | inl f ↦
            rw (f, remember)
              (elim (Option-cases (first_slot (λ e. is_unused e.known) n.cache)) [
                | inl g ↦ rw g unchanged
                | inr (i, g) ↦ rw g (noted i (found n i g) ok us (none_of n ip f))
              ])
      ])
  where
    found :
        (n : Net) (i : ℕ)
        → first_slot (λ e. is_unused e.known) n.cache ≡ some i
        → IsFirst (λ e. is_unused e.known) n.cache i
    found n i g =
        subst (Searched (λ e. is_unused e.known) n.cache) g
          (first_slot-Searched (λ e. is_unused e.known) n.cache)

    none_of :
        (n : Net) (ip : ℕ)
        → first_slot (in_use_for ip) n.cache ≡ none
        → (j : ℕ) → j < length n.cache
        → in_use_for ip (slot_entry n.cache j) ≡ false
    none_of n ip f =
        subst (Searched (in_use_for ip) n.cache) f (first_slot-Searched (in_use_for ip) n.cache)

module _ (resolved_cb : ℕ → List ℕ → Net → Net)
    (keeps : (ip : ℕ) (mac : List ℕ) (n : Net) → (resolved_cb ip mac n).cache ≡ n.cache) where
  pub handle_frame-Learns :
      (n : Net) (frame : List ℕ) → Learns n frame (handle_frame resolved_cb n frame).1.cache
  unfolding handle_frame
  handle_frame-Learns n frame = elim (Bool-cases (ltb (length frame) 42)) [
    | inl e ↦ rw e unchanged
    | inr e ↦ rw e (elim (Bool-cases (not (get16 frame 12 == 0x0806))) [
      | inl f ↦ rw f unchanged
      | inr f ↦ rw f (elim (Bool-cases (plausible n frame)) [
        | inr ok ↦ rw ok unchanged
        | inl ok ↦ rw ok (elim (Bool-cases (get16 frame 20 == 2)) [
          | inl g ↦ rw g (on_reply-Learns resolved_cb keeps n frame ok)
          | inr g ↦ rw g (elim (Bool-cases (n.cfg.ready && get32 frame 38 == n.cfg.my_ip)) [
            | inl us ↦ rw us (on_request-Learns n frame ok (ground arith))
            | inr us ↦ rw us unchanged
          ])
        ])
      ])
    ])
  ]

  -- No frame, whatever it holds, changes an entry of the cache that is resolved, when what
  -- arp_resolved_cb points at leaves the cache alone.
  pub handle_frame-resolved :
      (n : Net) (frame : List ℕ) (i : ℕ)
      → is_resolved (slot_entry n.cache i).known ≡ true
      → slot_entry (handle_frame resolved_cb n frame).1.cache i ≡ slot_entry n.cache i
  handle_frame-resolved n frame i held =
      kept (handle_frame resolved_cb n frame).1.cache (handle_frame-Learns n frame)
    where
      kept : (c : List Entry) → Learns n frame c → slot_entry c i ≡ slot_entry n.cache i
      kept c unchanged = refl
      kept c (answered k first ok us mac) =
          get_or-set_ne n.cache k i _ _ (λ e. ground (arith, first.passes))
      kept c (noted k first ok us alone) =
          get_or-set_ne n.cache k i _ _ (λ e. ground (arith, first.passes))

  -- No frame makes two slots of the cache be in use for one address, when what arp_resolved_cb
  -- points at leaves the cache alone.
  pub handle_frame-OneEach :
      (n : Net) (frame : List ℕ)
      → OneEach n.cache
      → OneEach (handle_frame resolved_cb n frame).1.cache
  unfolding OneEach
  handle_frame-OneEach n frame one =
      kept (handle_frame resolved_cb n frame).1.cache (handle_frame-Learns n frame)
    where
      kept : (c : List Entry) → Learns n frame c → OneEach c
      kept c unchanged = one
      kept c (answered k first ok us mac) = put-OneEach n.cache k _ first.inside one (λ j lt live e.
          one j k lt first.inside live (ground (arith, first.passes))
            (ground (arith, first.passes, e)))
      kept c (noted k first ok us alone) =
          put-OneEach n.cache k _ first.inside one
            (λ j lt live e. absurd (ground (arith, alone j lt, live, e)))

-- A reply that the stack believes: to our address and to the card's, for an address that it asked.
pub record IsAnswer (n : Net) (frame : List ℕ) : Type 0 where
  pub long : 42 ≤ length frame
  pub of_arp : get16 frame 12 ≡ 0x0806
  pub fields : plausible n frame ≡ true
  pub reply : get16 frame 20 ≡ 2
  pub for_us : get32 frame 38 ≡ n.cfg.my_ip
  pub for_card : same_mac (mac_at frame 32) n.nic.mac ≡ true
  pub slot : ℕ
  pub outstanding : find_pending_slot n.cache (get32 frame 28) ≡ some slot

-- What such a reply does.
pub handle_frame-answer :
    (resolved_cb : ℕ → List ℕ → Net → Net) (n : Net) (frame : List ℕ) (a : IsAnswer n frame)
    → handle_frame resolved_cb n frame ≡ (
      true,
      resolved_cb
          (get32 frame 28)
          (mac_at frame 22)
          (record n { cache = learn n.cache a.slot (get32 frame 28) (mac_at frame 22) }),
    )
unfolding handle_frame on_reply
handle_frame-answer resolved_cb n frame a =
    rw (long, of_arp, a.fields, reply, mine, a.outstanding) refl
  where
    long : ltb (length frame) 42 ≡ false
    long = ground (arith, a.long)

    of_arp : (get16 frame 12 == 0x0806) ≡ true
    of_arp = ground (arith, a.of_arp)

    reply : (get16 frame 20 == 2) ≡ true
    reply = ground (arith, a.reply)

    mine :
        (not (get32 frame 38 == n.cfg.my_ip) || not (same_mac (mac_at frame 32) n.nic.mac)) ≡ false
    mine = ground (arith, a.for_us, a.for_card)

pub answer-lookup :
    (cache : List Entry) (ip slot : ℕ) (mac : List ℕ)
    → OneEach cache
    → find_pending_slot cache ip ≡ some slot
    → lookup (learn cache slot ip mac) ip ≡ some mac
unfolding lookup find_pending_slot Searched OneEach
answer-lookup cache ip slot mac one e =
    elim (Option-cases (first_slot known_as (learn cache slot ip mac))) [
      | inl f ↦
          let none_known : (j : ℕ)
              → j < length (learn cache slot ip mac)
              → known_as (slot_entry (learn cache slot ip mac) j) ≡ false =
            subst (Searched known_as (learn cache slot ip mac)) f
              (first_slot-Searched known_as (learn cache slot ip mac)) in
          absurd (
            ground (
              arith,
              here,
              none_known slot (omega (arith, was.inside, length-set cache slot (entry ip mac))),
            ))
      | inr (i, f) ↦
          let now : IsFirst known_as (learn cache slot ip mac) i =
            subst (Searched known_as (learn cache slot ip mac)) f
              (first_slot-Searched known_as (learn cache slot ip mac)) in
          rw f (elim (Bool-cases (i == slot)) [
            | inl q ↦ rw (put_here cache slot i (entry ip mac) was.inside q) refl
            | inr q ↦ absurd (
                ground (
                  arith,
                  q,
                  one i slot (omega (arith, now.inside, length-set cache slot (entry ip mac)))
                      was.inside,
                  put_there cache slot i (entry ip mac) q,
                  now.passes,
                  was.passes,
                ))
          ])
    ]
  where
    known_as : Entry → Bool
    known_as x = is_resolved x.known && x.ip == ip

    entry : ℕ → List ℕ → Entry
    entry ip mac = record { ip = ip; mac = mac; known = resolved; age = 0 }

    was : IsFirst (waits_for ip) cache slot
    was = subst (Searched (waits_for ip) cache) e (first_slot-Searched (waits_for ip) cache)

    here : slot_entry (learn cache slot ip mac) slot ≡ entry ip mac
    here = get_or-set_self cache slot (entry ip mac) free_entry was.inside
