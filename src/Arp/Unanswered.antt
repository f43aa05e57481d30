-- ===== src/Arp/Unanswered.antt =====
-- kernel/arp.h: frames that are no answer to what was asked.
use mini_win.Base.{ℕ, ◌≡◌, refl, ◌⊎◌, inl, inr, true, false, not, ◌&&◌, ◌||◌, List, arith, ltb}
use mini_win.Base.{◌==◌, Bool-cases, Option-cases, length, if_cases}
use mini_win.Net.{Net, get16, get32}
use mini_win.Arp.{handle_frame, plausible, on_reply, on_request, send_reply, remember, mac_at}
use mini_win.Arp.{same_mac, find_pending_slot}
use mini_win.Arp.Frames.{IsAnswer}

-- The waiting packet and the addresses of the machine are what they were.
pub record Kept (n n' : Net) : Type 0 where
  pub parked : n'.parked ≡ n.parked
  pub cfg : n'.cfg ≡ n.cfg

pub kept : {n : Net} → Kept n n
kept = record { parked = refl; cfg = refl }

send_reply-Kept : (n : Net) (mine : ℕ) (mac : List ℕ) (ip : ℕ) → Kept n (send_reply n mine mac ip)
unfolding send_reply
send_reply-Kept n mine mac ip =
    if_cases (Kept n) (not n.nic.present) (λ e. kept) (λ e. record { parked = refl; cfg = refl })

on_request-Kept : (n : Net) (frame : List ℕ) → Kept n (on_request n frame)
unfolding on_request
on_request-Kept n frame =
    let k =
      send_reply-Kept (record n { cache = remember n.cache (get32 frame 28) (mac_at frame 22) })
        n.cfg.my_ip (mac_at frame 22) (get32 frame 28) in
    record { parked = k.parked; cfg = k.cfg }

module _ (resolved_cb : ℕ → List ℕ → Net → Net) (n : Net) (frame : List ℕ) where
  -- A frame is an answer, or leaves alone all but the cache and the card.
  abbrev Split : Net → Type 0
  Split n' = IsAnswer n frame ⊎ Kept n n'

  on_reply-Split :
      ltb (length frame) 42 ≡ false
      → not (get16 frame 12 == 0x0806) ≡ false
      → not (plausible n frame) ≡ false
      → (get16 frame 20 == 2) ≡ true
      → IsAnswer n frame ⊎ Kept n (on_reply resolved_cb n frame)
  unfolding on_reply
  on_reply-Split long arp fields reply =
      elim (Bool-cases
        (not (get32 frame 38 == n.cfg.my_ip) || not (same_mac (mac_at frame 32) n.nic.mac))) [
          | inl e ↦ rw e (inr kept)
          | inr e ↦ rw e (elim (Option-cases (find_pending_slot n.cache (get32 frame 28))) [
            | inl f ↦ rw f (inr kept)
            | inr (slot, f) ↦ inl (record {
              long = ground (arith, long);
              of_arp = ground (arith, arp);
              fields = ground (arith, fields);
              reply = ground (arith, reply);
              for_us = ground (arith, e);
              for_card = ground (arith, e);
              slot = slot;
              outstanding = f;
            })
          ])
        ]

  pub handle_frame_cases : IsAnswer n frame ⊎ Kept n (handle_frame resolved_cb n frame).1
  unfolding handle_frame
  handle_frame_cases = elim (Bool-cases (ltb (length frame) 42)) [
    | inl e ↦ rw e (inr kept)
    | inr e ↦ rw e (elim (Bool-cases (not (get16 frame 12 == 0x0806))) [
      | inl f ↦ rw f (inr kept)
      | inr f ↦ rw f (elim (Bool-cases (not (plausible n frame))) [
        | inl g ↦ rw g (inr kept)
        | inr g ↦ rw g (elim (Bool-cases (get16 frame 20 == 2)) [
          | inl h ↦ rw h (on_reply-Split e f g h)
          | inr h ↦ rw h (elim (Bool-cases (n.cfg.ready && get32 frame 38 == n.cfg.my_ip)) [
            | inl us ↦ rw us (inr (on_request-Kept n frame))
            | inr us ↦ rw us (inr kept)
          ])
        ])
      ])
    ])
  ]
