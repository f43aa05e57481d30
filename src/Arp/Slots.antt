-- ===== src/Arp/Slots.antt =====
-- kernel/arp.h: the slots that are in use for an address, and requests.

use mini_win.Base.{ℕ, ◌<◌, ◌≡◌, inl, inr, true, false, none, some, List, arith, subst, ◌==◌}
use mini_win.Base.{Bool-cases, Option-cases, length, set, length-set, get_or-set_self}
use mini_win.Base.{get_or-set_ne}
use mini_win.Net.{Net, Entry}
use mini_win.Arp.{first_slot, slot_entry, is_unused, free_entry, find_or_alloc_slot, send_request}
use mini_win.Arp.Cache.{IsFirst, Searched, first_slot-Searched, in_use_for}

-- No slot but one is in use for an address.
unfoldable pub OneEach : List Entry → Type 0
OneEach cache =
    (i j : ℕ)
    → i < length cache
    → j < length cache
    → is_unused (slot_entry cache i).known ≡ false
    → is_unused (slot_entry cache j).known ≡ false
    → (slot_entry cache i).ip ≡ (slot_entry cache j).ip
    → i ≡ j

pub put_here :
    (cache : List Entry) (k j : ℕ) (e : Entry)
    → k < length cache
    → (j == k) ≡ true
    → slot_entry (set cache k e) j ≡ e
put_here cache k j e inside h =
    subst (λ t. slot_entry (set cache k e) t ≡ e) {x = k} {y = j} (ground (arith, h))
      (get_or-set_self cache k e free_entry inside)

pub put_there :
    (cache : List Entry) (k j : ℕ) (e : Entry)
    → (j == k) ≡ false
    → slot_entry (set cache k e) j ≡ slot_entry cache j
put_there cache k j e h = get_or-set_ne cache k j e free_entry (λ q. ground (arith, h, q))

-- An entry put in a slot, where no other slot is in use for its address.
pub put-OneEach :
    (cache : List Entry) (k : ℕ) (e : Entry)
    → k < length cache
    → OneEach cache
    → ((j : ℕ)
        → j < length cache
        → is_unused (slot_entry cache j).known ≡ false
        → (slot_entry cache j).ip ≡ e.ip
        → j ≡ k)
    → OneEach (set cache k e)
unfolding OneEach
put-OneEach cache k e inside one alone i j lti ltj ui uj same_ip =
    let li : i < length cache = omega (arith, length-set cache k e) in
    let lj : j < length cache = omega (arith, length-set cache k e) in
    elim (Bool-cases (i == k)) [
      | inl a ↦ elim (Bool-cases (j == k)) [
        | inl b ↦ ground (arith, a, b)
        | inr b ↦
            ground (arith, a, put_here cache k i e inside a, put_there cache k j e b, alone j lj)
      ]
      | inr a ↦ elim (Bool-cases (j == k)) [
        | inl b ↦
            ground (arith, b, put_here cache k j e inside b, put_there cache k i e a, alone i li)
        | inr b ↦ ground (arith, put_there cache k i e a, put_there cache k j e b, one i j li lj)
      ]
    ]

find_or_alloc_slot-cases :
    (cache : List Entry) (ip : ℕ)
    → length cache ≡ 8
    → (find_or_alloc_slot cache ip < length cache)
      × ((j : ℕ)
          → j < length cache
          → is_unused (slot_entry cache j).known ≡ false
          → (slot_entry cache j).ip ≡ ip
          → OneEach cache
          → j ≡ find_or_alloc_slot cache ip)
unfolding find_or_alloc_slot Searched OneEach
find_or_alloc_slot-cases cache ip size = elim (Option-cases (first_slot (in_use_for ip) cache)) [
  | inr (i, e) ↦ rw (e, find_or_alloc_slot) (first_is i e)
  | inl e ↦
      rw (e, find_or_alloc_slot)
        (elim (Option-cases (first_slot (λ x. is_unused x.known) cache)) [
          | inl f ↦
              rw (f, find_or_alloc_slot)
                (omega (arith, size), λ j lt live same one. nobody e j lt live same)
          | inr (i, f) ↦
              rw (f, find_or_alloc_slot)
                (free_inside i f, λ j lt live same one. nobody e j lt live same)
        ])
]
  where
    first_is :
        (i : ℕ)
        → first_slot (in_use_for ip) cache ≡ some i
        → (i < length cache)
          × ((j : ℕ)
              → j < length cache
              → is_unused (slot_entry cache j).known ≡ false
              → (slot_entry cache j).ip ≡ ip
              → OneEach cache
              → j ≡ i)
    first_is i e =
        let g : IsFirst (in_use_for ip) cache i =
          subst (Searched (in_use_for ip) cache) e (first_slot-Searched (in_use_for ip) cache) in
        (
          g.inside,
          λ j lt live same one.
              one j i lt g.inside live (ground (arith, g.passes)) (ground (arith, g.passes, same)),
        )

    nobody :
        {A : Type 0}
        → first_slot (in_use_for ip) cache ≡ none
        → (j : ℕ) → j < length cache
        → is_unused (slot_entry cache j).known ≡ false
        → (slot_entry cache j).ip ≡ ip
        → A
    nobody e j lt live same =
        let g : (k : ℕ) → k < length cache → in_use_for ip (slot_entry cache k) ≡ false =
          subst (Searched (in_use_for ip) cache) e (first_slot-Searched (in_use_for ip) cache) in
        absurd (ground (arith, g j lt, live, same))

    free_inside : (i : ℕ) → first_slot (λ x. is_unused x.known) cache ≡ some i → i < length cache
    free_inside i f =
        let g : IsFirst (λ x. is_unused x.known) cache i =
          subst (Searched (λ x. is_unused x.known) cache) f
            (first_slot-Searched (λ x. is_unused x.known) cache) in
        g.inside

-- A request keeps at most one slot in use for an address.
pub send_request-OneEach :
    (n : Net) (sender_ip target_ip : ℕ)
    → length n.cache ≡ 8
    → OneEach n.cache
    → OneEach (send_request n sender_ip target_ip).cache
unfolding send_request
send_request-OneEach n from ip size one = elim (Bool-cases n.nic.present) [
  | inr e ↦ rw e one
  | inl e ↦ rw e (
      let (inside, only) = find_or_alloc_slot-cases n.cache ip size in
      put-OneEach n.cache (find_or_alloc_slot n.cache ip) _ inside one
        (λ j lt live same. only j lt live same one))
]
