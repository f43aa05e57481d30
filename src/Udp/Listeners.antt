-- ===== src/Udp/Listeners.antt =====
-- kernel/udp.h: the loop over the listeners.
use mini_win.Base.{ℕ, ◌≡◌, refl, ap, ◌≢◌, ◌⊎◌, inl, inr, true, false, ◌&&◌, none, some, List, []}
use mini_win.Base.{◌∷◌, ◌++◌, arith, ◌==◌, Bool-cases}
use mini_win.Udp.{Listener, find_listener}

-- No active listener waits on the port.
pub NobodyOn : ℕ → List Listener → Type 0
NobodyOn port [] = Unit
NobodyOn port (l ∷ ls) = ((l.active ≡ false) ⊎ (l.port ≢ port)) × NobodyOn port ls

-- The first active listener on a port, with what stands before it and after it.
pub record IsFirstOn (port : ℕ) (ls before : List Listener) (l : Listener) (after : List Listener)
    : Type 0 where
  pub whole : ls ≡ before ++ (l ∷ after)
  pub nobody : NobodyOn port before
  pub live : l.active ≡ true
  pub on : l.port ≡ port

-- The listener that is found is that one, and there is none if nothing is found.
pub find_listener_cases :
    (port : ℕ) (ls : List Listener)
    → ((before : List Listener) × (l : Listener) × (after : List Listener) × IsFirstOn port ls
          before l after
        × (find_listener ls port ≡ some l.handler))
      ⊎ (NobodyOn port ls × (find_listener ls port ≡ none))
unfolding find_listener NobodyOn
find_listener_cases port [] = inr (tt, refl)
find_listener_cases port (k ∷ ls) = elim (Bool-cases (k.active && k.port == port)) [
  | inl here ↦ inl (
    [],
    k,
    ls,
    record { whole = refl; nobody = tt; live = ground (arith, here); on = ground (arith, here) },
    rw here refl,
  )
  | inr past ↦ elim (find_listener_cases port ls) [
    | inl (before, l, after, first, found) ↦ inl (
      k ∷ before,
      l,
      after,
      record {
        whole = ap (λ xs. k ∷ xs) first.whole;
        nobody = (passed k past, first.nobody);
        live = first.live;
        on = first.on;
      },
      rw past found,
    )
    | inr (nobody, found) ↦ inr ((passed k past, nobody), rw past found)
  ]
]
  where
    passed :
        (k : Listener) → (k.active && k.port == port) ≡ false → (k.active ≡ false) ⊎ (k.port ≢ port)
    passed k past = elim (Bool-cases k.active) [
      | inl live ↦ inr (ground (arith, live, past))
      | inr dead ↦ inl dead
    ]
