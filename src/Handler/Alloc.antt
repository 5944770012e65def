-- ===== src/Handler/Alloc.antt =====
-- lafere/src/handler/handler.rs: the ids that one side hands out.
use lafere.Base.{
  ℕ, zero, suc, ◌+◌, ◌≤◌, ◌<◌, ◌≡◌, refl, arith, Option, none, some, List, [], ◌∷◌, All, leb, ◌⊎◌,
  inl, inr, Bool-cases,
}
use mathlib.Core.Path.{subst₂}
use lafere.Handler.Ids.{
  u32_max, u32_mid, HandlerState, uni_server, uni_client, bi_server, bi_client, checked_next,
  next_in_lower_half, next_id, enable_server_requests,
}

-- What the code keeps of its counters: ids are u32s, and a client that takes requests stays in the
-- lower half, the server in the upper.
abbrev pub IsCounter : HandlerState → Type 0
IsCounter uni_server = Unit
IsCounter (uni_client none) = Unit
IsCounter (uni_client (some c)) = c ≤ u32_max
IsCounter (bi_server none) = Unit
IsCounter (bi_server (some c)) = (u32_mid < c) × (c ≤ u32_max)
IsCounter (bi_client none) = Unit
IsCounter (bi_client (some c)) = c ≤ u32_mid

-- The ids that may still be handed out, now or after server requests are enabled.
abbrev pub Unused : HandlerState → ℕ → Type 0
Unused uni_server id = (u32_mid < id) × (id ≤ u32_max)
Unused (uni_client none) id = ⊥
Unused (uni_client (some c)) id = (c ≤ id) × (id ≤ u32_max)
Unused (bi_server none) id = ⊥
Unused (bi_server (some c)) id = (c ≤ id) × (id ≤ u32_max)
Unused (bi_client none) id = ⊥
Unused (bi_client (some c)) id = (c ≤ id) × (id ≤ u32_mid)

-- `id` was unused, and what is unused in the next state lies behind it.
abbrev pub Hands : HandlerState → ℕ → HandlerState → Type 0
Hands s id s' = IsCounter s' × Unused s id × ((j : ℕ) → Unused s' j → Unused s j × (id < j))

upper_half_or_all :
    (lo c : ℕ)
    → c ≤ u32_max
    → (n : Option ℕ) → checked_next (some c) ≡ n
    → ((n ≡ none) ⊎ ((n ≡ some (c + 1)) × (c + 1 ≤ u32_max)))
unfolding checked_next
upper_half_or_all lo c h n e = ground arith

lower_half :
    (c : ℕ)
    → c ≤ u32_mid
    → (n : Option ℕ) → next_in_lower_half (some c) ≡ n
    → ((n ≡ none) ⊎ ((n ≡ some (c + 1)) × (c + 1 ≤ u32_mid)))
unfolding next_in_lower_half
lower_half c h n e = ground arith

uni_client-Hands :
    (c : ℕ) → c ≤ u32_max → Hands (uni_client (some c)) c (uni_client (checked_next (some c)))
uni_client-Hands c h = elim (upper_half_or_all 0 c h _ refl) [
  | inl full ↦ rw full (tt, omega arith, λ j hj. absurd hj)
  | inr (more, le) ↦ rw more (omega arith, omega arith, λ j hj. omega arith)
]

bi_server-Hands :
    (c : ℕ)
    → u32_mid < c
    → c ≤ u32_max
    → Hands (bi_server (some c)) c (bi_server (checked_next (some c)))
bi_server-Hands c lo h = elim (upper_half_or_all 0 c h _ refl) [
  | inl full ↦ rw full (tt, omega arith, λ j hj. absurd hj)
  | inr (more, le) ↦ rw more (omega arith, omega arith, λ j hj. omega arith)
]

bi_client-Hands :
    (c : ℕ) → c ≤ u32_mid → Hands (bi_client (some c)) c (bi_client (next_in_lower_half (some c)))
bi_client-Hands c h = elim (lower_half c h _ refl) [
  | inl full ↦ rw full (tt, omega arith, λ j hj. absurd hj)
  | inr (more, le) ↦ rw more (omega arith, omega arith, λ j hj. omega arith)
]

abbrev NextId : Type 0
NextId = Option (Option ℕ × HandlerState)

id_of :
    {a b : ℕ} {s t : HandlerState}
    → ◌≡◌ {A = NextId} (some (some a, s)) (some (some b, t))
    → (a ≡ b) × (s ≡ t)
id_of e = ground arith

same_Hands :
    (s : HandlerState) {a b : ℕ} {t t' : HandlerState}
    → ◌≡◌ {A = NextId} (some (some a, t)) (some (some b, t'))
    → Hands s a t
    → Hands s b t'
same_Hands s e h = let (p, q) = id_of e in subst₂ (λ b t. Hands s b t) p q h

-- An id that is handed out was unused, and every id that is unused afterwards is larger and was
-- unused before.
pub next_id-Hands :
    (s s' : HandlerState) (id : ℕ) → IsCounter s → next_id s ≡ some (some id, s') → Hands s id s'
unfolding next_id
next_id-Hands uni_server s' id hc e = cc
next_id-Hands (uni_client none) s' id hc e = cc
next_id-Hands (uni_client (some c)) s' id hc e =
    same_Hands (uni_client (some c)) e (uni_client-Hands c hc)
next_id-Hands (bi_server none) s' id hc e = cc
next_id-Hands (bi_server (some c)) s' id hc e =
    same_Hands (bi_server (some c)) e (bi_server-Hands c hc.0 hc.1)
next_id-Hands (bi_client none) s' id hc e = cc
next_id-Hands (bi_client (some c)) s' id hc e =
    same_Hands (bi_client (some c)) e (bi_client-Hands c hc)

-- Once a state is out of ids no id is unused, and it stays as it is.
pub next_id-none :
    (s s' : HandlerState) → next_id s ≡ some (none, s') → ((j : ℕ) → ¬ (Unused s j)) × (s' ≡ s)
unfolding next_id checked_next next_in_lower_half
next_id-none uni_server s' e = cc
next_id-none (uni_client none) s' e = (λ j h. h, ground arith)
next_id-none (uni_client (some c)) s' e = cc
next_id-none (bi_server none) s' e = (λ j h. h, ground arith)
next_id-none (bi_server (some c)) s' e = cc
next_id-none (bi_client none) s' e = (λ j h. h, ground arith)
next_id-none (bi_client (some c)) s' e = cc

-- Enabling server requests makes no id unused that was not.
pub enable-Unused :
    (s : HandlerState)
    → IsCounter s
    → IsCounter (enable_server_requests s).0
      × ((j : ℕ) → Unused (enable_server_requests s).0 j → Unused s j)
unfolding enable_server_requests
enable-Unused uni_server hc = (omega arith, λ j hj. omega arith)
enable-Unused (uni_client none) hc = (tt, λ j hj. absurd hj)
enable-Unused (uni_client (some c)) hc = elim (Bool-cases (leb c u32_mid)) [
  | inl low ↦ rw low (ground arith, λ j hj. omega arith)
  | inr high ↦ rw high (tt, λ j hj. absurd hj)
]
enable-Unused (bi_server c) hc = (hc, λ j hj. hj)
enable-Unused (bi_client c) hc = (hc, λ j hj. hj)

-- The ids of `n` requests, as far as there are ids.
pub handed : ℕ → HandlerState → List ℕ
handed zero s = []
handed (suc n) s = elim (next_id s) [
  | none ↦ []
  | some (id?, s') ↦ elim id? [ none ↦ [] | some id ↦ id ∷ handed n s' ]
]

abbrev pub Ascending : List ℕ → Type 0
Ascending [] = Unit
Ascending (x ∷ xs) = All (λ y. x < y) xs × Ascending xs

All-map : {P Q : ℕ → Type 0} (f : (j : ℕ) → P j → Q j) (xs : List ℕ) → All P xs → All Q xs
All-map f [] h = tt
All-map f (x ∷ xs) (hx, hs) = (f x hx, All-map f xs hs)

-- What `next_id` may give.
pub data Next (s : HandlerState) : Type 0 where
  panics : next_id s ≡ none → Next s
  out : (s' : HandlerState) → next_id s ≡ some (none, s') → Next s
  gives : (id : ℕ) (s' : HandlerState) → next_id s ≡ some (some id, s') → Next s

pub split_on_id : (s : HandlerState) → Next s
split_on_id s = go (next_id s) refl
  where
    go : (r : Option (Option ℕ × HandlerState)) → next_id s ≡ r → Next s
    go none e = panics e
    go (some (none, s')) e = out s' e
    go (some (some id, s')) e = gives id s' e

handed_gives :
    (n id : ℕ) (s s' : HandlerState)
    → next_id s ≡ some (some id, s')
    → handed (suc n) s ≡ id ∷ handed n s'
unfolding handed
handed_gives n id s s' e = rw (e, handed)

handed_out : (n : ℕ) (s s' : HandlerState) → next_id s ≡ some (none, s') → handed (suc n) s ≡ []
unfolding handed
handed_out n s s' e = rw (e, handed)

handed_panics : (n : ℕ) (s : HandlerState) → next_id s ≡ none → handed (suc n) s ≡ []
unfolding handed
handed_panics n s e = rw (e, handed)

-- However many requests are made of a state whose counter is in range, the ids handed out rise, so
-- that no id is handed out twice, and each was unused before.
pub handed-Ascending :
    (n : ℕ) (s : HandlerState) → IsCounter s → Ascending (handed n s) × All (Unused s) (handed n s)
handed-Ascending zero s hc = unfold handed in (tt, tt)
handed-Ascending (suc n) s hc = elim (split_on_id s) [
  | panics e ↦ rw (handed_panics n s e) (tt, tt)
  | out s' e ↦ rw (handed_out n s s' e) (tt, tt)
  | gives id s' e ↦
      let (hc', unused, later) = next_id-Hands s s' id hc e in
      let (rising, unused') = handed-Ascending n s' hc' in
      rw (handed_gives n id s s' e) (
        (All-map (λ j hj. (later j hj).1) (handed n s') unused', rising),
        (unused, All-map (λ j hj. (later j hj).0) (handed n s') unused'),
      )
]
