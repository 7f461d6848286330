-- ===== src/Sandbox/Pool/Leases.antt =====
-- Box ids under any interleaving of sessions (backend/judge/app/sandbox/pool.py and isolate.py).
use yandex_codeforces_analyz.Prelude.{
  ℕ, zero, suc, ◌+◌, ◌≤◌, ◌<◌, ◌≡◌, refl, ap, ◌∙◌, Bool, true, false, not, ◌&&◌, ◌||◌, some, List,
  [], ◌∷◌, ◌++◌, arith, ◌==◌, if◌then◌else◌, any_of, count_of,
}
use yandex_codeforces_analyz.Sandbox.{ok}
use yandex_codeforces_analyz.Sandbox.Pool.{
  BoxPool, make_pool, range_from, add_broken, lease_begin, session_end, init_failed,
}

abbrev pub count : ℕ → List ℕ → ℕ
count b = count_of (λ c. c == b)

abbrev pub is_in : ℕ → List ℕ → Bool
is_in b = any_of (λ c. c == b)

-- one holder gives its box up
pub give_up : ℕ → List ℕ → List ℕ
give_up b [] = []
give_up b (c ∷ cs) = let rest = give_up b cs in if c == b then cs else c ∷ rest

-- the pool, and the ids that sessions hold
pub record World : Type 0 where
  pub pool : BoxPool
  pub leased : List ℕ

-- a step of any of the sessions that run at once
pub data Step : World → World → Type 0 where
  acquire :
      (w : World) (b : ℕ) (p : BoxPool)
      → lease_begin w.pool ≡ some (b, p)
      → Step w (record { pool = p; leased = b ∷ w.leased })
  start_fails :
      (w : World) (b : ℕ)
      → is_in b w.leased ≡ true
      → Step w (record { pool = init_failed b w.pool; leased = give_up b w.leased })
  finish :
      (w : World) (b : ℕ) (cleaned keep : Bool)
      → is_in b w.leased ≡ true
      → Step w (record { pool = session_end cleaned keep b w.pool; leased = give_up b w.leased })

pub data Reach (w : World) : World → Type 0 where
  here : Reach w w
  next : {u v : World} → Reach w u → Step u v → Reach w v

-- what holds of one id
pub record Tracked (b : ℕ) (w : World) : Type 0 where
  pub known_once : count b w.pool.ids ≤ 1
  pub at_most_one : count b w.pool.free + count b w.leased ≤ count b w.pool.ids
  pub kept :
      is_in b w.pool.broken ≡ false → count b w.pool.free + count b w.leased ≡ count b w.pool.ids

count-append : (b : ℕ) (xs ys : List ℕ) → count b (xs ++ ys) ≡ count b xs + count b ys
count-append b [] ys = omega arith
count-append b (x ∷ xs) ys = ground (arith, count-append b xs ys)

count-give_up :
    (b c : ℕ) (xs : List ℕ)
    → is_in c xs ≡ true
    → count b xs ≡ count b (give_up c xs) + (if c == b then 1 else 0)
unfolding give_up
count-give_up b c [] h = cc
count-give_up b c (x ∷ xs) h = ground (arith, count-give_up b c xs)

is_in-add_broken : (b c : ℕ) (bs : List ℕ) → is_in b (add_broken c bs) ≡ ((c == b) || is_in b bs)
unfolding add_broken
is_in-add_broken b c bs = ground arith

lease_begin_lem :
    (b : ℕ) (p p' : BoxPool)
    → lease_begin p ≡ some (b, p')
    → (p.free ≡ b ∷ p'.free) × (p'.ids ≡ p.ids) × (p'.broken ≡ p.broken)
unfolding lease_begin
lease_begin_lem b p p' h = ground arith

session_end_lem :
    (b c : ℕ) (cleaned keep : Bool) (p : BoxPool)
    → let q = session_end cleaned keep c p in
      (q.ids ≡ p.ids)
      × (count b q.free ≡ count b p.free + (if keep && (c == b) then 1 else 0))
      × (is_in b q.broken ≡ ((not keep || not cleaned) && (c == b) || is_in b p.broken))
unfolding session_end
session_end_lem b c true true p = (refl, ground (arith, count-append b p.free (c ∷ [])), refl)
session_end_lem b c true false p = (refl, ground arith, is_in-add_broken b c p.broken)
session_end_lem b c false true p =
    (refl, ground (arith, count-append b p.free (c ∷ [])), is_in-add_broken b c p.broken)
session_end_lem b c false false p = (
  refl,
  ground arith,
  is_in-add_broken b c (add_broken c p.broken) ∙ ground (arith, is_in-add_broken b c p.broken),
)

Step-Tracked : (b : ℕ) {u v : World} → Step u v → Tracked b u → Tracked b v
unfolding init_failed
Step-Tracked b (acquire w c p h) t = ground (arith, lease_begin_lem c w.pool p h, t.kept)
Step-Tracked b (start_fails w c h) t =
    ground (arith, t.kept, count-give_up b c w.leased h, count-append b w.pool.free (c ∷ []))
Step-Tracked b (finish w c cleaned keep h) t =
    ground (arith, t.kept, count-give_up b c w.leased h, session_end_lem b c cleaned keep w.pool)

Reach-Tracked : (b : ℕ) {u v : World} → Tracked b u → Reach u v → Tracked b v
Reach-Tracked b t here = t
Reach-Tracked b t (next r s) = Step-Tracked b s (Reach-Tracked b t r)

count-range_from_below : (b first size : ℕ) → b < first → count b (range_from first size) ≡ 0
unfolding range_from
count-range_from_below b first zero h = refl
count-range_from_below b first (suc size) h =
    ground (arith, count-range_from_below b (first + 1) size)

count-range_from : (b first size : ℕ) → count b (range_from first size) ≤ 1
unfolding range_from
count-range_from b first zero = omega arith
count-range_from b first (suc size) =
    ground (arith, count-range_from b (first + 1) size, count-range_from_below b (first + 1) size)

make_pool-Tracked :
    (b size first_id : ℕ) (p : BoxPool)
    → make_pool size first_id ≡ ok p
    → Tracked b (record { pool = p; leased = [] })
unfolding make_pool
make_pool-Tracked b size first_id p h = ground (arith, count-range_from b first_id size)

-- From a new pool, whatever sessions start, fail and end and however they interleave: no box is
-- held by two sessions at once, a box that a session holds is not in the queue, and a box that was
-- never marked broken is either held or in the queue, so none is lost.
pub boxes_exclusive :
    (size first_id : ℕ) (p : BoxPool) (w : World) (b : ℕ)
    → make_pool size first_id ≡ ok p
    → Reach (record { pool = p; leased = [] }) w
    → (count b w.pool.free + count b w.leased ≤ 1)
      × (is_in b w.pool.broken ≡ false
          → count b w.pool.free + count b w.leased ≡ count b w.pool.ids)
boxes_exclusive size first_id p w b made r =
    let t = Reach-Tracked b (make_pool-Tracked b size first_id p made) r in
    (omega (arith, t.known_once, t.at_most_one), t.kept)

-- A box whose clean-up failed is marked broken and still goes back to the queue, so the next
-- session gets it where no other box is free: `retire` does not take it out of circulation.
pub retired_box_returns :
    (b : ℕ) (p : BoxPool)
    → p.free ≡ []
    → let q = session_end false true b p in
      (is_in b q.broken ≡ true) × (lease_begin q ≡ some (b, record q { free = [] }))
unfolding lease_begin session_end
retired_box_returns b p e = (
  ground (arith, is_in-add_broken b b p.broken),
  ap (λ l. lease_begin (record (session_end false true b p) { free = l ++ (b ∷ []) })) e,
)
