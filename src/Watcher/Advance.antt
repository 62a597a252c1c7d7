-- ===== src/Watcher/Advance.antt =====
-- The loop of `update_next_firing` that moves an iterator past the present.
use nora_fleet.Common.{
  ℕ, zero, suc, ◌+◌, ◌≤◌, ◌<◌, ◌≡◌, refl, some, leb, leb→le, arith, ◌⊎◌, inl, inr, Bool-cases,
}
use nora_fleet.Watcher.{Cron, returns, skip_past, advance}

module _ (cron : Cron) where
  open cron use {Iter, get_next}

  -- An iterator always has a next time, later than the one at which it stands, and then stands there.
  abbrev pub IsIncreasing : (Iter → ℕ) → Type 0
  IsIncreasing time =
      (i : Iter) → (t : ℕ) × (j : Iter) × (get_next i ≡ some (t, j)) × (time i < t) × (time j ≡ t)

  -- The first time of an iterator that is after `now`, and the iterator that has given it.
  pub data First (now : ℕ) : Iter → ℕ → Iter → Type 0 where
    here : {i j : Iter} {t : ℕ} → get_next i ≡ some (t, j) → now < t → First now i t j
    later :
        {i j k : Iter} {s t : ℕ}
        → get_next i ≡ some (s, j)
        → s ≤ now
        → First now j t k
        → First now i t k

  pub First-after : {now : ℕ} {i j : Iter} {t : ℕ} → First now i t j → now < t
  First-after (here e h) = h
  First-after (later e h f) = First-after f

  found :
      {now s t : ℕ} {i j k : Iter}
      → get_next i ≡ some (s, j)
      → ((now < s) × (t ≡ s) × (k ≡ j)) ⊎ ((s ≤ now) × First now j t k)
      → First now i t k
  found e (inl (h, p, q)) = rw (p, q) (here e h)
  found e (inr (h, f)) = later e h f

  skip_past-First :
      (time : Iter → ℕ)
      → IsIncreasing time
      → (now fuel t : ℕ) (i : Iter) → time i ≡ t
      → now < t + fuel
      → (u : ℕ) × (k : Iter) × (skip_past cron now fuel t i ≡ returns (u, k))
        × (((now < t) × (u ≡ t) × (k ≡ i)) ⊎ ((t ≤ now) × First now i u k))
  unfolding skip_past
  skip_past-First time inc now zero t i e h = (t, i, ground arith, inl (omega arith, refl, refl))
  skip_past-First time inc now (suc fuel) t i e h = elim (Bool-cases (leb t now)) [
    | inr after ↦ (t, i, rw after refl, inl (ground (arith, after), refl, refl))
    | inl past ↦
        let (s, j, p, lt, q) = inc i in
        let (u, k, r, f) = skip_past-First time inc now fuel s j q (omega (arith, lt, e)) in
        (u, k, rw (past, p) r, inr (leb→le t now past, found p f))
  ]

  pub advance-First :
      (time : Iter → ℕ)
      → IsIncreasing time
      → (now : ℕ) (i : Iter)
      → (t : ℕ) × (k : Iter) × (advance cron now i ≡ returns (t, k)) × First now i t k
  unfolding advance
  advance-First time inc now i =
      let (s, j, e, h, p) = inc i in
      let (t, k, q, f) = skip_past-First time inc now (suc now) s j p (omega arith) in
      (t, k, rw e q, found e f)
