-- ===== src/Balance/Settling.antt =====
-- Where the averages of the load of a cpu go while the load stays the same.
use cmsc421prj.State.Data.{Sys}
use cmsc421prj.Base.{
  true, ◌==◌, inr, inl, ap, ◌∙◌, refl, ◌≤◌, ℕ, zero, suc, ◌≡◌, ◌+◌, ◌-◌, ◌^◌, ◌<◌, ◌⊎◌, arith,
}
use cmsc421prj.Balance.Loads.{update_cpu_load, new_cpu_load, cpu_load_idx_max}

-- The distance of two loads.
abbrev pub distance : ℕ → ℕ → ℕ
distance a b = (a - b) + (b - a)

-- One tick brings an average nearer to the load, and never past it.
record IsNearer (old load new : ℕ) : Type 0 where
  nearer : (distance old load ≡ 0) ⊎ (distance new load < distance old load)
  stays : distance old load ≡ 0 → new ≡ load
  bound : new < 2 ^ 59

new_cpu_load-IsNearer :
    (i old load : ℕ)
    → i < cpu_load_idx_max
    → old < 2 ^ 59
    → load < 2 ^ 59
    → IsNearer old load (new_cpu_load i old load)
unfolding new_cpu_load
new_cpu_load-IsNearer zero old load h ho hl = record {
  nearer = ground arith;
  stays = λ e. ground arith;
  bound = ground arith;
}
new_cpu_load-IsNearer (suc zero) old load h ho hl = record {
  nearer = ground arith;
  stays = λ e. ground arith;
  bound = ground arith;
}
new_cpu_load-IsNearer (suc (suc zero)) old load h ho hl = record {
  nearer = ground arith;
  stays = λ e. ground arith;
  bound = ground arith;
}
new_cpu_load-IsNearer (suc (suc (suc zero))) old load h ho hl = record {
  nearer = ground arith;
  stays = λ e. ground arith;
  bound = ground arith;
}
new_cpu_load-IsNearer (suc (suc (suc (suc zero)))) old load h ho hl = record {
  nearer = ground arith;
  stays = λ e. ground arith;
  bound = ground arith;
}
new_cpu_load-IsNearer (suc (suc (suc (suc (suc i))))) old load h ho hl = omega arith

own-eq : (c : ℕ) → (c == c) ≡ true
own-eq c = ground arith

update_cpu_load-at :
    (s : Sys) (c i : ℕ)
    → i < cpu_load_idx_max
    → ((update_cpu_load s c).rq c).cpu_load i ≡ new_cpu_load i ((s.rq c).cpu_load i) (s.rq c).load
unfolding update_cpu_load
update_cpu_load-at s c zero h = rw (own-eq c) refl
update_cpu_load-at s c (suc zero) h = rw (own-eq c) refl
update_cpu_load-at s c (suc (suc zero)) h = rw (own-eq c) refl
update_cpu_load-at s c (suc (suc (suc zero))) h = rw (own-eq c) refl
update_cpu_load-at s c (suc (suc (suc (suc zero)))) h = rw (own-eq c) refl
update_cpu_load-at s c (suc (suc (suc (suc (suc i))))) h = omega arith

update_cpu_load-load : (s : Sys) (c : ℕ) → ((update_cpu_load s c).rq c).load ≡ (s.rq c).load
unfolding update_cpu_load
update_cpu_load-load s c = rw (own-eq c) refl

-- As many ticks.
abbrev pub ticks : ℕ → Sys → ℕ → Sys
ticks zero s c = s
ticks (suc n) s c = ticks n (update_cpu_load s c) c

settles :
    (n : ℕ) (s : Sys) (c i load : ℕ)
    → i < cpu_load_idx_max
    → (s.rq c).load ≡ load
    → (s.rq c).cpu_load i < 2 ^ 59
    → load < 2 ^ 59
    → distance ((s.rq c).cpu_load i) load ≤ n
    → ((ticks n s c).rq c).cpu_load i ≡ load
settles zero s c i load h e ho hl d = omega arith
settles (suc n) s c i load h e ho hl d =
    let s1 = update_cpu_load s c in
    let r = new_cpu_load-IsNearer i ((s.rq c).cpu_load i) load h ho hl in
    let now : (s1.rq c).cpu_load i ≡ new_cpu_load i ((s.rq c).cpu_load i) load =
      update_cpu_load-at s c i h ∙ ap (λ l. new_cpu_load i ((s.rq c).cpu_load i) l) e in
    settles n s1 c i load h (update_cpu_load-load s c ∙ e) (rw now r.bound) hl (elim r.nearer [
      | inl z ↦ let same = r.stays z in rw (now, same) (omega arith)
      | inr less ↦ rw now (omega arith)
    ])

-- While the load of a cpu stays the same, each average in `cpu_load` comes to it and stays there:
-- after as many ticks as they differ by, or more, they are equal. The averages do not get stuck below
-- it, as the rounding is to achieve. The load and the average are below 2^59, so the sums do not wrap.
pub update_cpu_load-settles :
    (n : ℕ) (s : Sys) (c i : ℕ)
    → i < cpu_load_idx_max
    → (s.rq c).cpu_load i < 2 ^ 59
    → (s.rq c).load < 2 ^ 59
    → distance ((s.rq c).cpu_load i) (s.rq c).load ≤ n
    → ((ticks n s c).rq c).cpu_load i ≡ (s.rq c).load
update_cpu_load-settles n s c i h ho hl = settles n s c i (s.rq c).load h refl ho hl
