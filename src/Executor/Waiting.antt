-- ===== src/Executor/Waiting.antt =====
-- The wait between two attempts, for crates/mtpx-core/src/internal/executor.rs.
use mtpx.Base.{
  ℕ, zero, suc, ◌+◌, ◌-◌, ◌≤◌, ◌<◌, min, ltb, Bool-cases, ◌≡◌, ◌⊎◌, inl, inr, refl, Result, ok, err,
  arith, true, false,
}
use mtpx.Error.{Error}
use mtpx.Endpoint.{Env}
use mtpx.Executor.{State, call, back_off_until, back_off, cancel_poll}

-- Time does not run backwards, and a sleep lasts as long as it is asked to.
pub record IsClock {Other : Type 0} (env : Env Other) : Type 0 where
  pub slept : (n : ℕ) (w : env.World) → env.now w + n ≤ env.now (env.sleep n w)
  pub polled : (w : env.World) → env.now w ≤ env.now ((env.is_cancelled w).1)

-- The second world comes after the first by rounds in each of which the token was asked, said that it is
-- not cancelled, and a sleep of at most the polling interval followed.
pub data Rounds {Other : Type 0} (env : Env Other) : env.World → env.World → Type 0 where
  here : {w : env.World} → Rounds env w w
  round :
      {w w' : env.World} (n : ℕ)
      → (env.is_cancelled w).0 ≡ false
      → n ≤ cancel_poll
      → Rounds env (env.sleep n (env.is_cancelled w).1) w'
      → Rounds env w w'

module _ {Other : Type 0} (env : Env Other) where
  -- After some rounds the wait was cancelled, because the token said so when it was asked, or it had
  -- lasted until the deadline.
  abbrev pub IsWaited : ℕ → env.World → Result (Unit {0}) (Error Other) × State env → Type 0
  IsWaited deadline start (result, s) =
      ((w : env.World) × Rounds env start w
        × ((env.is_cancelled w).0 ≡ true)
        × (result ≡ err Error.cancelled))
      ⊎ (Rounds env start s.world × (result ≡ ok tt) × (deadline ≤ env.now s.world))

  IsWaited-round :
      (deadline n : ℕ) (w : env.World) (r : Result (Unit {0}) (Error Other) × State env)
      → (env.is_cancelled w).0 ≡ false
      → n ≤ cancel_poll
      → IsWaited deadline (env.sleep n (env.is_cancelled w).1) r
      → IsWaited deadline w r
  IsWaited-round deadline n w r free short (inl (v, rounds, hit, e)) =
      inl (v, round n free short rounds, hit, e)
  IsWaited-round deadline n w r free short (inr (rounds, e, over)) =
      inr (round n free short rounds, e, over)

  back_off_until-IsWaited :
      IsClock env
      → (fuel deadline : ℕ) (s : State env) → deadline < env.now s.world + fuel
      → IsWaited deadline s.world (back_off_until env fuel deadline s)
  unfolding back_off_until call
  back_off_until-IsWaited clock zero deadline s h = inr (here, refl, omega arith)
  back_off_until-IsWaited clock (suc fuel) deadline s h =
      let w1 = (env.is_cancelled s.world).1 in
      let n = min cancel_poll (deadline - env.now w1) in
      let s2 : State env = record s { world = env.sleep n w1 } in
      elim (Bool-cases (ltb (env.now s.world) deadline)) [
        | inl early ↦
            let left : deadline < env.now s2.world + fuel =
              ground (arith, clock.slept n w1, clock.polled s.world, early) in
            let next = back_off_until-IsWaited clock fuel deadline s2 left in
            elim (Bool-cases (env.is_cancelled s.world).0) [
              | inl hit ↦ rw (early, hit) (inl (s.world, here, hit, refl))
              | inr free ↦
                  let on =
                    IsWaited-round deadline n s.world (back_off_until env fuel deadline s2) free
                      (omega arith) next in
                  rw (early, free) on
            ]
        | inr late ↦ rw late (inr (here, refl, ground arith))
      ]

-- With a clock that does not run backwards and a sleep that lasts as long as it is asked to, a wait
-- ends after rounds in each of which the token was asked, said that it is not cancelled, and a sleep of
-- at most the polling interval followed: it was cancelled, the token having then answered that it is,
-- or it lasted the whole time. The rounds that it is given are enough.
pub back_off-IsWaited :
    {Other : Type 0} (env : Env Other) (backoff : ℕ) (s : State env)
    → IsClock env
    → IsWaited env (env.now s.world + backoff) s.world (back_off env backoff s)
unfolding back_off
back_off-IsWaited env backoff s clock =
    back_off_until-IsWaited env clock (suc backoff) (env.now s.world + backoff) s (omega arith)
