-- ===== src/Server/Termination.antt =====
-- That the API server's ListenAndServe comes to an end.
use elephantine.Prelude.{
  ℕ, ◌+◌, ◌≤◌, ◌<◌, ◌≡◌, ◌⊎◌, inl, inr, refl, Bool, true, false, Bool-cases, Option, arith,
  if◌then◌else◌,
}
use elephantine.Fault
use elephantine.Server.Serving
use elephantine.Server.Serving.{
  Serving, Caller, Closer, listening, awaiting, returned, waiting, shutting, closing, finished,
  fail, notice, finish, shut_down, shut, give_up, close, close_outside, listen_and_serve_context,
}
use elephantine.Server.Closing.{IsAttended}
use elephantine.Server.Group.{GroupPackage, IsGroup}
use elephantine.Server.Api.{
  Service, listen_and_serve, health_done, api_done, Step, health_step, api_step, health_return,
  api_return, cancel_parent, is_own, Reach, here, next, HasReturned,
}
use elephantine.Server.Returning.{Inv, start-Inv, Reach-Inv}

-- How many steps a server may still take.
abbrev caller_rank : Caller → ℕ
caller_rank listening = 2
caller_rank awaiting = 1
caller_rank (returned out) = 0

abbrev closer_rank : Closer → ℕ
closer_rank waiting = 3
closer_rank shutting = 2
closer_rank closing = 1
closer_rank finished = 0

abbrev serving_rank : Serving → ℕ
serving_rank s = caller_rank s.caller + closer_rank s.closer + (if s.down then 0 else 1)

Serving_falls :
    {shared done : Bool} {s t : Serving}
    → Serving.Step shared done s t
    → serving_rank t < serving_rank s
Serving_falls (fail e at other) = ground arith
Serving_falls (notice at down) = ground arith
Serving_falls (finish at over) = ground arith
Serving_falls (shut_down at done) = ground arith
Serving_falls (shut at) = ground arith
Serving_falls (give_up at) = ground arith
Serving_falls (close at) = ground arith
Serving_falls (close_outside open_to up) = ground arith

Caller-cases :
    (c : Caller)
    → (c ≡ listening) ⊎ ((c ≡ awaiting) ⊎ ((out : Option Fault.Fault) × (c ≡ returned out)))
Caller-cases listening = inl refl
Caller-cases awaiting = inr (inl refl)
Caller-cases (returned out) = inr (inr (out, refl))

Closer-cases : (c : Closer) → (c ≡ waiting) ⊎ ((c ≡ shutting) ⊎ ((c ≡ closing) ⊎ (c ≡ finished)))
Closer-cases waiting = inl refl
Closer-cases shutting = inr (inl refl)
Closer-cases closing = inr (inr (inl refl))
Closer-cases finished = inr (inr (inr refl))

-- With its context cancelled a server is back, or can go on.
serving_goes_on :
    (shared done : Bool) (s : Serving)
    → done ≡ true
    → IsAttended shared done s
    → ((out : Option Fault.Fault) × (s.caller ≡ returned out))
      ⊎ ((t : Serving) × (step : Serving.Step shared done s t) × (Serving.is_own step ≡ true))
serving_goes_on shared done s cancelled a = elim (Closer-cases s.closer) [
  | inl w ↦ inr (_, shut_down w cancelled, refl)
  | inr (inl w) ↦ inr (_, shut w, refl)
  | inr (inr (inl w)) ↦ inr (_, close w, refl)
  | inr (inr (inr over)) ↦ elim (Caller-cases s.caller) [
    | inl serving ↦ inr (_, notice serving (ground arith), refl)
    | inr (inl waits) ↦ inr (_, finish waits over, refl)
    | inr (inr (out, back)) ↦ inl (out, back)
  ]
]

module _ (grp : GroupPackage) (laws : IsGroup grp) where
  abbrev rank : Service grp → ℕ
  rank s =
      serving_rank s.health
      + serving_rank s.api
      + (if s.parent_done then 0 else 1)
      + (if s.health_stopped then 0 else 1)
      + (if s.api_stopped then 0 else 1)

  Step_falls : {s t : Service grp} → Step grp s t → rank t < rank s
  Step_falls (health_step after step) = let falls = Serving_falls step in omega arith
  Step_falls (api_step after step) = let falls = Serving_falls step in omega arith
  Step_falls (health_return out running at) = ground arith
  Step_falls (api_return out running at) = ground arith
  Step_falls (cancel_parent running) = ground arith

  Reach_falls : {s : Service grp} {n : ℕ} {t : Service grp} → Reach grp s n t → n + rank t ≤ rank s
  Reach_falls here = omega arith
  Reach_falls (next r step) =
      let before = Reach_falls r in let falls = Step_falls step in omega arith

  service_goes_on :
      (s : Service grp)
      → Inv grp laws s
      → s.parent_done ≡ true
      → HasReturned grp s ⊎ ((t : Service grp) × (step : Step grp s t) × (is_own grp step ≡ true))
  service_goes_on s inv cancelled = elim (Bool-cases s.health_stopped) [
    | inr health_runs ↦
        elim (serving_goes_on true (health_done grp s) s.health (ground arith) inv.health) [
          | inl (out, back) ↦ inr (_, health_return out health_runs back, refl)
          | inr (after, step, own) ↦ inr (_, health_step after step, own)
        ]
    | inl health_over ↦ elim (Bool-cases s.api_stopped) [
      | inl api_over ↦ inl (health_over, api_over)
      | inr api_runs ↦ elim (serving_goes_on false (api_done grp s) s.api (ground arith) inv.api) [
        | inl (out, back) ↦ inr (_, api_return out api_runs back, refl)
        | inr (after, step, own) ↦ inr (_, api_step after step, own)
      ]
    ]
  ]

  -- ListenAndServe terminates once its context has been cancelled: no run of its goroutines has more
  -- than fifteen steps, and in one that has not returned a goroutine can take a step of its own, which
  -- is neither a failure of the listening nor a close from outside.
  pub listen_and_serve_terminates :
      (n : ℕ) (s : Service grp)
      → Reach grp (listen_and_serve grp) n s
      → (n ≤ 15)
        × (s.parent_done ≡ true
            → HasReturned grp s
              ⊎ ((t : Service grp) × (step : Step grp s t) × (is_own grp step ≡ true)))
  unfolding listen_and_serve listen_and_serve_context
  listen_and_serve_terminates n s r = (
    let falls = Reach_falls r in ground arith,
    service_goes_on s (Reach-Inv grp laws (start-Inv grp laws) r),
  )
