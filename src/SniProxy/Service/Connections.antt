-- ===== src/SniProxy/Service/Connections.antt =====
-- src/sni_proxy.rs, the accept loop of `run`: how many connections are served at once.
use basta.Prelude.{
  ℕ, zero, suc, ◌+◌, ◌-◌, ◌≤◌, ◌≡◌, refl, ap, Bool, true, false, List, [], ◌∷◌, arith, leb,
  if◌then◌else◌,
}
use basta.SniProxy.{max_conns}
use basta.SniProxy.Service.{
  Arrival, connects, accept_fails, ends, Serving, arrive, arrive_all, serve, leave,
}

pub record IsServing (s : Serving) : Type 0 where
  pub counted : s.active ≡ s.live
  pub capped : s.live ≤ max_conns

arrive-IsServing : (a : Arrival) (s : Serving) → IsServing s → IsServing (arrive a s)
unfolding arrive
arrive-IsServing connects s i = go (leb max_conns s.active) refl
  where
    go :
        (b : Bool)
        → leb max_conns s.active ≡ b
        → IsServing (serve s.live (if b then (s.active + 1 - 1, false) else (s.active + 1, true)))
    go true e = record { counted = omega (arith, i.counted); capped = i.capped }
    go false e = record {
      counted = ap (λ n. n + 1) i.counted;
      capped = ground (arith, e, i.counted);
    }
arrive-IsServing accept_fails s i = i
arrive-IsServing ends s i = go s.live i.counted i.capped
  where
    go : (live : ℕ) → s.active ≡ live → live ≤ max_conns → IsServing (leave s.active live)
    go zero e h = record { counted = e; capped = h }
    go (suc n) e h = record { counted = omega (arith, e); capped = omega (arith, h) }

arrive_all-IsServing : (es : List Arrival) (s : Serving) → IsServing s → IsServing (arrive_all es s)
unfolding arrive_all
arrive_all-IsServing [] s i = i
arrive_all-IsServing (e ∷ es) s i = arrive_all-IsServing es (arrive e s) (arrive-IsServing e s i)

-- After any sequence of connections, errors of `accept` and ends of connections, the counter is the
-- number of connections that are being served, and that number is at most 256.
pub connections_bounded :
    (es : List Arrival) → IsServing (arrive_all es (record { active = 0; live = 0 }))
connections_bounded es =
    arrive_all-IsServing es (record { active = 0; live = 0 })
      (record { counted = refl; capped = omega arith })
