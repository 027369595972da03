-- ===== src/RobotServer/Heartbeat.antt =====
-- What `renewControl` (src/common/src/robot_server.cpp) answers and what it changes.
use xgc2_ros1_adapter.Common.{
  ℕ, ◌≡◌, refl, ◌⊎◌, inl, Bool, false, List, [], ◌∷◌, ◌&&◌, Option, none, some, arith, ◌==◌, ◌||◌,
  if◌then◌else◌, true,
}
use xgc2_ros1_adapter.Common.Int.{pos, ltb_ℤ}
use xgc2_ros1_adapter.RobotServer.State.{Member, Server}
use xgc2_ros1_adapter.RobotServer.Renewal.{Renewal, Renewed, renewal_current, renew_one, renew_each}

-- Only a heartbeat may change, and only to `now`.
abbrev Beats : (now : ℕ) → Member → Member → Type 0
Beats now m m' = (m' ≡ m) ⊎ (m' ≡ record m { control_heartbeat = now })

renew_one-Beats :
    (now : ℕ) (r : Renewal) (p : Option ℕ) (s : Server) (q : ℕ)
    → Beats now (s.object q) ((renew_one now r p s).0.object q)
unfolding renew_one
renew_one-Beats now r none s q = inl refl
renew_one-Beats now r (some p) s q = ground arith

Beats-trans : (now : ℕ) (a b c : Member) → Beats now a b → Beats now b c → Beats now a c
Beats-trans now a b c x y = ground arith

renew_each-Beats :
    (now : ℕ) (found : List (Renewal × Option ℕ)) (s : Server) (q : ℕ)
    → Beats now (s.object q) ((renew_each now found s).0.object q)
unfolding renew_each
renew_each-Beats now [] s q = inl refl
renew_each-Beats now ((r, p) ∷ rest) s q =
    let t = (renew_one now r p s).0 in
    Beats-trans now (s.object q) (t.object q) _ (renew_one-Beats now r p s q)
      (renew_each-Beats now rest t q)

-- The entry that answers one renewal, by what the member is in `s`.
pub answer_of : Server → Renewal × Option ℕ → Renewed
answer_of s (r, none) = record { renewal = r; renewed = false }
answer_of s (r, some p) = record { renewal = r; renewed = renewal_current p r s }

-- What lets a renewal reach the member at `p`: the control that it names is held by the controller,
-- not retiring, of an open member that has a silence limit.
abbrev pub IsCurrent : ℕ → Renewal → Server → Type 0
IsCurrent p r s =
    ((s.object p).closing ≡ false)
    × ((s.object p).control_owner ≡ s.controller_generation)
    × ((s.object p).control_held ≡ true)
    × ((s.object p).control_retiring ≡ false)
    × ((s.object p).control_generation ≡ r.generation)
    × (ltb_ℤ (pos 0) (s.object p).silence_limit ≡ true)

-- Whether some renewal of the batch reaches the member at `q`.
unfoldable pub reached : Server → List (Renewal × Option ℕ) → ℕ → Bool
reached s [] q = false
reached s ((r, none) ∷ rest) q = reached s rest q
reached s ((r, some p) ∷ rest) q = (p == q && renewal_current p r s) || reached s rest q

-- The member at `q` after a batch: a new heartbeat where a renewal reaches it, and nothing else.
abbrev pub beaten : (now : ℕ) → Server → List (Renewal × Option ℕ) → ℕ → Member
beaten now s found q =
    if reached s found q then record (s.object q) { control_heartbeat = now } else s.object q
