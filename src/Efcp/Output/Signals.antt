-- ===== src/Efcp/Output/Signals.antt =====
-- The signals that stop and start the user of a flow.
use rinasim.Base.{
  ◌≡◌, refl, List, [], ◌∷◌, ◌++◌, Bool, true, false, Bool-cases, subst, inl, inr, arith,
}
use rinasim.Efcp.State.{Efcp, Signal, start_sending, stop_sending}
use rinasim.Efcp.Output.{notify_start_sending, notify_stop_sending}

-- Stops and starts take turns, from a port that is blocked or not to one that is or is not.
abbrev pub Alternates : Bool → List Signal → Bool → Type 0
Alternates b [] c = b ≡ c
Alternates b (stop_sending ∷ ss) c = (b ≡ false) × Alternates true ss c
Alternates b (start_sending ∷ ss) c = (b ≡ true) × Alternates false ss c

then_stop :
    (b : Bool) (ss : List Signal)
    → Alternates b ss false
    → Alternates b (ss ++ stop_sending ∷ []) true
then_stop b [] h = (h, refl)
then_stop b (stop_sending ∷ ss) h = (h.0, then_stop true ss h.1)
then_stop b (start_sending ∷ ss) h = (h.0, then_stop false ss h.1)

then_start :
    (b : Bool) (ss : List Signal)
    → Alternates b ss true
    → Alternates b (ss ++ start_sending ∷ []) false
then_start b [] h = (h, refl)
then_start b (stop_sending ∷ ss) h = (h.0, then_start true ss h.1)
then_start b (start_sending ∷ ss) h = (h.0, then_start false ss h.1)

abbrev pub InTurns : Efcp → Type 0
InTurns e = Alternates false e.signals e.dtp.blocking_port

-- When the stops and starts signalled so far take turns, beginning with a stop, and the port is
-- blocked exactly after a stop, both notifications keep it so.
notify_InTurns :
    (e : Efcp) → InTurns e → InTurns (notify_stop_sending e) × InTurns (notify_start_sending e)
unfolding notify_stop_sending notify_start_sending
notify_InTurns e h = elim (Bool-cases e.dtp.blocking_port) [
  | inl p ↦ (
    ground (arith, h, p),
    ground (arith, then_start false e.signals (subst (λ b. Alternates false e.signals b) p h), p),
  )
  | inr p ↦ (
    ground (arith, then_stop false e.signals (subst (λ b. Alternates false e.signals b) p h), p),
    ground (arith, h, p),
  )
]
