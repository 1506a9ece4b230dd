-- ===== src/Registry/Rounds.antt =====
-- `deRegisterDevice` and `deloadEngine` call one another; the calls end.
use transport_cpp.Prelude.{ℕ, suc, ◌≡◌, none, some, arith, inl, inr, Option-cases}
use transport_cpp.Types.{ok}
use transport_cpp.World.{World, load_engine}
use transport_cpp.Registry.{forget_device, de_register_bounded, de_register_device}

module _ {S : Type 0} where
  first_round :
      (n e d : ℕ) (w : World S)
      → (w.devices d).engine ≡ none
      → de_register_bounded (suc n) e d w ≡ some (ok, forget_device e d w)
  unfolding de_register_bounded
  first_round n e d w h = ground arith

  -- Two rounds of `deRegisterDevice` are enough from every state, and more change nothing: the
  -- device has no engine when `deloadEngine` calls back.
  pub de_register_bounded-returns :
      (n e d : ℕ) (w : World S)
      → de_register_bounded (suc (suc n)) e d w ≡ some (de_register_device e d w)
  unfolding de_register_bounded de_register_device
  de_register_bounded-returns n e d w = elim (Option-cases (w.devices d).engine) [
    | inl h ↦ ground arith
    | inr (cur, h) ↦ ground (arith, first_round n cur d (load_engine d none w))
  ]
