-- ===== src/Registry/Destructor.antt =====
-- `~Engine` walks over its device list while each step erases from it.
use transport_cpp.Prelude.{
  ℕ, zero, suc, ◌+◌, ◌-◌, ◌≤◌, ◌≡◌, refl, true, none, some, List, [], ◌∷◌, mem, erase_first, length,
  get_elem?, arith, inl, inr, Option-cases, ◌∙◌, sym, subst, ap, mem-erase_first,
  erase_first_absent,
}
use native.Mathlib.Numerals.{add-one}
use transport_cpp.World.{World, load_engine}
use transport_cpp.World.Invariant.{IsWellFormed}
use transport_cpp.Registry.{
  forget_device, de_register_device, deload_engine, destroy_loop, destroy_engine,
}
use transport_cpp.Registry.Effects.{device_list-de_register_handle}
use transport_cpp.Registry.Release.{
  de_register_device-IsWellFormed, de_register_device-releases, is_handle_free_of_loaded,
}

get_elem?-mem : (i : ℕ) (xs : List ℕ) {d : ℕ} → get_elem? xs i ≡ some d → mem d xs ≡ true
get_elem?-mem i [] h = cc
get_elem?-mem zero (x ∷ xs) h = ground arith
get_elem?-mem (suc i) (x ∷ xs) {d} h = ground (arith, get_elem?-mem i xs {d = d} h)

get_elem?_past : (i : ℕ) (xs : List ℕ) → length xs ≤ i → get_elem? xs i ≡ none
get_elem?_past i [] h = refl
get_elem?_past zero (x ∷ xs) h = absurd (omega arith)
get_elem?_past (suc i) (x ∷ xs) h = get_elem?_past i xs (omega arith)

length-erase_first :
    (d : ℕ) (xs : List ℕ) → mem d xs ≡ true → length (erase_first d xs) + 1 ≡ length xs
length-erase_first d [] h = cc
length-erase_first d (x ∷ xs) h = ground (arith, length-erase_first d xs)

module _ {S : Type 0} where
  device_list-forget_device :
      (e d : ℕ) (w : World S)
      → ((forget_device e d w).engines e).device_list ≡ erase_first d (w.engines e).device_list
  device_list-forget_device e d w =
      ground (arith, device_list-de_register_handle (w.devices d).handle (w.engines e))

  -- The vector is one shorter after a call for a device of the engine.
  pub device_list-de_register_device :
      (e d : ℕ) (w : World S)
      → IsWellFormed w
      → (w.devices d).engine ≡ some e
      → ((de_register_device e d w).1.engines e).device_list
        ≡ erase_first d (w.engines e).device_list
  unfolding de_register_device deload_engine
  device_list-de_register_device e d w v h = ground (
    arith,
    device_list-forget_device e d (load_engine d none w),
    device_list-forget_device e d (forget_device e d (load_engine d none w)),
    mem-erase_first d d (w.engines e).device_list (v.distinct e),
    erase_first_absent d (erase_first d (w.engines e).device_list),
  )

  -- The state after the loop has read device `d` at position `i`.
  record Stepped (e d : ℕ) (w : World S) : Type 0 where
    valid : IsWellFormed (de_register_device e d w).1
    shorter :
        length ((de_register_device e d w).1.engines e).device_list + 1
        ≡ length (w.engines e).device_list

  stepped :
      (e d i : ℕ) (w : World S)
      → IsWellFormed w
      → get_elem? (w.engines e).device_list i ≡ some d
      → Stepped e d w
  stepped e d i w v h =
      let present = get_elem?-mem i (w.engines e).device_list h in
      let loaded : (w.devices d).engine ≡ some e = ground (arith, v.listed e d) in
      record {
        valid = de_register_device-IsWellFormed e d w v (is_handle_free_of_loaded e d w v loaded);
        shorter =
            ap (λ l. length l + 1) (device_list-de_register_device e d w v loaded)
            ∙ length-erase_first d (w.engines e).device_list present;
      }

  destroy_loop_overruns :
      (left i e : ℕ) (w : World S)
      → IsWellFormed w
      → length (w.engines e).device_list ≡ suc left
      → destroy_loop (suc left) (suc i) e w ≡ none
  unfolding destroy_loop
  destroy_loop_overruns zero i e w v l =
      rw (get_elem?_past (suc i) (w.engines e).device_list (omega arith), destroy_loop) refl
  destroy_loop_overruns (suc left) i e w v l =
      elim (Option-cases (get_elem? (w.engines e).device_list (suc i))) [
        | inl past ↦ ground arith
        | inr (d, h) ↦
            let s = stepped e d (suc i) w v h in
            ground (
              arith,
              destroy_loop_overruns left (suc i) e (de_register_device e d w).1 s.valid
                  (omega (arith, s.shorter)),
              add-one (suc i),
            )
      ]

  overruns_from :
      (n e : ℕ) (w : World S)
      → IsWellFormed w
      → length (w.engines e).device_list ≡ suc (suc n)
      → destroy_loop (suc (suc n)) 0 e w ≡ none
  unfolding destroy_loop
  overruns_from n e w v l = elim (Option-cases (get_elem? (w.engines e).device_list 0)) [
    | inl past ↦ ground arith
    | inr (d, h) ↦
        let s = stepped e d 0 w v h in
        ground (
          arith,
          destroy_loop_overruns n 0 e (de_register_device e d w).1 s.valid
              (omega (arith, s.shorter)),
        )
  ]

  -- With two devices or more the destructor of an engine reads past the end of its device list.
  pub destroy_engine_overruns :
      (e : ℕ) (w : World S)
      → IsWellFormed w
      → 2 ≤ length (w.engines e).device_list
      → destroy_engine e w ≡ none
  unfolding destroy_engine
  destroy_engine_overruns e w v h =
      let n : ℕ = length (w.engines e).device_list - 2 in
      let l : length (w.engines e).device_list ≡ suc (suc n) = omega arith in
      subst (λ k. destroy_loop k 0 e w ≡ none) (sym l) (overruns_from n e w v l)

  -- With one device the destructor ends, the device has no engine and the list is empty.
  pub destroy_engine_one :
      (e d : ℕ) (w : World S)
      → IsWellFormed w
      → (w.engines e).device_list ≡ d ∷ []
      → (w' : World S) × (destroy_engine e w ≡ some w')
        × IsWellFormed w'
        × ((w'.devices d).engine ≡ none)
        × ((w'.engines e).device_list ≡ [])
  unfolding destroy_engine destroy_loop
  destroy_engine_one e d w v one =
      let loaded : (w.devices d).engine ≡ some e = ground (arith, v.listed e d) in
      let free = is_handle_free_of_loaded e d w v loaded in
      (
        (de_register_device e d w).1,
        ground arith,
        de_register_device-IsWellFormed e d w v free,
        (de_register_device-releases e d w v free).1,
        device_list-de_register_device e d w v loaded ∙ ground arith,
      )
