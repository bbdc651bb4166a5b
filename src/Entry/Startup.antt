-- ===== src/Entry/Startup.antt =====
-- The start-up as a sequence of calls.
use rhbk_operator.Prelude.{◌≡◌, refl, List, [], ◌∷◌}
use rhbk_operator.Prelude.Outcome.{Error, Outcome, ok, err, panic}
use rhbk_operator.Kube.Exec.{Exec, pure, continue}
use rhbk_operator.Entry.{Flags, manager_options, Runtime, Exit, returned, exited, or_exit, main}

-- The calls are made one after the other, each in the world that the one before it left; the first
-- one that fails ends the process with status 1, and those behind it are not made.
pub data Runs {W : Type 0} : List (Exec W (Unit {0})) → W → Outcome Exit → W → Type 0 where
  through : {w : W} → Runs [] w (ok returned) w
  next :
      {m : Exec W Unit} {ms : List (Exec W Unit)} {w w' end : W} {r : Outcome Exit}
      → m w ≡ (ok tt, w')
      → Runs ms w' r end
      → Runs (m ∷ ms) w r end
  fails :
      {m : Exec W Unit} {ms : List (Exec W Unit)} {w w' : W} (e : Error)
      → m w ≡ (err e, w')
      → Runs (m ∷ ms) w (ok (exited 1)) w'
  crashes :
      {m : Exec W Unit} {ms : List (Exec W Unit)} {w w' : W}
      → m w ≡ (panic, w')
      → Runs (m ∷ ms) w panic w'

module _ {W Manager : Type 0} (runtime : Runtime W Manager) where
  abbrev pub set_up : Manager → List (Exec W (Unit {0}))
  set_up mgr =
      runtime.set_up_keycloak mgr
      ∷ runtime.set_up_import mgr
      ∷ runtime.add_healthz_check mgr "healthz"
      ∷ runtime.add_readyz_check mgr "readyz"
      ∷ runtime.start mgr
      ∷ []

  -- The calls, each behind `os.Exit`.
  abbrev in_order : List (Exec W (Unit {0})) → Exec W Exit
  in_order [] = pure returned
  in_order (m ∷ ms) = or_exit runtime m (λ _. in_order ms)

  -- How a process starts: the manager, and then the calls on it.
  abbrev pub Starts : Outcome Manager × W → Outcome Exit × W → Type 0
  Starts (ok mgr, w) (r, end) = Runs (set_up mgr) w r end
  Starts (err e, w) (r, end) = (r ≡ ok (exited 1)) × (end ≡ w)
  Starts (panic, w) (r, end) = (r ≡ panic) × (end ≡ w)

  Runs-or_exit :
      (m : Exec W (Unit {0})) (ms : List (Exec W (Unit {0}))) (f : Exec W Exit) (w : W)
      → ((w : W) → Runs ms w (f w).0 (f w).1)
      → (let end = or_exit runtime m (λ _. f) w in Runs (m ∷ ms) w end.0 end.1)
  unfolding or_exit
  Runs-or_exit m ms f w rest = by_outcome (m w).0 (m w).1 refl
    where
      by_outcome :
          (r : Outcome (Unit {0})) (w' : W)
          → m w ≡ (r, w')
          → (let end = continue r (λ _. pure (exited 1)) (λ _. f) w' in Runs (m ∷ ms) w end.0 end.1)
      by_outcome (ok tt) w' e = next e (rest w')
      by_outcome (err x) w' e = fails x e
      by_outcome panic w' e = crashes e

  Runs-in_order :
      (ms : List (Exec W (Unit {0}))) (w : W) → (let end = in_order ms w in Runs ms w end.0 end.1)
  Runs-in_order [] w = through
  Runs-in_order (m ∷ ms) w = Runs-or_exit m ms (in_order ms) w (Runs-in_order ms)

  -- The process makes the manager with the options of its flags, and then sets up the two controllers
  -- and the two checks and starts the manager, in this order, each call in the world that the one
  -- before it left. The first call that fails ends the process with status 1, and no later one is
  -- made; a panic ends it as a panic.
  pub main-Starts :
      (flags : Flags) (w : W)
      → Starts (runtime.new_manager (manager_options flags) w) (main runtime flags w)
  unfolding main or_exit
  main-Starts flags w =
      by_outcome (runtime.new_manager (manager_options flags) w).0
        (runtime.new_manager (manager_options flags) w).1
    where
      by_outcome :
          (made : Outcome Manager) (w : W)
          → Starts (made, w) (continue made (λ _. pure (exited 1)) (λ mgr. in_order (set_up mgr)) w)
      by_outcome (ok mgr) w = Runs-in_order (set_up mgr) w
      by_outcome (err e) w = (refl, refl)
      by_outcome panic w = (refl, refl)
