-- ===== src/Executor/Timed/Services.antt =====
-- `UseReactorService` and `UseTimerService`: a static once_flag, which all executors share, guards the
-- construction of a service. Executors are numbers, and `services` is the list of those that have the
-- service.
use asrt.Base.{
  ℕ, ◌≡◌, ◌↔◌, refl, Bool, true, false, List, [], ◌∷◌, ◌==◌, ==_iff, ◌||◌, if◌then◌else◌, arith,
}

pub record Services : Type 0 where
  pub is_flag_used : Bool
  pub services : List ℕ

abbrev pub no_services : Services
no_services = record { is_flag_used = false; services = [] }

abbrev pub has_service : ℕ → List ℕ → Bool
has_service executor [] = false
has_service executor (x ∷ xs) = (x == executor) || has_service executor xs

-- The flag's call, and whether the reference that is returned is one to a service.
unfoldable pub use_service : ℕ → Services → Bool × Services
use_service executor s =
    if s.is_flag_used
    then (has_service executor s.services, s)
    else (true, record { is_flag_used = true; services = executor ∷ s.services })

unfoldable pub use_all : List ℕ → Services → Services
unfolding use_service
use_all [] s = s
use_all (x ∷ xs) s = use_all xs (use_service x s).1

use_all-used : (xs : List ℕ) (s : Services) → s.is_flag_used ≡ true → use_all xs s ≡ s
unfolding use_all use_service
use_all-used [] s used = refl
use_all-used (x ∷ xs) s used = ground (arith, use_all-used xs s used)

-- Of all executors of one reactor type in a program, the first one alone gets the service: after a first
-- call by `first` and any calls by any executors, a call by an executor returns a service exactly if
-- that executor is `first`; every other call takes the value of an empty optional.
pub first_alone_served :
    (first : ℕ) (others : List ℕ) (executor : ℕ)
    → ((use_service executor (use_all (first ∷ others) no_services)).0 ≡ true) ↔ (executor ≡ first)
unfolding use_service use_all
first_alone_served first others executor =
    let s : Services = record { is_flag_used = true; services = first ∷ [] } in
    ground (arith, use_all-used others s refl, ==_iff first executor)
