-- ===== src/Session/Shutdown.antt =====
-- `shutdown` of include/local_reception_point.C and the thread of the engine that it ends.
use gservices.Base.{ℕ, List, ◌∷◌, ◌++◌, Bool, true, false, Aleph, Outcome, replicate}
use gservices.Locators.{LocalLocator}
use gservices.LocalAccess.{LocalLink}
use gservices.LocalPoint.{Closing, shut_down}

module _ (k : Aleph) (socket path_size : ℕ) (connects : List ℕ → Bool) (loc : LocalLocator)
    (link : LocalLink) (looks : ℕ) (flags : List Bool) (s : Closing) where
  -- `shutdown`, whose loop finds the flag raised after some looks at it.
  abbrev pub shutting : Outcome (Unit {0}) × Closing
  shutting =
      shut_down k socket path_size connects loc link (replicate looks false ++ true ∷ flags) s
