-- ===== src/SafeMemory.antt =====
-- include/safe_memory_alloc.C: malloc and free under a mutex that all threads share.
use gservices.Base.{
  ℕ, ◌≡◌, List, ◌∷◌, none, some, Bool, true, false, M, done, stopped, blocked, use_after_free, pure,
  ◌>>◌, arith,
}
use gservices.Multiserver.{take_out}

-- The static mutex, whether it has been destroyed, and the blocks that malloc has given and free
-- has not got.
pub record SafeMemory : Type 0 where
  pub locked : Bool
  pub destroyed : Bool
  pub live : List ℕ

-- Up to the end of its scope, CRITICAL_SECTION holds the mutex.
abbrev pub enter : M SafeMemory (Unit {0})
enter s = elim s.destroyed [
  | true ↦ (stopped use_after_free, s)
  | false ↦ elim s.locked [ true ↦ (blocked, s) | false ↦ (done tt, record s { locked = true }) ]
]

abbrev pub leave : M SafeMemory (Unit {0})
leave s = (done tt, record s { locked = false })

-- `SAFE_MALLOC`, for the address that malloc returns.
unfoldable pub safe_malloc : ℕ → M SafeMemory ℕ
safe_malloc address = do
  enter
  (λ s. (done tt, record s { live = address ∷ s.live }))
  leave
  pure address

-- `SAFE_FREE`
unfoldable pub safe_free : ℕ → M SafeMemory (Unit {0})
unfolding take_out
safe_free free_address = do
  enter
  (λ s. elim (take_out free_address s.live) [
    | none ↦ (stopped use_after_free, s)
    | some rest ↦ (done tt, record s { live = rest })
  ])
  leave

-- The destructor of an object; the mutex is the class's.
unfoldable pub destroy : M SafeMemory (Unit {0})
destroy s = (done tt, record s { destroyed = true })

-- A block that is allocated and freed at once leaves everything as it was, and the mutex free; once
-- the destructor of any object has run, neither call gets anywhere.
pub safe_free-safe_malloc :
    (address : ℕ) (s : SafeMemory)
    → s.locked ≡ false
    → s.destroyed ≡ false
    → (safe_malloc address s ≡ (done address, record s { live = address ∷ s.live }))
      × (safe_free address (safe_malloc address s).1 ≡ (done tt, s))
      × ((safe_malloc address (destroy s).1).0 ≡ stopped use_after_free)
      × ((safe_free address (destroy s).1).0 ≡ stopped use_after_free)
unfolding safe_malloc safe_free destroy take_out
safe_free-safe_malloc address s free alive = ground arith
