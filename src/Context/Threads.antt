-- ===== src/Context/Threads.antt =====
-- Threads of server/app/ups_context.py that race for one lock of a context: the taking of the lock, the
-- reading, the writing and the release are steps of their own.
use ups_orchestrator.Prelude.{ℕ, ◌≡◌, Option, none, some, List, [], ◌∷◌, ◌==◌, if◌then◌else◌}
use ups_orchestrator.Context.State.{Shared}

-- Where a thread is, with what it has read.
pub data Place : Type 0 where
  outside inside : Place
  has_read has_written left : Shared → Place

pub record System : Type 0 where
  pub shared : Shared
  pub holder : Option ℕ
  pub place : ℕ → Place

abbrev pub move : (ℕ → Place) → ℕ → Place → ℕ → Place
move place i p j = if i == j then p else place j

abbrev pub at : System → ℕ → Place → System
at s i p = record s { place = move s.place i p }

-- The section with no other thread in between.
abbrev pub whole : (Shared → Shared → Shared) → Shared → Shared
whole write h = write h h

-- Each thread has a section: what it writes, from the state that it has read and the one that it finds.
module _ (body : ℕ → Shared → Shared → Shared) (start : Shared) where
  -- Threads that run their sections in any interleaving, and the order in which they took the lock,
  -- the last one first.
  pub data Interleaved : List ℕ → System → Type 0 where
    began : Interleaved [] (record { shared = start; holder = none; place = λ _. outside })
    takes :
        (order : List ℕ) (s : System) (i : ℕ)
        → Interleaved order s
        → s.holder ≡ none
        → s.place i ≡ outside
        → Interleaved (i ∷ order) (record (at s i inside) { holder = some i })
    reads :
        (order : List ℕ) (s : System) (i : ℕ)
        → Interleaved order s
        → s.place i ≡ inside
        → Interleaved order (at s i (has_read s.shared))
    writes :
        (order : List ℕ) (s : System) (i : ℕ) (v : Shared)
        → Interleaved order s
        → s.place i ≡ has_read v
        → Interleaved order (record (at s i (has_written v)) { shared = body i v s.shared })
    leaves :
        (order : List ℕ) (s : System) (i : ℕ) (v : Shared)
        → Interleaved order s
        → s.place i ≡ has_written v
        → Interleaved order (record (at s i (left v)) { holder = none })

  -- The sections one after another, in the order of the list from its end.
  unfoldable pub one_by_one : List ℕ → Shared
  one_by_one [] = start
  one_by_one (i ∷ order) = whole (body i) (one_by_one order)
