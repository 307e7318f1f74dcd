-- ===== src/Context/Serial.antt =====
-- The sections under a lock of server/app/ups_context.py have the effect of running one after another.
use ups_orchestrator.Prelude.{
  ℕ, ◌≡◌, ◌≢◌, refl, sym, ap, ◌∙◌, Option, none, some, List, [], ◌∷◌, arith, ◌==◌, Bool-cases, inl,
  inr,
}
use mathlib.Core.Path.{subst, ap₂}
use ups_orchestrator.Context.State.{Shared}
use ups_orchestrator.Context.Threads.{
  whole, Place, outside, inside, has_read, has_written, left, System, move, at, Interleaved, began,
  takes, reads, writes, leaves, one_by_one,
}

-- The thread has not taken the lock, or has left it.
abbrev pub IsOut : Place → Type 0
IsOut outside = Unit
IsOut (left v) = Unit
IsOut _ = ⊥

pub move_self : (place : ℕ → Place) (i : ℕ) (p : Place) → move place i p i ≡ p
move_self place i p = ground arith

pub move_ne : (place : ℕ → Place) (i j : ℕ) (p : Place) → i ≢ j → move place i p j ≡ place j
move_ne place i j p ne = ground arith

module _ (body : ℕ → Shared → Shared → Shared) (start : Shared) where
  abbrev pub done : List ℕ → Shared
  done order = one_by_one body start order

  -- The thread `i` holds the lock; `order` took it before.
  abbrev pub Works : ℕ → List ℕ → Shared → Place → Type 0
  Works i order shared outside = ⊥
  Works i order shared inside = shared ≡ done order
  Works i order shared (has_read v) = (shared ≡ done order) × (v ≡ done order)
  Works i order shared (has_written v) = (shared ≡ whole (body i) (done order)) × (v ≡ done order)
  Works i order shared (left v) = ⊥

  -- The lock is free, or one thread is at work and all others are out.
  abbrev pub Serial : Option ℕ → List ℕ → System → Type 0
  Serial none order s = (s.shared ≡ done order) × ((j : ℕ) → IsOut (s.place j))
  Serial (some i) [] s = ⊥
  Serial (some i) (k ∷ order) s =
      (i ≡ k) × ((j : ℕ) → i ≢ j → IsOut (s.place j)) × Works i order s.shared (s.place i)

  -- Who is at work under the lock, where a thread is not out.
  pub record Working (h : Option ℕ) (order : List ℕ) (s : System) (i : ℕ) (p : Place) : Type 0 where
    pub before : List ℕ
    pub held : h ≡ some i
    pub taken : order ≡ i ∷ before
    pub others_out : (j : ℕ) → i ≢ j → IsOut (s.place j)
    pub works : Works i before s.shared p

  pub Serial-Working :
      (h : Option ℕ) (order : List ℕ) (s : System) (i : ℕ) (p : Place)
      → Serial h order s
      → s.place i ≡ p
      → ¬ IsOut p
      → Working h order s i p
  Serial-Working none order s i p k e busy = absurd (busy (subst IsOut e (k.1 i)))
  Serial-Working (some h) [] s i p k e busy = absurd k
  Serial-Working (some h) (first ∷ order) s i p (same, outs, w) e busy =
      elim (Bool-cases (h == i)) [
        | inl eq ↦
            let at_i : h ≡ i = ground arith in
            record {
              before = order;
              held = ap some at_i;
              taken = ap (λ k. k ∷ order) (sym same ∙ at_i);
              others_out = λ j ne. outs j (λ hj. ne (sym at_i ∙ hj));
              works =
                  subst (Works i order s.shared) e
                    (subst (λ k. Works k order s.shared (s.place k)) at_i w);
            }
        | inr ne ↦
            let apart : h ≢ i = λ q. ground arith in absurd (busy (subst IsOut e (outs i apart)))
      ]

  -- A step of the thread at work.
  Working-Serial :
      (h : Option ℕ) (order : List ℕ) (s : System) (i : ℕ) (p q : Place) (shared : Shared)
      → (k : Working h order s i p) → Works i k.before shared q
      → Serial h order (record (at s i q) { shared = shared })
  Working-Serial h order s i p q shared k w =
      let s' : System = record (at s i q) { shared = shared } in
      let serial : Serial (some i) (i ∷ k.before) s' = (
        refl,
        λ j ne. subst IsOut (sym (move_ne s.place i j q ne)) (k.others_out j ne),
        subst (Works i k.before shared) (sym (move_self s.place i q)) w,
      ) in
      subst (λ o. Serial h o s') (sym k.taken)
        (subst (λ o. Serial o (i ∷ k.before) s') (sym k.held) serial)

  IsOut-move :
      (s : System) (i : ℕ) (v : Shared)
      → ((j : ℕ) → i ≢ j → IsOut (s.place j))
      → (j : ℕ) → IsOut (move s.place i (left v) j)
  IsOut-move s i v outs j = elim (Bool-cases (i == j)) [
    | inl e ↦ rw e tt
    | inr e ↦ rw e (outs j (λ q. ground arith))
  ]

  pub Interleaved-Serial :
      (order : List ℕ) (s : System) → Interleaved body start order s → Serial s.holder order s
  unfolding one_by_one
  Interleaved-Serial order s began = (refl, λ j. tt)
  Interleaved-Serial order s (takes before v i r free is_out) =
      let k : Serial none before v =
        subst (λ h. Serial h before v) free (Interleaved-Serial before v r) in
      (
        refl,
        λ j ne. subst IsOut (sym (move_ne v.place i j inside ne)) (k.1 j),
        subst (Works i before v.shared) (sym (move_self v.place i inside)) k.0,
      )
  Interleaved-Serial order s (reads _ v i r p) =
      let k = Serial-Working v.holder order v i inside (Interleaved-Serial order v r) p (λ b. b) in
      Working-Serial v.holder order v i inside (has_read v.shared) v.shared k (k.works, k.works)
  Interleaved-Serial order s (writes _ v i x r p) =
      let k =
        Serial-Working v.holder order v i (has_read x) (Interleaved-Serial order v r) p (λ b. b) in
      Working-Serial v.holder order v i (has_read x) (has_written x) _ k
        (ap₂ (body i) k.works.1 k.works.0, k.works.1)
  Interleaved-Serial order s (leaves _ v i x r p) =
      let k =
        Serial-Working v.holder order v i (has_written x) (Interleaved-Serial order v r) p
          (λ b. b) in
      (k.works.0 ∙ ap done (sym k.taken), IsOut-move v i x k.others_out)

  -- However the threads interleave, whenever the lock is free the shared state is the one that their
  -- sections leave one after another, in the order in which they took the lock.
  pub Interleaved-one_by_one :
      (order : List ℕ) (s : System)
      → Interleaved body start order s
      → s.holder ≡ none
      → s.shared ≡ one_by_one body start order
  Interleaved-one_by_one order s r free =
      let k : Serial none order s =
        subst (λ h. Serial h order s) free (Interleaved-Serial order s r) in
      k.0
