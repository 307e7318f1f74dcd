-- ===== src/Context/Once.antt =====
-- How many of the threads that race for a lock of server/app/ups_context.py go on after it.
use ups_orchestrator.Prelude.{
  ℕ, ◌≡◌, ◌≢◌, sym, ap, ◌∙◌, Bool, true, false, none, List, [], ◌∷◌, arith, ◌==◌, Bool-cases, inl,
  inr,
}
use mathlib.Core.Path.{subst}
use ups_orchestrator.Context.State.{Shared}
use ups_orchestrator.Context.Threads.{
  Place, inside, has_read, has_written, left, System, move, Interleaved, began, takes, reads,
  writes, leaves, one_by_one,
}
use ups_orchestrator.Context.Serial.{
  move_self, move_ne, Interleaved-Serial, Serial-Working, Interleaved-one_by_one,
}

-- A section that is guarded: a thread that goes on closes what it found open, and one that does not
-- writes nothing.
pub record IsGuarded (body : ℕ → Shared → Shared → Shared) (goes : ℕ → Shared → Bool)
    (closed : Shared → Bool) : Type 0 where
  pub closes : (i : ℕ) (v h : Shared) → goes i v ≡ true → closed (body i v h) ≡ true
  pub stays : (i : ℕ) (v h : Shared) → goes i v ≡ false → body i v h ≡ h
  pub found_open : (i : ℕ) (v : Shared) → goes i v ≡ true → closed v ≡ false

-- The thread has decided to go on.
abbrev Goes : (Shared → Bool) → Place → Type 0
Goes goes (has_written v) = goes v ≡ true
Goes goes (left v) = goes v ≡ true
Goes goes _ = ⊥

module _ (body : ℕ → Shared → Shared → Shared) (start : Shared) (goes : ℕ → Shared → Bool)
    (closed : Shared → Bool) (guarded : IsGuarded body goes closed) where
  record Once (shared : Shared) (place : ℕ → Place) : Type 0 where
    shut : (i : ℕ) → Goes (goes i) (place i) → closed shared ≡ true
    single : (i j : ℕ) → Goes (goes i) (place i) → Goes (goes j) (place j) → i ≡ j

  -- What goes after a move, of a thread that goes no more than before, did so before.
  moved :
      (place : ℕ → Place) (i : ℕ) (q : Place)
      → (Goes (goes i) q → Goes (goes i) (place i))
      → (j : ℕ) → Goes (goes j) (move place i q j)
      → Goes (goes j) (place j)
  moved place i q f j g = elim (Bool-cases (i == j)) [
    | inl e ↦
        let at_j : i ≡ j = ground arith in
        let here : Goes (goes i) (move place i q i) =
          subst (λ k. Goes (goes k) (move place i q k)) (sym at_j) g in
        subst (λ k. Goes (goes k) (place k)) at_j
          (f (subst (Goes (goes i)) (move_self place i q) here))
    | inr e ↦
        let apart : i ≢ j = λ eq. ground arith in
        subst (Goes (goes j)) (move_ne place i j q apart) g
  ]

  -- Where no thread goes yet, the one that moves is the only one that may.
  moved_alone :
      (place : ℕ → Place) (i : ℕ) (q : Place)
      → ((j : ℕ) → ¬ Goes (goes j) (place j))
      → (j : ℕ) → Goes (goes j) (move place i q j)
      → i ≡ j
  moved_alone place i q calm j g = elim (Bool-cases (i == j)) [
    | inl e ↦ ground arith
    | inr e ↦
        let apart : i ≢ j = λ eq. ground arith in
        absurd (calm j (subst (Goes (goes j)) (move_ne place i j q apart) g))
  ]

  Once-move :
      (shared : Shared) (place : ℕ → Place) (i : ℕ) (q : Place)
      → (Goes (goes i) q → Goes (goes i) (place i))
      → Once shared place
      → Once shared (move place i q)
  Once-move shared place i q f o = record {
    shut = λ j g. o.shut j (moved place i q f j g);
    single = λ j k g h. o.single j k (moved place i q f j g) (moved place i q f k h);
  }

  Once-writes :
      (shared : Shared) (place : ℕ → Place) (i : ℕ) (x : Shared)
      → x ≡ shared
      → Once shared place
      → Once (body i x shared) (move place i (has_written x))
  Once-writes shared place i x e o = elim (Bool-cases (goes i x)) [
    | inl g ↦
        let open_still : closed shared ≡ false =
          subst (λ h. closed h ≡ false) e (guarded.found_open i x g) in
        let calm = λ (j : ℕ) (b : Goes (goes j) (place j)).
          let shut_then = o.shut j b in let no : ⊥ = cc in no in
        record {
          shut = λ j b. guarded.closes i x shared g;
          single = λ j k b c.
              sym (moved_alone place i (has_written x) calm j b)
              ∙ moved_alone place i (has_written x) calm k c;
        }
    | inr n ↦
        subst (λ h. Once h (move place i (has_written x))) (sym (guarded.stays i x shared n))
          (Once-move shared place i (has_written x) (λ g. let no : ⊥ = cc in absurd no) o)
  ]

  Interleaved-Once :
      (order : List ℕ) (s : System) → Interleaved body start order s → Once s.shared s.place
  Interleaved-Once order s began = record { shut = λ i g. absurd g; single = λ i j g. absurd g }
  Interleaved-Once order s (takes _ v i r free is_out) =
      Once-move v.shared v.place i inside (λ g. absurd g) (Interleaved-Once _ v r)
  Interleaved-Once order s (reads _ v i r p) =
      Once-move v.shared v.place i (has_read v.shared) (λ g. absurd g) (Interleaved-Once order v r)
  Interleaved-Once order s (writes _ v i x r p) =
      let k =
        Serial-Working body start v.holder order v i (has_read x)
          (Interleaved-Serial body start order v r) p (λ b. b) in
      Once-writes v.shared v.place i x (k.works.1 ∙ sym k.works.0) (Interleaved-Once order v r)
  Interleaved-Once order s (leaves _ v i x r p) =
      Once-move v.shared v.place i (left x) (λ g. subst (Goes (goes i)) (sym p) g)
        (Interleaved-Once order v r)

  one_by_one-closed :
      (i : ℕ) (order : List ℕ)
      → ((j : ℕ) → goes j start ≡ true)
      → closed (one_by_one body start (i ∷ order)) ≡ true
  unfolding one_by_one
  one_by_one-closed i [] all = guarded.closes i start start (all i)
  one_by_one-closed i (k ∷ order) all =
      let h = one_by_one body start (k ∷ order) in
      let before = one_by_one-closed k order all in
      elim (Bool-cases (goes i h)) [
        | inl g ↦ guarded.closes i h h g
        | inr n ↦ subst (λ x. closed x ≡ true) (sym (guarded.stays i h h n)) before
      ]

  -- At most one thread goes on; and if each would have gone on at first, the state is closed whenever
  -- the lock is free after the first of them.
  pub Interleaved-Single :
      (order : List ℕ) (s : System)
      → Interleaved body start order s
      → ((j k : ℕ) (u v : Shared)
          → s.place j ≡ left u
          → goes j u ≡ true
          → s.place k ≡ left v
          → goes k v ≡ true
          → j ≡ k)
        × ((first : ℕ) (rest : List ℕ)
            → order ≡ first ∷ rest
            → ((j : ℕ) → goes j start ≡ true)
            → s.holder ≡ none
            → closed s.shared ≡ true)
  Interleaved-Single order s r = (
    λ j k u v at_j g at_k h.
        (Interleaved-Once order s r).single j k (subst (Goes (goes j)) (sym at_j) g)
          (subst (Goes (goes k)) (sym at_k) h),
    λ first rest e all free.
        subst (λ x. closed x ≡ true)
          (sym (Interleaved-one_by_one body start order s r free ∙ ap (one_by_one body start) e))
          (one_by_one-closed first rest all),
  )
