-- ===== src/Runs/Laws.antt =====
-- Rules for runs: what holds before a run, after it, and after an error.
use mathlib.Core.Path.{◌≡◌, refl}
use mathlib.Core.List.{◌∷◌}
use temporal_agents.Prelude.{Result, ok, err}
use temporal_agents.Runs.{
  Failure, Stop, failed, Scope, Run, ◌>>=◌, ◌>>◌, give, read, assign, ask, attempt,
}

module _ {C V I : Type 0} where
  -- What an end of a run says: `Q` of its value, or `E` of its error.
  abbrev pub Outcome :
      {A : Type 0}
      → (A → Scope C V → Type 0)
      → (Stop I → Scope C V → Type 0)
      → Scope C V
      → Result (Stop I) A
      → Type 0
  Outcome Q E s (ok a) = Q a s
  Outcome Q E s (err e) = E e s

  -- From a scope where `P` holds, the run `m` ends as `Q` and `E` say.
  pub record Triple {A : Type 0} (P : Scope C V → Type 0) (m : Run C V I A)
      (Q : A → Scope C V → Type 0) (E : Stop I → Scope C V → Type 0) : Type 0 where
    pub ends : (s : Scope C V) → P s → Outcome Q E (m s).0 (m s).1

  bind-Outcome :
      {A B : Type 0} (Q : A → Scope C V → Type 0) (Q' : B → Scope C V → Type 0)
      (E : Stop I → Scope C V → Type 0) (next : A → Run C V I B)
      → ((a : A) → Triple (Q a) (next a) Q' E)
      → (s : Scope C V) (r : Result (Stop I) A) → Outcome Q E s r
      → let out : Scope C V × Result (Stop I) B = elim r [ ok a ↦ next a s | err e ↦ (s, err e) ] in
        Outcome Q' E out.0 out.1
  bind-Outcome Q Q' E next h s (ok a) q = (h a).ends s q
  bind-Outcome Q Q' E next h s (err e) q = q

  -- One step after another.
  pub >>=-Triple :
      {A B : Type 0} {P : Scope C V → Type 0} {Q : A → Scope C V → Type 0}
      {Q' : B → Scope C V → Type 0} {E : Stop I → Scope C V → Type 0} {m : Run C V I A}
      {next : A → Run C V I B}
      → Triple P m Q E
      → ((a : A) → Triple (Q a) (next a) Q' E)
      → Triple P (m >>= next) Q' E
  >>=-Triple {Q} {Q'} {E} {m} {next} first later = record {
    ends = λ s p. bind-Outcome Q Q' E next later (m s).0 (m s).1 (first.ends s p);
  }

  weaken-Outcome :
      {A : Type 0} (Q Q' : A → Scope C V → Type 0) (E : Stop I → Scope C V → Type 0)
      → ((a : A) (s : Scope C V) → Q a s → Q' a s)
      → (s : Scope C V) (r : Result (Stop I) A) → Outcome Q E s r
      → Outcome Q' E s r
  weaken-Outcome Q Q' E weaker s (ok a) q = weaker a s q
  weaken-Outcome Q Q' E weaker s (err e) q = q

  -- A weaker conclusion.
  pub Triple-weaken :
      {A : Type 0} {P : Scope C V → Type 0} {Q Q' : A → Scope C V → Type 0}
      {E : Stop I → Scope C V → Type 0} {m : Run C V I A}
      → ((a : A) (s : Scope C V) → Q a s → Q' a s)
      → Triple P m Q E
      → Triple P m Q' E
  Triple-weaken {Q} {Q'} {E} {m} weaker t = record {
    ends = λ s p. weaken-Outcome Q Q' E weaker (m s).0 (m s).1 (t.ends s p);
  }

  fails-Outcome :
      {A : Type 0} (Q : A → Scope C V → Type 0) (E E' : Stop I → Scope C V → Type 0)
      → ((e : Stop I) (s : Scope C V) → E e s → E' e s)
      → (s : Scope C V) (r : Result (Stop I) A) → Outcome Q E s r
      → Outcome Q E' s r
  fails-Outcome Q E E' weaker s (ok a) q = q
  fails-Outcome Q E E' weaker s (err e) q = weaker e s q

  -- A weaker conclusion of an error.
  pub Triple-fails :
      {A : Type 0} {P : Scope C V → Type 0} {Q : A → Scope C V → Type 0}
      {E E' : Stop I → Scope C V → Type 0} {m : Run C V I A}
      → ((e : Stop I) (s : Scope C V) → E e s → E' e s)
      → Triple P m Q E
      → Triple P m Q E'
  Triple-fails {Q} {E} {E'} {m} weaker t = record {
    ends = λ s p. fails-Outcome Q E E' weaker (m s).0 (m s).1 (t.ends s p);
  }

  -- A stronger premise.
  pub Triple-strengthen :
      {A : Type 0} {P P' : Scope C V → Type 0} {Q : A → Scope C V → Type 0}
      {E : Stop I → Scope C V → Type 0} {m : Run C V I A}
      → ((s : Scope C V) → P' s → P s)
      → Triple P m Q E
      → Triple P' m Q E
  Triple-strengthen stronger t = record { ends = λ s p. t.ends s (stronger s p) }

  -- A read of the variables.
  pub read-Triple :
      {B : Type 0} {P : Scope C V → Type 0} {Q' : B → Scope C V → Type 0}
      {E : Stop I → Scope C V → Type 0} {next : V → Run C V I B}
      → ((v : V) → Triple (λ s. P s × (v ≡ s.vars)) (next v) Q' E)
      → Triple P (read >>= next) Q' E
  read-Triple h = record { ends = λ s p. (h s.vars).ends s (p, refl) }

  -- An assignment.
  pub assign-Triple :
      {B : Type 0} {P P' : Scope C V → Type 0} {Q' : B → Scope C V → Type 0}
      {E : Stop I → Scope C V → Type 0} {rest : Run C V I B} (f : V → V)
      → ((s : Scope C V) → P s → P' (record s { vars = f s.vars }))
      → Triple P' rest Q' E
      → Triple P (assign f >> rest) Q' E
  assign-Triple f keep h = record { ends = λ s p. h.ends _ (keep s p) }

  -- A value that is computed from the one before.
  pub give-Triple :
      {A B : Type 0} {P : Scope C V → Type 0} {Q : A → Scope C V → Type 0}
      {Q' : B → Scope C V → Type 0} {E : Stop I → Scope C V → Type 0} {m : Run C V I A} (f : A → B)
      → Triple P m Q E
      → ((a : A) (s : Scope C V) → Q a s → Q' (f a) s)
      → Triple P (m >>= λ a. give (f a)) Q' E
  give-Triple f t h = >>=-Triple {next = λ a. give (f a)} t (λ a. record { ends = λ s q. h a s q })

  -- A command whose error is returned.
  pub ask-Triple :
      {A B : Type 0} {P : Scope C V → Type 0} {P' : Scope C V → Type 0}
      {Q' : B → Scope C V → Type 0} {E : Stop I → Scope C V → Type 0} {next : A → Run C V I B}
      (command : C) (answer : Result Failure A)
      → ((s : Scope C V) → P s → P' (record s { log = command ∷ s.log }))
      → ((f : Failure) → answer ≡ err f → (s : Scope C V) → P' s → E (failed f) s)
      → ((a : A) → answer ≡ ok a → Triple P' (next a) Q' E)
      → Triple P (ask command answer >>= next) Q' E
  ask-Triple command (ok a) keep fail later = record {
    ends = λ s p. (later a refl).ends _ (keep s p);
  }
  ask-Triple command (err e) keep fail later = record { ends = λ s p. fail e refl _ (keep s p) }

  -- A command whose error is looked at.
  pub attempt-Triple :
      {A B : Type 0} {P P' : Scope C V → Type 0} {Q' : B → Scope C V → Type 0}
      {E : Stop I → Scope C V → Type 0} (command : C) (answer : Result Failure A)
      (next : Result Failure A → Run C V I B)
      → ((s : Scope C V) → P s → P' (record s { log = command ∷ s.log }))
      → Triple P' (next answer) Q' E
      → Triple P (attempt command answer >>= next) Q' E
  attempt-Triple command answer next keep later = record { ends = λ s p. later.ends _ (keep s p) }

  any-Outcome :
      {A : Type 0} (s : Scope C V) (r : Result (Stop I) A)
      → Outcome {A = A} (λ _ _. Unit {0}) (λ _ _. Unit {0}) s r
  any-Outcome s (ok a) = tt
  any-Outcome s (err e) = tt

  -- What is said of every run.
  pub Triple-any :
      {A : Type 0} {P : Scope C V → Type 0} (m : Run C V I A)
      → Triple P m (λ _ _. Unit {0}) (λ _ _. Unit {0})
  Triple-any m = record { ends = λ s _. any-Outcome (m s).0 (m s).1 }
