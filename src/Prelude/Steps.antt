-- ===== src/Prelude/Steps.antt =====
-- Sequences of steps of a relation.
pub data Steps {A : Type 0} (R : A → A → Type 0) : A → A → Type 0 where
  done : {s : A} → Steps R s s
  step : {s t u : A} → R s t → Steps R t u → Steps R s u

-- What each step keeps, the sequence keeps.
pub Steps-keep :
    {A : Type 0} {R : A → A → Type 0} (P : A → Type 0)
    → ((s t : A) → R s t → P s → P t)
    → (s t : A) → Steps R s t
    → P s
    → P t
Steps-keep P keep s _ Steps.done p = p
Steps-keep P keep s u (Steps.step {t = t} r rs) p = Steps-keep P keep t u rs (keep s t r p)
