-- ===== src/Exec.antt =====
-- The handlers of osd-target/osd.c as actions on a state: a handler runs to its end, or leaves by one
-- of its error labels with the reply that it builds there. A loop that makes more rounds than its
-- counters allow never ends, and an assertion that fails stops the program: both leave the action
-- unfinished.
use viji_osc_osd.Base.{ℕ, ◌≡◌, refl, Bool, true, false}

-- Sense data with the sense key and the additional sense code, the object that it names and, for
-- `sense_build_sdd_csi`, the information field; or the bare OSD_ERROR; or the header alone, with key and
-- code; or a length of sense data that was never put into the command's buffer.
pub data Reply : Type 0 where
  sdd : ℕ → ℕ → ℕ → ℕ → Reply
  sdd_csi : ℕ → ℕ → ℕ → ℕ → ℕ → Reply
  osd_error_reply : Reply
  header : ℕ → ℕ → Reply
  unset : Reply

pub data Exit (A : Type 0) : Type 0 where
  value : A → Exit A
  reply : Reply → Exit A
  unfinished : Exit A

abbrev pub Exec : Type 0 → Type 0 → Type 0
Exec S A = S → Exit A × S

abbrev pub pure : {S A : Type 0} → A → Exec S A
pure a s = (value a, s)

abbrev pub raise : {S A : Type 0} → Reply → Exec S A
raise r s = (reply r, s)

abbrev pub and_then : {S A B : Type 0} → (A → Exec S B) → Exit A × S → Exit B × S
and_then f (value a, s) = f a s
and_then f (reply r, s) = (reply r, s)
and_then f (unfinished, s) = (unfinished, s)

infixl 5 ◌>>=◌ ◌>>◌
abbrev pub ◌>>=◌ : {S A B : Type 0} → Exec S A → (A → Exec S B) → Exec S B
(m >>= f) s = and_then f (m s)

abbrev pub ◌>>◌ : {S A B : Type 0} → Exec S A → Exec S B → Exec S B
m >> n = m >>= (λ _. n)

abbrev pub modify : {S : Type 0} → (S → S) → Exec S (Unit {0})
modify f s = (value tt, f s)

-- `if (test) goto label;`
abbrev pub leave_if : {S : Type 0} → Bool → Exec S (Unit {0}) → Exec S (Unit {0})
leave_if true label = label
leave_if false label = pure tt

abbrev pub spin : {S A : Type 0} → Exec S A
spin s = (unfinished, s)

abbrev pub assert : {S : Type 0} → Bool → Exec S (Unit {0})
assert true = pure tt
assert false = spin

abbrev pub dropped : {S A : Type 0} → Exit A × S → Exit (Unit {0}) × S
dropped (value a, s) = (value tt, s)
dropped (reply r, s) = (value tt, s)
dropped (unfinished, s) = (unfinished, s)

-- A call whose result is not read.
abbrev pub ignore : {S A : Type 0} → Exec S A → Exec S (Unit {0})
ignore m s = dropped (m s)

abbrev cleaned : {S A : Type 0} → Exec S (Unit {0}) → Exit A × S → Exit A × S
cleaned m (value a, s) = (value a, s)
cleaned m (reply r, s) = (m >> raise r) s
cleaned m (unfinished, s) = (unfinished, s)

-- An error label that does something before it returns.
abbrev pub on_error : {S A : Type 0} → Exec S A → Exec S (Unit {0}) → Exec S A
on_error m label s = cleaned label (m s)

abbrev pub relabelled : {S A : Type 0} → Reply → Exit A × S → Exit A × S
relabelled r (value a, s) = (value a, s)
relabelled r (reply _, s) = (reply r, s)
relabelled r (unfinished, s) = (unfinished, s)

-- A function whose every error leads to the same label.
abbrev pub failing_as : {S A : Type 0} → Reply → Exec S A → Exec S A
failing_as r m s = relabelled r (m s)

-- What is to hold of a result: Q where the action ran to its end, E where it left. It does either.
abbrev pub Post : {S A : Type 0} → (A → S → Type 0) → (Reply → S → Type 0) → Exit A × S → Type 0
Post Q E (value a, s) = Q a s
Post Q E (reply r, s) = E r s
Post Q E (unfinished, s) = ⊥

-- From every state of P, the action ends in Q or leaves in E.
pub record Hoare {S A : Type 0} (P : S → Type 0) (m : Exec S A) (Q : A → S → Type 0)
    (E : Reply → S → Type 0) : Type 0 where
  pub at : (s : S) → P s → Post Q E (m s)

module _ {S : Type 0} (E : Reply → S → Type 0) where
  Post-bind :
      {A B : Type 0} (Q : A → S → Type 0) (R : B → S → Type 0) (f : A → Exec S B) (r : Exit A × S)
      → Post Q E r
      → ((a : A) (s : S) → Q a s → Post R E (f a s))
      → Post R E (and_then f r)
  Post-bind Q R f (value a, s) h g = g a s h
  Post-bind Q R f (reply r, s) h g = h
  Post-bind Q R f (unfinished, s) h g = h

  Post-map :
      {A : Type 0} (Q Q' : A → S → Type 0) (E' : Reply → S → Type 0) (r : Exit A × S)
      → ((a : A) (s : S) → Q a s → Q' a s)
      → ((e : Reply) (s : S) → E e s → E' e s)
      → Post Q E r
      → Post Q' E' r
  Post-map Q Q' E' (value a, s) f g h = f a s h
  Post-map Q Q' E' (reply e, s) f g h = g e s h
  Post-map Q Q' E' (unfinished, s) f g h = h

  Post-dropped :
      {A : Type 0} (Q : S → Type 0) (r : Exit A × S)
      → Post (λ (a : A). Q) (λ e. Q) r
      → Post (λ _. Q) E (dropped r)
  Post-dropped Q (value a, s) h = h
  Post-dropped Q (reply e, s) h = h
  Post-dropped Q (unfinished, s) h = h

module _ {S : Type 0} {P : S → Type 0} where
  pub bind :
      {A B : Type 0} {Q : A → S → Type 0} {R : B → S → Type 0} {E : Reply → S → Type 0}
      {m : Exec S A} {f : A → Exec S B}
      → Hoare P m Q E
      → ((a : A) → Hoare (Q a) (f a) R E)
      → Hoare P (m >>= f) R E
  bind {Q} {R} {E} {m} {f} h g = record {
    at = λ s p. Post-bind E Q R f (m s) (h.at s p) (λ a t q. (g a).at t q);
  }

  pub ret :
      {A : Type 0} {Q : A → S → Type 0} {E : Reply → S → Type 0} (a : A)
      → ((s : S) → P s → Q a s)
      → Hoare P (pure a) Q E
  ret a h = record { at = h }

  pub raised :
      {A : Type 0} {Q : A → S → Type 0} {E : Reply → S → Type 0} (r : Reply)
      → ((s : S) → P s → E r s)
      → Hoare P (raise {A = A} r) Q E
  raised r h = record { at = h }

  -- An error label leaves whatever is to hold behind the test.
  pub left_if :
      {E : Reply → S → Type 0} (b : Bool) {label : Exec S (Unit {0})}
      → Hoare P label (λ _ s. P s × (b ≡ false)) E
      → Hoare P (leave_if b label) (λ _ s. P s × (b ≡ false)) E
  left_if true h = h
  left_if false h = record { at = λ s p. (p, refl) }

  -- What the states of P have in common is a premise.
  pub knowing :
      {A C : Type 0} {Q : A → S → Type 0} {E : Reply → S → Type 0} {m : Exec S A}
      → ((s : S) → P s → C)
      → (C → Hoare P m Q E)
      → Hoare P m Q E
  knowing c h = record { at = λ s p. (h (c s p)).at s p }

  -- A fact beside the state is a premise.
  pub given :
      {A C : Type 0} {Q : A → S → Type 0} {E : Reply → S → Type 0} {m : Exec S A}
      → (C → Hoare P m Q E)
      → Hoare (λ s. P s × C) m Q E
  given h = record { at = λ s p. (h p.1).at s p.0 }

  -- A test that is known to fail.
  pub passed :
      {E : Reply → S → Type 0} (b : Bool) (label : Exec S (Unit {0}))
      → b ≡ false
      → Hoare P (leave_if b label) (λ _. P) E
  passed true label e = absurd (cc e)
  passed false label e = record { at = λ s p. p }

  pub modified :
      {Q : Unit {0} → S → Type 0} {E : Reply → S → Type 0} (f : S → S)
      → ((s : S) → P s → Q tt (f s))
      → Hoare P (modify f) Q E
  modified f h = record { at = h }

  pub weaken :
      {A : Type 0} {P' : S → Type 0} {Q Q' : A → S → Type 0} {E E' : Reply → S → Type 0}
      {m : Exec S A}
      → Hoare P m Q E
      → ((s : S) → P' s → P s)
      → ((a : A) (s : S) → Q a s → Q' a s)
      → ((e : Reply) (s : S) → E e s → E' e s)
      → Hoare P' m Q' E'
  weaken {Q} {Q'} {E} {E'} {m} h pre f g = record {
    at = λ s p. Post-map E Q Q' E' (m s) f g (h.at s (pre s p));
  }

  pub ignored :
      {A : Type 0} {Q : S → Type 0} {E : Reply → S → Type 0} {m : Exec S A}
      → Hoare P m (λ _. Q) (λ _. Q)
      → Hoare P (ignore m) (λ _. Q) E
  ignored {Q} {E} {m} h = record { at = λ s p. Post-dropped E Q (m s) (h.at s p) }
