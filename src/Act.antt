-- ===== src/Act.antt =====
-- Statements that may raise, change a state, or go on for ever. What was done before a raise stays
-- done, so the state comes back in every case.
use lobbyboy.Base.{◌≡◌, ◌≢◌, ◌⊎◌, inl, inr, refl}
use lobbyboy.Exceptions.{Exn}

-- `running` is a loop whose fuel has run out before it ended.
pub data Result {ℓ} (A : Type ℓ) : Type ℓ where
  ok : A → Result A
  raised : Exn → Result A
  running : Result A

abbrev pub Act {ℓ} : Type ℓ → Type ℓ → Type ℓ
Act S A = S → Result A × S

abbrev pub Void : Type 0
Void = Unit

module _ {ℓ} {S A : Type ℓ} where
  abbrev pub pure : A → Act S A
  pure a s = (ok a, s)

  abbrev pub raise : Exn → Act S A
  raise e s = (raised e, s)

  abbrev pub lift : Result A → Act S A
  lift r s = (r, s)

  abbrev pub gets : (S → A) → Act S A
  gets f s = (ok (f s), s)

module _ {ℓ} {S A B : Type ℓ} where
  abbrev pub follow : Result A → (A → Act S B) → Act S B
  follow (ok a) f s = f a s
  follow (raised e) f s = (raised e, s)
  follow running f s = (running, s)

  infixl 5 ◌>>=◌
  abbrev pub ◌>>=◌ : Act S A → (A → Act S B) → Act S B
  ◌>>=◌ m f s = let (r, s') = m s in follow r f s'

module _ {ℓ} {S B : Type ℓ} where
  infixl 5 ◌>>◌
  abbrev pub ◌>>◌ : {A : Type ℓ} → Act S A → Act S B → Act S B
  m >> n = m >>= λ _. n

module _ {S : Type 0} where
  abbrev pub skip : Act S Void
  skip s = (ok tt, s)

  abbrev pub modify : (S → S) → Act S Void
  modify f s = (ok tt, f s)

module _ {A B : Type 0} where
  abbrev pub bind : Result A → (A → Result B) → Result B
  bind (ok a) f = f a
  bind (raised e) f = raised e
  bind running f = running

-- Splits on how a statement has ended.
pub Result-cases : {A : Type 0} (r : Result A) → ((a : A) × (r ≡ ok a)) ⊎ ((a : A) → r ≢ ok a)
Result-cases (ok a) = inl (a, refl)
Result-cases (raised e) = inr (λ a h. cc h)
Result-cases running = inr (λ a h. cc h)

pub data Ending {A : Type 0} (r : Result A) : Type 0 where
  returned : (a : A) → r ≡ ok a → Ending r
  threw : (e : Exn) → r ≡ raised e → Ending r
  still_running : r ≡ running → Ending r

pub ending : {A : Type 0} (r : Result A) → Ending r
ending (ok a) = returned a refl
ending (raised e) = threw e refl
ending running = still_running refl

module _ {A B : Type 0} where
  pub bind-ok :
      (m : Result A) (f : A → Result B) {b : B}
      → bind m f ≡ ok b
      → (a : A) × (m ≡ ok a) × (f a ≡ ok b)
  bind-ok (ok a) f h = (a, refl, h)
  bind-ok (raised e) f h = cc
  bind-ok running f h = cc

module _ {S A : Type 0} where
  abbrev handle : Result A → (Exn → Act S A) → Act S A
  handle (ok a) h s = (ok a, s)
  handle (raised e) h s = h e s
  handle running h s = (running, s)

-- A chain that has returned got as far as its second statement.
module _ {S A B : Type 0} where
  pub then-ok :
      (r : Result A) (f : A → Act S B) (s : S) {b : B}
      → (follow r f s).0 ≡ ok b
      → (a : A) × ((f a s).0 ≡ ok b) × (r ≡ ok a)
  then-ok (ok a) f s h = (a, h, refl)
  then-ok (raised e) f s h = cc
  then-ok running f s h = cc

module _ {S A : Type 0} where
  -- `try: m except Exception as e: h e`
  abbrev pub try_except : Act S A → (Exn → Act S A) → Act S A
  try_except m h s = let (r, s') = m s in handle r h s'

-- What every value that a statement returns is like.
module _ {S A : Type 0} (P : A → Type 0) where
  abbrev pub Returns : Act S A → Type 0
  Returns m = (s : S) (a : A) → (m s).0 ≡ ok a → P a

  handle-Returns :
      (r : Result A) (g : Exn → Act S A) (s : S) (a : A)
      → (r ≡ ok a → P a)
      → ((e : Exn) → Returns (g e))
      → (handle r g s).0 ≡ ok a
      → P a
  handle-Returns (ok b) g s a p q h = p h
  handle-Returns (raised e) g s a p q h = q e s a h
  handle-Returns running g s a p q h = absurd cc

  pub try_except-Returns :
      (m : Act S A) (g : Exn → Act S A)
      → Returns m
      → ((e : Exn) → Returns (g e))
      → Returns (try_except m g)
  try_except-Returns m g p q s a h = handle-Returns (m s).0 g (m s).1 a (p s a) q h

  pub follow-Returns :
      {B : Type 0} (m : Act S B) (f : B → Act S A) → ((b : B) → Returns (f b)) → Returns (m >>= f)
  follow-Returns m f p s a h = let (b, h', _) = then-ok (m s).0 f (m s).1 h in p b (m s).1 a h'

-- As above, where the second statement needs what the first one returned to be so.
module _ {S A B : Type 0} (Q : B → Type 0) (P : A → Type 0) where
  pub then-Returns :
      (m : Act S B) (f : B → Act S A)
      → Returns Q m
      → ((b : B) → Q b → Returns P (f b))
      → Returns P (m >>= f)
  then-Returns m f q p s a h =
      let (b, h', e) = then-ok (m s).0 f (m s).1 h in p b (q s b e) (m s).1 a h'

-- How a chain goes on after its first statement.
module _ {S A B : Type 0} where
  pub follow-returned :
      (m : Act S A) (f : A → Act S B) (s s' : S) (a : A) → m s ≡ (ok a, s') → (m >>= f) s ≡ f a s'
  follow-returned m f s s' a e = rw (e) refl

  pub follow-raised :
      (m : Act S A) (f : A → Act S B) (s s' : S) (e : Exn)
      → m s ≡ (raised e, s')
      → (m >>= f) s ≡ (raised e, s')
  follow-raised m f s s' e h = rw (h) refl

  pub follow-running :
      (m : Act S A) (f : A → Act S B) (s s' : S) → m s ≡ (running, s') → (m >>= f) s ≡ (running, s')
  follow-running m f s s' h = rw (h) refl

-- What holds of the value and the state of every statement that returns from a state like `P`.
module _ {S A : Type 0} where
  abbrev pub Triple : (S → Type 0) → Act S A → (A → S → Type 0) → Type 0
  Triple P m Q = (s : S) → P s → (a : A) → (m s).0 ≡ ok a → Q a (m s).1

module _ {S A B : Type 0} (Q : A → S → Type 0) where
  followed-Triple :
      (r : Result B) (f : B → Act S A) (s : S) (a : A)
      → ((b : B) → r ≡ ok b → (f b s).0 ≡ ok a → Q a (f b s).1)
      → (follow r f s).0 ≡ ok a
      → Q a (follow r f s).1
  followed-Triple (ok b) f s a p h = p b refl h
  followed-Triple (raised e) f s a p h = absurd cc
  followed-Triple running f s a p h = absurd cc

  pub follow-Triple :
      (P : S → Type 0) (R : B → S → Type 0) (m : Act S B) (f : B → Act S A)
      → Triple P m R
      → ((b : B) → Triple (R b) (f b) Q)
      → Triple P (m >>= f) Q
  follow-Triple P R m f p q s before a h =
      followed-Triple (m s).0 f (m s).1 a (λ b e h'. q b (m s).1 (p s before b e) a h') h

  -- A statement of which nothing is known.
  pub after-Triple :
      (m : Act S B) (f : B → Act S A)
      → ((b : B) → Triple (λ _. Unit) (f b) Q)
      → Triple (λ _. Unit) (m >>= f) Q
  after-Triple m f q = follow-Triple (λ _. Unit) (λ _ _. Unit) m f (λ s _ b e. tt) q
